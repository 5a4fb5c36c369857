-- ===== src/Admission/Examples.antt =====
-- The admission of one request, and the theorems at it.
use highly_available_trailba.Prelude.{
  ℕ, ◌≡◌, refl, ◌⊎◌, Bool, true, false, String, List, [], ◌∷◌, some, none, Exc, Result, ok, raise,
  pair_beq,
}
use highly_available_trailba.Py.Value.{Value, obj, str, int, bool, bytes, dict}
use highly_available_trailba.Control.Files.{Stat}
use highly_available_trailba.Admission.Requests.{
  Request, Binding, request_of, outcome_of, proof_of, digest_input,
}
use highly_available_trailba.Admission.Table.{
  State, authority_of, select, begin, update, same_status, new_row,
}
use highly_available_trailba.Admission.Admit.{Decision, admit, release}
use highly_available_trailba.Admission.Admit.Settled.{Recorded}
use highly_available_trailba.Admission.Admit.Release.{
  Backed, admit-accounts, admit-release, admit-single_use,
}

abbrev file_stat : ℕ → Stat
file_stat n = record {
  ident = (1, n);
  is_regular = true;
  is_directory = false;
  uid = 0;
  mode = 0o100600;
  nlink = 1;
}

abbrev root_stat : Stat
root_stat = record {
  ident = (1, 2);
  is_regular = false;
  is_directory = true;
  uid = 0;
  mode = 0o40700;
  nlink = 2;
}

abbrev empty_table : State ℕ
empty_table = record {
  lock = some (1, 3);
  db_open = true;
  root_identity = (1, 2);
  database_identity = (1, 4);
  disk = record {
    euid = 0;
    root = some root_stat;
    lock_file = some (file_stat 3);
    journal_file = some (file_stat 4);
  };
  rows = [];
  commits = [];
  outside = 0;
}

abbrev sha : List ℕ → String
sha b = "00"

-- counts its calls
abbrev upstream : Request → ℕ → Result Value × ℕ
upstream q n = (
  ok (
      obj (
        dict (
          ("status", int 200)
          ∷ ("response_body", bytes (7 ∷ []))
          ∷ ("mutation", str "completed")
          ∷ []))),
  Prim.Native.Nat.suc n,
)

abbrev prover : Binding → ℕ → Result Value × ℕ
prover b n = (
  ok (
      obj (
        dict (
          ("operation_id", str b.operation_id)
          ∷ ("request_digest", str b.request_digest)
          ∷ ("epoch", str b.epoch)
          ∷ ("writer_boot", str b.writer_boot)
          ∷ ("database", str b.database)
          ∷ ("txid", int 12)
          ∷ ("replica_txid", int 12)
          ∷ ("image_verified", bool true)
          ∷ ("evidence_id", str "image-12")
          ∷ []))),
  n,
)

abbrev write_request : Value
write_request = obj (
    dict (
      ("operation_id", str "0123456789abcdef0123456789abcdef")
      ∷ ("method", str "POST")
      ∷ ("path", str "/api/records/v1/main_ops")
      ∷ ("body", bytes (1 ∷ 2 ∷ []))
      ∷ ("headers", obj (dict (("cookie", str "c") ∷ [])))
      ∷ ("epoch", str "d1-initial")
      ∷ ("writer_boot", str "01234567-89ab-cdef-0123-456789abcdef")
      ∷ []))

abbrev accepted : Request
accepted = record {
  operation_id = "0123456789abcdef0123456789abcdef";
  method = "POST";
  path = "/api/records/v1/main_ops";
  body = 1 ∷ 2 ∷ [];
  headers = ("cookie", "c") ∷ [];
  epoch = "d1-initial";
  writer_boot = "01234567-89ab-cdef-0123-456789abcdef";
}

accepted_ok : request_of write_request ≡ ok (accepted, "main")
unfolding request_of
accepted_ok = refl

abbrev answered : Decision
answered = release (record { status = 200; response_body = 7 ∷ []; is_completed = true })

admit_ok : (admit sha upstream prover write_request empty_table).0 ≡ ok answered
unfolding admit request_of begin update authority_of outcome_of proof_of select same_status pair_beq
admit_ok = refl

admit-accounts_example :
    ((x : Exc) × (c : List Bool) × (admit sha upstream prover write_request empty_table
        ≡ (raise x, record empty_table { commits = c })))
    ⊎ ((q : Request) × (database : String) × (request_of write_request ≡ ok (q, database))
        × (select q.operation_id [] ≡ none)
        × Recorded sha upstream prover q
            (sha (digest_input q))
            database
            []
            empty_table.outside
            (admit sha upstream prover write_request empty_table))
admit-accounts_example = admit-accounts sha upstream prover write_request empty_table

admit-release_example :
    (q : Request) × (database : String) × (request_of write_request ≡ ok (q, database))
    × Backed sha upstream prover q database empty_table.outside
        (admit sha upstream prover write_request empty_table).1.rows
        answered
admit-release_example = admit-release sha upstream prover write_request empty_table admit_ok refl

abbrev used_table : State ℕ
used_table = record empty_table { rows = new_row accepted "00" "main" ∷ [] }

used_found : select accepted.operation_id used_table.rows ≡ some (new_row accepted "00" "main")
unfolding select
used_found = refl

admit-single_use_example :
    (x : Exc) × (admit sha upstream prover write_request used_table ≡ (raise x, used_table))
admit-single_use_example =
    admit-single_use sha upstream prover write_request used_table accepted "main"
      (new_row accepted "00" "main") accepted_ok used_found
