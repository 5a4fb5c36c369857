-- ===== src/Admission/Requests.antt =====
-- experiments/d4/admission.py: what is accepted as a request, an upstream outcome and a proof.
-- SHA-256 is the argument `sha256`.
use Prim.Native.String.{compare as compare_text, ◌++◌ as append}
use Prim.Native.Nat.{Ordering}
use highly_available_trailba.Prelude.{
  ℕ, zero, suc, ◌/◌, ◌%◌, ◌*◌, Bool, true, false, ◌&&◌, ◌||◌, not, String, List, [], ◌∷◌, ◌++◌,
  Option, none, some, ◌==◌, nat_eq, string_eq, all, contains, length, leb, Result, ok, raise,
  raise_if, Exc, value_error, if◌then◌else◌,
}
use highly_available_trailba.Fallible.{◌>>=◌, ◌>>◌}
use highly_available_trailba.Py.Value.{
  Value, bool, int, str, bytes, obj, Fields, end, field, get, has_keys, is_text, keys,
}
use highly_available_trailba.Py.Text.{codes, encode, is_hex, is_operation, is_epoch_upto}

abbrev pub max_body : ℕ
max_body = 1024 * 1024

-- `SURFACES`, by method and path
unfoldable pub surface : String → String → Option String
surface method path =
    if not (method == "POST")
    then none
    else if path == "/api/records/v1/main_ops"
    then some "main"
    else if path == "/api/records/v1/aux_ops"
    then some "aux"
    else if path == "/api/auth/v1/login"
        || path == "/api/auth/v1/logout"
        || path == "/api/auth/v1/refresh"
    then some "session"
    else none

-- A request that has passed its checks, its fields by name.
pub record Request : Type 0 where
  pub operation_id : String
  pub method : String
  pub path : String
  pub body : List ℕ
  pub headers : List (String × String)
  pub epoch : String
  pub writer_boot : String

abbrev request_from :
    String → String → String → List ℕ → List (String × String) → String → String → Request
request_from i m p b h e w = record {
  operation_id = i;
  method = m;
  path = p;
  body = b;
  headers = h;
  epoch = e;
  writer_boot = w;
}

-- `_BOOT`: hexadecimal groups of 8, 4, 4, 4 and 12 digits
hex_groups : List ℕ → ℕ → List ℕ → Bool
hex_groups [] zero [] = true
hex_groups [] zero (c ∷ cs) = false
hex_groups (g ∷ gs) zero [] = false
hex_groups (g ∷ gs) zero (c ∷ cs) = c == b'-' && hex_groups gs g cs
hex_groups gs (suc n) [] = false
hex_groups gs (suc n) (c ∷ cs) = is_hex c && hex_groups gs n cs

unfoldable pub is_boot : String → Bool
unfolding hex_groups is_hex
is_boot s = hex_groups (4 ∷ 4 ∷ 4 ∷ 12 ∷ []) 8 (codes s)

is_alnum : ℕ → Bool
is_alnum c = leb b'0' c && leb c b'9' || leb b'a' c && leb c b'z' || leb b'A' c && leb c b'Z'

evidence_codes : List ℕ → Bool
evidence_codes [] = false
evidence_codes (c ∷ cs) =
    is_alnum c
    && leb (length cs) 127
    && all (λ d. is_alnum d || d == b'.' || d == b'_' || d == b'-') cs

-- `_EVIDENCE`
unfoldable pub is_evidence : String → Bool
unfolding evidence_codes is_alnum
is_evidence s = evidence_codes (codes s)

-- a dict of texts, each at most 8192 characters long
header_pairs : Fields → Option (List (String × String))
header_pairs end = some []
header_pairs (field k (str v) fs) =
    let rest = header_pairs fs in
    if leb (length (codes v)) 8192
    then elim rest [ none ↦ none | some more ↦ some ((k, v) ∷ more) ]
    else none
header_pairs (field k v fs) = none

abbrev header_keys : List String
header_keys = "content-type" ∷ "authorization" ∷ "cookie" ∷ []

unfoldable pub headers_of : Value → Option (List (String × String))
unfolding header_pairs keys contains
headers_of (obj fs) = if all (contains header_keys) (keys fs) then header_pairs fs else none
headers_of v = none

unfoldable pub body_of : Value → Option (List ℕ)
body_of (bytes b) = if leb (length b) max_body then some b else none
body_of v = none

-- a text that passes a test
unfoldable pub text_of : (String → Bool) → Value → Option String
text_of p (str s) = if p s then some s else none
text_of p v = none

-- `key + ':' + item` by key, in order
insert_header : String × String → List (String × String) → List (String × String)
insert_header h [] = h ∷ []
insert_header h (g ∷ gs) =
    let rest = insert_header h gs in
    elim (compare_text h.0 g.0) [ Ordering.gt ↦ g ∷ rest | _ ↦ h ∷ g ∷ gs ]

sort_headers : List (String × String) → List (String × String)
sort_headers [] = []
sort_headers (h ∷ hs) = insert_header h (sort_headers hs)

-- `n.to_bytes(k, 'big')`, for a number that fits
big_endian : ℕ → ℕ → List ℕ
big_endian zero n = []
big_endian (suc k) n = big_endian k (n / 256) ++ (n % 256) ∷ []

-- the bytes that are hashed for an item: its length, then itself
framed : List ℕ → List ℕ
framed item = big_endian 8 (length item) ++ item

framed_all : List (List ℕ) → List ℕ
framed_all [] = []
framed_all (i ∷ is) = framed i ++ framed_all is

header_items : List (String × String) → List (List ℕ)
header_items [] = []
header_items ((k, v) ∷ hs) = encode (append k (append ":" v)) ∷ header_items hs

unfoldable pub digest_input : Request → List ℕ
unfolding framed_all framed header_items sort_headers insert_header big_endian
digest_input r = framed_all (
    encode r.method
    ∷ encode r.path
    ∷ encode r.epoch
    ∷ encode r.writer_boot
    ∷ r.body
    ∷ header_items (sort_headers r.headers))

abbrev request_keys : List String
request_keys =
    "operation_id" ∷ "method" ∷ "path" ∷ "body" ∷ "headers" ∷ "epoch" ∷ "writer_boot" ∷ []

abbrev pub invalid_request : Exc
invalid_request = value_error "invalid admission request"

abbrev pub need {ℓ} : {A : Type ℓ} → Option A → Exc → Result A
need none e = raise e
need (some a) e = ok a

-- `_request`: the request with the surface that it writes; its digest is `digest_input`, hashed
unfoldable pub request_of : Value → Result (Request × String)
unfolding text_of is_operation headers_of body_of is_boot is_epoch_upto surface has_keys get
request_of v = do
  raise_if (not (has_keys request_keys v)) invalid_request
  ident ← need (text_of is_operation (get v "operation_id")) invalid_request
  method ← need (text_of (λ s. true) (get v "method")) invalid_request
  path ← need (text_of (λ s. true) (get v "path")) invalid_request
  database ← need (surface method path) invalid_request
  body ← need (body_of (get v "body")) invalid_request
  headers ← need (headers_of (get v "headers")) invalid_request
  epoch ← need (text_of (is_epoch_upto 124) (get v "epoch")) invalid_request
  boot ← need (text_of is_boot (get v "writer_boot")) invalid_request
  ok (request_from ident method path body headers epoch boot, database)

-- What an upstream answered, once it has passed `_outcome`.
pub record Outcome : Type 0 where
  pub status : ℕ
  pub response_body : List ℕ
  pub is_completed : Bool

abbrev outcome_from : ℕ → List ℕ → Bool → Outcome
outcome_from n b c = record { status = n; response_body = b; is_completed = c }

abbrev pub invalid_outcome : Exc
invalid_outcome = value_error "invalid upstream outcome"

-- `type(v) is int and lo <= v <= hi`
unfoldable pub int_within : ℕ → ℕ → Value → Option ℕ
int_within lo hi (int n) = if leb lo n && leb n hi then some n else none
int_within lo hi v = none

-- `v in ('possible', 'completed')`, and whether it is the second
unfoldable pub mutation_of : Value → Option Bool
mutation_of (str s) =
    if s == "completed" then some true else if s == "possible" then some false else none
mutation_of v = none

-- `_outcome`
unfoldable pub outcome_of : Value → Result Outcome
unfolding int_within mutation_of body_of has_keys get
outcome_of v = do
  raise_if (not (has_keys ("status" ∷ "response_body" ∷ "mutation" ∷ []) v)) invalid_outcome
  status ← need (int_within 100 599 (get v "status")) invalid_outcome
  body ← need (body_of (get v "response_body")) invalid_outcome
  completed ← need (mutation_of (get v "mutation")) invalid_outcome
  raise_if (completed && not (leb 200 status && leb status 299)) invalid_outcome
  ok (outcome_from status body completed)

-- What a proof must be bound to.
pub record Binding : Type 0 where
  pub operation_id : String
  pub request_digest : String
  pub epoch : String
  pub writer_boot : String
  pub database : String

-- What a proof gives, once it has passed `_proof`.
pub record Proof : Type 0 where
  pub txid : ℕ
  pub evidence_id : String

abbrev pub proof_from : ℕ → String → Proof
proof_from n e = record { txid = n; evidence_id = e }

abbrev pub invalid_proof : Exc
invalid_proof = value_error "invalid admission proof"

abbrev pub proof_keys : List String
proof_keys =
    "operation_id" ∷ "request_digest" ∷ "epoch" ∷ "writer_boot" ∷ "database" ∷ "txid"
    ∷ "replica_txid" ∷ "image_verified" ∷ "evidence_id" ∷ []

-- the five keys that a proof repeats from what was required
unfoldable pub is_bound : Value → Binding → Bool
unfolding is_text get
is_bound v b =
    is_text b.operation_id (get v "operation_id")
    && is_text b.request_digest (get v "request_digest")
    && is_text b.epoch (get v "epoch")
    && is_text b.writer_boot (get v "writer_boot")
    && is_text b.database (get v "database")

-- `type(v) is int and v > 0`
unfoldable pub positive : Value → Option ℕ
positive (int (suc n)) = some (suc n)
positive v = none

-- `v is True`
unfoldable pub is_true : Value → Bool
is_true (bool b) = b
is_true v = false

-- `type(v) is int and v == n`
unfoldable pub is_int : ℕ → Value → Bool
is_int n (int m) = m == n
is_int n v = false

-- `_proof`
unfoldable pub proof_of : Value → Binding → Result Proof
unfolding has_keys get is_bound positive is_true is_int text_of is_evidence
proof_of v b = do
  raise_if (not (has_keys proof_keys v)) invalid_proof
  raise_if (not (is_bound v b)) invalid_proof
  txid ← need (positive (get v "txid")) invalid_proof
  raise_if (not (is_int txid (get v "replica_txid"))) invalid_proof
  raise_if (not (is_true (get v "image_verified"))) invalid_proof
  evidence ← need (text_of is_evidence (get v "evidence_id")) invalid_proof
  ok (proof_from txid evidence)
