-- ===== src/Acceptance/Protected/Examples.antt =====
-- A ledger of a protected restore.
use highly_available_trailba.Prelude.{
  ℕ, ◌-◌, ◌≡◌, refl, String, List, [], ◌∷◌, Option, none, some, Result, ok, raise, value_error,
  get_elem?,
}
use highly_available_trailba.Py.Value.{Value, str, int}
use highly_available_trailba.Acceptance.Protected.{smoke_pass, protected_ledger}
use highly_available_trailba.Acceptance.Protected.Unique.{IsUniqueLedger, protected_ledger-IsUnique}
use highly_available_trailba.Acceptance.Samples.{dict_of}

-- a ledger of seven lines, each of one character that stands for its frame
abbrev sample_record : String → String → ℕ → String → Value
sample_record api op ident event = dict_of (
    ("event", str event)
    ∷ ("api", str api)
    ∷ ("row", dict_of (("op_key", str op) ∷ ("payload", str "x") ∷ []))
    ∷ ("id", int ident)
    ∷ ("time_ns", int 5)
    ∷ [])

abbrev submission_of : String → String → Value
submission_of api op = dict_of (
    ("event", str "submitted")
    ∷ ("api", str api)
    ∷ ("row", dict_of (("op_key", str op) ∷ ("payload", str "x") ∷ []))
    ∷ ("time_ns", int 5)
    ∷ [])

abbrev seven_lines : List ℕ
seven_lines = b'0' ∷ 10 ∷ b'1' ∷ 10 ∷ b'2' ∷ 10 ∷ b'3' ∷ 10 ∷ b'4' ∷ 10 ∷ b'5' ∷ 10 ∷ b'6' ∷ 10 ∷ []

abbrev seven_frames : String → List Value
seven_frames op =
    dict_of
      (("auth_token", str "a") ∷ ("retained_refresh", str "b") ∷ ("revoked_refresh", str "c") ∷ [])
    ∷ submission_of "main_ops" "d1-a"
    ∷ sample_record "main_ops" "d1-a" 1 "acknowledged"
    ∷ submission_of "aux_ops" "d1-a"
    ∷ sample_record "aux_ops" "d1-a" 2 "acknowledged"
    ∷ smoke_pass
    ∷ sample_record "main_ops" op 3 "acknowledged"
    ∷ []

abbrev found : Option Value → Result Value
found none = raise (value_error "invalid canonical JSON bytes")
found (some v) = ok v

abbrev frame : String → List ℕ → Result Value
frame op [] = found none
frame op (c ∷ cs) = found (get_elem? (seven_frames op) (c - b'0'))

protected_ok : protected_ledger (frame "d1-b") seven_lines ≡ ok (seven_frames "d1-b")
unfolding protected_ledger
protected_ok = refl

-- the last record under the key of the first
repeated :
    protected_ledger (frame "d1-a") seven_lines
    ≡ raise (value_error "protected ledger historical record is invalid")
unfolding protected_ledger
repeated = refl

protected_ledger-IsUnique_example : IsUniqueLedger (seven_frames "d1-b")
protected_ledger-IsUnique_example =
    protected_ledger-IsUnique (frame "d1-b") seven_lines protected_ok
