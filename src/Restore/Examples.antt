-- ===== src/Restore/Examples.antt =====
-- A plan of two files, and the theorem at it.
use highly_available_trailba.Prelude.{
  pair_beq, ℕ, ◌≡◌, refl, Bool, true, String, List, [], ◌∷◌, Result, ok, raise, nat_eq,
}
use highly_available_trailba.Py.Value.{Value, str, int, arr, cons, nil, obj, dict}
use highly_available_trailba.Restore.Endpoint.{restore_endpoint, malformed}
use highly_available_trailba.Restore.Spans.{IsRestorable, restore_endpoint-IsRestorable}

abbrev zoned : List ℕ → Result Bool
zoned cs = ok true

abbrev file : String → String → String → Value
file name first last = obj (
    dict (
      ("level", int 0)
      ∷ ("name", str name)
      ∷ ("min_txid", str first)
      ∷ ("max_txid", str last)
      ∷ ("size", int 4096)
      ∷ ("timestamp", str "2026-01-31T23:59:59Z")
      ∷ []))

abbrev plan_of : String → Value
plan_of last = obj (
    dict (
      ("source", str "s3://bucket/main")
      ∷ ("target_path", str "/data/main.db")
      ∷ ("replica", str "s3")
      ∷ ("min_txid", str "0000000000000001")
      ∷ ("max_txid", str last)
      ∷ (
        "files",
        arr (
            cons
              (file "0000000000000001-0000000000000002.ltx" "0000000000000001" "0000000000000002")
              (cons
                (file "0000000000000003-0000000000000003.ltx" "0000000000000003" "0000000000000003")
                nil)),
      )
      ∷ []))

accepted :
    restore_endpoint zoned (plan_of "0000000000000003") "s3://bucket/main" "/data/main.db" 2 ≡ ok 3
unfolding restore_endpoint pair_beq
accepted = refl

-- no file ends where the plan does
open_end :
    restore_endpoint zoned (plan_of "0000000000000004") "s3://bucket/main" "/data/main.db" 2
    ≡ raise malformed
unfolding restore_endpoint pair_beq
open_end = refl

-- the plan ends below the protected position
too_old :
    restore_endpoint zoned (plan_of "0000000000000003") "s3://bucket/main" "/data/main.db" 4
    ≡ raise malformed
unfolding restore_endpoint pair_beq
too_old = refl

restore_endpoint-IsRestorable_example : IsRestorable zoned (plan_of "0000000000000003") 2 3
restore_endpoint-IsRestorable_example =
    restore_endpoint-IsRestorable zoned (plan_of "0000000000000003") "s3://bucket/main"
      "/data/main.db" 2 accepted
