-- ===== src/S3/Examples.antt =====
-- A reconciliation against a small store, and the theorems at it.
use highly_available_trailba.Prelude.{
  ℕ, suc, ◌≡◌, refl, ◌⊎◌, ◌≤◌, String, List, [], ◌∷◌, some, none, Exc, Result, ok, raise, length,
  list_beq,
}
use highly_available_trailba.S3.Text.{quote_etag}
use highly_available_trailba.S3.Put.{Response}
use highly_available_trailba.S3.Reconcile.{
  Method, head, get, ReconciliationResult, committed, discarded, reconcile_put,
  reconcile_put_detailed, rounds, probe, verdict,
}
use highly_available_trailba.S3.Reconcile.Sound.{Justified, Raised, reconcile-Justified}

abbrev sha : List ℕ → String
sha b = "00"

-- the object is missing at the first HEAD, and there from the GET on; the world counts the reads
abbrev late_object : Method → ℕ → Result Response × ℕ
late_object head n = (ok (404, [], []), suc n)
late_object get n = (ok (200, ("ETag", "\"abc\"") ∷ [], 1 ∷ 2 ∷ []), suc n)

late_committed : (reconcile_put sha (1 ∷ 2 ∷ []) (some "abc") late_object 0).0 ≡ ok committed
unfolding reconcile_put rounds probe verdict quote_etag list_beq
late_committed = refl

abbrev no_object : Method → ℕ → Result Response × ℕ
no_object m n = (ok (404, [], []), suc n)

never_discarded : reconcile_put sha (1 ∷ []) none no_object 0 ≡ (ok discarded, 2)
unfolding reconcile_put rounds probe verdict list_beq
never_discarded = refl

reconcile-Justified_example :
    ((x : Exc) × (v : ℕ) × (reconcile_put_detailed sha (1 ∷ 2 ∷ []) (some "abc") late_object 0
        ≡ (raise x, v))
      × Raised sha (1 ∷ 2 ∷ []) (some "abc") late_object x v)
    ⊎ ((r : ReconciliationResult) × (v : ℕ) × (reconcile_put_detailed sha
            (1 ∷ 2 ∷ [])
            (some "abc")
            late_object
            0
          ≡ (ok r, v))
        × Justified sha (1 ∷ 2 ∷ []) (some "abc") late_object v r.outcome
        × (length r.probes ≤ 6))
reconcile-Justified_example = reconcile-Justified sha (1 ∷ 2 ∷ []) (some "abc") late_object 0
