-- ===== src/Control/Ingress/Allowed.antt =====
-- What it takes for `ingress_allowed` to say yes.
use highly_available_trailba.Prelude.{
  ℕ, ◌≤◌, ◌≡◌, ◌⊎◌, String, List, ◌++◌, map, All, none, nat_eq, string_eq, list_eq, pair_eq, Result,
  ok,
}
use highly_available_trailba.Py.Value.{Value}
use highly_available_trailba.Control.Ingress.{Place, wal, shm, rollback_journal, Sights}
use highly_available_trailba.Control.Ingress.Facts.{Tracked, Verdict}
use highly_available_trailba.Control.Ingress.Gate.{ingress_body}
use highly_available_trailba.Control.Ingress.Reasons.{Reason}
use highly_available_trailba.Control.Ingress.Snapshot.{always_tracked, ingress_file_snapshot}
use highly_available_trailba.Control.Ingress.Unchanged.{WasSeen, RootWas}

-- `journal.db-wal`, `journal.db-shm` and `journal.db-journal`
abbrev pub IsSidecar : Place → Type 0
IsSidecar p = (p ≡ wal) ⊎ (p ≡ shm) ⊎ (p ≡ rollback_journal)

module _ (w : Sights) (canonical : Value → Result (List ℕ)) (sha256 : List ℕ → String)
    (loads_bytes : List ℕ → Result Value) (boot : String) where
  -- What stands behind a yes that is asked for at one moment and said at another: the snapshot ends at `started`, the
  -- decision is made from then to `ended`, and the files are read again from then on.
  pub record Allowed (t finished : ℕ) : Type 0 where
    pub before : List ℕ
    pub files : List (Place × Tracked)
    pub decision : Verdict
    pub started : ℕ
    pub ended : ℕ
    pub snapshot : ingress_file_snapshot w sha256 always_tracked t ≡ (ok (before, files), started)
    pub covered : map (λ (f : Place × Tracked). f.0) files ≡ always_tracked
    pub bare : All (λ (f : Place × Tracked). IsSidecar f.0 → f.1 ≡ none) files
    pub root_before : RootWas w sha256 t started before
    pub seen_before : All (WasSeen w sha256 t started) files
    pub decided : ingress_body w canonical sha256 loads_bytes boot started ≡ (ok decision, ended)
    pub in_order : started ≤ ended
    pub reason : Reason w canonical sha256 loads_bytes boot
    pub seen_after : All (WasSeen w sha256 ended finished) (files ++ decision.tracked)
    pub root_after : RootWas w sha256 ended finished before
