-- ===== src/Control/Ingress/Unchanged.antt =====
-- The files that are tracked gave the same before and after.
use highly_available_trailba.Prelude.{
  ℕ, suc, ◌≤◌, ◌<◌, arith, Bool, true, false, ◌&&◌, ◌≡◌, refl, ap, sym, ◌∙◌, String, List, [], ◌∷◌,
  map, All, Option, none, some, ◌==◌, nat_eq, string_eq, list_eq, pair_eq, subst, eq_iff,
  &&-eq-true, list_beq, list_beq_iff, Result, ok, raise, os_error, if◌then◌else◌,
}
use highly_available_trailba.Exec.{◌>>=◌, pure}
use highly_available_trailba.Control.Ingress.{
  Inode, Reading, gone, failed, held, Place, root, Sights, Look, look, reading, lstat_now,
  stable_private_bytes,
}
use highly_available_trailba.Control.Ingress.Facts.{Tracked}
use highly_available_trailba.Control.Ingress.Forward.{
  IsForward, ends_later, pure-IsForward, >>=-IsForward, lifted-IsForward, choice-IsForward,
  reading-IsForward,
}
use highly_available_trailba.Control.Ingress.Looks.{after_lift, after_part, pure-eq-ok}
use highly_available_trailba.Control.Ingress.Snapshot.{
  root_identity, is_kept, is_file_error, same_file, snapshot_files, kept, unchanged, all_unchanged,
  ingress_file_finalize,
}

module _ (w : Sights) (sha256 : List ℕ → String) where
  -- A reading is what was tracked: nothing was there, or a file with this identity and this digest.
  pub Matches : Tracked → Reading → Type 0
  Matches none r = r ≡ gone
  Matches (some old) r = (raw : List ℕ) × (r ≡ held raw old.0) × (sha256 raw ≡ old.1)

  -- At a moment from `lo` on and before `hi`, what opening the path gave was what is tracked.
  abbrev pub WasSeen : ℕ → ℕ → Place × Tracked → Type 0
  WasSeen lo hi f =
      (n : ℕ) × (lo ≤ n)
      × (n < hi)
      × Matches f.1 (stable_private_bytes w.euid false (w.open_at n f.0))

  kept-Matches : (r : Reading) (old : Tracked) → kept w sha256 r ≡ ok old → Matches old r
  unfolding kept Matches
  kept-Matches gone none h = refl
  kept-Matches gone (some x) h = cc
  kept-Matches (failed e) old h = cc
  kept-Matches (held raw id) none h = cc
  kept-Matches (held raw id) (some old) h = (raw, cc, cc)

  snapshot_files-IsForward : (ps : List Place) → IsForward (snapshot_files w sha256 ps)
  unfolding snapshot_files
  snapshot_files-IsForward [] = pure-IsForward []
  snapshot_files-IsForward (p ∷ ps) =
      >>=-IsForward (reading w false p) _ (reading-IsForward w false p) (λ r.
        lifted-IsForward (kept w sha256 r) _ (λ file.
          >>=-IsForward (snapshot_files w sha256 ps) _ (snapshot_files-IsForward ps)
            (λ files. pure-IsForward ((p, file) ∷ files))))

  all_unchanged-IsForward :
      (files : List (Place × Tracked)) → IsForward (all_unchanged w sha256 files)
  unfolding all_unchanged
  all_unchanged-IsForward [] = pure-IsForward true
  all_unchanged-IsForward ((p, old) ∷ rest) =
      >>=-IsForward (reading w false p) _ (reading-IsForward w false p) (λ r.
        lifted-IsForward (unchanged w sha256 old r) _
          (λ same. choice-IsForward same (all_unchanged-IsForward rest) (pure-IsForward false)))

  pub snapshot_files-WasSeen :
      (ps : List Place) (lo t : ℕ) {files : List (Place × Tracked)} {u : ℕ}
      → lo ≤ t
      → snapshot_files w sha256 ps t ≡ (ok files, u)
      → (map (λ (f : Place × Tracked). f.0) files ≡ ps) × (t ≤ u) × All (WasSeen lo u) files
  unfolding snapshot_files reading look
  snapshot_files-WasSeen [] lo t {files} {u} le h =
      seen_none files (pure-eq-ok h) (ends_later (pure-IsForward []) h)
    where
      seen_none :
          (files : List (Place × Tracked))
          → [] ≡ files
          → t ≤ u
          → (map (λ (f : Place × Tracked). f.0) files ≡ []) × (t ≤ u) × All (WasSeen lo u) files
      seen_none [] h end = (refl, end, tt)
      seen_none (f ∷ files) h end = cc
  snapshot_files-WasSeen (p ∷ ps) lo t {files} {u} le h =
      after_lift (kept w sha256 (stable_private_bytes w.euid false (w.open_at t p))) _ (suc t) h
        (λ old a h1. after_part (snapshot_files w sha256 ps) _ (suc t) h1 (λ files s b h2.
          let is_end : s ≡ u = ap (λ (q : Result (List (Place × Tracked)) × ℕ). q.1) h2 in
          let (covers, end, seen) =
            snapshot_files-WasSeen ps lo (suc t) {u = u} (omega arith)
              (b ∙ ap (λ q. (ok files, q)) is_end) in
          subst
            (λ l. (map (λ (f : Place × Tracked). f.0) l ≡ p ∷ ps) × (t ≤ u) × All (WasSeen lo u) l)
            (pure-eq-ok h2)
            (
              ap (λ l. p ∷ l) covers,
              omega arith,
              (
                (
                  t,
                  le,
                  omega arith,
                  kept-Matches (stable_private_bytes w.euid false (w.open_at t p)) old a,
                ),
                seen,
              ),
            )))

  unchanged-Matches :
      (old : Tracked) (r : Reading) → unchanged w sha256 old r ≡ ok true → Matches old r
  unfolding unchanged Matches same_file is_kept
  unchanged-Matches none gone h = refl
  unchanged-Matches (some old) gone h = cc
  unchanged-Matches old (failed e) h = refuted (is_file_error e) h
    where
      refuted :
          (b : Bool)
          → ◌≡◌ {A = Result Bool} (if b then ok false else raise e) (ok true)
          → Matches old (failed e)
      refuted true h = cc
      refuted false h = cc
  unchanged-Matches none (held raw id) h = cc
  unchanged-Matches (some old) (held raw id) h =
      let (a, b) = &&-eq-true (list_beq old.0 id) (old.1 == sha256 raw) (unok h) in
      (
        raw,
        ap (held raw) (sym ((list_beq_iff old.0 id).0 a)),
        sym ((eq_iff old.1 (sha256 raw)).0 b),
      )
    where
      unok : {a b : Bool} → ok a ≡ ok b → a ≡ b
      unok h = cc

  all_unchanged-WasSeen :
      (files : List (Place × Tracked)) (lo t : ℕ) {u : ℕ}
      → lo ≤ t
      → all_unchanged w sha256 files t ≡ (ok true, u)
      → All (WasSeen lo u) files
  unfolding all_unchanged reading look
  all_unchanged-WasSeen [] lo t le h = tt
  all_unchanged-WasSeen ((p, old) ∷ rest) lo t {u} le h =
      after_lift (unchanged w sha256 old (stable_private_bytes w.euid false (w.open_at t p))) _
        (suc t) h
        (go (λ k. (
          ends_later (all_unchanged-IsForward rest) k,
          all_unchanged-WasSeen rest lo (suc t) (omega arith) k,
        )))
    where
      go :
          (all_unchanged w sha256 rest (suc t) ≡ (ok true, u)
            → (suc t ≤ u) × All (WasSeen lo u) rest)
          → (same : Bool)
          → unchanged w sha256 old (stable_private_bytes w.euid false (w.open_at t p)) ≡ ok same
          → (elim same as (λ _. Look Bool) [
            | true ↦ all_unchanged w sha256 rest
            | false ↦ pure false
          ])
              (suc t)
            ≡ (ok true, u)
          → All (WasSeen lo u) ((p, old) ∷ rest)
      go later true e h =
          let (end, seen) = later h in
          (
            (
              t,
              le,
              omega arith,
              unchanged-Matches old (stable_private_bytes w.euid false (w.open_at t p)) e,
            ),
            seen,
          )
      go later false e h = let bad = pure-eq-ok h in cc

  -- The root had this identity at a moment from `lo` on and before `hi`.
  abbrev pub RootWas : ℕ → ℕ → List ℕ → Type 0
  RootWas lo hi before =
      (n : ℕ) × (lo ≤ n)
      × (n < hi)
      × (i : Inode) × (w.lstat_at n root ≡ some i)
      × (root_identity i ≡ before)

  pub lstat_now-some :
      (t : ℕ) {i : Inode} {u : ℕ}
      → lstat_now w root t ≡ (ok i, u)
      → (w.lstat_at t root ≡ some i) × (suc t ≡ u)
  unfolding lstat_now look
  lstat_now-some t {i} h = (
    go (w.lstat_at t root) refl (ap (λ (p : Result Inode × ℕ). p.0) h),
    ap (λ (p : Result Inode × ℕ). p.1) h,
  )
    where
      go :
          (o : Option Inode)
          → w.lstat_at t root ≡ o
          → elim o as (λ _. Result Inode) [ none ↦ raise (os_error "no such file") | some i ↦ ok i ]
            ≡ ok i
          → w.lstat_at t root ≡ some i
      go none e h = cc
      go (some j) e h = cc

  pub ingress_file_finalize-WasSeen :
      (before : List ℕ) (files : List (Place × Tracked)) (allowed : Bool) (t : ℕ) {u : ℕ}
      → ingress_file_finalize w sha256 before files allowed t ≡ (ok true, u)
      → (allowed ≡ true) × All (WasSeen t u) files × RootWas t u before
  unfolding ingress_file_finalize
  ingress_file_finalize-WasSeen before files allowed t {u} h =
      after_part (lstat_now w root) _ t h (λ now s a h1.
        let (is_now, next) = lstat_now-some t a in
        go now s is_now next (list_beq (root_identity now) before) refl h1)
    where
      go :
          (now : Inode) (s : ℕ)
          → w.lstat_at t root ≡ some now
          → suc t ≡ s
          → (b : Bool) → list_beq (root_identity now) before ≡ b
          → (elim b as (λ _. Look Bool) [
            | false ↦ pure false
            | true ↦ (all_unchanged w sha256 files >>= λ same. pure (same && allowed))
          ])
              s
            ≡ (ok true, u)
          → (allowed ≡ true) × All (WasSeen t u) files × RootWas t u before
      go now s a next false e h = let bad = pure-eq-ok h in cc
      go now s a next true e h = after_part (all_unchanged w sha256 files) _ s h (λ same q k h1.
          let (x, y) = &&-eq-true same allowed (pure-eq-ok h1) in
          let is_end : q ≡ u = ap (λ (p : Result Bool × ℕ). p.1) h1 in
          let unchanged_to = k ∙ ap (λ b. (ok b, q)) x ∙ ap (λ v. (ok true, v)) is_end in
          let end = ends_later (all_unchanged-IsForward files) unchanged_to in
          (
            y,
            all_unchanged-WasSeen files t s (omega arith) unchanged_to,
            (t, omega arith, omega arith, now, a, (list_beq_iff (root_identity now) before).0 e),
          ))
