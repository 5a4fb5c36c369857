-- ===== src/Control/Journal/Moves.antt =====
-- A controller over time, as its operations' machines see it.
use highly_available_trailba.Prelude.{
  ℕ, ◌≡◌, refl, inl, inr, ap, sym, subst, List, Bool, String, none, Result, ok, raise,
}
use highly_available_trailba.Exec.{Exec, continue}
use highly_available_trailba.Py.Value.{Value, obj, end}
use highly_available_trailba.Control.Phases.{intent, done}
use highly_available_trailba.Control.Rows.{Operation, dumped}
use highly_available_trailba.Control.State.{Disk, Journal, State}
use highly_available_trailba.Control.Journal.{
  begin, new_operation, new_row, open_step, close_step, step, finish,
}
use highly_available_trailba.Control.Journal.Sound.{marks_of, Inv}
use highly_available_trailba.Control.Journal.Keeps.{AtBoundary, AtBoundary-Holds, open_step-Inv}
use highly_available_trailba.Control.Journal.Closing.{
  IsQuiet, close_step-Inv, open_step-AtBoundary, action-AtBoundary,
}
use highly_available_trailba.Control.Journal.Edges.{
  begin-Inv, begin-cases, finish-Inv, finish-cases,
}
use highly_available_trailba.Control.Journal.Outcomes.{open_step-cases, close_step-cases, step_row}
use highly_available_trailba.Control.Journal.Reach.{
  Move, begins, steps, finishes, compares, verifies, continues, dies_in, reopens, disturbs, Reach,
  here, next, Move-Inv, Reach-Inv, new_state,
}
use highly_available_trailba.Control.Journal.Machine.{Run, rests, Run-trans, progress, Shows}
use highly_available_trailba.Control.Journal.Refines.{
  Written, untouched, added, entered, completes, Written-Run, progress-Shows, stays,
}
use highly_available_trailba.Control.Rejoin.Continued.{continue_rejoin-Inv}
use highly_available_trailba.Control.Accept.{check_comparison, check_verification}
use highly_available_trailba.Control.Accept.Resumed.{accepting, accepting-Cases, Accepted-row}
use highly_available_trailba.Control.Accept.Proven.{
  accept_comparison_lem, accept_verification_lem, accept_comparison-Inv, accept_verification-Inv,
}

-- what a call leaves, by its statement
module _ {A : Type 0} (ident : String) (s : State) (h : Inv s) where
  through :
      (m : Result A × State) (r : Result A) (u : State)
      → m ≡ (r, u)
      → Inv m.1
      → Written s.db u.db
      → Run (progress ident s.db) (progress ident m.1.db)
  through m r u e h' x =
      let is = ap (λ (p : Result A × State). p.1) e in
      subst (λ (v : State). Run (progress ident s.db) (progress ident v.db)) (sym is)
        (Written-Run x h.sound (subst Inv is h').sound ident)

module _ (ident : String) where
  Moves : State → State → Type 0
  Moves s t = Run (progress ident s.db) (progress ident t.db)

  begin-Moves :
      (source target : String) (source_epoch : Value) (new_id : String) (s : State)
      → Inv s
      → Moves s (begin source target source_epoch new_id s).1
  unfolding Moves
  begin-Moves source target source_epoch new_id s h =
      let m = begin source target source_epoch new_id s in
      let h' = begin-Inv source target source_epoch new_id s h in
      elim (begin-cases source target source_epoch new_id s) [
        | inl (x, c, e) ↦ through ident s h m (raise x) (record s { commits = c }) e h' untouched
        | inr (epoch, c, db, _, i, e) ↦
            through ident s h m _ _ e h'
              (entered (new_row (new_operation source target epoch new_id)) refl i)
      ]

  open_step-Moves : (phase : String) (s : State) → Inv s → Moves s (open_step phase s).1
  unfolding Moves
  open_step-Moves phase s h = elim (open_step-cases phase s) [
    | inl (x, e) ↦ through ident s h (open_step phase s) _ _ e (open_step-Inv phase s h) untouched
    | inr (inl (_, (x, c, e))) ↦
        through ident s h (open_step phase s) _ _ e (open_step-Inv phase s h) untouched
    | inr (inr (_, (o, c, current, e))) ↦
        let l = h.linked o current in
        through ident s h (open_step phase s) _ _ e (open_step-Inv phase s h)
          (added (step_row o s.next phase intent (dumped (obj end))) l.row l.selected l.open_row)
  ]

  close_step-Moves :
      (phase : String) (v : Value) (s : State)
      → AtBoundary s.journal s.db phase
      → Moves s (close_step phase v s).1
  unfolding Moves
  close_step-Moves phase v s b =
      let h = AtBoundary-Holds b in
      let h' = close_step-Inv phase v s b in
      elim (close_step-cases phase v s b.operation b.current) [
        | inl (x, c, e) ↦ through ident s h (close_step phase v s) _ _ e h' untouched
        | inr (column, c, _, e) ↦ through ident s h (close_step phase v s) _ _ e h' (
            added (step_row b.operation s.next phase done column) b.link.row b.link.selected
              b.link.open_row)
      ]

  module _ (phase : String) (action : Exec State Value) (quiet : IsQuiet action) where
    rest-Moves :
        (r : Result Value) (s : State)
        → AtBoundary s.journal s.db phase
        → Moves s (continue r (close_step phase) s).1
    unfolding Moves
    rest-Moves (ok v) s b = close_step-Moves phase v s b
    rest-Moves (raise x) s b = rests

    opened-Moves :
        (r : Result (Unit {0})) (s : State)
        → (r ≡ ok tt → AtBoundary s.journal s.db phase)
        → Moves s (continue r (λ _ t. continue (action t).0 (close_step phase) (action t).1) s).1
    unfolding Moves
    opened-Moves (raise x) s b = rests
    opened-Moves (ok u) s b =
        Run-trans (stays (ap (progress ident) (sym (quiet.db s))))
          (rest-Moves (action s).0 (action s).1 (action-AtBoundary phase action quiet s (b refl)))

    step-Moves : (s : State) → Inv s → Moves s (step phase action s).1
    unfolding Moves step
    step-Moves s h =
        Run-trans (open_step-Moves phase s h) (
          opened-Moves (open_step phase s).0 (open_step phase s).1 (open_step-AtBoundary phase s h))

  finish-Moves : (s : State) → Inv s → Moves s (finish s).1
  unfolding Moves
  finish-Moves s h = elim (finish-cases s) [
    | inl (x, c, e) ↦ through ident s h (finish s) _ _ e (finish-Inv s h) untouched
    | inr (o, c, _, _, e) ↦ through ident s h (finish s) _ _ e (finish-Inv s h) (completes o.id)
  ]

  accepting-Moves :
      (asked : String) (position : ℕ) (direction : String × String) (after : ℕ) (phase : String)
      (v : Value) (check : Operation → List (String × Value) → Result (Unit {0})) (s : State)
      → Inv s
      → Inv (accepting asked position direction after phase v check s).1
      → Moves s (accepting asked position direction after phase v check s).1
  unfolding Moves
  accepting-Moves asked position direction after phase v check s h h' =
      let m = accepting asked position direction after phase v check s in
      elim (accepting-Cases asked position direction after phase v check s) [
        | inl (x, c, e) ↦ through ident s h m (raise x) (record s { commits = c }) e h' untouched
        | inr (t, e, a) ↦
            let (r, selected, open_row) =
              Accepted-row asked position direction after phase v check h.sound a in
            through ident s h m (ok tt) t e h' (
              subst (λ (u : State). Written s.db u.db) (sym a.settled.left)
                (added (step_row a.o position phase done a.settled.column) r selected open_row))
      ]

  Move-Moves : {s t : State} → Move s t → Inv s → Moves s t
  unfolding Moves
  Move-Moves (begins s source target source_epoch new_id) h =
      begin-Moves source target source_epoch new_id s h
  Move-Moves (steps s phase action quiet) h = step-Moves phase action quiet s h
  Move-Moves (finishes s) h = finish-Moves s h
  Move-Moves (compares s canonical sha256 asked result) h =
      let e = accept_comparison_lem canonical sha256 asked result s in
      let is = ap (λ (p : Result (Unit {0}) × State). p.1) e in
      subst (λ (u : State). Moves s u) (sym is)
        (accepting-Moves asked 5 ("A", "B") 6 "compare" result
          (λ o previous. check_comparison canonical sha256 o previous result) s h
          (subst Inv is (accept_comparison-Inv canonical sha256 asked result s h)))
  Move-Moves (verifies s canonical sha256 asked result) h =
      let e = accept_verification_lem canonical sha256 asked result s in
      let is = ap (λ (p : Result (Unit {0}) × State). p.1) e in
      subst (λ (u : State). Moves s u) (sym is)
        (accepting-Moves asked 9 ("A", "B") 10 "verify" result
          (λ o previous. check_verification canonical sha256 o previous result) s h
          (subst Inv is (accept_verification-Inv canonical sha256 asked result s h)))
  Move-Moves (continues s tree canonical sha256 d asked boot_done) h = stays (
      ap (progress ident) (sym (continue_rejoin-Inv s d asked boot_done tree canonical sha256 h).1))
  Move-Moves (dies_in s phase) h = open_step-Moves phase s h
  Move-Moves (reopens s j d c idle) h = rests
  Move-Moves (disturbs s d c) h = rests

  reached-Moves : {s t : State} → Inv s → Reach s t → Moves s t × Inv t
  unfolding Moves
  reached-Moves h here = (rests, h)
  reached-Moves h (next r m) =
      let (a, i) = reached-Moves h r in (Run-trans a (Move-Moves m i), Move-Inv m i)

-- The journal implements the machine, for each operation: between any two states that a controller
-- goes through from new tables on, whatever calls of its methods (reconcile_rejoin_boot_done left
-- out), crashes, lost commits and changes of files lie between them, the operation's machine makes
-- moves and nothing else. It is entered at most once, with an identity, a direction and epochs that
-- never change again; its plan's rows are only added, in order, and never more than the plan has;
-- it is closed only once they are all written, and stays so. And at both states the table has for
-- it exactly the rows that the machine stands for.
pub Reach-Run :
    (j : Journal) (d : Disk) (c : List Bool) (ident : String) {s t : State}
    → j.operation ≡ none
    → Reach (new_state j d c) s
    → Reach s t
    → Run (progress ident s.db) (progress ident t.db)
      × Shows (progress ident s.db) (marks_of ident s.db)
      × Shows (progress ident t.db) (marks_of ident t.db)
unfolding Moves
Reach-Run j d c ident {s} {t} idle r r' =
    let h = Reach-Inv j d c idle r in
    let (run, h') = reached-Moves ident h r' in
    (run, progress-Shows s.db h.sound ident, progress-Shows t.db h'.sound ident)
