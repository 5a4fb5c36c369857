-- ===== src/Control/Journal/Edges.antt =====
-- `begin` and `finish`, where an operation enters and leaves the journal.
use highly_available_trailba.Prelude.{
  ◌≡◌, refl, ◌⊎◌, inl, inr, ◌∙◌, ap, Bool, false, String, List, none, some, some-injective, Exc,
  Result, ok, raise, arith, subst, bind-eq-ok, Result-cases,
}
use highly_available_trailba.Exec.{continue}
use highly_available_trailba.Py.Value.{Value}
use highly_available_trailba.Control.Phases.{phase_plan}
use highly_available_trailba.Control.Rows.{
  Operation, Db, select_operation, steps_of, insert_operation, set_complete, is_acceptance,
}
use highly_available_trailba.Control.Rows.Queries.{insert_operation_lem, select-insert_self}
use highly_available_trailba.Control.State.{State, authority_of, transact}
use highly_available_trailba.Control.Journal.{
  may_begin, begin, new_operation, new_row, may_finish, finish, close_operation, complete_operation,
}
use highly_available_trailba.Control.Journal.Guards.{may_finish-Run, Run-operation, Run-plan}
use highly_available_trailba.Control.Journal.Sound.{marks_of, Linked, Holds, Inv}
use highly_available_trailba.Control.Journal.Sound.Tables.{
  insert_operation-IsSound, set_complete-IsSound,
}
use highly_available_trailba.Control.Journal.Outcomes.{transact-cases}

module _ (source target : String) (source_epoch : Value) (ident : String) where
  -- the journal with a new operation
  abbrev pub started : Operation → State → State
  started o s = record s {
    journal = record s.journal { operation = some o; next = 0; pending = false };
  }

  begin_lem :
      (s : State) (epoch : String)
      → may_begin source target source_epoch s ≡ ok epoch
      → begin source target source_epoch ident s ≡ (
          let r =
            transact (insert_operation (new_row (new_operation source target epoch ident))) s in
          continue r.0
            (λ _ t. (
              ok (new_operation source target epoch ident),
              started (new_operation source target epoch ident) t,
            ))
            r.1)
  unfolding begin
  begin_lem s epoch e = rw (begin, e) refl

  pub begin-refused :
      (s : State) (x : Exc)
      → may_begin source target source_epoch s ≡ raise x
      → begin source target source_epoch ident s ≡ (raise x, s)
  unfolding begin
  begin-refused s x e = rw (begin, e) refl

  -- `begin` enters one new operation, or changes nothing but the commits to come.
  pub begin-cases :
      (s : State)
      → ((x : Exc) × (c : List Bool) × (begin source target source_epoch ident s
            ≡ (raise x, record s { commits = c })))
        ⊎ ((epoch : String) × (c : List Bool) × (db : Db) × (may_begin source target source_epoch s
              ≡ ok epoch)
            × (insert_operation (new_row (new_operation source target epoch ident)) s.db ≡ ok db)
            × (begin source target source_epoch ident s ≡ (
              ok (new_operation source target epoch ident),
              record (started (new_operation source target epoch ident) s) { db = db; commits = c },
            )))
  begin-cases s = elim (Result-cases (may_begin source target source_epoch s)) [
    | inl (x, e) ↦ inl (x, s.commits, begin-refused s x e)
    | inr (epoch, e) ↦
        elim (transact-cases (insert_operation (new_row (new_operation source target epoch ident)))
          s) [
            | inl (x, c, h) ↦ inl (x, c, begin_lem s epoch e ∙ ap (back epoch) h)
            | inr (db, c, i, h) ↦ inr (epoch, c, db, e, i, begin_lem s epoch e ∙ ap (back epoch) h)
          ]
  ]
    where
      back : String → Result (Unit {0}) × State → Result Operation × State
      back epoch r =
          continue r.0
            (λ _ t. (
              ok (new_operation source target epoch ident),
              started (new_operation source target epoch ident) t,
            ))
            r.1

  may_begin-plan :
      (s : State) {epoch : String}
      → may_begin source target source_epoch s ≡ ok epoch
      → (plan : List String) × (phase_plan source target ≡ ok plan)
  unfolding may_begin
  may_begin-plan s h =
      let (a, ea, h1) = bind-eq-ok (authority_of s.journal s.disk) _ h in
      let (plan, ep, h2) = bind-eq-ok (phase_plan source target) _ h1 in (plan, ep)

  -- A begun operation is linked to its row, at its first phase.
  begun-Holds :
      (s : State) (epoch : String) (db : Db) (plan : List String)
      → Inv s
      → phase_plan source target ≡ ok plan
      → insert_operation (new_row (new_operation source target epoch ident)) s.db ≡ ok db
      → Holds (started (new_operation source target epoch ident) s).journal db
  unfolding new_operation
  begun-Holds s epoch db plan h is_plan i =
      let o = new_operation source target epoch ident in
      let (is, fresh, _) = insert_operation_lem (new_row o) s.db refl i in
      let (none_before, selected) = select-insert_self (new_row o) s.db fresh in
      record {
        sound = insert_operation-IsSound (new_row o) plan h.sound refl is_plan i;
        linked = λ p e. subst (Linked (started o s).journal db) (some-injective o p e) (record {
          row = new_row o;
          selected = ap (λ (d : Db). select_operation ident d) is ∙ selected;
          same = refl;
          open_row = refl;
          contract = unfold is_acceptance in refl;
          plan = plan;
          is_plan = is_plan;
          in_range = omega arith;
          marks = inl (ap (λ (d : Db). marks_of ident d) is ∙ h.sound.homed ident none_before);
        });
      }

  pub begin-Inv : (s : State) → Inv s → Inv (begin source target source_epoch ident s).1
  begin-Inv s h = elim (begin-cases s) [
    | inl (x, c, e) ↦ rw e h
    | inr (epoch, c, db, allowed, i, e) ↦
        let (plan, is_plan) = may_begin-plan s allowed in
        rw e (begun-Holds s epoch db plan h is_plan i)
  ]

close_operation_lem :
    (s : State) (o : Operation)
    → s.operation ≡ some o
    → close_operation s ≡ transact (complete_operation o.id) s
unfolding close_operation
close_operation_lem s o current = ground arith

complete_operation_lem :
    (ident : String) (db : Db) {db' : Db}
    → complete_operation ident db ≡ ok db'
    → db' ≡ set_complete ident db
unfolding complete_operation
complete_operation_lem ident db e = ground arith

close_operation-cases :
    (s : State) (o : Operation)
    → s.operation ≡ some o
    → ((x : Exc) × (c : List Bool) × (close_operation s ≡ (raise x, record s { commits = c })))
      ⊎ ((c : List Bool) × (close_operation s
            ≡ (ok tt, record s { db = set_complete o.id s.db; commits = c })))
close_operation-cases s o current = elim (transact-cases (complete_operation o.id) s) [
  | inl (x, c, e) ↦ inl (x, c, close_operation_lem s o current ∙ e)
  | inr (db, c, i, e) ↦ inr (
    c,
    close_operation_lem s o current
        ∙ e
        ∙ ap (λ (d : Db). (ok tt, record s { db = d; commits = c }))
            (complete_operation_lem o.id s.db i),
  )
]

-- the journal with no operation
abbrev pub released : State → State
released s = record s { journal = record s.journal { operation = none } }

abbrev after_close : Result (Unit {0}) × State → Result (Unit {0}) × State
after_close r = continue r.0 (λ _ t. (ok tt, released t)) r.1

finish_lem :
    (s : State) {u : Unit {0}} → may_finish s ≡ ok u → finish s ≡ after_close (close_operation s)
unfolding finish
finish_lem s e = rw (finish, e) refl

pub finish-refused : (s : State) (x : Exc) → may_finish s ≡ raise x → finish s ≡ (raise x, s)
unfolding finish
finish-refused s x e = rw (finish, e) refl

-- `finish` completes the operation and lets it go, or changes nothing but the commits to come.
pub finish-cases :
    (s : State)
    → ((x : Exc) × (c : List Bool) × (finish s ≡ (raise x, record s { commits = c })))
      ⊎ ((o : Operation) × (c : List Bool) × (s.operation ≡ some o)
          × (may_finish s ≡ ok tt)
          × (finish s ≡ (ok tt, record (released s) { db = set_complete o.id s.db; commits = c })))
finish-cases s = elim (Result-cases (may_finish s)) [
  | inl (x, e) ↦ inl (x, s.commits, finish-refused s x e)
  | inr (u, e) ↦
      let (plan, r) = may_finish-Run s e in
      let (o, current) = Run-operation r in
      elim (close_operation-cases s o current) [
        | inl (x, c, h) ↦ inl (x, c, finish_lem s e ∙ ap after_close h)
        | inr (c, h) ↦ inr (o, c, current, e, finish_lem s e ∙ ap after_close h)
      ]
]

-- `finish` keeps the invariant.
pub finish-Inv : (s : State) → Inv s → Inv (finish s).1
finish-Inv s h = elim (finish-cases s) [
  | inl (x, c, e) ↦ rw e h
  | inr (o, c, current, allowed, e) ↦
      let (plan, r) = may_finish-Run s allowed in
      let l = h.linked o current in
      let (is_plan, marks) = Run-plan s plan o l.row r current l.selected l.open_row in
      rw e (record {
        sound =
            set_complete-IsSound o.id l.row plan s.db h.sound l.selected is_plan
              (unfold steps_of in marks);
        linked = λ p q. cc;
      })
]
