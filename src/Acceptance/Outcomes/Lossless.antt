-- ===== src/Acceptance/Outcomes/Lossless.antt =====
-- That accepted outcomes of a fault lose nothing that was acknowledged.
use highly_available_trailba.Prelude.{
  ◌≡◌, refl, sym, ◌∙◌, ap, subst, Bool, true, not, String, List, [], ◌∷◌, ◌++◌, Option, none, some,
  ◌==◌, string_eq, eq_iff, all, contains, ok, raise_if, Exc, value_error, key_error, arith, bind,
  bind-eq-ok, Bool-cases, inl, inr, ◌⊎◌, &&-eq-true, after_not,
}
use highly_available_trailba.Fallible.{◌>>=◌, ◌>>◌}
use highly_available_trailba.Py.Value.{Value}
use highly_available_trailba.Py.Access.{recast-eq-ok}
use highly_available_trailba.Py.Sorting.{sorted, is_distinct}
use highly_available_trailba.Ledger.Records.{
  Kind, submitted, acknowledged, rejected, uncertain, Event, need,
}
use highly_available_trailba.Acceptance.Ledger.{Faults, fault_ledger, names}
use highly_available_trailba.Acceptance.Outcomes.{
  Outcomes, invalid_outcomes, outcomes_of, flattened, is_empty_list, are_complete, kind_named,
  same_kind, check_kind, check_kinds, check_outcomes, validate_fault_outcomes,
}

need-eq-ok : {A : Type 0} (o : Option A) (e : Exc) {a : A} → need o e ≡ ok a → o ≡ some a
need-eq-ok none e h = cc
need-eq-ok (some x) e h = cc

same_kind_lem : (j k : Kind) → same_kind j k ≡ true → j ≡ k
unfolding same_kind
same_kind_lem submitted submitted h = refl
same_kind_lem acknowledged acknowledged h = refl
same_kind_lem rejected rejected h = refl
same_kind_lem uncertain uncertain h = refl
same_kind_lem submitted acknowledged h = cc
same_kind_lem submitted rejected h = cc
same_kind_lem submitted uncertain h = cc
same_kind_lem acknowledged submitted h = cc
same_kind_lem acknowledged rejected h = cc
same_kind_lem acknowledged uncertain h = cc
same_kind_lem rejected submitted h = cc
same_kind_lem rejected acknowledged h = cc
same_kind_lem rejected uncertain h = cc
same_kind_lem uncertain submitted h = cc
same_kind_lem uncertain acknowledged h = cc
same_kind_lem uncertain rejected h = cc

check_kind_lem :
    (events : List Event) (kind : Kind) (e : Exc) (ops : List String) {u : Unit {0}}
    → check_kind events kind e ops ≡ ok u
    → (name : String) → contains ops name ≡ true
    → kind_named name events ≡ some kind
unfolding check_kind contains
check_kind_lem events kind e [] h name c = cc
check_kind_lem events kind e (op ∷ rest) h name c =
    let (k, a, h1) =
      bind-eq-ok (need (kind_named op events) (key_error op))
        (λ k. bind (raise_if (not (same_kind k kind)) e) (λ _. check_kind events kind e rest)) h in
    let (same, h2) = after_not (same_kind k kind) _ _ h1 in
    elim (Bool-cases (op == name)) [
      | inl t ↦
          subst (λ n. kind_named n events ≡ some kind) ((eq_iff op name).0 t)
            (need-eq-ok (kind_named op events) _ a ∙ ap some (same_kind_lem k kind same))
      | inr f ↦ check_kind_lem events kind e rest h2 name (ground (arith, c, f))
    ]

contains-append :
    (xs ys : List String) (s : String)
    → contains (xs ++ ys) s ≡ true
    → (contains xs s ≡ true) ⊎ (contains ys s ≡ true)
unfolding contains
contains-append [] ys s h = inr h
contains-append (x ∷ xs) ys s h = elim (Bool-cases (x == s)) [
  | inl t ↦ inl (rw (t) refl)
  | inr f ↦ elim (contains-append xs ys s (ground (arith, h, f))) [
    | inl a ↦ inl (rw (f) a)
    | inr b ↦ inr b
  ]
]

all-of :
    (p : String → Bool) (ss : List String) (s : String)
    → all p ss ≡ true
    → contains ss s ≡ true
    → p s ≡ true
unfolding contains
all-of p [] s a h = cc
all-of p (x ∷ xs) s a h =
    let (b, c) = &&-eq-true (p x) (all p xs) a in
    elim (Bool-cases (x == s)) [
      | inl t ↦ subst (λ y. p y ≡ true) ((eq_iff x s).0 t) b
      | inr f ↦ all-of p xs s c (ground (arith, h, f))
    ]

-- What the outcomes of a fault say of a closed ledger's operations and of its last outcome of each.
pub record Accounts (o : Outcomes) (operations : List String) (events : List Event) : Type 0 where
  pub none_lost : is_empty_list o.lost ≡ true
  pub acknowledged_recovered :
      (name : String)
      → contains operations name ≡ true
      → kind_named name events ≡ some acknowledged
      → contains o.recovered name ≡ true
  pub recovered_acknowledged :
      (name : String)
      → contains o.recovered name ≡ true
      → kind_named name events ≡ some acknowledged
  pub rejected_absent :
      (name : String)
      → contains operations name ≡ true
      → kind_named name events ≡ some rejected
      → contains o.rejected name ≡ true
  pub known : all (contains operations) (flattened o) ≡ true
  pub once : is_distinct (flattened o) ≡ true

lost_lem : (ss : List String) (s : String) → is_empty_list ss ≡ true → contains ss s ≡ true → ⊥
unfolding contains
lost_lem [] s e h = cc
lost_lem (x ∷ xs) s e h = cc

module _ (o : Outcomes) (events : List Event) where
  record Kinds : Type 0 where
    pub recovered :
        (name : String)
        → contains o.recovered name ≡ true
        → kind_named name events ≡ some acknowledged
    pub rejected :
        (name : String) → contains o.rejected name ≡ true → kind_named name events ≡ some rejected
    pub ambiguous :
        (name : String) → contains o.ambiguous name ≡ true → kind_named name events ≡ some uncertain
    pub unacknowledged :
        (name : String)
        → contains o.unacknowledged_recovered name ≡ true
        → kind_named name events ≡ some uncertain

  check_kinds_lem : {u : Unit {0}} → check_kinds o events ≡ ok u → Kinds
  unfolding check_kinds
  check_kinds_lem h =
      let recovery = value_error "fault recovery semantics differ" in
      let rejection = value_error "fault rejection semantics differ" in
      let uncertainty = value_error "fault uncertainty semantics differ" in
      let last = check_kind events uncertain uncertainty o.unacknowledged_recovered in
      let third = check_kind events uncertain uncertainty o.ambiguous >> last in
      let second = check_kind events rejected rejection o.rejected >> third in
      let (_, a, h1) =
        bind-eq-ok (check_kind events acknowledged recovery o.recovered) (λ _. second) h in
      let (_, b, h2) =
        bind-eq-ok (check_kind events rejected rejection o.rejected) (λ _. third) h1 in
      let (_, c, d) =
        bind-eq-ok (check_kind events uncertain uncertainty o.ambiguous) (λ _. last) h2 in
      record {
        recovered = check_kind_lem events acknowledged recovery o.recovered a;
        rejected = check_kind_lem events rejected rejection o.rejected b;
        ambiguous = check_kind_lem events uncertain uncertainty o.ambiguous c;
        unacknowledged = check_kind_lem events uncertain uncertainty o.unacknowledged_recovered d;
      }

  -- where a name of the flattened outcomes stands, by the kind of its outcome
  placed :
      Kinds
      → is_empty_list o.lost ≡ true
      → (name : String) → contains (flattened o) name ≡ true
      → (contains o.recovered name ≡ true)
        ⊎ ((contains o.rejected name ≡ true) ⊎ (kind_named name events ≡ some uncertain))
  placed k e name h =
      elim (contains-append o.recovered
        (o.lost ++ (o.ambiguous ++ (o.unacknowledged_recovered ++ o.rejected))) name h) [
          | inl a ↦ inl a
          | inr h1 ↦
              elim (contains-append o.lost
                (o.ambiguous ++ (o.unacknowledged_recovered ++ o.rejected)) name h1) [
                  | inl b ↦ absurd (lost_lem o.lost name e b)
                  | inr h2 ↦
                      elim (contains-append o.ambiguous (o.unacknowledged_recovered ++ o.rejected)
                        name h2) [
                          | inl c ↦ inr (inr (k.ambiguous name c))
                          | inr h3 ↦
                              elim (contains-append o.unacknowledged_recovered o.rejected name h3) [
                                | inl d ↦ inr (inr (k.unacknowledged name d))
                                | inr f ↦ inr (inl f)
                              ]
                        ]
                ]
        ]

  are_complete-Accounts :
      (operations : List String)
      → are_complete o operations ≡ true
      → Kinds
      → Accounts o operations events
  unfolding are_complete
  are_complete-Accounts operations h k =
      let (h1, empty) = &&-eq-true _ (is_empty_list o.lost) h in
      let (h2, covered) = &&-eq-true _ (all (contains (flattened o)) operations) h1 in
      let (distinct, known) =
        &&-eq-true (is_distinct (flattened o)) (all (contains operations) (flattened o)) h2 in
      record {
        none_lost = empty;
        acknowledged_recovered = λ name c a.
            elim (placed k empty name (all-of (contains (flattened o)) operations name covered c)) [
              | inl r ↦ r
              | inr (inl j) ↦ let x = sym a ∙ k.rejected name j in cc
              | inr (inr u) ↦ let x = sym a ∙ u in cc
            ];
        recovered_acknowledged = k.recovered;
        rejected_absent = λ name c a.
            elim (placed k empty name (all-of (contains (flattened o)) operations name covered c)) [
              | inl r ↦ let x = sym a ∙ k.recovered name r in cc
              | inr (inl j) ↦ j
              | inr (inr u) ↦ let x = sym a ∙ u in cc
            ];
        known = known;
        once = distinct;
      }

-- Outcomes of a fault that are accepted against a ledger list no operation as lost and each at most once.
-- Every operation that the ledger submits and whose outcome is an acknowledgement is among the recovered,
-- no other is, and every rejected one is among the rejected.
pub validate_fault_outcomes-Accounts :
    (v events : Value) {w : Value}
    → validate_fault_outcomes v events ≡ ok w
    → (o : Outcomes) × (outcomes_of v invalid_outcomes ≡ ok o)
      × (r : Faults) × (fault_ledger events ≡ ok r)
      × Accounts o (sorted (names r.tally.rows)) r.events
unfolding validate_fault_outcomes check_outcomes
validate_fault_outcomes-Accounts v events h =
    let end_of = λ (o : Outcomes) (r : Faults). check_kinds o r.events >> ok v in
    let rest = λ (o : Outcomes) (r : Faults).
      raise_if (not (are_complete o (sorted (names r.tally.rows))))
        (value_error "fault outcomes are incomplete or acknowledge loss")
      >> end_of o r in
    let (o, a, h1) =
      bind-eq-ok (outcomes_of v invalid_outcomes) (λ o. fault_ledger events >>= rest o)
        (recast-eq-ok "invalid fault outcomes" (check_outcomes v events) h) in
    let (r, b, h2) = bind-eq-ok (fault_ledger events) (rest o) h1 in
    let (c, h3) = after_not (are_complete o (sorted (names r.tally.rows))) _ _ h2 in
    let (_, d, _) = bind-eq-ok (check_kinds o r.events) (λ _. ok v) h3 in
    (
      o,
      a,
      r,
      b,
      are_complete-Accounts o r.events (sorted (names r.tally.rows)) c
          (check_kinds_lem o r.events d),
    )
