-- ===== src/Ledger/Tally.antt =====
-- hat/client.py: the loop of `read_closed_ledger` over the events.
use highly_available_trailba.Prelude.{
  ℕ, suc, ◌+◌, ◌≡◌, refl, sym, ◌∙◌, ap, subst, Bool, true, false, ◌&&◌, ◌||◌, not, String, List, [],
  ◌∷◌, Option, none, some, ◌==◌, nat_eq, string_eq, pair_eq, pair_beq_iff, Result, ok, raise,
  value_error, if◌then◌else◌, arith, bind, bind-eq-ok, Bool-cases, not-eq-true, &&-eq-true, inl,
  inr, ok-injective,
}
use highly_available_trailba.Py.Value.{Value, py_eq}
use highly_available_trailba.Ledger.Records.{
  Kind, submitted, acknowledged, rejected, uncertain, is_submission, is_acknowledged, Key, Event,
  is_valid_id,
}

pub record Counts : Type 0 where
  pub submissions : ℕ
  pub acknowledgements : ℕ
  pub rejections : ℕ
  pub uncertainties : ℕ

pub record Tally : Type 0 where
  pub rows : List (Key × Value)
  pub outcomes : List Key
  pub counts : Counts

abbrev pub empty_tally : Tally
empty_tally = record {
  rows = [];
  outcomes = [];
  counts = record { submissions = 0; acknowledgements = 0; rejections = 0; uncertainties = 0 };
}

-- `counts[kind] += 1`
unfoldable pub bump : Kind → Counts → Counts
bump submitted c = record c { submissions = c.submissions + 1 }
bump acknowledged c = record c { acknowledgements = c.acknowledgements + 1 }
bump rejected c = record c { rejections = c.rejections + 1 }
bump uncertain c = record c { uncertainties = c.uncertainties + 1 }

-- `submitted[key]`
unfoldable pub row_of : Key → List (Key × Value) → Option Value
row_of k [] = none
row_of k ((j, v) ∷ rows) =
    let rest = row_of k rows in if ◌==◌ {A = String × String} j k then some v else rest

-- `key in submitted`
unfoldable pub has_row : Key → List (Key × Value) → Bool
has_row k [] = false
has_row k ((j, v) ∷ rows) = ◌==◌ {A = String × String} j k || has_row k rows

unfoldable pub has_outcome : Key → List Key → Bool
has_outcome k [] = false
has_outcome k (j ∷ ks) = ◌==◌ {A = String × String} j k || has_outcome k ks

abbrev with_row : Event → Tally → Tally
with_row e t = record t { rows = (e.key, e.row) ∷ t.rows; counts = bump e.kind t.counts }

abbrev with_outcome : Event → Tally → Tally
with_outcome e t = record t { outcomes = e.key ∷ t.outcomes; counts = bump e.kind t.counts }

-- `key not in submitted or key in outcomes or submitted[key] != row`, denied
unfoldable pub matches : Event → Tally → Bool
unfolding row_of py_eq
matches e t =
    elim (row_of e.key t.rows) [ none ↦ false | some r ↦ py_eq r e.row ]
    && not (has_outcome e.key t.outcomes)

unfoldable pub take_submission : Event → Tally → Result Tally
unfolding has_row
take_submission e t =
    if has_row e.key t.rows then raise (value_error "duplicate submission") else ok (with_row e t)

unfoldable pub take_outcome : Event → Tally → Result Tally
unfolding matches is_acknowledged is_valid_id
take_outcome e t =
    if matches e t
    then if is_acknowledged e.kind && not (is_valid_id e.id)
      then raise (value_error "invalid acknowledgement id")
      else ok (with_outcome e t)
    else raise (value_error "unmatched outcome")

unfoldable pub take_event : Event → Tally → Result Tally
unfolding is_submission take_submission take_outcome
take_event e t = if is_submission e.kind then take_submission e t else take_outcome e t

unfoldable pub tally : List Event → Tally → Result Tally
unfolding take_event
tally [] t = ok t
tally (e ∷ es) t = bind (take_event e t) (tally es)

-- how many events of a list are submissions, or outcomes, of a key
unfoldable pub count_of : (Kind → Bool) → Key → List Event → ℕ
count_of p k [] = 0
count_of p k (e ∷ es) =
    let rest = count_of p k es in
    if p e.kind && ◌==◌ {A = String × String} e.key k then suc rest else rest

unfoldable pub is_outcome : Kind → Bool
unfolding is_submission
is_outcome k = not (is_submission k)

abbrev pub one_if : Bool → ℕ
one_if true = 1
one_if false = 0

-- What an accepted event does to the keys of a tally.
record Takes (e : Event) (t u : Tally) : Type 0 where
  pub row :
      (k : Key)
      → one_if (has_row k u.rows)
        ≡ one_if (is_submission e.kind && ◌==◌ {A = String × String} e.key k)
          + one_if (has_row k t.rows)
  pub outcome :
      (k : Key)
      → one_if (has_outcome k u.outcomes)
        ≡ one_if (is_outcome e.kind && ◌==◌ {A = String × String} e.key k)
          + one_if (has_outcome k t.outcomes)

one_if-fresh : (a b : Bool) → (a ≡ true → b ≡ false) → one_if (a || b) ≡ one_if a + one_if b
one_if-fresh true true h = let e = h refl in cc
one_if-fresh true false h = omega arith
one_if-fresh false b h = omega arith

same_key : (j k : Key) → ◌==◌ {A = String × String} j k ≡ true → j ≡ k
same_key j k h = (pair_beq_iff j k).0 h

with_row-Takes :
    (e : Event) (t : Tally)
    → is_submission e.kind ≡ true
    → has_row e.key t.rows ≡ false
    → Takes e t (with_row e t)
unfolding has_row is_outcome
with_row-Takes e t s fresh = record {
  row = λ k. rw (s) (
      one_if-fresh (◌==◌ {A = String × String} e.key k) (has_row k t.rows)
        (λ same. subst (λ j. has_row j t.rows ≡ false) (same_key e.key k same) fresh));
  outcome = λ k. rw (s) (omega arith);
}

with_outcome-Takes :
    (e : Event) (t : Tally)
    → is_submission e.kind ≡ false
    → has_outcome e.key t.outcomes ≡ false
    → Takes e t (with_outcome e t)
unfolding has_outcome is_outcome
with_outcome-Takes e t s fresh = record {
  row = λ k. rw (s) (omega arith);
  outcome = λ k. rw (s) (
      one_if-fresh (◌==◌ {A = String × String} e.key k) (has_outcome k t.outcomes)
        (λ same. subst (λ j. has_outcome j t.outcomes ≡ false) (same_key e.key k same) fresh));
}

take_submission-Takes :
    (e : Event) (t : Tally) {u : Tally}
    → is_submission e.kind ≡ true
    → take_submission e t ≡ ok u
    → Takes e t u
unfolding take_submission
take_submission-Takes e t {u} s h = elim (Bool-cases (has_row e.key t.rows)) [
  | inl known ↦
      let k : raise (value_error "duplicate submission") ≡ ok u =
        sym (rw (take_submission, known) refl) ∙ h in
      cc
  | inr fresh ↦
      let k : ok (with_row e t) ≡ ok u = sym (rw (take_submission, fresh) refl) ∙ h in
      subst (Takes e t) (ok-injective k) (with_row-Takes e t s fresh)
]

take_outcome_lem :
    (e : Event) (t : Tally) {u : Tally}
    → take_outcome e t ≡ ok u
    → (matches e t ≡ true) × (with_outcome e t ≡ u)
unfolding take_outcome
take_outcome_lem e t {u} h = elim (Bool-cases (matches e t)) [
  | inl m ↦ elim (Bool-cases (is_acknowledged e.kind && not (is_valid_id e.id))) [
    | inl bad ↦
        let k : raise (value_error "invalid acknowledgement id") ≡ ok u =
          sym (rw (take_outcome, m, bad) refl) ∙ h in
        cc
    | inr good ↦
        let k : ok (with_outcome e t) ≡ ok u = sym (rw (take_outcome, m, good) refl) ∙ h in
        (m, ok-injective k)
  ]
  | inr n ↦
      let k : raise (value_error "unmatched outcome") ≡ ok u =
        sym (rw (take_outcome, n) refl) ∙ h in
      cc
]

matches-fresh : (e : Event) (t : Tally) → matches e t ≡ true → has_outcome e.key t.outcomes ≡ false
unfolding matches
matches-fresh e t h =
    not-eq-true _
      (&&-eq-true (elim (row_of e.key t.rows) [ none ↦ false | some r ↦ py_eq r e.row ]) _ h).1

take_event-Takes : (e : Event) (t : Tally) {u : Tally} → take_event e t ≡ ok u → Takes e t u
unfolding take_event
take_event-Takes e t {u} h = elim (Bool-cases (is_submission e.kind)) [
  | inl s ↦ take_submission-Takes e t s (sym (rw (take_event, s) refl) ∙ h)
  | inr n ↦
      let (m, same) = take_outcome_lem e t (sym (rw (take_event, n) refl) ∙ h) in
      subst (Takes e t) same (with_outcome-Takes e t n (matches-fresh e t m))
]

-- A loop that ends has taken each key's submissions and outcomes into the tally, at most one of each.
pub tally-counts :
    (es : List Event) (t u : Tally)
    → tally es t ≡ ok u
    → (k : Key)
    → (one_if (has_row k u.rows) ≡ count_of is_submission k es + one_if (has_row k t.rows))
      × (one_if (has_outcome k u.outcomes)
          ≡ count_of is_outcome k es + one_if (has_outcome k t.outcomes))
unfolding tally count_of
tally-counts [] t u h k =
    let same = ok-injective h in
    (
      omega (arith, ap (λ (x : Tally). one_if (has_row k x.rows)) (sym same)),
      omega (arith, ap (λ (x : Tally). one_if (has_outcome k x.outcomes)) (sym same)),
    )
tally-counts (e ∷ es) t u h k =
    let (v, a, b) = bind-eq-ok (take_event e t) (tally es) h in
    let (r, o) = tally-counts es v u b k in
    let s = take_event-Takes e t a in
    (
      add_counts (is_submission e.kind && ◌==◌ {A = String × String} e.key k) _ _ _ _ r (s.row k),
      add_counts (is_outcome e.kind && ◌==◌ {A = String × String} e.key k) _ _ _ _ o (s.outcome k),
    )
  where
    add_counts :
        (b : Bool) (x y z w : ℕ) → x ≡ y + z → z ≡ one_if b + w → x ≡ (if b then suc y else y) + w
    add_counts true x y z w h k = omega (arith, h, k)
    add_counts false x y z w h k = omega (arith, h, k)
