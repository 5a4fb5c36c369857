-- ===== src/Ledger/Closed.antt =====
-- That a ledger read as closed pairs submissions and outcomes.
use highly_available_trailba.Prelude.{
  ℕ, ◌≤◌, ◌≡◌, refl, sym, ◌∙◌, ap, subst, Bool, true, false, ◌&&◌, ◌||◌, not, String, List, [], ◌∷◌,
  Option, none, some, ◌==◌, nat_eq, string_eq, pair_eq, pair_beq_iff, all, any, length, leb, Result,
  ok, raise, raise_if, value_error, arith, bind, bind-eq-ok, Bool-cases, inl, inr, ok-injective,
  &&-eq-true,
}
use highly_available_trailba.Fallible.{◌>>=◌, ◌>>◌}
use highly_available_trailba.Py.Value.{Value}
use highly_available_trailba.Ledger.Records.{Event, Key, is_submission, event_of, is_stamped}
use highly_available_trailba.Ledger.Tally.{
  Tally, empty_tally, tally, take_event, has_row, has_outcome, count_of, is_outcome, one_if,
  tally-counts,
}
use highly_available_trailba.Ledger.Read.{
  split_lines, ends_of, parse_all, loop, is_start, is_stop, same_keys, is_complete, max_submissions,
  closed, read_events, marked, with_ends, framed, read_closed_ledger,
}

loop-tally :
    (vs : List Value) (t : Tally) {r : List Event × Tally} → loop vs t ≡ ok r → tally r.0 t ≡ ok r.1
unfolding loop tally
loop-tally [] t h = subst (λ (p : List Event × Tally). tally p.0 t ≡ ok p.1) (ok-injective h) refl
loop-tally (v ∷ vs) t {r} h =
    let (e, _, h1) =
      bind-eq-ok (event_of v)
        (λ e. bind (take_event e t) (λ u. bind (loop vs u) (λ r. ok (e ∷ r.0, r.1)))) h in
    let (u, taken, h2) =
      bind-eq-ok (take_event e t) (λ u. bind (loop vs u) (λ r. ok (e ∷ r.0, r.1))) h1 in
    let (q, rest, h3) = bind-eq-ok (loop vs u) (λ r. ok (e ∷ r.0, r.1)) h2 in
    subst (λ (p : List Event × Tally). tally p.0 t ≡ ok p.1) (ok-injective h3)
      (ap (λ x. bind x (tally q.0)) taken ∙ loop-tally vs u rest)

-- What the program has established of the events that it gives back.
record IsClosed (events : List Event) : Type 0 where
  pub once : (k : Key) → count_of is_submission k events ≤ 1
  pub paired : (k : Key) → count_of is_submission k events ≡ count_of is_outcome k events

all-holds :
    {A : Type 0} (p : A → Bool) (q : A → Bool) (xs : List A)
    → all p xs ≡ true
    → any q xs ≡ true
    → (x : A) × (p x ≡ true) × (q x ≡ true)
all-holds p q [] a e = cc
all-holds p q (x ∷ xs) a e =
    let (px, pxs) = &&-eq-true (p x) (all p xs) a in
    elim (Bool-cases (q x)) [
      | inl t ↦ (x, px, t)
      | inr f ↦ all-holds p q xs pxs (ground (arith, e, f))
    ]

has_row-any :
    (k : Key) (rows : List (Key × Value))
    → has_row k rows ≡ any (λ (r : Key × Value). ◌==◌ {A = String × String} r.0 k) rows
unfolding has_row
has_row-any k [] = refl
has_row-any k ((j, v) ∷ rows) = ap (λ b. ◌==◌ {A = String × String} j k || b) (has_row-any k rows)

has_outcome-any :
    (k : Key) (ks : List Key) → has_outcome k ks ≡ any (λ j. ◌==◌ {A = String × String} j k) ks
unfolding has_outcome
has_outcome-any k [] = refl
has_outcome-any k (j ∷ ks) = ap (λ b. ◌==◌ {A = String × String} j k || b) (has_outcome-any k ks)

row-outcome :
    (t : Tally) (k : Key)
    → same_keys t ≡ true
    → has_row k t.rows ≡ true
    → has_outcome k t.outcomes ≡ true
unfolding same_keys
row-outcome t k s h =
    let (a, _) = &&-eq-true (all (λ (r : Key × Value). has_outcome r.0 t.outcomes) t.rows) _ s in
    let (r, found, same) =
      all-holds (λ (r : Key × Value). has_outcome r.0 t.outcomes)
        (λ (r : Key × Value). ◌==◌ {A = String × String} r.0 k) t.rows a
        (sym (has_row-any k t.rows) ∙ h) in
    subst (λ j. has_outcome j t.outcomes ≡ true) ((pair_beq_iff r.0 k).0 same) found

outcome-row :
    (t : Tally) (k : Key)
    → same_keys t ≡ true
    → has_outcome k t.outcomes ≡ true
    → has_row k t.rows ≡ true
unfolding same_keys
outcome-row t k s h =
    let (_, b) = &&-eq-true (all (λ (r : Key × Value). has_outcome r.0 t.outcomes) t.rows) _ s in
    let (j, found, same) =
      all-holds (λ j. has_row j t.rows) (λ j. ◌==◌ {A = String × String} j k) t.outcomes b
        (sym (has_outcome-any k t.outcomes) ∙ h) in
    subst (λ i. has_row i t.rows ≡ true) ((pair_beq_iff j k).0 same) found

same_bits : (a b : Bool) → (a ≡ true → b ≡ true) → (b ≡ true → a ≡ true) → one_if a ≡ one_if b
same_bits true b f g = let e = f refl in ap one_if (sym e)
same_bits false true f g = let e = g refl in cc
same_bits false false f g = refl

one_if-le : (b : Bool) → one_if b ≤ 1
one_if-le true = omega arith
one_if-le false = omega arith

closed_lem :
    (stop : Value) (r : List Event × Tally) {events : List Event}
    → closed stop r ≡ ok events
    → (is_complete stop r.1 ≡ true) × (r.0 ≡ events)
unfolding closed
closed_lem stop r {events} h = elim (Bool-cases (is_complete stop r.1)) [
  | inl t ↦ let k : ok r.0 ≡ ok events = sym (rw (closed, t) refl) ∙ h in (t, ok-injective k)
  | inr f ↦
      let k : raise (value_error "incomplete outcomes or inconsistent counters") ≡ ok events =
        sym (rw (closed, f) refl) ∙ h in
      cc
]

complete-same : (stop : Value) (t : Tally) → is_complete stop t ≡ true → same_keys t ≡ true
unfolding is_complete
complete-same stop t h =
    (&&-eq-true (same_keys t) _
      (&&-eq-true (same_keys t && leb (length t.rows) max_submissions) _ h).0).0

tally-IsClosed :
    (events : List Event) (t : Tally)
    → tally events empty_tally ≡ ok t
    → same_keys t ≡ true
    → IsClosed events
unfolding has_row has_outcome
tally-IsClosed events t h s = record {
  once =
      λ k. omega (arith, (tally-counts events empty_tally t h k).0, one_if-le (has_row k t.rows));
  paired = λ k.
      let (r, o) = tally-counts events empty_tally t h k in
      omega (
        arith,
        r,
        o,
        same_bits (has_row k t.rows) (has_outcome k t.outcomes) (row-outcome t k s)
            (outcome-row t k s),
      );
}

read_events-IsClosed :
    (stop : Value) (rows : List Value) {events : List Event}
    → read_events stop rows ≡ ok events
    → IsClosed events
unfolding read_events
read_events-IsClosed stop rows h =
    let (r, l, c) = bind-eq-ok (loop rows empty_tally) (closed stop) h in
    let (complete, same) = closed_lem stop r c in
    subst IsClosed same
      (tally-IsClosed r.0 r.1 (loop-tally rows empty_tally l) (complete-same stop r.1 complete))

with_ends-IsClosed :
    (epoch : String) (o : Option (Value × List Value × Value)) {events : List Event}
    → with_ends epoch o ≡ ok events
    → IsClosed events
unfolding with_ends marked
with_ends-IsClosed epoch none h = cc
with_ends-IsClosed epoch (some (start, rows, stop)) h =
    let (_, _, h1) =
      bind-eq-ok
        (raise_if (not (is_start start epoch && is_stop stop))
          (value_error "invalid or mismatched ledger markers"))
        (λ _.
          raise_if (not (is_stamped start && is_stamped stop)) (value_error "invalid timestamp")
          >> read_events stop rows)
        h in
    let (_, _, h2) =
      bind-eq-ok
        (raise_if (not (is_stamped start && is_stamped stop)) (value_error "invalid timestamp"))
        (λ _. read_events stop rows) h1 in
    read_events-IsClosed stop rows h2

-- A ledger that is read as closed gives, for each operation of each table, at most one submission,
-- and exactly as many outcomes as submissions.
pub read_closed_ledger-IsClosed :
    (parse : List ℕ → Result Value) (epoch : String) (raw : List ℕ) {events : List Event}
    → read_closed_ledger parse epoch raw ≡ ok events
    → (k : Key)
    → (count_of is_submission k events ≤ 1)
      × (count_of is_submission k events ≡ count_of is_outcome k events)
unfolding read_closed_ledger
read_closed_ledger-IsClosed parse epoch raw {events} h k =
    let (_, _, h1) =
      bind-eq-ok (framed epoch raw)
        (λ _. parse_all parse (split_lines raw) >>= λ rows. with_ends epoch (ends_of rows)) h in
    let (rows, _, h2) =
      bind-eq-ok (parse_all parse (split_lines raw)) (λ rows. with_ends epoch (ends_of rows)) h1 in
    let c : IsClosed events = with_ends-IsClosed epoch (ends_of rows) h2 in (c.once k, c.paired k)
