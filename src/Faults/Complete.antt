-- ===== src/Faults/Complete.antt =====
-- That a classification is of all the operations that were submitted, each once.
use highly_available_trailba.Prelude.{
  ℕ, ◌+◌, ◌≡◌, refl, sym, ◌∙◌, ap, ap₂, subst, Bool, true, false, ◌||◌, not, String, List, [], ◌∷◌,
  ◌++◌, Option, none, some, ◌==◌, nat_eq, string_eq, pair_eq, pair_beq_iff, eq_iff, All, All-append,
  ok, raise, raise_if, Exc, if◌then◌else◌, bind, bind-eq-ok, ok-injective, Bool-cases, inl, inr,
  arith, value_error,
}
use highly_available_trailba.Fallible.{◌>>=◌, ◌>>◌}
use highly_available_trailba.Py.Value.{Value, str, get, has_keys, is_str}
use highly_available_trailba.Ledger.Records.{
  Kind, is_submission, Key, kind_of, api_of, op_key_of, is_short, need,
}
use highly_available_trailba.Ledger.Tally.{has_row, one_if}
use highly_available_trailba.Faults.Classify.{
  Event, event_from, invalid_operation, has_event_keys, event_row, event_of, Seen, with_row,
  with_outcome, see, see_all, Category, Found, sort_table, classify_fault,
}
use highly_available_trailba.Faults.Sorted.{
  count_key, count_key-append, key_of_row, key_of_sorted, Right, share, sort_table-IsSorted,
}

unfoldable pub is_table : Key → Bool
is_table k = k.0 == "main_ops" || k.0 == "aux_ops"

need-eq-ok : {A : Type 0} (o : Option A) (e : Exc) {a : A} → need o e ≡ ok a → o ≡ some a
need-eq-ok none e h = cc
need-eq-ok (some x) e h = cc

api_of_lem :
    (op : String) (v : Value) {api : String} → api_of v ≡ some api → is_table (api, op) ≡ true
unfolding api_of is_table
api_of_lem op (str s) h = ground (arith, h)
api_of_lem op v h = cc

event_row_lem :
    (v : Value) (kind : Kind) (api : String) {e : Event}
    → event_row v kind api ≡ ok e
    → (op : String) × ((api, op) ≡ e.key)
unfolding event_row
event_row_lem v kind api h =
    let (_, _, h1) =
      bind-eq-ok
        (raise_if (not (has_keys ("op_key" ∷ "payload" ∷ []) (get v "row"))) invalid_operation)
        (λ _. need (op_key_of (get (get v "row") "op_key")) invalid_operation >>= λ op.
          raise_if (not (is_str is_short (get (get v "row") "payload"))) invalid_operation
          >> ok (event_from kind api op (get v "row") (get v "id")))
        h in
    let (op, _, h2) =
      bind-eq-ok (need (op_key_of (get (get v "row") "op_key")) invalid_operation)
        (λ op.
          raise_if (not (is_str is_short (get (get v "row") "payload"))) invalid_operation
          >> ok (event_from kind api op (get v "row") (get v "id")))
        h1 in
    let (_, _, h3) =
      bind-eq-ok (raise_if (not (is_str is_short (get (get v "row") "payload"))) invalid_operation)
        (λ _. ok (event_from kind api op (get v "row") (get v "id"))) h2 in
    (op, ap (λ (e : Event). e.key) (ok-injective h3))

event_of-table : (v : Value) {e : Event} → event_of v ≡ ok e → is_table e.key ≡ true
unfolding event_of
event_of-table v h =
    let (_, _, h1) =
      bind-eq-ok (raise_if (not (has_event_keys v)) (value_error "malformed fault event"))
        (λ _. need (kind_of (get v "event")) invalid_operation >>= λ kind.
          need (api_of (get v "api")) invalid_operation >>= event_row v kind)
        h in
    let (kind, _, h2) =
      bind-eq-ok (need (kind_of (get v "event")) invalid_operation)
        (λ kind. need (api_of (get v "api")) invalid_operation >>= event_row v kind) h1 in
    let (api, a, h3) =
      bind-eq-ok (need (api_of (get v "api")) invalid_operation) (event_row v kind) h2 in
    let (op, e) = event_row_lem v kind api h3 in
    subst (λ k. is_table k ≡ true) e
      (api_of_lem op (get v "api") (need-eq-ok (api_of (get v "api")) _ a))

-- What the events that were read leave: each operation once, and each of a table.
record IsSeen (s : Seen) : Type 0 where
  pub once : (k : Key) → count_key key_of_row k s.rows ≡ one_if (has_row k s.rows)
  pub tables : All (λ (r : Key × Value). is_table r.0 ≡ true) s.rows

has_row-append :
    (k j : Key) (v : Value) (rows : List (Key × Value))
    → has_row k (rows ++ (j, v) ∷ []) ≡ (has_row k rows || ◌==◌ {A = String × String} j k)
unfolding has_row
has_row-append k j v [] = ground arith
has_row-append k j v ((i, w) ∷ rows) = ground (arith, has_row-append k j v rows)

one_more :
    (j k : Key) (n : ℕ) (b : Bool)
    → n ≡ one_if b
    → (◌==◌ {A = String × String} j k ≡ true → b ≡ false)
    → n + (if ◌==◌ {A = String × String} j k then 1 else 0)
      ≡ one_if (b || ◌==◌ {A = String × String} j k)
one_more j k n b e f = go (◌==◌ {A = String × String} j k) b e f
  where
    go :
        (c b : Bool)
        → n ≡ one_if b
        → (c ≡ true → b ≡ false)
        → n + (if c then 1 else 0) ≡ one_if (b || c)
    go true true e f = let x = f refl in cc
    go true false e f = omega (arith, e)
    go false true e f = omega (arith, e)
    go false false e f = omega (arith, e)

with_row-IsSeen :
    (e : Event) (s : Seen)
    → is_table e.key ≡ true
    → has_row e.key s.rows ≡ false
    → IsSeen s
    → IsSeen (with_row e s)
unfolding count_key
with_row-IsSeen e s t fresh i = record {
  once = λ k.
      count_key-append key_of_row k s.rows ((e.key, e.row) ∷ [])
      ∙ one_more e.key k (count_key key_of_row k s.rows) (has_row k s.rows) (i.once k)
          (λ same. subst (λ j. has_row j s.rows ≡ false) ((pair_beq_iff e.key k).0 same) fresh)
      ∙ ap one_if (sym (has_row-append k e.key e.row s.rows));
  tables =
      All-append (λ (r : Key × Value). is_table r.0 ≡ true) s.rows ((e.key, e.row) ∷ []) i.tables
        (t, tt);
}

see-IsSeen :
    (e : Event) (s : Seen) {u : Seen} → is_table e.key ≡ true → IsSeen s → see e s ≡ ok u → IsSeen u
unfolding see
see-IsSeen e s {u} t i h = elim (Bool-cases (is_submission e.kind)) [
  | inl sub ↦ elim (Bool-cases (has_row e.key s.rows)) [
    | inl known ↦
        let k : raise (value_error "duplicate submission") ≡ ok u =
          sym (rw (see, sub, known) refl) ∙ h in
        cc
    | inr fresh ↦
        let k : ok (with_row e s) ≡ ok u = sym (rw (see, sub, fresh) refl) ∙ h in
        subst IsSeen (ok-injective k) (with_row-IsSeen e s t fresh i)
  ]
  | inr out ↦ subst IsSeen (outcome_same out) (same_rows i)
]
  where
    same_rows : IsSeen s → IsSeen (with_outcome e s)
    same_rows i = record { once = i.once; tables = i.tables }

    outcome_same : is_submission e.kind ≡ false → with_outcome e s ≡ u
    outcome_same out = ground (arith, out, h)

see_all-IsSeen : (vs : List Value) (s : Seen) {u : Seen} → IsSeen s → see_all vs s ≡ ok u → IsSeen u
unfolding see_all
see_all-IsSeen [] s i h = subst IsSeen (ok-injective h) i
see_all-IsSeen (v ∷ vs) s i h =
    let (e, a, h1) = bind-eq-ok (event_of v) (λ e. bind (see e s) (see_all vs)) h in
    let (t, b, h2) = bind-eq-ok (see e s) (see_all vs) h1 in
    see_all-IsSeen vs t (see-IsSeen e s (event_of-table v a) i b) h2

abbrev pub unseen : Seen
unseen = record { rows = []; outcomes = [] }

unseen-IsSeen : IsSeen unseen
unfolding count_key has_row
unseen-IsSeen = record { once = λ k. refl; tables = tt }

-- A key of neither table stands in no row.
not_counted :
    (k : Key) (rows : List (Key × Value))
    → All (λ (r : Key × Value). is_table r.0 ≡ true) rows
    → is_table k ≡ false
    → count_key key_of_row k rows ≡ 0
unfolding count_key
not_counted k [] a n = refl
not_counted k ((j, v) ∷ rows) (t, a) n = elim (Bool-cases (◌==◌ {A = String × String} j k)) [
  | inl same ↦ let clash = subst (λ i. is_table i ≡ true) ((pair_beq_iff j k).0 same) t in cc
  | inr other ↦ rw (other) (not_counted k rows a n)
]

shares :
    (k : Key) (n : ℕ)
    → (is_table k ≡ false → n ≡ 0)
    → share "main_ops" k n + share "aux_ops" k n ≡ n
unfolding is_table
shares k n f = elim (Bool-cases (k.0 == "main_ops")) [
  | inl m ↦
      let not_aux : (k.0 == "aux_ops") ≡ false =
        subst (λ x. (x == "aux_ops") ≡ false) (sym ((eq_iff k.0 "main_ops").0 m)) refl in
      rw (m, not_aux) (omega arith)
  | inr o ↦ elim (Bool-cases (k.0 == "aux_ops")) [
    | inl a ↦ rw (o, a) (omega arith)
    | inr q ↦ let z = f (rw (o, q) refl) in rw (o, q) (omega (arith, z))
  ]
]

-- A classification has each operation that was submitted exactly once and no other, and each under
-- the category that its outcome and the recovery image give it: an acknowledged one is recovered if
-- the image has it and lost if not, and one with no outcome, or an uncertain one, is
-- unacknowledged_recovered or ambiguous; a rejected one counts as rejected.
pub classify_fault_complete :
    (show : ℕ → String) (image : Key → List Found) (events : List Value)
    {cs : List (Category × Key)}
    → classify_fault show image events ≡ ok cs
    → (s : Seen) × (see_all events unseen ≡ ok s)
      × ((k : Key) → count_key key_of_sorted k cs ≡ one_if (has_row k s.rows))
      × All (Right image s.outcomes) cs
unfolding classify_fault
classify_fault_complete show image events h =
    let (s, a, h1) =
      bind-eq-ok (see_all events unseen)
        (λ s. sort_table show image "main_ops" s.rows s.outcomes >>= λ main.
          sort_table show image "aux_ops" s.rows s.outcomes >>= λ aux. ok (main ++ aux))
        h in
    let (main, b, h2) =
      bind-eq-ok (sort_table show image "main_ops" s.rows s.outcomes)
        (λ main. sort_table show image "aux_ops" s.rows s.outcomes >>= λ aux. ok (main ++ aux))
        h1 in
    let (aux, c, h3) =
      bind-eq-ok (sort_table show image "aux_ops" s.rows s.outcomes) (λ aux. ok (main ++ aux)) h2 in
    let seen = see_all-IsSeen events unseen unseen-IsSeen a in
    let m = sort_table-IsSorted show image "main_ops" s.outcomes s.rows b in
    let x = sort_table-IsSorted show image "aux_ops" s.outcomes s.rows c in
    (
      s,
      a,
      λ k.
          sym (ap (count_key key_of_sorted k) (ok-injective h3))
          ∙ count_key-append key_of_sorted k main aux
          ∙ ap₂ ◌+◌ (m.counts k) (x.counts k)
          ∙ shares k (count_key key_of_row k s.rows) (not_counted k s.rows seen.tables)
          ∙ seen.once k,
      subst (All (Right image s.outcomes)) (ok-injective h3)
          (All-append (Right image s.outcomes) main aux m.right x.right),
    )
