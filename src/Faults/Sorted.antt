-- ===== src/Faults/Sorted.antt =====
-- That a classification has every submitted operation once, under the category that it belongs to.
use highly_available_trailba.Prelude.{
  ℕ, suc, ◌+◌, ◌≡◌, refl, sym, ◌∙◌, ap, subst, Bool, true, false, String, List, [], ◌∷◌, ◌++◌,
  Option, none, some, ◌==◌, nat_eq, string_eq, pair_eq, pair_beq_iff, All, ok, raise, if◌then◌else◌,
  bind, bind-eq-ok, ok-injective, Bool-cases, inl, inr, arith, value_error,
}
use highly_available_trailba.Py.Value.{Value}
use highly_available_trailba.Ledger.Records.{Kind, acknowledged, rejected, Key}
use highly_available_trailba.Faults.Classify.{
  Event, outcome_of, Category, recovered, lost, ambiguous, unacknowledged_recovered,
  rejected_unwritten, Found, is_found, payload_differs, judge_kind, judge_outcome, judge,
  sort_table,
}

-- the category of an operation, by whether the image has it, and by its outcome
unfoldable pub expected : Bool → Option Kind → Category
expected true (some acknowledged) = recovered
expected false (some acknowledged) = lost
expected found (some rejected) = rejected_unwritten
expected true k = unacknowledged_recovered
expected false k = ambiguous

unfoldable pub kind_in : Option Event → Option Kind
kind_in none = none
kind_in (some e) = some e.kind

judge_kind_lem :
    (show : ℕ → String) (found : List Found) (k : Kind) (id : Value) {c : Category}
    → judge_kind show found k id ≡ ok c
    → c ≡ expected (is_found found) (some k)
unfolding judge_kind expected is_found
judge_kind_lem show found k id h = ground (arith, h)

judge_lem :
    (show : ℕ → String) (found : List Found) (row : Value) (o : Option Event) {c : Category}
    → judge show found row o ≡ ok c
    → (c ≡ expected (is_found found) (kind_in o)) × (payload_differs found row ≡ false)
unfolding judge judge_outcome kind_in expected
judge_lem show found row none h = ground (arith, h)
judge_lem show found row (some e) {c} h = elim (Bool-cases (payload_differs found row)) [
  | inl t ↦
      let k : raise (value_error "recovered payload differs") ≡ ok c =
        sym (rw (judge, t) refl) ∙ h in
      cc
  | inr f ↦ (judge_kind_lem show found e.kind e.id (sym (rw (judge, f) refl) ∙ h), f)
]

-- how often a key stands in a list
unfoldable pub count_key : {A : Type 0} → (A → Key) → Key → List A → ℕ
count_key at k [] = 0
count_key at k (x ∷ xs) =
    let rest = count_key at k xs in if ◌==◌ {A = String × String} (at x) k then suc rest else rest

pub count_key-append :
    {A : Type 0} (at : A → Key) (k : Key) (xs ys : List A)
    → count_key at k (xs ++ ys) ≡ count_key at k xs + count_key at k ys
unfolding count_key
count_key-append at k [] ys = omega arith
count_key-append at k (x ∷ xs) ys = elim (Bool-cases (◌==◌ {A = String × String} (at x) k)) [
  | inl t ↦ rw (t) (omega (arith, count_key-append at k xs ys))
  | inr f ↦ rw (f) (count_key-append at k xs ys)
]

abbrev pub key_of_row : Key × Value → Key
key_of_row r = r.0

abbrev pub key_of_sorted : Category × Key → Key
key_of_sorted r = r.1

-- An operation stands under the category that its rows in the image and its outcome give it.
abbrev pub Right : (Key → List Found) → List (Key × Event) → Category × Key → Type 0
Right image outcomes p = p.0 ≡ expected (is_found (image p.1)) (kind_in (outcome_of p.1 outcomes))

-- what a table takes of a key
abbrev pub share : String → Key → ℕ → ℕ
share api k n = if k.0 == api then n else 0

key_of_same : (j k : Key) → ◌==◌ {A = String × String} j k ≡ true → j.0 ≡ k.0
key_of_same j k h = ap (λ (x : Key). x.0) ((pair_beq_iff j k).0 h)

share-taken :
    (api : String) (j k : Key) (n m : ℕ)
    → (j.0 == api) ≡ true
    → n ≡ share api k m
    → (if ◌==◌ {A = String × String} j k then suc n else n)
      ≡ share api k (if ◌==◌ {A = String × String} j k then suc m else m)
share-taken api j k n m t e = elim (Bool-cases (◌==◌ {A = String × String} j k)) [
  | inl same ↦
      let at : (k.0 == api) ≡ true = subst (λ x. (x == api) ≡ true) (key_of_same j k same) t in
      rw (same, at) (ap suc (e ∙ rw (at) refl))
  | inr other ↦ rw (other) e
]

share-skipped :
    (api : String) (j k : Key) (n m : ℕ)
    → (j.0 == api) ≡ false
    → n ≡ share api k m
    → n ≡ share api k (if ◌==◌ {A = String × String} j k then suc m else m)
share-skipped api j k n m f e = elim (Bool-cases (◌==◌ {A = String × String} j k)) [
  | inl same ↦
      let at : (k.0 == api) ≡ false = subst (λ x. (x == api) ≡ false) (key_of_same j k same) f in
      e ∙ rw (same, at) refl
  | inr other ↦ rw (other) e
]

module _ (show : ℕ → String) (image : Key → List Found) (api : String)
    (outcomes : List (Key × Event)) where
  -- a table's classification has its operations, each as often as it was submitted, in the right place
  pub record IsSorted (rows : List (Key × Value)) (cs : List (Category × Key)) : Type 0 where
    pub counts :
        (k : Key) → count_key key_of_sorted k cs ≡ share api k (count_key key_of_row k rows)
    pub right : All (Right image outcomes) cs

  none-IsSorted : IsSorted [] []
  unfolding count_key
  none-IsSorted = record { counts = λ k. empty_share k; right = tt }
    where
      empty_share : (k : Key) → 0 ≡ share api k 0
      empty_share k = ground arith

  taken-IsSorted :
      (j : Key) (row : Value) (rows : List (Key × Value)) (c : Category)
      (cs : List (Category × Key))
      → (j.0 == api) ≡ true
      → Right image outcomes (c, j)
      → IsSorted rows cs
      → IsSorted ((j, row) ∷ rows) ((c, j) ∷ cs)
  unfolding count_key
  taken-IsSorted j row rows c cs t r s = record {
    counts = λ k. share-taken api j k _ _ t (s.counts k);
    right = (r, s.right);
  }

  skipped-IsSorted :
      (j : Key) (row : Value) (rows : List (Key × Value)) (cs : List (Category × Key))
      → (j.0 == api) ≡ false
      → IsSorted rows cs
      → IsSorted ((j, row) ∷ rows) cs
  unfolding count_key
  skipped-IsSorted j row rows cs f s = record {
    counts = λ k. share-skipped api j k _ _ f (s.counts k);
    right = s.right;
  }

  pub sort_table-IsSorted :
      (rows : List (Key × Value)) {cs : List (Category × Key)}
      → sort_table show image api rows outcomes ≡ ok cs
      → IsSorted rows cs
  unfolding sort_table
  sort_table-IsSorted [] h = subst (IsSorted []) (ok-injective h) none-IsSorted
  sort_table-IsSorted ((j, row) ∷ rows) {cs} h = elim (Bool-cases (j.0 == api)) [
    | inl t ↦
        let (c, a, h1) =
          bind-eq-ok (judge show (image j) row (outcome_of j outcomes))
            (λ c. bind (sort_table show image api rows outcomes) (λ cs. ok ((c, j) ∷ cs)))
            (sym (rw (sort_table, t) refl) ∙ h) in
        let (ds, b, h2) =
          bind-eq-ok (sort_table show image api rows outcomes) (λ cs. ok ((c, j) ∷ cs)) h1 in
        let (r, _) = judge_lem show (image j) row (outcome_of j outcomes) a in
        subst (IsSorted ((j, row) ∷ rows)) (ok-injective h2)
          (taken-IsSorted j row rows c ds t r (sort_table-IsSorted rows b))
    | inr f ↦
        skipped-IsSorted j row rows cs f
          (sort_table-IsSorted rows (sym (rw (sort_table, f) refl) ∙ h))
  ]
