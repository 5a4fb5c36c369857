-- ===== src/Restore/Spans.antt =====
-- That an accepted plan ends where it says, and covers what it says.
use highly_available_trailba.Prelude.{
  ℕ, ◌^◌, ◌<◌, ◌≤◌, ◌≡◌, refl, sym, ◌∙◌, subst, Bool, true, not, String, List, [], ◌∷◌, Option,
  none, some, ◌==◌, nat_eq, string_eq, pair_eq, any, All, Result, ok, raise, raise_if,
  raise_if-eq-ok, bind, bind-eq-ok, ok-injective, Bool-cases, inl, inr, arith, &&-eq-true,
  not-eq-false,
}
use highly_available_trailba.Fallible.{◌>>=◌, ◌>>◌}
use highly_available_trailba.Py.Value.{Value, get, has_keys}
use highly_available_trailba.Node.Positions.{txid, txid-lt}
use highly_available_trailba.Restore.Endpoint.{
  malformed, checked_txid, FileKey, Span, level_of, is_size, files_of, need, within, has_zone,
  span_of, read_file, read_files, ends_agree, endpoint, is_plan, in_range, endpoint_from,
  restore_endpoint,
}

checked_txid-lt : (v : Value) {n : ℕ} → checked_txid v ≡ ok n → n < 2 ^ 64
unfolding checked_txid
checked_txid-lt v {n} h = txid-lt v (go (txid v) h)
  where
    go :
        (r : Result ℕ)
        → elim r as (λ x. Result ℕ) [ ok m ↦ ok m | raise e ↦ raise malformed ] ≡ ok n
        → r ≡ ok n
    go (ok m) h = h
    go (raise e) h = cc

need-eq-ok : {A : Type 0} (o : Option A) {a : A} → need o ≡ ok a → o ≡ some a
need-eq-ok none h = cc
need-eq-ok (some x) h = cc

module _ (is_zoned : Value → Bool) (low high : ℕ) where
  -- a span that lies between the ends of its plan
  abbrev pub IsWithin : Span → Type 0
  IsWithin s = (low ≤ s.0) × (s.0 ≤ s.1) × (s.1 ≤ high)

  span_of-IsWithin :
      (v : Value) (seen : List FileKey) (level a b : ℕ) {f : FileKey × Span}
      → span_of is_zoned low high v seen level a b ≡ ok f
      → IsWithin f.1
  unfolding span_of
  span_of-IsWithin v seen level a b {f} h = elim (Bool-cases (within low high a b)) [
    | inl t ↦ subst IsWithin (same t) (bounds t)
    | inr n ↦ let k : raise malformed ≡ ok f = sym (rw (span_of, n) refl) ∙ h in cc
  ]
    where
      bounds : within low high a b ≡ true → IsWithin (a, b)
      bounds t = ground arith

      same : within low high a b ≡ true → (a, b) ≡ f.1
      same t = ground (arith, h, t)

  read_file-IsWithin :
      (v : Value) (seen : List FileKey) {f : FileKey × Span}
      → read_file is_zoned low high v seen ≡ ok f
      → IsWithin f.1
  unfolding read_file
  read_file-IsWithin v seen h =
      let (_, _, h1) =
        bind-eq-ok
          (raise_if
            (not
              (has_keys ("level" ∷ "name" ∷ "min_txid" ∷ "max_txid" ∷ "size" ∷ "timestamp" ∷ []) v))
            malformed)
          (λ _. need (level_of (get v "level")) >>= λ level.
            raise_if (not (is_size (get v "size"))) malformed
            >> (checked_txid (get v "min_txid") >>= λ a.
                checked_txid (get v "max_txid") >>= span_of is_zoned low high v seen level a))
          h in
      let (level, _, h2) =
        bind-eq-ok (need (level_of (get v "level")))
          (λ level.
            raise_if (not (is_size (get v "size"))) malformed
            >> (checked_txid (get v "min_txid") >>= λ a.
                checked_txid (get v "max_txid") >>= span_of is_zoned low high v seen level a))
          h1 in
      let (_, _, h3) =
        bind-eq-ok (raise_if (not (is_size (get v "size"))) malformed)
          (λ _. checked_txid (get v "min_txid") >>= λ a.
            checked_txid (get v "max_txid") >>= span_of is_zoned low high v seen level a)
          h2 in
      let (a, _, h4) =
        bind-eq-ok (checked_txid (get v "min_txid"))
          (λ a. checked_txid (get v "max_txid") >>= span_of is_zoned low high v seen level a) h3 in
      let (b, _, h5) =
        bind-eq-ok (checked_txid (get v "max_txid")) (span_of is_zoned low high v seen level a)
          h4 in
      span_of-IsWithin v seen level a b h5

  read_files-IsWithin :
      (vs : List Value) (seen : List FileKey) {spans : List Span}
      → read_files is_zoned low high vs seen ≡ ok spans
      → All IsWithin spans
  unfolding read_files
  read_files-IsWithin [] seen h = subst (All IsWithin) (ok-injective h) tt
  read_files-IsWithin (v ∷ vs) seen h =
      let (f, a, h1) =
        bind-eq-ok (read_file is_zoned low high v seen)
          (λ f. bind (read_files is_zoned low high vs (f.0 ∷ seen)) (λ spans. ok (f.1 ∷ spans)))
          h in
      let (rest, b, h2) =
        bind-eq-ok (read_files is_zoned low high vs (f.0 ∷ seen)) (λ spans. ok (f.1 ∷ spans)) h1 in
      subst (All IsWithin) (ok-injective h2)
        (read_file-IsWithin v seen a, read_files-IsWithin vs (f.0 ∷ seen) b)

  -- What stands behind an endpoint: the spans of the plan's files.
  pub record Covers (files : List Value) (minimum n : ℕ) : Type 0 where
    pub is_high : n ≡ high
    pub reaches : minimum ≤ n
    pub spans : List Span
    pub read : read_files is_zoned low high files [] ≡ ok spans
    pub inside : All IsWithin spans
    pub begins : any (λ (s : Span). s.0 == low) spans ≡ true
    pub ends : any (λ (s : Span). s.1 == high) spans ≡ true

  ends_agree_lem :
      (spans : List Span)
      → ends_agree is_zoned low high spans ≡ true
      → (any (λ (s : Span). s.0 == low) spans ≡ true)
        × (any (λ (s : Span). s.1 == high) spans ≡ true)
  unfolding ends_agree
  ends_agree_lem spans e = &&-eq-true (any (λ (s : Span). s.0 == low) spans) _ e

  endpoint-Covers :
      (files : List Value) (minimum : ℕ) {n : ℕ}
      → minimum ≤ high
      → endpoint is_zoned low high files ≡ ok n
      → Covers files minimum n
  unfolding endpoint
  endpoint-Covers files minimum {n} m h =
      let (spans, a, h1) =
        bind-eq-ok (read_files is_zoned low high files [])
          (λ spans. raise_if (not (ends_agree is_zoned low high spans)) malformed >> ok high) h in
      let (_, b, h2) =
        bind-eq-ok (raise_if (not (ends_agree is_zoned low high spans)) malformed) (λ _. ok high)
          h1 in
      let (first, last) =
        ends_agree_lem spans
          (not-eq-false _ (raise_if-eq-ok (not (ends_agree is_zoned low high spans)) _ b)) in
      let same = ok-injective h2 in
      record {
        is_high = sym same;
        reaches = subst (λ x. minimum ≤ x) same m;
        spans = spans;
        read = a;
        inside = read_files-IsWithin files [] a;
        begins = first;
        ends = last;
      }

endpoint_from_lem :
    (is_zoned : Value → Bool) (files : List Value) (minimum low high : ℕ) {n : ℕ}
    → endpoint_from is_zoned files minimum low high ≡ ok n
    → Covers is_zoned low high files minimum n
unfolding endpoint_from in_range
endpoint_from_lem is_zoned files minimum low high {n} h =
    elim (Bool-cases (in_range low high minimum)) [
      | inl t ↦
          endpoint-Covers is_zoned low high files minimum (reach t)
            (sym (rw (endpoint_from, t) refl) ∙ h)
      | inr f ↦ let k : raise malformed ≡ ok n = sym (rw (endpoint_from, f) refl) ∙ h in cc
    ]
  where
    reach : in_range low high minimum ≡ true → minimum ≤ high
    reach t = ground arith

-- What an accepted plan says: its ends are positions, the lower is not 0, its files are a list and they
-- cover what is between the ends.
pub record IsRestorable (read_zone : List ℕ → Result Bool) (plan : Value) (minimum n : ℕ)
    : Type 0 where
  pub low : ℕ
  pub files : List Value
  pub first : checked_txid (get plan "min_txid") ≡ ok low
  pub last : checked_txid (get plan "max_txid") ≡ ok n
  pub bounded : n < 2 ^ 64
  pub listed : files_of (get plan "files") ≡ some files
  pub covers : Covers (has_zone read_zone) low n files minimum n

-- A plan whose restore is accepted ends at the position that is given back, which is less than 2 ** 64
-- and not below the minimum; the spans of all its files lie between its first and its last position, one
-- of them begins at the first, and one of them ends at the last.
pub restore_endpoint-IsRestorable :
    (read_zone : List ℕ → Result Bool) (plan : Value) (source target : String) (minimum : ℕ) {n : ℕ}
    → restore_endpoint read_zone plan source target minimum ≡ ok n
    → IsRestorable read_zone plan minimum n
unfolding restore_endpoint
restore_endpoint-IsRestorable read_zone plan source target minimum {n} h =
    let (_, _, h1) =
      bind-eq-ok (raise_if (not (is_plan plan source target minimum)) malformed)
        (λ _. need (files_of (get plan "files")) >>= λ files.
          checked_txid (get plan "min_txid") >>= λ low.
          checked_txid (get plan "max_txid")
          >>= endpoint_from (has_zone read_zone) files minimum low)
        h in
    let (files, f, h2) =
      bind-eq-ok (need (files_of (get plan "files")))
        (λ files. checked_txid (get plan "min_txid") >>= λ low.
          checked_txid (get plan "max_txid")
          >>= endpoint_from (has_zone read_zone) files minimum low)
        h1 in
    let (low, a, h3) =
      bind-eq-ok (checked_txid (get plan "min_txid"))
        (λ low.
          checked_txid (get plan "max_txid")
          >>= endpoint_from (has_zone read_zone) files minimum low)
        h2 in
    let (high, b, h4) =
      bind-eq-ok (checked_txid (get plan "max_txid"))
        (endpoint_from (has_zone read_zone) files minimum low) h3 in
    let c : Covers (has_zone read_zone) low high files minimum n =
      endpoint_from_lem (has_zone read_zone) files minimum low high h4 in
    let e : high ≡ n = sym c.is_high in
    let b' : checked_txid (get plan "max_txid") ≡ ok n =
      subst (λ x. checked_txid (get plan "max_txid") ≡ ok x) e b in
    record {
      low = low;
      files = files;
      first = a;
      last = b';
      bounded = checked_txid-lt (get plan "max_txid") b';
      listed = need-eq-ok (files_of (get plan "files")) f;
      covers = subst (λ x. Covers (has_zone read_zone) low x files minimum n) e c;
    }
