-- ===== src/S3/Reconcile/Sound.antt =====
-- What a reconciliation that decides has seen, and that one always ends.
use highly_available_trailba.Prelude.{
  ℕ, zero, suc, ◌+◌, ◌*◌, ◌≤◌, ◌≡◌, refl, ◌∙◌, ap, subst, ◌⊎◌, inl, inr, true, false, String, List,
  [], ◌∷◌, ◌++◌, Option, none, some, ◌==◌, nat_eq, string_eq, list_eq, list_beq_iff, length,
  length-append, Result, ok, raise, Exc, Option-cases, Bool-cases, arith,
}
use highly_available_trailba.Exec.{Exec, pure}
use highly_available_trailba.S3.Text.{header_value}
use highly_available_trailba.S3.Put.{Response}
use highly_available_trailba.S3.Reconcile.{
  Reconciliation, committed, discarded, unknown, Method, head, get, ReconciliationProbe,
  ReconciliationResult, is_os_error, Found, found, etag_matches, is_committed, from_response,
  failed_probe, judge, probe, verdict, rounds, reconcile_put_detailed,
}

module _ (sha256 : List ℕ → String) (body : List ℕ) (etag : Option String) {W : Type 0}
    (read : Method → W → Result Response × W) where
  -- What stands behind an outcome, at the world that it is announced in.
  pub data Justified (w' : W) : Reconciliation → Type 0 where
    -- a GET gave the body that was put, under a tag that is not empty and is the one expected
    as_committed :
        (w : W) (headers : List (String × String))
        → read get w ≡ (ok (200, headers, body), w')
        → (header_value headers "etag" == "") ≡ false
        → etag_matches sha256 body etag (header_value headers "etag") ≡ true
        → Justified w' committed
    -- HEAD and then GET found no object
    as_discarded :
        (w v : W) (h g : List (String × String)) (a b : List ℕ)
        → read head w ≡ (ok (404, h, a), v)
        → read get v ≡ (ok (404, g, b), w')
        → Justified w' discarded
    as_unknown : Justified w' unknown

  record Seen (method : Method) (before : List ReconciliationProbe) (w : W) (f : Found) (w' : W)
      : Type 0 where
    pub counted : length f.probes ≡ length before + 1
    pub absent_if :
        f.absent ≡ true
        → (h : List (String × String)) × (b : List ℕ) × (read method w ≡ (ok (404, h, b), w'))
    pub committed_if :
        f.is_committed ≡ true
        → (headers : List (String × String)) × (read method w ≡ (ok (200, headers, body), w'))
          × ((header_value headers "etag" == "") ≡ false)
          × (etag_matches sha256 body etag (header_value headers "etag") ≡ true)

  is_committed_lem :
      (method : Method) (status : ℕ) (headers : List (String × String)) (got : List ℕ)
      → is_committed sha256 body etag method (status, headers, got) ≡ true
      → (status ≡ 200)
        × (got ≡ body)
        × ((header_value headers "etag" == "") ≡ false)
        × (etag_matches sha256 body etag (header_value headers "etag") ≡ true)
  unfolding is_committed
  is_committed_lem method status headers got h = ground (arith, list_beq_iff got body)

  found-Seen :
      (method : Method) (before : List ReconciliationProbe) (w w' : W) (p : ReconciliationProbe)
      (status : ℕ) (headers : List (String × String)) (got : List ℕ)
      → read method w ≡ (ok (status, headers, got), w')
      → Seen method before w
          (found
            (status == 404)
            (is_committed sha256 body etag method (status, headers, got))
            (before ++ p ∷ []))
          w'
  found-Seen method before w w' p status headers got e = record {
    counted = length-append before (p ∷ []);
    absent_if = λ a.
        let s : status ≡ 404 = ground arith in
        (headers, got, subst (λ n. read method w ≡ (ok (n, headers, got), w')) s e);
    committed_if = λ c.
        let (s, b, t, m) = is_committed_lem method status headers got c in
        (
          headers,
          subst (λ x. read method w ≡ (ok (200, headers, x), w')) b
              (subst (λ n. read method w ≡ (ok (n, headers, got), w')) s e),
          t,
          m,
        );
  }

  failed-Seen :
      (method : Method) (before : List ReconciliationProbe) (w w' : W) (p : ReconciliationProbe)
      → Seen method before w (found false false (before ++ p ∷ [])) w'
  failed-Seen method before w w' p = record {
    counted = length-append before (p ∷ []);
    absent_if = λ a. cc;
    committed_if = λ c. cc;
  }

  -- a read that raised what the program does not catch
  abbrev pub Raised : Exc → W → Type 0
  Raised x v = (m : Method) × (w : W) × (read m w ≡ (raise x, v)) × (is_os_error x ≡ false)

  ProbeCases : Method → List ReconciliationProbe → W → Type 0
  ProbeCases method before w =
      ((x : Exc) × (v : W) × (probe sha256 body etag read method before w ≡ (raise x, v))
        × Raised x v)
      ⊎ ((f : Found) × (v : W) × (probe sha256 body etag read method before w ≡ (ok f, v))
          × Seen method before w f v)

  probe-cases :
      (method : Method) (before : List ReconciliationProbe) (w : W) → ProbeCases method before w
  unfolding probe judge ProbeCases
  probe-cases method before w = go (read method w) refl
    where
      go : (r : Result Response × W) → read method w ≡ r → ProbeCases method before w
      go (ok (status, headers, got), v) e = inr (
        found (status == 404) (is_committed sha256 body etag method (status, headers, got))
            (before ++ from_response sha256 method (status, headers, got) ∷ []),
        v,
        rw (probe, e) refl,
        found-Seen method before w v (from_response sha256 method (status, headers, got)) status
            headers got e,
      )
      go (raise x, v) e = elim (Bool-cases (is_os_error x)) [
        | inl t ↦ inr (
          found false false (before ++ failed_probe sha256 method ∷ []),
          v,
          rw (probe, e, t) refl,
          failed-Seen method before w v (failed_probe sha256 method),
        )
        | inr n ↦ inl (x, v, rw (probe, e, n) refl, (method, w, e, n))
      ]

  -- What a search of `n` rounds ends with, `k` probes having been made.
  RoundsCases : ℕ → ℕ → Result ReconciliationResult × W → Type 0
  RoundsCases n k e =
      ((x : Exc) × (v : W) × (e ≡ (raise x, v)) × Raised x v)
      ⊎ ((r : ReconciliationResult) × (v : W) × (e ≡ (ok r, v))
          × Justified v r.outcome
          × (length r.probes ≤ k + 2 * n))

  verdict-Justified :
      (h g : Found) (ps : List ReconciliationProbe) (w v u : W) (o : Reconciliation)
      → Seen head ps w h v
      → Seen get h.probes v g u
      → verdict sha256 body etag read h g ≡ some o
      → Justified u o
  unfolding verdict
  verdict-Justified h g ps w v u o sh sg e = elim (Bool-cases g.is_committed) [
    | inl c ↦
        let (headers, r, t, m) = sg.committed_if c in
        subst (Justified u) (ground arith) (as_committed v headers r t m)
    | inr n ↦
        let (a, b) = absent_both n in
        let (hh, hb, rh) = sh.absent_if a in
        let (gh, gb, rg) = sg.absent_if b in
        subst (Justified u) (ground arith) (as_discarded w v hh gh hb gb rh rg)
  ]
    where
      absent_both : g.is_committed ≡ false → (h.absent ≡ true) × (g.absent ≡ true)
      absent_both n = ground arith

  -- how the search goes on after a round
  after : ℕ → Found → Option Reconciliation → Exec W ReconciliationResult
  after n g o = elim o [
    | none ↦ rounds sha256 body etag read n g.probes
    | some r ↦ pure (record { outcome = r; probes = g.probes })
  ]

  rounds-cases :
      (n : ℕ) (before : List ReconciliationProbe) (w : W)
      → RoundsCases n (length before) (rounds sha256 body etag read n before w)
  unfolding rounds RoundsCases ProbeCases after
  rounds-cases zero before w = inr (_, w, refl, as_unknown, omega arith)
  rounds-cases (suc n) before w = elim (probe-cases head before w) [
    | inl (x, v, e, r) ↦ inl (x, v, rw (rounds, e) refl, r)
    | inr (h, v, e, sh) ↦ elim (probe-cases get h.probes v) [
      | inl (x, u, e', r) ↦ inl (x, u, rw (rounds, e, e') refl, r)
      | inr (g, u, e', sg) ↦ elim (Option-cases (verdict sha256 body etag read h g)) [
        | inl again ↦
            let step : rounds sha256 body etag read (suc n) before w
                ≡ rounds sha256 body etag read n g.probes u =
              rw (rounds, e, e') (ap (λ o. after n g o u) again) in
            elim (rounds-cases n g.probes u) [
              | inl (x, t, f, r) ↦ inl (x, t, step ∙ f, r)
              | inr (r, t, f, j, b) ↦
                  inr (r, t, step ∙ f, j, omega (arith, b, sg.counted, sh.counted))
            ]
        | inr (o, decided) ↦ inr (
          record { outcome = o; probes = g.probes },
          u,
          rw (rounds, e, e') (ap (λ o. after n g o u) decided),
          verdict-Justified h g before w v u o sh sg decided,
          omega (arith, sg.counted, sh.counted),
        )
      ]
    ]
  ]

  -- A reconciliation ends within six probes. It raises only what a read raised and is no OSError;
  -- COMMITTED means that a GET gave exactly the body that was put, under a tag that is not empty and,
  -- where one is expected, equal to it; DISCARDED means that a HEAD and the GET after it found no
  -- object. The world is as the last of these reads left it.
  pub reconcile-Justified :
      (w : W)
      → ((x : Exc) × (v : W) × (reconcile_put_detailed sha256 body etag read w ≡ (raise x, v))
          × Raised x v)
        ⊎ ((r : ReconciliationResult) × (v : W) × (reconcile_put_detailed sha256 body etag read w
              ≡ (ok r, v))
            × Justified v r.outcome
            × (length r.probes ≤ 6))
  unfolding reconcile_put_detailed RoundsCases
  reconcile-Justified w = rounds-cases 3 [] w
