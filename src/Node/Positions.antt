-- ===== src/Node/Positions.antt =====
-- hat/node.py: the positions of the three databases (DBS, `txid`, `sync_position`), and what a node
-- says of itself (`public_status`).
use highly_available_trailba.Prelude.{
  ℕ, suc, ◌+◌, ◌^◌, ◌<◌, ◌≤◌, ◌≡◌, refl, ap, Bool, true, false, ◌&&◌, not, String, List, [], ◌∷◌,
  ◌++◌, Option, none, some, ◌==◌, nat_eq, string_eq, all, leb, Result, ok, raise, raise_if, Exc,
  value_error, if◌then◌else◌, arith, Bool-cases, inl, inr,
}
use highly_available_trailba.Fallible.{◌>>◌}
use highly_available_trailba.Py.Value.{
  Value, obj, str, int, Fields, has_keys, get, is_text, is_int_between, values,
}
use highly_available_trailba.Py.Text.{is_hex_of, hex_value, hex_value-lt}

-- DBS
abbrev pub dbs : List String
dbs = "main" ∷ "session" ∷ "aux" ∷ []

unfoldable pub txid : Value → Result ℕ
unfolding is_hex_of hex_value
txid (str s) =
    if is_hex_of 16 s then ok (hex_value s) else raise (value_error "invalid TXID sidecar")
txid v = raise (value_error "invalid TXID sidecar")

-- `type(v) is int and v >= 0`
unfoldable pub natural : Value → Option ℕ
natural (int n) = some n
natural v = none

abbrev pub unconfirmed : Exc
unconfirmed = value_error "unconfirmed replica position"

unfoldable pub same_position : Option ℕ → Option ℕ → Option ℕ → Result ℕ
same_position (some a) (some b) (some d) = if a == b then ok b else raise unconfirmed
same_position a b d = raise unconfirmed

unfoldable pub sync_position : Value → String → Result ℕ
unfolding natural same_position has_keys get is_text
sync_position v database = do
  raise_if (not (has_keys ("db_path" ∷ "txid" ∷ "replica_txid" ∷ "duration_ms" ∷ []) v)) unconfirmed
  raise_if (not (is_text database (get v "db_path"))) unconfirmed
  same_position (natural (get v "txid")) (natural (get v "replica_txid"))
      (natural (get v "duration_ms"))

-- `set(cut) == set(DBS) and all(type(v) is int and 0 < v < 2**64 for v in cut.values())`
unfoldable pub is_cut : Value → Bool
unfolding has_keys is_int_between values
is_cut (obj fs) = has_keys dbs (obj fs) && all (is_int_between 0 (2 ^ 64)) (values fs)
is_cut v = false

-- a node's state, as far as it judges its health; times are whole
pub record NodeState : Type 0 where
  pub sampled_at : ℕ
  pub positions : Fields
  pub refusals : List String

unfoldable pub positive_int : Value → Bool
positive_int (int (suc n)) = true
positive_int v = false

unfoldable pub is_fresh : NodeState → ℕ → Bool
is_fresh s now = leb s.sampled_at now && leb now (s.sampled_at + 30)

unfoldable pub has_positions : NodeState → Bool
unfolding has_keys values positive_int
has_positions s = has_keys dbs (obj s.positions) && all positive_int (values s.positions)

-- `if not b: reasons.append(reason)`
unfoldable pub unless : Bool → String → List String
unless true reason = []
unless false reason = reason ∷ []

-- the refusals that `public_status` shows; it shows the node healthy if there is none
unfoldable pub public_refusals : NodeState → ℕ → List String
unfolding is_fresh has_positions unless
public_refusals s now =
    s.refusals
    ++ (unless (is_fresh s now) "position sample stale or clock changed"
        ++ unless (has_positions s) "required database positions unconfirmed")

-- `not reasons`
unfoldable pub no_reasons : List String → Bool
no_reasons [] = true
no_reasons (r ∷ rs) = false

unfoldable pub is_healthy : NodeState → ℕ → Bool
unfolding public_refusals no_reasons
is_healthy s now = no_reasons (public_refusals s now)

-- A position that a sidecar gives is below 2 ^ 64.
pub txid-lt : (v : Value) {n : ℕ} → txid v ≡ ok n → n < 2 ^ 64
unfolding txid
txid-lt (str s) h = elim (Bool-cases (is_hex_of 16 s)) [
  | inl t ↦ ground (arith, hex_value-lt s t)
  | inr f ↦ ground arith
]
txid-lt v h = cc

is_healthy-refusals :
    (s : NodeState) (now : ℕ) → is_healthy s now ≡ true → public_refusals s now ≡ []
unfolding is_healthy
is_healthy-refusals s now h = ground arith

append-nil_inv : {A : Type 0} (xs ys : List A) → xs ++ ys ≡ [] → (xs ≡ []) × (ys ≡ [])
append-nil_inv [] ys h = (refl, h)
append-nil_inv (x ∷ xs) ys h = cc

all_clear :
    (rs : List String) (a b : Bool) (x y : String)
    → rs ≡ []
    → a ≡ true
    → b ≡ true
    → rs ++ (unless a x ++ unless b y) ≡ []
unfolding unless
all_clear [] true true x y r e f = refl
all_clear [] true false x y r e f = cc
all_clear [] false b x y r e f = cc
all_clear (q ∷ rs) a b x y r e f = cc

unless-nil : (b : Bool) (r : String) → unless b r ≡ [] → b ≡ true
unfolding unless
unless-nil true r h = refl
unless-nil false r h = cc

-- A node shows itself healthy only if its own state has no refusal, its sample is at most 30 seconds
-- old and not of the future, and it has a positive position for exactly the three databases; and
-- then it does.
pub is_healthy_iff :
    (s : NodeState) (now : ℕ)
    → (is_healthy s now ≡ true
        → (s.refusals ≡ [])
          × (s.sampled_at ≤ now)
          × (now ≤ s.sampled_at + 30)
          × (has_positions s ≡ true))
      × ((s.refusals ≡ [])
          → s.sampled_at ≤ now
          → now ≤ s.sampled_at + 30
          → has_positions s ≡ true
          → is_healthy s now ≡ true)
unfolding is_healthy public_refusals is_fresh
is_healthy_iff s now = (forth, back)
  where
    fresh_bounds : is_fresh s now ≡ true → (s.sampled_at ≤ now) × (now ≤ s.sampled_at + 30)
    fresh_bounds h = ground arith

    forth :
        is_healthy s now ≡ true
        → (s.refusals ≡ [])
          × (s.sampled_at ≤ now)
          × (now ≤ s.sampled_at + 30)
          × (has_positions s ≡ true)
    forth h =
        let (r, more) =
          append-nil_inv s.refusals
            (unless (is_fresh s now) "position sample stale or clock changed"
              ++ unless (has_positions s) "required database positions unconfirmed")
            (is_healthy-refusals s now h) in
        let (a, b) =
          append-nil_inv (unless (is_fresh s now) "position sample stale or clock changed") _
            more in
        let (l, u) = fresh_bounds (unless-nil (is_fresh s now) _ a) in
        (r, l, u, unless-nil (has_positions s) _ b)

    back :
        (s.refusals ≡ [])
        → s.sampled_at ≤ now
        → now ≤ s.sampled_at + 30
        → has_positions s ≡ true
        → is_healthy s now ≡ true
    back r a b p =
        ap no_reasons
          (all_clear s.refusals (is_fresh s now) (has_positions s) _ _ r (ground (arith, a, b)) p)
