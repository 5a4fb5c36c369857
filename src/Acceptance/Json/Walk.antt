-- ===== src/Acceptance/Json/Walk.antt =====
-- That the loop over the stack does what a recursive definition of the bounds says, and that a value is
-- parsed from one text only.
use highly_available_trailba.Prelude.{
  ℕ, zero, suc, ◌+◌, ◌≤◌, ◌≡◌, ◌≢◌, ◌<◌, refl, sym, ◌∙◌, ap, ap₂, subst, Bool, true, false, ◌&&◌,
  ◌||◌, not, List, [], ◌∷◌, Option, none, some, ◌==◌, nat_eq, list_eq, list_beq_iff, length, leb,
  ltb, Result, ok, raise, raise_if, Exc, arith, bind-eq-ok, ok-injective, or_raise, Bool-cases, inl,
  inr, &&-eq-true, after_not, ◌↔◌,
}
use highly_available_trailba.Fallible.{◌>>=◌, ◌>>◌}
use highly_available_trailba.Py.Value.{
  Value, null, nan, bool, int, neg, float, str, bytes, obj, arr, Items, nil, cons, Fields, end,
  field, items, values,
}
use highly_available_trailba.Acceptance.Json.{
  max_input, max_depth, max_containers, is_unique, children, push, walk, nodes, nodes_items,
  nodes_fields, malformed, is_walked, load, parse_canonical_json,
}

-- every container in a value that stands at this depth is at depth 512 or less
unfoldable mutual
  pub is_shallow : ℕ → Value → Bool
  is_shallow d (obj fs) = leb d max_depth && is_shallow_fields (suc d) fs
  is_shallow d (arr vs) = leb d max_depth && is_shallow_items (suc d) vs
  is_shallow d v = true

  pub is_shallow_items : ℕ → Items → Bool
  is_shallow_items d nil = true
  is_shallow_items d (cons v vs) = is_shallow d v && is_shallow_items d vs

  pub is_shallow_fields : ℕ → Fields → Bool
  is_shallow_fields d end = true
  is_shallow_fields d (field k v fs) = is_shallow d v && is_shallow_fields d fs

-- how many containers a value holds, itself included
unfoldable mutual
  pub containers : Value → ℕ
  containers (obj fs) = suc (containers_fields fs)
  containers (arr vs) = suc (containers_items vs)
  containers v = 0

  pub containers_items : Items → ℕ
  containers_items nil = 0
  containers_items (cons v vs) = containers v + containers_items vs

  pub containers_fields : Fields → ℕ
  containers_fields end = 0
  containers_fields (field k v fs) = containers v + containers_fields fs

-- the same of a stack
abbrev all_shallow : List (Value × ℕ) → Bool
all_shallow [] = true
all_shallow ((v, d) ∷ stack) = is_shallow d v && all_shallow stack

abbrev all_containers : List (Value × ℕ) → ℕ
all_containers [] = 0
all_containers ((v, d) ∷ stack) = containers v + all_containers stack

abbrev all_nodes : List (Value × ℕ) → ℕ
all_nodes [] = 0
all_nodes ((v, d) ∷ stack) = nodes v + all_nodes stack

-- the bounds of a value's children, and of the rest of the stack
record Pushed (shallow : Bool) (boxes weight depth : ℕ) (vs : List Value) : Type 0 where
  pub shallow_push :
      (stack : List (Value × ℕ))
      → all_shallow (push depth vs stack) ≡ (shallow && all_shallow stack)
  pub containers_push :
      (stack : List (Value × ℕ))
      → all_containers (push depth vs stack) ≡ boxes + all_containers stack
  pub nodes_push :
      (stack : List (Value × ℕ)) → all_nodes (push depth vs stack) ≡ weight + all_nodes stack

nothing-Pushed : (depth : ℕ) → Pushed true 0 0 depth []
unfolding push
nothing-Pushed depth = record {
  shallow_push = λ stack. refl;
  containers_push = λ stack. omega arith;
  nodes_push = λ stack. omega arith;
}

one-Pushed :
    {shallow : Bool} {boxes weight depth : ℕ} (v : Value) (vs : List Value)
    → Pushed shallow boxes weight depth vs
    → Pushed
        (is_shallow (suc depth) v && shallow)
        (containers v + boxes)
        (nodes v + weight)
        depth
        (v ∷ vs)
unfolding push
one-Pushed {shallow} {depth = depth} v vs p = record {
  shallow_push = λ stack.
      p.shallow_push ((v, suc depth) ∷ stack)
      ∙ swapped shallow (is_shallow (suc depth) v) (all_shallow stack);
  containers_push = λ stack. omega (arith, p.containers_push ((v, suc depth) ∷ stack));
  nodes_push = λ stack. omega (arith, p.nodes_push ((v, suc depth) ∷ stack));
}
  where
    swapped : (a b c : Bool) → (a && (b && c)) ≡ ((b && a) && c)
    swapped a b c = ground arith

items-Pushed :
    (depth : ℕ) (vs : Items)
    → Pushed
        (is_shallow_items (suc depth) vs)
        (containers_items vs)
        (nodes_items vs)
        depth
        (items vs)
unfolding items is_shallow_items containers_items nodes_items
items-Pushed depth nil = nothing-Pushed depth
items-Pushed depth (cons v vs) = one-Pushed v (items vs) (items-Pushed depth vs)

fields-Pushed :
    (depth : ℕ) (fs : Fields)
    → Pushed
        (is_shallow_fields (suc depth) fs)
        (containers_fields fs)
        (nodes_fields fs)
        depth
        (values fs)
unfolding values is_shallow_fields containers_fields nodes_fields
fields-Pushed depth end = nothing-Pushed depth
fields-Pushed depth (field k v fs) = one-Pushed v (values fs) (fields-Pushed depth fs)

-- what the loop gives for a stack, with this many containers before
abbrev bounds : List (Value × ℕ) → ℕ → Bool
bounds stack seen = all_shallow stack && leb (seen + all_containers stack) max_containers

too_much :
    (d seen boxes rest : ℕ) (shallow others : Bool)
    → (ltb max_depth d || ltb max_containers (suc seen)) ≡ true
    → (((leb d max_depth && shallow) && others) && leb (seen + (suc boxes + rest)) max_containers)
      ≡ false
too_much d seen boxes rest shallow others h = ground arith

within_bounds :
    (d seen boxes rest : ℕ) (shallow others : Bool)
    → (ltb max_depth d || ltb max_containers (suc seen)) ≡ false
    → (suc seen ≤ max_containers)
      × (((shallow && others) && leb (suc seen + (boxes + rest)) max_containers) ≡ (
          ((leb d max_depth && shallow) && others)
          && leb (seen + (suc boxes + rest)) max_containers))
within_bounds d seen boxes rest shallow others h = (ground arith, ground arith)

module _ (fuel : ℕ)
    (loop : (stack : List (Value × ℕ)) (seen : ℕ)
      → all_nodes stack ≤ fuel
      → seen ≤ max_containers
      → walk fuel stack seen ≡ some (bounds stack seen)) where
  container :
      (d seen : ℕ) (vs : List Value) (stack : List (Value × ℕ)) {shallow : Bool} {boxes weight : ℕ}
      → Pushed shallow boxes weight d vs
      → suc weight + all_nodes stack ≤ suc fuel
      → elim (ltb max_depth d || ltb max_containers (suc seen)) as (λ b. Option Bool) [
        | true ↦ some false
        | false ↦ walk fuel (push d vs stack) (suc seen)
      ]
        ≡ some (
            ((leb d max_depth && shallow) && all_shallow stack)
            && leb (seen + (suc boxes + all_containers stack)) max_containers)
  container d seen vs stack {shallow} {boxes} {weight} p n =
      elim (Bool-cases (ltb max_depth d || ltb max_containers (suc seen))) [
        | inl t ↦
            rw (t, too_much d seen boxes (all_containers stack) shallow (all_shallow stack) t) refl
        | inr f ↦
            let (le, same) =
              within_bounds d seen boxes (all_containers stack) shallow (all_shallow stack) f in
            rw (f) (
              loop (push d vs stack) (suc seen) (omega (arith, p.nodes_push stack)) le
              ∙ ap₂ (λ (s : Bool) (c : ℕ). some (s && leb (suc seen + c) max_containers))
                  (p.shallow_push stack) (p.containers_push stack)
              ∙ ap some same)
      ]

nodes_pos : (v : Value) → 1 ≤ nodes v
unfolding nodes
nodes_pos (obj fs) = omega arith
nodes_pos (arr vs) = omega arith
nodes_pos v = omega arith

scalar :
    (fuel seen : ℕ) (stack : List (Value × ℕ))
    → walk fuel stack seen ≡ some (bounds stack seen)
    → walk fuel stack seen
      ≡ some ((true && all_shallow stack) && leb (seen + (0 + all_containers stack)) max_containers)
scalar fuel seen stack h =
    h ∙ ap (λ n. some (all_shallow stack && leb (seen + n) max_containers)) (omega arith)

-- With fuel for every value on the stack the loop ends, and raises nothing exactly when each container is
-- at depth 512 or less and there are at most 100000.
walk_lem :
    (fuel : ℕ) (stack : List (Value × ℕ)) (seen : ℕ)
    → all_nodes stack ≤ fuel
    → seen ≤ max_containers
    → walk fuel stack seen ≡ some (bounds stack seen)
unfolding walk children nodes is_shallow containers
walk_lem zero [] seen n s = ground arith
walk_lem (suc fuel) [] seen n s = ground arith
walk_lem zero ((v, d) ∷ stack) seen n s = absurd (omega (arith, nodes_pos v))
walk_lem (suc fuel) ((obj fs, d) ∷ stack) seen n s =
    container fuel (walk_lem fuel) d seen (values fs) stack (fields-Pushed d fs) n
walk_lem (suc fuel) ((arr vs, d) ∷ stack) seen n s =
    container fuel (walk_lem fuel) d seen (items vs) stack (items-Pushed d vs) n
walk_lem (suc fuel) ((null, d) ∷ stack) seen n s =
    scalar fuel seen stack (walk_lem fuel stack seen (omega arith) s)
walk_lem (suc fuel) ((nan, d) ∷ stack) seen n s =
    scalar fuel seen stack (walk_lem fuel stack seen (omega arith) s)
walk_lem (suc fuel) ((bool b, d) ∷ stack) seen n s =
    scalar fuel seen stack (walk_lem fuel stack seen (omega arith) s)
walk_lem (suc fuel) ((int k, d) ∷ stack) seen n s =
    scalar fuel seen stack (walk_lem fuel stack seen (omega arith) s)
walk_lem (suc fuel) ((neg k, d) ∷ stack) seen n s =
    scalar fuel seen stack (walk_lem fuel stack seen (omega arith) s)
walk_lem (suc fuel) ((float x, d) ∷ stack) seen n s =
    scalar fuel seen stack (walk_lem fuel stack seen (omega arith) s)
walk_lem (suc fuel) ((str x, d) ∷ stack) seen n s =
    scalar fuel seen stack (walk_lem fuel stack seen (omega arith) s)
walk_lem (suc fuel) ((bytes x, d) ∷ stack) seen n s =
    scalar fuel seen stack (walk_lem fuel stack seen (omega arith) s)

-- The loop that bounds a parsed value ends within as many rounds as the value has parts, and passes the
-- value exactly when every dict and list in it is at depth 512 or less and there are at most 100000 of
-- them.
pub is_walked-bounds :
    (v : Value)
    → (walk (nodes v) ((v, 0) ∷ []) 0 ≢ none)
      × (is_walked v ≡ (is_shallow 0 v && leb (containers v) max_containers))
unfolding is_walked
is_walked-bounds v =
    let h = walk_lem (nodes v) ((v, 0) ∷ []) 0 (omega arith) (omega arith) in
    (λ e. let x = sym h ∙ e in cc, rw (h, is_walked) (tidy (is_shallow 0 v) (containers v)))
  where
    tidy :
        (b : Bool) (n : ℕ)
        → ((b && true) && leb (0 + (n + 0)) max_containers) ≡ (b && leb n max_containers)
    tidy b n = ground arith

or_raise-eq-ok : {A : Type 0} (r : Result A) (e : Exc) {a : A} → or_raise r e ≡ ok a → r ≡ ok a
or_raise-eq-ok (ok x) e h = h
or_raise-eq-ok (raise y) e h = cc

-- What a text that is accepted is: the canonical form of its value, which keeps the bounds.
pub record IsCanonical (canonical : Value → Result (List ℕ)) (raw : List ℕ) (v : Value)
    : Type 0 where
  pub printed : canonical v ≡ ok raw
  pub nonempty : 0 < length raw
  pub short : length raw ≤ max_input
  pub unique : is_unique v ≡ true
  pub shallow : is_shallow 0 v ≡ true
  pub few : containers v ≤ max_containers

module _ (tree : List ℕ → Result Value) (canonical : Value → Result (List ℕ)) where
  load_lem :
      (raw : List ℕ) {v : Value}
      → load tree canonical raw ≡ ok v
      → (tree raw ≡ ok v) × (is_unique v ≡ true) × (is_walked v ≡ true)
  unfolding load
  load_lem raw {v} h =
      let walked = λ (w : Value). raise_if (not (is_walked w)) malformed >> ok w in
      let (w, a, h1) =
        bind-eq-ok (or_raise (tree raw) malformed)
          (λ w. raise_if (not (is_unique w)) malformed >> walked w) h in
      let (b, h2) = after_not (is_unique w) _ _ h1 in
      let (c, h3) = after_not (is_walked w) _ _ h2 in
      let same : w ≡ v = ok-injective h3 in
      (
        or_raise-eq-ok (tree raw) malformed a ∙ h3,
        subst (λ x. is_unique x ≡ true) same b,
        subst (λ x. is_walked x ≡ true) same c,
      )

  load_total :
      (raw : List ℕ) (v : Value)
      → tree raw ≡ ok v
      → is_unique v ≡ true
      → is_walked v ≡ true
      → load tree canonical raw ≡ ok v
  unfolding load
  load_total raw v a b c = rw (a, b, c) refl

  accepted-IsCanonical :
      (raw : List ℕ) {v : Value}
      → parse_canonical_json tree canonical raw ≡ ok v
      → (tree raw ≡ ok v) × IsCanonical canonical raw v
  unfolding parse_canonical_json
  accepted-IsCanonical raw {v} h =
      let printing = λ (w : Value). or_raise (canonical w) malformed >>= λ printed.
      raise_if (not (printed == raw)) malformed >> ok w in
      let (s, h1) = after_not (ltb 0 (length raw) && leb (length raw) max_input) _ _ h in
      let (w, a, h2) = bind-eq-ok (load tree canonical raw) printing h1 in
      let (printed, b, h3) =
        bind-eq-ok (or_raise (canonical w) malformed)
          (λ printed. raise_if (not (printed == raw)) malformed >> ok w) h2 in
      let (c, h4) = after_not (printed == raw) _ _ h3 in
      let same : w ≡ v = ok-injective h4 in
      let (parsed, unique, walked) = load_lem raw (a ∙ ap ok same) in
      let (shallow, few) =
        &&-eq-true (is_shallow 0 v) (leb (containers v) max_containers)
          (sym (is_walked-bounds v).1 ∙ walked) in
      (
        parsed,
        record {
          printed =
              subst (λ x. canonical x ≡ ok raw) same
                (or_raise-eq-ok (canonical w) malformed b ∙ ap ok ((list_beq_iff printed raw).0 c));
          nonempty = ground arith;
          short = ground arith;
          unique = unique;
          shallow = shallow;
          few = ground arith;
        },
      )

  canonical-accepted :
      (raw : List ℕ) (v : Value)
      → tree raw ≡ ok v
      → IsCanonical canonical raw v
      → parse_canonical_json tree canonical raw ≡ ok v
  unfolding parse_canonical_json
  canonical-accepted raw v a c =
      let size : (ltb 0 (length raw) && leb (length raw) max_input) ≡ true =
        sized c.nonempty c.short in
      let walked = (is_walked-bounds v).1 ∙ bounded c.shallow c.few in
      rw (size, load_total raw v a c.unique walked, c.printed, (list_beq_iff raw raw).1 refl) refl
    where
      sized :
          0 < length raw
          → length raw ≤ max_input
          → (ltb 0 (length raw) && leb (length raw) max_input) ≡ true
      sized p q = ground arith

      bounded :
          is_shallow 0 v ≡ true
          → containers v ≤ max_containers
          → (is_shallow 0 v && leb (containers v) max_containers) ≡ true
      bounded p q = ground arith

-- A text is parsed as canonical JSON exactly when it is not empty and at most 1 << 20 bytes, and the value
-- that it is the tree of is printed as this very text, repeats no key in any object, and has at most
-- 100000 dicts and lists, none deeper than 512.
pub parse_canonical_json_iff :
    (tree : List ℕ → Result Value) (canonical : Value → Result (List ℕ)) (raw : List ℕ) (v : Value)
    → (parse_canonical_json tree canonical raw ≡ ok v)
      ↔ ((tree raw ≡ ok v) × IsCanonical canonical raw v)
parse_canonical_json_iff tree canonical raw v =
    (accepted-IsCanonical tree canonical raw, λ h. canonical-accepted tree canonical raw v h.0 h.1)
