-- ===== src/Node/Logs/Levels.antt =====
-- That no record above the level of an information is accepted, one known warning apart.
use highly_available_trailba.Prelude.{
  ◌≡◌, refl, ◌∙◌, ap, subst, ◌⊎◌, inl, inr, Bool, true, false, ◌||◌, not, String, List, [], ◌∷◌,
  Option, none, some, ◌==◌, nat_eq, string_eq, eq_iff, all, contains, Bool-cases, &&-eq-true,
  ||-eq-false, not-eq-false, arith,
}
use highly_available_trailba.Py.Value.{Value, int, str, obj, Fields, end, field, keys}
use highly_available_trailba.Node.Logs.{
  log_fields, values_of, last_of, last_value, has_duplicates, as_text, equals_text, text_at,
  is_text_at, startup_levels, compaction_levels, accepted_repeat, level_of, good_level, good_known,
  good_record, good_pairs, log_bad,
}

-- a level that says nothing is wrong, or the one known warning's
unfoldable pub quiet_level : String → Value → Bool
unfolding level_of
quiet_level message (str s) = s == "INFO" || s == "" || s == level_of message
quiet_level message (int n) = n == 1 || n == 2 || n == 3 || n == 9
quiet_level message v = false

values_of-absent :
    (name : String) (fs : Fields) → contains (keys fs) name ≡ false → values_of name fs ≡ []
unfolding values_of keys contains
values_of-absent name end h = refl
values_of-absent name (field k v fs) h = ground (arith, values_of-absent name fs)

values_of-single :
    (name : String) (fs : Fields)
    → has_duplicates (keys fs) ≡ false
    → (values_of name fs ≡ []) ⊎ ((v : Value) × (values_of name fs ≡ v ∷ []))
unfolding values_of keys has_duplicates
values_of-single name end h = inl refl
values_of-single name (field k v fs) h =
    let (fresh, rest) = ||-eq-false (contains (keys fs) k) (has_duplicates (keys fs)) h in
    elim (Bool-cases (k == name)) [
      | inl same ↦
          let e =
            values_of-absent name fs
              (subst (λ x. contains (keys fs) x ≡ false) ((eq_iff k name).0 same) fresh) in
          inr (v, rw (same, e) refl)
      | inr other ↦ rw (other) (values_of-single name fs rest)
    ]

startup-quiet :
    (message : String) (vs : List Value)
    → startup_levels vs ≡ true
    → all (quiet_level message) vs ≡ true
unfolding startup_levels quiet_level
startup-quiet message (str a ∷ str b ∷ []) h = ground arith
startup-quiet message vs h = cc

compaction-quiet :
    (message : String) (vs : List Value)
    → compaction_levels vs ≡ true
    → all (quiet_level message) vs ≡ true
unfolding compaction_levels quiet_level
compaction-quiet message (str a ∷ int n ∷ []) h = ground arith
compaction-quiet message vs h = cc

single_text :
    (s : String) (v : Value) → equals_text s (as_text (last_of (v ∷ []))) ≡ true → v ≡ str s
unfolding equals_text as_text last_of
single_text s (str t) h = ap str ((eq_iff t s).0 h)
single_text s v h = cc

single_level :
    (s : String) (fs : Fields)
    → has_duplicates (keys fs) ≡ false
    → is_text_at "level" s fs ≡ true
    → values_of "level" fs ≡ str s ∷ []
unfolding is_text_at text_at last_value
single_level s fs d h = elim (values_of-single "level" fs d) [
  | inl e ↦
      let k : equals_text s (as_text (last_of [])) ≡ true =
        subst (λ vs. equals_text s (as_text (last_of vs)) ≡ true) e h in
      ground (arith, k)
  | inr (v, e) ↦
      e
      ∙ ap (λ w. w ∷ [])
          (single_text s v (subst (λ vs. equals_text s (as_text (last_of vs)) ≡ true) e h))
]

repeat-quiet :
    (message : String) (fs : Fields)
    → accepted_repeat fs ≡ true
    → all (quiet_level message) (values_of "level" fs) ≡ true
unfolding accepted_repeat
repeat-quiet message fs h = elim (Bool-cases (startup_levels (values_of "level" fs))) [
  | inl a ↦ startup-quiet message (values_of "level" fs) a
  | inr b ↦ compaction-quiet message (values_of "level" fs) (ground arith)
]

good_known_lem :
    (message : String) (fs : Fields) (o : Option (List String))
    → good_known message fs o ≡ true
    → (fields : List String) × (o ≡ some fields) × (good_level message fs ≡ true)
unfolding good_known
good_known_lem message fs none h = cc
good_known_lem message fs (some fields) h =
    (fields, refl, (&&-eq-true (good_level message fs) _ h).0)

good_record_lem :
    (fs : Fields) (o : Option String)
    → good_record fs o ≡ true
    → (message : String) × (fields : List String) × (o ≡ some message)
      × (log_fields message ≡ some fields)
      × (good_level message fs ≡ true)
unfolding good_record
good_record_lem fs none h = cc
good_record_lem fs (some message) h =
    let (fields, e, g) = good_known_lem message fs (log_fields message) h in
    (message, fields, refl, e, g)

known_level-quiet : (message : String) → quiet_level message (str (level_of message)) ≡ true
unfolding quiet_level
known_level-quiet message = ground (arith, eq_iff (level_of message) (level_of message))

good_level_lem :
    (message : String) (fs : Fields)
    → has_duplicates (keys fs) ≡ false
    → good_level message fs ≡ true
    → is_text_at "level" (level_of message) fs ≡ true
unfolding good_level
good_level_lem message fs d g = ground (arith, d, g)

levels-quiet :
    (message : String) (fs : Fields)
    → (not (has_duplicates (keys fs)) || accepted_repeat fs) ≡ true
    → good_level message fs ≡ true
    → all (quiet_level message) (values_of "level" fs) ≡ true
levels-quiet message fs a g = elim (Bool-cases (has_duplicates (keys fs))) [
  | inl d ↦ repeat-quiet message fs (ground (arith, a, d))
  | inr d ↦
      let e = single_level (level_of message) fs d (good_level_lem message fs d g) in
      rw (e) (ground (arith, known_level-quiet message))
]

-- A line that `log_bad` accepts is an object with a message that LOG_FIELDS names, and whatever
-- levels its pairs give, repeated ones included, none is worse than INFO but the one warning that
-- is known.
pub log_bad-quiet :
    (line : Option Value)
    → log_bad line ≡ false
    → (fs : Fields) × (message : String) × (fields : List String) × (line ≡ some (obj fs))
      × (text_at "msg" fs ≡ some message)
      × (log_fields message ≡ some fields)
      × (all (quiet_level message) (values_of "level" fs) ≡ true)
unfolding log_bad good_pairs
log_bad-quiet (some (obj fs)) h =
    let (a, b) =
      &&-eq-true (not (has_duplicates (keys fs)) || accepted_repeat fs) _ (not-eq-false _ h) in
    let (message, fields, m, f, g) = good_record_lem fs (text_at "msg" fs) b in
    (fs, message, fields, refl, m, f, levels-quiet message fs a g)
log_bad-quiet line h = cc
