-- ===== src/Py/Paths.antt =====
-- POSIX paths as the program tests them: `os.path.normpath`, and the parts of a pathlib path. A path is
-- given by the code points of its text.
use highly_available_trailba.Prelude.{
  ℕ, Bool, true, false, ◌&&◌, ◌||◌, not, List, [], ◌∷◌, ◌++◌, Option, none, some, ◌==◌, nat_eq,
  list_eq, list_beq, if◌then◌else◌,
}

abbrev slash : ℕ
slash = b'/'

-- `path.split('/')`, with the text before the first slash at the head
unfoldable pub split_slash : List ℕ → List ℕ → List (List ℕ)
split_slash part [] = part ∷ []
split_slash part (c ∷ cs) = elim (c == slash) [
  | true ↦ part ∷ split_slash [] cs
  | false ↦ split_slash (part ++ c ∷ []) cs
]

abbrev is_skipped : List ℕ → Bool
is_skipped part = part == [] || part == b'.' ∷ []

abbrev is_up : List ℕ → Bool
is_up part = part == b'.' ∷ b'.' ∷ []

-- the loop of `normpath` on an absolute path; `done` is the stack, its top first
unfoldable pub normal_parts : List (List ℕ) → List (List ℕ) → List (List ℕ)
unfolding list_beq
normal_parts done [] = done
normal_parts done (p ∷ ps) =
    normal_parts
      (if is_skipped p
        then done
        else if is_up p
        then elim done [ [] ↦ [] | top ∷ rest ↦ rest ]
        else p ∷ done)
      ps

-- `'/'.join(reversed(parts))`, each after a slash; of no parts, the text of the root's slash
unfoldable pub joined : List (List ℕ) → List ℕ → List ℕ
joined [] rest = rest
joined (p ∷ ps) rest = joined ps (slash ∷ p ++ rest)

unfoldable pub rooted : List (List ℕ) → List ℕ
unfolding joined
rooted [] = slash ∷ []
rooted (p ∷ ps) = joined (p ∷ ps) []

-- what `normpath` gives for an absolute path: two leading slashes are kept, three or more are one
unfoldable pub normpath : List ℕ → List ℕ
unfolding rooted normal_parts split_slash
normpath (a ∷ b ∷ c ∷ cs) =
    if b == slash && not (c == slash)
    then slash ∷ rooted (normal_parts [] (split_slash [] (c ∷ cs)))
    else rooted (normal_parts [] (split_slash [] (b ∷ c ∷ cs)))
normpath (a ∷ b ∷ []) =
    if b == slash then slash ∷ slash ∷ [] else rooted (normal_parts [] (split_slash [] (b ∷ [])))
normpath cs = rooted []

-- `Path(path).is_absolute() and os.path.normpath(path) == path`
unfoldable pub is_normal_absolute : List ℕ → Bool
unfolding normpath list_beq
is_normal_absolute [] = false
is_normal_absolute (c ∷ cs) = c == slash && normpath (c ∷ cs) == c ∷ cs

-- the parts under the root of a normal absolute path; `none` where the root is `//`
unfoldable pub parts : List ℕ → Option (List (List ℕ))
unfolding split_slash
parts (a ∷ []) = some []
parts (a ∷ b ∷ cs) = if b == slash then none else some (split_slash [] (b ∷ cs))
parts [] = none

-- `Path(path).relative_to(root).parts`, of parts
unfoldable pub relative_to : List (List ℕ) → List (List ℕ) → Option (List (List ℕ))
unfolding list_beq
relative_to [] ps = some ps
relative_to (r ∷ rs) [] = none
relative_to (r ∷ rs) (p ∷ ps) = let rest = relative_to rs ps in if r == p then rest else none

-- `str(Path)` of parts under the root
unfoldable pub path_text : List (List ℕ) → List ℕ
path_text [] = []
path_text (p ∷ ps) = slash ∷ p ++ path_text ps
