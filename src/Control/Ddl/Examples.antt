-- ===== src/Control/Ddl/Examples.antt =====
-- Statements in their canonical form.
use highly_available_trailba.Prelude.{◌≡◌, refl, ◌∷◌, ◌++◌, some, ok, raise, arith}
use highly_available_trailba.Py.Text.{codes}
use highly_available_trailba.Control.Ddl.{canonical_ddl, turns, malformed_ddl}
use highly_available_trailba.Control.Ddl.Total.{canonical_ddl_ends}

-- blanks, a comment and quoted names go, and the case of what is not a literal
plain :
    canonical_ddl (codes "CREATE /*x*/ TABLE [Steps] (A='It''s')")
    ≡ ok (codes "createtablesteps(a='It''s')")
unfolding canonical_ddl
plain = refl

-- A line comment is over at a backslash and the letter n, not at the end of its line: what the next line says is lost.
comment_goes_on : canonical_ddl (codes "a--b" ++ 10 ∷ codes "c") ≡ ok (codes "a")
unfolding canonical_ddl
comment_goes_on = refl

comment_ends : canonical_ddl (codes "a--b\\nc") ≡ ok (codes "anc")
unfolding canonical_ddl
comment_ends = refl

unclosed : canonical_ddl (codes "a='b") ≡ raise malformed_ddl
unfolding canonical_ddl
unclosed = refl

canonical_ddl_ends_example : turns 9 (codes "a--b\\nc") ≡ some (canonical_ddl (codes "a--b\\nc"))
canonical_ddl_ends_example = canonical_ddl_ends 9 (codes "a--b\\nc") (omega arith)
