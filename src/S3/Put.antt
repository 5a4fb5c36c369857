-- ===== src/S3/Put.antt =====
-- experiments/m1/s3.py: `put`, `put_discarded` and `delete` of class S3Client. `request` is the network.
use highly_available_trailba.Prelude.{
  ℕ, Bool, true, false, String, List, [], ◌∷◌, Option, none, some, ◌==◌, string_eq, Result, ok,
  raise, value_error, if◌then◌else◌,
}
use highly_available_trailba.S3.Text.{quote_etag}

abbrev pub Headers : Type 0
Headers = List (String × String)

-- status, headers and body
abbrev pub Response : Type 0
Response = ℕ × Headers × List ℕ

-- `d[k] = v` on a dict
unfoldable pub assign : String × String → Headers → Headers
assign h [] = h ∷ []
assign h (g ∷ gs) = let rest = assign h gs in if g.0 == h.0 then (g.0, h.1) ∷ gs else g ∷ rest

-- `d.update(e)`
unfoldable pub assign_all : Headers → Headers → Headers
unfolding assign
assign_all d [] = d
assign_all d (h ∷ hs) = assign_all (assign h d) hs

unfoldable pub conditional : Option String → Bool → Result Headers
conditional (some e) true = raise (value_error "conflicting conditions")
conditional (some e) false = ok (("If-Match", quote_etag e) ∷ [])
conditional none true = ok (("If-None-Match", "*") ∷ [])
conditional none false = ok []

module _ {W : Type 0} (request : String → String → List ℕ → Headers → W → Result Response × W) where
  unfoldable pub put : String → List ℕ → Option String → Bool → Headers → W → Result Response × W
  unfolding conditional assign_all
  put key body etag if_none_match headers w = elim (conditional etag if_none_match) [
    | raise e ↦ (raise e, w)
    | ok c ↦ request "PUT" key body (assign_all c headers) w
  ]

  unfoldable pub delete : String → Option String → W → Result Response × W
  delete key none w = request "DELETE" key [] [] w
  delete key (some e) w = request "DELETE" key [] (("If-Match", quote_etag e) ∷ []) w
