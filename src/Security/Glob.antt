-- ===== src/Security/Glob.antt =====
-- Glob patterns with `**`: `globstarMatch` and `globstarMatchSegments` of
-- pkg/security/securebus/policy.go. The standard library's filepath functions are parameters.
use Prim.Native.String.{String}
use text.Mathlib.Text.{◌==◌ as str_eq}
use text.Mathlib.TextEquality.{eq_iff}
use dragonscale.Prelude.{
  ◌≡◌, refl, Bool, true, false, ◌||◌, ◌&&◌, List, [], ◌∷◌, ◌++◌, arith, if◌then◌else◌, Bool-cases,
  inl, inr, ◌↔◌, ◌≢◌,
}
use dragonscale.Prelude.Text.{contains}

-- What the globs use of path/filepath: `Match` (false on a bad pattern too), and the segments of a
-- cleaned path.
pub record FilePathFns : Type 0 where
  pub match : String → String → Bool
  pub clean_split : String → List String

-- The loop over what a `**` may skip: is `f` true of a list that some segments stand before?
unfoldable pub any_tail : (List String → Bool) → List String → Bool
any_tail f [] = false
any_tail f (s ∷ ss) = f ss || any_tail f ss

module _ (fp : FilePathFns) where
  unfoldable pub globstar_match_segments : List String → List String → Bool
  globstar_match_segments [] [] = true
  globstar_match_segments [] (s ∷ ss) = false
  globstar_match_segments (p ∷ ps) ss =
      if str_eq p "**"
      then globstar_match_segments ps ss || any_tail (globstar_match_segments ps) ss
      else elim ss [ [] ↦ false | s ∷ rest ↦ fp.match p s && globstar_match_segments ps rest ]

  unfoldable pub globstar_match : String → String → Bool
  globstar_match pattern name =
      if fp.match pattern name
      then true
      else if contains pattern "**"
      then globstar_match_segments (fp.clean_split pattern) (fp.clean_split name)
      else false

  -- The meaning of a pattern: `**` stands for any segments, none too, and any other segment of the
  -- pattern for one segment that it matches.
  pub data Matches : List String → List String → Type 0 where
    nil : Matches [] []
    skip :
        {p : String} {ps ss : List String} (skipped rest : List String)
        → p ≡ "**"
        → ss ≡ skipped ++ rest
        → Matches ps rest
        → Matches (p ∷ ps) ss
    one :
        {p : String} {ps : List String} {s : String} {ss : List String}
        → p ≢ "**"
        → fp.match p s ≡ true
        → Matches ps ss
        → Matches (p ∷ ps) (s ∷ ss)

  any_tail_sound :
      (f : List String → Bool) (ss : List String)
      → any_tail f ss ≡ true
      → (skipped rest : List String) × (ss ≡ skipped ++ rest) × (f rest ≡ true)
  unfolding any_tail
  any_tail_sound f [] h = cc
  any_tail_sound f (s ∷ ss) h = elim (Bool-cases (f ss)) [
    | inl e ↦ (s ∷ [], ss, refl, e)
    | inr e ↦
        let (skipped, rest, split, ok) = any_tail_sound f ss (ground arith) in
        (s ∷ skipped, rest, cc, ok)
  ]

  any_tail_complete :
      (f : List String → Bool) (s : String) (skipped rest : List String)
      → f rest ≡ true
      → any_tail f (s ∷ (skipped ++ rest)) ≡ true
  unfolding any_tail
  any_tail_complete f s [] rest h = rw h
  any_tail_complete f s (t ∷ skipped) rest h = ground (arith, any_tail_complete f t skipped rest h)

  any_tail-any :
      (f : List String → Bool) (skipped rest : List String)
      → f rest ≡ true
      → (f (skipped ++ rest) || any_tail f (skipped ++ rest)) ≡ true
  any_tail-any f [] rest h = ground arith
  any_tail-any f (s ∷ skipped) rest h = ground (arith, any_tail_complete f s skipped rest h)

  star_sound :
      (p : String) (ps ss : List String)
      → ((rest : List String) → globstar_match_segments ps rest ≡ true → Matches ps rest)
      → p ≡ "**"
      → (globstar_match_segments ps ss || any_tail (globstar_match_segments ps) ss) ≡ true
      → Matches (p ∷ ps) ss
  star_sound p ps ss ih star h = elim (Bool-cases (globstar_match_segments ps ss)) [
    | inl e ↦ skip [] ss star refl (ih ss e)
    | inr e ↦
        let (skipped, rest, split, ok) =
          any_tail_sound (globstar_match_segments ps) ss (ground arith) in
        skip skipped rest star split (ih rest ok)
  ]

  sound : (ps ss : List String) → globstar_match_segments ps ss ≡ true → Matches ps ss
  unfolding globstar_match_segments
  sound [] [] h = nil
  sound [] (s ∷ ss) h = cc
  sound (p ∷ ps) [] h = elim (Bool-cases (str_eq p "**")) [
    | inl e ↦ star_sound p ps [] (sound ps) ((eq_iff p "**").0 e) (rw e at h)
    | inr e ↦ cc
  ]
  sound (p ∷ ps) (s ∷ ss) h = elim (Bool-cases (str_eq p "**")) [
    | inl e ↦ star_sound p ps (s ∷ ss) (sound ps) ((eq_iff p "**").0 e) (rw e at h)
    | inr e ↦ one (λ q. ground (arith, eq_iff p "**")) (ground arith) (sound ps ss (ground arith))
  ]

  complete : {ps ss : List String} → Matches ps ss → globstar_match_segments ps ss ≡ true
  unfolding globstar_match_segments
  complete nil = refl
  complete (skip {p} {ps} skipped rest star split m) =
      rw ((eq_iff p "**").1 star, split)
        (any_tail-any (globstar_match_segments ps) skipped rest (complete m))
  complete (one {p} ne ok m) = ground (arith, eq_iff p "**", complete m)

  -- The segment matcher decides the meaning of a pattern.
  pub globstar_match_segments-Matches :
      (ps ss : List String) → (globstar_match_segments ps ss ≡ true) ↔ Matches ps ss
  globstar_match_segments-Matches ps ss = (sound ps ss, complete)
