-- ===== src/Skills/Search.antt =====
-- `SearchSkills` of pkg/skills/graph.go. What is used of the package strings beside searching is a
-- parameter. The sort leaves the order of equal scores open, as the iteration over the map does; the
-- model takes one.
pub mod Ranked
use dragonscale.Prelude.{
  ℕ, suc, ◌+◌, ◌≤◌, ◌<◌, ◌⊎◌, inl, inr, ◌≡◌, ◌≢◌, refl, sym, ap, ◌∙◌, subst, Bool, true, false,
  List, [], ◌∷◌, if◌then◌else◌, ltb, leb, Memᴰ, Mem-cons, Bool-cases, List-cases, arith,
}
use dragonscale.Prelude.Text.{contains_codes}
use dragonscale.Rlm.Strategy.{Strings}
use dragonscale.Skills.Graph.{SkillGraph}
use dragonscale.Skills.Build.{SkillNode, Nodes}

-- `scored`.
pub record Scored : Type 0 where
  pub node : SkillNode
  pub score : ℕ

module _ (strings : Strings) where
  abbrev pub points : ℕ → List ℕ → List ℕ → ℕ
  points n s token = if contains_codes (strings.to_lower s) token then n else 0

  abbrev pub tag_points : List (List ℕ) → List ℕ → ℕ
  tag_points [] token = 0
  tag_points (tag ∷ tags) token = points 2 tag token + tag_points tags token

  -- What the loop over the tokens counts.
  abbrev pub score_of : SkillNode → List (List ℕ) → ℕ
  score_of node [] = 0
  score_of node (token ∷ tokens) =
      points 3 node.info.name token
      + points 2 node.info.description token
      + points 2 node.info.domain token
      + tag_points node.info.tags token
      + score_of node tokens

  -- `results`.
  unfoldable pub matches : List (List ℕ) → Nodes → List Scored
  matches tokens [] = []
  matches tokens (entry ∷ rest) =
      let later = matches tokens rest in
      let score = score_of entry.1 tokens in
      if ltb 0 score then record { node = entry.1; score = score } ∷ later else later

-- `sort.Slice`, by falling scores.
unfoldable pub insert_scored : Scored → List Scored → List Scored
insert_scored x [] = x ∷ []
insert_scored x (y ∷ ys) =
    let rest = insert_scored x ys in if leb y.score x.score then x ∷ y ∷ ys else y ∷ rest

unfoldable pub sort_scored : List Scored → List Scored
sort_scored [] = []
sort_scored (x ∷ xs) = insert_scored x (sort_scored xs)

abbrev pub nodes_of : List Scored → List SkillNode
nodes_of [] = []
nodes_of (x ∷ xs) = x.node ∷ nodes_of xs

unfoldable pub search_skills : Strings → SkillGraph (List ℕ) SkillNode → List ℕ → List SkillNode
search_skills strings g query = elim (strings.fields (strings.to_lower query)) [
  | [] ↦ []
  | t ∷ ts ↦ nodes_of (sort_scored (matches strings (t ∷ ts) g.nodes))
]
