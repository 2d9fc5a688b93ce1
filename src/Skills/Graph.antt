-- ===== src/Skills/Graph.antt =====
-- `SkillGraph.TraverseFrom` of pkg/skills/graph.go. The two maps of the graph are lists searched by
-- name, and a nil node is a name that is not there. A result of none is a loop that did not end
-- within its fuel.
pub mod Walks
pub mod Visits
pub mod Levels
pub mod Reach
use dragonscale.Prelude.{
  ℕ, zero, suc, ◌+◌, Bool, true, false, List, [], ◌∷◌, ◌++◌, Option, none, some, length, ite, leb,
  if◌then◌else◌,
}
use dragonscale.Prelude.Int.{ℤ, pos, negsuc}
use dragonscale.Itr.Dag.Degrees.{mem}

-- `SkillGraph`, over the names and what a node is.
pub record SkillGraph (K N : Type 0) : Type 0 where
  pub nodes : List (K × N)
  pub edges : List (K × List K)

-- An entry of the queue.
pub record Entry (K : Type 0) : Type 0 where
  pub name : K
  pub depth : ℕ

module _ {K : Type 0} where
  -- All links of the graph.
  abbrev pub all_links : List (K × List K) → List K
  all_links [] = []
  all_links (entry ∷ rest) = entry.1 ++ all_links rest

module _ {K : Type 0} (dec : Discrete K) where
  -- `g.Edges[name]`, which is also `LinksFrom`.
  unfoldable pub links_from : List (K × List K) → K → List K
  links_from [] name = []
  links_from (entry ∷ rest) name =
      let later = links_from rest name in ite (dec entry.0 name) entry.1 later

  -- The loop over the links of a name: the entries that it puts in the queue, with `visited`.
  unfoldable pub visit_links : ℕ → List K → List K → List (Entry K) × List K
  visit_links depth [] visited = ([], visited)
  visit_links depth (link ∷ links) visited = elim (mem dec link visited) [
    | true ↦ visit_links depth links visited
    | false ↦
        let rest = visit_links depth links (link ∷ visited) in
        (record { name = link; depth = depth } ∷ rest.0, rest.1)
  ]

module _ {K N : Type 0} (dec : Discrete K) where
  -- `g.Nodes[name]`.
  unfoldable pub find_node : List (K × N) → K → Option N
  find_node [] name = none
  find_node (entry ∷ rest) name =
      let later = find_node rest name in ite (dec entry.0 name) (some entry.1) later

  -- The node of an entry, if it is not the one that the search began at.
  unfoldable pub emit : SkillGraph K N → K → Entry K → List N
  emit g start cur =
      ite (dec cur.name start) []
        (elim (find_node g.nodes cur.name) [ none ↦ [] | some node ↦ node ∷ [] ])

  -- What an entry adds to the queue, with `visited`.
  unfoldable pub expand : SkillGraph K N → ℕ → Entry K → List K → List (Entry K) × List K
  expand g limit cur visited =
      if leb limit cur.depth
      then ([], visited)
      else visit_links dec (suc cur.depth) (links_from dec g.edges cur.name) visited

  abbrev pub emitted : List N → Option (List N) → Option (List N)
  emitted out none = none
  emitted out (some rest) = some (out ++ rest)

  -- The loop over the queue.
  unfoldable pub traverse_loop :
      ℕ → SkillGraph K N → K → ℕ → List (Entry K) → List K → Option (List N)
  traverse_loop fuel g start limit [] visited = some []
  traverse_loop zero g start limit (cur ∷ queue) visited = none
  traverse_loop (suc fuel) g start limit (cur ∷ queue) visited =
      let next = expand g limit cur visited in
      emitted (emit g start cur) (traverse_loop fuel g start limit (queue ++ next.0) next.1)

  -- `TraverseFrom`, with a round for the name and one for each link.
  unfoldable pub traverse_from : SkillGraph K N → K → ℤ → Option (List N)
  traverse_from g name (negsuc n) = some []
  traverse_from g name (pos zero) = some []
  traverse_from g name (pos (suc n)) = elim (find_node g.nodes name) [
    | none ↦ some []
    | some node ↦
        traverse_loop (suc (length (all_links g.edges))) g name (suc n)
          (record { name = name; depth = 0 } ∷ []) (name ∷ [])
  ]
