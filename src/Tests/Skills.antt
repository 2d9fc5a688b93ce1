-- ===== src/Tests/Skills.antt =====
-- pkg/skills/graph.go at a graph of four skills.
use dragonscale.Prelude.{
  ℕ, ◌≡◌, refl, ◌⊎◌, Bool, true, false, List, [], ◌∷◌, Option, none, some, Memᴰ, ite, ℕ_discrete,
}
use dragonscale.Prelude.Int.{pos}
use dragonscale.Prelude.Text.{codes, codes_eq, cons_eq}
use dragonscale.Memory.Compress.{trim_left, trim_right, trim_space}
use dragonscale.Rlm.Strategy.{Strings}
use dragonscale.Skills.Graph.{
  SkillGraph, Entry, find_node, links_from, visit_links, emit, expand, traverse_loop, traverse_from,
}
use dragonscale.Skills.Graph.Reach.{Picks, Reaches, traverse_from-Reaches}
use dragonscale.Skills.Links.{
  wikilink_at, find_wikilinks, distinct_names, parse_wikilinks, unseen_names, merge_unique,
}
use dragonscale.Skills.Build.{
  SkillInfo, SkillNode, Loader, front_links, add_skills, link_nodes, build_graph,
}
use dragonscale.Skills.Build.Sources.{build_graph_links}
use dragonscale.Skills.Search.{matches, insert_scored, sort_scored, search_skills}

program : Unit {0}
unfolding codes_eq cons_eq ℕ_discrete trim_left trim_right find_node links_from visit_links emit
    expand traverse_loop traverse_from wikilink_at find_wikilinks distinct_names parse_wikilinks
    unseen_names merge_unique add_skills link_nodes build_graph matches insert_scored sort_scored
    search_skills
program = tt

abbrev skill : List ℕ → SkillInfo
skill name = record { name = name; path = name; description = []; tags = []; domain = [] }

abbrev is_named : List ℕ → List ℕ → Bool
is_named a b = ite (codes_eq a b) true false

abbrev loader : Loader
loader = record {
  list_skills =
      skill (codes "a") ∷ skill (codes "b") ∷ skill (codes "c") ∷ skill (codes "index") ∷ [];
  metadata = λ path.
      ite (codes_eq path (codes "a")) (some (record { links = codes "c" ∷ []; is_moc = true }))
        none;
  load_skill = λ name.
      ite (codes_eq name (codes "a")) (some (codes "see [[ b ]] and [[c]] [[]]"))
        (ite (codes_eq name (codes "b")) (some (codes "[[index]] [[a]]")) (some []));
  equal_fold = is_named;
}

abbrev graph : SkillGraph (List ℕ) SkillNode
graph = build_graph loader

abbrev names_of : Option (List SkillNode) → List (List ℕ)
names_of none = []
names_of (some nodes) = each nodes
  where
    each : List SkillNode → List (List ℕ)
    each [] = []
    each (n ∷ ns) = n.info.name ∷ each ns

a_linked : links_from codes_eq graph.edges (codes "a") ≡ codes "c" ∷ codes "b" ∷ []
unfolding program
a_linked = refl

a_near : names_of (traverse_from codes_eq graph (codes "a") (pos 1)) ≡ codes "c" ∷ codes "b" ∷ []
unfolding program
a_near = refl

a_far :
    names_of (traverse_from codes_eq graph (codes "a") (pos 2))
    ≡ codes "c" ∷ codes "b" ∷ codes "index" ∷ []
unfolding program
a_far = refl

abbrev node_at : List ℕ → SkillNode
node_at name = elim (find_node codes_eq graph.nodes name) [
  | some n ↦ n
  | none ↦ record { info = skill name; links = []; is_moc = false; is_index = false }
]

a_there : find_node codes_eq graph.nodes (codes "a") ≡ some (node_at (codes "a"))
unfolding program
a_there = refl

traverse_from-Reaches_example :
    (found : List (Entry (List ℕ))) × (nodes : List SkillNode) × (traverse_from codes_eq graph
        (codes "a")
        (pos 2)
      ≡ some nodes)
    × Picks codes_eq graph (codes "a") found nodes
    × Reaches codes_eq graph (codes "a") 2 found
traverse_from-Reaches_example =
    traverse_from-Reaches codes_eq graph (codes "a") 1 (node_at (codes "a")) a_there

abbrev a_content : List ℕ
a_content = codes "see [[ b ]] and [[c]] [[]]"

a_loaded : loader.load_skill (codes "a") ≡ some a_content
unfolding program
a_loaded = refl

build_graph_links_example :
    (info : SkillInfo) × Memᴰ info loader.list_skills
    × (info.name ≡ codes "a")
    × ((node_at (codes "a")).info ≡ info)
    × (links_from codes_eq graph.edges (codes "a") ≡ (node_at (codes "a")).links)
    × ((s : List ℕ)
        → Memᴰ s (node_at (codes "a")).links
        → Memᴰ s (front_links loader info) ⊎ Memᴰ s (parse_wikilinks a_content))
    × ((s : List ℕ)
        → Memᴰ s (front_links loader info) ⊎ Memᴰ s (parse_wikilinks a_content)
        → Memᴰ s (node_at (codes "a")).links)
build_graph_links_example =
    build_graph_links loader (codes "a") a_content (node_at (codes "a")) a_loaded a_there

-- Texts as they are, and each text as one token.
abbrev plain : Strings
plain = record { to_lower = λ s. s; fields = λ s. s ∷ []; trim_space = trim_space }

index_found : names_of (some (search_skills plain graph (codes "nd"))) ≡ codes "index" ∷ []
unfolding program
index_found = refl
