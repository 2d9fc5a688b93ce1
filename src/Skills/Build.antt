-- ===== src/Skills/Build.antt =====
-- `BuildGraph` of pkg/skills/graph.go, with `ListMOCs` and `GetIndex`. The loader, which reads files,
-- is a parameter, and so is `strings.EqualFold`. The map of the nodes is a list in one order of
-- iteration, in which a later skill takes the place of an earlier one of its name.
pub mod Sources
use dragonscale.Prelude.{
  ℕ, ◌⊎◌, inl, inr, ◌≡◌, ◌≢◌, refl, sym, ap, ◌∙◌, subst, Bool, true, false, List, [], ◌∷◌, ◌++◌,
  Option, none, some, ite, if◌then◌else◌, Memᴰ, Option-cases, arith,
}
use dragonscale.Prelude.Text.{codes, codes_eq}
use dragonscale.Skills.Graph.{SkillGraph, find_node, links_from}
use dragonscale.Skills.Links.{parse_wikilinks, merge_unique, Mem-merge_unique, merge_unique-Mem}

pub record SkillInfo : Type 0 where
  pub name : List ℕ
  pub path : List ℕ
  pub description : List ℕ
  pub tags : List (List ℕ)
  pub domain : List ℕ

-- What is read of a `SkillMetadata`.
pub record SkillMetadata : Type 0 where
  pub links : List (List ℕ)
  pub is_moc : Bool

pub record SkillNode : Type 0 where
  pub info : SkillInfo
  pub links : List (List ℕ)
  pub is_moc : Bool
  pub is_index : Bool

-- What is used of `SkillsLoader`.
pub record Loader : Type 0 where
  pub list_skills : List SkillInfo
  pub metadata : List ℕ → Option SkillMetadata
  pub load_skill : List ℕ → Option (List ℕ)
  pub equal_fold : List ℕ → List ℕ → Bool

abbrev pub Nodes : Type 0
Nodes = List (List ℕ × SkillNode)

-- `ListMOCs`, in the model's order.
unfoldable pub list_mocs : Nodes → List SkillNode
list_mocs [] = []
list_mocs (entry ∷ rest) =
    let later = list_mocs rest in if entry.1.is_moc then entry.1 ∷ later else later

-- `GetIndex`: the first in the model's order.
unfoldable pub get_index : Nodes → Option SkillNode
get_index [] = none
get_index (entry ∷ rest) =
    let later = get_index rest in if entry.1.is_index then some entry.1 else later

module _ (loader : Loader) where
  -- The links of the front matter.
  abbrev pub front_links : SkillInfo → List (List ℕ)
  front_links info = elim (loader.metadata info.path) [ none ↦ [] | some meta ↦ meta.links ]

  abbrev pub marked_moc : SkillInfo → Bool
  marked_moc info = elim (loader.metadata info.path) [ none ↦ false | some meta ↦ meta.is_moc ]

  abbrev pub node_of : SkillInfo → SkillNode
  node_of info = record {
    info = info;
    links = front_links info;
    is_moc = marked_moc info;
    is_index = loader.equal_fold info.name (codes "index");
  }

  -- `g.Nodes[name] = node`.
  abbrev pub put_node : List ℕ → SkillNode → Nodes → Nodes
  put_node name node [] = (name, node) ∷ []
  put_node name node (entry ∷ rest) =
      let later = put_node name node rest in
      ite (codes_eq entry.0 name) ((name, node) ∷ rest) (entry ∷ later)

  -- The first loop, when some nodes are there.
  unfoldable pub add_skills : List SkillInfo → Nodes → Nodes
  add_skills [] nodes = nodes
  add_skills (info ∷ infos) nodes = add_skills infos (put_node info.name (node_of info) nodes)

  abbrev pub linked : SkillNode → List ℕ → SkillNode
  linked node content = record node { links = merge_unique node.links (parse_wikilinks content) }

  -- The second loop.
  unfoldable pub link_nodes : Nodes → SkillGraph (List ℕ) SkillNode
  link_nodes [] = record { nodes = []; edges = [] }
  link_nodes (entry ∷ rest) =
      let g = link_nodes rest in
      elim (loader.load_skill entry.0) [
        | none ↦ record { nodes = entry ∷ g.nodes; edges = g.edges }
        | some content ↦
            let node = linked entry.1 content in
            record { nodes = (entry.0, node) ∷ g.nodes; edges = (entry.0, node.links) ∷ g.edges }
      ]

  unfoldable pub build_graph : SkillGraph (List ℕ) SkillNode
  build_graph = link_nodes (add_skills loader.list_skills [])

  -- The node is that of a skill of the name.
  abbrev pub Comes : List SkillInfo → List ℕ → SkillNode → Type 0
  Comes infos name node =
      (info : SkillInfo) × Memᴰ info infos × (info.name ≡ name) × (node ≡ node_of info)

  pub find-put_node :
      (name other : List ℕ) (node found : SkillNode) (nodes : Nodes)
      → find_node codes_eq (put_node name node nodes) other ≡ some found
      → ((name ≡ other) × (found ≡ node)) ⊎ (find_node codes_eq nodes other ≡ some found)
  unfolding find_node
  find-put_node name other node found [] h = elim (codes_eq name other) [
    | yes p ↦ inl (p, let e : some node ≡ some found = ground (arith, h, p) in cc)
    | no p ↦ absurd (ground (arith, h, p))
  ]
  find-put_node name other node found (entry ∷ rest) h = elim (codes_eq entry.0 name) [
    | yes p ↦ elim (codes_eq name other) [
      | yes q ↦ inl (q, let e : some node ≡ some found = ground (arith, h, p, q) in cc)
      | no q ↦ inr (apart p q h)
    ]
    | no p ↦ elim (codes_eq entry.0 other) [
      | yes q ↦ inr (ground (arith, h, p, q))
      | no q ↦ elim (find-put_node name other node found rest (ground (arith, h, p, q))) [
        | inl e ↦ inl e
        | inr e ↦ inr (ground (arith, q, e))
      ]
    ]
  ]
    where
      apart :
          entry.0 ≡ name
          → name ≢ other
          → find_node codes_eq (put_node name node (entry ∷ rest)) other ≡ some found
          → find_node codes_eq (entry ∷ rest) other ≡ some found
      apart p q e = let r : entry.0 ≢ other = λ w. q (sym p ∙ w) in ground (arith, p, q, r, e)
