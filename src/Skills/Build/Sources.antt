-- ===== src/Skills/Build/Sources.antt =====
-- Where the links come from that `BuildGraph` of pkg/skills/graph.go gives a skill.
use dragonscale.Prelude.{
  ℕ, ◌⊎◌, inl, inr, ◌≡◌, refl, sym, ap, ◌∙◌, subst, List, [], ◌∷◌, some, Memᴰ, Option-cases, arith,
}
use dragonscale.Prelude.Text.{codes_eq}
use dragonscale.Skills.Graph.{SkillGraph, find_node, links_from}
use dragonscale.Skills.Links.{parse_wikilinks, Mem-merge_unique, merge_unique-Mem}
use dragonscale.Skills.Build.{
  SkillInfo, SkillNode, Loader, Nodes, front_links, node_of, put_node, add_skills, linked,
  link_nodes, build_graph, Comes, find-put_node,
}

module _ (loader : Loader) where
  add_skills-Comes :
      (infos : List SkillInfo) (nodes : Nodes) (name : List ℕ) (node : SkillNode)
      → find_node codes_eq (add_skills loader infos nodes) name ≡ some node
      → Comes loader infos name node ⊎ (find_node codes_eq nodes name ≡ some node)
  unfolding add_skills
  add_skills-Comes [] nodes name node h = inr h
  add_skills-Comes (info ∷ infos) nodes name node h =
      elim (add_skills-Comes infos (put_node loader info.name (node_of loader info) nodes) name node
        h) [
          | inl (i, m, p, q) ↦ inl (i, Memᴰ.tail m, p, q)
          | inr e ↦ elim (find-put_node loader info.name name (node_of loader info) node nodes e) [
            | inl (p, q) ↦ inl (info, Memᴰ.head refl, p, q)
            | inr f ↦ inr f
          ]
        ]

  -- The node with its links, which are the edges of the name.
  abbrev Linked : Nodes → SkillGraph (List ℕ) SkillNode → List ℕ → List ℕ → SkillNode → Type 0
  Linked nodes g name content node =
      (before : SkillNode) × (find_node codes_eq nodes name ≡ some before)
      × (node ≡ linked loader before content)
      × (links_from codes_eq g.edges name ≡ node.links)

  link_nodes-Linked :
      (nodes : Nodes) (name content : List ℕ) (node : SkillNode)
      → loader.load_skill name ≡ some content
      → find_node codes_eq (link_nodes loader nodes).nodes name ≡ some node
      → Linked nodes (link_nodes loader nodes) name content node
  unfolding link_nodes find_node links_from
  link_nodes-Linked [] name content node l h = absurd (cc)
  link_nodes-Linked (entry ∷ rest) name content node l h = elim (codes_eq entry.0 name) [
    | yes p ↦
        let loaded : loader.load_skill entry.0 ≡ some content = ap loader.load_skill p ∙ l in
        let same : linked loader entry.1 content ≡ node = first p loaded in
        (entry.1, ground (arith, p), sym same, edges_here p loaded ∙ ap (λ n. n.links) same)
    | no p ↦ elim (Option-cases (loader.load_skill entry.0)) [
      | inl e ↦
          let (b, f, q, r) = link_nodes-Linked rest name content node l (ground (arith, h, p, e)) in
          (b, ground (arith, p, f), q, ground (arith, p, e, r))
      | inr (other, e) ↦
          let (b, f, q, r) = link_nodes-Linked rest name content node l (ground (arith, h, p, e)) in
          (b, ground (arith, p, f), q, ground (arith, p, e, r))
    ]
  ]
    where
      first :
          entry.0 ≡ name
          → loader.load_skill entry.0 ≡ some content
          → linked loader entry.1 content ≡ node
      first p e =
          let s : some (linked loader entry.1 content) ≡ some node = ground (arith, h, p, e) in cc

      edges_here :
          entry.0 ≡ name
          → loader.load_skill entry.0 ≡ some content
          → links_from codes_eq (link_nodes loader (entry ∷ rest)).edges name
            ≡ (linked loader entry.1 content).links
      edges_here p e = ground (arith, p, e)

  no_node :
      (name : List ℕ) (b : SkillNode) → find_node {N = SkillNode} codes_eq [] name ≡ some b → ⊥
  unfolding find_node
  no_node name b e = cc

  -- A node of the graph whose skill loads is that of a skill of the name, and its links, which are
  -- also the edges of its name, are the links of the skill's front matter and the wikilinks of what
  -- is loaded, and no other.
  pub build_graph_links :
      (name content : List ℕ) (node : SkillNode)
      → loader.load_skill name ≡ some content
      → find_node codes_eq (build_graph loader).nodes name ≡ some node
      → (info : SkillInfo) × Memᴰ info loader.list_skills
        × (info.name ≡ name)
        × (node.info ≡ info)
        × (links_from codes_eq (build_graph loader).edges name ≡ node.links)
        × ((s : List ℕ)
            → Memᴰ s node.links
            → Memᴰ s (front_links loader info) ⊎ Memᴰ s (parse_wikilinks content))
        × ((s : List ℕ)
            → Memᴰ s (front_links loader info) ⊎ Memᴰ s (parse_wikilinks content)
            → Memᴰ s node.links)
  unfolding build_graph
  build_graph_links name content node l h =
      let (b, f, q, r) =
        link_nodes-Linked (add_skills loader loader.list_skills []) name content node l h in
      elim (add_skills-Comes loader.list_skills [] name b f) [
        | inr e ↦ absurd (no_node name b e)
        | inl (info, m, p, same) ↦
            let whole : node ≡ linked loader (node_of loader info) content =
              q ∙ ap (λ n. linked loader n content) same in
            (
              info,
              m,
              p,
              ap (λ n. n.info) whole,
              r,
              λ s i.
                  merge_unique-Mem (front_links loader info) (parse_wikilinks content) s
                    (subst (λ n. Memᴰ s n.links) whole i),
              λ s i.
                  subst (λ n. Memᴰ s n.links) (sym whole)
                    (Mem-merge_unique (front_links loader info) (parse_wikilinks content) s i),
            )
      ]
