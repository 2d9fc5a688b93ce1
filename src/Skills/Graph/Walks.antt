-- ===== src/Skills/Graph/Walks.antt =====
-- The nodes that `TraverseFrom` of pkg/skills/graph.go returns are those within the depth.
use dragonscale.Prelude.{
  ℕ, suc, ◌+◌, ◌≤◌, inl, inr, ◌≡◌, ◌≢◌, refl, sym, ap, ◌∙◌, subst, true, false, List, [], ◌∷◌,
  length, leb, Memᴰ, Mem-cons, Mem-append, Mem-append_right, Bool-cases, arith, if◌then◌else◌,
}
use dragonscale.Itr.Dag.Degrees.{mem}
use dragonscale.Skills.Graph.{SkillGraph, Entry, links_from, visit_links, expand, all_links}

module _ {K : Type 0} (dec : Discrete K) where
  -- The name is reached by this many links.
  pub data Walk (edges : List (K × List K)) (start : K) : ℕ → K → Type 0 where
    here : Walk edges start 0 start
    link :
        {n : ℕ} {a b : K}
        → Walk edges start n a
        → Memᴰ b (links_from dec edges a)
        → Walk edges start (suc n) b

  Mem-mem : (k : K) (ks : List K) → Memᴰ k ks → mem dec k ks ≡ true
  Mem-mem k [] m = elim m [ ]
  Mem-mem k (j ∷ ks) m = elim (dec j k) [
    | yes p ↦ ground (arith, p)
    | no p ↦ elim (Mem-cons m) [
      | inl q ↦ absurd (p (sym q))
      | inr t ↦ ground (arith, p, Mem-mem k ks t)
    ]
  ]

  Mem-all_links :
      (es : List (K × List K)) (a b : K) → Memᴰ b (links_from dec es a) → Memᴰ b (all_links es)
  unfolding links_from
  Mem-all_links [] a b m = elim m [ ]
  Mem-all_links (e ∷ es) a b m = elim (dec e.0 a) [
    | yes p ↦ Mem-append e.1 (all_links es) (subst (Memᴰ b) (here_links p) m)
    | no p ↦
        Mem-append_right e.1 (all_links es)
          (Mem-all_links es a b (subst (Memᴰ b) (later_links p) m))
  ]
    where
      here_links : e.0 ≡ a → links_from dec (e ∷ es) a ≡ e.1
      here_links p = ground (arith, p)

      later_links : e.0 ≢ a → links_from dec (e ∷ es) a ≡ links_from dec es a
      later_links p = ground (arith, p)

  -- The links of a list that are not visited.
  abbrev pub fresh : List K → List K → ℕ
  fresh visited [] = 0
  fresh visited (k ∷ ks) =
      let rest = fresh visited ks in if mem dec k visited then rest else suc rest

  fresh_more : (k : K) (visited ks : List K) → fresh (k ∷ visited) ks ≤ fresh visited ks
  fresh_more k visited [] = omega arith
  fresh_more k visited (j ∷ ks) = ground (arith, fresh_more k visited ks)

  fresh_visit :
      (k : K) (visited ks : List K)
      → mem dec k visited ≡ false
      → Memᴰ k ks
      → suc (fresh (k ∷ visited) ks) ≤ fresh visited ks
  fresh_visit k visited [] h m = elim m [ ]
  fresh_visit k visited (j ∷ ks) h m = elim (dec k j) [
    | yes p ↦
        let hj : mem dec j visited ≡ false = ap (λ x. mem dec x visited) (sym p) ∙ h in
        ground (arith, p, hj, fresh_more k visited ks)
    | no p ↦ elim (Mem-cons m) [
      | inl q ↦ absurd (p q)
      | inr t ↦ ground (arith, p, fresh_visit k visited ks h t)
    ]
  ]

  pub fresh_le : (visited ks : List K) → fresh visited ks ≤ length ks
  fresh_le visited [] = omega arith
  fresh_le visited (k ∷ ks) = ground (arith, fresh_le visited ks)

  visit_count :
      (d : ℕ) (links visited universe : List K)
      → ((b : K) → Memᴰ b links → Memᴰ b universe)
      → let next = visit_links dec d links visited in
        length next.0 + fresh next.1 universe ≤ fresh visited universe
  unfolding visit_links
  visit_count d [] visited universe h = omega arith
  visit_count d (k ∷ ks) visited universe h = elim (Bool-cases (mem dec k visited)) [
    | inl e ↦ rw (e, visit_links) (visit_count d ks visited universe (λ b m. h b (Memᴰ.tail m)))
    | inr e ↦
        rw (e, visit_links)
          (omega (
            arith,
            fresh_visit k visited universe e (h k (Memᴰ.head refl)),
            visit_count d ks (k ∷ visited) universe (λ b m. h b (Memᴰ.tail m)),
          ))
  ]

module _ {K N : Type 0} (dec : Discrete K) where
  pub expand_count :
      (g : SkillGraph K N) (limit : ℕ) (cur : Entry K) (visited : List K)
      → let next = expand dec g limit cur visited in
        length next.0 + fresh dec next.1 (all_links g.edges) ≤ fresh dec visited (all_links g.edges)
  unfolding expand
  expand_count g limit cur visited = elim (Bool-cases (leb limit cur.depth)) [
    | inl e ↦ rw (e, expand) (omega arith)
    | inr e ↦
        rw (e, expand)
          (visit_count dec (suc cur.depth) (links_from dec g.edges cur.name) visited
            (all_links g.edges) (λ b m. Mem-all_links dec g.edges cur.name b m))
  ]
