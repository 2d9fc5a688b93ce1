-- ===== src/Skills/Graph/Visits.antt =====
-- What an entry of the queue of `TraverseFrom` of pkg/skills/graph.go adds to it.
use dragonscale.Prelude.{
  ℕ, suc, ◌≤◌, ◌<◌, ◌⊎◌, inl, inr, ◌≡◌, ◌≢◌, refl, sym, ap, ◌∙◌, true, false, List, [], ◌∷◌, leb,
  Memᴰ, Mem-cons, Bool-cases, arith,
}
use dragonscale.Itr.Dag.Degrees.{mem}
use dragonscale.Skills.Graph.{SkillGraph, Entry, links_from, visit_links, expand}

module _ {K : Type 0} where
  -- No name is there twice.
  abbrev pub Unique : List (Entry K) → Type 0
  Unique [] = Unit
  Unique (x ∷ xs) = ((y : Entry K) → Memᴰ y xs → y.name ≢ x.name) × Unique xs

  abbrev pub entry : K → ℕ → Entry K
  entry k d = record { name = k; depth = d }

-- The new entries, and what is visited after them.
pub record Visits {K : Type 0} (dec : Discrete K) (d : ℕ) (links visited : List K)
    (new : List (Entry K)) (after : List K) : Type 0 where
  pub unseen : (x : Entry K) → Memᴰ x new → mem dec x.name visited ≡ false
  pub linked : (x : Entry K) → Memᴰ x new → Memᴰ x.name links × (x.depth ≡ d)
  pub single : Unique new
  pub grown : (k : K) → mem dec k after ≡ true → (mem dec k visited ≡ true) ⊎ Memᴰ (entry k d) new
  pub kept : (k : K) → mem dec k visited ≡ true → mem dec k after ≡ true
  pub marked : (x : Entry K) → Memᴰ x new → mem dec x.name after ≡ true

module _ {K : Type 0} (dec : Discrete K) where
  mem_more : (k j : K) (ks : List K) → mem dec k ks ≡ true → mem dec k (j ∷ ks) ≡ true
  mem_more k j ks h = ground (arith, h)

  mem_less : (k j : K) (ks : List K) → mem dec k (j ∷ ks) ≡ false → mem dec k ks ≡ false
  mem_less k j ks h = ground (arith, h)

  mem_self : (k : K) (ks : List K) → mem dec k (k ∷ ks) ≡ true
  mem_self k ks = ground arith

  mem_ne : (k j : K) (ks : List K) → mem dec k (j ∷ ks) ≡ false → k ≢ j
  mem_ne k j ks h p =
      absurd (true_false (sym (mem_self j ks) ∙ ap (λ x. mem dec x (j ∷ ks)) (sym p) ∙ h))
    where
      true_false : true ≡ false → ⊥
      true_false e = cc

  pub no-Visits : (d : ℕ) (links visited : List K) → Visits dec d links visited [] visited
  no-Visits d links visited = record {
    unseen = λ x m. elim m [ ];
    linked = λ x m. elim m [ ];
    single = tt;
    grown = λ k h. inl h;
    kept = λ k h. h;
    marked = λ x m. elim m [ ];
  }

  skip_link :
      (d : ℕ) (link : K) (links visited : List K) (new : List (Entry K)) (after : List K)
      → Visits dec d links visited new after
      → Visits dec d (link ∷ links) visited new after
  skip_link d link links visited new after v = record {
    unseen = v.unseen;
    linked = λ x m. let (l, e) = v.linked x m in (Memᴰ.tail l, e);
    single = v.single;
    grown = v.grown;
    kept = v.kept;
    marked = v.marked;
  }

  take_link :
      (d : ℕ) (link : K) (links visited : List K) (new : List (Entry K)) (after : List K)
      → mem dec link visited ≡ false
      → Visits dec d links (link ∷ visited) new after
      → Visits dec d (link ∷ links) visited (entry link d ∷ new) after
  take_link d link links visited new after h v = record {
    unseen = λ x m. elim (Mem-cons m) [
      | inl p ↦ ap (λ y. mem dec y.name visited) p ∙ h
      | inr t ↦ mem_less x.name link visited (v.unseen x t)
    ];
    linked = λ x m. elim (Mem-cons m) [
      | inl p ↦ (Memᴰ.head (ap (λ y. y.name) p), ap (λ y. y.depth) p)
      | inr t ↦ let (l, e) = v.linked x t in (Memᴰ.tail l, e)
    ];
    single = (λ y m. mem_ne y.name link visited (v.unseen y m), v.single);
    grown = λ k g. elim (v.grown k g) [
      | inr m ↦ inr (Memᴰ.tail m)
      | inl e ↦ elim (dec link k) [
        | yes p ↦ inr (Memᴰ.head (ap (λ x. entry x d) (sym p)))
        | no p ↦ inl (older k p e)
      ]
    ];
    kept = λ k g. v.kept k (mem_more k link visited g);
    marked = λ x m. elim (Mem-cons m) [
      | inl p ↦ ap (λ y. mem dec y.name after) p ∙ v.kept link (mem_self link visited)
      | inr t ↦ v.marked x t
    ];
  }
    where
      older : (k : K) → link ≢ k → mem dec k (link ∷ visited) ≡ true → mem dec k visited ≡ true
      older k p e = ground (arith, p, e)

  -- Every link is visited before or has an entry.
  abbrev pub AllVisited : ℕ → List K → List K → List (Entry K) → Type 0
  AllVisited d links visited new =
      (k : K) → Memᴰ k links → (mem dec k visited ≡ true) ⊎ Memᴰ (entry k d) new

  visit_links-Visits :
      (d : ℕ) (links visited : List K)
      → let next = visit_links dec d links visited in
        Visits dec d links visited next.0 next.1 × AllVisited d links visited next.0
  unfolding visit_links
  visit_links-Visits d [] visited = (no-Visits d [] visited, λ k m. elim m [ ])
  visit_links-Visits d (link ∷ links) visited = elim (Bool-cases (mem dec link visited)) [
    | inl e ↦
        let (v, a) = visit_links-Visits d links visited in
        rw (e, visit_links)
          (
            skip_link d link links visited _ _ v,
            λ k m. elim (Mem-cons m) [
              | inl p ↦ inl (ap (λ x. mem dec x visited) p ∙ e)
              | inr t ↦ a k t
            ],
          )
    | inr e ↦
        let (v, a) = visit_links-Visits d links (link ∷ visited) in
        rw (e, visit_links)
          (
            take_link d link links visited _ _ e v,
            λ k m. elim (Mem-cons m) [
              | inl p ↦ inr (Memᴰ.head (ap (λ x. entry x d) p))
              | inr t ↦ elim (dec link k) [
                | yes p ↦ inr (Memᴰ.head (ap (λ x. entry x d) (sym p)))
                | no p ↦ elim (a k t) [ inl f ↦ inl (older k p f) | inr n ↦ inr (Memᴰ.tail n) ]
              ]
            ],
          )
  ]
    where
      older : (k : K) → link ≢ k → mem dec k (link ∷ visited) ≡ true → mem dec k visited ≡ true
      older k p e = ground (arith, p, e)

module _ {K N : Type 0} (dec : Discrete K) where
  pub expand-Visits :
      (g : SkillGraph K N) (limit : ℕ) (cur : Entry K) (visited : List K)
      → let next = expand dec g limit cur visited in
        let links = links_from dec g.edges cur.name in
        Visits dec (suc cur.depth) links visited next.0 next.1
        × (cur.depth < limit → AllVisited dec (suc cur.depth) links visited next.0)
        × (limit ≤ cur.depth → next.0 ≡ [])
  unfolding expand
  expand-Visits g limit cur visited = elim (Bool-cases (leb limit cur.depth)) [
    | inl e ↦
        rw (e, expand)
          (
            no-Visits dec (suc cur.depth) (links_from dec g.edges cur.name) visited,
            λ h. absurd (ground (arith, e, h)),
            λ h. refl,
          )
    | inr e ↦
        let (v, a) =
          visit_links-Visits dec (suc cur.depth) (links_from dec g.edges cur.name) visited in
        rw (e, expand) (v, λ h. a, λ h. absurd (ground (arith, e, h)))
  ]
