-- ===== src/Skills/Graph/Reach.antt =====
-- The nodes that `TraverseFrom` of pkg/skills/graph.go returns are those within the depth.
use dragonscale.Prelude.{
  ℕ, zero, suc, ◌+◌, ◌≤◌, ◌≡◌, ◌≢◌, refl, sym, ap, ◌∙◌, subst, true, List, [], ◌∷◌, ◌++◌, none,
  some, Option-cases, length, length-append, Memᴰ, Mem-cons, inl, inr, arith,
}
use mathlib.Core.List.{append_assoc, append-nil}
use dragonscale.Prelude.Int.{pos}
use dragonscale.Itr.Dag.Degrees.{mem}
use dragonscale.Skills.Graph.{
  SkillGraph, Entry, find_node, links_from, emit, expand, emitted, traverse_loop, all_links,
  traverse_from,
}
use dragonscale.Skills.Graph.Walks.{Walk, here, link, fresh, fresh_le, expand_count}
use dragonscale.Skills.Graph.Visits.{Unique, entry, expand-Visits}
use dragonscale.Skills.Graph.Levels.{Rising, Found, step-Found}

module _ {K N : Type 0} (dec : Discrete K) (g : SkillGraph K N) (start : K) where
  -- The nodes of some entries, without that of the start.
  abbrev emit_all : List (Entry K) → List N
  emit_all [] = []
  emit_all (x ∷ xs) = emit dec g start x ++ emit_all xs

  loop-Found :
      (fuel limit : ℕ) (popped queue seen : List (Entry K)) (visited : List K)
      → Found dec g.edges start limit popped queue seen visited
      → length queue + fresh dec visited (all_links g.edges) ≤ fuel
      → (more : List (Entry K)) × (after : List K) × (traverse_loop dec fuel g start limit queue
            visited
          ≡ some (emit_all more))
        × Found dec g.edges start limit (popped ++ more) [] (popped ++ more) after
  unfolding traverse_loop
  loop-Found fuel limit popped [] seen visited f h =
      let all : seen ≡ popped ++ [] = sym f.whole in
      (
        [],
        visited,
        refl,
        subst (λ l. Found dec g.edges start limit l [] l visited) (sym (append-nil popped))
            (subst (λ l. Found dec g.edges start limit popped [] l visited)
              (all ∙ append-nil popped) f),
      )
  loop-Found zero limit popped (cur ∷ queue) seen visited f h = absurd (omega (arith, h))
  loop-Found (suc fuel) limit popped (cur ∷ queue) seen visited f h =
      let next = expand dec g limit cur visited in
      let (v, all, stop) = expand-Visits dec g limit cur visited in
      let count = expand_count dec g limit cur visited in
      let (more, after, e, found) =
        loop-Found fuel limit (popped ++ (cur ∷ [])) (queue ++ next.0) (seen ++ next.0) next.1
          (step-Found dec g.edges start limit popped queue seen cur visited next.1 next.0 f v all
            stop)
          (omega (arith, h, count, length-append queue next.0)) in
      (
        cur ∷ more,
        after,
        ap (emitted dec (emit dec g start cur)) e,
        subst (λ l. Found dec g.edges start limit l [] l after)
            (append_assoc popped (cur ∷ []) more) found,
      )

  start-Found :
      (limit : ℕ)
      → Found dec g.edges start limit [] (entry start 0 ∷ []) (entry start 0 ∷ []) (start ∷ [])
  start-Found limit = record {
    whole = refl;
    begun = Memᴰ.head refl;
    known = λ k h. (entry start 0, Memᴰ.head refl, only k h);
    marked = λ x m. elim (Mem-cons m) [
      | inl p ↦ subst (λ y. mem dec y.name (start ∷ []) ≡ true) (sym p) (itself start)
      | inr o ↦ elim o [ ]
    ];
    single = (λ y m. elim m [ ], tt);
    rising = (λ y m. elim m [ ], tt);
    walked = λ x m. elim (Mem-cons m) [
      | inl p ↦
          subst (λ y. Walk dec g.edges start y.depth y.name × (y.depth ≤ limit)) (sym p)
            (here, omega arith)
      | inr o ↦ elim o [ ]
    ];
    spread = λ x y a b. elim (Mem-cons b) [
      | inl p ↦ let zero_deep : y.depth ≡ 0 = ap (λ z. z.depth) p in omega (arith, zero_deep)
      | inr o ↦ elim o [ ]
    ];
    closed = λ x b m. elim m [ ];
  }
    where
      only : (k : K) → mem dec k (start ∷ []) ≡ true → start ≡ k
      only k h = elim (dec start k) [ yes p ↦ p | no p ↦ absurd (ground (arith, h, p)) ]

      itself : (k : K) → mem dec k (k ∷ []) ≡ true
      itself k = ground arith

  -- Each name that some links reach has an entry that is as near.
  reach-Found :
      (limit n : ℕ) (b : K) (popped : List (Entry K)) (visited : List K)
      → Found dec g.edges start limit popped [] popped visited
      → Walk dec g.edges start n b
      → n ≤ limit
      → (x : Entry K) × Memᴰ x popped × (x.name ≡ b) × (x.depth ≤ n)
  reach-Found limit n b popped visited f here h = (entry start 0, f.begun, refl, omega arith)
  reach-Found limit n b popped visited f (link {n = k} {a = a} w l) h =
      let (x, m, p, d) = reach-Found limit k a popped visited f w (omega (arith, h)) in
      let (y, my, q, e) =
        f.closed x b m (omega (arith, d, h))
          (subst (λ i. Memᴰ b (links_from dec g.edges i)) (sym p) l) in
      (y, my, q, omega (arith, d, e))

  opened :
      (n : ℕ) (node : N)
      → find_node dec g.nodes start ≡ some node
      → traverse_from dec g start (pos (suc n))
        ≡ traverse_loop dec
            (suc (length (all_links g.edges)))
            g
            start
            (suc n)
            (entry start 0 ∷ [])
            (start ∷ [])
  unfolding traverse_from
  opened n node h = rw (h, traverse_from) refl

  -- The entries are those of the names that at most so many links reach: each name once, nearer
  -- names first, and at the least number of links.
  pub record Reaches (limit : ℕ) (found : List (Entry K)) : Type 0 where
    pub single : Unique found
    pub rising : Rising found
    pub walked :
        (x : Entry K) → Memᴰ x found → Walk dec g.edges start x.depth x.name × (x.depth ≤ limit)
    pub complete :
        (n : ℕ) (b : K)
        → Walk dec g.edges start n b
        → n ≤ limit
        → (x : Entry K) × Memᴰ x found × (x.name ≡ b) × (x.depth ≤ n)

  -- The nodes of the names of some entries, in order: the start's own and the names that are not a
  -- node's give none.
  pub data Picks : List (Entry K) → List N → Type 0 where
    nothing : Picks [] []
    its_own :
        {x : Entry K} {found : List (Entry K)} {nodes : List N}
        → x.name ≡ start
        → Picks found nodes
        → Picks (x ∷ found) nodes
    no_node :
        {x : Entry K} {found : List (Entry K)} {nodes : List N}
        → find_node dec g.nodes x.name ≡ none
        → Picks found nodes
        → Picks (x ∷ found) nodes
    its_node :
        {x : Entry K} {node : N} {found : List (Entry K)} {nodes : List N}
        → x.name ≢ start
        → find_node dec g.nodes x.name ≡ some node
        → Picks found nodes
        → Picks (x ∷ found) (node ∷ nodes)

  emit-own : (x : Entry K) → x.name ≡ start → emit dec g start x ≡ []
  unfolding emit
  emit-own x p = ground (arith, p)

  emit-no_node : (x : Entry K) → find_node dec g.nodes x.name ≡ none → emit dec g start x ≡ []
  unfolding emit
  emit-no_node x e = ground (arith, e)

  emit-node :
      (x : Entry K) (node : N)
      → x.name ≢ start
      → find_node dec g.nodes x.name ≡ some node
      → emit dec g start x ≡ node ∷ []
  unfolding emit
  emit-node x node p e = ground (arith, p, e)

  emit_all-Picks : (found : List (Entry K)) → Picks found (emit_all found)
  emit_all-Picks [] = nothing
  emit_all-Picks (x ∷ xs) =
      let with = λ (l : List N). Picks (x ∷ xs) (l ++ emit_all xs) in
      elim (dec x.name start) [
        | yes p ↦ subst with (sym (emit-own x p)) (its_own p (emit_all-Picks xs))
        | no p ↦ elim (Option-cases (find_node dec g.nodes x.name)) [
          | inl e ↦ subst with (sym (emit-no_node x e)) (no_node e (emit_all-Picks xs))
          | inr (node, e) ↦
              subst with (sym (emit-node x node p e)) (its_node p e (emit_all-Picks xs))
        ]
      ]

  -- From a name that is a node, to a depth that is not 0, the search ends and returns the nodes of
  -- the names that at most so many links reach, but for its own: each name once, nearer names
  -- first, and none is left out that is a node.
  pub traverse_from-Reaches :
      (n : ℕ) (node : N)
      → find_node dec g.nodes start ≡ some node
      → (found : List (Entry K)) × (nodes : List N) × (traverse_from dec g start (pos (suc n))
          ≡ some nodes)
        × Picks found nodes
        × Reaches (suc n) found
  traverse_from-Reaches n node h =
      let universe = all_links g.edges in
      let enough : length (entry start 0 ∷ []) + fresh dec (start ∷ []) universe
          ≤ suc (length universe) =
        omega (arith, fresh_le dec (start ∷ []) universe) in
      let (more, after, e, f) =
        loop-Found (suc (length universe)) (suc n) [] (entry start 0 ∷ []) (entry start 0 ∷ [])
          (start ∷ []) (start-Found (suc n)) enough in
      (
        more,
        emit_all more,
        opened n node h ∙ e,
        emit_all-Picks more,
        record {
          single = f.single;
          rising = f.rising;
          walked = f.walked;
          complete = λ k b w le. reach-Found (suc n) k b more after f w le;
        },
      )
