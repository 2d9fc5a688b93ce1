-- ===== src/Itr/Dag/Planner/Ranks.antt =====
-- The topological order of pkg/itr/dag/resolver.go finds waves just when the nodes can be ranked.
use dragonscale.Prelude.{
  ℕ, zero, suc, ◌<◌, ◌≡◌, ◌≢◌, refl, sym, ap, subst, true, false, ◌||◌, List, [], ◌∷◌, Memᴰ,
  Mem-cons, some, if◌then◌else◌, arith, Bool-cases, inl, inr,
}
use dragonscale.Itr.Dag.Resolver.{NodeState, Order, waves, cycle, topological_order}
use dragonscale.Itr.Dag.Degrees.{mem, missing, missing-mem, has_id, Distinct}
use dragonscale.Itr.Dag.Waves.{layer, done_after, Free, Runnable, layer-Runnable}
use dragonscale.Itr.Dag.Ordering.{
  Layers, all_done, wave_then, Blocked, stuck, stuck_later, Meets, topological_order-Meets,
}
use dragonscale.Itr.Dag.Blocking.{mem-remaining, waits, AllWait, topological_order-AllWait}

module _ {K : Type 0} (dec : Discrete K) where
  -- Each dependency of a node has a lower rank than the node.
  abbrev pub Ranked : List (NodeState K) → (K → ℕ) → Type 0
  Ranked nodes rank =
      (s : NodeState K) → Memᴰ s nodes → (d : K) → Memᴰ d s.depends_on → rank d < rank s.id

  -- The index of the wave that a node is in.
  abbrev pub wave_of : List (List K) → K → ℕ
  wave_of [] k = 0
  wave_of (w ∷ ws) k = let later = wave_of ws k in if mem dec k w then 0 else suc later

  pub Mem-has_id :
      (s : NodeState K) (ns : List (NodeState K)) → Memᴰ s ns → has_id dec s.id ns ≡ true
  Mem-has_id s [] m = elim m [ ]
  Mem-has_id s (n ∷ ns) m = elim (Mem-cons m) [
    | inl p ↦ let same : s.id ≡ n.id = ap (λ x. x.id) p in ground (arith, same)
    | inr t ↦ ground (arith, Mem-has_id s ns t)
  ]

  mem-done_after :
      (j : K) (ks done : List K)
      → mem dec j (done_after dec ks done) ≡ (mem dec j ks || mem dec j done)
  mem-done_after j [] done = refl
  mem-done_after j (k ∷ ks) done = ground (arith, mem-done_after j ks (k ∷ done))

  Runnable-Free :
      (k : K) (ks done : List K) (ns : List (NodeState K))
      → Runnable dec ks done ns
      → mem dec k ks ≡ true
      → Free dec k done ns
  Runnable-Free k [] done ns r m = absurd (ground (arith, m))
  Runnable-Free k (j ∷ ks) done ns r m = elim (dec j k) [
    | yes p ↦ subst (λ i. Free dec i done ns) p r.2
    | no p ↦ Runnable-Free k ks done ns r.3 (ground (arith, m, p))
  ]

  Free-missing :
      (s : NodeState K) (done : List K) (ns : List (NodeState K))
      → Free dec s.id done ns
      → Memᴰ s ns
      → missing dec done s.depends_on ≡ 0
  Free-missing s done [] f m = elim m [ ]
  Free-missing s done (n ∷ ns) f m = elim (Mem-cons m) [
    | inl p ↦ subst (λ x. missing dec done x.depends_on ≡ 0) (sym p) (f.0 (sym (ap (λ x. x.id) p)))
    | inr t ↦ Free-missing s done ns f.1 t
  ]

  module _ (nodes : List (NodeState K)) (distinct : Distinct dec nodes) where
    wave_of-lt :
        (done : List K) (ws : List (List K))
        → Layers dec nodes done ws
        → (s : NodeState K) (d : K) → Memᴰ s nodes
        → Memᴰ d s.depends_on
        → mem dec s.id done ≡ false
        → mem dec d done ≡ false
        → wave_of ws d < wave_of ws s.id
    wave_of-lt done [] (all_done e) s d m c ms md = absurd (
        ground
          (arith, Mem-has_id s nodes m, ms, mem-remaining dec s.id done nodes, ap (mem dec s.id) e))
    wave_of-lt done _ (wave_then {ws = ws} ne rest) s d m c ms md =
        let w = layer dec done nodes in
        elim (Bool-cases (mem dec s.id w)) [
          | inl h ↦
              let free =
                Runnable-Free s.id w done nodes (layer-Runnable dec done nodes distinct) h in
              absurd (
                ground (
                  arith,
                  md,
                  missing-mem dec d done s.depends_on (Free-missing s done nodes free m) c,
                ))
          | inr h ↦ elim (Bool-cases (mem dec d w)) [
            | inl hd ↦ rw (h, hd) (omega arith)
            | inr hd ↦
                let later =
                  wave_of-lt (done_after dec w done) ws rest s d m c
                    (rw (mem-done_after s.id w done, h, ms) refl)
                    (rw (mem-done_after d w done, hd, md) refl) in
                rw (h, hd) (omega (arith, later))
          ]
        ]

    pub waves-Ranked :
        (ws : List (List K))
        → topological_order dec nodes ≡ some (waves ws)
        → Ranked nodes (wave_of ws)
    waves-Ranked ws h s m d c = from (topological_order-Meets dec nodes distinct)
      where
        from :
            ((o : Order K) × (topological_order dec nodes ≡ some o) × Meets dec nodes [] o)
            → wave_of ws d < wave_of ws s.id
        from (cycle ks, e, x) = absurd (ground (arith, h, e))
        from (waves vs, e, x) =
            let same : vs ≡ ws = ground (arith, h, e) in
            wave_of-lt [] ws (subst (Layers dec nodes []) same x) s d m c refl refl

  -- One that waits for a node of these ids waits for one of a lower rank.
  waits-lt :
      (nodes : List (NodeState K)) (ks : List K) (rank : K → ℕ) (r : ℕ) (deps : List K)
      → ((d : K) → Memᴰ d deps → rank d < r)
      → ((d : K) → Memᴰ d deps → has_id dec d nodes ≡ true)
      → waits dec nodes ks deps ≡ true
      → (d : K) × (mem dec d ks ≡ true) × (rank d < r)
  waits-lt nodes ks rank r [] low known h = absurd (ground (arith, h))
  waits-lt nodes ks rank r (d ∷ deps) low known h = elim (Bool-cases (mem dec d ks)) [
    | inl m ↦ (d, m, low d (Memᴰ.head refl))
    | inr m ↦
        waits-lt nodes ks rank r deps (λ e x. low e (Memᴰ.tail x)) (λ e x. known e (Memᴰ.tail x))
          (ground (arith, h, m, known d (Memᴰ.head refl)))
  ]

  AllWait-lt :
      (nodes : List (NodeState K)) (ks : List K) (rank : K → ℕ) (k : K) (ns : List (NodeState K))
      → Ranked ns rank
      → ((s : NodeState K) → Memᴰ s ns → (d : K) → Memᴰ d s.depends_on → has_id dec d nodes ≡ true)
      → AllWait dec nodes ks ns
      → mem dec k ks ≡ true
      → has_id dec k ns ≡ true
      → (d : K) × (mem dec d ks ≡ true) × (rank d < rank k)
  AllWait-lt nodes ks rank k [] low known a m h = absurd (ground (arith, h))
  AllWait-lt nodes ks rank k (n ∷ ns) low known a m h = elim (dec n.id k) [
    | yes p ↦
        let waiting : waits dec nodes ks n.depends_on ≡ true =
          ground (arith, a.0, subst (λ i. mem dec i ks ≡ true) (sym p) m) in
        subst (λ i. (d : K) × (mem dec d ks ≡ true) × (rank d < rank i)) p
          (waits-lt nodes ks rank (rank n.id) n.depends_on (low n (Memᴰ.head refl))
            (known n (Memᴰ.head refl)) waiting)
    | no p ↦
        AllWait-lt nodes ks rank k ns (λ s x. low s (Memᴰ.tail x)) (λ s x. known s (Memᴰ.tail x))
          a.1 m (ground (arith, h, p))
  ]

  Blocked-has_id :
      (nodes : List (NodeState K)) (done ks : List K)
      → Blocked dec nodes done ks
      → (k : K) → mem dec k ks ≡ true
      → has_id dec k nodes ≡ true
  Blocked-has_id nodes done _ (stuck left none_runs) k m =
      ground (arith, m, mem-remaining dec k done nodes)
  Blocked-has_id nodes done ks (stuck_later b) k m = Blocked-has_id nodes _ ks b k m

  -- No rank is the lowest among nodes that each wait for another.
  AllWait-none :
      (nodes : List (NodeState K)) (ks : List K) (rank : K → ℕ)
      → Ranked nodes rank
      → ((s : NodeState K)
          → Memᴰ s nodes
          → (d : K) → Memᴰ d s.depends_on
          → has_id dec d nodes ≡ true)
      → AllWait dec nodes ks nodes
      → ((k : K) → mem dec k ks ≡ true → has_id dec k nodes ≡ true)
      → (r : ℕ) (k : K) → rank k < r
      → mem dec k ks ≢ true
  AllWait-none nodes ks rank low known a there zero k less m = absurd (omega (arith, less))
  AllWait-none nodes ks rank low known a there (suc r) k less m =
      let (d, md, lower) = AllWait-lt nodes ks rank k nodes low known a m (there k m) in
      AllWait-none nodes ks rank low known a there r d (omega (arith, less, lower)) md

  pub Ranked-waves :
      (nodes : List (NodeState K)) (rank : K → ℕ)
      → Distinct dec nodes
      → Ranked nodes rank
      → ((s : NodeState K)
          → Memᴰ s nodes
          → (d : K) → Memᴰ d s.depends_on
          → has_id dec d nodes ≡ true)
      → (ws : List (List K)) × (topological_order dec nodes ≡ some (waves ws))
  Ranked-waves nodes rank distinct low known = from (topological_order-Meets dec nodes distinct)
    where
      from :
          ((o : Order K) × (topological_order dec nodes ≡ some o) × Meets dec nodes [] o)
          → (ws : List (List K)) × (topological_order dec nodes ≡ some (waves ws))
      from (waves ws, e, x) = (ws, e)
      from (cycle ks, e, x) =
          let (some_left, all_wait) = topological_order-AllWait dec nodes ks distinct e in
          absurd (
            AllWait-none nodes ks rank low known all_wait (Blocked-has_id nodes [] ks x)
              (suc (rank (first ks some_left))) (first ks some_left) (omega arith)
              (first_mem ks some_left))
        where
          first : (l : List K) → l ≢ [] → K
          first [] h = absurd (h refl)
          first (k ∷ l) h = k

          first_mem : (l : List K) (h : l ≢ []) → mem dec (first l h) l ≡ true
          first_mem [] h = absurd (h refl)
          first_mem (k ∷ l) h = ground arith
