-- ===== src/Itr/Dag/Blocking.antt =====
-- What the cycle error of `topologicalOrder` says of the graph.
use dragonscale.Prelude.{
  Bool-cases, inl, inr, false, refl, not, ◌||◌, ◌≡◌, ◌≢◌, ap, subst, Bool, true, ◌&&◌, List, [],
  ◌∷◌, some, if◌then◌else◌, arith,
}
use dragonscale.Itr.Dag.Resolver.{NodeState, Order, waves, cycle, topological_order}
use dragonscale.Itr.Dag.Degrees.{mem, missing, has_id, Distinct}
use dragonscale.Itr.Dag.Waves.{layer, remaining}
use dragonscale.Itr.Dag.Ordering.{Blocked, stuck, stuck_later, Meets, topological_order-Meets}

module _ {K : Type 0} (dec : Discrete K) where
  pub mem-remaining :
      (k : K) (done : List K) (ns : List (NodeState K))
      → mem dec k (remaining dec done ns) ≡ (has_id dec k ns && not (mem dec k done))
  mem-remaining k done [] = refl
  mem-remaining k done (n ∷ ns) = elim (dec n.id k) [
    | yes p ↦
        let same : mem dec n.id done ≡ mem dec k done = ap (λ i. mem dec i done) p in
        ground (arith, p, same, mem-remaining k done ns)
    | no p ↦ ground (arith, p, mem-remaining k done ns)
  ]

  module _ (nodes : List (NodeState K)) where
    -- One of the dependencies is among these ids, or is no node.
    abbrev pub waits : List K → List K → Bool
    waits ks [] = false
    waits ks (d ∷ deps) =
        let rest = waits ks deps in if mem dec d ks || not (has_id dec d nodes) then true else rest

    missing-waits :
        (done deps : List K)
        → missing dec done deps ≢ 0
        → waits (remaining dec done nodes) deps ≡ true
    missing-waits done [] h = absurd (h refl)
    missing-waits done (d ∷ deps) h =
        ground (arith, h, mem-remaining d done nodes, missing-waits done deps)

    -- Each node of these ids waits for another of them, or for what is no node.
    abbrev pub AllWait : List K → List (NodeState K) → Type 0
    AllWait ks [] = Unit
    AllWait ks (n ∷ ns) = ((not (mem dec n.id ks) || waits ks n.depends_on) ≡ true) × AllWait ks ns

    layer_wait :
        (done : List K) (ns : List (NodeState K))
        → layer dec done ns ≡ []
        → AllWait (remaining dec done nodes) ns
    layer_wait done [] h = tt
    layer_wait done (n ∷ ns) h =
        let left = mem dec n.id (remaining dec done nodes) in
        let waiting : (left ≡ true) → waits (remaining dec done nodes) n.depends_on ≡ true = λ m.
          missing-waits done n.depends_on
            (λ z. absurd (ground (arith, h, m, z, mem-remaining n.id done nodes))) in
        (
          elim (Bool-cases left) [ inl m ↦ rw (m, waiting m) refl | inr m ↦ rw (m) refl ],
          layer_wait done ns (ground (arith, h)),
        )

    Blocked-AllWait : (done ks : List K) → Blocked dec nodes done ks → (ks ≢ []) × AllWait ks nodes
    Blocked-AllWait done _ (stuck left none_runs) = (left, layer_wait done nodes none_runs)
    Blocked-AllWait done ks (stuck_later b) = Blocked-AllWait _ ks b

    -- When no two nodes have the same id, the cycle error names at least one node, and each node
    -- that it names depends on another that it names, or on an id that is no node.
    pub topological_order-AllWait :
        (ks : List K)
        → Distinct dec nodes
        → topological_order dec nodes ≡ some (cycle ks)
        → (ks ≢ []) × AllWait ks nodes
    topological_order-AllWait ks d h = from (topological_order-Meets dec nodes d)
      where
        from :
            ((o : Order K) × (topological_order dec nodes ≡ some o) × Meets dec nodes [] o)
            → (ks ≢ []) × AllWait ks nodes
        from (waves ws, e, m) = absurd (ground (arith, h, e))
        from (cycle js, e, m) =
            let same : js ≡ ks = ground (arith, h, e) in
            Blocked-AllWait [] ks (subst (Blocked dec nodes []) same m)
