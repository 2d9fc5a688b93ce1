-- ===== src/Itr/Dag/Ordering.antt =====
-- What `topologicalOrder` returns: the layers of the graph, or the nodes that block each other.
use dragonscale.Prelude.{
  List-cases, ℕ, zero, suc, ◌≤◌, ◌<◌, ◌≡◌, ◌≢◌, refl, sym, ap, ◌∙◌, subst, true, false, List, [],
  ◌∷◌, Option, some, length, arith, inl, inr,
}
use dragonscale.Prelude.Int.{ℤ}
use dragonscale.Itr.Dag.Resolver.{
  NodeState, Order, waves, cycle, ready, ids_of, finished, add_wave, emit_wave, order_from,
  topological_order,
}
use dragonscale.Itr.Dag.Degrees.{mem, has_id, Distinct, degrees, in_degrees-degrees, Settled}
use dragonscale.Itr.Dag.Waves.{
  layer, remaining, done_after, ready-degrees, ids_of-degrees, layer-Runnable, emit_wave-degrees,
}

module _ {K : Type 0} (dec : Discrete K) where
  length-degrees :
      (k : K) (gone done done' : List K) (ns : List (NodeState K))
      → length (degrees dec (k ∷ gone) done ns) ≤ length (degrees dec gone done' ns)
  length-degrees k gone done done' [] = omega arith
  length-degrees k gone done done' (n ∷ ns) = ground (arith, length-degrees k gone done done' ns)

  length-degrees_less :
      (k : K) (gone done done' : List K) (ns : List (NodeState K))
      → has_id dec k ns ≡ true
      → mem dec k gone ≡ false
      → length (degrees dec (k ∷ gone) done ns) < length (degrees dec gone done' ns)
  length-degrees_less k gone done done' [] h m = ground (arith, h)
  length-degrees_less k gone done done' (n ∷ ns) h m = elim (dec n.id k) [
    | yes p ↦
        let there : mem dec n.id gone ≡ false = subst (λ i. mem dec i gone ≡ false) (sym p) m in
        ground (arith, p, there, length-degrees k gone done done' ns)
    | no p ↦ ground (arith, h, m, p, length-degrees_less k gone done done' ns)
  ]

  length-done_after :
      (ks done : List K) (ns : List (NodeState K))
      → length (degrees dec (done_after dec ks done) (done_after dec ks done) ns)
        ≤ length (degrees dec done done ns)
  length-done_after [] done ns = omega arith
  length-done_after (k ∷ ks) done ns =
      omega (arith, length-done_after ks (k ∷ done) ns, length-degrees k done (k ∷ done) done ns)

  layer_head :
      (k : K) (ks done : List K) (ns : List (NodeState K))
      → layer dec done ns ≡ k ∷ ks
      → (has_id dec k ns ≡ true) × (mem dec k done ≡ false)
  layer_head k ks done [] h = absurd (ground (arith, h))
  layer_head k ks done (n ∷ ns) h = ground (arith, h, layer_head k ks done ns)

  order_from_stop :
      (fuel : ℕ) (nodes : List (NodeState K)) (ds : List (K × ℤ))
      → ready ds ≡ []
      → order_from dec (suc fuel) nodes ds ≡ some (finished ds)
  unfolding order_from
  order_from_stop fuel nodes ds h = rw (h, order_from) refl

  order_from_wave :
      (fuel : ℕ) (nodes : List (NodeState K)) (ds : List (K × ℤ)) (k : K) (ks : List K)
      → ready ds ≡ k ∷ ks
      → order_from dec (suc fuel) nodes ds
        ≡ add_wave (k ∷ ks) (order_from dec fuel nodes (emit_wave dec nodes (k ∷ ks) ds))
  unfolding order_from
  order_from_wave fuel nodes ds k ks h =
      rw (h, order_from)
        (ap (λ l. add_wave (k ∷ ks) (order_from dec fuel nodes (emit_wave dec nodes l ds))) h)

module _ {K : Type 0} (dec : Discrete K) (nodes : List (NodeState K)) where
  -- From the nodes that are done on, each wave is every node that is not done and whose
  -- dependencies all are; it is not empty, and after the last one every node is done.
  pub data Layers : List K → List (List K) → Type 0 where
    all_done : {done : List K} → remaining dec done nodes ≡ [] → Layers done []
    wave_then :
        {done : List K} {ws : List (List K)}
        → layer dec done nodes ≢ []
        → Layers (done_after dec (layer dec done nodes) done) ws
        → Layers done (layer dec done nodes ∷ ws)

  -- After some waves the nodes of these ids are left, at least one, and none of them can run.
  pub data Blocked : List K → List K → Type 0 where
    stuck :
        {done : List K}
        → remaining dec done nodes ≢ []
        → layer dec done nodes ≡ []
        → Blocked done (remaining dec done nodes)
    stuck_later :
        {done ks : List K}
        → Blocked (done_after dec (layer dec done nodes) done) ks
        → Blocked done ks

  abbrev pub Meets : List K → Order K → Type 0
  Meets done (waves ws) = Layers done ws
  Meets done (cycle ks) = Blocked done ks

  finished-Meets :
      (done : List K)
      → layer dec done nodes ≡ []
      → Meets done (finished (degrees dec done done nodes))
  unfolding finished ids_of
  finished-Meets done h = go (degrees dec done done nodes) (ids_of-degrees dec done nodes)
    where
      go : (ds : List (K × ℤ)) → ids_of ds ≡ remaining dec done nodes → Meets done (finished ds)
      go [] e = all_done (sym e)
      go (d ∷ ds) e = subst (Blocked done) (sym e) (stuck (λ z. absurd (ground (arith, e ∙ z))) h)

  add_wave-Meets :
      (done : List K) (r : Option (Order K))
      → layer dec done nodes ≢ []
      → ((o : Order K) × (r ≡ some o) × Meets (done_after dec (layer dec done nodes) done) o)
      → (o : Order K) × (add_wave (layer dec done nodes) r ≡ some o) × Meets done o
  unfolding add_wave
  add_wave-Meets done r h (waves ws, e, m) =
      (waves (layer dec done nodes ∷ ws), ap (add_wave (layer dec done nodes)) e, wave_then h m)
  add_wave-Meets done r h (cycle ks, e, m) =
      (cycle ks, ap (add_wave (layer dec done nodes)) e, stuck_later m)

  order_from-Meets :
      (fuel : ℕ) (done : List K)
      → Distinct dec nodes
      → Settled dec done done nodes
      → length (degrees dec done done nodes) < fuel
      → (o : Order K) × (order_from dec fuel nodes (degrees dec done done nodes) ≡ some o)
        × Meets done o
  unfolding order_from
  order_from-Meets zero done d s f = absurd (omega (arith, f))
  order_from-Meets (suc fuel) done d s f =
      let w = layer dec done nodes in
      let emitted = emit_wave-degrees dec w done nodes d s (layer-Runnable dec done nodes d) in
      elim (List-cases w) [
        | inl e ↦ (
          finished (degrees dec done done nodes),
          order_from_stop dec fuel nodes _ (ready-degrees dec done nodes ∙ e),
          finished-Meets done e,
        )
        | inr (k, ks, e) ↦
            let (there, not_yet) = layer_head dec k ks done nodes e in
            let later = done_after dec w done in
            let less : length (degrees dec later later nodes)
                < length (degrees dec done done nodes) =
              subst
                (λ l.
                  length (degrees dec (done_after dec l done) (done_after dec l done) nodes)
                  < length (degrees dec done done nodes))
                (sym e)
                (omega (
                  arith,
                  length-done_after dec ks (k ∷ done) nodes,
                  length-degrees_less dec k done (k ∷ done) done nodes there not_yet,
                )) in
            let rest = order_from-Meets fuel later d emitted.1 (omega (arith, f, less)) in
            let run =
              add_wave-Meets done (order_from dec fuel nodes (degrees dec later later nodes))
                (λ z. absurd (ground (arith, e, z))) rest in
            (
              run.0,
              order_from_wave dec fuel nodes (degrees dec done done nodes) k ks
                    (ready-degrees dec done nodes ∙ e)
                  ∙ ap
                      (λ l. add_wave l (
                        order_from dec fuel nodes
                          (emit_wave dec nodes l (degrees dec done done nodes))))
                      (sym e)
                  ∙ ap (λ l. add_wave w (order_from dec fuel nodes l)) emitted.0
                  ∙ run.1,
              run.2,
            )
      ]

  -- The loop always ends. When no two nodes have the same id it gives either the waves, each of
  -- which is all the nodes that are not in an earlier one and whose dependencies all are, until
  -- every node is in one, or, as the error, the nodes that are left when none can run.
  pub topological_order-Meets :
      Distinct dec nodes → (o : Order K) × (topological_order dec nodes ≡ some o) × Meets [] o
  unfolding topological_order
  topological_order-Meets d =
      rw (in_degrees-degrees dec nodes)
        (order_from-Meets (suc (length nodes)) [] d (Settled_nil nodes) (length_le nodes))
    where
      Settled_nil : (ns : List (NodeState K)) → Settled dec [] [] ns
      Settled_nil [] = tt
      Settled_nil (n ∷ ns) = (λ h. absurd (ground (arith, h)), Settled_nil ns)

      length_le : (ns : List (NodeState K)) → length (degrees dec [] [] ns) < suc (length ns)
      length_le [] = omega arith
      length_le (n ∷ ns) = omega (arith, length_le ns)
