-- ===== src/Itr/Dag/Waves.antt =====
-- Each wave of `topologicalOrder` is the nodes that are not done and whose dependencies all are.
use dragonscale.Prelude.{
  ℕ, zero, suc, ◌≤◌, ◌≡◌, refl, sym, ap, ◌∙◌, true, false, not, ◌&&◌, List, [], ◌∷◌, if◌then◌else◌,
  ◌==◌, arith, Bool-cases, inl, inr,
}
use dragonscale.Prelude.Int.{pos}
use dragonscale.Itr.Dag.Resolver.{
  NodeState, ready, decrement_each, dependents, emit_wave, is_zero, ids_of,
}
use dragonscale.Itr.Dag.Degrees.{
  mem, missing, has_id, Distinct, degrees, delete-degrees, Settled, decrement_each-degrees,
}

module _ {K : Type 0} (dec : Discrete K) where
  -- The nodes that can run next.
  abbrev pub layer : List K → List (NodeState K) → List K
  layer done [] = []
  layer done (n ∷ ns) =
      let rest = layer done ns in
      if not (mem dec n.id done) && (missing dec done n.depends_on == 0) then n.id ∷ rest else rest

  -- The nodes that are not done.
  abbrev pub remaining : List K → List (NodeState K) → List K
  remaining done [] = []
  remaining done (n ∷ ns) =
      let rest = remaining done ns in if mem dec n.id done then rest else n.id ∷ rest

  abbrev pub done_after : List K → List K → List K
  done_after [] done = done
  done_after (k ∷ ks) done = done_after ks (k ∷ done)

  pub ready-degrees :
      (done : List K) (ns : List (NodeState K)) → ready (degrees dec done done ns) ≡ layer done ns
  unfolding ready is_zero
  ready-degrees done [] = refl
  ready-degrees done (n ∷ ns) = elim (Bool-cases (mem dec n.id done)) [
    | inl m ↦ rw (m) (ready-degrees done ns)
    | inr m ↦ rw (m) (step (missing dec done n.depends_on) _ _ (ready-degrees done ns))
  ]
    where
      step :
          (c : ℕ) (rs ls : List K)
          → rs ≡ ls
          → (elim (is_zero (pos c)) as (λ x. List K) [ true ↦ n.id ∷ rs | false ↦ rs ])
            ≡ (if true && (c == 0) then n.id ∷ ls else ls)
      step zero rs ls h = ap (λ l. n.id ∷ l) h
      step (suc c) rs ls h = ground (arith, h)

  pub ids_of-degrees :
      (done : List K) (ns : List (NodeState K))
      → ids_of (degrees dec done done ns) ≡ remaining done ns
  unfolding ids_of
  ids_of-degrees done [] = refl
  ids_of-degrees done (n ∷ ns) = ground (arith, ids_of-degrees done ns)

  pub missing_more :
      (k : K) (done deps : List K) → missing dec (k ∷ done) deps ≤ missing dec done deps
  missing_more k done [] = omega arith
  missing_more k done (d ∷ deps) = ground (arith, missing_more k done deps)

  -- A node of this id has no dependency that is not done.
  abbrev pub Free : K → List K → List (NodeState K) → Type 0
  Free k done [] = Unit
  Free k done (n ∷ ns) = (n.id ≡ k → missing dec done n.depends_on ≡ 0) × Free k done ns

  missing-Free :
      (j k : K) (done : List K) (ns : List (NodeState K)) → Free k done ns → Free k (j ∷ done) ns
  missing-Free j k done [] f = tt
  missing-Free j k done (n ∷ ns) f =
      (λ p. omega (arith, f.0 p, missing_more j done n.depends_on), missing-Free j k done ns f.1)

  has_id-Free :
      (k : K) (done : List K) (ns : List (NodeState K)) → has_id dec k ns ≡ false → Free k done ns
  has_id-Free k done [] h = tt
  has_id-Free k done (n ∷ ns) h = elim (dec n.id k) [
    | yes p ↦ absurd (ground (arith, h, p))
    | no p ↦ (λ q. absurd (p q), has_id-Free k done ns (ground (arith, h, p)))
  ]

  missing-Settled :
      (j : K) (gone done : List K) (ns : List (NodeState K))
      → Settled dec gone done ns
      → Settled dec gone (j ∷ done) ns
  missing-Settled j gone done [] s = tt
  missing-Settled j gone done (n ∷ ns) s = (
    λ p. omega (arith, s.0 p, missing_more j done n.depends_on),
    missing-Settled j gone done ns s.1,
  )

  Free-Settled :
      (k : K) (done : List K) (ns : List (NodeState K))
      → Settled dec done done ns
      → Free k done ns
      → Settled dec (k ∷ done) done ns
  Free-Settled k done [] s f = tt
  Free-Settled k done (n ∷ ns) s f = (
    λ m. elim (dec k n.id) [ yes p ↦ f.0 (sym p) | no p ↦ s.0 (ground (arith, m, p)) ],
    Free-Settled k done ns s.1 f.1,
  )

  -- A wave that can run: its ids are different, not done, and free.
  abbrev pub Runnable : List K → List K → List (NodeState K) → Type 0
  Runnable [] done ns = Unit
  Runnable (k ∷ ks) done ns =
      (mem dec k ks ≡ false) × (mem dec k done ≡ false) × Free k done ns × Runnable ks done ns

  pub missing-Runnable :
      (k : K) (ks done : List K) (ns : List (NodeState K))
      → mem dec k ks ≡ false
      → Runnable ks done ns
      → Runnable ks (k ∷ done) ns
  missing-Runnable k [] done ns h r = tt
  missing-Runnable k (j ∷ ks) done ns h r = elim (dec j k) [
    | yes p ↦ absurd (ground (arith, h, p))
    | no p ↦ (
      r.0,
      ground (arith, r.1, p),
      missing-Free k j done ns r.2,
      missing-Runnable k ks done ns (ground (arith, h, p)) r.3,
    )
  ]

  mem-Runnable :
      (n : NodeState K) (ks done : List K) (ns : List (NodeState K))
      → mem dec n.id ks ≡ false
      → Runnable ks done ns
      → Runnable ks done (n ∷ ns)
  mem-Runnable n [] done ns h r = tt
  mem-Runnable n (k ∷ ks) done ns h r = elim (dec k n.id) [
    | yes p ↦ absurd (ground (arith, h, p))
    | no p ↦ (
      r.0,
      r.1,
      (λ q. absurd (p (sym q)), r.2),
      mem-Runnable n ks done ns (ground (arith, h, p)) r.3,
    )
  ]

  mem-layer :
      (k : K) (done : List K) (ns : List (NodeState K))
      → has_id dec k ns ≡ false
      → mem dec k (layer done ns) ≡ false
  mem-layer k done [] h = refl
  mem-layer k done (n ∷ ns) h = elim (dec n.id k) [
    | yes p ↦ absurd (ground (arith, h, p))
    | no p ↦ ground (arith, h, p, mem-layer k done ns)
  ]

  pub layer-Runnable :
      (done : List K) (ns : List (NodeState K)) → Distinct dec ns → Runnable (layer done ns) done ns
  layer-Runnable done [] d = tt
  layer-Runnable done (n ∷ ns) d =
      let fresh = mem-layer n.id done ns d.0 in
      let rest = mem-Runnable n (layer done ns) done ns fresh (layer-Runnable done ns d.1) in
      elim (Bool-cases (not (mem dec n.id done) && (missing dec done n.depends_on == 0))) [
        | inl h ↦
            rw (h) (
              fresh,
              ground (arith, h),
              (λ p. ground (arith, h), has_id-Free n.id done ns d.0),
              rest,
            )
        | inr h ↦ rw (h) rest
      ]

  -- Emitting a wave that can run gives the degrees with the wave done, and leaves no node done that
  -- has a dependency that is not.
  pub emit_wave-degrees :
      (ks done : List K) (ns : List (NodeState K))
      → Distinct dec ns
      → Settled dec done done ns
      → Runnable ks done ns
      → (emit_wave dec ns ks (degrees dec done done ns)
          ≡ degrees dec (done_after ks done) (done_after ks done) ns)
        × Settled dec (done_after ks done) (done_after ks done) ns
  unfolding emit_wave
  emit_wave-degrees [] done ns d s r = (refl, s)
  emit_wave-degrees (k ∷ ks) done ns d s r =
      let gone = Free-Settled k done ns s r.2 in
      let next =
        emit_wave-degrees ks (k ∷ done) ns d (missing-Settled k (k ∷ done) done ns gone)
          (missing-Runnable k ks done ns r.0 r.3) in
      (
        ap (λ l. emit_wave dec ns ks (decrement_each dec (dependents dec ns k) l))
              (delete-degrees dec k done done ns d)
            ∙ ap (emit_wave dec ns ks) (decrement_each-degrees dec k (k ∷ done) done ns d r.1 gone)
            ∙ next.0,
        next.1,
      )
