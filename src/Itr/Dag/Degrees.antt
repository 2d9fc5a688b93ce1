-- ===== src/Itr/Dag/Degrees.antt =====
-- The in-degrees that `topologicalOrder` keeps are the numbers of dependencies that are not done.
use dragonscale.Prelude.{
  Memᴰ, Mem-cons, ℕ, suc, ◌+◌, ◌≡◌, ◌≢◌, refl, sym, ap, ◌∙◌, subst, Bool, true, false, ◌||◌, List,
  [], ◌∷◌, ◌++◌, length, ite, if_neg, if◌then◌else◌, arith, Bool-cases, inl, inr,
}
use dragonscale.Prelude.Int.{ℤ, pos}
use dragonscale.Itr.Dag.Resolver.{
  NodeState, less_one, in_degrees, delete, decrement, decrement_each, dependent, dependents,
}

module _ {K : Type 0} (dec : Discrete K) where
  abbrev pub mem : K → List K → Bool
  mem k [] = false
  mem k (j ∷ js) = ite (dec j k) true (mem k js)

  -- How many of the dependencies are not done.
  abbrev pub missing : List K → List K → ℕ
  missing done [] = 0
  missing done (d ∷ deps) = let rest = missing done deps in if mem d done then rest else suc rest

  pub missing-mem :
      (d : K) (done deps : List K) → missing done deps ≡ 0 → Memᴰ d deps → mem d done ≡ true
  missing-mem d done [] h m = elim m [ ]
  missing-mem d done (e ∷ deps) h m = elim (Mem-cons m) [
    | inl p ↦ subst (λ i. mem i done ≡ true) (sym p) (ground (arith, h))
    | inr t ↦ missing-mem d done deps (ground (arith, h)) t
  ]

  abbrev times : K → List K → ℕ
  times k [] = 0
  times k (d ∷ deps) = let rest = times k deps in ite (dec d k) (suc rest) rest

  -- No id is there twice.
  abbrev pub has_id : K → List (NodeState K) → Bool
  has_id k [] = false
  has_id k (n ∷ ns) = ite (dec n.id k) true (has_id k ns)

  abbrev pub Distinct : List (NodeState K) → Type 0
  Distinct [] = Unit
  Distinct (n ∷ ns) = (has_id n.id ns ≡ false) × Distinct ns

  -- The degrees of the nodes that are not removed, when `done` are done.
  abbrev pub degrees : List K → List K → List (NodeState K) → List (K × ℤ)
  degrees gone done [] = []
  degrees gone done (n ∷ ns) =
      let rest = degrees gone done ns in
      if mem n.id gone then rest else (n.id, pos (missing done n.depends_on)) ∷ rest

  missing_nil : (deps : List K) → missing [] deps ≡ length deps
  missing_nil [] = refl
  missing_nil (d ∷ deps) = ap suc (missing_nil deps)

  pub in_degrees-degrees : (ns : List (NodeState K)) → in_degrees ns ≡ degrees [] [] ns
  unfolding in_degrees
  in_degrees-degrees [] = refl
  in_degrees-degrees (n ∷ ns) = rw (missing_nil n.depends_on, in_degrees-degrees ns) refl

  degrees_fresh :
      (k : K) (gone done : List K) (ns : List (NodeState K))
      → has_id k ns ≡ false
      → degrees (k ∷ gone) done ns ≡ degrees gone done ns
  degrees_fresh k gone done [] h = refl
  degrees_fresh k gone done (n ∷ ns) h = elim (dec n.id k) [
    | yes p ↦ absurd (ground (arith, h, p))
    | no p ↦ ground (arith, h, p, degrees_fresh k gone done ns)
  ]

  pub delete-degrees :
      (k : K) (gone done : List K) (ns : List (NodeState K))
      → Distinct ns
      → delete dec k (degrees gone done ns) ≡ degrees (k ∷ gone) done ns
  unfolding delete
  delete-degrees k gone done [] d = refl
  delete-degrees k gone done (n ∷ ns) d = elim (dec n.id k) [
    | yes p ↦ elim (Bool-cases (mem n.id gone)) [
      | inl m ↦ ground (arith, m, p, delete-degrees k gone done ns d.1)
      | inr m ↦
          let fresh : has_id k ns ≡ false = subst (λ i. has_id i ns ≡ false) p d.0 in
          ground (arith, m, p, degrees_fresh k gone done ns fresh)
    ]
    | no p ↦ ground (arith, p, delete-degrees k gone done ns d.1)
  ]

  decrement_other :
      (j : K) (d : ℤ) (ks : List K) (ds : List (K × ℤ))
      → mem j ks ≡ false
      → decrement_each dec ks ((j, d) ∷ ds) ≡ (j, d) ∷ decrement_each dec ks ds
  unfolding decrement_each decrement
  decrement_other j d [] ds h = refl
  decrement_other j d (k ∷ ks) ds h = elim (dec j k) [
    | yes p ↦ absurd (ground (arith, h, p))
    | no p ↦
        ap (decrement_each dec ks)
          (if_neg (dec j k) p ((j, less_one d) ∷ ds) ((j, d) ∷ decrement dec k ds))
        ∙ decrement_other j d ks (decrement dec k ds) (ground (arith, h, p))
  ]

  decrement_dependent :
      (k id : K) (deps ks : List K) (m : ℕ) (ds : List (K × ℤ))
      → decrement_each dec (dependent dec k id deps ++ ks) ((id, pos (times k deps + m)) ∷ ds)
        ≡ decrement_each dec ks ((id, pos m) ∷ ds)
  unfolding decrement_each decrement dependent less_one
  decrement_dependent k id [] ks m ds =
      ap (λ n. decrement_each dec ks ((id, pos n) ∷ ds)) (omega arith)
  decrement_dependent k id (d ∷ deps) ks m ds = elim (dec d k) [
    | yes p ↦
        let next : suc (times k deps) + m ≡ suc (times k deps + m) = omega arith in
        ground (arith, p, next, decrement_dependent k id deps ks m ds)
    | no p ↦ ground (arith, p, decrement_dependent k id deps ks m ds)
  ]

  dependent_none : (k id : K) (deps : List K) → times k deps ≡ 0 → dependent dec k id deps ≡ []
  unfolding dependent
  dependent_none k id [] h = refl
  dependent_none k id (d ∷ deps) h = ground (arith, h, dependent_none k id deps)

  mem-append : (j : K) (ks ls : List K) → mem j (ks ++ ls) ≡ (mem j ks || mem j ls)
  mem-append j [] ls = refl
  mem-append j (k ∷ ks) ls = ground (arith, mem-append j ks ls)

  mem-dependent : (j k id : K) (deps : List K) → id ≢ j → mem j (dependent dec k id deps) ≡ false
  unfolding dependent
  mem-dependent j k id [] h = refl
  mem-dependent j k id (d ∷ deps) h = ground (arith, h, mem-dependent j k id deps h)

  mem-dependents :
      (j k : K) (ns : List (NodeState K))
      → has_id j ns ≡ false
      → mem j (dependents dec ns k) ≡ false
  unfolding dependents
  mem-dependents j k [] h = refl
  mem-dependents j k (n ∷ ns) h = elim (dec n.id j) [
    | yes p ↦ absurd (ground (arith, h, p))
    | no p ↦ ground (
      arith,
      h,
      p,
      mem-append j (dependent dec k n.id n.depends_on) (dependents dec ns k),
      mem-dependent j k n.id n.depends_on p,
      mem-dependents j k ns,
    )
  ]

  missing-times :
      (k : K) (done deps : List K)
      → mem k done ≡ false
      → missing done deps ≡ times k deps + missing (k ∷ done) deps
  missing-times k done [] h = omega arith
  missing-times k done (d ∷ deps) h = elim (dec d k) [
    | yes p ↦
        let same : mem d done ≡ false = subst (λ i. mem i done ≡ false) (sym p) h in
        ground (arith, p, same, missing-times k done deps h)
    | no p ↦ ground (arith, p, missing-times k done deps h)
  ]

  -- A node that is gone has no dependency that is not done.
  abbrev pub Settled : List K → List K → List (NodeState K) → Type 0
  Settled gone done [] = Unit
  Settled gone done (n ∷ ns) =
      (mem n.id gone ≡ true → missing done n.depends_on ≡ 0) × Settled gone done ns

  -- Taking one from each dependent of a node that is done now, once for each of its dependencies
  -- on the node, gives the degrees with the node done.
  pub decrement_each-degrees :
      (k : K) (gone done : List K) (ns : List (NodeState K))
      → Distinct ns
      → mem k done ≡ false
      → Settled gone done ns
      → decrement_each dec (dependents dec ns k) (degrees gone done ns) ≡ degrees gone (k ∷ done) ns
  unfolding decrement_each dependents
  decrement_each-degrees k gone done [] d h s = refl
  decrement_each-degrees k gone done (n ∷ ns) d h s = elim (Bool-cases (mem n.id gone)) [
    | inl m ↦
        let unused : times k n.depends_on ≡ 0 =
          omega (arith, s.0 m, missing-times k done n.depends_on h) in
        rw (m, dependent_none k n.id n.depends_on unused)
          (decrement_each-degrees k gone done ns d.1 h s.1)
    | inr m ↦
        rw (m, missing-times k done n.depends_on h)
          (decrement_dependent k n.id n.depends_on (dependents dec ns k)
              (missing (k ∷ done) n.depends_on) (degrees gone done ns)
            ∙ decrement_other n.id (pos (missing (k ∷ done) n.depends_on)) (dependents dec ns k)
                (degrees gone done ns) (mem-dependents n.id k ns d.0)
            ∙ ap (λ l. (n.id, pos (missing (k ∷ done) n.depends_on)) ∷ l)
                (decrement_each-degrees k gone done ns d.1 h s.1))
  ]
