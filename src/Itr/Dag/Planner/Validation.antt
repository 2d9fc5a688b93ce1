-- ===== src/Itr/Dag/Planner/Validation.antt =====
-- The loops of `validatePlan` of pkg/itr/dag/planner.go, from what they find and to it.
use dragonscale.Prelude.{
  ◌≡◌, ◌≢◌, refl, sym, subst, true, false, List, [], ◌∷◌, none, Memᴰ, Mem-cons, arith, Bool-cases,
  inl, inr,
}
use dragonscale.Itr.Dag.Degrees.{mem, has_id, Distinct}
use dragonscale.Itr.Dag.Plan.{PlanNode}
use dragonscale.Itr.Dag.Planner.{validate_ids, validate_deps, validate_edges}
use dragonscale.Itr.Dag.Planner.States.{as_states, has_id-ne}

module _ {K : Type 0} (dec : Discrete K) where
  validate_deps_sound :
      (ids : List K) (id : K) (deps : List K)
      → validate_deps dec ids id deps ≡ none
      → (d : K) → Memᴰ d deps
      → mem dec d ids ≡ true
  unfolding validate_deps
  validate_deps_sound ids id [] h d m = elim m [ ]
  validate_deps_sound ids id (e ∷ deps) h d m = elim (Mem-cons m) [
    | inl p ↦ subst (λ i. mem dec i ids ≡ true) (sym p) (ground (arith, h))
    | inr t ↦ validate_deps_sound ids id deps (ground (arith, h)) d t
  ]

  validate_deps_complete :
      (ids : List K) (id : K) (deps : List K)
      → ((d : K) → Memᴰ d deps → (mem dec d ids ≡ true) × (d ≢ id))
      → validate_deps dec ids id deps ≡ none
  unfolding validate_deps
  validate_deps_complete ids id [] each = refl
  validate_deps_complete ids id (e ∷ deps) each =
      let (there, other) = each e (Memᴰ.head refl) in
      ground (arith, there, other, validate_deps_complete ids id deps (λ d m. each d (Memᴰ.tail m)))

module _ {K P : Type 0} (dec : Discrete K) where
  -- The loop over the ids: none is empty, seen before or there twice.
  pub validate_ids_sound :
      (blank : K) (seen : List K) (ns : List (PlanNode K P))
      → validate_ids dec blank seen ns ≡ none
      → ((n : PlanNode K P) → Memᴰ n ns → (n.id ≢ blank) × (mem dec n.id seen ≡ false))
        × Distinct dec (as_states ns)
  unfolding validate_ids
  validate_ids_sound blank seen [] h = ((λ n m. elim m [ ]), tt)
  validate_ids_sound blank seen (n ∷ ns) h = elim (dec n.id blank) [
    | yes p ↦ absurd (ground (arith, h, p))
    | no p ↦
        let (each, d) = validate_ids_sound blank (n.id ∷ seen) ns (ground (arith, h, p)) in
        (
          λ x m. elim (Mem-cons m) [
            | inl e ↦
                subst (λ y. (y.id ≢ blank) × (mem dec y.id seen ≡ false)) (sym e)
                  (p, ground (arith, h, p))
            | inr t ↦ ((each x t).0, ground (arith, (each x t).1))
          ],
          (
            elim (Bool-cases (has_id dec n.id (as_states ns))) [
              | inl there ↦ absurd (new_id n.id seen ns (λ x m. (each x m).1) there)
              | inr free ↦ free
            ],
            d,
          ),
        )
  ]
    where
      new_id :
          (k : K) (seen : List K) (ns : List (PlanNode K P))
          → ((x : PlanNode K P) → Memᴰ x ns → mem dec x.id (k ∷ seen) ≡ false)
          → has_id dec k (as_states ns) ≢ true
      new_id k seen [] each h = ground (arith, h)
      new_id k seen (n ∷ ns) each h = elim (dec n.id k) [
        | yes p ↦ ground (arith, each n (Memᴰ.head refl), sym p)
        | no p ↦ new_id k seen ns (λ x m. each x (Memᴰ.tail m)) (ground (arith, h, p))
      ]

  pub validate_ids_complete :
      (blank : K) (seen : List K) (ns : List (PlanNode K P))
      → ((n : PlanNode K P) → Memᴰ n ns → (n.id ≢ blank) × (mem dec n.id seen ≡ false))
      → Distinct dec (as_states ns)
      → validate_ids dec blank seen ns ≡ none
  unfolding validate_ids
  validate_ids_complete blank seen [] each d = refl
  validate_ids_complete blank seen (n ∷ ns) each d =
      let (named, new) = each n (Memᴰ.head refl) in
      let rest =
        validate_ids_complete blank (n.id ∷ seen) ns
          (λ x m. (
            (each x (Memᴰ.tail m)).0,
            ground (arith, (each x (Memᴰ.tail m)).1, has_id-ne dec n.id x ns d.0 m),
          ))
          d.1 in
      ground (arith, named, new, rest)

  pub validate_edges_sound :
      (ids : List K) (ns : List (PlanNode K P))
      → validate_edges dec ids ns ≡ none
      → (n : PlanNode K P) → Memᴰ n ns
      → (d : K) → Memᴰ d n.depends_on
      → mem dec d ids ≡ true
  unfolding validate_edges
  validate_edges_sound ids [] h n m d c = elim m [ ]
  validate_edges_sound ids (x ∷ ns) h n m d c = elim (Mem-cons m) [
    | inl p ↦
        validate_deps_sound dec ids x.id x.depends_on (ground (arith, h)) d
          (subst (λ y. Memᴰ d y.depends_on) p c)
    | inr t ↦ validate_edges_sound ids ns (ground (arith, h)) n t d c
  ]

  pub validate_edges_complete :
      (ids : List K) (ns : List (PlanNode K P))
      → ((n : PlanNode K P)
          → Memᴰ n ns
          → (d : K) → Memᴰ d n.depends_on
          → (mem dec d ids ≡ true) × (d ≢ n.id))
      → validate_edges dec ids ns ≡ none
  unfolding validate_edges
  validate_edges_complete ids [] each = refl
  validate_edges_complete ids (x ∷ ns) each = ground (
    arith,
    validate_deps_complete dec ids x.id x.depends_on (each x (Memᴰ.head refl)),
    validate_edges_complete ids ns (λ n m. each n (Memᴰ.tail m)),
  )
