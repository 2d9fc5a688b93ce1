-- ===== src/Itr/Dag/Planner/States.antt =====
-- The states that pkg/itr/dag/planner.go makes of a plan's nodes.
use dragonscale.Prelude.{
  ◌≡◌, ◌≢◌, refl, sym, ap, ◌∙◌, subst, true, false, ◌||◌, List, [], ◌∷◌, ◌++◌, Memᴰ, Mem-cons,
  if_neg, arith, inl, inr,
}
use dragonscale.Itr.Dag.Resolver.{NodeState}
use dragonscale.Itr.Dag.Degrees.{mem, has_id, Distinct}
use dragonscale.Itr.Dag.Plan.{PlanNode}
use dragonscale.Itr.Dag.Executor.{put_state, states_from}
use dragonscale.Itr.Dag.Planner.{plan_ids}
use dragonscale.Itr.Dag.Planner.Ranks.{Mem-has_id}

abbrev pub as_state : {K P : Type 0} → PlanNode K P → NodeState K
as_state n = record { id = n.id; depends_on = n.depends_on }

abbrev pub as_states : {K P : Type 0} → List (PlanNode K P) → List (NodeState K)
as_states [] = []
as_states (n ∷ ns) = as_state n ∷ as_states ns

append_one :
    {A : Type 0} (xs : List A) (y : A) (zs : List A) → (xs ++ (y ∷ [])) ++ zs ≡ xs ++ (y ∷ zs)
append_one [] y zs = refl
append_one (x ∷ xs) y zs = ap (λ l. x ∷ l) (append_one xs y zs)

append_nil : {A : Type 0} (xs : List A) → xs ++ [] ≡ xs
append_nil [] = refl
append_nil (x ∷ xs) = ap (λ l. x ∷ l) (append_nil xs)

module _ {K : Type 0} (dec : Discrete K) where
  put_state_new :
      (s : NodeState K) (ms : List (NodeState K))
      → has_id dec s.id ms ≡ false
      → put_state dec s ms ≡ ms ++ (s ∷ [])
  unfolding put_state
  put_state_new s [] h = refl
  put_state_new s (m ∷ ms) h = elim (dec m.id s.id) [
    | yes p ↦ absurd (ground (arith, h, p))
    | no p ↦
        rw (if_neg _ p, put_state) (ap (λ l. m ∷ l) (put_state_new s ms (ground (arith, h, p))))
  ]

  has_id-append :
      (k : K) (ms : List (NodeState K)) (s : NodeState K)
      → has_id dec k (ms ++ (s ∷ [])) ≡ (has_id dec k ms || has_id dec k (s ∷ []))
  has_id-append k [] s = ground arith
  has_id-append k (m ∷ ms) s = ground (arith, has_id-append k ms s)

module _ {K P : Type 0} (dec : Discrete K) where
  pub has_id-as_states :
      (k : K) (ns : List (PlanNode K P)) → has_id dec k (as_states ns) ≡ mem dec k (plan_ids ns)
  has_id-as_states k [] = refl
  has_id-as_states k (n ∷ ns) = ground (arith, has_id-as_states k ns)

  pub as_states-Mem :
      (s : NodeState K) (ns : List (PlanNode K P))
      → Memᴰ s (as_states ns)
      → (n : PlanNode K P) × Memᴰ n ns × (s ≡ as_state n)
  as_states-Mem s [] m = elim m [ ]
  as_states-Mem s (n ∷ ns) m = elim (Mem-cons m) [
    | inl p ↦ (n, Memᴰ.head refl, p)
    | inr t ↦ let (x, y, z) = as_states-Mem s ns t in (x, Memᴰ.tail y, z)
  ]

  pub Mem-as_states :
      (n : PlanNode K P) (ns : List (PlanNode K P)) → Memᴰ n ns → Memᴰ (as_state n) (as_states ns)
  Mem-as_states n [] m = elim m [ ]
  Mem-as_states n (x ∷ ns) m = elim (Mem-cons m) [
    | inl p ↦ Memᴰ.head (ap as_state p)
    | inr t ↦ Memᴰ.tail (Mem-as_states n ns t)
  ]

  pub has_id-ne :
      (k : K) (x : PlanNode K P) (ns : List (PlanNode K P))
      → has_id dec k (as_states ns) ≡ false
      → Memᴰ x ns
      → k ≢ x.id
  has_id-ne k x ns h m p =
      let there : has_id dec x.id (as_states ns) ≡ true =
        Mem-has_id dec (as_state x) (as_states ns) (Mem-as_states x ns m) in
      ground (arith, h, subst (λ i. has_id dec i (as_states ns) ≡ true) (sym p) there)

  -- With no id twice, the states are those of the nodes, in order.
  pub states_from_new :
      (ms : List (NodeState K)) (ns : List (PlanNode K P))
      → ((n : PlanNode K P) → Memᴰ n ns → has_id dec n.id ms ≡ false)
      → Distinct dec (as_states ns)
      → states_from dec ms ns ≡ ms ++ as_states ns
  unfolding states_from
  states_from_new ms [] new d = sym (append_nil ms)
  states_from_new ms (n ∷ ns) new d =
      ap (λ l. states_from dec l ns) (put_state_new dec (as_state n) ms (new n (Memᴰ.head refl)))
      ∙ states_from_new (ms ++ (as_state n ∷ [])) ns
          (λ x m. ground (
            arith,
            has_id-append dec x.id ms (as_state n),
            new x (Memᴰ.tail m),
            has_id-ne n.id x ns d.0 m,
          ))
          d.1
      ∙ append_one ms (as_state n) (as_states ns)
