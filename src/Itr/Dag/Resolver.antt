-- ===== src/Itr/Dag/Resolver.antt =====
-- `topologicalOrder` of pkg/itr/dag/resolver.go. The maps from ids are lists searched by id, in one
-- order of iteration; `dependents[id]` is computed from the nodes. A result of none is a loop that
-- did not end within its fuel.
use dragonscale.Prelude.{
  ℕ, zero, suc, Bool, true, false, List, [], ◌∷◌, ◌++◌, Option, none, some, length, ite,
}
use dragonscale.Prelude.Int.{ℤ, pos, negsuc}

-- What `topologicalOrder` reads of a `nodeState`.
pub record NodeState (K : Type 0) : Type 0 where
  pub id : K
  pub depends_on : List K

-- The two results: the waves, or the ids that the cycle error names.
pub data Order (K : Type 0) : Type 0 where
  waves : List (List K) → Order K
  cycle : List K → Order K

-- `inDegree[id]--` on the value.
unfoldable pub less_one : ℤ → ℤ
less_one (pos zero) = negsuc 0
less_one (pos (suc n)) = pos n
less_one (negsuc n) = negsuc (suc n)

unfoldable pub is_zero : ℤ → Bool
is_zero (pos zero) = true
is_zero (pos (suc n)) = false
is_zero (negsuc n) = false

module _ {K : Type 0} where
  unfoldable pub in_degrees : List (NodeState K) → List (K × ℤ)
  in_degrees [] = []
  in_degrees (n ∷ ns) = (n.id, pos (length n.depends_on)) ∷ in_degrees ns

  unfoldable pub ready : List (K × ℤ) → List K
  ready [] = []
  ready ((k, d) ∷ ds) = let rest = ready ds in elim (is_zero d) [ true ↦ k ∷ rest | false ↦ rest ]

  unfoldable pub ids_of : List (K × ℤ) → List K
  ids_of [] = []
  ids_of ((k, d) ∷ ds) = k ∷ ids_of ds

  unfoldable pub finished : List (K × ℤ) → Order K
  finished [] = waves []
  finished (d ∷ ds) = cycle (ids_of (d ∷ ds))

  unfoldable pub add_wave : List K → Option (Order K) → Option (Order K)
  add_wave w none = none
  add_wave w (some (waves ws)) = some (waves (w ∷ ws))
  add_wave w (some (cycle ks)) = some (cycle ks)

module _ {K : Type 0} (dec : Discrete K) where
  unfoldable pub delete : K → List (K × ℤ) → List (K × ℤ)
  delete k [] = []
  delete k ((j, d) ∷ ds) = let rest = delete k ds in ite (dec j k) ds ((j, d) ∷ rest)

  -- A missing key reads as 0, and is put in.
  unfoldable pub decrement : K → List (K × ℤ) → List (K × ℤ)
  decrement k [] = (k, negsuc 0) ∷ []
  decrement k ((j, d) ∷ ds) =
      let rest = decrement k ds in ite (dec j k) ((j, less_one d) ∷ ds) ((j, d) ∷ rest)

  unfoldable pub decrement_each : List K → List (K × ℤ) → List (K × ℤ)
  decrement_each [] ds = ds
  decrement_each (k ∷ ks) ds = decrement_each ks (decrement k ds)

  -- The id, once for each time that it depends on `k`.
  unfoldable pub dependent : K → K → List K → List K
  dependent k id [] = []
  dependent k id (d ∷ deps) = let rest = dependent k id deps in ite (dec d k) (id ∷ rest) rest

  unfoldable pub dependents : List (NodeState K) → K → List K
  dependents [] k = []
  dependents (n ∷ ns) k = dependent k n.id n.depends_on ++ dependents ns k

  unfoldable pub emit_wave : List (NodeState K) → List K → List (K × ℤ) → List (K × ℤ)
  emit_wave nodes [] ds = ds
  emit_wave nodes (k ∷ ks) ds =
      emit_wave nodes ks (decrement_each (dependents nodes k) (delete k ds))

  unfoldable pub order_from : ℕ → List (NodeState K) → List (K × ℤ) → Option (Order K)
  order_from zero nodes ds = none
  order_from (suc fuel) nodes ds =
      let wave = ready ds in
      let rest = order_from fuel nodes (emit_wave nodes wave ds) in
      elim wave [ [] ↦ some (finished ds) | k ∷ ks ↦ add_wave (k ∷ ks) rest ]

  unfoldable pub topological_order : List (NodeState K) → Option (Order K)
  topological_order nodes = order_from (suc (length nodes)) nodes (in_degrees nodes)
