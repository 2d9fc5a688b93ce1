-- ===== src/Cache/Bounded.antt =====
-- The bounded cache of pkg/agent/bounded_cache.go. The map is the list of its pairs of a key and a
-- value, in the order in which the keys were put in.
pub mod Store
use dragonscale.Prelude.{
  ℕ, zero, suc, ◌+◌, ◌-◌, ◌/◌, ◌≤◌, ◌<◌, ◌≡◌, refl, sym, ap, ◌∙◌, subst, Bool, true, false, not,
  List, [], ◌∷◌, ◌++◌, Option, none, some, length, take, drop, length-drop, length-append, leb,
  ◌==◌, ite, if_neg, if◌then◌else◌, arith, Bool-cases, inl, inr,
}
use dragonscale.Prelude.Int.{ℤ, pos, negsuc}

pub record BoundedCache (K V : Type 0) : Type 0 where
  pub items : List (K × V)
  pub order : List K
  pub capacity : ℕ

-- `newBoundedCache`.
unfoldable pub new_bounded_cache : {K V : Type 0} → ℤ → BoundedCache K V
new_bounded_cache (pos zero) = record { items = []; order = []; capacity = 1024 }
new_bounded_cache (pos (suc n)) = record { items = []; order = []; capacity = suc n }
new_bounded_cache (negsuc n) = record { items = []; order = []; capacity = 1024 }

module _ {K V : Type 0} (dec : Discrete K) where
  unfoldable pub value_of : K → List (K × V) → Option V
  value_of k [] = none
  value_of k ((j, v) ∷ items) = ite (dec j k) (some v) (value_of k items)

  -- `c.items[key] = value`.
  unfoldable pub put : K → V → List (K × V) → List (K × V)
  put k v [] = (k, v) ∷ []
  put k v ((j, w) ∷ items) =
      let rest = put k v items in ite (dec j k) ((j, v) ∷ items) ((j, w) ∷ rest)

  unfoldable pub drop_key : K → List (K × V) → List (K × V)
  drop_key k [] = []
  drop_key k ((j, v) ∷ items) = let rest = drop_key k items in ite (dec j k) items ((j, v) ∷ rest)

  unfoldable pub drop_keys : List K → List (K × V) → List (K × V)
  drop_keys [] items = items
  drop_keys (k ∷ ks) items = drop_keys ks (drop_key k items)

  -- `Load`.
  abbrev pub load : K → BoundedCache K V → Option V
  load k c = value_of k c.items

  -- `evictCount`.
  abbrev pub evict_count : BoundedCache K V → ℕ
  evict_count c = if length c.order / 2 == 0 then 1 else length c.order / 2

  -- `evictHalfLocked`.
  unfoldable pub evict_half : BoundedCache K V → BoundedCache K V
  evict_half c = record c {
    items = drop_keys (take (evict_count c) c.order) c.items;
    order = drop (evict_count c) c.order;
  }

  unfoldable pub make_room : BoundedCache K V → BoundedCache K V
  make_room c = if leb c.capacity (length c.items) then evict_half c else c

  -- `Store`.
  unfoldable pub store : K → V → BoundedCache K V → BoundedCache K V
  store k v c = elim (value_of k c.items) [
    | some w ↦ record c { items = put k v c.items }
    | none ↦
        let roomy = make_room c in
        record roomy { items = put k v roomy.items; order = roomy.order ++ (k ∷ []) }
  ]

  -- `Len`.
  abbrev pub size : BoundedCache K V → ℕ
  size c = length c.items

  abbrev pub keys_of : List (K × V) → List K
  keys_of [] = []
  keys_of ((k, v) ∷ items) = k ∷ keys_of items

  -- The order is the keys of the map, and the capacity is positive and not exceeded.
  pub record IsValid (c : BoundedCache K V) : Type 0 where
    pub ordered : keys_of c.items ≡ c.order
    pub positive : 0 < c.capacity
    pub bounded : length c.items ≤ c.capacity

  pub drop_keys-take :
      (n : ℕ) (items : List (K × V)) → drop_keys (take n (keys_of items)) items ≡ drop n items
  unfolding drop_keys drop_key
  drop_keys-take zero items = refl
  drop_keys-take (suc n) [] = refl
  drop_keys-take (suc n) ((k, v) ∷ items) = ground (arith, drop_keys-take n items)

  pub keys_of-drop :
      (n : ℕ) (items : List (K × V)) → keys_of (drop n items) ≡ drop n (keys_of items)
  keys_of-drop zero items = refl
  keys_of-drop (suc n) [] = refl
  keys_of-drop (suc n) (p ∷ items) = keys_of-drop n items

  pub length-keys_of : (items : List (K × V)) → length (keys_of items) ≡ length items
  length-keys_of [] = refl
  length-keys_of (p ∷ items) = ap suc (length-keys_of items)

  pub value_of-drop :
      (k : K) (n : ℕ) (items : List (K × V))
      → value_of k items ≡ none
      → value_of k (drop n items) ≡ none
  unfolding value_of
  value_of-drop k zero items h = h
  value_of-drop k (suc n) [] h = h
  value_of-drop k (suc n) (p ∷ items) h = value_of-drop k n items (ground (arith, h))

  pub value_of-put :
      (k j : K) (v : V) (items : List (K × V))
      → value_of j (put k v items) ≡ ite (dec k j) (some v) (value_of j items)
  unfolding value_of put
  value_of-put k j v [] = refl
  value_of-put k j v ((i, w) ∷ items) = ground (arith, value_of-put k j v items)

  pub keys_of-put :
      (k : K) (v : V) (items : List (K × V))
      → keys_of (put k v items)
        ≡ elim (value_of k items) [ none ↦ keys_of items ++ (k ∷ []) | some w ↦ keys_of items ]
  unfolding value_of put
  keys_of-put k v [] = refl
  keys_of-put k v ((i, w) ∷ items) = ground (arith, keys_of-put k v items)
