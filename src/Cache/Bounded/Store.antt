-- ===== src/Cache/Bounded/Store.antt =====
-- `Store` of pkg/agent/bounded_cache.go: the capacity is kept, and which pairs are given up.
use dragonscale.Prelude.{
  ◌/◌, ◌<◌, ◌≡◌, refl, sym, ap, ◌∙◌, List, [], ◌∷◌, ◌++◌, none, some, length, drop, length-drop,
  length-append, leb, ◌==◌, if◌then◌else◌, arith, Bool-cases, Option-cases, inl, inr,
}
use dragonscale.Cache.Bounded.{
  BoundedCache, value_of, put, load, evict_half, make_room, store, keys_of, IsValid, drop_keys-take,
  keys_of-drop, length-keys_of, value_of-drop, value_of-put, keys_of-put,
}

module _ {K V : Type 0} (dec : Discrete K) where
  -- A full cache gives up the older half of its pairs, and at least one.
  abbrev pub kept : BoundedCache K V → List (K × V)
  kept c =
      if leb c.capacity (length c.items)
      then drop (if length c.items / 2 == 0 then 1 else length c.items / 2) c.items
      else c.items

  make_room-kept :
      (c : BoundedCache K V)
      → IsValid dec c
      → ((make_room dec c).items ≡ kept c) × ((make_room dec c).order ≡ keys_of dec (kept c))
  unfolding make_room evict_half
  make_room-kept c v = elim (Bool-cases (leb c.capacity (length c.items))) [
    | inl f ↦
        let same : length c.order ≡ length c.items =
          ap length (sym v.ordered) ∙ length-keys_of dec c.items in
        rw (f, make_room, same, sym v.ordered)
          (drop_keys-take dec _ c.items, sym (keys_of-drop dec _ c.items))
    | inr f ↦ rw (f, make_room) (refl, sym v.ordered)
  ]

  length-kept : (c : BoundedCache K V) → IsValid dec c → length (kept c) < c.capacity
  length-kept c v = ground (
    arith,
    v.positive,
    v.bounded,
    length-drop 1 c.items,
    length-drop (length c.items / 2) c.items,
  )

  put_new :
      (k : K) (v : V) (items : List (K × V))
      → value_of dec k items ≡ none
      → put dec k v items ≡ items ++ ((k, v) ∷ [])
  unfolding value_of put
  put_new k v [] h = refl
  put_new k v ((j, w) ∷ items) h = ground (arith, h, put_new k v items)

  value_of-kept :
      (k : K) (c : BoundedCache K V)
      → value_of dec k c.items ≡ none
      → value_of dec k (kept c) ≡ none
  value_of-kept k c h = elim (Bool-cases (leb c.capacity (length c.items))) [
    | inl f ↦ rw (f) (value_of-drop dec k _ c.items h)
    | inr f ↦ rw (f) h
  ]

  store_new :
      (k : K) (v : V) (c : BoundedCache K V)
      → value_of dec k c.items ≡ none
      → store dec k v c ≡ record {
        items = put dec k v (make_room dec c).items;
        order = (make_room dec c).order ++ (k ∷ []);
        capacity = (make_room dec c).capacity;
      }
  unfolding store
  store_new k v c h = rw (h, store) refl

  store_old :
      (k : K) (v w : V) (c : BoundedCache K V)
      → value_of dec k c.items ≡ some w
      → store dec k v c ≡ record c { items = put dec k v c.items }
  unfolding store
  store_old k v w c h = rw (h, store) refl

  -- A new key goes behind what is kept: all pairs, or when the cache is full the newer half.
  pub items-store :
      (k : K) (v : V) (c : BoundedCache K V)
      → IsValid dec c
      → value_of dec k c.items ≡ none
      → (store dec k v c).items ≡ kept c ++ ((k, v) ∷ [])
  items-store k v c valid h =
      ap (λ d. d.items) (store_new k v c h)
      ∙ ap (put dec k v) (make_room-kept c valid).0
      ∙ put_new k v (kept c) (value_of-kept k c h)

  make_room-capacity : (c : BoundedCache K V) → (make_room dec c).capacity ≡ c.capacity
  unfolding make_room evict_half
  make_room-capacity c = elim (Bool-cases (leb c.capacity (length c.items))) [
    | inl f ↦ rw (f, make_room) refl
    | inr f ↦ rw (f, make_room) refl
  ]

  new-IsValid :
      (k : K) (v : V) (c : BoundedCache K V)
      → IsValid dec c
      → value_of dec k c.items ≡ none
      → IsValid dec (store dec k v c)
  new-IsValid k v c valid h =
      let room = make_room-kept c valid in
      let e = put_new k v (kept c) (value_of-kept k c h) in
      rw (store_new k v c h, room.0, room.1, make_room-capacity c)
        record {
          ordered = keys_of-put dec k v (kept c) ∙ rw (value_of-kept k c h) refl;
          positive = valid.positive;
          bounded = rw (e) omega (arith, length-append (kept c) ((k, v) ∷ []), length-kept c valid);
        }

  old-IsValid :
      (k : K) (v w : V) (c : BoundedCache K V)
      → IsValid dec c
      → value_of dec k c.items ≡ some w
      → IsValid dec (store dec k v c)
  old-IsValid k v w c valid h =
      let same : keys_of dec (put dec k v c.items) ≡ keys_of dec c.items =
        keys_of-put dec k v c.items ∙ rw (h) refl in
      rw (store_old k v w c h) record {
        ordered = same ∙ valid.ordered;
        positive = valid.positive;
        bounded = omega (
          arith,
          valid.bounded,
          ap length same,
          length-keys_of dec c.items,
          length-keys_of dec (put dec k v c.items),
        );
      }

  -- Storing keeps the order in step with the map and the capacity, and the stored key is found with
  -- the stored value.
  pub store-IsValid :
      (k : K) (v : V) (c : BoundedCache K V)
      → IsValid dec c
      → IsValid dec (store dec k v c) × (load dec k (store dec k v c) ≡ some v)
  store-IsValid k v c valid = elim (Option-cases (value_of dec k c.items)) [
    | inl h ↦ (
      new-IsValid k v c valid h,
      ap (λ d. load dec k d) (store_new k v c h)
          ∙ value_of-put dec k k v (make_room dec c).items
          ∙ ground arith,
    )
    | inr (w, h) ↦ (
      old-IsValid k v w c valid h,
      ap (λ d. load dec k d) (store_old k v w c h) ∙ value_of-put dec k k v c.items ∙ ground arith,
    )
  ]
