-- ===== src/Cache/Lru/Removals.antt =====
-- What invalidation by tag and purging remove from a cache of pkg/cache/lru.go.
use dragonscale.Prelude.{
  ℕ, ◌+◌, ◌≡◌, refl, ap, ◌∙◌, subst, Bool, true, false, ◌||◌, ◌&&◌, List, [], ◌∷◌, none, some, ite,
  if_pos, if_neg, if◌then◌else◌, arith, Bool-cases, Option-cases, inl, inr,
}
use dragonscale.Cache.Entries.{Entry, Lru, find, has_tag, is_expired, keys_of, reversed}
use dragonscale.Cache.Lru.{remove_locked, remove_each, invalidate_by_tag, purge_from, purge}
use dragonscale.Cache.Lru.Tags.{same, Distinct, find-remove}
use dragonscale.Cache.Lru.Valid.{tagged, IsSound, remove_locked-IsSound}

module _ {K : Type 0} (dec : Discrete K) where
  -- Whether the key is one of these.
  abbrev mem_key : K → List K → Bool
  mem_key j [] = false
  mem_key j (k ∷ ks) = ite (dec k j) true (mem_key j ks)

module _ {K T : Type 0} (dec : Discrete K) (dec_tag : Discrete T) where
  mem_key-keys_of :
      (t : T) (j : K) (ps : List (T × K))
      → mem_key dec j (keys_of dec_tag t ps) ≡ has_tag dec dec_tag t j ps
  unfolding keys_of has_tag
  mem_key-keys_of t j [] = refl
  mem_key-keys_of t j ((u, k) ∷ ps) = ground (arith, mem_key-keys_of t j ps)

module _ {K V T : Type 0} (dec : Discrete K) (dec_tag : Discrete T) where
  pub find-remove_locked :
      (k j : K) (c : Lru K V T)
      → Distinct dec c.entries
      → find dec j (remove_locked dec dec_tag k c).entries
        ≡ ite (dec k j) none (find dec j c.entries)
  unfolding remove_locked
  find-remove_locked k j c d = elim (Option-cases (find dec k c.entries)) [
    | inl h ↦
        rw (h, remove_locked)
          elim (dec k j) [
            | yes p ↦ rw (if_pos _ p) (subst (λ i. find dec i c.entries ≡ none) p h)
            | no p ↦ rw (if_neg _ p) refl
          ]
    | inr (e, h) ↦ rw (h, remove_locked) (find-remove dec k j c.entries d)
  ]

  find-remove_each :
      (j : K) (ks : List K) (c : Lru K V T)
      → IsSound dec dec_tag c
      → find dec j (remove_each dec dec_tag ks c).entries
        ≡ (if mem_key dec j ks then none else find dec j c.entries)
  unfolding remove_each
  find-remove_each j [] c s = refl
  find-remove_each j (k ∷ ks) c s = ground (
    arith,
    find-remove_each j ks (remove_locked dec dec_tag k c) (remove_locked-IsSound dec dec_tag k c s),
    find-remove_locked k j c s.distinct,
  )

  -- After the invalidation of a tag a key is found exactly if it was found before with an entry
  -- that does not have the tag, and then with that entry.
  pub find-invalidate_by_tag :
      (t : T) (j : K) (c : Lru K V T)
      → IsSound dec dec_tag c
      → find dec j (invalidate_by_tag dec dec_tag t c).entries
        ≡ (if tagged dec dec_tag t j c.entries then none else find dec j c.entries)
  unfolding invalidate_by_tag
  find-invalidate_by_tag t j c s =
      find-remove_each j (keys_of dec_tag t c.tags) c s
      ∙ ap (λ b. if b then none else find dec j c.entries)
          (mem_key-keys_of dec dec_tag t j c.tags ∙ s.indexed t j)

  -- Whether one of the entries, under the key, is expired.
  abbrev stale_key : ℕ → K → List (Entry K V T) → Bool
  stale_key now j [] = false
  stale_key now j (e ∷ es) = (same dec dec_tag e.key j && is_expired now e) || stale_key now j es

  find-purge_from :
      (now : ℕ) (j : K) (es : List (Entry K V T)) (s : Lru K V T × ℕ)
      → IsSound dec dec_tag s.0
      → find dec j (purge_from dec dec_tag now es s).0.entries
        ≡ (if stale_key now j es then none else find dec j s.0.entries)
  unfolding purge_from
  find-purge_from now j [] s h = refl
  find-purge_from now j (e ∷ es) s h = elim (Bool-cases (is_expired now e)) [
    | inl x ↦
        rw (x, purge_from) ground
          (
            arith,
            x,
            find-purge_from now j es (remove_locked dec dec_tag e.key s.0, s.1 + 1)
                (remove_locked-IsSound dec dec_tag e.key s.0 h),
            find-remove_locked e.key j s.0 h.distinct,
          )
    | inr x ↦ rw (x, purge_from) ground (arith, x, find-purge_from now j es s h)
  ]

  stale_key-reversed :
      (now : ℕ) (j : K) (es acc : List (Entry K V T))
      → stale_key now j (reversed es acc) ≡ (stale_key now j es || stale_key now j acc)
  unfolding reversed
  stale_key-reversed now j [] acc = refl
  stale_key-reversed now j (e ∷ es) acc = ground (arith, stale_key-reversed now j es (e ∷ acc))

  stale_key-find :
      (now : ℕ) (j : K) (es : List (Entry K V T))
      → Distinct dec es
      → stale_key now j es ≡ elim (find dec j es) [ none ↦ false | some e ↦ is_expired now e ]
  unfolding find
  stale_key-find now j [] d = refl
  stale_key-find now j (e ∷ es) d = elim (dec e.key j) [
    | yes p ↦
        rw (if_pos _ p)
          let q : find dec j es ≡ none = subst (λ i. find dec i es ≡ none) p d.0 in
            ground (arith, stale_key-find now j es d.1, q)
    | no p ↦ ground (arith, stale_key-find now j es d.1, p)
  ]

  -- A purge drops exactly the entries that are past their deadline.
  pub find-purge :
      (now : ℕ) (j : K) (c : Lru K V T)
      → IsSound dec dec_tag c
      → find dec j (purge dec dec_tag now c).0.entries ≡ elim (find dec j c.entries) [
        | none ↦ none
        | some e ↦ if is_expired now e then none else some e
      ]
  unfolding purge
  find-purge now j c s = ground (
    arith,
    find-purge_from now j (reversed c.entries []) (c, 0) s,
    stale_key-reversed now j c.entries [],
    stale_key-find now j c.entries s.distinct,
  )
