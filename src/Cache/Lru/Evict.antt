-- ===== src/Cache/Lru/Evict.antt =====
-- Which entry a full cache of pkg/cache/lru.go gives up.
use dragonscale.Prelude.{
  ℕ, suc, ◌-◌, ◌≤◌, ◌<◌, ◌≡◌, refl, sym, ap, ◌∙◌, subst, ◌&&◌, List, [], ◌∷◌, none, some, length,
  take, ltb, if_neg, arith, Bool-cases, Option-cases, inl, inr, take_of_length-le,
}
use dragonscale.Cache.Entries.{Entry, Lru, find, remove, back}
use dragonscale.Cache.Lru.{remove_locked, evict_oldest, push_entry, insert_entry, set_with_options}
use dragonscale.Cache.Lru.Tags.{Distinct, find-back}
use dragonscale.Cache.Lru.Valid.{IsValid}
use dragonscale.Cache.Lru.Writes.{back_some}
use dragonscale.Cache.Lru.Reads.{written}

module _ {K V T : Type 0} (dec : Discrete K) (dec_tag : Discrete T) where
  -- In a list with no key twice, the removal of the key of the back drops the last element.
  remove-back :
      (es : List (Entry K V T)) (e : Entry K V T)
      → Distinct dec es
      → back es ≡ some e
      → remove dec e.key es ≡ take (length es - 1) es
  unfolding remove back find
  remove-back [] e d h = refl
  remove-back (f ∷ []) e d h = ground (arith, h)
  remove-back (f ∷ g ∷ es) e d h = elim (dec f.key e.key) [
    | yes p ↦
        ground
          (arith, (find-back dec (g ∷ es) e h).1, subst (λ i. find dec i (g ∷ es) ≡ none) p d.0)
    | no p ↦
        if_neg (dec f.key e.key) p (g ∷ es) (f ∷ remove dec e.key (g ∷ es))
        ∙ ap (λ l. f ∷ l) (remove-back (g ∷ es) e d.1 h)
        ∙ ground arith
  ]

  entries-evict_oldest :
      (e : Entry K V T) (es : List (Entry K V T)) (c : Lru K V T)
      → c.entries ≡ e ∷ es
      → Distinct dec c.entries
      → (evict_oldest dec dec_tag c).entries ≡ take (length es) (e ∷ es)
  unfolding evict_oldest remove_locked
  entries-evict_oldest e es c q d = elim (Option-cases (back c.entries)) [
    | inl h ↦ elim (back_some dec dec_tag e es (ap back (sym q) ∙ h)) [ ]
    | inr (g, h) ↦
        let found = find-back dec c.entries g h in
        rw (h, evict_oldest, found.1, remove_locked)
          (remove-back c.entries g d h
            ∙ ap (λ l. take (length l - 1) l) q
            ∙ ap (λ n. take n (e ∷ es)) (omega arith))
  ]

  -- A write of a key that is not there puts its entry in front; a cache of a positive maximal size
  -- then keeps just that many entries from the front, which gives up the least recently used one
  -- alone, if the cache was full.
  pub entries-set_with_options :
      (now : ℕ) (k : K) (v : V) (ttl : ℕ) (tags : List T) (c : Lru K V T)
      → IsValid dec dec_tag c
      → find dec k c.entries ≡ none
      → 0 < c.opts.max_size
      → (set_with_options dec dec_tag now k v ttl tags c).entries
        ≡ take c.opts.max_size (written dec dec_tag now k v ttl tags c.opts ∷ c.entries)
  unfolding set_with_options insert_entry push_entry
  entries-set_with_options now k v ttl tags c valid h pos =
      let e = written dec dec_tag now k v ttl tags c.opts in
      let fits : length c.entries ≤ c.opts.max_size = ground (arith, valid.1) in
      let full = ltb 0 c.opts.max_size && ltb c.opts.max_size (suc (length c.entries)) in
      rw (h, set_with_options)
        elim (Bool-cases full) [
          | inl t ↦
              rw (t, insert_entry)
                let same_length : length c.entries ≡ c.opts.max_size = ground (arith, t) in
                  (entries-evict_oldest e c.entries (push_entry dec dec_tag e c) refl
                      (h, valid.0.distinct)
                    ∙ ap (λ n. take n (e ∷ c.entries)) same_length)
          | inr t ↦
              rw (t, insert_entry)
                (sym (take_of_length-le c.opts.max_size (e ∷ c.entries) (ground (arith, t))))
        ]
