-- ===== src/Cache/Lru/Writes.antt =====
-- Writing, and moving to the front, keep a cache of pkg/cache/lru.go valid.
use dragonscale.Prelude.{
  ℕ, suc, ◌+◌, ◌≤◌, ◌≡◌, refl, sym, ap, ◌∙◌, subst, false, ◌&&◌, List, [], ◌∷◌, none, some, length,
  ltb, arith, Bool-cases, Option-cases, ◌⊎◌, inl, inr,
}
use dragonscale.Cache.Entries.{Entry, Lru, find, back}
use dragonscale.Cache.Lru.{
  remove_locked, evict_oldest, update_entry, push_entry, insert_entry, set_with_options,
  move_to_front,
}
use dragonscale.Cache.Lru.Tags.{find-remove, find_key, Distinct-remove, length-remove, find-back}
use dragonscale.Cache.Lru.Valid.{
  tagged-remove, IsSound, IsValid, remove_locked-IsSound, remove_locked-opts, update_entry-IsSound,
  push_entry-IsSound,
}

module _ {K V T : Type 0} (dec : Discrete K) (dec_tag : Discrete T) where
  evict_oldest-IsSound :
      (c : Lru K V T) → IsSound dec dec_tag c → IsSound dec dec_tag (evict_oldest dec dec_tag c)
  unfolding evict_oldest
  evict_oldest-IsSound c s = elim (Option-cases (back c.entries)) [
    | inl h ↦ rw (h, evict_oldest) s
    | inr (e, h) ↦ rw (h, evict_oldest) (remove_locked-IsSound dec dec_tag e.key c s)
  ]

  evict_oldest-opts : (c : Lru K V T) → (evict_oldest dec dec_tag c).opts ≡ c.opts
  unfolding evict_oldest
  evict_oldest-opts c = elim (Option-cases (back c.entries)) [
    | inl h ↦ rw (h, evict_oldest) refl
    | inr (e, h) ↦ rw (h, evict_oldest) (remove_locked-opts dec dec_tag e.key c)
  ]

  pub length-remove_locked :
      (k : K) (c : Lru K V T) (e : Entry K V T)
      → find dec k c.entries ≡ some e
      → length (remove_locked dec dec_tag k c).entries + 1 ≡ length c.entries
  unfolding remove_locked
  length-remove_locked k c e h = rw (h, remove_locked) (length-remove dec k c.entries e h)

  pub back_some : (e : Entry K V T) (es : List (Entry K V T)) → ¬ (back (e ∷ es) ≡ none)
  unfolding back
  back_some e [] h = ground (arith, h)
  back_some e (f ∷ es) h = back_some f es h

  pub length-evict_oldest :
      (e : Entry K V T) (es : List (Entry K V T)) (c : Lru K V T)
      → c.entries ≡ e ∷ es
      → length (evict_oldest dec dec_tag c).entries ≡ length es
  unfolding evict_oldest
  length-evict_oldest e es c q = elim (Option-cases (back c.entries)) [
    | inl h ↦ elim (back_some e es (ap back (sym q) ∙ h)) [ ]
    | inr (f, h) ↦
        rw (h, evict_oldest)
          let g = find-back dec c.entries f h in
            ground (arith, length-remove_locked f.key c g.0 g.1, ap length q)
  ]

  insert_entry-IsValid :
      (e : Entry K V T) (c : Lru K V T)
      → find dec e.key c.entries ≡ none
      → IsValid dec dec_tag c
      → IsValid dec dec_tag (insert_entry dec dec_tag e c)
  unfolding insert_entry push_entry
  insert_entry-IsValid e c h v =
      let pushed = push_entry dec dec_tag e c in
      let s = push_entry-IsSound dec dec_tag e c h v.0 in
      elim (Bool-cases (ltb 0 c.opts.max_size && ltb c.opts.max_size (length pushed.entries))) [
        | inl t ↦
            rw (t, insert_entry)
              (
                evict_oldest-IsSound pushed s,
                rw (evict_oldest-opts pushed, length-evict_oldest e c.entries pushed refl) v.1,
              )
        | inr t ↦ rw (t, insert_entry) (s, small t)
      ]
    where
      small :
          (ltb 0 c.opts.max_size && ltb c.opts.max_size (suc (length c.entries))) ≡ false
          → (c.opts.max_size ≡ 0) ⊎ (suc (length c.entries) ≤ c.opts.max_size)
      small t = ground arith

  update_entry-IsValid :
      (old e : Entry K V T) (c : Lru K V T)
      → find dec e.key c.entries ≡ some old
      → IsValid dec dec_tag c
      → IsValid dec dec_tag (update_entry dec dec_tag old e c)
  unfolding update_entry
  update_entry-IsValid old e c h v = (
    update_entry-IsSound dec dec_tag old e c h v.0,
    ground (arith, length-remove dec e.key c.entries old h, v.1),
  )

  pub set_with_options-IsValid :
      (now : ℕ) (k : K) (v : V) (ttl : ℕ) (tags : List T) (c : Lru K V T)
      → IsValid dec dec_tag c
      → IsValid dec dec_tag (set_with_options dec dec_tag now k v ttl tags c)
  unfolding set_with_options
  set_with_options-IsValid now k v ttl tags c valid = elim (Option-cases (find dec k c.entries)) [
    | inl h ↦ rw (h, set_with_options) (insert_entry-IsValid _ c h valid)
    | inr (old, h) ↦ rw (h, set_with_options) (update_entry-IsValid old _ c h valid)
  ]

  pub move_to_front-IsValid :
      (k : K) (e : Entry K V T) (c : Lru K V T)
      → find dec k c.entries ≡ some e
      → IsValid dec dec_tag c
      → IsValid dec dec_tag (move_to_front dec dec_tag e c)
  unfolding find
  move_to_front-IsValid k e c h v =
      let q = find_key dec k c.entries e h in
      let h' : find dec e.key c.entries ≡ some e =
        subst (λ j. find dec j c.entries ≡ some e) (sym q) h in
      (
        record {
          distinct = (
            find-remove dec e.key e.key c.entries v.0.distinct ∙ ground arith,
            Distinct-remove dec e.key c.entries v.0.distinct,
          );
          indexed = λ t j. ground (
            arith,
            tagged-remove dec dec_tag t e.key j c.entries v.0.distinct,
            v.0.indexed t j,
            h',
          );
        },
        ground (arith, length-remove dec e.key c.entries e h', v.1),
      )
