-- ===== src/Cache/Lru/Valid.antt =====
-- Every operation of pkg/cache/lru.go keeps the list, the size and the index of tags consistent.
use dragonscale.Prelude.{
  ◌≤◌, ◌≡◌, refl, ap, ◌∙◌, Bool, false, not, ◌&&◌, List, none, some, length, if_pos, if_neg, arith,
  Option-cases, ◌⊎◌, inl, inr,
}
use dragonscale.Cache.Entries.{Entry, Lru, find, remove, mem_tag, has_tag, remove_tags}
use dragonscale.Cache.Lru.{remove_locked, update_entry, push_entry}
use dragonscale.Cache.Lru.Tags.{
  same, has_tag-add_tags, has_tag-remove_tags, Distinct, find-remove, Distinct-remove,
  length-remove,
}

module _ {K V T : Type 0} (dec : Discrete K) (dec_tag : Discrete T) where
  -- Whether the entry of a key has the tag.
  abbrev pub tagged : T → K → List (Entry K V T) → Bool
  tagged t j es = elim (find dec j es) [ none ↦ false | some e ↦ mem_tag dec_tag t e.tags ]

  -- No key is there twice, and the index of tags has a key under a tag exactly if the entry of the
  -- key has the tag.
  pub record IsSound (c : Lru K V T) : Type 0 where
    pub distinct : Distinct dec c.entries
    pub indexed : (t : T) (j : K) → has_tag dec dec_tag t j c.tags ≡ tagged t j c.entries

  abbrev pub Bounded : Lru K V T → Type 0
  Bounded c = (c.opts.max_size ≡ 0) ⊎ (length c.entries ≤ c.opts.max_size)

  abbrev pub IsValid : Lru K V T → Type 0
  IsValid c = IsSound c × Bounded c

  pub tagged-remove :
      (t : T) (k j : K) (es : List (Entry K V T))
      → Distinct dec es
      → tagged t j (remove dec k es) ≡ (tagged t j es && not (same dec dec_tag k j))
  tagged-remove t k j es d =
      rw (find-remove dec k j es d, tagged)
        elim (dec k j) [
          | yes p ↦ rw (if_pos _ p) ground arith
          | no p ↦ rw (if_neg _ p) ground arith
        ]

  pub remove_locked-IsSound :
      (k : K) (c : Lru K V T) → IsSound c → IsSound (remove_locked dec dec_tag k c)
  unfolding remove_locked
  remove_locked-IsSound k c s = elim (Option-cases (find dec k c.entries)) [
    | inl h ↦ rw (h, remove_locked) s
    | inr (e, h) ↦
        rw (h, remove_locked)
          record {
            distinct = Distinct-remove dec k c.entries s.distinct;
            indexed = λ t j. ground (
              arith,
              has_tag-remove_tags dec dec_tag t k j e.tags c.tags,
              tagged-remove t k j c.entries s.distinct,
              s.indexed t j,
            );
          }
  ]

  remove_locked-length :
      (k : K) (c : Lru K V T) → length (remove_locked dec dec_tag k c).entries ≤ length c.entries
  unfolding remove_locked
  remove_locked-length k c = elim (Option-cases (find dec k c.entries)) [
    | inl h ↦ rw (h, remove_locked) ground arith
    | inr (e, h) ↦ rw (h, remove_locked) ground (arith, length-remove dec k c.entries e h)
  ]

  pub remove_locked-opts : (k : K) (c : Lru K V T) → (remove_locked dec dec_tag k c).opts ≡ c.opts
  unfolding remove_locked
  remove_locked-opts k c = elim (Option-cases (find dec k c.entries)) [
    | inl h ↦ rw (h, remove_locked) refl
    | inr (e, h) ↦ rw (h, remove_locked) refl
  ]

  -- Removing a key keeps the cache valid.
  pub remove_locked-IsValid :
      (k : K) (c : Lru K V T) → IsValid c → IsValid (remove_locked dec dec_tag k c)
  remove_locked-IsValid k c v = (
    remove_locked-IsSound k c v.0,
    elim v.1 [
      | inl z ↦ inl (ap (λ o. o.max_size) (remove_locked-opts k c) ∙ z)
      | inr b ↦ inr (rw (remove_locked-opts k c) ground (arith, remove_locked-length k c, b))
    ],
  )

  pub update_entry-IsSound :
      (old e : Entry K V T) (c : Lru K V T)
      → find dec e.key c.entries ≡ some old
      → IsSound c
      → IsSound (update_entry dec dec_tag old e c)
  unfolding update_entry find
  update_entry-IsSound old e c h s = record {
    distinct = (
      find-remove dec e.key e.key c.entries s.distinct ∙ ground arith,
      Distinct-remove dec e.key c.entries s.distinct,
    );
    indexed = λ t j. ground (
      arith,
      has_tag-add_tags dec dec_tag t e.key j e.tags (remove_tags dec dec_tag e.key old.tags c.tags),
      has_tag-remove_tags dec dec_tag t e.key j old.tags c.tags,
      tagged-remove t e.key j c.entries s.distinct,
      s.indexed t j,
    );
  }

  pub push_entry-IsSound :
      (e : Entry K V T) (c : Lru K V T)
      → find dec e.key c.entries ≡ none
      → IsSound c
      → IsSound (push_entry dec dec_tag e c)
  unfolding push_entry find
  push_entry-IsSound e c h s = record {
    distinct = (h, s.distinct);
    indexed =
        λ t j. ground (arith, has_tag-add_tags dec dec_tag t e.key j e.tags c.tags, s.indexed t j);
  }
