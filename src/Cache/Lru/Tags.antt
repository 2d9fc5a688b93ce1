-- ===== src/Cache/Lru/Tags.antt =====
-- The index of tags, and the entries by key.
use dragonscale.Prelude.{
  ◌+◌, ◌≡◌, ◌∙◌, Bool, true, false, not, ◌||◌, ◌&&◌, List, [], ◌∷◌, none, some, length, ite, if_pos,
  if_neg, arith,
}
use dragonscale.Cache.Entries.{
  Entry, find, remove, mem_tag, has_tag, add_tags, delete_pair, remove_tags, back,
}

module _ {K T : Type 0} (dec : Discrete K) (dec_tag : Discrete T) where
  abbrev pub same : K → K → Bool
  same k j = ite (dec k j) true false

  has_tag-delete_pair :
      (t u : T) (k j : K) (ps : List (T × K))
      → has_tag dec dec_tag t j (delete_pair dec dec_tag u k ps)
        ≡ ite
            (dec_tag u t)
            (ite (dec k j) false (has_tag dec dec_tag t j ps))
            (has_tag dec dec_tag t j ps)
  unfolding has_tag delete_pair
  has_tag-delete_pair t u k j [] = ground arith
  has_tag-delete_pair t u k j ((v, i) ∷ ps) = ground (arith, has_tag-delete_pair t u k j ps)

  -- Adding tags under a key adds those, and changes nothing under another key.
  pub has_tag-add_tags :
      (t : T) (k j : K) (ts : List T) (ps : List (T × K))
      → has_tag dec dec_tag t j (add_tags dec dec_tag k ts ps)
        ≡ (has_tag dec dec_tag t j ps || (same k j && mem_tag dec_tag t ts))
  unfolding has_tag add_tags mem_tag
  has_tag-add_tags t k j [] ps = ground arith
  has_tag-add_tags t k j (u ∷ ts) ps =
      ground (arith, has_tag-add_tags t k j ts ps, has_tag-add_tags t k j ts ((u, k) ∷ ps))

  -- Removing tags under a key removes those, and changes nothing under another key.
  pub has_tag-remove_tags :
      (t : T) (k j : K) (ts : List T) (ps : List (T × K))
      → has_tag dec dec_tag t j (remove_tags dec dec_tag k ts ps)
        ≡ (has_tag dec dec_tag t j ps && not (same k j && mem_tag dec_tag t ts))
  unfolding has_tag remove_tags mem_tag
  has_tag-remove_tags t k j [] ps = ground arith
  has_tag-remove_tags t k j (u ∷ ts) ps = ground (
    arith,
    has_tag-remove_tags t k j ts (delete_pair dec dec_tag u k ps),
    has_tag-delete_pair t u k j ps,
  )

module _ {K V T : Type 0} (dec : Discrete K) where
  -- No key twice.
  abbrev pub Distinct : List (Entry K V T) → Type 0
  Distinct [] = Unit
  Distinct (e ∷ es) = (find dec e.key es ≡ none) × Distinct es

  pub find-remove :
      (k j : K) (es : List (Entry K V T))
      → Distinct es
      → find dec j (remove dec k es) ≡ ite (dec k j) none (find dec j es)
  unfolding find remove
  find-remove k j [] d = ground arith
  find-remove k j (e ∷ es) d = ground (arith, find-remove k j es d.1)

  pub find_key :
      (k : K) (es : List (Entry K V T)) (e : Entry K V T) → find dec k es ≡ some e → e.key ≡ k
  unfolding find
  find_key k [] e h = cc
  find_key k (f ∷ es) e h = ground (arith, find_key k es e)

  pub Distinct-remove : (k : K) (es : List (Entry K V T)) → Distinct es → Distinct (remove dec k es)
  unfolding remove
  Distinct-remove k [] d = tt
  Distinct-remove k (e ∷ es) d = elim (dec e.key k) [
    | yes p ↦ rw (if_pos _ p, remove) d.1
    | no p ↦
        rw (if_neg _ p, remove)
          (find-remove k e.key es d.1 ∙ ground arith, Distinct-remove k es d.1)
  ]

  pub length-remove :
      (k : K) (es : List (Entry K V T)) (e : Entry K V T)
      → find dec k es ≡ some e
      → length (remove dec k es) + 1 ≡ length es
  unfolding find remove
  length-remove k [] e h = cc
  length-remove k (f ∷ es) e h = ground (arith, length-remove k es e)

  -- The entry at the back is found, when no key is there twice.
  pub find-back :
      (es : List (Entry K V T)) (e : Entry K V T)
      → back es ≡ some e
      → (f : Entry K V T) × (find dec e.key es ≡ some f)
  unfolding find back
  find-back [] e h = cc
  find-back (g ∷ []) e h = (g, ground arith)
  find-back (g ∷ f ∷ es) e h = elim (dec g.key e.key) [
    | yes p ↦ (g, ground arith)
    | no p ↦ ((find-back (f ∷ es) e h).0, rw (if_neg _ p, find) (find-back (f ∷ es) e h).1)
  ]
