-- ===== src/Cache/Lru/Reads.antt =====
-- What a read of pkg/cache/lru.go gives after a write.
use dragonscale.Prelude.{
  ℕ, suc, ◌+◌, ◌<◌, ◌≡◌, refl, sym, ap, ◌∙◌, subst, not, ◌||◌, ◌&&◌, List, [], ◌∷◌, none, some,
  length, ltb, leb, ◌==◌, if_neg, if◌then◌else◌, arith, Bool-cases, Option-cases, inl, inr,
}
use dragonscale.Cache.Entries.{Entry, Options, Lru, find, back, expiry, staleness, is_expired}
use dragonscale.Cache.Lru.{
  evict_oldest, update_entry, push_entry, insert_entry, set_with_options, get,
}
use dragonscale.Cache.Lru.Tags.{Distinct, find-back}
use dragonscale.Cache.Lru.Valid.{IsSound}
use dragonscale.Cache.Lru.Removals.{find-remove_locked}

module _ {K V T : Type 0} (dec : Discrete K) (dec_tag : Discrete T) where
  find_head : (e : Entry K V T) (es : List (Entry K V T)) → find dec e.key (e ∷ es) ≡ some e
  unfolding find
  find_head e es = ground arith

  -- An eviction keeps the entry that was just put in, if the cache may hold one.
  find-evict_oldest :
      (e : Entry K V T) (es : List (Entry K V T)) (c : Lru K V T)
      → c.entries ≡ e ∷ es
      → Distinct dec c.entries
      → 0 < length es
      → find dec e.key (evict_oldest dec dec_tag c).entries ≡ some e
  unfolding evict_oldest back
  find-evict_oldest e [] c q d b = ground (arith, b)
  find-evict_oldest e (f ∷ es) c q d b = elim (Option-cases (back c.entries)) [
    | inl h ↦ rw (h, evict_oldest, q) (find_head e (f ∷ es))
    | inr (g, h) ↦
        let last : back (f ∷ es) ≡ some g = ap back (sym q) ∙ h in
        let g' = find-back dec (f ∷ es) g last in
        let fresh : find dec e.key (f ∷ es) ≡ none = (subst (Distinct dec) q d).0 in
        let other : ¬ (g.key ≡ e.key) =
          λ p. ground (arith, g'.1, subst (λ i. find dec i (f ∷ es) ≡ none) (sym p) fresh) in
        rw (h, evict_oldest)
          (find-remove_locked dec dec_tag g.key e.key c d
            ∙ if_neg (dec g.key e.key) other none (find dec e.key c.entries)
            ∙ ap (find dec e.key) q
            ∙ find_head e (f ∷ es))
  ]

  -- The entry that `SetWithOptions` writes.
  abbrev pub written : ℕ → K → V → ℕ → List T → Options → Entry K V T
  written now k v ttl tags o = record {
    key = k;
    value = v;
    tags = tags;
    expires_at = expiry now ttl;
    stale_at = staleness now ttl o.stale_ttl;
  }

  find-insert_entry :
      (e : Entry K V T) (c : Lru K V T)
      → find dec e.key c.entries ≡ none
      → IsSound dec dec_tag c
      → find dec e.key (insert_entry dec dec_tag e c).entries ≡ some e
  unfolding insert_entry push_entry
  find-insert_entry e c h s =
      let full = ltb 0 c.opts.max_size && ltb c.opts.max_size (suc (length c.entries)) in
      elim (Bool-cases full) [
        | inl t ↦
            rw (t, insert_entry)
              (find-evict_oldest e c.entries (push_entry dec dec_tag e c) refl (h, s.distinct)
                (ground arith))
        | inr t ↦ rw (t, insert_entry) (find_head e c.entries)
      ]

  find-set_with_options :
      (now : ℕ) (k : K) (v : V) (ttl : ℕ) (tags : List T) (c : Lru K V T)
      → IsSound dec dec_tag c
      → find dec k (set_with_options dec dec_tag now k v ttl tags c).entries
        ≡ some (written now k v ttl tags c.opts)
  unfolding set_with_options update_entry
  find-set_with_options now k v ttl tags c s = elim (Option-cases (find dec k c.entries)) [
    | inl h ↦ rw (h, set_with_options) (find-insert_entry _ c h s)
    | inr (old, h) ↦ rw (h, set_with_options) (find_head _ _)
  ]

  get_found :
      (now : ℕ) (k : K) (e : Entry K V T) (c : Lru K V T)
      → find dec k c.entries ≡ some e
      → (get dec dec_tag now k c).1 ≡ (if is_expired now e then none else some e.value)
  unfolding get
  get_found now k e c h = rw (h, get) ground arith

  is_expired-written :
      (now later : ℕ) (k : K) (v : V) (ttl : ℕ) (tags : List T) (o : Options)
      → is_expired later (written now k v ttl tags o)
        ≡ not ((ttl == 0) || leb later (now + ttl + o.stale_ttl))
  unfolding is_expired expiry staleness
  is_expired-written now later k v ttl tags o = ground arith

  -- A read after a write of the same key gives the value exactly as long as the TTL and the stale
  -- window together last, and for ever with a TTL of 0; the write's own eviction never hits it.
  pub get-set_with_options :
      (now later : ℕ) (k : K) (v : V) (ttl : ℕ) (tags : List T) (c : Lru K V T)
      → IsSound dec dec_tag c
      → (get dec dec_tag later k (set_with_options dec dec_tag now k v ttl tags c)).1
        ≡ (if (ttl == 0) || leb later (now + ttl + c.opts.stale_ttl) then some v else none)
  get-set_with_options now later k v ttl tags c s =
      get_found later k _ _ (find-set_with_options now k v ttl tags c s)
      ∙ rw (is_expired-written now later k v ttl tags c.opts) ground arith
