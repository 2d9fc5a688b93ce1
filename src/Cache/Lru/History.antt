-- ===== src/Cache/Lru/History.antt =====
-- The caches that the calls of pkg/cache/lru.go lead to, one after another: each call holds the
-- cache's mutex from its first step to its last.
use dragonscale.Prelude.{
  ℕ, ◌+◌, refl, Bool, true, false, List, [], ◌∷◌, Option, none, some, if◌then◌else◌, arith,
  Bool-cases, Option-cases, inl, inr,
}
use dragonscale.Cache.Entries.{Entry, Options, Lru, find, has_tag, is_expired, is_stale, new}
use dragonscale.Cache.Lru.{
  remove_locked, set_with_options, get, peek, remove_each, invalidate_by_tag, clear, purge_from,
  purge, refresh_entry, set,
}
use dragonscale.Cache.Lru.Valid.{IsValid, remove_locked-IsValid}
use dragonscale.Cache.Lru.Writes.{set_with_options-IsValid, move_to_front-IsValid}

module _ {K V T : Type 0} (dec : Discrete K) (dec_tag : Discrete T) where
  get-IsValid :
      (now : ℕ) (k : K) (c : Lru K V T)
      → IsValid dec dec_tag c
      → IsValid dec dec_tag (get dec dec_tag now k c).0
  unfolding get
  get-IsValid now k c v = elim (Option-cases (find dec k c.entries)) [
    | inl h ↦ rw (h, get) v
    | inr (e, h) ↦
        rw (h, get)
          elim (Bool-cases (is_expired now e)) [
            | inl x ↦ rw (x) (remove_locked-IsValid dec dec_tag k c v)
            | inr x ↦ rw (x) elim (Bool-cases (is_stale now e)) [
              | inl y ↦ rw (y) (move_to_front-IsValid dec dec_tag k e c h v)
              | inr y ↦ rw (y) (move_to_front-IsValid dec dec_tag k e c h v)
            ]
          ]
  ]

  peek-IsValid :
      (now : ℕ) (k : K) (c : Lru K V T)
      → IsValid dec dec_tag c
      → IsValid dec dec_tag (peek dec dec_tag now k c).0
  unfolding peek
  peek-IsValid now k c v = elim (Option-cases (find dec k c.entries)) [
    | inl h ↦ rw (h, peek) v
    | inr (e, h) ↦
        rw (h, peek)
          elim (Bool-cases (is_expired now e)) [
            | inl x ↦ rw (x) (remove_locked-IsValid dec dec_tag k c v)
            | inr x ↦ rw (x) v
          ]
  ]

  remove_each-IsValid :
      (ks : List K) (c : Lru K V T)
      → IsValid dec dec_tag c
      → IsValid dec dec_tag (remove_each dec dec_tag ks c)
  unfolding remove_each
  remove_each-IsValid [] c v = v
  remove_each-IsValid (k ∷ ks) c v =
      remove_each-IsValid ks (remove_locked dec dec_tag k c)
        (remove_locked-IsValid dec dec_tag k c v)

  clear-IsValid : (c : Lru K V T) → IsValid dec dec_tag (clear dec dec_tag c)
  unfolding clear find has_tag
  clear-IsValid c = (record { distinct = tt; indexed = λ t j. refl }, ground arith)

  purge_from-IsValid :
      (now : ℕ) (es : List (Entry K V T)) (s : Lru K V T × ℕ)
      → IsValid dec dec_tag s.0
      → IsValid dec dec_tag (purge_from dec dec_tag now es s).0
  unfolding purge_from
  purge_from-IsValid now [] s v = v
  purge_from-IsValid now (e ∷ es) s v = elim (Bool-cases (is_expired now e)) [
    | inl x ↦
        rw (x, purge_from)
          (purge_from-IsValid now es (remove_locked dec dec_tag e.key s.0, s.1 + 1)
            (remove_locked-IsValid dec dec_tag e.key s.0 v))
    | inr x ↦ rw (x, purge_from) (purge_from-IsValid now es s v)
  ]

  either :
      (b : Bool) (c d : Lru K V T)
      → IsValid dec dec_tag c
      → IsValid dec dec_tag d
      → IsValid dec dec_tag (if b then c else d)
  either true c d v w = v
  either false c d v w = w

  refresh_entry-IsValid :
      (now : ℕ) (k : K) (fetched : Option V) (c : Lru K V T)
      → IsValid dec dec_tag c
      → IsValid dec dec_tag (refresh_entry dec dec_tag now k fetched c)
  unfolding refresh_entry set
  refresh_entry-IsValid now k none c v = either c.opts.refreshes c c v v
  refresh_entry-IsValid now k (some w) c v =
      either c.opts.refreshes _ c (set_with_options-IsValid dec dec_tag now k w c.opts.ttl [] c v) v

  -- A call on the cache, with the time that it reads.
  pub data Step : Lru K V T → Lru K V T → Type 0 where
    set_step :
        {c : Lru K V T} (now : ℕ) (k : K) (v : V) (ttl : ℕ) (tags : List T)
        → Step c (set_with_options dec dec_tag now k v ttl tags c)
    get_step : {c : Lru K V T} (now : ℕ) (k : K) → Step c (get dec dec_tag now k c).0
    peek_step : {c : Lru K V T} (now : ℕ) (k : K) → Step c (peek dec dec_tag now k c).0
    delete_step : {c : Lru K V T} (k : K) → Step c (remove_locked dec dec_tag k c)
    invalidate_step : {c : Lru K V T} (t : T) → Step c (invalidate_by_tag dec dec_tag t c)
    clear_step : {c : Lru K V T} → Step c (clear dec dec_tag c)
    purge_step : {c : Lru K V T} (now : ℕ) → Step c (purge dec dec_tag now c).0
    refresh_step :
        {c : Lru K V T} (now : ℕ) (k : K) (fetched : Option V)
        → Step c (refresh_entry dec dec_tag now k fetched c)

  pub data Reachable (opts : Options) : Lru K V T → Type 0 where
    start : Reachable opts (new opts)
    next : {c d : Lru K V T} → Reachable opts c → Step c d → Reachable opts d

  Step-IsValid : (c d : Lru K V T) → Step c d → IsValid dec dec_tag c → IsValid dec dec_tag d
  unfolding invalidate_by_tag purge
  Step-IsValid c _ (set_step now k v ttl tags) h =
      set_with_options-IsValid dec dec_tag now k v ttl tags c h
  Step-IsValid c _ (get_step now k) h = get-IsValid now k c h
  Step-IsValid c _ (peek_step now k) h = peek-IsValid now k c h
  Step-IsValid c _ (delete_step k) h = remove_locked-IsValid dec dec_tag k c h
  Step-IsValid c _ (invalidate_step t) h = remove_each-IsValid _ c h
  Step-IsValid c _ clear_step h = clear-IsValid c
  Step-IsValid c _ (purge_step now) h = purge_from-IsValid now _ (c, 0) h
  Step-IsValid c _ (refresh_step now k fetched) h = refresh_entry-IsValid now k fetched c h

  -- In every cache that calls lead to from a new one, no key is there twice, the index of tags has
  -- a key under a tag exactly if the entry of the key has the tag, and a positive maximal size is
  -- not exceeded.
  pub Reachable-IsValid :
      (opts : Options) (c : Lru K V T) → Reachable opts c → IsValid dec dec_tag c
  unfolding new find has_tag
  Reachable-IsValid opts _ start = (record { distinct = tt; indexed = λ t j. refl }, ground arith)
  Reachable-IsValid opts d (next {c = c} r s) = Step-IsValid c d s (Reachable-IsValid opts c r)
