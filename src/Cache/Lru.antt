-- ===== src/Cache/Lru.antt =====
-- The methods of the LRU cache of pkg/cache/lru.go, as steps on its entries.
pub mod Tags
pub mod Valid
pub mod Writes
pub mod History
pub mod Removals
pub mod Reads
pub mod Evict
use dragonscale.Cache.Entries.{
  Entry, Options, Lru, new, find, remove, mem_tag, has_tag, add_tags, delete_pair, remove_tags,
  keys_of, expiry, staleness, back, is_expired, is_stale, keys_from, pairs, reversed,
}
use dragonscale.Prelude.{
  ℕ, zero, suc, ◌+◌, Bool, true, false, not, ◌||◌, ◌&&◌, List, [], ◌∷◌, ◌++◌, Option, none, some,
  length, ltb, leb, ◌==◌, ite, if◌then◌else◌,
}

module _ {K V T : Type 0} (dec : Discrete K) (dec_tag : Discrete T) where
  -- `removeLocked`.
  unfoldable pub remove_locked : K → Lru K V T → Lru K V T
  remove_locked k c = elim (find dec k c.entries) [
    | none ↦ c
    | some e ↦ record c {
      entries = remove dec k c.entries;
      tags = remove_tags dec dec_tag k e.tags c.tags;
      evicted = if c.opts.notifies then c.evicted ++ ((e.key, e.value) ∷ []) else c.evicted;
    }
  ]

  -- `evictOldestLocked`.
  unfoldable pub evict_oldest : Lru K V T → Lru K V T
  evict_oldest c = elim (back c.entries) [ none ↦ c | some e ↦ remove_locked e.key c ]

  -- The entry that is there is moved to the front and given its new fields.
  unfoldable pub update_entry : Entry K V T → Entry K V T → Lru K V T → Lru K V T
  update_entry old e c = record c {
    entries = e ∷ remove dec e.key c.entries;
    tags = add_tags dec dec_tag e.key e.tags (remove_tags dec dec_tag e.key old.tags c.tags);
  }

  unfoldable pub push_entry : Entry K V T → Lru K V T → Lru K V T
  push_entry e c = record c {
    entries = e ∷ c.entries;
    tags = add_tags dec dec_tag e.key e.tags c.tags;
  }

  unfoldable pub insert_entry : Entry K V T → Lru K V T → Lru K V T
  insert_entry e c =
      let pushed = push_entry e c in
      if ltb 0 c.opts.max_size && ltb c.opts.max_size (length pushed.entries)
      then evict_oldest pushed
      else pushed

  -- `SetWithOptions`, at a reading of the clock. The caller does not change its slice of tags, which
  -- the entry shares, afterwards.
  unfoldable pub set_with_options : ℕ → K → V → ℕ → List T → Lru K V T → Lru K V T
  set_with_options now k v ttl tags c =
      let e : Entry K V T = record {
        key = k;
        value = v;
        tags = tags;
        expires_at = expiry now ttl;
        stale_at = staleness now ttl c.opts.stale_ttl;
      } in
      elim (find dec k c.entries) [ none ↦ insert_entry e c | some old ↦ update_entry old e c ]

  -- `Set`, `SetWithTags` and `SetWithTTL`.
  unfoldable pub set : ℕ → K → V → Lru K V T → Lru K V T
  set now k v c = set_with_options now k v c.opts.ttl [] c

  unfoldable pub set_with_tags : ℕ → K → V → List T → Lru K V T → Lru K V T
  set_with_tags now k v tags c = set_with_options now k v c.opts.ttl tags c

  unfoldable pub set_with_ttl : ℕ → K → V → ℕ → Lru K V T → Lru K V T
  set_with_ttl now k v ttl c = set_with_options now k v ttl [] c

  abbrev pub move_to_front : Entry K V T → Lru K V T → Lru K V T
  move_to_front e c = record c { entries = e ∷ remove dec e.key c.entries }

  -- `Get`: the cache, the value if there is one, and whether a background refresh is started.
  unfoldable pub get : ℕ → K → Lru K V T → Lru K V T × Option V × Bool
  get now k c = elim (find dec k c.entries) [
    | none ↦ (c, none, false)
    | some e ↦
        if is_expired now e
        then (remove_locked k c, none, false)
        else if is_stale now e
        then (move_to_front e c, some e.value, c.opts.refreshes)
        else (move_to_front e c, some e.value, false)
  ]

  -- `Peek`.
  unfoldable pub peek : ℕ → K → Lru K V T → Lru K V T × Option V
  peek now k c = elim (find dec k c.entries) [
    | none ↦ (c, none)
    | some e ↦ if is_expired now e then (remove_locked k c, none) else (c, some e.value)
  ]

  -- `Delete`.
  abbrev pub delete : K → Lru K V T → Lru K V T
  delete k c = remove_locked k c

  unfoldable pub remove_each : List K → Lru K V T → Lru K V T
  remove_each [] c = c
  remove_each (k ∷ ks) c = remove_each ks (remove_locked k c)

  -- `InvalidateByTag`, with the keys in the order of the index (Go's map has none).
  unfoldable pub invalidate_by_tag : T → Lru K V T → Lru K V T
  invalidate_by_tag t c = remove_each (keys_of dec_tag t c.tags) c

  -- `Len`, `Keys`.
  abbrev pub len : Lru K V T → ℕ
  len c = length c.entries

  abbrev pub keys : Lru K V T → List K
  keys c = keys_from c.entries

  -- `Clear`, with the entries in the order of the list (Go's map has none).
  unfoldable pub clear : Lru K V T → Lru K V T
  clear c = record c {
    entries = [];
    tags = [];
    evicted = if c.opts.notifies then c.evicted ++ pairs c.entries else c.evicted;
  }

  -- The loop of `Purge`: the entries from the back on, and how many were purged.
  unfoldable pub purge_from : ℕ → List (Entry K V T) → Lru K V T × ℕ → Lru K V T × ℕ
  purge_from now [] s = s
  purge_from now (e ∷ es) s =
      purge_from now es (if is_expired now e then (remove_locked e.key s.0, s.1 + 1) else s)

  -- `Purge`.
  unfoldable pub purge : ℕ → Lru K V T → Lru K V T × ℕ
  purge now c = purge_from now (reversed c.entries []) (c, 0)

  -- `refreshEntry`, at the time at which the fetch returned; `none` is a failed fetch.
  unfoldable pub refresh_entry : ℕ → K → Option V → Lru K V T → Lru K V T
  refresh_entry now k fetched c =
      if c.opts.refreshes then elim fetched [ none ↦ c | some v ↦ set now k v c ] else c
