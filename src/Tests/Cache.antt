-- ===== src/Tests/Cache.antt =====
-- pkg/cache/lru.go at concrete caches, with numbers for the keys, the values and the tags.
use dragonscale.Prelude.{
  ℕ, ◌+◌, ◌≡◌, refl, true, ◌||◌, [], ◌∷◌, none, some, take, leb, ◌==◌, if◌then◌else◌, arith,
  ℕ_discrete,
}
use dragonscale.Cache.Entries.{
  Options, Lru, find, remove, mem_tag, has_tag, add_tags, delete_pair, remove_tags, keys_of, expiry,
  staleness, back, is_expired, is_stale, reversed, new,
}
use dragonscale.Cache.Lru.{
  remove_locked, evict_oldest, update_entry, push_entry, insert_entry, set_with_options, get, peek,
  remove_each, invalidate_by_tag, clear, purge_from, purge, refresh_entry, set,
}
use dragonscale.Cache.Lru.Valid.{IsValid}
use dragonscale.Cache.Lru.History.{set_step, Reachable, start, next, Reachable-IsValid}
use dragonscale.Cache.Lru.Reads.{written, get-set_with_options}
use dragonscale.Cache.Lru.Evict.{entries-set_with_options}

program : Unit {0}
unfolding find remove mem_tag has_tag add_tags delete_pair remove_tags keys_of expiry staleness back
    is_expired is_stale reversed remove_locked evict_oldest update_entry push_entry insert_entry
    set_with_options get peek remove_each invalidate_by_tag clear purge_from purge refresh_entry set
    new ℕ_discrete
program = tt

abbrev opts : Options
opts = record { max_size = 2; ttl = 10; stale_ttl = 5; notifies = true; refreshes = true }

abbrev eq : Discrete ℕ
eq = ℕ_discrete

abbrev empty : Lru ℕ ℕ ℕ
empty = record { entries = []; tags = []; opts = opts; evicted = [] }

-- Two writes at the times 1 and 2, the first under the tag 7.
abbrev one : Lru ℕ ℕ ℕ
one = set_with_options eq eq 1 3 30 10 (7 ∷ []) empty

abbrev two : Lru ℕ ℕ ℕ
two = set_with_options eq eq 2 4 40 10 [] one

two-Reachable : Reachable eq eq opts two
unfolding new
two-Reachable = next (next start (set_step 1 3 30 10 (7 ∷ []))) (set_step 2 4 40 10 [])

Reachable-IsValid_example : IsValid eq eq two
Reachable-IsValid_example = Reachable-IsValid eq eq opts two two-Reachable

get-set_with_options_example :
    (get eq eq 14 5 (set_with_options eq eq 3 5 50 10 [] two)).1
    ≡ (if (10 == 0) || leb 14 (3 + 10 + 5) then some 50 else none)
unfolding program
get-set_with_options_example =
    get-set_with_options eq eq 3 14 5 50 10 [] two
      (Reachable-IsValid eq eq opts two two-Reachable).0

entries-set_with_options_example :
    (set_with_options eq eq 3 5 50 10 [] two).entries
    ≡ take 2 (written eq eq 3 5 50 10 [] opts ∷ two.entries)
unfolding program
entries-set_with_options_example =
    entries-set_with_options eq eq 3 5 50 10 [] two (Reachable-IsValid eq eq opts two two-Reachable)
      refl (omega arith)

-- The third write gives up the key 3, and with it its tag.
third_write : (set_with_options eq eq 3 5 50 10 [] two).evicted ≡ (3, 30) ∷ []
unfolding program
third_write = refl
