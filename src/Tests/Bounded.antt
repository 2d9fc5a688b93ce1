-- ===== src/Tests/Bounded.antt =====
-- pkg/agent/bounded_cache.go at a full cache, with numbers for the keys and the values.
use dragonscale.Prelude.{ℕ, ◌≡◌, refl, [], ◌∷◌, some, arith, ℕ_discrete}
use dragonscale.Prelude.Int.{pos}
use dragonscale.Cache.Bounded.{
  BoundedCache, new_bounded_cache, value_of, put, drop_key, drop_keys, load, evict_half, make_room,
  store, IsValid,
}
use dragonscale.Cache.Bounded.Store.{store-IsValid}

program : Unit {0}
unfolding new_bounded_cache value_of put drop_key drop_keys evict_half make_room store ℕ_discrete
program = tt

abbrev eq : Discrete ℕ
eq = ℕ_discrete

abbrev full : BoundedCache ℕ ℕ
full = record { items = (1, 10) ∷ (2, 20) ∷ (3, 30) ∷ []; order = 1 ∷ 2 ∷ 3 ∷ []; capacity = 3 }

full-IsValid : IsValid eq full
full-IsValid = record { ordered = refl; positive = omega arith; bounded = omega arith }

filled : store eq 3 30 (store eq 2 20 (store eq 1 10 (new_bounded_cache (pos 3)))) ≡ full
unfolding program
filled = refl

store-IsValid_example : IsValid eq (store eq 4 40 full) × (load eq 4 (store eq 4 40 full) ≡ some 40)
store-IsValid_example = store-IsValid eq 4 40 full full-IsValid
