-- ===== src/Ids/Uuid/Fresh.antt =====
-- What `New` of pkg/ids/uuidv7.go makes: RFC 9562, version 7.
use dragonscale.Prelude.{
  ℕ, ◌+◌, ◌*◌, ◌/◌, ◌%◌, ◌^◌, ◌<◌, ◌≡◌, refl, List, [], ◌∷◌, some, length, take, get_elem?, arith,
}
use dragonscale.Ids.Uuid.{AllBytes, IsUuid, marked, new_v7}

-- The number of some big-endian bytes.
abbrev pub big_endian : ℕ → List ℕ → ℕ
big_endian acc [] = acc
big_endian acc (b ∷ bs) = big_endian (acc * 256 + b) bs

-- A version 7 UUID of a time: its first 48 bits, the version and the variant.
pub record IsVersion7 (ms : ℕ) (u : List ℕ) : Type 0 where
  pub uuid : IsUuid u
  pub timestamp : big_endian 0 (take 6 u) ≡ ms
  pub version : (b : ℕ) × (get_elem? u 6 ≡ some b) × (b / 16 ≡ 7)
  pub variant : (b : ℕ) × (get_elem? u 8 ≡ some b) × (b / 64 ≡ 2)

marked-AllBytes : (random : List ℕ) → AllBytes random → AllBytes (marked random)
unfolding marked
marked-AllBytes (r ∷ s ∷ t ∷ rest) h = (omega arith, (h.1.0, (omega arith, h.1.1.1)))
marked-AllBytes [] h = h
marked-AllBytes (r ∷ []) h = h
marked-AllBytes (r ∷ s ∷ []) h = h

length-marked : (random : List ℕ) → length (marked random) ≡ length random
unfolding marked
length-marked (r ∷ s ∷ t ∷ rest) = refl
length-marked [] = refl
length-marked (r ∷ []) = refl
length-marked (r ∷ s ∷ []) = refl

marked_at_0 :
    (random : List ℕ)
    → length random ≡ 10
    → (b : ℕ) × (get_elem? (marked random) 0 ≡ some b) × (b / 16 ≡ 7)
unfolding marked
marked_at_0 (r ∷ s ∷ t ∷ rest) h = (r % 16 + 0x70, refl, omega arith)
marked_at_0 [] h = absurd (omega (arith, h))
marked_at_0 (r ∷ []) h = absurd (omega (arith, h))
marked_at_0 (r ∷ s ∷ []) h = absurd (omega (arith, h))

marked_at_2 :
    (random : List ℕ)
    → length random ≡ 10
    → (b : ℕ) × (get_elem? (marked random) 2 ≡ some b) × (b / 64 ≡ 2)
unfolding marked
marked_at_2 (r ∷ s ∷ t ∷ rest) h = (t % 64 + 0x80, refl, omega arith)
marked_at_2 [] h = absurd (omega (arith, h))
marked_at_2 (r ∷ []) h = absurd (omega (arith, h))
marked_at_2 (r ∷ s ∷ []) h = absurd (omega (arith, h))

-- At a time below 2^48 and with ten random bytes, a new UUID is sixteen bytes, carries the time in
-- its first 48 bits, and has the version 7 and the variant of the RFC.
pub new_v7-IsVersion7 :
    (ms : ℕ) (random : List ℕ)
    → ms < 2 ^ 48
    → length random ≡ 10
    → AllBytes random
    → IsVersion7 ms (new_v7 ms random)
unfolding new_v7
new_v7-IsVersion7 ms random small ten bytes = record {
  uuid = record {
    sixteen = omega (arith, ten, length-marked random);
    bytes = (
      omega arith,
      (
        omega arith,
        (omega arith, (omega arith, (omega arith, (omega arith, marked-AllBytes random bytes)))),
      ),
    );
  };
  timestamp = omega arith;
  version = marked_at_0 random ten;
  variant = marked_at_2 random ten;
}
