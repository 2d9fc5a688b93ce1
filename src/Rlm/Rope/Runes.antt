-- ===== src/Rlm/Rope/Runes.antt =====
-- `Partition` of pkg/rlm/rope.go cuts at rune boundaries.
use dragonscale.Prelude.{
  ℕ, zero, suc, ◌+◌, ◌-◌, ◌≤◌, ◌<◌, ◌/◌, ◌≡◌, inl, inr, Bool, true, false, ◌||◌, List, [], ◌∷◌,
  ◌++◌, take, drop, replicate, drop_of_length-le, ltb, leb, ◌==◌, if◌then◌else◌, arith, Bool-cases,
}
use dragonscale.Prelude.Int.{ℤ, pos, negsuc}
use dragonscale.Rlm.Rope.{
  Rope, len, string, byte_at, rune_start, walk_back, part_end, parts_from, pad, partition_into,
  partition,
}
use dragonscale.Rlm.Rope.Slice.{IsValid, len-string, slice-span}
use dragonscale.Rlm.Rope.Partition.{part_end_bounds, slice_or_empty-span}

-- The first byte of a text, if it has one, begins a rune.
abbrev pub StartsRune : List ℕ → Type 0
StartsRune [] = Unit
StartsRune (b ∷ bs) = rune_start b ≡ true

abbrev pub AllStartRune : List (List ℕ) → Type 0
AllStartRune [] = Unit
AllStartRune (p ∷ ps) = StartsRune p × AllStartRune ps

StartsRune-take : (n : ℕ) (bytes : List ℕ) → StartsRune bytes → StartsRune (take n bytes)
StartsRune-take zero bytes s = tt
StartsRune-take (suc n) [] s = tt
StartsRune-take (suc n) (b ∷ bs) s = s

AllStartRune-append :
    (ps : List (List ℕ)) (n : ℕ) → AllStartRune ps → AllStartRune (ps ++ replicate n [])
AllStartRune-append [] zero a = tt
AllStartRune-append [] (suc n) a = (tt, AllStartRune-append [] n a)
AllStartRune-append (p ∷ ps) n a = (a.0, AllStartRune-append ps n a.1)

module _ (r : Rope) (h : IsValid r) where
  first_byte : List ℕ → ℕ
  first_byte [] = 0
  first_byte (b ∷ bs) = b

  byte_at-span : (at : ℕ) → at < len r → byte_at r at ≡ first_byte (take 1 (drop at (string r)))
  unfolding byte_at first_byte
  byte_at-span at a = ground (arith, slice-span r (pos at) (pos (at + 1)) h, len-string r h)

  first_byte-StartsRune :
      (bytes : List ℕ) → rune_start (first_byte (take 1 bytes)) ≡ true → StartsRune bytes
  unfolding first_byte
  first_byte-StartsRune [] s = tt
  first_byte-StartsRune (b ∷ bs) s = s

  byte_at-StartsRune : (at : ℕ) → rune_start (byte_at r at) ≡ true → StartsRune (drop at (string r))
  byte_at-StartsRune at s = elim (Bool-cases (ltb at (len r))) [
    | inl e ↦ first_byte-StartsRune (drop at (string r)) (rw (byte_at-span at (ground arith)) at s)
    | inr e ↦ rw (drop_of_length-le at (string r) (ground (arith, len-string r h))) tt
  ]

  walk_back-StartsRune :
      (at gap : ℕ)
      → StartsRune (drop at (string r))
      → StartsRune (drop (walk_back r at gap) (string r))
  unfolding walk_back
  walk_back-StartsRune at zero s = s
  walk_back-StartsRune at (suc gap) s = elim (Bool-cases (rune_start (byte_at r (at + suc gap)))) [
    | inl e ↦ rw e (byte_at-StartsRune (at + suc gap) e)
    | inr e ↦ rw e (walk_back-StartsRune at gap s)
  ]

  part_end-StartsRune :
      (chunk at : ℕ) (last : Bool)
      → at ≤ len r
      → StartsRune (drop at (string r))
      → StartsRune (drop (part_end r chunk last at) (string r))
  unfolding part_end
  part_end-StartsRune chunk at last a s = elim (Bool-cases (last || leb (len r) (at + chunk))) [
    | inl e ↦
        rw (e, ltb_irrefl (len r))
          (rw (drop_of_length-le (len r) (string r) (omega (arith, len-string r h))) tt)
    | inr e ↦ rw e (elim (Bool-cases (ltb (at + chunk) (len r))) [
      | inl f ↦ rw f (walk_back-StartsRune at (at + chunk - at) s)
      | inr f ↦ absurd (ground arith)
    ])
  ]
    where
      ltb_irrefl : (n : ℕ) → ltb n n ≡ false
      ltb_irrefl n = ground arith

  parts_from-AllStartRune :
      (chunk rounds at : ℕ)
      → at ≤ len r
      → StartsRune (drop at (string r))
      → AllStartRune (parts_from r chunk rounds at)
  unfolding parts_from
  parts_from-AllStartRune chunk zero at a s = tt
  parts_from-AllStartRune chunk (suc rounds) at a s =
      let (lo, hi) = part_end_bounds r chunk at (rounds == 0) a in
      let end = part_end r chunk (rounds == 0) at in
      (
        rw (slice_or_empty-span r h at end lo hi)
            (StartsRune-take (end - at) (drop at (string r)) s),
        rest (leb (len r) end) (parts_from r chunk rounds end) (
            parts_from-AllStartRune chunk rounds end hi
              (part_end-StartsRune chunk at (rounds == 0) a s)),
      )
    where
      rest : (b : Bool) (ps : List (List ℕ)) → AllStartRune ps → AllStartRune (if b then [] else ps)
      rest true ps q = tt
      rest false ps q = q

  partition_into-AllStartRune : (k : ℕ) → StartsRune (string r) → AllStartRune (partition_into r k)
  unfolding partition_into pad
  partition_into-AllStartRune k s = elim (Bool-cases (len r == 0)) [
    | inl e ↦ rw e (AllStartRune-append [] k tt)
    | inr e ↦
        let chunk = if len r / k == 0 then 1 else len r / k in
        rw e (
          AllStartRune-append (parts_from r chunk k 0) _
            (parts_from-AllStartRune chunk k 0 (omega arith) s))
  ]

  -- No part of a valid rope whose text begins with a rune begins inside one: partitioning cuts at
  -- rune boundaries only.
  pub partition-AllStartRune : (k : ℤ) → StartsRune (string r) → AllStartRune (partition r k)
  unfolding partition
  partition-AllStartRune (pos zero) s = partition_into-AllStartRune 1 s
  partition-AllStartRune (pos (suc k)) s = partition_into-AllStartRune (suc k) s
  partition-AllStartRune (negsuc k) s = partition_into-AllStartRune 1 s
