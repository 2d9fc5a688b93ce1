-- ===== src/Rlm/Rope/Partition.antt =====
-- `Partition`: how many parts, that they make up the text, and where they are cut.
use Prim.Native.Nat.{max}
use mathlib.Core.List.{append-nil, append_assoc}
use dragonscale.Prelude.{
  ℕ, zero, suc, ◌+◌, ◌-◌, ◌≤◌, ◌<◌, ◌/◌, ◌≡◌, inl, inr, refl, sym, ap, ◌∙◌, Bool, true, List, [],
  ◌∷◌, ◌++◌, length, drop, replicate, length-append, length-replicate, drop_of_length-le, drop-drop,
  take-append-drop, leb, ◌==◌, if◌then◌else◌, arith, Bool-cases,
}
use dragonscale.Prelude.Int.{ℤ, pos, negsuc, pos_part}
use dragonscale.Rlm.Rope.{
  Rope, len, string, walk_back, part_end, slice_or_empty, parts_from, pad, partition_into,
  partition,
}
use dragonscale.Rlm.Rope.Slice.{IsValid, len-string, slice-span, span}

unfoldable pub flatten : List (List ℕ) → List ℕ
flatten [] = []
flatten (p ∷ ps) = p ++ flatten ps

flatten-append : (ps qs : List (List ℕ)) → flatten (ps ++ qs) ≡ flatten ps ++ flatten qs
unfolding flatten
flatten-append [] qs = refl
flatten-append (p ∷ ps) qs =
    rw (flatten-append ps qs) (sym (append_assoc p (flatten ps) (flatten qs)))

flatten-replicate : (n : ℕ) → flatten (replicate n []) ≡ []
unfolding flatten
flatten-replicate zero = refl
flatten-replicate (suc n) = flatten-replicate n

walk_back_bounds :
    (r : Rope) (at gap : ℕ) → (at ≤ walk_back r at gap) × (walk_back r at gap ≤ at + gap)
unfolding walk_back
walk_back_bounds r at zero = omega arith
walk_back_bounds r at (suc gap) = ground (arith, walk_back_bounds r at gap)

pub part_end_bounds :
    (r : Rope) (chunk at : ℕ) (last : Bool)
    → at ≤ len r
    → (at ≤ part_end r chunk last at) × (part_end r chunk last at ≤ len r)
unfolding part_end
part_end_bounds r chunk at last h =
    ground (arith, walk_back_bounds r at (at + chunk - at), walk_back_bounds r at (len r - at))

part_end_last : (r : Rope) (chunk at : ℕ) → part_end r chunk true at ≡ len r
unfolding part_end
part_end_last r chunk at = ground arith

module _ (r : Rope) (h : IsValid r) where
  pub slice_or_empty-span :
      (start end : ℕ)
      → start ≤ end
      → end ≤ len r
      → slice_or_empty r start end ≡ span start end (string r)
  unfolding slice_or_empty
  slice_or_empty-span start end a b =
      ground (arith, slice-span r (pos start) (pos end) h, len-string r h)

  drop-span :
      (start end : ℕ) (bytes : List ℕ)
      → start ≤ end
      → drop start bytes ≡ span start end bytes ++ drop end bytes
  drop-span start end bytes a =
      sym (take-append-drop (end - start) (drop start bytes))
      ∙ ap (λ k. span start end bytes ++ k)
          (drop-drop (end - start) start bytes ∙ ap (λ k. drop k bytes) (omega arith))

  -- One round, where the rounds after it make up what is left.
  flatten_step :
      (chunk rounds at end : ℕ)
      → end ≡ part_end r chunk (rounds == 0) at
      → at ≤ len r
      → (end < len r → flatten (parts_from r chunk rounds end) ≡ drop end (string r))
      → flatten (parts_from r chunk (suc rounds) at) ≡ drop at (string r)
  unfolding flatten parts_from
  flatten_step chunk rounds at end e a ih =
      let (lo, hi) = part_end_bounds r chunk at (rounds == 0) a in
      rw (← e) (
        rw (slice_or_empty-span at end (omega arith) (omega arith))
          (elim (Bool-cases (leb (len r) end)) [
            | inl f ↦ rw f (
                sym (
                  drop-span at end (string r) (omega arith)
                  ∙ ap (λ k. span at end (string r) ++ k)
                      (drop_of_length-le end (string r) (ground (arith, len-string r h)))))
            | inr f ↦ rw (f, ih (ground arith)) (sym (drop-span at end (string r) (omega arith)))
          ]))

  -- The parts from a position on make up the text from there on.
  flatten-parts_from :
      (chunk rounds at : ℕ)
      → at ≤ len r
      → flatten (parts_from r chunk (suc rounds) at) ≡ drop at (string r)
  flatten-parts_from chunk zero at a =
      flatten_step chunk zero at (part_end r chunk true at) refl a
        (λ f. absurd (omega (arith, part_end_last r chunk at)))
  flatten-parts_from chunk (suc rounds) at a =
      let end = part_end r chunk (suc rounds == 0) at in
      flatten_step chunk (suc rounds) at end refl a
        (λ f. flatten-parts_from chunk rounds end (omega arith))

  length-parts_from : (chunk rounds at : ℕ) → length (parts_from r chunk rounds at) ≤ rounds
  unfolding parts_from
  length-parts_from chunk zero at = omega arith
  length-parts_from chunk (suc rounds) at =
      ground (arith, length-parts_from chunk rounds (part_end r chunk (rounds == 0) at))

  partition_into_lem :
      (k : ℕ)
      → (length (partition_into r (suc k)) ≡ suc k)
        × (flatten (partition_into r (suc k)) ≡ string r)
  unfolding partition_into pad
  partition_into_lem k = elim (Bool-cases (len r == 0)) [
    | inl z ↦ rw z (
      ap suc (length-replicate {A = List ℕ} k []),
      flatten-replicate (suc k)
          ∙ sym (drop_of_length-le 0 (string r) (ground (arith, len-string r h))),
    )
    | inr z ↦
        let chunk = if len r / suc k == 0 then 1 else len r / suc k in
        let parts = parts_from r chunk (suc k) 0 in
        rw z (
          omega (
            arith,
            length-append parts (replicate (suc k - length parts) []),
            length-replicate {A = List ℕ} (suc k - length parts) [],
            length-parts_from chunk (suc k) 0,
          ),
          flatten-append parts (replicate (suc k - length parts) [])
              ∙ ap (λ q. flatten parts ++ q) (flatten-replicate (suc k - length parts))
              ∙ append-nil (flatten parts)
              ∙ flatten-parts_from chunk k 0 (omega arith),
        )
  ]

  -- A valid rope is split into exactly k parts, one if k is not positive, which make up its text.
  pub partition-flatten :
      (k : ℤ) → (length (partition r k) ≡ max 1 (pos_part k)) × (flatten (partition r k) ≡ string r)
  unfolding partition
  partition-flatten (pos zero) = (omega (arith, (partition_into_lem 0).0), (partition_into_lem 0).1)
  partition-flatten (pos (suc k)) =
      (omega (arith, (partition_into_lem k).0), (partition_into_lem k).1)
  partition-flatten (negsuc k) = (omega (arith, (partition_into_lem 0).0), (partition_into_lem 0).1)
