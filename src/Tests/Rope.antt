-- ===== src/Tests/Rope.antt =====
-- pkg/rlm/rope.go at concrete ropes.
use Prim.Native.Nat.{max}
use dragonscale.Prelude.{◌≡◌, refl, false, [], ◌∷◌, some, length, take}
use dragonscale.Prelude.Int.{pos, pos_part}
use dragonscale.Rlm.Rope.{
  leaf, internal, Rope, node_length, new_leaf, new_internal, new_rope, len, write_node, string,
  append_to, slice_node, slice_root, slice, split_lines, lines, grep_from, contains, grep_lines,
  byte_at, walk_back, part_end, slice_or_empty, parts_from, pad, partition_into, partition,
}
use dragonscale.Rlm.Rope.Slice.{IsValid, span_of, slice-span}
use dragonscale.Rlm.Rope.Partition.{flatten, partition-flatten}
use dragonscale.Rlm.Rope.Runes.{AllStartRune, partition-AllStartRune}
use dragonscale.Rlm.Rope.Grep.{passing, lines_of, lines_of-grep_lines}

program : Unit {0}
unfolding node_length new_leaf new_internal new_rope len write_node string append_to slice_node
    slice_root slice split_lines lines grep_from grep_lines byte_at walk_back part_end
    slice_or_empty parts_from pad partition_into partition flatten passing lines_of
program = tt

-- "a", a newline, "bé" in two leaves; é is two bytes.
abbrev two_leaves : Rope
two_leaves = some (internal (leaf (97 ∷ 10 ∷ 98 ∷ []) 3) (leaf (195 ∷ 169 ∷ []) 2) 5)

two_leaves-IsValid : IsValid two_leaves
unfolding program
two_leaves-IsValid = (refl, refl, refl)

appended : append_to (new_rope (97 ∷ 10 ∷ 98 ∷ [])) (195 ∷ 169 ∷ []) ≡ two_leaves
unfolding program
appended = refl

halves : partition two_leaves (pos 2) ≡ (97 ∷ 10 ∷ []) ∷ (98 ∷ 195 ∷ 169 ∷ []) ∷ []
unfolding program
halves = refl

quarters :
    partition two_leaves (pos 5) ≡ (97 ∷ []) ∷ (10 ∷ []) ∷ (98 ∷ []) ∷ [] ∷ (195 ∷ 169 ∷ []) ∷ []
unfolding program
quarters = refl

slice-span_example : slice two_leaves (pos 2) (pos 4) ≡ span_of (pos 2) (pos 4) (string two_leaves)
slice-span_example = slice-span two_leaves (pos 2) (pos 4) two_leaves-IsValid

partition-flatten_example :
    (length (partition two_leaves (pos 2)) ≡ max 1 (pos_part (pos 2)))
    × (flatten (partition two_leaves (pos 2)) ≡ string two_leaves)
partition-flatten_example = partition-flatten two_leaves two_leaves-IsValid (pos 2)

partition-AllStartRune_example : AllStartRune (partition two_leaves (pos 5))
unfolding program
partition-AllStartRune_example = partition-AllStartRune two_leaves two_leaves-IsValid (pos 5) refl

lines_of-grep_lines_example :
    lines_of (grep_lines (λ line. line) two_leaves (98 ∷ []) (pos 1) false)
    ≡ take 1 (passing (λ line. contains line (98 ∷ [])) (split_lines (string two_leaves)))
lines_of-grep_lines_example = lines_of-grep_lines (λ line. line) two_leaves (98 ∷ []) (pos 1) false
