-- ===== src/Rlm/Fanout.antt =====
-- pkg/rlm/fanout.go: the results of the partitions, and how they are merged.
use dragonscale.Prelude.{
  ℕ, suc, ◌+◌, ◌%◌, ◌^◌, Bool, true, false, ◌||◌, ◌&&◌, List, [], ◌∷◌, Option, none, some, ◌==◌,
  if◌then◌else◌,
}
use dragonscale.Prelude.Text.{join_by}
use dragonscale.Rlm.Strategy.{Strings}

-- `PartitionResult`. The context key is the index in print. An error is its text.
pub record PartitionResult : Type 0 where
  pub partition_idx : ℕ
  pub answer : List ℕ
  pub err : Option (List ℕ)
  pub tokens : ℕ

-- `FanOut`: each goroutine writes the result of its partition at its index, so the results stand in
-- the order of the partitions, whatever order and however many ran at a time; none is a call that
-- did not end.
unfoldable pub fan_out :
    (ℕ → List ℕ → Option PartitionResult) → ℕ → List (List ℕ) → Option (List PartitionResult)
fan_out f idx [] = some []
fan_out f idx (p ∷ ps) =
    let rest = fan_out f (suc idx) ps in
    elim (f idx p) [ none ↦ none | some r ↦ elim rest [ none ↦ none | some rs ↦ some (r ∷ rs) ] ]

abbrev pub same_bytes : List ℕ → List ℕ → Bool
same_bytes [] [] = true
same_bytes [] (b ∷ bs) = false
same_bytes (a ∷ as') [] = false
same_bytes (a ∷ as') (b ∷ bs) = a == b && same_bytes as' bs

-- `seen`, as a list.
abbrev pub is_seen : List ℕ → List (List ℕ) → Bool
is_seen key [] = false
is_seen key (s ∷ ss) = same_bytes s key || is_seen key ss

abbrev pub is_empty : List ℕ → Bool
is_empty [] = true
is_empty (b ∷ bs) = false

abbrev pub failed : PartitionResult → Bool
failed r = elim r.err [ none ↦ false | some e ↦ true ]

-- The loop of `MergeResults`.
unfoldable pub merge_from : Strings → List (List ℕ) → List PartitionResult → List (List ℕ)
merge_from strings seen [] = []
merge_from strings seen (r ∷ rs) =
    let key = strings.trim_space r.answer in
    let skipped = merge_from strings seen rs in
    let kept = merge_from strings (key ∷ seen) rs in
    if failed r || is_empty r.answer
    then skipped
    else if is_seen key seen
    then skipped
    else key ∷ kept

-- `strings.Join(parts, "\n")`.
abbrev pub join_with_newlines : List (List ℕ) → List ℕ
join_with_newlines parts = join_by (b'\n' ∷ []) parts

unfoldable pub merge_results : Strings → List PartitionResult → List ℕ
merge_results strings results = join_with_newlines (merge_from strings [] results)

-- `TotalTokens`, a uint32.
unfoldable pub total_tokens : ℕ → List PartitionResult → ℕ
total_tokens total [] = total
total_tokens total (r ∷ rs) = total_tokens ((total + r.tokens) % 2 ^ 32) rs
