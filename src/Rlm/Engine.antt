-- ===== src/Rlm/Engine.antt =====
-- The recursion of pkg/rlm/engine.go over the rope. A call stands at a path in the tree of calls, the
-- innermost index first. The model's reply and the bus's verdict at a path are parameters: each path
-- is taken at most once, so they stand for any order of the concurrent calls.
pub mod Ends
use dragonscale.Prelude.{
  ℕ, zero, suc, ◌+◌, ◌-◌, ◌*◌, ◌%◌, ◌^◌, ◌≡◌, Bool, true, false, not, ◌&&◌, List, [], ◌∷◌, ◌++◌,
  Option, none, some, length, ltb, leb, ◌==◌, if◌then◌else◌,
}
use dragonscale.Prelude.Text.{codes}
use dragonscale.Prelude.Int.{ℤ, pos, negsuc, ltb_ℤ, ◌-ℤ◌}
use dragonscale.Rlm.Rope.{GrepMatch, new_rope, len, grep_lines, partition}
use dragonscale.Rlm.Strategy.{
  Strings, StrategyOp, peek, recurse_op, final, grep, partition_into, StrategyConfig, plan_next,
}
use dragonscale.Rlm.Fanout.{PartitionResult, fan_out, merge_results, total_tokens, is_empty}

-- What `CallModelFunc` and `Answer` return.
pub record Reply : Type 0 where
  pub text : List ℕ
  pub tokens : ℕ
  pub err : Option (List ℕ)

-- `Engine`. `refusal` is the error text of the bus at a path, if it refuses; a nil bus refuses none.
pub record Engine : Type 0 where
  pub strings : Strings
  pub strategy : StrategyConfig
  pub refusal : List ℕ → Option (List ℕ)
  pub call_model : List ℕ → List ℕ → List ℕ → Reply

unfoldable pub matched_lines : List GrepMatch → List ℕ
matched_lines [] = []
matched_lines (m ∷ ms) = m.line ++ (b'\n' ∷ matched_lines ms)

abbrev pub synthesis_prompt : List ℕ
synthesis_prompt = codes "You are synthesising answers from multiple text partitions. Be concise."

abbrev pub synthesis_query : List ℕ → List ℕ → List ℕ
synthesis_query query merged =
    codes "Original question: " ++ (query ++ (codes "\n\nPartition answers:\n" ++ merged))

-- `k` of the partition case.
unfoldable pub partitions_of : Engine → ℤ → ℤ
partitions_of e (pos zero) = e.strategy.default_partition_k
partitions_of e (pos (suc k)) = pos (suc k)
partitions_of e (negsuc k) = e.strategy.default_partition_k

abbrev pub as_result : ℕ → Reply → PartitionResult
as_result idx r = record { partition_idx = idx; answer = r.text; err = r.err; tokens = r.tokens }

-- One goroutine of the fan-out: the bus, and then the recursion that is given.
unfoldable pub ask_partition :
    Engine → (List ℕ → List ℕ → Option Reply) → List ℕ → ℕ → List ℕ → Option PartitionResult
ask_partition e recurse path idx part =
    let asked = recurse (idx ∷ path) part in
    elim (e.refusal (idx ∷ path)) [
      | some why ↦ some (record {
        partition_idx = idx;
        answer = [];
        err = some (codes "securebus: " ++ why);
        tokens = 0;
      })
      | none ↦ elim asked [ none ↦ none | some r ↦ some (as_result idx r) ]
    ]

-- Behind the fan-out.
unfoldable pub synthesise : Engine → List ℕ → List ℕ → ℕ → List PartitionResult → Reply
synthesise e path query depth results =
    let merged = merge_results e.strings results in
    let total = total_tokens 0 results in
    let synth = e.call_model path synthesis_prompt (synthesis_query query merged) in
    if not (is_empty merged) && ltb_ℤ (pos depth) (e.strategy.max_depth -ℤ pos 1)
    then record synth { tokens = (total + synth.tokens) % 2 ^ 32 }
    else record { text = merged; tokens = total; err = none }

-- The body of `recurse`, with its own calls as an argument.
unfoldable pub recurse_step :
    Engine → List ℕ → List ℕ → List ℕ → ℕ → (List ℕ → List ℕ → Option Reply) → Option Reply
recurse_step e query path context depth inner =
    let rope = new_rope context in
    elim (plan_next e.strings e.strategy (len rope) query depth) [
      | final ↦ some (e.call_model path context query)
      | grep keyword ↦ elim (grep_lines e.strings.to_lower rope keyword (pos 50) true) [
        | [] ↦ some (e.call_model path context query)
        | m ∷ ms ↦ inner (0 ∷ path) (matched_lines (m ∷ ms))
      ]
      | partition_into k ↦
          elim (fan_out (ask_partition e inner path) 0 (partition rope (partitions_of e k))) [
            | none ↦ none
            | some results ↦ some (synthesise e path query depth results)
          ]
      | peek ↦
          some (record { text = []; tokens = 0; err = some (codes "rlm: unknown op \"peek\"") })
      | recurse_op ↦
          some (record { text = []; tokens = 0; err = some (codes "rlm: unknown op \"recurse\"") })
    ]

-- `recurse`, on fuel; none is a recursion that did not end. A depth is a uint8.
unfoldable pub recurse_on : Engine → List ℕ → ℕ → List ℕ → List ℕ → ℕ → Option Reply
recurse_on e query zero path context depth = none
recurse_on e query (suc fuel) path context depth =
    recurse_step e query path context depth (λ p c. recurse_on e query fuel p c ((depth + 1) % 256))

-- `Answer`. A depth is below 256, so the fuel is enough.
unfoldable pub answer : Engine → List ℕ → List ℕ → Option Reply
answer e query context = recurse_on e query 256 [] context 0
