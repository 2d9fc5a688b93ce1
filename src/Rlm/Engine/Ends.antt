-- ===== src/Rlm/Engine/Ends.antt =====
-- The recursion of pkg/rlm/engine.go ends.
use mathlib.Core.Path.{fun_ext}
use dragonscale.Prelude.{
  ℕ, zero, suc, ◌+◌, ◌%◌, ◌≤◌, ◌<◌, ◌≡◌, ◌≢◌, refl, ap, true, List, [], ◌∷◌, Option, none, some,
  arith, dec_lt,
}
use dragonscale.Prelude.Int.{ℤ, pos, negsuc}
use dragonscale.Rlm.Rope.{GrepMatch, new_rope, len, grep_lines, partition}
use dragonscale.Rlm.Strategy.{
  Strings, StrategyOp, peek, recurse_op, final, grep, partition_into, StrategyConfig, plan_next,
  to_uint8,
}
use dragonscale.Rlm.Fanout.{PartitionResult, fan_out}
use dragonscale.Rlm.Engine.{
  Reply, Engine, matched_lines, partitions_of, ask_partition, recurse_step, recurse_on, answer,
}

fan_out-some :
    (f : ℕ → List ℕ → Option PartitionResult) (idx : ℕ) (ps : List (List ℕ))
    → ((i : ℕ) (p : List ℕ) → f i p ≢ none)
    → fan_out f idx ps ≢ none
unfolding fan_out
fan_out-some f idx [] h = ground arith
fan_out-some f idx (p ∷ ps) h = ground (arith, h idx p, fan_out-some f (suc idx) ps h)

ask_partition-some :
    (e : Engine) (inner : List ℕ → List ℕ → Option Reply) (path : List ℕ)
    → ((p c : List ℕ) → inner p c ≢ none)
    → (idx : ℕ) (part : List ℕ) → ask_partition e inner path idx part ≢ none
unfolding ask_partition
ask_partition-some e inner path h idx part = ground (arith, h (idx ∷ path) part)

-- At the maximal depth the planner always ends.
plan_next-final :
    (strings : Strings) (cfg : StrategyConfig) (bytes : ℕ) (query : List ℕ) (depth : ℕ)
    → to_uint8 cfg.max_depth ≤ depth
    → plan_next strings cfg bytes query depth ≡ final
unfolding plan_next
plan_next-final strings cfg bytes query depth h = ground (arith, h)

to_uint8-lt : (n : ℤ) → to_uint8 n < 256
to_uint8-lt (pos n) = omega arith
to_uint8-lt (negsuc n) = omega arith

recurse_step_below :
    (e : Engine) (query path context : List ℕ) (depth : ℕ) (inner : List ℕ → List ℕ → Option Reply)
    → ((p c : List ℕ) → inner p c ≢ none)
    → (op : StrategyOp) → plan_next e.strings e.strategy (len (new_rope context)) query depth ≡ op
    → recurse_step e query path context depth inner ≢ none
unfolding recurse_step
recurse_step_below e query path context depth inner h final q = rw (q, recurse_step) (ground arith)
recurse_step_below e query path context depth inner h peek q = rw (q, recurse_step) (ground arith)
recurse_step_below e query path context depth inner h recurse_op q =
    rw (q, recurse_step) (ground arith)
recurse_step_below e query path context depth inner h (grep keyword) q =
    rw (q, recurse_step)
      (matches (grep_lines e.strings.to_lower (new_rope context) keyword (pos 50) true))
  where
    matches :
        (ms : List GrepMatch)
        → (elim ms as (λ x. Option Reply) [
          | [] ↦ some (e.call_model path context query)
          | m ∷ rest ↦ inner (0 ∷ path) (matched_lines (m ∷ rest))
        ])
          ≢ none
    matches [] = ground arith
    matches (m ∷ rest) = h (0 ∷ path) (matched_lines (m ∷ rest))
recurse_step_below e query path context depth inner h (partition_into k) q =
    rw (q, recurse_step)
      (ground (
        arith,
        fan_out-some (ask_partition e inner path) 0
            (partition (new_rope context) (partitions_of e k)) (ask_partition-some e inner path h),
      ))

recurse_step-some :
    (e : Engine) (query path context : List ℕ) (depth : ℕ) (inner : List ℕ → List ℕ → Option Reply)
    → (depth < to_uint8 e.strategy.max_depth → (p c : List ℕ) → inner p c ≢ none)
    → recurse_step e query path context depth inner ≢ none
unfolding recurse_step
recurse_step-some e query path context depth inner h =
    elim (dec_lt depth (to_uint8 e.strategy.max_depth)) [
      | yes p ↦ recurse_step_below e query path context depth inner (h p) _ refl
      | no p ↦
          rw
            (
              plan_next-final e.strings e.strategy (len (new_rope context)) query depth
                  (omega arith),
              recurse_step,
            )
            (ground arith)
    ]

-- The calls matter only below the maximal depth.
recurse_step-eq :
    (e : Engine) (query path context : List ℕ) (depth : ℕ)
    (inner inner' : List ℕ → List ℕ → Option Reply)
    → (depth < to_uint8 e.strategy.max_depth → inner ≡ inner')
    → recurse_step e query path context depth inner ≡ recurse_step e query path context depth inner'
unfolding recurse_step
recurse_step-eq e query path context depth inner inner' h =
    elim (dec_lt depth (to_uint8 e.strategy.max_depth)) [
      | yes p ↦ ap (recurse_step e query path context depth) (h p)
      | no p ↦
          rw
            (
              plan_next-final e.strings e.strategy (len (new_rope context)) query depth
                  (omega arith),
              recurse_step,
            )
            refl
    ]

-- With fuel for the depths that are left, more fuel changes nothing.
recurse_on-eq :
    (e : Engine) (query : List ℕ) (m n : ℕ) (path context : List ℕ) (depth : ℕ)
    → depth ≤ to_uint8 e.strategy.max_depth
    → to_uint8 e.strategy.max_depth < depth + m
    → to_uint8 e.strategy.max_depth < depth + n
    → recurse_on e query m path context depth ≡ recurse_on e query n path context depth
unfolding recurse_on
recurse_on-eq e query zero n path context depth d m' n' = absurd (omega (arith, d, m'))
recurse_on-eq e query (suc m) zero path context depth d m' n' = absurd (omega (arith, d, n'))
recurse_on-eq e query (suc m) (suc n) path context depth d m' n' =
    recurse_step-eq e query path context depth _ _ (λ less.
      let next : (depth + 1) % 256 ≡ depth + 1 =
        omega (arith, less, to_uint8-lt e.strategy.max_depth) in
      fun_ext (λ p. fun_ext (λ c. rw next (
        recurse_on-eq e query m n p c (depth + 1) (omega (arith, less)) (omega (arith, m'))
          (omega (arith, n'))))))

recurse_on-some :
    (e : Engine) (query : List ℕ) (m : ℕ) (path context : List ℕ) (depth : ℕ)
    → depth ≤ to_uint8 e.strategy.max_depth
    → to_uint8 e.strategy.max_depth < depth + m
    → recurse_on e query m path context depth ≢ none
unfolding recurse_on
recurse_on-some e query zero path context depth d m' = absurd (omega (arith, d, m'))
recurse_on-some e query (suc m) path context depth d m' =
    recurse_step-some e query path context depth _ (λ less p c.
      let next : (depth + 1) % 256 ≡ depth + 1 =
        omega (arith, less, to_uint8-lt e.strategy.max_depth) in
      rw next (recurse_on-some e query m p c (depth + 1) (omega (arith, less)) (omega (arith, m'))))

-- The recursion always ends, whatever the model, the bus and the query are, and within as many
-- levels as the maximal depth, as a uint8, and one: any fuel from there on gives the answer.
pub answer-total :
    (e : Engine) (query context : List ℕ) (n : ℕ)
    → to_uint8 e.strategy.max_depth < n
    → (answer e query context ≢ none) × (recurse_on e query n [] context 0 ≡ answer e query context)
unfolding answer
answer-total e query context n h =
    let bound = to_uint8-lt e.strategy.max_depth in
    (
      recurse_on-some e query 256 [] context 0 (omega arith) (omega (arith, bound)),
      recurse_on-eq e query n 256 [] context 0 (omega arith) (omega (arith, h))
          (omega (arith, bound)),
    )
