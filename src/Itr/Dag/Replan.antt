-- ===== src/Itr/Dag/Replan.antt =====
-- `ReplanLoop` and `ExecuteWithReplan` of pkg/itr/dag/replan.go. The planner and the executor are
-- parameters that act on a state of the outside; a text is its bytes.
use dragonscale.Prelude.{
  ℕ, zero, suc, ◌+◌, ◌^◌, ◌%◌, ◌<◌, ◌≡◌, ◌⊎◌, inl, inr, Bool, true, false, List, [], ◌∷◌, ◌==◌,
  if◌then◌else◌,
}
use dragonscale.Prelude.Int.{ℤ, pos, negsuc}

-- `findIndex(s, substr) >= 0`.
unfoldable pub starts : List ℕ → List ℕ → Bool
starts [] bytes = true
starts (p ∷ ps) [] = false
starts (p ∷ ps) (b ∷ bs) = let rest = starts ps bs in if p == b then rest else false

unfoldable pub occurs : List ℕ → List ℕ → Bool
occurs part [] = starts part []
occurs part (b ∷ bs) = let rest = occurs part bs in if starts part (b ∷ bs) then true else rest

-- "[NEEDS_MORE_STEPS]".
abbrev pub replan_sentinel : List ℕ
replan_sentinel =
    91 ∷ 78 ∷ 69 ∷ 69 ∷ 68 ∷ 83 ∷ 95 ∷ 77 ∷ 79 ∷ 82 ∷ 69 ∷ 95 ∷ 83 ∷ 84 ∷ 69 ∷ 80 ∷ 83 ∷ 93 ∷ []

abbrev pub needs_replan : List ℕ → Bool
needs_replan answer = occurs replan_sentinel answer

pub record ReplanResult : Type 0 where
  pub final_answer : List ℕ
  pub total_tokens : ℕ
  pub iterations : ℕ

-- An error names the iteration and what failed; the first execution has no iteration.
pub data Outcome (E : Type 0) : Type 0 where
  answered : ReplanResult → Outcome E
  planning_failed : ℕ → E → Outcome E
  execution_failed : ℕ → E → Outcome E
  first_failed : E → Outcome E

-- The planner and the executor: the state after, and an error or what is returned with its tokens.
-- `follow_up` writes the query of a later round from the task and the partial results.
pub record Services (S P E : Type 0) : Type 0 where
  pub plan : S → List ℕ → S × (E ⊎ (P × ℕ))
  pub execute : S → P → S × (E ⊎ (List ℕ × ℕ))
  pub follow_up : List ℕ → List ℕ → List ℕ

abbrev pub add_u32 : ℕ → ℕ → ℕ
add_u32 a b = (a + b) % 2 ^ 32

-- `cfg.MaxReplans`, with its default.
unfoldable pub max_replans : ℤ → ℕ
max_replans (pos zero) = 3
max_replans (pos (suc n)) = suc n
max_replans (negsuc n) = 3

module _ {S P E : Type 0} (services : Services S P E) (task : List ℕ) where
  unfoldable pub plan_query : List ℕ → List ℕ
  plan_query [] = task
  plan_query (b ∷ bs) = services.follow_up task (b ∷ bs)

  -- The rounds that are left, the number of the round, `previousResults` and `totalTokens`.
  unfoldable pub replan_from : ℕ → ℕ → List ℕ → ℕ → S → S × Outcome E
  replan_from zero i previous total s =
      (s, answered (record { final_answer = previous; total_tokens = total; iterations = i }))
  replan_from (suc rounds) i previous total s =
      let planned = services.plan s (plan_query previous) in
      elim planned.1 [
        | inl e ↦ (planned.0, planning_failed i e)
        | inr (p, plan_tokens) ↦
            let run = services.execute planned.0 p in
            elim run.1 [
              | inl e ↦ (run.0, execution_failed i e)
              | inr (answer, tokens) ↦
                  let sum = add_u32 (add_u32 total plan_tokens) tokens in
                  let again = replan_from rounds (suc i) answer sum run.0 in
                  elim (needs_replan answer) [
                    | true ↦ again
                    | false ↦ (
                      run.0,
                      answered (record {
                        final_answer = answer;
                        total_tokens = sum;
                        iterations = i + 1;
                      }),
                    )
                  ]
            ]
      ]

  -- `ReplanLoop`.
  unfoldable pub replan_loop : ℤ → S → S × Outcome E
  replan_loop cfg s = replan_from (suc (max_replans cfg)) 0 [] 0 s

  unfoldable pub add_tokens : ℕ → Outcome E → Outcome E
  add_tokens t (answered r) = answered (record r { total_tokens = add_u32 r.total_tokens t })
  add_tokens t (planning_failed i e) = planning_failed i e
  add_tokens t (execution_failed i e) = execution_failed i e
  add_tokens t (first_failed e) = first_failed e

  -- `ExecuteWithReplan`.
  unfoldable pub execute_with_replan : P → ℤ → S → S × Outcome E
  execute_with_replan initial cfg s =
      let run = services.execute s initial in
      let more = replan_loop cfg run.0 in
      elim run.1 [
        | inl e ↦ (run.0, first_failed e)
        | inr (answer, tokens) ↦ elim (needs_replan answer) [
          | true ↦ (more.0, add_tokens (tokens % 2 ^ 32) more.1)
          | false ↦ (
            run.0,
            answered
                (record { final_answer = answer; total_tokens = tokens % 2 ^ 32; iterations = 1 }),
          )
        ]
      ]

  -- The rounds from the start that asked for more steps: how many there were, the last answer, the
  -- tokens, and the state after them.
  pub data Rounds (start : S) : ℕ → List ℕ → ℕ → S → Type 0 where
    no_round : Rounds start 0 [] 0 start
    round :
        {i total : ℕ} {previous : List ℕ} {s : S}
        → Rounds start i previous total s
        → (t u : S) (p : P) (plan_tokens : ℕ) (answer : List ℕ) (tokens : ℕ)
        → services.plan s (plan_query previous) ≡ (t, inr (p, plan_tokens))
        → services.execute t p ≡ (u, inr (answer, tokens))
        → needs_replan answer ≡ true
        → Rounds start (suc i) answer (add_u32 (add_u32 total plan_tokens) tokens) u

  -- The outcome of a loop of so many rounds at most, and the state it ends in: after some rounds
  -- that asked for more steps, one of which the answer asks for none, or in which the planner or the
  -- executor failed, with that error; or the answer of the last of all the rounds.
  abbrev pub Within : S → ℕ → S → Outcome E → Type 0
  Within start n last (answered r) =
      (Rounds start n r.final_answer r.total_tokens last × (r.iterations ≡ n))
      ⊎ ((i total : ℕ) × (previous : List ℕ) × (s t : S) × (p : P) × (plan_tokens tokens : ℕ)
          × Rounds start i previous total s
          × (i < n)
          × (services.plan s (plan_query previous) ≡ (t, inr (p, plan_tokens)))
          × (services.execute t p ≡ (last, inr (r.final_answer, tokens)))
          × (needs_replan r.final_answer ≡ false)
          × (r.iterations ≡ i + 1)
          × (r.total_tokens ≡ add_u32 (add_u32 total plan_tokens) tokens))
  Within start n last (planning_failed i e) =
      (total : ℕ) × (previous : List ℕ) × (s : S) × Rounds start i previous total s
      × (i < n)
      × (services.plan s (plan_query previous) ≡ (last, inl e))
  Within start n last (execution_failed i e) =
      (total : ℕ) × (previous : List ℕ) × (s t : S) × (p : P) × (plan_tokens : ℕ) × Rounds start i
        previous total s
      × (i < n)
      × (services.plan s (plan_query previous) ≡ (t, inr (p, plan_tokens)))
      × (services.execute t p ≡ (last, inl e))
  Within start n last (first_failed e) = ⊥
