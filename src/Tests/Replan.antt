-- ===== src/Tests/Replan.antt =====
-- pkg/itr/dag/replan.go with a planner and an executor that count their calls.
use dragonscale.Prelude.{ℕ, suc, ◌≡◌, inr, refl, [], ◌∷◌, ◌++◌, leb, if◌then◌else◌}
use dragonscale.Prelude.Int.{pos, negsuc}
use dragonscale.Itr.Dag.Replan.{
  Services, answered, starts, occurs, replan_sentinel, max_replans, plan_query, replan_from,
  replan_loop, add_tokens, execute_with_replan,
}

program : Unit {0}
unfolding starts occurs max_replans plan_query replan_from replan_loop add_tokens
    execute_with_replan
program = tt

-- The state is the number of executions; from the third on the answer is complete.
abbrev third_time : Services ℕ ℕ ℕ
third_time = record {
  plan = λ n query. (n, inr (0, 10));
  execute = λ n p. (suc n, inr ((if leb 2 n then 7 ∷ [] else 7 ∷ replan_sentinel), 100));
  follow_up = λ task previous. task ++ previous;
}

three_rounds :
    replan_loop third_time (1 ∷ []) (negsuc 0) 0
    ≡ (3, answered (record { final_answer = 7 ∷ []; total_tokens = 330; iterations = 3 }))
unfolding program
three_rounds = refl

-- The first execution and its answer are not among the iterations.
first_not_counted :
    execute_with_replan third_time (1 ∷ []) 0 (pos 5) 1
    ≡ (3, answered (record { final_answer = 7 ∷ []; total_tokens = 210; iterations = 1 }))
unfolding program
first_not_counted = refl
