-- ===== src/Tests/Budget.antt =====
-- pkg/memory/dag/budget.go at a window of 1000 tokens.
use dragonscale.Prelude.{◌≡◌, refl, List, [], ◌∷◌, some}
use dragonscale.Memory.Budget.{
  compute_budget, level_chunk, level_section, level_session, Node, total_tokens, select_dag_level,
  remaining, tail_message_count,
}

program : Unit {0}
unfolding compute_budget total_tokens select_dag_level remaining tail_message_count
program = tt

abbrev summaries : List Node
summaries =
    record { level = level_chunk; tokens = 70 }
    ∷ record { level = level_section; tokens = 40 }
    ∷ record { level = level_session; tokens = 10 }
    ∷ []

section_fits : select_dag_level (some summaries) 50 ≡ level_section
unfolding program
section_fits = refl
