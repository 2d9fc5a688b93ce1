-- ===== src/Memory/Budget.antt =====
-- The token budget of pkg/memory/dag/budget.go over the nodes of pkg/memory/dag/node.go. Token counts,
-- percentages and the window are numbers, never negative; the arguments of `Remaining` and
-- `TailMessageCount`, which the code tests, are too, with 0 for what is below it.
use native.Mathlib.Nat.{mul-add}
use dragonscale.Prelude.{
  ℕ, ◌+◌, ◌-◌, ◌*◌, ◌/◌, ◌≤◌, ◌<◌, ◌≡◌, ◌≢◌, refl, Bool, true, false, List, [], ◌∷◌, Option, none,
  some, ltb, leb, ◌==◌, ◌&&◌, if◌then◌else◌, arith,
}

pub record BudgetConfig : Type 0 where
  pub system_prompt_pct : ℕ
  pub observations_pct : ℕ
  pub knowledge_pct : ℕ
  pub dag_summaries_pct : ℕ
  pub raw_tail_pct : ℕ
  pub tool_results_pct : ℕ

abbrev pub default_budget_config : BudgetConfig
default_budget_config = record {
  system_prompt_pct = 20;
  observations_pct = 10;
  knowledge_pct = 5;
  dag_summaries_pct = 25;
  raw_tail_pct = 30;
  tool_results_pct = 10;
}

pub record Budget : Type 0 where
  pub total : ℕ
  pub system_prompt : ℕ
  pub observations : ℕ
  pub knowledge : ℕ
  pub dag_summaries : ℕ
  pub raw_tail : ℕ
  pub tool_results : ℕ

unfoldable pub compute_budget : ℕ → BudgetConfig → Budget
compute_budget window cfg = record {
  total = window;
  system_prompt = window * cfg.system_prompt_pct / 100;
  observations = window * cfg.observations_pct / 100;
  knowledge = window * cfg.knowledge_pct / 100;
  dag_summaries = window * cfg.dag_summaries_pct / 100;
  raw_tail = window * cfg.raw_tail_pct / 100;
  tool_results = window * cfg.tool_results_pct / 100;
}

-- `Level`.
pub data Level : Type 0 where
  level_raw level_chunk level_section level_session : Level

abbrev pub same_level : Level → Level → Bool
same_level level_raw level_raw = true
same_level level_chunk level_chunk = true
same_level level_section level_section = true
same_level level_session level_session = true
same_level _ _ = false

-- What the budget reads of a `Node`.
pub record Node : Type 0 where
  pub level : Level
  pub tokens : ℕ

-- `TotalTokens`, over `d.Nodes`.
unfoldable pub total_tokens : List Node → Level → ℕ
total_tokens [] l = 0
total_tokens (n ∷ ns) l =
    let rest = total_tokens ns l in if same_level n.level l then n.tokens + rest else rest

-- `SelectDAGLevel`; none is a nil graph.
unfoldable pub select_dag_level : Option (List Node) → ℕ → Level
select_dag_level none budget = level_raw
select_dag_level (some []) budget = level_raw
select_dag_level (some (n ∷ ns)) budget =
    let session = total_tokens (n ∷ ns) level_session in
    let section = total_tokens (n ∷ ns) level_section in
    let chunk = total_tokens (n ∷ ns) level_chunk in
    if ltb 0 session && leb session budget
    then (if ltb 0 section && leb section budget
        then (if leb chunk budget then level_chunk else level_section)
        else level_session)
    else level_session

-- `Remaining`, from the sum of what is used.
unfoldable pub remaining : Budget → ℕ → ℕ → ℕ → ℕ → ℕ → ℕ → ℕ
remaining b system obs knowledge dag tail tools =
    let used = system + obs + knowledge + dag + tail + tools in
    if ltb b.total used then 0 else b.total - used

unfoldable pub tail_message_count : ℕ → ℕ
tail_message_count tail = if tail == 0 then 4 else if ltb (tail / 50) 4 then 4 else tail / 50

abbrev pub allotted : Budget → ℕ
allotted b =
    b.system_prompt + b.observations + b.knowledge + b.dag_summaries + b.raw_tail + b.tool_results

abbrev pub percent : BudgetConfig → ℕ
percent c =
    c.system_prompt_pct + c.observations_pct + c.knowledge_pct + c.dag_summaries_pct
    + c.raw_tail_pct + c.tool_results_pct

-- The products sum to the product of the window with the sum.
mul_six :
    (w a b c d e f : ℕ)
    → w * (a + b + c + d + e + f) ≡ w * a + w * b + w * c + w * d + w * e + w * f
mul_six w a b c d e f = omega (
  arith,
  mul-add w (a + b + c + d + e) f,
  mul-add w (a + b + c + d) e,
  mul-add w (a + b + c) d,
  mul-add w (a + b) c,
  mul-add w a b,
)

-- The sections are allotted no more than the window's share of the sum of the percentages, and
-- rounding leaves less than six tokens of it over.
pub allotted-compute_budget :
    (window : ℕ) (cfg : BudgetConfig)
    → (allotted (compute_budget window cfg) ≤ window * percent cfg / 100)
      × (window * percent cfg / 100 < allotted (compute_budget window cfg) + 6)
unfolding compute_budget
allotted-compute_budget window cfg =
    let parts =
      mul_six window cfg.system_prompt_pct cfg.observations_pct cfg.knowledge_pct
        cfg.dag_summaries_pct cfg.raw_tail_pct cfg.tool_results_pct in
    (omega (arith, parts), omega (arith, parts))

-- Whenever the session level fits the budget, so does the level that is selected.
pub total_tokens-select_dag_level :
    (ns : List Node) (budget : ℕ)
    → ns ≢ []
    → total_tokens ns level_session ≤ budget
    → total_tokens ns (select_dag_level (some ns) budget) ≤ budget
unfolding select_dag_level
total_tokens-select_dag_level [] budget h fits = absurd (h refl)
total_tokens-select_dag_level (n ∷ ns) budget h fits = pick (total_tokens (n ∷ ns)) fits
  where
    pick :
        (total : Level → ℕ)
        → total level_session ≤ budget
        → total (
            if ltb 0 (total level_session) && leb (total level_session) budget
            then (if ltb 0 (total level_section) && leb (total level_section) budget
                then (if leb (total level_chunk) budget then level_chunk else level_section)
                else level_session)
            else level_session)
          ≤ budget
    pick total fit = ground (arith, fit)
