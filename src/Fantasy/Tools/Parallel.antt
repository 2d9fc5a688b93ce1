-- ===== src/Fantasy/Tools/Parallel.antt =====
-- `ParallelToolRuntime.Execute` of tool_runtime_parallel.go. The goroutines of a batch are one step:
-- each writes its own outcome, and the tools answer as functions do. The semaphore, the metrics and
-- the log are left out. A result of none is a loop that did not end within its fuel.
use dragonscale.Prelude.{
  ℕ, zero, suc, Bool, false, List, [], ◌∷◌, ◌++◌, Option, none, some, length, if◌then◌else◌,
}
use dragonscale.Fantasy.Tools.{
  ToolCallContent, ToolResultContent, Toolbox, SingleRun, is_parallel_safe, execute_single_tool,
  critical_error, notified,
}

-- The results and the callback's calls up to where the runs end, with the error that ends them.
pub record Collected : Type 0 where
  pub results : List ToolResultContent
  pub called : List ToolResultContent
  pub failure : Option (List ℕ)

-- The two results of `Execute`.
pub data Answer : Type 0 where
  returned : List ToolResultContent → Answer
  failed : List ℕ → Answer

-- What `Execute` returns, the callback's calls, and the calls that were started together.
pub record Execution : Type 0 where
  pub answer : Answer
  pub called : List ToolResultContent
  pub rounds : List (List ToolCallContent)

-- The first calls that are safe to run together, and the calls behind them.
unfoldable pub span_safe :
    Toolbox → List ToolCallContent → List ToolCallContent × List ToolCallContent
span_safe box [] = ([], [])
span_safe box (c ∷ cs) =
    let rest = span_safe box cs in
    if is_parallel_safe box c then (c ∷ rest.0, rest.1) else ([], c ∷ cs)

-- `outcomes`: what each goroutine of a batch writes.
abbrev pub outcomes_of : Toolbox → List ToolCallContent → List SingleRun
outcomes_of box [] = []
outcomes_of box (c ∷ cs) = execute_single_tool box c false ∷ outcomes_of box cs

-- An outcome of a batch, before what the loop makes of the later ones.
abbrev pub collect_one : Bool → SingleRun → Collected → Collected
collect_one callback o rest =
    let called = notified callback o.result in
    if o.critical
    then record {
      results = o.result ∷ [];
      called = called;
      failure = some (critical_error o.result);
    }
    else record {
      results = o.result ∷ rest.results;
      called = called ++ rest.called;
      failure = rest.failure;
    }

-- The loop over a batch's outcomes, which ends at a critical one.
unfoldable pub collect : Bool → List SingleRun → Collected
collect callback [] = record { results = []; called = []; failure = none }
collect callback (o ∷ os) = collect_one callback o (collect callback os)

-- What the rest of the loop gives when some results and callback calls stand before it.
abbrev pub with_results : List ToolResultContent → Answer → Answer
with_results rs (returned more) = returned (rs ++ more)
with_results rs (failed e) = failed e

abbrev pub continued :
    List ToolCallContent
    → List ToolResultContent
    → List ToolResultContent
    → Option Execution
    → Option Execution
continued round results called none = none
continued round results called (some x) = some (record {
  answer = with_results results x.answer;
  called = called ++ x.called;
  rounds = round ∷ x.rounds;
})

abbrev pub ended : List ToolCallContent → List ToolResultContent → List ℕ → Execution
ended round called e = record { answer = failed e; called = called; rounds = round ∷ [] }

-- A call that runs alone.
abbrev pub run_barrier : ToolCallContent → SingleRun → Option Execution → Option Execution
run_barrier c o rest =
    if o.critical
    then some (ended (c ∷ []) o.called (critical_error o.result))
    else continued (c ∷ []) (o.result ∷ []) o.called rest

abbrev pub run_batch : List ToolCallContent → Collected → Option Execution → Option Execution
run_batch batch o rest = elim o.failure [
  | some e ↦ some (ended batch o.called e)
  | none ↦ continued batch o.results o.called rest
]

-- The loop over the calls that are left.
unfoldable pub execute_from : ℕ → Toolbox → Bool → List ToolCallContent → Option Execution
execute_from fuel box callback [] = some (record { answer = returned []; called = []; rounds = [] })
execute_from zero box callback (c ∷ cs) = none
execute_from (suc fuel) box callback (c ∷ cs) =
    let alone = execute_from fuel box callback cs in
    let (batch, behind) = span_safe box (c ∷ cs) in
    let after_batch = execute_from fuel box callback behind in
    if is_parallel_safe box c
    then run_batch batch (collect callback (outcomes_of box batch)) after_batch
    else run_barrier c (execute_single_tool box c callback) alone

-- `Execute`. The early return for no calls is the loop's.
abbrev pub execute_parallel : Toolbox → Bool → List ToolCallContent → Option Execution
execute_parallel box callback calls = execute_from (length calls) box callback calls
