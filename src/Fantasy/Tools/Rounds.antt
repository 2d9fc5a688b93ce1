-- ===== src/Fantasy/Tools/Rounds.antt =====
-- `DAGToolRuntime.Execute` of tool_runtime_dag.go. The iteration over the map of the nodes and the
-- sort by the index of the call are the iteration in the order of the calls. The goroutines of a
-- round are one step: they read the results of the earlier rounds, and each writes its own outcome.
-- The metrics and the log are left out. A result of none is a loop that did not end within its fuel.
pub mod Ends
pub mod Counts
pub mod State
pub mod Given
pub mod Keeps
pub mod Answers
pub mod Solution
pub mod Unique
pub mod Reached
pub mod Order
pub mod Sequence
pub mod Causes
pub mod Cycles
use dragonscale.Prelude.{
  ℕ, zero, suc, ◌-◌, ◌⊎◌, inl, inr, Bool, true, false, not, ◌&&◌, List, [], ◌∷◌, ◌++◌, Option, none,
  some, length, take, set, replicate, ite, if◌then◌else◌,
}
use dragonscale.Prelude.Int.{ℤ, pos, negsuc}
use dragonscale.Prelude.Text.{codes_eq}
use dragonscale.Itr.Dag.Resolver.{in_degrees, is_zero, decrement_each, dependents}
use dragonscale.Itr.Dag.Degrees.{mem}
use dragonscale.Fantasy.Tools.{
  ToolCallContent, ToolResultContent, no_output, Toolbox, SingleRun, is_parallel_safe,
  execute_single_tool, critical_error, notified,
}
use dragonscale.Fantasy.Tools.Json.{Json}
use dragonscale.Fantasy.Tools.Refs.{RefError, Results, resolve_input}
use dragonscale.Fantasy.Tools.Graph.{ToolDagNode, BuildError, build_tool_dag, states_of}

-- `DAGToolRuntime` with the arguments of `Execute` beside the calls.
pub record Setup : Type 0 where
  pub json : Json
  pub box : Toolbox
  pub callback : Bool
  pub max_concurrency : ℤ

abbrev pub max_conc : ℤ → ℕ
max_conc (pos zero) = 4
max_conc (pos (suc n)) = suc n
max_conc (negsuc n) = 4

pub data ExecuteError : Type 0 where
  not_built : BuildError → ExecuteError
  cycle_detected : ExecuteError
  unresolved : RefError → ExecuteError
  critical_failure : List ℕ → ExecuteError

-- The variables of the loop, with the callback's calls and the rounds of calls so far.
pub record Progress : Type 0 where
  pub indegree : List (List ℕ × ℤ)
  pub executed : List (List ℕ)
  pub done_results : Results
  pub results : List ToolResultContent
  pub remaining : ℕ
  pub called : List ToolResultContent
  pub rounds : List (List ToolDagNode)

-- The results or the error, with the callback's calls and the rounds.
pub data DagAnswer : Type 0 where
  answered : List ToolResultContent → Progress → DagAnswer
  stopped : ExecuteError → Progress → DagAnswer

-- `indegree[id]`.
abbrev pub degree_of : List ℕ → List (List ℕ × ℤ) → ℤ
degree_of id [] = pos 0
degree_of id ((k, d) ∷ ds) = let rest = degree_of id ds in ite (codes_eq k id) d rest

abbrev pub is_ready : Progress → ToolDagNode → Bool
is_ready p n = not (mem codes_eq n.id p.executed) && is_zero (degree_of n.id p.indegree)

unfoldable pub ready_nodes : Progress → List ToolDagNode → List ToolDagNode
ready_nodes p [] = []
ready_nodes p (n ∷ ns) = let rest = ready_nodes p ns in if is_ready p n then n ∷ rest else rest

-- The first call that is not safe to run beside others.
unfoldable pub find_barrier : Toolbox → List ToolDagNode → Option ToolDagNode
find_barrier box [] = none
find_barrier box (n ∷ ns) =
    let rest = find_barrier box ns in if is_parallel_safe box n.tool_call then rest else some n

-- The calls of a round.
unfoldable pub next_round : Setup → List ToolDagNode → List ToolDagNode
next_round s ready = elim (find_barrier s.box ready) [
  | some n ↦ n ∷ []
  | none ↦ take (max_conc s.max_concurrency) ready
]

-- `executeDAGNode`.
unfoldable pub execute_dag_node : Setup → ToolCallContent → Results → RefError ⊎ SingleRun
execute_dag_node s tc prior = elim (resolve_input s.json prior tc.input) [
  | inl e ↦ inl e
  | inr input ↦ inr (execute_single_tool s.box (record tc { input = input }) false)
]

-- `outcomes`.
abbrev pub outcomes :
    Setup → Results → List ToolDagNode → List (ToolDagNode × (RefError ⊎ SingleRun))
outcomes s prior [] = []
outcomes s prior (n ∷ ns) = (n, execute_dag_node s n.tool_call prior) ∷ outcomes s prior ns

-- `idToIndex[id]`.
abbrev pub index_of : List ℕ → List ToolDagNode → ℕ
index_of id [] = 0
index_of id (n ∷ ns) = let rest = index_of id ns in ite (codes_eq n.id id) 0 (suc rest)

abbrev pub notify : Setup → ToolResultContent → Progress → Progress
notify s r p = record p { called = p.called ++ notified s.callback r }

-- What the loop sets for a call that is done.
abbrev pub finish : List ToolDagNode → ToolDagNode → ToolResultContent → Progress → Progress
finish nodes n r p = record p {
  indegree = decrement_each codes_eq (dependents codes_eq (states_of nodes) n.id) p.indegree;
  executed = n.id ∷ p.executed;
  done_results = (n.id, r) ∷ p.done_results;
  results = set p.results (index_of n.id nodes) r;
  remaining = p.remaining - 1;
}

-- The loop over the outcomes of a round; of a call that runs alone, the same statements.
unfoldable pub settle :
    Setup
    → List ToolDagNode
    → List (ToolDagNode × (RefError ⊎ SingleRun))
    → Progress
    → (ExecuteError × Progress) ⊎ Progress
settle s nodes [] p = inr p
settle s nodes ((n, inl e) ∷ os) p = inl (unresolved e, p)
settle s nodes ((n, inr o) ∷ os) p = elim o.critical [
  | true ↦ inl (critical_failure (critical_error o.result), notify s o.result p)
  | false ↦ settle s nodes os (finish nodes n o.result (notify s o.result p))
]

abbrev pub begin_round : List ToolDagNode → Progress → Progress
begin_round round p = record p { rounds = p.rounds ++ (round ∷ []) }

-- One round, unless nothing is ready.
unfoldable pub run_round :
    Setup → List ToolDagNode → List ToolDagNode → Progress → (ExecuteError × Progress) ⊎ Progress
run_round s nodes [] p = inl (cycle_detected, p)
run_round s nodes (n ∷ ns) p =
    let round = next_round s (n ∷ ns) in
    settle s nodes (outcomes s p.done_results round) (begin_round round p)

-- The loop over the rounds.
unfoldable pub run_rounds : ℕ → Setup → List ToolDagNode → Progress → Option DagAnswer
run_rounds zero s nodes p = elim p.remaining [ zero ↦ some (answered p.results p) | suc r ↦ none ]
run_rounds (suc fuel) s nodes p = elim p.remaining [
  | zero ↦ some (answered p.results p)
  | suc r ↦ elim (run_round s nodes (ready_nodes p nodes) p) [
    | inl (e, q) ↦ some (stopped e q)
    | inr q ↦ run_rounds fuel s nodes q
  ]
]

-- The value of a slot of `results` that is not written.
abbrev pub no_result : ToolResultContent
no_result = record {
  tool_call_id = [];
  tool_name = [];
  result = no_output;
  client_metadata = [];
  provider_executed = false;
  stop_turn = false;
}

abbrev pub begun : List ToolDagNode → Progress
begun nodes = record {
  indegree = in_degrees (states_of nodes);
  executed = [];
  done_results = [];
  results = replicate (length nodes) no_result;
  remaining = length nodes;
  called = [];
  rounds = [];
}

-- `Execute`. The early return for no calls is the loop's.
unfoldable pub execute_dag : Setup → List ToolCallContent → Option DagAnswer
execute_dag s calls = elim (build_tool_dag s.json calls) [
  | inl e ↦ some (stopped (not_built e) (begun []))
  | inr nodes ↦ run_rounds (length nodes) s nodes (begun nodes)
]
