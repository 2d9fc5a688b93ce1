-- ===== src/Tests/Tools.antt =====
-- The tool runtimes of internal/fantasy at calls of two tools.
use dragonscale.Prelude.{
  ℕ, ◌≡◌, refl, true, false, List, [], ◌∷◌, Option, none, some, Memᴰ, inl, inr, if◌then◌else◌,
  ℕ_discrete,
}
use dragonscale.Prelude.Int.{pos}
use dragonscale.Prelude.Text.{codes, codes_eq, cons_eq, begins}
use dragonscale.Memory.Compress.{trim_left, trim_right}
use dragonscale.Itr.Dag.Resolver.{
  less_one, is_zero, in_degrees, decrement, decrement_each, dependent, dependents,
}
use dragonscale.Itr.Dag.Degrees.{Distinct}
use dragonscale.Fantasy.Tools.{
  ToolCallContent, ToolResultContent, text_output, ToolCall, ToolResponse, Toolbox, find_tool,
  find_provider_tool, base64, execute_single_tool, ends_with, SingleRun,
}
use dragonscale.Fantasy.Tools.Parallel.{span_safe, collect, execute_from, execute_parallel}
use dragonscale.Fantasy.Tools.Batches.{
  one_at_a_time, execution_of, Rounds, execute_parallel-one_at_a_time,
}
use dragonscale.Fantasy.Tools.Json.{
  Json, Value, text, number, array, object, nil, cons, end, field, find_field, item_at, split_dots,
  atoi,
}
use dragonscale.Fantasy.Tools.Refs.{
  Results, not_available, missing_key, ref_ids, walk, extract_tool_dependencies, find_result,
  follow, resolve_ref, rewrite_refs, resolve_input,
}
use dragonscale.Fantasy.Tools.Graph.{
  ToolDagNode, unknown_id, duplicate_id, check_ids, call_ids, filter_deps, fill_nodes,
  build_tool_dag, states_of,
}
use dragonscale.Fantasy.Tools.Graph.Built.{IsBuilt, build_tool_dag-IsBuilt}
use dragonscale.Fantasy.Tools.Rounds.{
  Setup, Progress, DagAnswer, answered, stopped, cycle_detected, unresolved, ready_nodes,
  find_barrier, next_round, execute_dag_node, settle, run_round, run_rounds, begun, execute_dag,
}
use dragonscale.Fantasy.Tools.Rounds.Solution.{Solves, by_id, execute_dag-Solves}
use dragonscale.Fantasy.Tools.Rounds.Given.{Explained-Given}
use dragonscale.Fantasy.Tools.Rounds.Unique.{execute_dag_unique}
use dragonscale.Fantasy.Tools.Rounds.Sequence.{progress_of, execute_dag-Sequenced}
use dragonscale.Fantasy.Tools.Rounds.Order.{node_ids, Sequenced}
use dragonscale.Fantasy.Tools.Rounds.Causes.{execute_dag_unavailable}
use dragonscale.Fantasy.Tools.Rounds.Cycles.{Deadlock, execute_dag_cycle}

program : Unit {0}
unfolding codes_eq cons_eq ℕ_discrete trim_left trim_right less_one is_zero in_degrees decrement
    decrement_each dependent dependents find_tool find_provider_tool execute_single_tool span_safe
    collect execute_from find_field item_at split_dots atoi ref_ids walk extract_tool_dependencies
    find_result follow resolve_ref rewrite_refs resolve_input check_ids filter_deps fill_nodes
    build_tool_dag ready_nodes find_barrier next_round execute_dag_node settle run_round run_rounds
    execute_dag
program = tt

-- A decoder of references alone, and of one object.
abbrev decode : List ℕ → Option Value
decode s =
    if begins (codes "$") s
    then some (text s)
    else if begins (codes "{") s
    then some (object (field (codes "k") (array (cons (number s) nil)) end))
    else none

abbrev encode : Value → Option (List ℕ)
encode (text s) = some s
encode (number s) = some s
encode _ = none

abbrev json : Json
json = record { unmarshal = decode; marshal = encode }

-- A tool that returns its input.
abbrev echo : ToolCall → ToolResponse × Option (List ℕ)
echo c = (
  record {
    kind = codes "text";
    content = c.input;
    data_bytes = [];
    media_type = [];
    metadata = [];
    is_error = false;
    stop_turn = false;
  },
  none,
)

abbrev box : Toolbox
box = record {
  tools =
      record { name = codes "echo"; parallel = true; run = echo }
      ∷ record { name = codes "write"; parallel = false; run = echo }
      ∷ [];
  provider_tools = [];
}

abbrev setup : Setup
setup = record { json = json; box = box; callback = true; max_concurrency = pos 2 }

abbrev call : List ℕ → List ℕ → List ℕ → ToolCallContent
call id name input = record {
  tool_call_id = id;
  tool_name = name;
  input = input;
  invalid = false;
  validation_error = none;
}

-- "b" waits for "a", and "c" runs alone.
abbrev three_calls : List ToolCallContent
three_calls =
    call (codes "b") (codes "echo") (codes "$tool.a")
    ∷ call (codes "a") (codes "echo") (codes "x")
    ∷ call (codes "c") (codes "write") (codes "y")
    ∷ []

abbrev answer_results : Option DagAnswer → List ToolResultContent
answer_results (some (answered rs q)) = rs
answer_results _ = []

abbrev end_of : Option DagAnswer → Progress
end_of (some (answered rs q)) = q
end_of (some (stopped e q)) = q
end_of none = begun []

abbrev texts_of : List ToolResultContent → List (List ℕ)
texts_of [] = []
texts_of (r ∷ rs) = elim r.result [ text_output s ↦ s ∷ texts_of rs | _ ↦ [] ∷ texts_of rs ]

abbrev rounds_of : List (List ToolDagNode) → List (List (List ℕ))
rounds_of [] = []
rounds_of (r ∷ rs) = node_ids r ∷ rounds_of rs

abbrev three_run : Option DagAnswer
three_run = execute_dag setup three_calls

three_texts : texts_of (answer_results three_run) ≡ codes "x" ∷ codes "x" ∷ codes "y" ∷ []
unfolding program
three_texts = refl

three_rounds :
    rounds_of (end_of three_run).rounds
    ≡ (codes "c" ∷ []) ∷ (codes "a" ∷ []) ∷ (codes "b" ∷ []) ∷ []
unfolding program
three_rounds = refl

three_answered : three_run ≡ some (answered (answer_results three_run) (end_of three_run))
unfolding program
three_answered = refl

execute_dag-Solves_example :
    Solves setup
      (by_id three_calls (answer_results three_run))
      three_calls
      (answer_results three_run)
execute_dag-Solves_example =
    execute_dag-Solves setup three_calls (answer_results three_run) (end_of three_run)
      three_answered

abbrev echoed : List ℕ → List ℕ → List ℕ → ToolResultContent
echoed id name output = record {
  tool_call_id = id;
  tool_name = name;
  result = text_output output;
  client_metadata = [];
  provider_executed = false;
  stop_turn = false;
}

abbrev three_results : List ToolResultContent
three_results =
    echoed (codes "b") (codes "echo") (codes "x")
    ∷ echoed (codes "a") (codes "echo") (codes "x")
    ∷ echoed (codes "c") (codes "write") (codes "y")
    ∷ []

three_solved : Solves setup (by_id three_calls three_results) three_calls three_results
unfolding program
three_solved =
    let solved : List ℕ → List ℕ → List ℕ → SingleRun =
      λ id name output. ends_with false (echoed id name output) false in
    (
      Explained-Given setup _ _ _ (solved (codes "b") (codes "echo") (codes "x"), refl, refl, refl),
      (
        Explained-Given setup _ _ _
            (solved (codes "a") (codes "echo") (codes "x"), refl, refl, refl),
        (
          Explained-Given setup _ _ _
              (solved (codes "c") (codes "write") (codes "y"), refl, refl, refl),
          tt,
        ),
      ),
    )

execute_dag_unique_example : three_results ≡ answer_results three_run
execute_dag_unique_example =
    execute_dag_unique setup three_calls (answer_results three_run) three_results (end_of three_run)
      three_answered three_solved

execute_dag-Sequenced_example :
    (answer : DagAnswer) × (execute_dag setup three_calls ≡ some answer)
    × Sequenced setup [] (progress_of answer).rounds
execute_dag-Sequenced_example = execute_dag-Sequenced setup three_calls

-- A call that refers to itself.
abbrev self_call : List ToolCallContent
self_call = call (codes "a") (codes "echo") (codes "$tool.a") ∷ []

self_stopped :
    execute_dag setup self_call
    ≡ some (
        stopped
          (unresolved (not_available (codes "$tool.a")))
          (end_of (execute_dag setup self_call)))
unfolding program
self_stopped = refl

execute_dag_unavailable_example :
    (c : ToolCallContent) × Memᴰ c self_call
    × Memᴰ c.tool_call_id (extract_tool_dependencies json c.input)
execute_dag_unavailable_example =
    execute_dag_unavailable setup self_call (codes "$tool.a") (end_of (execute_dag setup self_call))
      self_stopped

-- Two calls that wait for each other.
abbrev two_calls : List ToolCallContent
two_calls =
    call (codes "a") (codes "echo") (codes " $tool.b.k ")
    ∷ call (codes "b") (codes "echo") (codes "$tool.a")
    ∷ []

two_stopped :
    execute_dag setup two_calls
    ≡ some (stopped cycle_detected (end_of (execute_dag setup two_calls)))
unfolding program
two_stopped = refl

execute_dag_cycle_example : Deadlock json (end_of (execute_dag setup two_calls)).executed two_calls
execute_dag_cycle_example =
    execute_dag_cycle setup two_calls (end_of (execute_dag setup two_calls)) two_stopped

abbrev three_nodes : List ToolDagNode
three_nodes = elim (build_tool_dag json three_calls) [ inl e ↦ [] | inr ns ↦ ns ]

three_built : build_tool_dag json three_calls ≡ inr three_nodes
unfolding program
three_built = refl

build_tool_dag-IsBuilt_example :
    IsBuilt json (call_ids three_calls) three_calls three_nodes
    × Distinct codes_eq (states_of three_nodes)
build_tool_dag-IsBuilt_example = build_tool_dag-IsBuilt json three_calls three_nodes three_built

execute_parallel-one_at_a_time_example :
    (rounds : List (List ToolCallContent)) × (execute_parallel box true three_calls
      ≡ some (execution_of (one_at_a_time box true three_calls) rounds))
    × Rounds box three_calls rounds
execute_parallel-one_at_a_time_example = execute_parallel-one_at_a_time box true three_calls

-- Graphs that are not built.
built_unknown :
    build_tool_dag json (call (codes "a") (codes "echo") (codes "$tool.z.k") ∷ [])
    ≡ inl (unknown_id (codes "a") (codes "z"))
unfolding program
built_unknown = refl

built_duplicate :
    build_tool_dag json
      (call (codes "a") (codes "echo") [] ∷ call (codes "a") (codes "echo") [] ∷ [])
    ≡ inl (duplicate_id (codes "a"))
unfolding program
built_duplicate = refl

-- A path into a result.
abbrev object_results : Results
object_results =
    (
      codes "a",
      record {
        tool_call_id = codes "a";
        tool_name = codes "echo";
        result = text_output (codes "{");
        client_metadata = [];
        provider_executed = false;
        stop_turn = false;
      },
    )
    ∷ []

path_taken : resolve_ref json (codes "$tool.a.k.0") object_results ≡ inr (number (codes "{"))
unfolding program
path_taken = refl

path_missing :
    resolve_ref json (codes "$tool.a.j") object_results
    ≡ inl (missing_key (codes "$tool.a.j") (codes "j"))
unfolding program
path_missing = refl

base64_padded : base64 (codes "Mana") ≡ codes "TWFuYQ=="
base64_padded = refl
