-- ===== src/Fantasy/Tools/Graph.antt =====
-- `BuildToolDAG` of tool_dag.go. The map of the nodes is a list in the order of the calls; the edges
-- are computed from the nodes, as `dependents` of `Itr.Dag.Resolver`.
pub mod Sound
pub mod Built
use dragonscale.Prelude.{
  ℕ, ◌⊎◌, inl, inr, Bool, true, false, ◌||◌, List, [], ◌∷◌, Option, none, some, ite, if◌then◌else◌,
}
use dragonscale.Prelude.Text.{codes_eq, all_space}
use dragonscale.Memory.Compress.{trim_space}
use dragonscale.Itr.Dag.Resolver.{NodeState}
use dragonscale.Itr.Dag.Degrees.{mem}
use dragonscale.Fantasy.Tools.{ToolCallContent}
use dragonscale.Fantasy.Tools.Json.{Json}
use dragonscale.Fantasy.Tools.Refs.{extract_tool_dependencies}

-- `ToolDAGNode`.
pub record ToolDagNode : Type 0 where
  pub id : List ℕ
  pub tool_call : ToolCallContent
  pub dependencies : List (List ℕ)

pub data BuildError : Type 0 where
  empty_id : BuildError
  duplicate_id : List ℕ → BuildError
  unknown_id : List ℕ → List ℕ → BuildError

abbrev pub knows : List (List ℕ) → List ℕ → Bool
knows ids id = mem codes_eq id ids

-- The loop that puts the nodes in, when some ids are there: its error.
unfoldable pub check_ids : List (List ℕ) → List ToolCallContent → Option BuildError
check_ids seen [] = none
check_ids seen (c ∷ cs) =
    let rest = check_ids (c.tool_call_id ∷ seen) cs in
    if all_space c.tool_call_id
    then some empty_id
    else if knows seen c.tool_call_id
    then some (duplicate_id c.tool_call_id)
    else rest

abbrev pub call_ids : List ToolCallContent → List (List ℕ)
call_ids [] = []
call_ids (c ∷ cs) = c.tool_call_id ∷ call_ids cs

-- A dependency that is empty or the call itself is passed over.
abbrev pub passed_over : List ℕ → List ℕ → Bool
passed_over self [] = true
passed_over self (c ∷ cs) = ite (codes_eq (c ∷ cs) self) true false

abbrev pub with_dep : List ℕ → List ℕ ⊎ List (List ℕ) → List ℕ ⊎ List (List ℕ)
with_dep d (inl unknown) = inl unknown
with_dep d (inr ds) = inr (d ∷ ds)

-- `filtered`, when some are in `seen`: the id that is not known, or the dependencies.
unfoldable pub filter_deps :
    List ℕ → List (List ℕ) → List (List ℕ) → List (List ℕ) → List ℕ ⊎ List (List ℕ)
filter_deps self ids seen [] = inr []
filter_deps self ids seen (d ∷ ds) =
    let dep = trim_space d in
    elim (passed_over self dep) [
      | true ↦ filter_deps self ids seen ds
      | false ↦ elim (knows ids dep) [
        | false ↦ inl dep
        | true ↦ elim (knows seen dep) [
          | true ↦ filter_deps self ids seen ds
          | false ↦ with_dep dep (filter_deps self ids (dep ∷ seen) ds)
        ]
      ]
    ]

abbrev pub with_node :
    ToolCallContent
    → List ℕ ⊎ List (List ℕ)
    → BuildError ⊎ List ToolDagNode
    → BuildError ⊎ List ToolDagNode
with_node c (inl unknown) rest = inl (unknown_id c.tool_call_id unknown)
with_node c (inr deps) (inl e) = inl e
with_node c (inr deps) (inr ns) =
    inr (record { id = c.tool_call_id; tool_call = c; dependencies = deps } ∷ ns)

-- The loop that sets the dependencies.
unfoldable pub fill_nodes :
    Json → List (List ℕ) → List ToolCallContent → BuildError ⊎ List ToolDagNode
fill_nodes json ids [] = inr []
fill_nodes json ids (c ∷ cs) =
    with_node c (filter_deps c.tool_call_id ids [] (extract_tool_dependencies json c.input))
      (fill_nodes json ids cs)

unfoldable pub build_tool_dag : Json → List ToolCallContent → BuildError ⊎ List ToolDagNode
build_tool_dag json calls = elim (check_ids [] calls) [
  | some e ↦ inl e
  | none ↦ fill_nodes json (call_ids calls) calls
]

-- What the count of the dependencies reads of a node.
abbrev pub states_of : List ToolDagNode → List (NodeState (List ℕ))
states_of [] = []
states_of (n ∷ ns) = record { id = n.id; depends_on = n.dependencies } ∷ states_of ns
