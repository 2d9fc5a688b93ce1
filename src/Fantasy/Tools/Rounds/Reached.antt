-- ===== src/Fantasy/Tools/Rounds/Reached.antt =====
-- The states that the loop of `DAGToolRuntime.Execute` reaches, as steps, and how it stops.
use dragonscale.Prelude.{
  ℕ, zero, suc, ◌⊎◌, inl, inr, ◌≡◌, ◌≢◌, ap, ◌∙◌, subst, List, [], some, length, Sum-cases,
  Nat-cases, arith,
}
use dragonscale.Fantasy.Tools.{ToolCallContent, ToolResultContent}
use dragonscale.Fantasy.Tools.Graph.{ToolDagNode, BuildError, build_tool_dag}
use dragonscale.Fantasy.Tools.Rounds.{
  Setup, ExecuteError, not_built, Progress, answered, stopped, begun, ready_nodes, run_round,
  run_rounds, execute_dag,
}
use dragonscale.Fantasy.Tools.Rounds.Counts.{DistinctNodes}
use dragonscale.Fantasy.Tools.Rounds.State.{Inv}
use dragonscale.Fantasy.Tools.Rounds.Answers.{begun-Inv, run_round-Inv}

-- The states after some rounds.
pub data Reached (s : Setup) (nodes : List ToolDagNode) : Progress → Type 0 where
  start : Reached s nodes (begun nodes)
  next :
      {p q : Progress}
      → Reached s nodes p
      → run_round s nodes (ready_nodes p nodes) p ≡ inr q
      → Reached s nodes q

pub Reached-Inv :
    (s : Setup) (nodes : List ToolDagNode) (p : Progress)
    → DistinctNodes nodes
    → Reached s nodes p
    → Inv s nodes p
Reached-Inv s nodes p d start = begun-Inv s nodes
Reached-Inv s nodes p d (next {p = o} r e) =
    run_round-Inv s nodes d o p (Reached-Inv s nodes o d r) e

-- A round that stops with an error, some calls being left.
abbrev pub StopsAt : Setup → List ToolDagNode → ExecuteError → Progress → Type 0
StopsAt s nodes e q =
    (p : Progress) × Reached s nodes p
    × (p.remaining ≢ 0)
    × (run_round s nodes (ready_nodes p nodes) p ≡ inl (e, q))

stopped_round :
    (fuel : ℕ) (s : Setup) (nodes : List ToolDagNode) (p q : Progress) (e : ExecuteError)
    → Reached s nodes p
    → run_rounds fuel s nodes p ≡ some (stopped e q)
    → StopsAt s nodes e q
unfolding run_rounds
stopped_round zero s nodes p q e r h = elim (Nat-cases p.remaining) [
  | inl z ↦ absurd (ground (arith, h, z))
  | inr (k, z) ↦ absurd (ground (arith, h, z))
]
stopped_round (suc fuel) s nodes p q e r h = elim (Nat-cases p.remaining) [
  | inl z ↦ absurd (ground (arith, h, z))
  | inr (k, z) ↦ elim (Sum-cases (run_round s nodes (ready_nodes p nodes) p)) [
    | inr (o, f) ↦ stopped_round fuel s nodes o q e (next r f) (ground (arith, h, z, f))
    | inl ((x, o), f) ↦
        let here : some (stopped x o) ≡ some (stopped e q) = ground (arith, h, z, f) in
        let same : ◌≡◌ {A = ExecuteError × Progress} (x, o) (e, q) = cc in
        (p, r, λ w. omega (arith, w, z), f ∙ ap inl same)
  ]
]

answered_round :
    (fuel : ℕ) (s : Setup) (nodes : List ToolDagNode) (p q : Progress) (rs : List ToolResultContent)
    → Reached s nodes p
    → run_rounds fuel s nodes p ≡ some (answered rs q)
    → Reached s nodes q
unfolding run_rounds
answered_round zero s nodes p q rs r h = elim (Nat-cases p.remaining) [
  | inl z ↦
      let here : some (answered p.results p) ≡ some (answered rs q) = ground (arith, h, z) in
      let same : p ≡ q = cc in subst (Reached s nodes) same r
  | inr (k, z) ↦ absurd (ground (arith, h, z))
]
answered_round (suc fuel) s nodes p q rs r h = elim (Nat-cases p.remaining) [
  | inl z ↦
      let here : some (answered p.results p) ≡ some (answered rs q) = ground (arith, h, z) in
      let same : p ≡ q = cc in subst (Reached s nodes) same r
  | inr (k, z) ↦ elim (Sum-cases (run_round s nodes (ready_nodes p nodes) p)) [
    | inr (o, f) ↦ answered_round fuel s nodes o q rs (next r f) (ground (arith, h, z, f))
    | inl ((x, o), f) ↦ absurd (ground (arith, h, z, f))
  ]
]

-- A run that stops after its graph is built stops in a round.
pub execute_dag-stopped :
    (s : Setup) (calls : List ToolCallContent) (e : ExecuteError) (q : Progress)
    → execute_dag s calls ≡ some (stopped e q)
    → ((x : BuildError) × (build_tool_dag s.json calls ≡ inl x)
        × (e ≡ not_built x)
        × (q ≡ begun []))
      ⊎ ((nodes : List ToolDagNode) × (build_tool_dag s.json calls ≡ inr nodes)
          × StopsAt s nodes e q)
unfolding execute_dag
execute_dag-stopped s calls e q h = elim (Sum-cases (build_tool_dag s.json calls)) [
  | inl (x, f) ↦
      let here : some (stopped (not_built x) (begun [])) ≡ some (stopped e q) =
        ground (arith, h, f) in
      inl (x, f, cc, cc)
  | inr (nodes, f) ↦ inr (
    nodes,
    f,
    stopped_round (length nodes) s nodes (begun nodes) q e start (ground (arith, h, f)),
  )
]

pub execute_dag-answered :
    (s : Setup) (calls : List ToolCallContent) (rs : List ToolResultContent) (q : Progress)
    → execute_dag s calls ≡ some (answered rs q)
    → (nodes : List ToolDagNode) × (build_tool_dag s.json calls ≡ inr nodes) × Reached s nodes q
unfolding execute_dag
execute_dag-answered s calls rs q h = elim (Sum-cases (build_tool_dag s.json calls)) [
  | inl (x, f) ↦ absurd (ground (arith, h, f))
  | inr (nodes, f) ↦ (
    nodes,
    f,
    answered_round (length nodes) s nodes (begun nodes) q rs start (ground (arith, h, f)),
  )
]
