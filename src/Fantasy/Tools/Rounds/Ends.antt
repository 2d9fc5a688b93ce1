-- ===== src/Fantasy/Tools/Rounds/Ends.antt =====
-- The loop of `DAGToolRuntime.Execute` ends: each round finishes a call, or is the last.
use dragonscale.Prelude.{
  ℕ, zero, suc, ◌-◌, ◌≤◌, ◌⊎◌, inl, inr, ◌≡◌, refl, ap, List, [], ◌∷◌, Option, some, length, take,
  Nat-cases, Bool-cases, Option-cases, Sum-cases, arith,
}
use dragonscale.Prelude.Int.{ℤ, pos, negsuc}
use dragonscale.Fantasy.Tools.{ToolCallContent, SingleRun}
use dragonscale.Fantasy.Tools.Graph.{ToolDagNode, build_tool_dag}
use dragonscale.Fantasy.Tools.Refs.{RefError, Results}
use dragonscale.Fantasy.Tools.Rounds.{
  Setup, answered, stopped, not_built, max_conc, Progress, DagAnswer, find_barrier, next_round,
  outcomes, settle, run_round, run_rounds, ready_nodes, execute_dag, begin_round, begun, finish,
  notify,
}

-- A round is not empty when some call is ready.
pub next_round_some :
    (s : Setup) (n : ToolDagNode) (ns : List ToolDagNode) → 1 ≤ length (next_round s (n ∷ ns))
unfolding next_round
next_round_some s n ns = elim (Option-cases (find_barrier s.box (n ∷ ns))) [
  | inl e ↦ rw (e, length) (some_taken s.max_concurrency)
  | inr (b, e) ↦ rw (e, length) (omega arith)
]
  where
    some_taken : (m : ℤ) → 1 ≤ length (take (max_conc m) (n ∷ ns))
    some_taken (pos zero) = omega arith
    some_taken (pos (suc k)) = omega arith
    some_taken (negsuc k) = omega arith

remaining-settle :
    (s : Setup) (nodes : List ToolDagNode) (os : List (ToolDagNode × (RefError ⊎ SingleRun)))
    (p q : Progress)
    → settle s nodes os p ≡ inr q
    → q.remaining ≡ p.remaining - length os
unfolding settle
remaining-settle s nodes [] p q h =
    let same : p ≡ q = cc in omega (arith, ap (λ x. x.remaining) same)
remaining-settle s nodes ((n, inl e) ∷ os) p q h = absurd (cc)
remaining-settle s nodes ((n, inr o) ∷ os) p q h = elim (Bool-cases o.critical) [
  | inl e ↦ absurd (ground (arith, h, e))
  | inr e ↦ omega (
    arith,
    remaining-settle s nodes os (finish nodes n o.result (notify s o.result p)) q
        (ground (arith, h, e)),
  )
]

length-outcomes :
    (s : Setup) (prior : Results) (ns : List ToolDagNode) → length (outcomes s prior ns) ≡ length ns
length-outcomes s prior [] = refl
length-outcomes s prior (n ∷ ns) = ap suc (length-outcomes s prior ns)

remaining-run_round :
    (s : Setup) (nodes ready : List ToolDagNode) (p q : Progress)
    → run_round s nodes ready p ≡ inr q
    → q.remaining ≤ p.remaining - 1
unfolding run_round
remaining-run_round s nodes [] p q h = absurd (cc)
remaining-run_round s nodes (n ∷ ns) p q h =
    let round = next_round s (n ∷ ns) in
    omega (
      arith,
      next_round_some s n ns,
      length-outcomes s p.done_results round,
      remaining-settle s nodes (outcomes s p.done_results round) (begin_round round p) q h,
    )

abbrev pub Ends : Option DagAnswer → Type 0
Ends x = (answer : DagAnswer) × (x ≡ some answer)

pub run_rounds-Ends :
    (fuel : ℕ) (s : Setup) (nodes : List ToolDagNode) (p : Progress)
    → p.remaining ≤ fuel
    → Ends (run_rounds fuel s nodes p)
unfolding run_rounds
run_rounds-Ends zero s nodes p h =
    let e : p.remaining ≡ 0 = omega (arith, h) in (answered p.results p, ground (arith, e))
run_rounds-Ends (suc fuel) s nodes p h = elim (Nat-cases p.remaining) [
  | inl e ↦ (answered p.results p, ground (arith, e))
  | inr (r, e) ↦ elim (Sum-cases (run_round s nodes (ready_nodes p nodes) p)) [
    | inl ((err, q), f) ↦ (stopped err q, ground (arith, e, f))
    | inr (q, f) ↦
        let (answer, g) =
          run_rounds-Ends fuel s nodes q
            (omega (arith, h, e, remaining-run_round s nodes (ready_nodes p nodes) p q f)) in
        (answer, ground (arith, e, f, g))
  ]
]

-- The run of the calls ends, with the results or with an error, whatever the tools answer and
-- however many calls may run at a time.
pub execute_dag-Ends : (s : Setup) (calls : List ToolCallContent) → Ends (execute_dag s calls)
unfolding execute_dag
execute_dag-Ends s calls = elim (Sum-cases (build_tool_dag s.json calls)) [
  | inl (e, f) ↦ (stopped (not_built e) (begun []), ground (arith, f))
  | inr (nodes, f) ↦
      let (answer, g) = run_rounds-Ends (length nodes) s nodes (begun nodes) (omega arith) in
      (answer, ground (arith, f, g))
]
