-- ===== src/Fantasy/Tools/Rounds/Sequence.antt =====
-- What holds of the rounds of `DAGToolRuntime.Execute` however it ends.
use dragonscale.Prelude.{inl, inr, ◌≡◌, refl, sym, ap, ◌∙◌, subst, List, [], ◌∷◌, ◌++◌, some}
use dragonscale.Prelude.Text.{codes_eq}
use dragonscale.Itr.Dag.Waves.{done_after}
use dragonscale.Fantasy.Tools.{ToolCallContent}
use dragonscale.Fantasy.Tools.Graph.{ToolDagNode}
use dragonscale.Fantasy.Tools.Graph.Built.{build_tool_dag-IsBuilt}
use dragonscale.Fantasy.Tools.Rounds.{
  Setup, ExecuteError, Progress, DagAnswer, answered, stopped, begin_round, run_round, ready_nodes,
  next_round, execute_dag,
}
use dragonscale.Fantasy.Tools.Rounds.Counts.{DistinctNodes, Runnable, round-Runnable}
use dragonscale.Fantasy.Tools.Rounds.Ends.{execute_dag-Ends, next_round_some}
use dragonscale.Fantasy.Tools.Rounds.Reached.{
  Reached, start, next, Reached-Inv, execute_dag-stopped, execute_dag-answered,
}
use dragonscale.Fantasy.Tools.Rounds.Order.{
  node_ids, Sequenced, RoundOk, gathered, one_more, gathered_more, Runnable-Due,
  next_round-Exclusive, settled_rounds, stopped_rounds,
}

-- The rounds so far are in sequence, and their calls are those that are done.
abbrev Ordered : Setup → Progress → Type 0
Ordered s p = Sequenced s [] p.rounds × (gathered [] p.rounds ≡ p.executed)

module _ (s : Setup) (nodes : List ToolDagNode) where
  round_ok :
      (p : Progress) (n : ToolDagNode) (ns : List ToolDagNode)
      → Ordered s p
      → Runnable nodes p.executed (next_round s (n ∷ ns))
      → Sequenced s [] (p.rounds ++ (next_round s (n ∷ ns) ∷ []))
  round_ok p n ns o r =
      let round = next_round s (n ∷ ns) in
      let due = Runnable-Due nodes round p.executed r in
      one_more s [] p.rounds round o.0 (
        subst (λ l. RoundOk s l round) (sym o.1)
          (next_round_some s n ns, next_round-Exclusive s (n ∷ ns), due))

  kept :
      (ready : List ToolDagNode) (p q : Progress)
      → Ordered s p
      → Runnable nodes p.executed (next_round s ready)
      → run_round s nodes ready p ≡ inr q
      → Ordered s q
  unfolding run_round
  kept [] p q o r h = absurd (cc)
  kept (n ∷ ns) p q o r h =
      let round = next_round s (n ∷ ns) in
      let (same, more) = settled_rounds s nodes p.done_results round (begin_round round p) q h in
      (
        subst (Sequenced s []) (sym same) (round_ok p n ns o r),
        ap (gathered []) same
            ∙ gathered_more [] p.rounds round
            ∙ ap (done_after codes_eq (node_ids round)) o.1
            ∙ sym more,
      )

  Reached-Ordered : (p : Progress) → DistinctNodes nodes → Reached s nodes p → Ordered s p
  Reached-Ordered p d start = (tt, refl)
  Reached-Ordered p d (next {p = o} r e) =
      kept (ready_nodes o nodes) o p (Reached-Ordered o d r)
        (round-Runnable s nodes o d (Reached-Inv s nodes o d r).counts) e

  stopped-Sequenced :
      (ready : List ToolDagNode) (p q : Progress) (x : ExecuteError)
      → Ordered s p
      → Runnable nodes p.executed (next_round s ready)
      → run_round s nodes ready p ≡ inl (x, q)
      → Sequenced s [] q.rounds
  unfolding run_round
  stopped-Sequenced [] p q x o r h =
      let same : p ≡ q = cc in subst (λ y. Sequenced s [] y.rounds) same o.0
  stopped-Sequenced (n ∷ ns) p q x o r h =
      let round = next_round s (n ∷ ns) in
      subst (Sequenced s [])
        (sym (stopped_rounds s nodes p.done_results round (begin_round round p) q x h))
        (round_ok p n ns o r)

abbrev pub progress_of : DagAnswer → Progress
progress_of (answered rs q) = q
progress_of (stopped e q) = q

answer-Sequenced :
    (s : Setup) (calls : List ToolCallContent) (answer : DagAnswer)
    → execute_dag s calls ≡ some answer
    → Sequenced s [] (progress_of answer).rounds
answer-Sequenced s calls (answered rs q) h =
    let (nodes, f, r) = execute_dag-answered s calls rs q h in
    (Reached-Ordered s nodes q (build_tool_dag-IsBuilt s.json calls nodes f).1 r).0
answer-Sequenced s calls (stopped e q) h = elim (execute_dag-stopped s calls e q h) [
  | inl (x, f, g, same) ↦ subst (λ y. Sequenced s [] y.rounds) (sym same) tt
  | inr (nodes, f, (p, r, left, g)) ↦
      let d = (build_tool_dag-IsBuilt s.json calls nodes f).1 in
      stopped-Sequenced s nodes (ready_nodes p nodes) p q e (Reached-Ordered s nodes p d r)
        (round-Runnable s nodes p d (Reached-Inv s nodes p d r).counts) g
]

-- The run of the calls ends, with results or an error, whatever the tools answer. Each of its
-- rounds is a single call, or calls that are all safe to run beside others and no more than may run
-- at a time; a round has a call, none of its calls was in an earlier round, and all that its calls
-- depend on was.
pub execute_dag-Sequenced :
    (s : Setup) (calls : List ToolCallContent)
    → (answer : DagAnswer) × (execute_dag s calls ≡ some answer)
      × Sequenced s [] (progress_of answer).rounds
execute_dag-Sequenced s calls =
    let (answer, h) = execute_dag-Ends s calls in (answer, h, answer-Sequenced s calls answer h)
