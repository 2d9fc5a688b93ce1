-- ===== src/Fantasy/Tools/Rounds/Unique.antt =====
-- What `DAGToolRuntime.Execute` returns is settled by the calls and the tools alone.
use dragonscale.Prelude.{
  ℕ, ◌⊎◌, inl, inr, ◌≡◌, ◌≢◌, refl, sym, ap, ◌∙◌, subst, List, [], ◌∷◌, some, length, Memᴰ,
  Mem-cons, Bool-cases, Sum-cases, arith,
}
use dragonscale.Prelude.Text.{codes_eq}
use dragonscale.Fantasy.Tools.{ToolCallContent, ToolResultContent, SingleRun}
use dragonscale.Fantasy.Tools.Json.{Json}
use dragonscale.Fantasy.Tools.Refs.{Results, find_result, RefError, resolve_input}
use dragonscale.Fantasy.Tools.Refs.Table.{Extends, resolve_input_more}
use dragonscale.Fantasy.Tools.Graph.{ToolDagNode, build_tool_dag, call_ids}
use dragonscale.Fantasy.Tools.Graph.Built.{IsBuilt, build_tool_dag-IsBuilt}
use dragonscale.Fantasy.Tools.Rounds.Given.{Given-Explained}
use dragonscale.Fantasy.Tools.Rounds.{
  Setup, Progress, answered, begun, execute_dag_node, notify, finish, begin_round, settle, outcomes,
  next_round, ready_nodes, run_round, execute_dag,
}
use dragonscale.Fantasy.Tools.Rounds.Counts.{DistinctNodes, Runnable, round-Runnable, behind_ne}
use dragonscale.Fantasy.Tools.Rounds.State.{Explained}
use dragonscale.Fantasy.Tools.Rounds.Answers.{begun-Inv, run_rounds-Finished}
use dragonscale.Fantasy.Tools.Rounds.Solution.{Placed, by_id, Solves, Finished-Placed}
use dragonscale.Fantasy.Tools.Rounds.Reached.{
  Reached, start, next, Reached-Inv, execute_dag-answered,
}

-- The table has a result of the node, which is what its call gives on the table.
abbrev SolvedAt : Setup → Results → Results → ToolDagNode → Type 0
SolvedAt s table part n =
    (r : ToolResultContent) × (find_result n.id part ≡ some r) × Explained s n.tool_call table r

solved_at :
    (s : Setup) (ids : List (List ℕ)) (table : Results) (cs : List ToolCallContent)
    (ns : List ToolDagNode) (rs : List ToolResultContent) (n : ToolDagNode)
    → IsBuilt s.json ids cs ns
    → DistinctNodes ns
    → Solves s table cs rs
    → Memᴰ n ns
    → SolvedAt s table (by_id cs rs) n
unfolding find_result
solved_at s ids table cs [] rs n b d v m = elim m [ ]
solved_at s ids table [] (k ∷ ns) rs n b d v m = absurd b
solved_at s ids table (c ∷ cs) (k ∷ ns) [] n b d v m = absurd v
solved_at s ids table (c ∷ cs) (k ∷ ns) (r ∷ rs) n b d v m = elim (Mem-cons m) [
  | inl p ↦
      let at : c.tool_call_id ≡ n.id = sym b.0 ∙ ap (λ x. x.id) (sym p) in
      let call : n.tool_call ≡ c = ap (λ x. x.tool_call) p ∙ b.1 in
      (
        r,
        ground (arith, at),
        subst (λ x. Explained s x table r) (sym call) (Given-Explained s c table r v.0),
      )
  | inr t ↦
      let (o, e, x) = solved_at s ids table cs ns rs n b.3 d.1 v.1 t in
      let apart : c.tool_call_id ≢ n.id = λ q. behind_ne k n ns d.0 t (b.0 ∙ q) in
      (o, ground (arith, apart, e), x)
]

-- A call gives one result on a table.
one_result :
    (s : Setup) (c : ToolCallContent) (prior table : Results) (o : SingleRun)
    (r : ToolResultContent)
    → Extends prior table
    → execute_dag_node s c prior ≡ inr o
    → Explained s c table r
    → o.result ≡ r
unfolding execute_dag_node
one_result s c prior table o r more e (p, f, h, same) =
    elim (Sum-cases (resolve_input s.json prior c.input)) [
      | inl (x, g) ↦ absurd (ground (arith, e, g))
      | inr (input, g) ↦
          let both : ◌≡◌ {A = RefError ⊎ SingleRun} (inr o) (inr p) =
            ground (arith, e, f, g, resolve_input_more s.json prior table more c.input input g) in
          let one : o ≡ p = cc in ap (λ x. x.result) one ∙ same
    ]

module _ (s : Setup) (nodes : List ToolDagNode) (table : Results)
    (solved : (n : ToolDagNode) → Memᴰ n nodes → SolvedAt s table table n) where
  settle-Extends :
      (prior : Results) (round : List ToolDagNode) (executed : List (List ℕ)) (p q : Progress)
      → Runnable nodes executed round
      → Extends prior table
      → Extends p.done_results table
      → settle s nodes (outcomes s prior round) p ≡ inr q
      → Extends q.done_results table
  unfolding settle find_result
  settle-Extends prior [] executed p q w more x h =
      let same : p ≡ q = cc in subst (λ y. Extends y.done_results table) same x
  settle-Extends prior (n ∷ ns) executed p q w more x h =
      elim (Sum-cases (execute_dag_node s n.tool_call prior)) [
        | inl (y, e) ↦ absurd (ground (arith, h, e))
        | inr (o, e) ↦ elim (Bool-cases o.critical) [
          | inl c ↦ absurd (ground (arith, h, e, c))
          | inr c ↦
              let (r, f, ran) = solved n w.0 in
              let same = one_result s n.tool_call prior table o r more e ran in
              settle-Extends prior ns executed (finish nodes n o.result (notify s o.result p)) q w.4
                more
                (λ id v g. elim (codes_eq n.id id) [
                  | yes z ↦
                      sym (ap (λ i. find_result i table) z)
                      ∙ f
                      ∙ ap some (sym same)
                      ∙ value v o.result id z g
                  | no z ↦ x id v (ground (arith, z, g))
                ])
                (ground (arith, h, e, c))
        ]
      ]
    where
      value :
          (v r : ToolResultContent) (id : List ℕ)
          → n.id ≡ id
          → find_result id ((n.id, r) ∷ p.done_results) ≡ some v
          → some r ≡ some v
      value v r id z g = ground (arith, z, g)

  round-Extends :
      (ready : List ToolDagNode) (p q : Progress)
      → Runnable nodes p.executed (next_round s ready)
      → Extends p.done_results table
      → run_round s nodes ready p ≡ inr q
      → Extends q.done_results table
  unfolding run_round
  round-Extends [] p q w x h = absurd (cc)
  round-Extends (n ∷ ns) p q w x h =
      let round = next_round s (n ∷ ns) in
      settle-Extends p.done_results round p.executed (begin_round round p) q w x x h

  Reached-Extends :
      (p : Progress) → DistinctNodes nodes → Reached s nodes p → Extends p.done_results table
  unfolding find_result
  Reached-Extends p d start = λ id v e. absurd (cc)
  Reached-Extends p d (next {p = o} r e) =
      round-Extends (ready_nodes o nodes) o p
        (round-Runnable s nodes o d (Reached-Inv s nodes o d r).counts) (Reached-Extends o d r) e

same_results :
    (json : Json) (ids : List (List ℕ)) (t : Results) (cs : List ToolCallContent)
    (ns : List ToolDagNode) (rs others : List ToolResultContent) (s : Setup) (table : Results)
    → IsBuilt json ids cs ns
    → DistinctNodes ns
    → Placed t ns rs
    → Solves s table cs others
    → ((n : ToolDagNode) (r : ToolResultContent)
        → Memᴰ n ns
        → find_result n.id t ≡ some r
        → find_result n.id (by_id cs others) ≡ some r)
    → others ≡ rs
unfolding find_result
same_results json ids t [] [] [] [] s table b d pl v h = refl
same_results json ids t [] [] [] (o ∷ others) s table b d pl v h = absurd v
same_results json ids t [] [] (r ∷ rs) others s table b d pl v h = absurd pl
same_results json ids t [] (n ∷ ns) rs others s table b d pl v h = absurd b
same_results json ids t (c ∷ cs) [] rs others s table b d pl v h = absurd b
same_results json ids t (c ∷ cs) (n ∷ ns) [] others s table b d pl v h = absurd pl
same_results json ids t (c ∷ cs) (n ∷ ns) (r ∷ rs) [] s table b d pl v h = absurd v
same_results json ids t (c ∷ cs) (n ∷ ns) (r ∷ rs) (o ∷ others) s table b d pl v h =
    let found = h n r (Memᴰ.head refl) pl.0 in
    let at : c.tool_call_id ≡ n.id = sym b.0 in
    let one : some o ≡ some r = ground (arith, found, at) in
    let first : o ≡ r = cc in
    ap (λ x. x ∷ others) first
    ∙ ap (◌∷◌ r) (
        same_results json ids t cs ns rs others s table b.3 d.1 pl.1 v.1 (λ m w i e.
          let apart : c.tool_call_id ≢ m.id = λ q. behind_ne n m ns d.0 i (b.0 ∙ q) in
          ground (arith, apart, h m w (Memᴰ.tail i) e)))

-- When the run of the calls returns results, no other results solve the calls: of each list in which
-- every call has what its tool gives on its input with its references replaced by results of the
-- list, whatever order it was filled in, the results are those that are returned.
pub execute_dag_unique :
    (s : Setup) (calls : List ToolCallContent) (rs others : List ToolResultContent) (q : Progress)
    → execute_dag s calls ≡ some (answered rs q)
    → Solves s (by_id calls others) calls others
    → others ≡ rs
unfolding execute_dag
execute_dag_unique s calls rs others q h v = elim (Sum-cases (build_tool_dag s.json calls)) [
  | inl (x, e) ↦ absurd (ground (arith, h, e))
  | inr (nodes, e) ↦
      let (b, d) = build_tool_dag-IsBuilt s.json calls nodes e in
      let ids = call_ids calls in
      let table = by_id calls others in
      let ended =
        run_rounds-Finished s nodes d (length nodes) (begun nodes) q rs (begun-Inv s nodes)
          (ground (arith, h, e)) in
      let (others_nodes, e2, reached) = execute_dag-answered s calls rs q h in
      let same : others_nodes ≡ nodes = cc in
      let extends =
        Reached-Extends s nodes table (λ n m. solved_at s ids table calls nodes others n b d v m) q
          d (subst (λ l. Reached s l q) same reached) in
      same_results s.json ids q.done_results calls nodes rs others s table b d
        (Finished-Placed s nodes rs q d ended) v (λ n r m f. extends n.id r f)
]
