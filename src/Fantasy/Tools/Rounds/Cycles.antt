-- ===== src/Fantasy/Tools/Rounds/Cycles.antt =====
-- A cycle error of `DAGToolRuntime.Execute` has calls that wait for one another.
use dragonscale.Prelude.{
  ℕ, zero, suc, ◌⊎◌, inl, inr, ◌≡◌, ◌≢◌, refl, sym, ap, ◌∙◌, subst, false, List, [], ◌∷◌, some,
  Memᴰ, Mem-cons, Bool-cases, List-cases, arith,
}
use dragonscale.Prelude.Int.{ℤ, pos}
use dragonscale.Prelude.Text.{codes_eq}
use dragonscale.Itr.Dag.Resolver.{is_zero}
use dragonscale.Itr.Dag.Degrees.{missing}
use dragonscale.Fantasy.Tools.{ToolCallContent}
use dragonscale.Fantasy.Tools.Json.{Json}
use dragonscale.Fantasy.Tools.Refs.{extract_tool_dependencies}
use dragonscale.Fantasy.Tools.Refs.Ids.{extract-IsId}
use dragonscale.Fantasy.Tools.Graph.{ToolDagNode, knows, call_ids, passed_over}
use dragonscale.Fantasy.Tools.Graph.Sound.{IsDeps, knows-Mem}
use dragonscale.Fantasy.Tools.Graph.Built.{IsBuilt, build_tool_dag-IsBuilt}
use dragonscale.Fantasy.Tools.Rounds.{
  Setup, ExecuteError, cycle_detected, Progress, stopped, begin_round, run_round, ready_nodes,
  is_ready, degree_of, next_round, execute_dag,
}
use dragonscale.Fantasy.Tools.Rounds.Counts.{DistinctNodes, lacking, degree_of-degrees}
use dragonscale.Fantasy.Tools.Rounds.State.{Inv, pending}
use dragonscale.Fantasy.Tools.Rounds.Reached.{Reached-Inv, execute_dag-stopped}
use dragonscale.Fantasy.Tools.Rounds.Causes.{settle_cycle, built_node}

ready_none :
    (p : Progress) (n : ToolDagNode) (ns : List ToolDagNode)
    → ready_nodes p ns ≡ []
    → Memᴰ n ns
    → is_ready p n ≡ false
unfolding ready_nodes
ready_none p n [] h m = elim m [ ]
ready_none p n (k ∷ ns) h m = elim (Bool-cases (is_ready p k)) [
  | inl e ↦ absurd (ground (arith, h, e))
  | inr e ↦ elim (Mem-cons m) [
    | inl q ↦ ap (is_ready p) q ∙ e
    | inr t ↦ ready_none p n ns (ground (arith, h, e)) t
  ]
]

zero_ready : (d : ℤ) (k : ℕ) → d ≡ pos k → is_zero d ≡ false → k ≢ 0
unfolding is_zero
zero_ready d zero e h q = absurd (ground (arith, e, h))
zero_ready d (suc k) e h q = cc

missing_some :
    (executed deps : List (List ℕ))
    → missing codes_eq executed deps ≢ 0
    → (d : List ℕ) × Memᴰ d deps × (knows executed d ≡ false)
missing_some executed [] h = absurd (h refl)
missing_some executed (d ∷ deps) h = elim (Bool-cases (knows executed d)) [
  | inr e ↦ (d, Memᴰ.head refl, e)
  | inl e ↦
      let (x, m, f) = missing_some executed deps (λ q. h (ground (arith, e, q))) in
      (x, Memᴰ.tail m, f)
]

pending_some :
    (executed : List (List ℕ)) (ns : List ToolDagNode)
    → pending executed ns ≢ 0
    → (n : ToolDagNode) × Memᴰ n ns × (knows executed n.id ≡ false)
pending_some executed [] h = absurd (h refl)
pending_some executed (n ∷ ns) h = elim (Bool-cases (knows executed n.id)) [
  | inr e ↦ (n, Memᴰ.head refl, e)
  | inl e ↦
      let (x, m, f) = pending_some executed ns (λ q. h (ground (arith, e, q))) in
      (x, Memᴰ.tail m, f)
]

-- Some call is not done, and each that is not done refers to another that is not.
abbrev pub Deadlock : Json → List (List ℕ) → List ToolCallContent → Type 0
Deadlock json done calls =
    ((c : ToolCallContent) × Memᴰ c calls × (knows done c.tool_call_id ≡ false))
    × ((c : ToolCallContent)
        → Memᴰ c calls
        → knows done c.tool_call_id ≡ false
        → (d : List ℕ) × Memᴰ d (extract_tool_dependencies json c.input)
          × Memᴰ d (call_ids calls)
          × (d ≢ c.tool_call_id)
          × (knows done d ≡ false))

node_of_call :
    (json : Json) (ids : List (List ℕ)) (cs : List ToolCallContent) (ns : List ToolDagNode)
    (c : ToolCallContent)
    → IsBuilt json ids cs ns
    → Memᴰ c cs
    → (n : ToolDagNode) × Memᴰ n ns
      × (n.id ≡ c.tool_call_id)
      × IsDeps n.id ids (extract_tool_dependencies json c.input) n.dependencies
node_of_call json ids [] ns c b m = elim m [ ]
node_of_call json ids (k ∷ cs) [] c b m = absurd b
node_of_call json ids (k ∷ cs) (n ∷ ns) c b m = elim (Mem-cons m) [
  | inl p ↦ (
    n,
    Memᴰ.head refl,
    b.0 ∙ ap (λ x. x.tool_call_id) (sym p),
    subst (λ x. IsDeps n.id ids (extract_tool_dependencies json x.input) n.dependencies) (sym p)
        b.2,
  )
  | inr t ↦ let (o, i, e, g) = node_of_call json ids cs ns c b.3 t in (o, Memᴰ.tail i, e, g)
]

not_self : (self d : List ℕ) → passed_over self d ≡ false → d ≢ self
not_self self [] h q = absurd (cc)
not_self self (c ∷ cs) h q = absurd (ground (arith, h, q))

stuck-Deadlock :
    (s : Setup) (calls : List ToolCallContent) (nodes : List ToolDagNode) (p : Progress)
    → IsBuilt s.json (call_ids calls) calls nodes
    → DistinctNodes nodes
    → Inv s nodes p
    → p.remaining ≢ 0
    → ready_nodes p nodes ≡ []
    → Deadlock s.json p.executed calls
stuck-Deadlock s calls nodes p b d i left none_ready = (
  (let (n, m, e) = pending_some p.executed nodes (λ z. left (i.count ∙ z)) in
      let (c, mc, idc, callc, deps) = built_node s.json (call_ids calls) calls nodes n b m in
      (c, mc, ap (knows p.executed) (sym idc) ∙ e)),
  λ c mc e.
      let (n, m, idn, deps) = node_of_call s.json (call_ids calls) calls nodes c b mc in
      let undone : knows p.executed n.id ≡ false = ap (knows p.executed) idn ∙ e in
      let degree : degree_of n.id p.indegree ≡ pos (lacking p.executed n) =
        ap (degree_of n.id) i.counts ∙ degree_of-degrees p.executed n nodes d m in
      let waits : is_zero (degree_of n.id p.indegree) ≡ false =
        ground (arith, ready_none p n nodes none_ready m, undone) in
      let (x, mx, f) =
        missing_some p.executed n.dependencies
          (zero_ready (degree_of n.id p.indegree) (lacking p.executed n) degree waits) in
      let (r, mr, named) = deps.named x mx in
      let whole : x ≡ r = named ∙ (extract-IsId s.json c.input r mr).0 in
      (
        x,
        subst (λ y. Memᴰ y (extract_tool_dependencies s.json c.input)) (sym whole) mr,
        knows-Mem (call_ids calls) x (deps.known x mx),
        λ q. not_self n.id x (deps.others x mx) (q ∙ sym idn),
        f,
      ),
)

-- When the run stops with the cycle error, there are calls that are not done, and each of them
-- refers to another of them.
pub execute_dag_cycle :
    (s : Setup) (calls : List ToolCallContent) (q : Progress)
    → execute_dag s calls ≡ some (stopped cycle_detected q)
    → Deadlock s.json q.executed calls
unfolding run_round
execute_dag_cycle s calls q h = elim (execute_dag-stopped s calls cycle_detected q h) [
  | inl (x, f, e, g) ↦ absurd (cc)
  | inr (nodes, f, (p, r, left, e)) ↦
      let (b, d) = build_tool_dag-IsBuilt s.json calls nodes f in
      let i = Reached-Inv s nodes p d r in
      elim (List-cases (ready_nodes p nodes)) [
        | inl w ↦
            let same : p ≡ q = stays p q (ap (λ l. run_round s nodes l p) (sym w) ∙ e) in
            subst (λ x. Deadlock s.json x.executed calls) same
              (stuck-Deadlock s calls nodes p b d i left w)
        | inr (n, ns, w) ↦
            let round = next_round s (n ∷ ns) in
            absurd (
              settle_cycle s nodes p.done_results round (begin_round round p) q
                (ap (λ l. run_round s nodes l p) (sym w) ∙ e))
      ]
]
  where
    stays :
        (p q : Progress)
        → ◌≡◌ {A = (ExecuteError × Progress) ⊎ Progress}
            (inl (cycle_detected, p))
            (inl (cycle_detected, q))
        → p ≡ q
    stays p q h = cc
