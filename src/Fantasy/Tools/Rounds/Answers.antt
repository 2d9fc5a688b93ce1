-- ===== src/Fantasy/Tools/Rounds/Answers.antt =====
-- The state of `DAGToolRuntime.Execute` from its first round to its end.
use dragonscale.Prelude.{
  ℕ, zero, suc, inl, inr, ◌≡◌, ◌≢◌, refl, sym, ap, ◌∙◌, subst, false, List, [], ◌∷◌, some, length,
  length-replicate, Bool-cases, Sum-cases, Nat-cases, arith,
}
use dragonscale.Prelude.Text.{codes_eq}
use dragonscale.Itr.Dag.Degrees.{in_degrees-degrees}
use dragonscale.Itr.Dag.Waves.{missing_more}
use dragonscale.Fantasy.Tools.{ToolResultContent}
use dragonscale.Fantasy.Tools.Refs.{Results, find_result}
use dragonscale.Fantasy.Tools.Refs.Table.{Extends}
use dragonscale.Fantasy.Tools.Graph.{ToolDagNode, knows, states_of}
use dragonscale.Fantasy.Tools.Rounds.{
  Setup, Progress, answered, execute_dag_node, notify, finish, begun, begin_round, settle, outcomes,
  next_round, ready_nodes, run_round, run_rounds,
}
use dragonscale.Fantasy.Tools.Rounds.Counts.{DistinctNodes, has_node, Runnable, round-Runnable}
use dragonscale.Fantasy.Tools.Rounds.State.{pending, Explained-more, Inv}
use dragonscale.Fantasy.Tools.Rounds.Keeps.{Extends-added, finish-Inv}

pub finish-Runnable :
    (nodes ns : List ToolDagNode) (executed : List (List ℕ)) (n : ToolDagNode)
    → has_node n.id ns ≡ false
    → Runnable nodes executed ns
    → Runnable nodes (n.id ∷ executed) ns
finish-Runnable nodes [] executed n h r = tt
finish-Runnable nodes (k ∷ ns) executed n h r = elim (codes_eq k.id n.id) [
  | yes p ↦ absurd (ground (arith, h, p))
  | no p ↦ (
    r.0,
    other p r.1,
    omega (arith, r.2, missing_more codes_eq n.id executed k.dependencies),
    r.3,
    finish-Runnable nodes ns executed n (ground (arith, h, p)) r.4,
  )
]
  where
    other : k.id ≢ n.id → knows executed k.id ≡ false → knows (n.id ∷ executed) k.id ≡ false
    other p e = elim (codes_eq n.id k.id) [
      | yes q ↦ absurd (p (sym q))
      | no q ↦ ground (arith, q, e)
    ]

pending_none : (ns : List ToolDagNode) → pending [] ns ≡ length ns
pending_none [] = refl
pending_none (n ∷ ns) = ap suc (pending_none ns)

pub begun-Inv : (s : Setup) (nodes : List ToolDagNode) → Inv s nodes (begun nodes)
unfolding find_result
begun-Inv s nodes = record {
  counts = in_degrees-degrees codes_eq (states_of nodes);
  keyed = refl;
  inside = λ id h. absurd (cc);
  explained = λ n r m h. absurd (cc);
  slots = λ n r m h. absurd (cc);
  size = length-replicate (length nodes) _;
  count = sym (pending_none nodes);
}

pub round-Inv :
    (s : Setup) (nodes : List ToolDagNode) (p : Progress) (round : List ToolDagNode)
    → Inv s nodes p
    → Inv s nodes (begin_round round p)
round-Inv s nodes p round i = record {
  counts = i.counts;
  keyed = i.keyed;
  inside = i.inside;
  explained = i.explained;
  slots = i.slots;
  size = i.size;
  count = i.count;
}

module _ (s : Setup) (nodes : List ToolDagNode) (distinct : DistinctNodes nodes) where
  settle-Inv :
      (prior : Results) (round : List ToolDagNode) (p q : Progress)
      → Inv s nodes p
      → Runnable nodes p.executed round
      → Extends prior p.done_results
      → settle s nodes (outcomes s prior round) p ≡ inr q
      → Inv s nodes q
  unfolding settle
  settle-Inv prior [] p q i r more h = let same : p ≡ q = cc in subst (Inv s nodes) same i
  settle-Inv prior (n ∷ ns) p q i r more h =
      elim (Sum-cases (execute_dag_node s n.tool_call prior)) [
        | inl (x, e) ↦ absurd (ground (arith, h, e))
        | inr (o, e) ↦ elim (Bool-cases o.critical) [
          | inl c ↦ absurd (ground (arith, h, e, c))
          | inr c ↦
              let next = finish nodes n o.result (notify s o.result p) in
              let ran =
                Explained-more s n.tool_call prior p.done_results o.result more (o, e, c, refl) in
              settle-Inv prior ns next q (finish-Inv s nodes distinct p i n r.0 r.1 o.result ran)
                (finish-Runnable nodes ns p.executed n r.3 r.4)
                (λ id v f. Extends-added s nodes distinct p i n r.0 r.1 o.result id v (more id v f))
                (ground (arith, h, e, c))
        ]
      ]

  round_kept :
      (ready : List ToolDagNode) (p q : Progress)
      → Inv s nodes p
      → Runnable nodes p.executed (next_round s ready)
      → run_round s nodes ready p ≡ inr q
      → Inv s nodes q
  unfolding run_round
  round_kept [] p q i r h = absurd (cc)
  round_kept (n ∷ ns) p q i r h =
      let round = next_round s (n ∷ ns) in
      settle-Inv p.done_results round (begin_round round p) q (round-Inv s nodes p round i) r
        (λ id v e. e) h

  pub run_round-Inv :
      (p q : Progress)
      → Inv s nodes p
      → run_round s nodes (ready_nodes p nodes) p ≡ inr q
      → Inv s nodes q
  run_round-Inv p q i h =
      round_kept (ready_nodes p nodes) p q i (round-Runnable s nodes p distinct i.counts) h

  -- The state in which the loop has nothing left.
  abbrev pub Finished : List ToolResultContent → Progress → Type 0
  Finished rs q = Inv s nodes q × (rs ≡ q.results) × (q.remaining ≡ 0)

  stop_at :
      (p q : Progress) (rs : List ToolResultContent)
      → Inv s nodes p
      → p.remaining ≡ 0
      → some (answered p.results p) ≡ some (answered rs q)
      → Finished rs q
  stop_at p q rs i z h =
      let same : p ≡ q = cc in
      let out : p.results ≡ rs = cc in
      (
        subst (Inv s nodes) same i,
        sym out ∙ ap (λ x. x.results) same,
        ap (λ x. x.remaining) (sym same) ∙ z,
      )

  pub run_rounds-Finished :
      (fuel : ℕ) (p q : Progress) (rs : List ToolResultContent)
      → Inv s nodes p
      → run_rounds fuel s nodes p ≡ some (answered rs q)
      → Finished rs q
  unfolding run_rounds
  run_rounds-Finished zero p q rs i h = elim (Nat-cases p.remaining) [
    | inl z ↦ stop_at p q rs i z (ground (arith, h, z))
    | inr (r, e) ↦ absurd (ground (arith, h, e))
  ]
  run_rounds-Finished (suc fuel) p q rs i h = elim (Nat-cases p.remaining) [
    | inl z ↦ stop_at p q rs i z (ground (arith, h, z))
    | inr (r, e) ↦ elim (Sum-cases (run_round s nodes (ready_nodes p nodes) p)) [
      | inl ((x, k), f) ↦ absurd (ground (arith, h, e, f))
      | inr (k, f) ↦
          run_rounds-Finished fuel k q rs (run_round-Inv p k i f) (ground (arith, h, e, f))
    ]
  ]
