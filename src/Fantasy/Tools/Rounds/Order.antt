-- ===== src/Fantasy/Tools/Rounds/Order.antt =====
-- The rounds of `DAGToolRuntime.Execute`: which calls run together, and behind which.
use dragonscale.Prelude.{
  ℕ, zero, suc, ◌≤◌, ◌⊎◌, inl, inr, ◌≡◌, refl, sym, ap, subst, true, false, List, [], ◌∷◌, ◌++◌,
  none, length, take, length-take, Bool-cases, Option-cases, Sum-cases, arith,
}
use dragonscale.Prelude.Text.{codes_eq}
use dragonscale.Itr.Dag.Waves.{done_after}
use dragonscale.Fantasy.Tools.{is_parallel_safe, critical_error}
use dragonscale.Fantasy.Tools.Refs.{Results}
use dragonscale.Fantasy.Tools.Graph.{ToolDagNode, knows}
use dragonscale.Fantasy.Tools.Rounds.{
  Setup, max_conc, ExecuteError, unresolved, critical_failure, Progress, execute_dag_node, outcomes,
  notify, finish, settle, find_barrier, next_round,
}
use dragonscale.Fantasy.Tools.Rounds.Counts.{lacking, Runnable}

abbrev pub node_ids : List ToolDagNode → List (List ℕ)
node_ids [] = []
node_ids (n ∷ ns) = n.id ∷ node_ids ns

-- The calls are all safe to run beside others.
abbrev AllSafe : Setup → List ToolDagNode → Type 0
AllSafe s [] = Unit
AllSafe s (n ∷ ns) = (is_parallel_safe s.box n.tool_call ≡ true) × AllSafe s ns

-- A call alone, or no more calls than may run at a time, each of them safe to run beside others.
abbrev pub Exclusive : Setup → List ToolDagNode → Type 0
Exclusive s round =
    ((n : ToolDagNode) × (round ≡ n ∷ []))
    ⊎ (AllSafe s round × (length round ≤ max_conc s.max_concurrency))

-- The calls are not done, and their dependencies are.
abbrev pub Due : List (List ℕ) → List ToolDagNode → Type 0
Due done [] = Unit
Due done (n ∷ ns) = (knows done n.id ≡ false) × (lacking done n ≡ 0) × Due done ns

-- Each round has a call, is exclusive, and is due when the calls of the rounds before it are done.
abbrev pub Sequenced : Setup → List (List ℕ) → List (List ToolDagNode) → Type 0
Sequenced s done [] = Unit
Sequenced s done (r ∷ rs) =
    (1 ≤ length r)
    × Exclusive s r
    × Due done r
    × Sequenced s (done_after codes_eq (node_ids r) done) rs

abbrev pub gathered : List (List ℕ) → List (List ToolDagNode) → List (List ℕ)
gathered done [] = done
gathered done (r ∷ rs) = gathered (done_after codes_eq (node_ids r) done) rs

abbrev pub RoundOk : Setup → List (List ℕ) → List ToolDagNode → Type 0
RoundOk s done r = (1 ≤ length r) × Exclusive s r × Due done r

pub one_more :
    (s : Setup) (done : List (List ℕ)) (rs : List (List ToolDagNode)) (r : List ToolDagNode)
    → Sequenced s done rs
    → RoundOk s (gathered done rs) r
    → Sequenced s done (rs ++ (r ∷ []))
one_more s done [] r q ok = (ok.0, ok.1, ok.2, tt)
one_more s done (k ∷ ks) r q ok =
    (q.0, q.1, q.2, one_more s (done_after codes_eq (node_ids k) done) ks r q.3 ok)

pub gathered_more :
    (done : List (List ℕ)) (rs : List (List ToolDagNode)) (r : List ToolDagNode)
    → gathered done (rs ++ (r ∷ [])) ≡ done_after codes_eq (node_ids r) (gathered done rs)
gathered_more done [] r = refl
gathered_more done (k ∷ ks) r = gathered_more (done_after codes_eq (node_ids k) done) ks r

pub Runnable-Due :
    (nodes round : List ToolDagNode) (executed : List (List ℕ))
    → Runnable nodes executed round
    → Due executed round
Runnable-Due nodes [] executed r = tt
Runnable-Due nodes (n ∷ ns) executed r = (r.1, r.2, Runnable-Due nodes ns executed r.4)

barrier_none : (s : Setup) (ns : List ToolDagNode) → find_barrier s.box ns ≡ none → AllSafe s ns
unfolding find_barrier
barrier_none s [] h = tt
barrier_none s (n ∷ ns) h = elim (Bool-cases (is_parallel_safe s.box n.tool_call)) [
  | inl e ↦ (e, barrier_none s ns (ground (arith, h, e)))
  | inr e ↦ absurd (ground (arith, h, e))
]

take-AllSafe : (s : Setup) (j : ℕ) (ns : List ToolDagNode) → AllSafe s ns → AllSafe s (take j ns)
take-AllSafe s zero ns a = tt
take-AllSafe s (suc j) [] a = tt
take-AllSafe s (suc j) (n ∷ ns) a = (a.0, take-AllSafe s j ns a.1)

pub next_round-Exclusive : (s : Setup) (ready : List ToolDagNode) → Exclusive s (next_round s ready)
unfolding next_round
next_round-Exclusive s ready = elim (Option-cases (find_barrier s.box ready)) [
  | inl e ↦
      let r : next_round s ready ≡ take (max_conc s.max_concurrency) ready = ground (arith, e) in
      subst (Exclusive s) (sym r) (
        inr (
          take-AllSafe s (max_conc s.max_concurrency) ready (barrier_none s ready e),
          omega (arith, length-take (max_conc s.max_concurrency) ready),
        ))
  | inr (n, e) ↦ inl (n, ground (arith, e))
]

module _ (s : Setup) (nodes : List ToolDagNode) where
  pub settled_rounds :
      (prior : Results) (round : List ToolDagNode) (p q : Progress)
      → settle s nodes (outcomes s prior round) p ≡ inr q
      → (q.rounds ≡ p.rounds) × (q.executed ≡ done_after codes_eq (node_ids round) p.executed)
  unfolding settle
  settled_rounds prior [] p q h =
      let same : q ≡ p = cc in (ap (λ x. x.rounds) same, ap (λ x. x.executed) same)
  settled_rounds prior (n ∷ ns) p q h = elim (Sum-cases (execute_dag_node s n.tool_call prior)) [
    | inl (x, e) ↦ absurd (ground (arith, h, e))
    | inr (o, e) ↦ elim (Bool-cases o.critical) [
      | inl c ↦ absurd (ground (arith, h, e, c))
      | inr c ↦
          settled_rounds prior ns (finish nodes n o.result (notify s o.result p)) q
            (ground (arith, h, e, c))
    ]
  ]

  pub stopped_rounds :
      (prior : Results) (round : List ToolDagNode) (p q : Progress) (x : ExecuteError)
      → settle s nodes (outcomes s prior round) p ≡ inl (x, q)
      → q.rounds ≡ p.rounds
  unfolding settle
  stopped_rounds prior [] p q x h = absurd (cc)
  stopped_rounds prior (n ∷ ns) p q x h = elim (Sum-cases (execute_dag_node s n.tool_call prior)) [
    | inl (y, e) ↦ stays p q (unresolved y) x (ground (arith, h, e))
    | inr (o, e) ↦ elim (Bool-cases o.critical) [
      | inl c ↦
          stays (notify s o.result p) q (critical_failure (critical_error o.result)) x
            (ground (arith, h, e, c))
      | inr c ↦
          stopped_rounds prior ns (finish nodes n o.result (notify s o.result p)) q x
            (ground (arith, h, e, c))
    ]
  ]
    where
      stays :
          (a b : Progress) (y z : ExecuteError)
          → ◌≡◌ {A = (ExecuteError × Progress) ⊎ Progress} (inl (y, a)) (inl (z, b))
          → b.rounds ≡ a.rounds
      stays a b y z e = let same : b ≡ a = cc in ap (λ x. x.rounds) same
