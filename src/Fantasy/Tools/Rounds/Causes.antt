-- ===== src/Fantasy/Tools/Rounds/Causes.antt =====
-- Why `DAGToolRuntime.Execute` stops with an error of its own.
use dragonscale.Prelude.{
  ℕ, ◌⊎◌, inl, inr, ◌≡◌, ◌≢◌, refl, sym, ap, ◌∙◌, subst, true, List, [], ◌∷◌, none, some, Memᴰ,
  Mem-cons, Bool-cases, Sum-cases, arith,
}
use dragonscale.Prelude.Text.{codes_eq}
use dragonscale.Itr.Dag.Degrees.{missing-mem}
use dragonscale.Fantasy.Tools.{ToolCallContent, ToolResultContent}
use dragonscale.Fantasy.Tools.Json.{Json}
use dragonscale.Fantasy.Tools.Refs.{
  RefError, not_available, Results, resolve_input, extract_tool_dependencies,
}
use dragonscale.Fantasy.Tools.Refs.Needs.{resolve_input-Lacks}
use dragonscale.Fantasy.Tools.Refs.Ids.{extract-IsId}
use dragonscale.Fantasy.Tools.Graph.{ToolDagNode, knows, call_ids, passed_over}
use dragonscale.Fantasy.Tools.Graph.Sound.{IsDeps}
use dragonscale.Fantasy.Tools.Graph.Built.{IsBuilt, build_tool_dag-IsBuilt}
use dragonscale.Fantasy.Tools.Rounds.{
  Setup, ExecuteError, unresolved, cycle_detected, Progress, stopped, execute_dag_node, outcomes,
  notify, finish, begin_round, settle, run_round, ready_nodes, next_round, execute_dag,
}
use dragonscale.Fantasy.Tools.Rounds.Counts.{lacking, Runnable, round-Runnable}
use dragonscale.Fantasy.Tools.Rounds.State.{Inv, knows-find}
use dragonscale.Fantasy.Tools.Rounds.Reached.{Reached-Inv, execute_dag-stopped}

-- A call of the round did not resolve.
abbrev Unresolved : Setup → Results → List ToolDagNode → RefError → Type 0
Unresolved s prior round err =
    (n : ToolDagNode) × Memᴰ n round × (execute_dag_node s n.tool_call prior ≡ inl err)

same_error :
    (x y : RefError) (p q : Progress)
    → ◌≡◌ {A = (ExecuteError × Progress) ⊎ Progress} (inl (unresolved x, p)) (inl (unresolved y, q))
    → x ≡ y
same_error x y p q h = cc

settle-Unresolved :
    (s : Setup) (nodes : List ToolDagNode) (prior : Results) (round : List ToolDagNode)
    (p q : Progress) (err : RefError)
    → settle s nodes (outcomes s prior round) p ≡ inl (unresolved err, q)
    → Unresolved s prior round err
unfolding settle
settle-Unresolved s nodes prior [] p q err h = absurd (cc)
settle-Unresolved s nodes prior (n ∷ ns) p q err h =
    elim (Sum-cases (execute_dag_node s n.tool_call prior)) [
      | inl (x, e) ↦
          let same : x ≡ err = same_error x err p q (ground (arith, h, e)) in
          (n, Memᴰ.head refl, e ∙ ap inl same)
      | inr (o, e) ↦ elim (Bool-cases o.critical) [
        | inl c ↦ absurd (ground (arith, h, e, c))
        | inr c ↦
            let (m, at, f) =
              settle-Unresolved s nodes prior ns (finish nodes n o.result (notify s o.result p)) q
                err (ground (arith, h, e, c)) in
            (m, Memᴰ.tail at, f)
      ]
    ]

pub settle_cycle :
    (s : Setup) (nodes : List ToolDagNode) (prior : Results) (round : List ToolDagNode)
    (p q : Progress)
    → settle s nodes (outcomes s prior round) p ≡ inl (cycle_detected, q)
    → ⊥
unfolding settle
settle_cycle s nodes prior [] p q h = cc
settle_cycle s nodes prior (n ∷ ns) p q h =
    elim (Sum-cases (execute_dag_node s n.tool_call prior)) [
      | inl (x, e) ↦ ground (arith, h, e)
      | inr (o, e) ↦ elim (Bool-cases o.critical) [
        | inl c ↦ ground (arith, h, e, c)
        | inr c ↦
            settle_cycle s nodes prior ns (finish nodes n o.result (notify s o.result p)) q
              (ground (arith, h, e, c))
      ]
    ]

Runnable-Mem :
    (n : ToolDagNode) (nodes round : List ToolDagNode) (executed : List (List ℕ))
    → Runnable nodes executed round
    → Memᴰ n round
    → Memᴰ n nodes × (lacking executed n ≡ 0)
Runnable-Mem n nodes [] executed r m = elim m [ ]
Runnable-Mem n nodes (k ∷ ns) executed r m = elim (Mem-cons m) [
  | inl p ↦ subst (λ x. Memᴰ x nodes × (lacking executed x ≡ 0)) (sym p) (r.0, r.2)
  | inr t ↦ Runnable-Mem n nodes ns executed r.4 t
]

round-Unresolved :
    (s : Setup) (nodes ready : List ToolDagNode) (p q : Progress) (err : RefError)
    → Runnable nodes p.executed (next_round s ready)
    → run_round s nodes ready p ≡ inl (unresolved err, q)
    → (n : ToolDagNode) × Memᴰ n nodes
      × (lacking p.executed n ≡ 0)
      × (execute_dag_node s n.tool_call p.done_results ≡ inl err)
unfolding run_round
round-Unresolved s nodes [] p q err r h = absurd (cc)
round-Unresolved s nodes (k ∷ ks) p q err r h =
    let round = next_round s (k ∷ ks) in
    let (n, m, e) = settle-Unresolved s nodes p.done_results round (begin_round round p) q err h in
    let (at, free) = Runnable-Mem n nodes round p.executed r m in (n, at, free, e)

node_input :
    (s : Setup) (c : ToolCallContent) (prior : Results) (err : RefError)
    → execute_dag_node s c prior ≡ inl err
    → resolve_input s.json prior c.input ≡ inl err
unfolding execute_dag_node
node_input s c prior err h = elim (Sum-cases (resolve_input s.json prior c.input)) [
  | inl (x, e) ↦ e ∙ ground (arith, h, e)
  | inr (i, e) ↦ absurd (ground (arith, h, e))
]

-- What is built of the call of a node.
pub built_node :
    (json : Json) (ids : List (List ℕ)) (cs : List ToolCallContent) (ns : List ToolDagNode)
    (n : ToolDagNode)
    → IsBuilt json ids cs ns
    → Memᴰ n ns
    → (c : ToolCallContent) × Memᴰ c cs
      × (n.id ≡ c.tool_call_id)
      × (n.tool_call ≡ c)
      × IsDeps n.id ids (extract_tool_dependencies json c.input) n.dependencies
built_node json ids cs [] n b m = elim m [ ]
built_node json ids [] (k ∷ ns) n b m = absurd b
built_node json ids (c ∷ cs) (k ∷ ns) n b m = elim (Mem-cons m) [
  | inl p ↦
      let at =
        subst
          (λ x.
            (x.id ≡ c.tool_call_id)
            × (x.tool_call ≡ c)
            × IsDeps x.id ids (extract_tool_dependencies json c.input) x.dependencies)
          (sym p) (b.0, b.1, b.2) in
      (c, Memᴰ.head refl, at.0, at.1, at.2)
  | inr t ↦ let (d, i, e, f, g) = built_node json ids cs ns n b.3 t in (d, Memᴰ.tail i, e, f, g)
]

passed_over_self : (self id : List ℕ) → id ≢ [] → passed_over self id ≡ true → id ≡ self
passed_over_self self [] ne h = absurd (ne refl)
passed_over_self self (c ∷ cs) ne h = elim (codes_eq (c ∷ cs) self) [
  | yes p ↦ p
  | no p ↦ absurd (ground (arith, h, p))
]

lacking_self :
    (s : Setup) (nodes : List ToolDagNode) (calls : List ToolCallContent) (p : Progress)
    (n : ToolDagNode) (ref : List ℕ)
    → IsBuilt s.json (call_ids calls) calls nodes
    → Inv s nodes p
    → Memᴰ n nodes
    → lacking p.executed n ≡ 0
    → resolve_input s.json p.done_results n.tool_call.input ≡ inl (not_available ref)
    → (c : ToolCallContent) × Memᴰ c calls
      × Memᴰ c.tool_call_id (extract_tool_dependencies s.json c.input)
lacking_self s nodes calls p n ref b i at free h =
    let (c, mc, idc, callc, deps) = built_node s.json (call_ids calls) calls nodes n b at in
    let (id, m, gone) =
      resolve_input-Lacks s.json p.done_results ref c.input
        (ap (λ x. resolve_input s.json p.done_results x.input) (sym callc) ∙ h) in
    let (trimmed, ne) = extract-IsId s.json c.input id m in
    elim (Bool-cases (passed_over n.id id)) [
      | inl o ↦
          let self : id ≡ c.tool_call_id = passed_over_self n.id id ne o ∙ idc in
          (c, mc, subst (λ x. Memᴰ x (extract_tool_dependencies s.json c.input)) self m)
      | inr o ↦
          let dep : Memᴰ id n.dependencies =
            subst (λ x. Memᴰ x n.dependencies) trimmed
              (deps.complete id m (ap (passed_over n.id) trimmed ∙ o)) in
          let done = missing-mem codes_eq id p.executed n.dependencies free dep in
          let (r, f) = knows-find id p.done_results (ap (λ l. knows l id) i.keyed ∙ done) in
          absurd (none_some (sym gone ∙ f))
    ]
  where
    none_some : {r : ToolResultContent} → none ≡ some r → ⊥
    none_some e = cc

-- When the run stops because the result that a reference names is not there, some call refers to
-- itself.
pub execute_dag_unavailable :
    (s : Setup) (calls : List ToolCallContent) (ref : List ℕ) (q : Progress)
    → execute_dag s calls ≡ some (stopped (unresolved (not_available ref)) q)
    → (c : ToolCallContent) × Memᴰ c calls
      × Memᴰ c.tool_call_id (extract_tool_dependencies s.json c.input)
execute_dag_unavailable s calls ref q h = elim (execute_dag-stopped s calls _ q h) [
  | inl (x, f, e, g) ↦ absurd (cc)
  | inr (nodes, f, (p, r, left, e)) ↦
      let (b, d) = build_tool_dag-IsBuilt s.json calls nodes f in
      let i = Reached-Inv s nodes p d r in
      let (n, at, free, g) =
        round-Unresolved s nodes (ready_nodes p nodes) p q (not_available ref)
          (round-Runnable s nodes p d i.counts) e in
      lacking_self s nodes calls p n ref b i at free
        (node_input s n.tool_call p.done_results (not_available ref) g)
]
