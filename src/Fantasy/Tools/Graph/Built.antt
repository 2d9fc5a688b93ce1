-- ===== src/Fantasy/Tools/Graph/Built.antt =====
-- The nodes of `BuildToolDAG` are those of its calls, in their order, and their ids are different.
use dragonscale.Prelude.{
  ℕ, inl, inr, ◌≡◌, refl, sym, ap, ◌∙◌, subst, true, false, List, [], ◌∷◌, none, Bool-cases,
  Sum-cases, Option-cases, arith,
}
use dragonscale.Prelude.Text.{codes_eq, all_space}
use dragonscale.Itr.Dag.Degrees.{has_id, Distinct}
use dragonscale.Fantasy.Tools.{ToolCallContent}
use dragonscale.Fantasy.Tools.Json.{Json}
use dragonscale.Fantasy.Tools.Refs.{extract_tool_dependencies}
use dragonscale.Fantasy.Tools.Graph.{
  ToolDagNode, knows, check_ids, call_ids, filter_deps, fill_nodes, build_tool_dag, states_of,
}
use dragonscale.Fantasy.Tools.Graph.Sound.{IsDeps, filter_deps-IsDeps}

-- A node for each call.
abbrev pub IsBuilt : Json → List (List ℕ) → List ToolCallContent → List ToolDagNode → Type 0
IsBuilt json ids [] [] = Unit
IsBuilt json ids [] (n ∷ ns) = ⊥
IsBuilt json ids (c ∷ cs) [] = ⊥
IsBuilt json ids (c ∷ cs) (n ∷ ns) =
    (n.id ≡ c.tool_call_id)
    × (n.tool_call ≡ c)
    × IsDeps n.id ids (extract_tool_dependencies json c.input) n.dependencies
    × IsBuilt json ids cs ns

fill_nodes-IsBuilt :
    (json : Json) (ids : List (List ℕ)) (cs : List ToolCallContent) (ns : List ToolDagNode)
    → fill_nodes json ids cs ≡ inr ns
    → IsBuilt json ids cs ns
unfolding fill_nodes
fill_nodes-IsBuilt json ids [] ns h =
    let none_left : [] ≡ ns = cc in subst (IsBuilt json ids []) none_left tt
fill_nodes-IsBuilt json ids (c ∷ cs) ns h =
    let refs = extract_tool_dependencies json c.input in
    elim (Sum-cases (filter_deps c.tool_call_id ids [] refs)) [
      | inl (x, e) ↦ absurd (ground (arith, h, e))
      | inr (deps, e) ↦ elim (Sum-cases (fill_nodes json ids cs)) [
        | inl (x, f) ↦ absurd (ground (arith, h, e, f))
        | inr (ms, f) ↦
            let n : ToolDagNode = record {
              id = c.tool_call_id;
              tool_call = c;
              dependencies = deps;
            } in
            let same : n ∷ ms ≡ ns = ground (arith, h, e, f) in
            subst (IsBuilt json ids (c ∷ cs)) same (
              refl,
              refl,
              filter_deps-IsDeps c.tool_call_id ids refs deps e,
              fill_nodes-IsBuilt json ids cs ms f,
            )
      ]
    ]

module _ (json : Json) (ids : List (List ℕ)) where
  seen_fresh :
      (seen : List (List ℕ)) (cs : List ToolCallContent) (ns : List ToolDagNode) (k : List ℕ)
      → check_ids seen cs ≡ none
      → IsBuilt json ids cs ns
      → knows seen k ≡ true
      → has_id codes_eq k (states_of ns) ≡ false
  unfolding check_ids
  seen_fresh seen [] [] k h b s = refl
  seen_fresh seen [] (n ∷ ns) k h b s = absurd b
  seen_fresh seen (c ∷ cs) [] k h b s = absurd b
  seen_fresh seen (c ∷ cs) (n ∷ ns) k h b s = elim (Bool-cases (all_space c.tool_call_id)) [
    | inl e ↦ absurd (ground (arith, h, e))
    | inr e ↦ elim (Bool-cases (knows seen c.tool_call_id)) [
      | inl f ↦ absurd (ground (arith, h, e, f))
      | inr f ↦ elim (codes_eq n.id k) [
        | yes p ↦ absurd (true_false (sym s ∙ ap (knows seen) (sym p ∙ b.0) ∙ f))
        | no p ↦
            let more : knows (c.tool_call_id ∷ seen) k ≡ true = elim (codes_eq c.tool_call_id k) [
              | yes q ↦ ground (arith, q)
              | no q ↦ ground (arith, q, s)
            ] in
            ground (
              arith,
              p,
              seen_fresh (c.tool_call_id ∷ seen) cs ns k (ground (arith, h, e, f)) b.3 more,
            )
      ]
    ]
  ]
    where
      true_false : true ≡ false → ⊥
      true_false e = cc

  built-Distinct :
      (seen : List (List ℕ)) (cs : List ToolCallContent) (ns : List ToolDagNode)
      → check_ids seen cs ≡ none
      → IsBuilt json ids cs ns
      → Distinct codes_eq (states_of ns)
  unfolding check_ids
  built-Distinct seen [] [] h b = tt
  built-Distinct seen [] (n ∷ ns) h b = absurd b
  built-Distinct seen (c ∷ cs) [] h b = absurd b
  built-Distinct seen (c ∷ cs) (n ∷ ns) h b = elim (Bool-cases (all_space c.tool_call_id)) [
    | inl e ↦ absurd (ground (arith, h, e))
    | inr e ↦ elim (Bool-cases (knows seen c.tool_call_id)) [
      | inl f ↦ absurd (ground (arith, h, e, f))
      | inr f ↦
          let rest : check_ids (c.tool_call_id ∷ seen) cs ≡ none = ground (arith, h, e, f) in
          let here : knows (c.tool_call_id ∷ seen) c.tool_call_id ≡ true = ground arith in
          (
            ap (λ k. has_id codes_eq k (states_of ns)) b.0
                ∙ seen_fresh (c.tool_call_id ∷ seen) cs ns c.tool_call_id rest b.3 here,
            built-Distinct (c.tool_call_id ∷ seen) cs ns rest b.3,
          )
    ]
  ]

-- A graph that is built has a node for each call, in the order of the calls, and no two nodes with
-- one id. A node's dependencies are the ids that the references in its input name, each once, but
-- for the call itself, and every one is the id of a call.
pub build_tool_dag-IsBuilt :
    (json : Json) (calls : List ToolCallContent) (nodes : List ToolDagNode)
    → build_tool_dag json calls ≡ inr nodes
    → IsBuilt json (call_ids calls) calls nodes × Distinct codes_eq (states_of nodes)
unfolding build_tool_dag
build_tool_dag-IsBuilt json calls nodes h = elim (Option-cases (check_ids [] calls)) [
  | inr (x, e) ↦ absurd (ground (arith, h, e))
  | inl e ↦
      let b = fill_nodes-IsBuilt json (call_ids calls) calls nodes (ground (arith, h, e)) in
      (b, built-Distinct json (call_ids calls) [] calls nodes e b)
]
