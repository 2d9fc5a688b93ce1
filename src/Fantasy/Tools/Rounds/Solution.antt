-- ===== src/Fantasy/Tools/Rounds/Solution.antt =====
-- The results that `DAGToolRuntime.Execute` returns, against the calls alone.
use dragonscale.Prelude.{
  ℕ, inl, inr, ◌≡◌, ◌≢◌, refl, sym, ap, ◌∙◌, subst, true, List, [], ◌∷◌, some, length, get_elem?,
  Memᴰ, Mem-cons, Bool-cases, Sum-cases, arith,
}
use dragonscale.Prelude.Text.{codes_eq}
use dragonscale.Fantasy.Tools.{ToolCallContent, ToolResultContent}
use dragonscale.Fantasy.Tools.Json.{Json}
use dragonscale.Fantasy.Tools.Refs.{Results, find_result}
use dragonscale.Fantasy.Tools.Refs.Table.{Extends}
use dragonscale.Fantasy.Tools.Graph.{ToolDagNode, knows, build_tool_dag, call_ids}
use dragonscale.Fantasy.Tools.Graph.Built.{IsBuilt, build_tool_dag-IsBuilt}
use dragonscale.Fantasy.Tools.Rounds.{Setup, Progress, answered, index_of, begun, execute_dag}
use dragonscale.Fantasy.Tools.Rounds.Counts.{DistinctNodes, has_node, behind_ne}
use dragonscale.Fantasy.Tools.Rounds.State.{
  pending, Explained, Explained-more, knows-find, find_knows,
}
use dragonscale.Fantasy.Tools.Rounds.Given.{Given, Explained-Given}
use dragonscale.Fantasy.Tools.Rounds.Answers.{begun-Inv, run_rounds-Finished, Finished}

-- Each result is in the place of its node.
abbrev pub Placed : Results → List ToolDagNode → List ToolResultContent → Type 0
Placed t [] [] = Unit
Placed t [] (r ∷ rs) = ⊥
Placed t (n ∷ ns) [] = ⊥
Placed t (n ∷ ns) (r ∷ rs) = (find_result n.id t ≡ some r) × Placed t ns rs

-- The results by the ids of their calls.
abbrev pub by_id : List ToolCallContent → List ToolResultContent → Results
by_id [] rs = []
by_id (c ∷ cs) [] = []
by_id (c ∷ cs) (r ∷ rs) = (c.tool_call_id, r) ∷ by_id cs rs

-- There is a result for each call, in the order of the calls, and it is what the call's tool gives
-- on the input with its references replaced by results of the table.
abbrev pub Solves : Setup → Results → List ToolCallContent → List ToolResultContent → Type 0
Solves s table [] [] = Unit
Solves s table [] (r ∷ rs) = ⊥
Solves s table (c ∷ cs) [] = ⊥
Solves s table (c ∷ cs) (r ∷ rs) = Given s c table r × Solves s table cs rs

pending-knows :
    (n : ToolDagNode) (executed : List (List ℕ)) (ns : List ToolDagNode)
    → pending executed ns ≡ 0
    → Memᴰ n ns
    → knows executed n.id ≡ true
pending-knows n executed [] z m = elim m [ ]
pending-knows n executed (k ∷ ns) z m = elim (Bool-cases (knows executed k.id)) [
  | inr e ↦ absurd (ground (arith, z, e))
  | inl e ↦ elim (Mem-cons m) [
    | inl p ↦ ap (λ x. knows executed x.id) p ∙ e
    | inr t ↦ pending-knows n executed ns (ground (arith, z, e)) t
  ]
]

slots-Placed :
    (t : Results) (ns : List ToolDagNode) (rs : List ToolResultContent)
    → DistinctNodes ns
    → length rs ≡ length ns
    → ((n : ToolDagNode)
        → Memᴰ n ns
        → (r : ToolResultContent) × (find_result n.id t ≡ some r)
          × (get_elem? rs (index_of n.id ns) ≡ some r))
    → Placed t ns rs
slots-Placed t [] [] d l h = tt
slots-Placed t [] (r ∷ rs) d l h = absurd (omega (arith, l))
slots-Placed t (n ∷ ns) [] d l h = absurd (omega (arith, l))
slots-Placed t (n ∷ ns) (r ∷ rs) d l h =
    let (v, found, at) = h n (Memᴰ.head refl) in
    let first : r ≡ v = ground (arith, at) in
    (
      found ∙ ap some (sym first),
      slots-Placed t ns rs d.1 (omega (arith, l)) (λ m e.
          let (w, found_w, at_w) = h m (Memᴰ.tail e) in
          (w, found_w, ground (arith, behind_ne n m ns d.0 e, at_w))),
    )

module _ (json : Json) (ids : List (List ℕ)) (t : Results) where
  Placed-found :
      (cs : List ToolCallContent) (ns : List ToolDagNode) (rs : List ToolResultContent)
      (id : List ℕ) (v : ToolResultContent)
      → IsBuilt json ids cs ns
      → Placed t ns rs
      → has_node id ns ≡ true
      → find_result id t ≡ some v
      → find_result id (by_id cs rs) ≡ some v
  unfolding find_result
  Placed-found cs [] rs id v b pl h f = absurd (cc)
  Placed-found [] (n ∷ ns) rs id v b pl h f = absurd b
  Placed-found (c ∷ cs) (n ∷ ns) [] id v b pl h f = absurd pl
  Placed-found (c ∷ cs) (n ∷ ns) (r ∷ rs) id v b pl h f = elim (codes_eq n.id id) [
    | yes p ↦
        let one : some r ≡ some v = sym pl.0 ∙ ap (λ i. find_result i t) p ∙ f in
        let at : c.tool_call_id ≡ id = sym b.0 ∙ p in ground (arith, one, at)
    | no p ↦
        let apart : c.tool_call_id ≢ id = λ q. p (b.0 ∙ q) in
        ground (arith, apart, Placed-found cs ns rs id v b.3 pl.1 (ground (arith, h, p)) f)
  ]

  Placed-Solves :
      (s : Setup) (table : Results) (cs : List ToolCallContent) (ns : List ToolDagNode)
      (rs : List ToolResultContent)
      → IsBuilt json ids cs ns
      → Placed t ns rs
      → ((n : ToolDagNode) (r : ToolResultContent)
          → Memᴰ n ns
          → find_result n.id t ≡ some r
          → Explained s n.tool_call table r)
      → Solves s table cs rs
  Placed-Solves s table [] [] [] b pl h = tt
  Placed-Solves s table [] [] (r ∷ rs) b pl h = absurd pl
  Placed-Solves s table [] (n ∷ ns) rs b pl h = absurd b
  Placed-Solves s table (c ∷ cs) [] rs b pl h = absurd b
  Placed-Solves s table (c ∷ cs) (n ∷ ns) [] b pl h = absurd pl
  Placed-Solves s table (c ∷ cs) (n ∷ ns) (r ∷ rs) b pl h = (
    Explained-Given s c table r
        (subst (λ x. Explained s x table r) b.1 (h n r (Memᴰ.head refl) pl.0)),
    Placed-Solves s table cs ns rs b.3 pl.1 (λ m v e. h m v (Memᴰ.tail e)),
  )

-- At the end each result is in its place.
pub Finished-Placed :
    (s : Setup) (nodes : List ToolDagNode) (rs : List ToolResultContent) (q : Progress)
    → (d : DistinctNodes nodes) → Finished s nodes d rs q
    → Placed q.done_results nodes rs
Finished-Placed s nodes rs q d (i, out, z) =
    slots-Placed q.done_results nodes rs d (ap length out ∙ i.size) λ n m.
      let done = pending-knows n q.executed nodes (sym i.count ∙ z) m in
      let (r, f) = knows-find n.id q.done_results (ap (λ l. knows l n.id) i.keyed ∙ done) in
      (r, f, ap (λ l. get_elem? l (index_of n.id nodes)) out ∙ i.slots n r m f)

Finished-Solves :
    (s : Setup) (calls : List ToolCallContent) (nodes : List ToolDagNode)
    (rs : List ToolResultContent) (q : Progress)
    → IsBuilt s.json (call_ids calls) calls nodes
    → (d : DistinctNodes nodes) → Finished s nodes d rs q
    → Solves s (by_id calls rs) calls rs
Finished-Solves s calls nodes rs q b d (i, out, z) =
    let ids = call_ids calls in
    let placed = Finished-Placed s nodes rs q d (i, out, z) in
    let more : Extends q.done_results (by_id calls rs) = λ id v f.
      let there =
        i.inside id (ap (λ l. knows l id) (sym i.keyed) ∙ find_knows id q.done_results v f) in
      Placed-found s.json ids q.done_results calls nodes rs id v b placed there f in
    Placed-Solves s.json ids q.done_results s (by_id calls rs) calls nodes rs b placed (λ n r m f.
      Explained-more s n.tool_call q.done_results (by_id calls rs) r more (i.explained n r m f))

-- When the run of the calls returns results, there is one for each call, in the order of the calls,
-- and it is what the call's tool gives on the call's input with each reference in it, at any depth
-- of its JSON, replaced by the output that is returned for the call that it names, or by the part of
-- it that the reference's path leads to.
pub execute_dag-Solves :
    (s : Setup) (calls : List ToolCallContent) (rs : List ToolResultContent) (q : Progress)
    → execute_dag s calls ≡ some (answered rs q)
    → Solves s (by_id calls rs) calls rs
unfolding execute_dag
execute_dag-Solves s calls rs q h = elim (Sum-cases (build_tool_dag s.json calls)) [
  | inl (x, e) ↦ absurd (ground (arith, h, e))
  | inr (nodes, e) ↦
      let (b, d) = build_tool_dag-IsBuilt s.json calls nodes e in
      Finished-Solves s calls nodes rs q b d (
        run_rounds-Finished s nodes d (length nodes) (begun nodes) q rs (begun-Inv s nodes)
          (ground (arith, h, e)))
]
