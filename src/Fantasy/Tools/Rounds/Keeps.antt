-- ===== src/Fantasy/Tools/Rounds/Keeps.antt =====
-- What holds of the state of `DAGToolRuntime.Execute` is kept by each outcome that it takes in.
use dragonscale.Prelude.{
  ℕ, ◌<◌, ◌≡◌, ◌≢◌, sym, ap, ◌∙◌, subst, true, false, List, [], ◌∷◌, none, some, length, set,
  length-set, get_elem?, get_elem?-set_self, get_elem?-set_ne, Memᴰ, arith,
}
use dragonscale.Prelude.Text.{codes_eq}
use dragonscale.Itr.Dag.Resolver.{NodeState, decrement_each, dependents}
use dragonscale.Itr.Dag.Degrees.{Settled, decrement_each-degrees}
use dragonscale.Fantasy.Tools.{ToolResultContent}
use dragonscale.Fantasy.Tools.Refs.{Results, find_result}
use dragonscale.Fantasy.Tools.Refs.Table.{Extends}
use dragonscale.Fantasy.Tools.Graph.{ToolDagNode, knows, states_of}
use dragonscale.Fantasy.Tools.Rounds.{Setup, Progress, index_of, notify, finish}
use dragonscale.Fantasy.Tools.Rounds.Counts.{DistinctNodes, has_node, Mem-has_node}
use dragonscale.Fantasy.Tools.Rounds.State.{
  Explained, Explained-more, Inv, find_none, Extends-fresh, pending_finish, same_node, index_of-lt,
  index_of-ne,
}

settled_none : (done : List (List ℕ)) (ns : List (NodeState (List ℕ))) → Settled codes_eq [] done ns
settled_none done [] = tt
settled_none done (n ∷ ns) = (λ e. absurd (cc), settled_none done ns)

-- The table with one more result.
abbrev pub added : ToolDagNode → ToolResultContent → Progress → Results
added n r p = (n.id, r) ∷ p.done_results

module _ (s : Setup) (nodes : List ToolDagNode) (distinct : DistinctNodes nodes) (p : Progress)
    (inv : Inv s nodes p) (n : ToolDagNode) (here : Memᴰ n nodes)
    (fresh : knows p.executed n.id ≡ false) where
  absent : find_result n.id p.done_results ≡ none
  absent = find_none n.id p.done_results (ap (λ l. knows l n.id) inv.keyed ∙ fresh)

  pub Extends-added : (r : ToolResultContent) → Extends p.done_results (added n r p)
  Extends-added r = Extends-fresh n.id r p.done_results absent

  added-Explained :
      (r : ToolResultContent) (m : ToolDagNode) (v : ToolResultContent)
      → Explained s n.tool_call p.done_results r
      → Memᴰ m nodes
      → find_result m.id (added n r p) ≡ some v
      → Explained s m.tool_call (added n r p) v
  unfolding find_result
  added-Explained r m v ran at h = elim (codes_eq n.id m.id) [
    | yes q ↦
        let same : n ≡ m = same_node n m nodes distinct here at q in
        let value : r ≡ v = ground (arith, h, q) in
        Explained-more s m.tool_call p.done_results (added n r p) v (Extends-added r) (
          subst (λ x. Explained s x.tool_call p.done_results v) same
            (subst (Explained s n.tool_call p.done_results) value ran))
    | no q ↦
        Explained-more s m.tool_call p.done_results (added n r p) v (Extends-added r)
          (inv.explained m v at (ground (arith, h, q)))
  ]

  added_slots :
      (r : ToolResultContent) (m : ToolDagNode) (v : ToolResultContent)
      → Memᴰ m nodes
      → find_result m.id (added n r p) ≡ some v
      → get_elem? (set p.results (index_of n.id nodes) r) (index_of m.id nodes) ≡ some v
  unfolding find_result
  added_slots r m v at h = elim (codes_eq n.id m.id) [
    | yes q ↦
        let value : r ≡ v = ground (arith, h, q) in
        let bound : index_of n.id nodes < length p.results =
          omega (arith, inv.size, index_of-lt n.id nodes (Mem-has_node n nodes here)) in
        ap (λ i. get_elem? (set p.results (index_of n.id nodes) r) (index_of i nodes)) (sym q)
        ∙ get_elem?-set_self p.results (index_of n.id nodes) r bound
        ∙ ap some value
    | no q ↦
        let apart =
          index_of-ne n.id m.id nodes (Mem-has_node n nodes here) (Mem-has_node m nodes at) q in
        get_elem?-set_ne p.results r apart ∙ inv.slots m v at (ground (arith, h, q))
  ]

  pub finish-Inv :
      (r : ToolResultContent)
      → Explained s n.tool_call p.done_results r
      → Inv s nodes (finish nodes n r (notify s r p))
  finish-Inv r ran = record {
    counts =
        ap (decrement_each codes_eq (dependents codes_eq (states_of nodes) n.id)) inv.counts
        ∙ decrement_each-degrees codes_eq n.id [] p.executed (states_of nodes) distinct fresh
            (settled_none p.executed (states_of nodes));
    keyed = ap (λ l. n.id ∷ l) inv.keyed;
    inside = λ id h. elim (codes_eq n.id id) [
      | yes q ↦ ap (λ i. has_node i nodes) (sym q) ∙ Mem-has_node n nodes here
      | no q ↦ inv.inside id (older id q h)
    ];
    explained = λ m v at h. added-Explained r m v ran at h;
    slots = λ m v at h. added_slots r m v at h;
    size = length-set p.results (index_of n.id nodes) r ∙ inv.size;
    count = omega (arith, inv.count, pending_finish n p.executed nodes distinct here fresh);
  }
    where
      older :
          (id : List ℕ)
          → n.id ≢ id
          → knows (n.id ∷ p.executed) id ≡ true
          → knows p.executed id ≡ true
      older id q h = ground (arith, q, h)
