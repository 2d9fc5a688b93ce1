-- ===== src/Fantasy/Tools/Rounds/State.antt =====
-- The state of `DAGToolRuntime.Execute` between the outcomes that it takes in.
use dragonscale.Prelude.{
  ℕ, suc, ◌<◌, inl, inr, ◌≡◌, ◌≢◌, refl, sym, ap, ◌∙◌, true, false, List, [], ◌∷◌, none, some,
  length, get_elem?, if◌then◌else◌, Memᴰ, Mem-cons, Bool-cases, Sum-cases, arith,
}
use dragonscale.Prelude.Text.{codes_eq}
use dragonscale.Itr.Dag.Degrees.{degrees}
use dragonscale.Fantasy.Tools.{ToolCallContent, ToolResultContent, SingleRun}
use dragonscale.Fantasy.Tools.Refs.{Results, find_result, resolve_input}
use dragonscale.Fantasy.Tools.Refs.Table.{Extends, resolve_input_more}
use dragonscale.Fantasy.Tools.Graph.{ToolDagNode, knows, states_of}
use dragonscale.Fantasy.Tools.Rounds.{Setup, Progress, execute_dag_node, index_of}
use dragonscale.Fantasy.Tools.Rounds.Counts.{DistinctNodes, has_node, behind_ne}

abbrev pub keys : Results → List (List ℕ)
keys [] = []
keys (entry ∷ rest) = entry.0 ∷ keys rest

-- The nodes that are not done.
abbrev pub pending : List (List ℕ) → List ToolDagNode → ℕ
pending executed [] = 0
pending executed (n ∷ ns) =
    let rest = pending executed ns in if knows executed n.id then rest else suc rest

-- The result is what the call's run gives when these results are there.
abbrev pub Explained : Setup → ToolCallContent → Results → ToolResultContent → Type 0
Explained s c table r =
    (o : SingleRun) × (execute_dag_node s c table ≡ inr o) × (o.critical ≡ false) × (o.result ≡ r)

pub Explained-more :
    (s : Setup) (c : ToolCallContent) (t u : Results) (r : ToolResultContent)
    → Extends t u
    → Explained s c t r
    → Explained s c u r
unfolding execute_dag_node
Explained-more s c t u r more (o, e, h, same) = elim (Sum-cases (resolve_input s.json t c.input)) [
  | inl (x, f) ↦ absurd (ground (arith, e, f))
  | inr (input, f) ↦
      (o, ground (arith, e, f, resolve_input_more s.json t u more c.input input f), h, same)
]

pub record Inv (s : Setup) (nodes : List ToolDagNode) (p : Progress) : Type 0 where
  pub counts : p.indegree ≡ degrees codes_eq [] p.executed (states_of nodes)
  pub keyed : keys p.done_results ≡ p.executed
  pub inside : (id : List ℕ) → knows p.executed id ≡ true → has_node id nodes ≡ true
  pub explained :
      (n : ToolDagNode) (r : ToolResultContent)
      → Memᴰ n nodes
      → find_result n.id p.done_results ≡ some r
      → Explained s n.tool_call p.done_results r
  pub slots :
      (n : ToolDagNode) (r : ToolResultContent)
      → Memᴰ n nodes
      → find_result n.id p.done_results ≡ some r
      → get_elem? p.results (index_of n.id nodes) ≡ some r
  pub size : length p.results ≡ length nodes
  pub count : p.remaining ≡ pending p.executed nodes

pub knows-find :
    (id : List ℕ) (t : Results)
    → knows (keys t) id ≡ true
    → (r : ToolResultContent) × (find_result id t ≡ some r)
unfolding find_result
knows-find id [] h = absurd (cc)
knows-find id (entry ∷ rest) h = elim (codes_eq entry.0 id) [
  | yes p ↦ (entry.1, ground (arith, p))
  | no p ↦ let (r, e) = knows-find id rest (ground (arith, h, p)) in (r, ground (arith, p, e))
]

pub find_none : (id : List ℕ) (t : Results) → knows (keys t) id ≡ false → find_result id t ≡ none
unfolding find_result
find_none id [] h = refl
find_none id (entry ∷ rest) h = elim (codes_eq entry.0 id) [
  | yes p ↦ absurd (ground (arith, h, p))
  | no p ↦ ground (arith, h, p, find_none id rest)
]

pub find_knows :
    (id : List ℕ) (t : Results) (r : ToolResultContent)
    → find_result id t ≡ some r
    → knows (keys t) id ≡ true
find_knows id t r h = elim (Bool-cases (knows (keys t) id)) [
  | inl e ↦ e
  | inr e ↦ absurd (ground (arith, h, find_none id t e))
]

pub Extends-fresh :
    (id : List ℕ) (r : ToolResultContent) (t : Results)
    → find_result id t ≡ none
    → Extends t ((id, r) ∷ t)
unfolding find_result
Extends-fresh id r t h k v e = elim (codes_eq id k) [
  | yes p ↦ absurd (ground (arith, h, e, ap (λ x. find_result x t) p))
  | no p ↦ ground (arith, e, p)
]

pending_other :
    (k : List ℕ) (executed : List (List ℕ)) (ns : List ToolDagNode)
    → has_node k ns ≡ false
    → pending (k ∷ executed) ns ≡ pending executed ns
pending_other k executed [] h = refl
pending_other k executed (n ∷ ns) h = elim (codes_eq n.id k) [
  | yes p ↦ absurd (ground (arith, h, p))
  | no p ↦ elim (codes_eq k n.id) [
    | yes q ↦ absurd (p (sym q))
    | no q ↦ ground (arith, h, p, q, pending_other k executed ns)
  ]
]

pub pending_finish :
    (n : ToolDagNode) (executed : List (List ℕ)) (ns : List ToolDagNode)
    → DistinctNodes ns
    → Memᴰ n ns
    → knows executed n.id ≡ false
    → pending executed ns ≡ suc (pending (n.id ∷ executed) ns)
pending_finish n executed [] d m h = elim m [ ]
pending_finish n executed (k ∷ ns) d m h = elim (Mem-cons m) [
  | inl p ↦
      let fresh : has_node n.id ns ≡ false = ap (λ x. has_node x.id ns) p ∙ d.0 in
      let hk : knows executed k.id ≡ false = ap (λ x. knows executed x.id) (sym p) ∙ h in
      let e : n.id ≡ k.id = ap (λ x. x.id) p in
      ground (arith, hk, e, pending_other n.id executed ns fresh)
  | inr t ↦
      let ne = behind_ne k n ns d.0 t in
      elim (codes_eq n.id k.id) [
        | yes q ↦ absurd (ne (sym q))
        | no q ↦ ground (arith, q, pending_finish n executed ns d.1 t h)
      ]
]

-- Two nodes of one id are one.
pub same_node :
    (m n : ToolDagNode) (ns : List ToolDagNode)
    → DistinctNodes ns
    → Memᴰ m ns
    → Memᴰ n ns
    → m.id ≡ n.id
    → m ≡ n
same_node m n [] d a b e = elim a [ ]
same_node m n (k ∷ ns) d a b e = elim (Mem-cons a) [
  | inl p ↦ elim (Mem-cons b) [
    | inl q ↦ p ∙ sym q
    | inr t ↦ absurd (behind_ne k n ns d.0 t (ap (λ x. x.id) (sym p) ∙ e))
  ]
  | inr s ↦ elim (Mem-cons b) [
    | inl q ↦ absurd (behind_ne k m ns d.0 s (ap (λ x. x.id) (sym q) ∙ sym e))
    | inr t ↦ same_node m n ns d.1 s t e
  ]
]

index_of_lem :
    (id : List ℕ) (ns : List ToolDagNode)
    → has_node id ns ≡ true
    → (n : ToolDagNode) × (get_elem? ns (index_of id ns) ≡ some n) × (n.id ≡ id)
index_of_lem id [] h = absurd (cc)
index_of_lem id (k ∷ ns) h = elim (codes_eq k.id id) [
  | yes p ↦ (k, ground (arith, p), p)
  | no p ↦ let (n, e, q) = index_of_lem id ns (ground (arith, h, p)) in (n, ground (arith, p, e), q)
]

pub index_of-lt :
    (id : List ℕ) (ns : List ToolDagNode) → has_node id ns ≡ true → index_of id ns < length ns
index_of-lt id [] h = absurd (cc)
index_of-lt id (k ∷ ns) h = elim (codes_eq k.id id) [
  | yes p ↦ ground (arith, p)
  | no p ↦ ground (arith, h, p, index_of-lt id ns)
]

pub index_of-ne :
    (a b : List ℕ) (ns : List ToolDagNode)
    → has_node a ns ≡ true
    → has_node b ns ≡ true
    → a ≢ b
    → index_of a ns ≢ index_of b ns
index_of-ne a b ns ha hb ne e =
    let (m, at_a, ida) = index_of_lem a ns ha in
    let (n, at_b, idb) = index_of_lem b ns hb in
    let same : some m ≡ some n = sym at_a ∙ ap (get_elem? ns) e ∙ at_b in
    let one : m ≡ n = cc in ne (sym ida ∙ ap (λ x. x.id) one ∙ idb)
