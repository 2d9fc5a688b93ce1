-- ===== src/Fantasy/Tools/Rounds/Counts.antt =====
-- The calls that `DAGToolRuntime.Execute` finds ready are those that are not done and whose
-- dependencies all are: `indegree` counts the dependencies that are not done.
use dragonscale.Prelude.{
  ℕ, zero, suc, inl, inr, ◌≡◌, ◌≢◌, refl, sym, ap, ◌∙◌, subst, Bool, true, false, List, [], ◌∷◌,
  some, take, Memᴰ, Mem-cons, Bool-cases, Option-cases, arith,
}
use dragonscale.Prelude.Int.{ℤ, pos}
use dragonscale.Prelude.Text.{codes_eq}
use dragonscale.Itr.Dag.Resolver.{is_zero}
use dragonscale.Itr.Dag.Degrees.{missing, has_id, Distinct, degrees}
use dragonscale.Fantasy.Tools.{is_parallel_safe}
use dragonscale.Fantasy.Tools.Graph.{ToolDagNode, knows, states_of}
use dragonscale.Fantasy.Tools.Rounds.{
  Setup, Progress, degree_of, is_ready, ready_nodes, find_barrier, next_round, max_conc,
}

abbrev pub DistinctNodes : List ToolDagNode → Type 0
DistinctNodes ns = Distinct codes_eq (states_of ns)

abbrev pub lacking : List (List ℕ) → ToolDagNode → ℕ
lacking executed n = missing codes_eq executed n.dependencies

abbrev pub has_node : List ℕ → List ToolDagNode → Bool
has_node id ns = has_id codes_eq id (states_of ns)

pub Mem-has_node : (n : ToolDagNode) (ns : List ToolDagNode) → Memᴰ n ns → has_node n.id ns ≡ true
Mem-has_node n [] m = elim m [ ]
Mem-has_node n (k ∷ ns) m = elim (codes_eq k.id n.id) [
  | yes p ↦ ground (arith, p)
  | no p ↦ elim (Mem-cons m) [
    | inl q ↦ absurd (p (ap (λ x. x.id) (sym q)))
    | inr t ↦ ground (arith, p, Mem-has_node n ns t)
  ]
]

-- A node behind another in a list of different ids has another id.
pub behind_ne :
    (k n : ToolDagNode) (ns : List ToolDagNode) → has_node k.id ns ≡ false → Memᴰ n ns → k.id ≢ n.id
behind_ne k n ns h m p =
    let e : has_node k.id ns ≡ true = ap (λ i. has_node i ns) p ∙ Mem-has_node n ns m in
    absurd (ground (arith, h, e))

pub degree_of-degrees :
    (executed : List (List ℕ)) (n : ToolDagNode) (ns : List ToolDagNode)
    → DistinctNodes ns
    → Memᴰ n ns
    → degree_of n.id (degrees codes_eq [] executed (states_of ns)) ≡ pos (lacking executed n)
degree_of-degrees executed n [] d m = elim m [ ]
degree_of-degrees executed n (k ∷ ns) d m = elim (Mem-cons m) [
  | inl p ↦
      subst
        (λ x.
          degree_of n.id (degrees codes_eq [] executed (states_of (x ∷ ns)))
          ≡ pos (lacking executed n))
        p (ground (arith))
  | inr t ↦ ground (arith, behind_ne k n ns d.0 t, degree_of-degrees executed n ns d.1 t)
]

-- Calls that can run next: they are in the graph, not done, different, and lack nothing.
abbrev pub Runnable : List ToolDagNode → List (List ℕ) → List ToolDagNode → Type 0
Runnable nodes executed [] = Unit
Runnable nodes executed (n ∷ ns) =
    Memᴰ n nodes
    × (knows executed n.id ≡ false)
    × (lacking executed n ≡ 0)
    × (has_node n.id ns ≡ false)
    × Runnable nodes executed ns

Mem-Runnable :
    (nodes ns : List ToolDagNode) (executed : List (List ℕ)) (n : ToolDagNode)
    → Memᴰ n ns
    → Runnable nodes executed ns
    → Runnable nodes executed (n ∷ [])
Mem-Runnable nodes [] executed n m r = elim m [ ]
Mem-Runnable nodes (k ∷ ns) executed n m r = elim (Mem-cons m) [
  | inl p ↦ subst (λ x. Runnable nodes executed (x ∷ [])) (sym p) (r.0, r.1, r.2, refl, tt)
  | inr t ↦ Mem-Runnable nodes ns executed n t r.4
]

has_node-take :
    (j : ℕ) (ns : List ToolDagNode) (id : List ℕ)
    → has_node id ns ≡ false
    → has_node id (take j ns) ≡ false
has_node-take zero ns id h = refl
has_node-take (suc j) [] id h = refl
has_node-take (suc j) (n ∷ ns) id h = elim (codes_eq n.id id) [
  | yes p ↦ absurd (ground (arith, h, p))
  | no p ↦ ground (arith, h, p, has_node-take j ns id)
]

take-Runnable :
    (j : ℕ) (nodes ns : List ToolDagNode) (executed : List (List ℕ))
    → Runnable nodes executed ns
    → Runnable nodes executed (take j ns)
take-Runnable zero nodes ns executed r = tt
take-Runnable (suc j) nodes [] executed r = tt
take-Runnable (suc j) nodes (n ∷ ns) executed r =
    (r.0, r.1, r.2, has_node-take j ns n.id r.3, take-Runnable j nodes ns executed r.4)

has_node-ready :
    (p : Progress) (ns : List ToolDagNode) (id : List ℕ)
    → has_node id ns ≡ false
    → has_node id (ready_nodes p ns) ≡ false
unfolding ready_nodes
has_node-ready p [] id h = refl
has_node-ready p (n ∷ ns) id h = elim (codes_eq n.id id) [
  | yes q ↦ absurd (ground (arith, h, q))
  | no q ↦ elim (Bool-cases (is_ready p n)) [
    | inl e ↦ ground (arith, h, q, e, has_node-ready p ns id)
    | inr e ↦ ground (arith, h, q, e, has_node-ready p ns id)
  ]
]

is_ready_lem :
    (p : Progress) (n : ToolDagNode)
    → is_ready p n ≡ true
    → (knows p.executed n.id ≡ false) × (is_zero (degree_of n.id p.indegree) ≡ true)
is_ready_lem p n h = elim (Bool-cases (knows p.executed n.id)) [
  | inl e ↦ absurd (ground (arith, h, e))
  | inr e ↦ (e, ground (arith, h, e))
]

is_zero_lem : (d : ℤ) (k : ℕ) → d ≡ pos k → is_zero d ≡ true → k ≡ 0
unfolding is_zero
is_zero_lem d zero e h = refl
is_zero_lem d (suc k) e h = absurd (ground (arith, e, h))

module _ (nodes : List ToolDagNode) (distinct : DistinctNodes nodes) (p : Progress)
    (counts : p.indegree ≡ degrees codes_eq [] p.executed (states_of nodes)) where
  ready-Runnable :
      (ns : List ToolDagNode)
      → ((n : ToolDagNode) → Memᴰ n ns → Memᴰ n nodes)
      → DistinctNodes ns
      → Runnable nodes p.executed (ready_nodes p ns)
  unfolding ready_nodes
  ready-Runnable [] inside d = tt
  ready-Runnable (n ∷ ns) inside d =
      let rest = ready-Runnable ns (λ k m. inside k (Memᴰ.tail m)) d.1 in
      elim (Bool-cases (is_ready p n)) [
        | inr e ↦ rw (e) rest
        | inl e ↦
            let here = inside n (Memᴰ.head refl) in
            let facts = is_ready_lem p n e in
            let degree : degree_of n.id p.indegree ≡ pos (lacking p.executed n) =
              ap (degree_of n.id) counts ∙ degree_of-degrees p.executed n nodes distinct here in
            rw (e) (
              here,
              facts.0,
              is_zero_lem (degree_of n.id p.indegree) (lacking p.executed n) degree facts.1,
              has_node-ready p ns n.id d.0,
              rest,
            )
      ]

Mem-find_barrier :
    (s : Setup) (ns : List ToolDagNode) (n : ToolDagNode)
    → find_barrier s.box ns ≡ some n
    → Memᴰ n ns
unfolding find_barrier
Mem-find_barrier s [] n h = cc
Mem-find_barrier s (k ∷ ns) n h = elim (Bool-cases (safe k)) [
  | inl e ↦ Memᴰ.tail (Mem-find_barrier s ns n (ground (arith, h, e)))
  | inr e ↦ let same : k ≡ n = ground (arith, h, e) in Memᴰ.head (sym same)
]
  where
    safe : ToolDagNode → Bool
    safe n = is_parallel_safe s.box n.tool_call

next_round-Runnable :
    (s : Setup) (nodes ready : List ToolDagNode) (executed : List (List ℕ))
    → Runnable nodes executed ready
    → Runnable nodes executed (next_round s ready)
unfolding next_round
next_round-Runnable s nodes ready executed r = elim (Option-cases (find_barrier s.box ready)) [
  | inl e ↦ rw (e, next_round) (take-Runnable (max_conc s.max_concurrency) nodes ready executed r)
  | inr (n, e) ↦
      rw (e, next_round) (Mem-Runnable nodes ready executed n (Mem-find_barrier s ready n e) r)
]

-- The calls of a round can run next.
pub round-Runnable :
    (s : Setup) (nodes : List ToolDagNode) (p : Progress)
    → DistinctNodes nodes
    → p.indegree ≡ degrees codes_eq [] p.executed (states_of nodes)
    → Runnable nodes p.executed (next_round s (ready_nodes p nodes))
round-Runnable s nodes p distinct counts =
    next_round-Runnable s nodes (ready_nodes p nodes) p.executed
      (ready-Runnable nodes distinct p counts nodes (λ n m. m) distinct)
