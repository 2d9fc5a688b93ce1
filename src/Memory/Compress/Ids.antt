-- ===== src/Memory/Compress/Ids.antt =====
-- The ids that `nextID` of pkg/memory/dag/compress.go gives are new, so that no node of the map of
-- node.go is overwritten.
use dragonscale.Prelude.{
  ℕ, ◌≤◌, ◌<◌, ◌≡◌, ◌≢◌, refl, sym, ap, ◌∙◌, false, List, [], ◌∷◌, ◌++◌, Memᴰ, Mem-cons, inl, inr,
  arith,
}
use mathlib.Core.List.{append_assoc, append-nil}
use dragonscale.Memory.Compress.{
  NodeId, chunk_id, section_id, session_id, SummaryNode, same_id, add_node, add_nodes,
}

-- The counter in an id.
abbrev pub number : NodeId → ℕ
number (chunk_id n) = n
number (section_id n) = n
number (session_id n) = n

-- The nodes were numbered one after another, from behind one counter up to another.
abbrev pub Numbered : ℕ → List SummaryNode → ℕ → Type 0
Numbered lo [] hi = lo ≤ hi
Numbered lo (n ∷ ns) hi = (lo < number n.id) × Numbered (number n.id) ns hi

-- No two nodes have one id.
abbrev pub DistinctIds : List SummaryNode → Type 0
DistinctIds [] = Unit
DistinctIds (n ∷ ns) = ((m : SummaryNode) → Memᴰ m ns → n.id ≢ m.id) × DistinctIds ns

pub Numbered-append :
    (lo mid hi : ℕ) (xs ys : List SummaryNode)
    → Numbered lo xs mid
    → Numbered mid ys hi
    → Numbered lo (xs ++ ys) hi
Numbered-append lo mid hi [] [] a b = omega (arith, a, b)
Numbered-append lo mid hi [] (y ∷ ys) a b = (omega (arith, a, b.0), b.1)
Numbered-append lo mid hi (x ∷ xs) ys a b = (a.0, Numbered-append (number x.id) mid hi xs ys a.1 b)

above :
    (lo hi : ℕ) (ns : List SummaryNode) (m : SummaryNode)
    → Numbered lo ns hi
    → Memᴰ m ns
    → lo < number m.id
above lo hi [] m a e = elim e [ ]
above lo hi (n ∷ ns) m a e = elim (Mem-cons e) [
  | inl p ↦
      let same : number m.id ≡ number n.id = ap (λ x. number x.id) p in omega (arith, a.0, same)
  | inr t ↦ omega (arith, a.0, above (number n.id) hi ns m a.1 t)
]

pub Numbered-DistinctIds : (lo hi : ℕ) (ns : List SummaryNode) → Numbered lo ns hi → DistinctIds ns
Numbered-DistinctIds lo hi [] a = tt
Numbered-DistinctIds lo hi (n ∷ ns) a = (
  λ m e p.
      let same : number n.id ≡ number m.id = ap number p in
      let later = above (number n.id) hi ns m a.1 e in omega (arith, same, later),
  Numbered-DistinctIds (number n.id) hi ns a.1,
)

below : (lo hi : ℕ) (ns : List SummaryNode) → Numbered lo ns hi → lo ≤ hi
below lo hi [] a = a
below lo hi (n ∷ ns) a = omega (arith, a.0, below (number n.id) hi ns a.1)

same_id-ne : (a b : NodeId) → number a < number b → same_id a b ≡ false
same_id-ne (chunk_id a) (chunk_id b) h = ground (arith, h)
same_id-ne (section_id a) (section_id b) h = ground (arith, h)
same_id-ne (session_id a) (session_id b) h = ground (arith, h)
same_id-ne (chunk_id a) (section_id b) h = refl
same_id-ne (chunk_id a) (session_id b) h = refl
same_id-ne (section_id a) (chunk_id b) h = refl
same_id-ne (section_id a) (session_id b) h = refl
same_id-ne (session_id a) (chunk_id b) h = refl
same_id-ne (session_id a) (section_id b) h = refl

pub add_node-append :
    (lo hi : ℕ) (n : SummaryNode) (ms : List SummaryNode)
    → Numbered lo ms hi
    → hi < number n.id
    → add_node n ms ≡ ms ++ (n ∷ [])
unfolding add_node
add_node-append lo hi n [] a h = refl
add_node-append lo hi n (m ∷ ms) a h =
    let apart = same_id-ne m.id n.id (omega (arith, below (number m.id) hi ms a.1, h)) in
    rw apart (ap (λ l. m ∷ l) (add_node-append (number m.id) hi n ms a.1 h))

pub add_nodes-append :
    (lo mid hi : ℕ) (ns ms : List SummaryNode)
    → Numbered lo ms mid
    → Numbered mid ns hi
    → add_nodes ns ms ≡ ms ++ ns
unfolding add_nodes
add_nodes-append lo mid hi [] ms a b = sym (append-nil ms)
add_nodes-append lo mid hi (n ∷ ns) ms a b =
    let k = number n.id in
    ap (add_nodes ns) (add_node-append lo mid n ms a b.0)
    ∙ add_nodes-append lo k hi ns (ms ++ (n ∷ []))
        (Numbered-append lo mid k ms (n ∷ []) a (b.0, omega arith)) b.1
    ∙ append_assoc ms (n ∷ []) ns
