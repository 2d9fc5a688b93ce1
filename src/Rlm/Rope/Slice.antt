-- ===== src/Rlm/Rope/Slice.antt =====
-- A rope is its text: appending and slicing.
use dragonscale.Prelude.{
  ℕ, suc, ◌+◌, ◌-◌, ◌≡◌, inl, inr, refl, sym, ap, ◌∙◌, lt→ltb, true, false, ◌||◌, List, [], ◌∷◌,
  ◌++◌, Option, none, some, length, take, drop, length-append, length-drop, take_of_length-le,
  drop_of_length-le, take-append, drop-append, drop-take, ltb, leb, ◌==◌, if◌then◌else◌, arith,
  Bool-cases,
}
use mathlib.Core.Path.{ap₂}
use mathlib.Core.List.{append-nil}
use dragonscale.Prelude.Int.{ℤ, pos, negsuc}
use dragonscale.Rlm.Rope.{
  RopeNode, leaf, internal, Rope, node_length, new_leaf, new_internal, new_rope, len, write_node,
  string, append_to, slice_node, slice_root, slice,
}

-- Every node stores the length of what it holds.
abbrev pub HasLengths : RopeNode → Type 0
HasLengths (leaf bytes n) = n ≡ length bytes
HasLengths (internal l r n) = HasLengths l × HasLengths r × (n ≡ node_length l + node_length r)

abbrev pub IsValid : Rope → Type 0
IsValid none = Unit
IsValid (some n) = HasLengths n

node_length-write : (n : RopeNode) → HasLengths n → node_length n ≡ length (write_node n)
unfolding node_length write_node
node_length-write (leaf bytes n) h = h
node_length-write (internal l r n) h = omega (
  arith,
  h.2,
  node_length-write l h.0,
  node_length-write r h.1,
  length-append (write_node l) (write_node r),
)

-- A valid rope's length is that of its text.
pub len-string : (r : Rope) → IsValid r → len r ≡ length (string r)
unfolding len string
len-string none h = refl
len-string (some n) h = node_length-write n h

pub new_rope-IsValid :
    (content : List ℕ) → IsValid (new_rope content) × (string (new_rope content) ≡ content)
unfolding new_rope new_leaf string write_node
new_rope-IsValid [] = ground arith
new_rope-IsValid (b ∷ bs) = ground arith

suc-ne-zero : (n : ℕ) → (suc n == 0) ≡ false
suc-ne-zero n = ground arith

append_to_leaf : (n : RopeNode) → HasLengths n → node_length n ≡ 0 → write_node n ≡ []
append_to_leaf n h z = nil_of (write_node n) (sym (node_length-write n h) ∙ z)
  where
    nil_of : (xs : List ℕ) → length xs ≡ 0 → xs ≡ []
    nil_of [] e = refl
    nil_of (x ∷ xs) e = absurd (omega arith)

-- Appending to a valid rope gives a valid rope with the text and then the content.
pub append_to-IsValid :
    (r : Rope) (content : List ℕ)
    → IsValid r
    → IsValid (append_to r content) × (string (append_to r content) ≡ string r ++ content)
unfolding append_to string write_node new_leaf new_internal node_length
append_to-IsValid none [] h = (tt, refl)
append_to-IsValid none (b ∷ bs) h = rw (suc-ne-zero (length bs)) (refl, refl)
append_to-IsValid (some n) [] h = (h, sym (append-nil (write_node n)))
append_to-IsValid (some n) (b ∷ bs) h =
    rw (suc-ne-zero (length bs)) (elim (Bool-cases (node_length n == 0)) [
      | inl z ↦ rw (z, append_to_leaf n h (ground arith)) (refl, refl)
      | inr z ↦ rw z ((h, refl, refl), refl)
    ])

-- What a slice of a text is.
abbrev pub span : ℕ → ℕ → List ℕ → List ℕ
span start end bytes = take (end - start) (drop start bytes)

span_left :
    (start end : ℕ) (xs : List ℕ)
    → take (end - start) (drop start xs) ≡ (
        if ltb start (length xs)
        then span start (if ltb end (length xs) then end else length xs) xs
        else [])
span_left start end xs = elim (Bool-cases (ltb start (length xs))) [
  | inr e ↦ rw (e, drop_of_length-le start xs (ground arith)) (take_of_length-le _ [] (omega arith))
  | inl e ↦ elim (Bool-cases (ltb end (length xs))) [
    | inl f ↦ rw (e, f)
    | inr f ↦
        rw (e, f)
          (take_of_length-le (end - start) (drop start xs) (ground (arith, length-drop start xs))
            ∙ sym (
                take_of_length-le (length xs - start) (drop start xs)
                  (ground (arith, length-drop start xs))))
  ]
]

span_right :
    (start end : ℕ) (xs ys : List ℕ)
    → take ((end - start) - length (drop start xs)) (drop (start - length xs) ys)
      ≡ (if ltb (length xs) end then span (start - length xs) (end - length xs) ys else [])
span_right start end xs ys = elim (Bool-cases (ltb (length xs) end)) [
  | inl e ↦
      rw e (ap (λ k. take k (drop (start - length xs) ys)) (ground (arith, length-drop start xs)))
  | inr e ↦ rw e (
      ap (λ k. take k (drop (start - length xs) ys))
        (let z : (end - start) - length (drop start xs) ≡ 0 =
            ground (arith, length-drop start xs) in
          z))
]

span-append :
    (start end : ℕ) (xs ys : List ℕ)
    → span start end (xs ++ ys)
      ≡ (if ltb start (length xs)
          then span start (if ltb end (length xs) then end else length xs) xs
          else [])
        ++ (if ltb (length xs) end then span (start - length xs) (end - length xs) ys else [])
span-append start end xs ys =
    ap (take (end - start)) (drop-append start xs ys)
    ∙ take-append (end - start) (drop start xs) (drop (start - length xs) ys)
    ∙ ap₂ ◌++◌ (span_left start end xs) (span_right start end xs ys)

span_empty : (start end : ℕ) (xs : List ℕ) → leb end start ≡ true → span start end xs ≡ []
span_empty start end xs h =
    let e : end - start ≡ 0 = ground arith in ap (λ k. take k (drop start xs)) e

slice_leaf :
    (bytes : List ℕ) (n start end : ℕ) → slice_node (leaf bytes n) start end ≡ span start end bytes
unfolding slice_node
slice_leaf bytes n start end = elim (Bool-cases (leb end start)) [
  | inl e ↦ rw e (sym (span_empty start end bytes e))
  | inr e ↦ rw e (elim (Bool-cases (ltb end (length bytes))) [
    | inl f ↦ rw (f, lt→ltb start end (ground arith)) (drop-take start end bytes)
    | inr f ↦ rw f (elim (Bool-cases (ltb start (length bytes))) [
      | inl g ↦
          rw (g, take_of_length-le (length bytes) bytes (omega arith))
            (sym (
              take_of_length-le (end - start) (drop start bytes)
                (ground (arith, length-drop start bytes))))
      | inr g ↦
          rw (g, drop_of_length-le start bytes (ground arith))
            (sym (take_of_length-le _ [] (omega arith)))
    ])
  ])
]

-- The slice of a node whose lengths are right is the slice of its text.
slice_node-span :
    (n : RopeNode) (start end : ℕ)
    → HasLengths n
    → slice_node n start end ≡ span start end (write_node n)
unfolding slice_node write_node
slice_node-span (leaf bytes n) start end h = slice_leaf bytes n start end
slice_node-span (internal l r n) start end h = elim (Bool-cases (leb end start)) [
  | inl e ↦ rw e (sym (span_empty start end (write_node l ++ write_node r) e))
  | inr e ↦ rw (
    e,
    span-append start end (write_node l) (write_node r),
    node_length-write l h.0,
    slice_node-span l start (if ltb end (length (write_node l)) then end else length (write_node l))
        h.0,
    slice_node-span r (start - length (write_node l)) (end - length (write_node l)) h.1,
  )
]

slice_root-span :
    (r : Rope) (start end : ℕ) → IsValid r → slice_root r start end ≡ span start end (string r)
unfolding slice_root string
slice_root-span none start end h = sym (
    ap (take (end - start)) (drop_of_length-le start [] (omega arith))
    ∙ take_of_length-le (end - start) [] (omega arith))
slice_root-span (some n) start end h = slice_node-span n start end h

leb_refl : (n : ℕ) → leb n n ≡ true
leb_refl n = ground arith

-- The part of a text between two bounds, if they are bounds in it.
abbrev pub span_of : ℤ → ℤ → List ℕ → Option (List ℕ)
span_of (pos start) (pos end) bytes =
    if ltb end start || ltb (length bytes) end then none else some (span start end bytes)
span_of (pos start) (negsuc end) bytes = none
span_of (negsuc start) end bytes = none

-- Slicing a rope whose nodes store the right lengths fails exactly when a bound is negative or the
-- end is below the start or past the length; else it gives the bytes of the text between them.
pub slice-span :
    (r : Rope) (start end : ℤ) → IsValid r → slice r start end ≡ span_of start end (string r)
unfolding slice
slice-span r (pos start) (pos end) h =
    rw (len-string r h, slice_root-span r start end h)
      (ground (arith, span_empty start end (string r), leb_refl end))
slice-span r (pos start) (negsuc end) h = refl
slice-span r (negsuc start) (pos end) h = refl
slice-span r (negsuc start) (negsuc end) h = refl
