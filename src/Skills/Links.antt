-- ===== src/Skills/Links.antt =====
-- `ParseWikilinks` and `mergeUnique` of pkg/skills/graph.go, and the pattern `\[\[([^\]]+)\]\]` in
-- it. A text is its code points, which the pattern and the trimming are on.
pub mod Mentions
use dragonscale.Prelude.{
  ℕ, zero, suc, ◌+◌, ◌⊎◌, inl, inr, ◌≡◌, ◌≢◌, refl, sym, ap, ◌∙◌, subst, Bool, true, false, List,
  [], ◌∷◌, ◌++◌, Option, none, some, length, drop, ◌==◌, if◌then◌else◌, Memᴰ, Mem-cons, Mem-append,
  Mem-append_right, Mem-append_cases, Bool-cases, arith,
}
use dragonscale.Prelude.Text.{begins, codes, codes_eq}
use dragonscale.Memory.Compress.{trim_space}
use dragonscale.Itr.Dag.Degrees.{mem}

-- The code points before the first closing bracket.
abbrev pub until_bracket : List ℕ → List ℕ
until_bracket [] = []
until_bracket (c ∷ cs) = let rest = until_bracket cs in if c == b']' then [] else c ∷ rest

abbrev pub if_closed : List ℕ → List ℕ → Option (List ℕ)
if_closed [] behind = none
if_closed (c ∷ cs) behind = if begins (codes "]]") behind then some (c ∷ cs) else none

-- The group of the pattern's match at the front of a text.
unfoldable pub wikilink_at : List ℕ → Option (List ℕ)
wikilink_at s =
    let name = until_bracket (drop 2 s) in
    if begins (codes "[[") s then if_closed name (drop (2 + length name) s) else none

-- `FindAllStringSubmatch`, behind the given number of code points, which a match has used up.
unfoldable pub find_wikilinks : ℕ → List ℕ → List (List ℕ)
find_wikilinks skip [] = []
find_wikilinks (suc skip) (c ∷ cs) = find_wikilinks skip cs
find_wikilinks zero (c ∷ cs) = elim (wikilink_at (c ∷ cs)) [
  | none ↦ find_wikilinks zero cs
  | some name ↦ name ∷ find_wikilinks (3 + length name) cs
]

abbrev pub known : List (List ℕ) → List ℕ → Bool
known seen name = mem codes_eq name seen

-- The loop over the matches, when some names are in `seen`.
unfoldable pub distinct_names : List (List ℕ) → List (List ℕ) → List (List ℕ)
distinct_names seen [] = []
distinct_names seen (m ∷ ms) = elim (trim_space m) [
  | [] ↦ distinct_names seen ms
  | c ∷ cs ↦ elim (known seen (c ∷ cs)) [
    | true ↦ distinct_names seen ms
    | false ↦ (c ∷ cs) ∷ distinct_names ((c ∷ cs) ∷ seen) ms
  ]
]

unfoldable pub parse_wikilinks : List ℕ → List (List ℕ)
parse_wikilinks content = distinct_names [] (find_wikilinks 0 content)

-- The names that are not in `seen`, each once.
unfoldable pub unseen_names : List (List ℕ) → List (List ℕ) → List (List ℕ)
unseen_names seen [] = []
unseen_names seen (s ∷ ss) = elim (known seen s) [
  | true ↦ unseen_names seen ss
  | false ↦ s ∷ unseen_names (s ∷ seen) ss
]

unfoldable pub merge_unique : List (List ℕ) → List (List ℕ) → List (List ℕ)
merge_unique a b = a ++ unseen_names a b

Mem-known : (names : List (List ℕ)) (s : List ℕ) → Memᴰ s names → known names s ≡ true
Mem-known [] s m = elim m [ ]
Mem-known (n ∷ names) s m = elim (codes_eq n s) [
  | yes p ↦ ground (arith, p)
  | no p ↦ elim (Mem-cons m) [
    | inl q ↦ absurd (p (sym q))
    | inr t ↦ ground (arith, p, Mem-known names s t)
  ]
]

known-Mem : (names : List (List ℕ)) (s : List ℕ) → known names s ≡ true → Memᴰ s names
known-Mem [] s h = absurd (cc)
known-Mem (n ∷ names) s h = elim (codes_eq n s) [
  | yes p ↦ Memᴰ.head (sym p)
  | no p ↦ Memᴰ.tail (known-Mem names s (ground (arith, h, p)))
]

Mem-unseen_names :
    (seen ss : List (List ℕ)) (s : List ℕ)
    → Memᴰ s ss
    → (known seen s ≡ true) ⊎ Memᴰ s (unseen_names seen ss)
unfolding unseen_names
Mem-unseen_names seen [] s m = elim m [ ]
Mem-unseen_names seen (x ∷ ss) s m = elim (Bool-cases (known seen x)) [
  | inl e ↦ elim (Mem-cons m) [
    | inl p ↦ inl (ap (known seen) p ∙ e)
    | inr t ↦ rw (e, unseen_names) (Mem-unseen_names seen ss s t)
  ]
  | inr e ↦
      rw (e, unseen_names)
        (elim (codes_eq x s) [
          | yes p ↦ inr (Memᴰ.head (sym p))
          | no p ↦ elim (Mem-cons m) [
            | inl q ↦ absurd (p (sym q))
            | inr t ↦ elim (Mem-unseen_names (x ∷ seen) ss s t) [
              | inl k ↦ inl (older p k)
              | inr u ↦ inr (Memᴰ.tail u)
            ]
          ]
        ])
]
  where
    older : x ≢ s → known (x ∷ seen) s ≡ true → known seen s ≡ true
    older p k = ground (arith, p, k)

unseen_names-Mem :
    (seen ss : List (List ℕ)) (s : List ℕ) → Memᴰ s (unseen_names seen ss) → Memᴰ s ss
unfolding unseen_names
unseen_names-Mem seen [] s m = elim m [ ]
unseen_names-Mem seen (x ∷ ss) s m = elim (Bool-cases (known seen x)) [
  | inl e ↦ Memᴰ.tail (unseen_names-Mem seen ss s (subst (Memᴰ s) (skipped e) m))
  | inr e ↦ elim (Mem-cons (subst (Memᴰ s) (taken e) m)) [
    | inl p ↦ Memᴰ.head p
    | inr t ↦ Memᴰ.tail (unseen_names-Mem (x ∷ seen) ss s t)
  ]
]
  where
    skipped : known seen x ≡ true → unseen_names seen (x ∷ ss) ≡ unseen_names seen ss
    skipped e = rw (e, unseen_names) refl

    taken : known seen x ≡ false → unseen_names seen (x ∷ ss) ≡ x ∷ unseen_names (x ∷ seen) ss
    taken e = rw (e, unseen_names) refl

-- The names of either list, and no other.
pub Mem-merge_unique :
    (a b : List (List ℕ)) (s : List ℕ) → Memᴰ s a ⊎ Memᴰ s b → Memᴰ s (merge_unique a b)
unfolding merge_unique
Mem-merge_unique a b s (inl m) = Mem-append a (unseen_names a b) m
Mem-merge_unique a b s (inr m) = elim (Mem-unseen_names a b s m) [
  | inl k ↦ Mem-append a (unseen_names a b) (known-Mem a s k)
  | inr u ↦ Mem-append_right a (unseen_names a b) u
]

pub merge_unique-Mem :
    (a b : List (List ℕ)) (s : List ℕ) → Memᴰ s (merge_unique a b) → Memᴰ s a ⊎ Memᴰ s b
unfolding merge_unique
merge_unique-Mem a b s m = elim (Mem-append_cases a (unseen_names a b) m) [
  | inl x ↦ inl x
  | inr u ↦ inr (unseen_names-Mem a b s u)
]
