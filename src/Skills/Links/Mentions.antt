-- ===== src/Skills/Links/Mentions.antt =====
-- The links that `ParseWikilinks` of pkg/skills/graph.go finds stand in the text.
use dragonscale.Prelude.{
  ℕ, zero, suc, ◌+◌, inl, inr, ◌≡◌, ◌≢◌, refl, sym, ap, ◌∙◌, subst, true, false, List, [], ◌∷◌,
  ◌++◌, none, some, length, drop, drop-drop, ◌==◌, Memᴰ, Mem-cons, Bool-cases, Option-cases,
  List-cases, arith,
}
use dragonscale.Prelude.Text.{begins, codes, codes_eq}
use dragonscale.Memory.Compress.{trim_space}
use dragonscale.Skills.Links.{
  until_bracket, if_closed, wikilink_at, find_wikilinks, known, distinct_names, parse_wikilinks,
}

begins-append : (p s : List ℕ) → begins p s ≡ true → s ≡ p ++ drop (length p) s
begins-append [] s h = refl
begins-append (c ∷ p) [] h = cc
begins-append (c ∷ p) (d ∷ s) h =
    let e : c ≡ d = ground (arith, h) in
    ap (λ x. x ∷ s) (sym e) ∙ ap (◌∷◌ c) (begins-append p s (ground (arith, h)))

until-append : (s : List ℕ) → s ≡ until_bracket s ++ drop (length (until_bracket s)) s
until-append [] = refl
until-append (c ∷ cs) = elim (Bool-cases (c == b']')) [
  | inl e ↦ rw (e) refl
  | inr e ↦ rw (e) (ap (◌∷◌ c) (until-append cs))
]

-- The name in brackets stands in the text.
abbrev pub Mentions : List ℕ → List ℕ → Type 0
Mentions content name =
    (before : List ℕ) × (after : List ℕ) × (content
      ≡ before ++ (codes "[[" ++ (name ++ (codes "]]" ++ after))))

wikilink_at-Mentions : (s name : List ℕ) → wikilink_at s ≡ some name → Mentions s name
unfolding wikilink_at
wikilink_at-Mentions s name h = elim (Bool-cases (begins (codes "[[") s)) [
  | inr e ↦ absurd (ground (arith, h, e))
  | inl e ↦
      let run = until_bracket (drop 2 s) in
      let behind = drop (2 + length run) s in
      let found : if_closed run behind ≡ some name = ground (arith, h, e) in
      let (same, closed) = closed_name run behind found in
      let rest : drop 2 s ≡ run ++ behind =
        until-append (drop 2 s) ∙ ap (λ l. run ++ l) (drop-drop (length run) 2 s) in
      (
        [],
        drop 2 behind,
        begins-append (codes "[[") s e
            ∙ ap (λ l. codes "[[" ++ l)
                (rest ∙ ap (λ l. run ++ l) (begins-append (codes "]]") behind closed))
            ∙ ap (λ l. codes "[[" ++ (l ++ (codes "]]" ++ drop 2 behind))) same,
      )
]
  where
    closed_name :
        (run behind : List ℕ)
        → if_closed run behind ≡ some name
        → (run ≡ name) × (begins (codes "]]") behind ≡ true)
    closed_name [] behind f = absurd (cc)
    closed_name (c ∷ cs) behind f = elim (Bool-cases (begins (codes "]]") behind)) [
      | inl e ↦ (let g : some (c ∷ cs) ≡ some name = ground (arith, f, e) in cc, e)
      | inr e ↦ absurd (ground (arith, f, e))
    ]

one_before : (c : ℕ) (cs name : List ℕ) → Mentions cs name → Mentions (c ∷ cs) name
one_before c cs name (before, after, e) = (c ∷ before, after, ap (◌∷◌ c) e)

find_wikilinks-Mentions :
    (skip : ℕ) (s name : List ℕ) → Memᴰ name (find_wikilinks skip s) → Mentions s name
unfolding find_wikilinks
find_wikilinks-Mentions zero [] name m = elim m [ ]
find_wikilinks-Mentions (suc skip) [] name m = elim m [ ]
find_wikilinks-Mentions (suc skip) (c ∷ cs) name m =
    one_before c cs name (find_wikilinks-Mentions skip cs name m)
find_wikilinks-Mentions zero (c ∷ cs) name m = elim (Option-cases (wikilink_at (c ∷ cs))) [
  | inl e ↦
      one_before c cs name (find_wikilinks-Mentions zero cs name (subst (Memᴰ name) (missed e) m))
  | inr (x, e) ↦ elim (Mem-cons (subst (Memᴰ name) (found x e) m)) [
    | inl p ↦ wikilink_at-Mentions (c ∷ cs) name (e ∙ ap some (sym p))
    | inr t ↦ one_before c cs name (find_wikilinks-Mentions (3 + length x) cs name t)
  ]
]
  where
    missed : wikilink_at (c ∷ cs) ≡ none → find_wikilinks zero (c ∷ cs) ≡ find_wikilinks zero cs
    missed e = rw (e, find_wikilinks) refl

    found :
        (x : List ℕ)
        → wikilink_at (c ∷ cs) ≡ some x
        → find_wikilinks zero (c ∷ cs) ≡ x ∷ find_wikilinks (3 + length x) cs
    found x e = rw (e, find_wikilinks) refl

-- No name is there twice, none is empty, and each is one of the matches, trimmed.
abbrev pub Distinct : List (List ℕ) → Type 0
Distinct [] = Unit
Distinct (x ∷ xs) = (known xs x ≡ false) × Distinct xs

record Named (seen ms names : List (List ℕ)) : Type 0 where
  fresh : (s : List ℕ) → Memᴰ s names → known seen s ≡ false
  single : Distinct names
  matched : (s : List ℕ) → Memᴰ s names → (s ≢ []) × ((m : List ℕ) × Memᴰ m ms × (s ≡ trim_space m))

later-Named :
    (seen ms names : List (List ℕ)) (m : List ℕ) → Named seen ms names → Named seen (m ∷ ms) names
later-Named seen ms names m n = record {
  fresh = n.fresh;
  single = n.single;
  matched = λ s i. let (ne, (r, j, p)) = n.matched s i in (ne, (r, Memᴰ.tail j, p));
}

unknown : (names : List (List ℕ)) (s : List ℕ) → (Memᴰ s names → ⊥) → known names s ≡ false
unknown [] s h = refl
unknown (n ∷ names) s h = elim (codes_eq n s) [
  | yes p ↦ absurd (h (Memᴰ.head (sym p)))
  | no p ↦ ground (arith, p, unknown names s (λ t. h (Memᴰ.tail t)))
]

taken-Named :
    (seen ms names : List (List ℕ)) (m s : List ℕ)
    → trim_space m ≡ s
    → s ≢ []
    → known seen s ≡ false
    → Named (s ∷ seen) ms names
    → Named seen (m ∷ ms) (s ∷ names)
taken-Named seen ms names m s t ne h n = record {
  fresh =
      λ x i. elim (Mem-cons i) [ inl p ↦ ap (known seen) p ∙ h | inr j ↦ older x (n.fresh x j) ];
  single = (unknown names s (λ i. clash (n.fresh s i)), n.single);
  matched = λ x i. elim (Mem-cons i) [
    | inl p ↦ (λ q. ne (sym p ∙ q), (m, Memᴰ.head refl, p ∙ sym t))
    | inr j ↦ let (e, (r, k, q)) = n.matched x j in (e, (r, Memᴰ.tail k, q))
  ];
}
  where
    older : (x : List ℕ) → known (s ∷ seen) x ≡ false → known seen x ≡ false
    older x e = ground (arith, e)

    clash : known (s ∷ seen) s ≡ false → ⊥
    clash e = ground (arith, e)

distinct_names-Named : (seen ms : List (List ℕ)) → Named seen ms (distinct_names seen ms)
unfolding distinct_names
distinct_names-Named seen [] = record {
  fresh = λ s i. elim i [ ];
  single = tt;
  matched = λ s i. elim i [ ];
}
distinct_names-Named seen (m ∷ ms) = elim (List-cases (trim_space m)) [
  | inl e ↦ rw (e, distinct_names) (later-Named seen ms _ m (distinct_names-Named seen ms))
  | inr (c, cs, e) ↦ elim (Bool-cases (known seen (c ∷ cs))) [
    | inl k ↦ rw (e, k, distinct_names) (later-Named seen ms _ m (distinct_names-Named seen ms))
    | inr k ↦
        rw (e, k, distinct_names)
          (taken-Named seen ms _ m (c ∷ cs) e (λ q. cc) k
            (distinct_names-Named ((c ∷ cs) ∷ seen) ms))
  ]
]

-- The links of a text are different and not empty, and each is what stands in the text between
-- double brackets, without the spaces around it.
pub parse_wikilinks-Mentions :
    (content : List ℕ)
    → Distinct (parse_wikilinks content)
      × ((s : List ℕ)
          → Memᴰ s (parse_wikilinks content)
          → (s ≢ []) × ((name : List ℕ) × Mentions content name × (s ≡ trim_space name)))
unfolding parse_wikilinks
parse_wikilinks-Mentions content =
    let n = distinct_names-Named [] (find_wikilinks 0 content) in
    (
      n.single,
      λ s i.
          let (ne, (name, m, p)) = n.matched s i in
          (ne, (name, find_wikilinks-Mentions 0 content name m, p)),
    )
