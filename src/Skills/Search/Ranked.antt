-- ===== src/Skills/Search/Ranked.antt =====
-- The result of `SearchSkills` of pkg/skills/graph.go.
use dragonscale.Prelude.{
  ℕ, ◌≤◌, ◌⊎◌, inl, inr, ◌≡◌, refl, sym, ap, ◌∙◌, subst, true, false, List, [], ◌∷◌, ltb, leb, Memᴰ,
  Mem-cons, Bool-cases, arith,
}
use dragonscale.Rlm.Strategy.{Strings}
use dragonscale.Skills.Graph.{SkillGraph}
use dragonscale.Skills.Build.{SkillNode, Nodes}
use dragonscale.Skills.Search.{
  Scored, score_of, matches, insert_scored, sort_scored, nodes_of, search_skills,
}

Mem-insert_scored :
    (x y : Scored) (ys : List Scored) → Memᴰ x (insert_scored y ys) → (x ≡ y) ⊎ Memᴰ x ys
unfolding insert_scored
Mem-insert_scored x y [] m = Mem-cons m
Mem-insert_scored x y (z ∷ ys) m = elim (Bool-cases (leb z.score y.score)) [
  | inl e ↦ Mem-cons (subst (Memᴰ x) (front e) m)
  | inr e ↦ elim (Mem-cons (subst (Memᴰ x) (later e) m)) [
    | inl p ↦ inr (Memᴰ.head p)
    | inr t ↦ elim (Mem-insert_scored x y ys t) [ inl p ↦ inl p | inr u ↦ inr (Memᴰ.tail u) ]
  ]
]
  where
    front : leb z.score y.score ≡ true → insert_scored y (z ∷ ys) ≡ y ∷ z ∷ ys
    front e = rw (e, insert_scored) refl

    later : leb z.score y.score ≡ false → insert_scored y (z ∷ ys) ≡ z ∷ insert_scored y ys
    later e = rw (e, insert_scored) refl

insert_scored-Mem :
    (x y : Scored) (ys : List Scored) → (x ≡ y) ⊎ Memᴰ x ys → Memᴰ x (insert_scored y ys)
unfolding insert_scored
insert_scored-Mem x y [] (inl p) = Memᴰ.head p
insert_scored-Mem x y [] (inr m) = Memᴰ.tail m
insert_scored-Mem x y (z ∷ ys) m = elim (Bool-cases (leb z.score y.score)) [
  | inl e ↦ rw (e, insert_scored) (elim m [ inl p ↦ Memᴰ.head p | inr t ↦ Memᴰ.tail t ])
  | inr e ↦
      rw (e, insert_scored)
        (elim m [
          | inl p ↦ Memᴰ.tail (insert_scored-Mem x y ys (inl p))
          | inr t ↦ elim (Mem-cons t) [
            | inl q ↦ Memᴰ.head q
            | inr u ↦ Memᴰ.tail (insert_scored-Mem x y ys (inr u))
          ]
        ])
]

Mem-sort_scored : (x : Scored) (xs : List Scored) → Memᴰ x (sort_scored xs) → Memᴰ x xs
unfolding sort_scored
Mem-sort_scored x [] m = m
Mem-sort_scored x (y ∷ ys) m = elim (Mem-insert_scored x y (sort_scored ys) m) [
  | inl p ↦ Memᴰ.head p
  | inr t ↦ Memᴰ.tail (Mem-sort_scored x ys t)
]

sort_scored-Mem : (x : Scored) (xs : List Scored) → Memᴰ x xs → Memᴰ x (sort_scored xs)
unfolding sort_scored
sort_scored-Mem x [] m = m
sort_scored-Mem x (y ∷ ys) m =
    insert_scored-Mem x y (sort_scored ys)
      (elim (Mem-cons m) [ inl p ↦ inl p | inr t ↦ inr (sort_scored-Mem x ys t) ])

-- The scores do not rise.
abbrev pub Falling : List Scored → Type 0
Falling [] = Unit
Falling (x ∷ xs) = ((y : Scored) → Memᴰ y xs → y.score ≤ x.score) × Falling xs

insert_scored-Falling : (x : Scored) (ys : List Scored) → Falling ys → Falling (insert_scored x ys)
unfolding insert_scored
insert_scored-Falling x [] f = (λ y m. elim m [ ], tt)
insert_scored-Falling x (z ∷ ys) f = elim (Bool-cases (leb z.score x.score)) [
  | inl e ↦
      rw (e, insert_scored)
        (
          λ y m. elim (Mem-cons m) [
            | inl p ↦ below e y p
            | inr t ↦ omega (arith, f.0 y t, below e z refl)
          ],
          f,
        )
  | inr e ↦
      rw (e, insert_scored)
        (
          λ y m. elim (Mem-insert_scored y x ys m) [ inl p ↦ above e y p | inr t ↦ f.0 y t ],
          insert_scored-Falling x ys f.1,
        )
]
  where
    below : leb z.score x.score ≡ true → (y : Scored) → y ≡ z → y.score ≤ x.score
    below e y p = let q : y.score ≡ z.score = ap (λ w. w.score) p in ground (arith, e, q)

    above : leb z.score x.score ≡ false → (y : Scored) → y ≡ x → y.score ≤ z.score
    above e y p = let q : y.score ≡ x.score = ap (λ w. w.score) p in ground (arith, e, q)

sort_scored-Falling : (xs : List Scored) → Falling (sort_scored xs)
unfolding sort_scored
sort_scored-Falling [] = tt
sort_scored-Falling (x ∷ xs) = insert_scored-Falling x (sort_scored xs) (sort_scored-Falling xs)

-- An entry with the score of its node, which is a node of the list.
abbrev pub Scores : Strings → List (List ℕ) → Nodes → Scored → Type 0
Scores strings tokens nodes x =
    (x.score ≡ score_of strings x.node tokens)
    × (1 ≤ x.score)
    × ((name : List ℕ) × Memᴰ (name, x.node) nodes)

matches-Scores :
    (strings : Strings) (tokens : List (List ℕ)) (nodes : Nodes) (x : Scored)
    → Memᴰ x (matches strings tokens nodes)
    → Scores strings tokens nodes x
unfolding matches
matches-Scores strings tokens [] x m = elim m [ ]
matches-Scores strings tokens (entry ∷ rest) x m =
    elim (Bool-cases (ltb 0 (score_of strings entry.1 tokens))) [
      | inr e ↦ later (matches-Scores strings tokens rest x (subst (Memᴰ x) (left_out e) m))
      | inl e ↦ elim (Mem-cons (subst (Memᴰ x) (taken e) m)) [
        | inl p ↦
            subst (Scores strings tokens (entry ∷ rest)) (sym p)
              (refl, ground (arith, e), (entry.0, Memᴰ.head refl))
        | inr t ↦ later (matches-Scores strings tokens rest x t)
      ]
    ]
  where
    later : Scores strings tokens rest x → Scores strings tokens (entry ∷ rest) x
    later (p, q, (name, i)) = (p, q, (name, Memᴰ.tail i))

    left_out :
        ltb 0 (score_of strings entry.1 tokens) ≡ false
        → matches strings tokens (entry ∷ rest) ≡ matches strings tokens rest
    left_out e = rw (e, matches) refl

    taken :
        ltb 0 (score_of strings entry.1 tokens) ≡ true
        → matches strings tokens (entry ∷ rest)
          ≡ record { node = entry.1; score = score_of strings entry.1 tokens }
            ∷ matches strings tokens rest
    taken e = rw (e, matches) refl

abbrev pub scored : Strings → List (List ℕ) → SkillNode → Scored
scored strings tokens node = record { node = node; score = score_of strings node tokens }

Mem-matches :
    (strings : Strings) (tokens : List (List ℕ)) (nodes : Nodes) (entry : List ℕ × SkillNode)
    → Memᴰ entry nodes
    → 1 ≤ score_of strings entry.1 tokens
    → Memᴰ (scored strings tokens entry.1) (matches strings tokens nodes)
unfolding matches
Mem-matches strings tokens [] entry m h = elim m [ ]
Mem-matches strings tokens (other ∷ rest) entry m h = elim (Mem-cons m) [
  | inl p ↦
      let positive : ltb 0 (score_of strings other.1 tokens) ≡ true =
        ap (λ e. ltb 0 (score_of strings e.1 tokens)) (sym p) ∙ ground (arith, h) in
      rw (positive, matches) (Memᴰ.head (ap (λ e. scored strings tokens e.1) p))
  | inr t ↦ elim (Bool-cases (ltb 0 (score_of strings other.1 tokens))) [
    | inl e ↦ rw (e, matches) (Memᴰ.tail (Mem-matches strings tokens rest entry t h))
    | inr e ↦ rw (e, matches) (Mem-matches strings tokens rest entry t h)
  ]
]

-- A query with some tokens finds exactly the nodes that score for them, with their scores falling.
pub search_skills_ranked :
    (strings : Strings) (g : SkillGraph (List ℕ) SkillNode) (query token : List ℕ)
    (tokens : List (List ℕ))
    → strings.fields (strings.to_lower query) ≡ token ∷ tokens
    → (ranked : List Scored) × (search_skills strings g query ≡ nodes_of ranked)
      × Falling ranked
      × ((x : Scored) → Memᴰ x ranked → Scores strings (token ∷ tokens) g.nodes x)
      × ((entry : List ℕ × SkillNode)
          → Memᴰ entry g.nodes
          → 1 ≤ score_of strings entry.1 (token ∷ tokens)
          → Memᴰ (scored strings (token ∷ tokens) entry.1) ranked)
unfolding search_skills
search_skills_ranked strings g query token tokens h =
    let found = matches strings (token ∷ tokens) g.nodes in
    (
      sort_scored found,
      rw (h, search_skills) refl,
      sort_scored-Falling found,
      λ x m. matches-Scores strings (token ∷ tokens) g.nodes x (Mem-sort_scored x found m),
      λ entry m p.
          sort_scored-Mem (scored strings (token ∷ tokens) entry.1) found
            (Mem-matches strings (token ∷ tokens) g.nodes entry m p),
    )
