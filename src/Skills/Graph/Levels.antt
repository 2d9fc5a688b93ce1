-- ===== src/Skills/Graph/Levels.antt =====
-- `TraverseFrom` of pkg/skills/graph.go goes through the names by their distance.
use dragonscale.Prelude.{
  ℕ, suc, ◌≤◌, ◌<◌, inl, inr, ◌≡◌, ◌≢◌, refl, sym, ap, ◌∙◌, subst, true, false, List, [], ◌∷◌, ◌++◌,
  Memᴰ, Mem-cons, Mem-append, Mem-append_right, Mem-append_cases, dec_lt, arith,
}
use mathlib.Core.List.{append_assoc}
use dragonscale.Itr.Dag.Degrees.{mem}
use dragonscale.Skills.Graph.{Entry, links_from}
use dragonscale.Skills.Graph.Walks.{Walk, link}
use dragonscale.Skills.Graph.Visits.{Unique, entry, Visits, AllVisited}

module _ {K : Type 0} where
  -- The nearer entries come first.
  abbrev pub Rising : List (Entry K) → Type 0
  Rising [] = Unit
  Rising (x ∷ xs) = ((y : Entry K) → Memᴰ y xs → x.depth ≤ y.depth) × Rising xs

  Unique-append :
      (xs ys : List (Entry K))
      → Unique xs
      → Unique ys
      → ((x y : Entry K) → Memᴰ x xs → Memᴰ y ys → y.name ≢ x.name)
      → Unique (xs ++ ys)
  Unique-append [] ys u v h = v
  Unique-append (x ∷ xs) ys u v h = (
    λ y m. elim (Mem-append_cases xs ys m) [ inl a ↦ u.0 y a | inr b ↦ h x y (Memᴰ.head refl) b ],
    Unique-append xs ys u.1 v (λ a b ma mb. h a b (Memᴰ.tail ma) mb),
  )

  Rising-append :
      (xs ys : List (Entry K))
      → Rising xs
      → Rising ys
      → ((x y : Entry K) → Memᴰ x xs → Memᴰ y ys → x.depth ≤ y.depth)
      → Rising (xs ++ ys)
  Rising-append [] ys u v h = v
  Rising-append (x ∷ xs) ys u v h = (
    λ y m. elim (Mem-append_cases xs ys m) [ inl a ↦ u.0 y a | inr b ↦ h x y (Memᴰ.head refl) b ],
    Rising-append xs ys u.1 v (λ a b ma mb. h a b (Memᴰ.tail ma) mb),
  )

  Rising-behind :
      (xs : List (Entry K)) (c : Entry K) (ys : List (Entry K))
      → Rising (xs ++ (c ∷ ys))
      → (y : Entry K) → Memᴰ y ys
      → c.depth ≤ y.depth
  Rising-behind [] c ys r y m = r.0 y m
  Rising-behind (x ∷ xs) c ys r y m = Rising-behind xs c ys r.1 y m

  level-Rising :
      (d : ℕ) (ys : List (Entry K)) → ((y : Entry K) → Memᴰ y ys → y.depth ≡ d) → Rising ys
  level-Rising d [] h = tt
  level-Rising d (y ∷ ys) h = (
    λ z m. omega (arith, h y (Memᴰ.head refl), h z (Memᴰ.tail m)),
    level-Rising d ys (λ z m. h z (Memᴰ.tail m)),
  )

module _ {K : Type 0} (dec : Discrete K) where
  -- What the search has found so far: `seen` are the entries that are or were in the queue.
  pub record Found (edges : List (K × List K)) (start : K) (limit : ℕ)
      (popped queue seen : List (Entry K)) (visited : List K) : Type 0 where
    pub whole : popped ++ queue ≡ seen
    pub begun : Memᴰ (entry start 0) seen
    pub known : (k : K) → mem dec k visited ≡ true → (x : Entry K) × Memᴰ x seen × (x.name ≡ k)
    pub marked : (x : Entry K) → Memᴰ x seen → mem dec x.name visited ≡ true
    pub single : Unique seen
    pub rising : Rising seen
    pub walked :
        (x : Entry K) → Memᴰ x seen → Walk dec edges start x.depth x.name × (x.depth ≤ limit)
    pub spread : (x y : Entry K) → Memᴰ x queue → Memᴰ y seen → y.depth ≤ suc x.depth
    pub closed :
        (x : Entry K) (b : K)
        → Memᴰ x popped
        → x.depth < limit
        → Memᴰ b (links_from dec edges x.name)
        → (y : Entry K) × Memᴰ y seen × (y.name ≡ b) × (y.depth ≤ suc x.depth)

  pub step-Found :
      (edges : List (K × List K)) (start : K) (limit : ℕ) (popped queue seen : List (Entry K))
      (cur : Entry K) (visited after : List K) (new : List (Entry K))
      → Found edges start limit popped (cur ∷ queue) seen visited
      → Visits dec (suc cur.depth) (links_from dec edges cur.name) visited new after
      → (cur.depth < limit
          → AllVisited dec (suc cur.depth) (links_from dec edges cur.name) visited new)
      → (limit ≤ cur.depth → new ≡ [])
      → Found edges start limit (popped ++ (cur ∷ [])) (queue ++ new) (seen ++ new) after
  step-Found edges start limit popped queue seen cur visited after new f v all stop =
      let there : Memᴰ cur seen =
        subst (Memᴰ cur) f.whole (Mem-append_right popped (cur ∷ queue) (Memᴰ.head refl)) in
      let behind : (y : Entry K) → Memᴰ y queue → cur.depth ≤ y.depth =
        Rising-behind popped cur queue (subst Rising (sym f.whole) f.rising) in
      let near : (y : Entry K) → Memᴰ y seen → y.depth ≤ suc cur.depth =
        λ y m. f.spread cur y (Memᴰ.head refl) m in
      record {
        whole =
            sym (append_assoc (popped ++ (cur ∷ [])) queue new)
            ∙ ap (λ l. l ++ new) (append_assoc popped (cur ∷ []) queue ∙ f.whole);
        begun = Mem-append seen new f.begun;
        known = λ k h. elim (v.grown k h) [
          | inl e ↦ let (x, m, p) = f.known k e in (x, Mem-append seen new m, p)
          | inr m ↦ (entry k (suc cur.depth), Mem-append_right seen new m, refl)
        ];
        marked = λ x m. elim (Mem-append_cases seen new m) [
          | inl a ↦ v.kept x.name (f.marked x a)
          | inr b ↦ v.marked x b
        ];
        single = Unique-append seen new f.single v.single (λ x y a b p.
            true_false (sym (f.marked x a) ∙ ap (λ k. mem dec k visited) (sym p) ∙ v.unseen y b));
        rising =
            Rising-append seen new f.rising
              (level-Rising (suc cur.depth) new (λ y m. (v.linked y m).1))
              (λ x y a b. omega (arith, near x a, (v.linked y b).1));
        walked = λ x m. elim (Mem-append_cases seen new m) [
          | inl a ↦ f.walked x a
          | inr b ↦
              let (l, e) = v.linked x b in
              (
                subst (λ n. Walk dec edges start n x.name) (sym e) (link (f.walked cur there).0 l),
                elim (dec_lt cur.depth limit) [
                  | yes lt ↦ omega (arith, lt, e)
                  | no ge ↦ absurd (none_new x b (stop (omega (arith, ge))))
                ],
              )
        ];
        spread = λ x y a b. elim (Mem-append_cases queue new a) [
          | inl q ↦ elim (Mem-append_cases seen new b) [
            | inl s ↦ omega (arith, behind x q, near y s)
            | inr n ↦ omega (arith, behind x q, (v.linked y n).1)
          ]
          | inr w ↦ elim (Mem-append_cases seen new b) [
            | inl s ↦ omega (arith, (v.linked x w).1, near y s)
            | inr n ↦ omega (arith, (v.linked x w).1, (v.linked y n).1)
          ]
        ];
        closed = λ x b m lt l. elim (Mem-append_cases popped (cur ∷ []) m) [
          | inl p ↦ let (y, my, p1, p2) = f.closed x b p lt l in (y, Mem-append seen new my, p1, p2)
          | inr c ↦ last x b c lt l
        ];
      }
    where
      true_false : true ≡ false → ⊥
      true_false e = cc

      none_new : (x : Entry K) → Memᴰ x new → new ≡ [] → ⊥
      none_new x m e = nothing (subst (Memᴰ x) e m)
        where
          nothing : Memᴰ x [] → ⊥
          nothing o = elim o [ ]

      last :
          (x : Entry K) (b : K)
          → Memᴰ x (cur ∷ [])
          → x.depth < limit
          → Memᴰ b (links_from dec edges x.name)
          → (y : Entry K) × Memᴰ y (seen ++ new) × (y.name ≡ b) × (y.depth ≤ suc x.depth)
      last x b m lt l = elim (Mem-cons m) [
        | inr o ↦ elim o [ ]
        | inl p ↦
            let deep : x.depth ≡ cur.depth = ap (λ y. y.depth) p in
            elim (all (omega (arith, lt, deep)) b
              (subst (λ y. Memᴰ b (links_from dec edges y.name)) p l)) [
                | inl e ↦
                    let (y, my, q) = f.known b e in
                    (
                      y,
                      Mem-append seen new my,
                      q,
                      omega (arith, deep, f.spread cur y (Memᴰ.head refl) my),
                    )
                | inr n ↦ (
                  entry b (suc cur.depth),
                  Mem-append_right seen new n,
                  refl,
                  omega (arith, deep),
                )
              ]
      ]
