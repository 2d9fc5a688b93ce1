-- ===== src/Fantasy/Tools/Graph/Sound.antt =====
-- What `BuildToolDAG` of tool_dag.go gives: a node for each call, with the references of its input as
-- its dependencies.
use dragonscale.Prelude.{
  ℕ, ◌⊎◌, inl, inr, ◌≡◌, refl, sym, ap, ◌∙◌, subst, true, false, List, [], ◌∷◌, Memᴰ, Mem-cons,
  Bool-cases, Sum-cases, arith,
}
use dragonscale.Prelude.Text.{codes_eq}
use dragonscale.Memory.Compress.{trim_space}
use dragonscale.Fantasy.Tools.Graph.{knows, passed_over, filter_deps}

abbrev NoRepeats : List (List ℕ) → Type 0
NoRepeats [] = Unit
NoRepeats (d ∷ ds) = (knows ds d ≡ false) × NoRepeats ds

-- The dependencies are what the references name, but for the call itself, each once; all are ids.
pub record IsDeps (self : List ℕ) (ids refs deps : List (List ℕ)) : Type 0 where
  pub known : (d : List ℕ) → Memᴰ d deps → knows ids d ≡ true
  pub others : (d : List ℕ) → Memᴰ d deps → passed_over self d ≡ false
  pub complete :
      (d : List ℕ)
      → Memᴰ d refs
      → passed_over self (trim_space d) ≡ false
      → Memᴰ (trim_space d) deps
  pub once : NoRepeats deps
  pub named : (d : List ℕ) → Memᴰ d deps → (e : List ℕ) × Memᴰ e refs × (d ≡ trim_space e)

pub knows-Mem : (ds : List (List ℕ)) (d : List ℕ) → knows ds d ≡ true → Memᴰ d ds
knows-Mem [] d h = cc
knows-Mem (e ∷ ds) d h = elim (codes_eq e d) [
  | yes p ↦ Memᴰ.head (sym p)
  | no p ↦ Memᴰ.tail (knows-Mem ds d (ground (arith, h, p)))
]

pub Mem-knows : (ds : List (List ℕ)) (d : List ℕ) → Memᴰ d ds → knows ds d ≡ true
Mem-knows [] d m = elim m [ ]
Mem-knows (e ∷ ds) d m = elim (codes_eq e d) [
  | yes p ↦ ground (arith, p)
  | no p ↦ elim (Mem-cons m) [
    | inl q ↦ absurd (p (sym q))
    | inr t ↦ ground (arith, p, Mem-knows ds d t)
  ]
]

-- The same, of the dependencies behind some that are in `seen`.
record Filtered (self : List ℕ) (ids seen refs deps : List (List ℕ)) : Type 0 where
  known : (d : List ℕ) → Memᴰ d deps → knows ids d ≡ true
  others : (d : List ℕ) → Memᴰ d deps → passed_over self d ≡ false
  unseen : (d : List ℕ) → Memᴰ d deps → knows seen d ≡ false
  complete :
      (d : List ℕ)
      → Memᴰ d refs
      → passed_over self (trim_space d) ≡ false
      → (knows seen (trim_space d) ≡ true) ⊎ Memᴰ (trim_space d) deps
  once : NoRepeats deps
  named : (d : List ℕ) → Memᴰ d deps → (e : List ℕ) × Memᴰ e refs × (d ≡ trim_space e)

module _ (self : List ℕ) (ids : List (List ℕ)) where
  passed-Filtered :
      (seen refs deps : List (List ℕ)) (d : List ℕ)
      → (passed_over self (trim_space d) ≡ true) ⊎ (knows seen (trim_space d) ≡ true)
      → Filtered self ids seen refs deps
      → Filtered self ids seen (d ∷ refs) deps
  passed-Filtered seen refs deps d why f = record {
    known = f.known;
    others = f.others;
    unseen = f.unseen;
    once = f.once;
    named = λ x m. let (e, t, p) = f.named x m in (e, Memᴰ.tail t, p);
    complete = λ e m h. elim (Mem-cons m) [
      | inl p ↦ elim why [
        | inl q ↦
            absurd (true_false (sym q ∙ ap (λ x. passed_over self (trim_space x)) (sym p) ∙ h))
        | inr q ↦ inl (ap (λ x. knows seen (trim_space x)) p ∙ q)
      ]
      | inr t ↦ f.complete e t h
    ];
  }
    where
      true_false : true ≡ false → ⊥
      true_false e = cc

  kept-Filtered :
      (seen refs deps : List (List ℕ)) (d : List ℕ)
      → passed_over self (trim_space d) ≡ false
      → knows ids (trim_space d) ≡ true
      → knows seen (trim_space d) ≡ false
      → Filtered self ids (trim_space d ∷ seen) refs deps
      → Filtered self ids seen (d ∷ refs) (trim_space d ∷ deps)
  kept-Filtered seen refs deps d o k u f = record {
    known = λ e m. elim (Mem-cons m) [
      | inl p ↦ subst (λ x. knows ids x ≡ true) (sym p) k
      | inr t ↦ f.known e t
    ];
    others = λ e m. elim (Mem-cons m) [
      | inl p ↦ subst (λ x. passed_over self x ≡ false) (sym p) o
      | inr t ↦ f.others e t
    ];
    unseen = λ e m. elim (Mem-cons m) [
      | inl p ↦ subst (λ x. knows seen x ≡ false) (sym p) u
      | inr t ↦ still e (f.unseen e t)
    ];
    once = (fresh, f.once);
    named = λ e m. elim (Mem-cons m) [
      | inl p ↦ (d, Memᴰ.head refl, p)
      | inr t ↦ let (r, u, p) = f.named e t in (r, Memᴰ.tail u, p)
    ];
    complete = λ e m h. elim (Mem-cons m) [
      | inl p ↦ inr (Memᴰ.head (ap trim_space p))
      | inr t ↦ later e (f.complete e t h)
    ];
  }
    where
      still : (e : List ℕ) → knows (trim_space d ∷ seen) e ≡ false → knows seen e ≡ false
      still e h = ground (arith, h)

      fresh : knows deps (trim_space d) ≡ false
      fresh = elim (Bool-cases (knows deps (trim_space d))) [
        | inl h ↦ absurd (ground (arith, f.unseen (trim_space d) (knows-Mem deps (trim_space d) h)))
        | inr h ↦ h
      ]

      later :
          (e : List ℕ)
          → (knows (trim_space d ∷ seen) (trim_space e) ≡ true) ⊎ Memᴰ (trim_space e) deps
          → (knows seen (trim_space e) ≡ true) ⊎ Memᴰ (trim_space e) (trim_space d ∷ deps)
      later e (inr t) = inr (Memᴰ.tail t)
      later e (inl h) = elim (codes_eq (trim_space d) (trim_space e)) [
        | yes p ↦ inr (Memᴰ.head (sym p))
        | no p ↦ inl (ground (arith, h, p))
      ]

  filter_deps-Filtered :
      (seen refs deps : List (List ℕ))
      → filter_deps self ids seen refs ≡ inr deps
      → Filtered self ids seen refs deps
  unfolding filter_deps
  filter_deps-Filtered seen [] deps h =
      let none_left : [] ≡ deps = cc in
      subst (Filtered self ids seen []) none_left (record {
        known = λ d m. elim m [ ];
        others = λ d m. elim m [ ];
        unseen = λ d m. elim m [ ];
        complete = λ d m e. elim m [ ];
        once = tt;
        named = λ d m. elim m [ ];
      })
  filter_deps-Filtered seen (d ∷ refs) deps h =
      elim (Bool-cases (passed_over self (trim_space d))) [
        | inl o ↦
            passed-Filtered seen refs deps d (inl o)
              (filter_deps-Filtered seen refs deps (ground (arith, h, o)))
        | inr o ↦ elim (Bool-cases (knows ids (trim_space d))) [
          | inr k ↦ absurd (ground (arith, h, o, k))
          | inl k ↦ elim (Bool-cases (knows seen (trim_space d))) [
            | inl u ↦
                passed-Filtered seen refs deps d (inr u)
                  (filter_deps-Filtered seen refs deps (ground (arith, h, o, k, u)))
            | inr u ↦ elim (Sum-cases (filter_deps self ids (trim_space d ∷ seen) refs)) [
              | inl (x, f) ↦ absurd (ground (arith, h, o, k, u, f))
              | inr (ds, f) ↦
                  let same : trim_space d ∷ ds ≡ deps = ground (arith, h, o, k, u, f) in
                  subst (Filtered self ids seen (d ∷ refs)) same (
                    kept-Filtered seen refs ds d o k u
                      (filter_deps-Filtered (trim_space d ∷ seen) refs ds f))
            ]
          ]
        ]
      ]

pub filter_deps-IsDeps :
    (self : List ℕ) (ids refs deps : List (List ℕ))
    → filter_deps self ids [] refs ≡ inr deps
    → IsDeps self ids refs deps
filter_deps-IsDeps self ids refs deps h =
    let f = filter_deps-Filtered self ids [] refs deps h in
    record {
      known = f.known;
      others = f.others;
      complete = λ d m e. elim (f.complete d m e) [ inl x ↦ absurd (cc) | inr t ↦ t ];
      once = f.once;
      named = f.named;
    }
