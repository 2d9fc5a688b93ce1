-- ===== src/Rlm/Rope/Lines.antt =====
-- The lines of a text: `Lines` of pkg/rlm/rope.go.
use mathlib.Core.List.{append-nil}
use dragonscale.Prelude.{
  ℕ, ◌+◌, ◌≡◌, ◌≢◌, inl, inr, refl, sym, ap, ◌∙◌, List, [], ◌∷◌, ◌++◌, length, take, drop,
  drop-drop, ◌==◌, arith, Bool-cases,
}
use dragonscale.Rlm.Rope.{split_lines}

-- `strings.Join(ls, "\n")`.
unfoldable pub join_lines : List (List ℕ) → List ℕ
join_lines [] = []
join_lines (l ∷ []) = l
join_lines (l ∷ m ∷ ms) = l ++ (b'\n' ∷ join_lines (m ∷ ms))

join_lines-nil : (ls : List (List ℕ)) → ls ≢ [] → join_lines ([] ∷ ls) ≡ b'\n' ∷ join_lines ls
unfolding join_lines
join_lines-nil [] h = absurd (h refl)
join_lines-nil (l ∷ ls) h = refl

pub split_lines-ne : (bytes : List ℕ) → split_lines bytes ≢ []
unfolding split_lines
split_lines-ne [] h = cc
split_lines-ne (b ∷ bs) h = ground (arith, split_lines-ne bs)

pub join_lines-cons :
    (b : ℕ) (line : List ℕ) (rest : List (List ℕ))
    → join_lines ((b ∷ line) ∷ rest) ≡ b ∷ join_lines (line ∷ rest)
unfolding join_lines
join_lines-cons b line [] = refl
join_lines-cons b line (m ∷ ms) = refl

cons_line :
    (b : ℕ) (bs : List ℕ) (ls : List (List ℕ))
    → ls ≢ []
    → join_lines ls ≡ bs
    → join_lines
        (elim ls as (λ x. List (List ℕ)) [ [] ↦ (b ∷ []) ∷ [] | line ∷ rest ↦ (b ∷ line) ∷ rest ])
      ≡ b ∷ bs
cons_line b bs [] ne ih = absurd (ne refl)
cons_line b bs (line ∷ rest) ne ih = join_lines-cons b line rest ∙ ap (◌∷◌ b) ih

-- The lines, joined by newlines, are the text.
pub join_lines-split_lines : (bytes : List ℕ) → join_lines (split_lines bytes) ≡ bytes
unfolding split_lines
join_lines-split_lines [] = unfold join_lines in refl
join_lines-split_lines (b ∷ bs) = elim (Bool-cases (b == b'\n')) [
  | inl e ↦
      rw (e, split_lines)
        (join_lines-nil (split_lines bs) (split_lines-ne bs)
          ∙ ap (◌∷◌ b'\n') (join_lines-split_lines bs)
          ∙ ap (λ c. c ∷ bs) (ground arith))
  | inr e ↦
      rw (e, split_lines)
        (cons_line b bs (split_lines bs) (split_lines-ne bs) (join_lines-split_lines bs))
]

take-prefix : (xs ys : List ℕ) → take (length xs) (xs ++ ys) ≡ xs
take-prefix [] ys = refl
take-prefix (x ∷ xs) ys = ap (◌∷◌ x) (take-prefix xs ys)

drop-prefix : (xs ys : List ℕ) → drop (length xs) (xs ++ ys) ≡ ys
drop-prefix [] ys = refl
drop-prefix (x ∷ xs) ys = drop-prefix xs ys

pub take-join_lines : (l : List ℕ) (ls : List (List ℕ)) → take (length l) (join_lines (l ∷ ls)) ≡ l
unfolding join_lines
take-join_lines l [] =
    rw (← append-nil l) (
      ap (λ k. take k (l ++ [])) (ap length (append-nil l)) ∙ take-prefix l [] ∙ sym (append-nil l))
take-join_lines l (m ∷ ms) = take-prefix l (b'\n' ∷ join_lines (m ∷ ms))

pub drop-join_lines :
    (l m : List ℕ) (ms : List (List ℕ))
    → drop (length l + 1) (join_lines (l ∷ m ∷ ms)) ≡ join_lines (m ∷ ms)
unfolding join_lines
drop-join_lines l m ms =
    sym (drop-drop 1 (length l) (l ++ (b'\n' ∷ join_lines (m ∷ ms))))
    ∙ ap (drop 1) (drop-prefix l (b'\n' ∷ join_lines (m ∷ ms)))
