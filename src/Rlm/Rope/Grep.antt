-- ===== src/Rlm/Rope/Grep.antt =====
-- `GrepLines` of pkg/rlm/rope.go: what a match reports, and which lines match.
use dragonscale.Prelude.{
  ℕ, zero, suc, ◌+◌, ◌-◌, ◌<◌, ◌≡◌, inl, inr, refl, sym, ap, ◌∙◌, Bool, true, List, [], ◌∷◌, Option,
  none, some, length, take, drop, get_elem?, drop-drop, leb, if◌then◌else◌, arith, Bool-cases,
  Option-cases,
}
use dragonscale.Prelude.Int.{ℤ, pos, negsuc}
use dragonscale.Rlm.Rope.{
  Rope, string, split_lines, lines, GrepMatch, grep_from, limit_of, contains, grep_lines,
}
use dragonscale.Rlm.Rope.Lines.{
  join_lines, join_lines-split_lines, take-join_lines, drop-join_lines,
}

-- What a match says of the text: the line stands at the offset, it is the line of that number
-- (from 1), and it passes the test.
pub record IsMatch (test : List ℕ → Bool) (bytes : List ℕ) (m : GrepMatch) : Type 0 where
  pub at_offset : take (length m.line) (drop m.byte_offset bytes) ≡ m.line
  pub numbered : get_elem? (split_lines bytes) (m.line_num - 1) ≡ some m.line
  pub positive : 0 < m.line_num
  pub passes : test m.line ≡ true

abbrev pub AllMatch : (List ℕ → Bool) → List ℕ → List GrepMatch → Type 0
AllMatch test bytes [] = Unit
AllMatch test bytes (m ∷ ms) = IsMatch test bytes m × AllMatch test bytes ms

drop-get_elem? :
    (n : ℕ) (xs : List (List ℕ)) {l : List ℕ} {ls : List (List ℕ)}
    → drop n xs ≡ l ∷ ls
    → get_elem? xs n ≡ some l
drop-get_elem? zero [] h = cc
drop-get_elem? zero (x ∷ xs) h = cc
drop-get_elem? (suc n) [] h = cc
drop-get_elem? (suc n) (x ∷ xs) h = drop-get_elem? n xs h

drop_tail :
    (n : ℕ) (xs : List (List ℕ)) {l : List ℕ} {ls : List (List ℕ)}
    → drop n xs ≡ l ∷ ls
    → drop (suc n) xs ≡ ls
drop_tail zero [] h = cc
drop_tail zero (x ∷ xs) h = cc
drop_tail (suc n) [] h = cc
drop_tail (suc n) (x ∷ xs) h = drop_tail n xs h

-- The lines that are left stand in the text from the offset on, if there are any.
abbrev TextAt : List ℕ → ℕ → List (List ℕ) → Type 0
TextAt bytes offset [] = Unit
TextAt bytes offset (l ∷ ls) = drop offset bytes ≡ join_lines (l ∷ ls)

TextAt-next :
    (bytes : List ℕ) (offset : ℕ) (l : List ℕ) (ls : List (List ℕ))
    → TextAt bytes offset (l ∷ ls)
    → TextAt bytes (offset + (length l + 1)) ls
TextAt-next bytes offset l [] h = tt
TextAt-next bytes offset l (m ∷ ms) h =
    sym (drop-drop (length l + 1) offset bytes)
    ∙ ap (drop (length l + 1)) h
    ∙ drop-join_lines l m ms

-- The lines that pass a test, in order.
unfoldable pub passing : (List ℕ → Bool) → List (List ℕ) → List (List ℕ)
passing test [] = []
passing test (l ∷ ls) = if test l then l ∷ passing test ls else passing test ls

unfoldable pub lines_of : List GrepMatch → List (List ℕ)
lines_of [] = []
lines_of (m ∷ ms) = m.line ∷ lines_of ms

take_nil : (n : ℕ) → take {A = List ℕ} n [] ≡ []
take_nil zero = refl
take_nil (suc n) = refl

module _ (test : List ℕ → Bool) (limit : Option ℕ) (bytes : List ℕ) where
  here :
      (num offset : ℕ) (l : List ℕ) (ls : List (List ℕ))
      → drop num (split_lines bytes) ≡ l ∷ ls
      → TextAt bytes offset (l ∷ ls)
      → test l ≡ true
      → IsMatch test bytes (record { line_num = num + 1; byte_offset = offset; line = l })
  here num offset l ls s t p = record {
    at_offset = ap (take (length l)) t ∙ take-join_lines l ls;
    numbered =
        ap (get_elem? (split_lines bytes)) (omega arith) ∙ drop-get_elem? num (split_lines bytes) s;
    positive = omega arith;
    passes = p;
  }

  grep_from-AllMatch :
      (found num offset : ℕ) (ls : List (List ℕ))
      → drop num (split_lines bytes) ≡ ls
      → TextAt bytes offset ls
      → AllMatch test bytes (grep_from test limit found num offset ls)
  unfolding grep_from
  grep_from-AllMatch found num offset [] s t = tt
  grep_from-AllMatch found num offset (l ∷ ls) s t =
      let s' = drop_tail num (split_lines bytes) s in
      let t' = TextAt-next bytes offset l ls t in
      let more = λ (n : ℕ). grep_from-AllMatch n (suc num) (offset + (length l + 1)) ls s' t' in
      elim (Bool-cases (test l)) [
        | inr e ↦ rw (e, grep_from) (more found)
        | inl e ↦
            let m = here num offset l ls s t e in
            elim (Option-cases limit) [
              | inl q ↦ rw (e, q, grep_from) (m, more (suc found))
              | inr (max, q) ↦ elim (Bool-cases (leb max (suc found))) [
                | inl f ↦ rw (e, q, f, grep_from) (m, tt)
                | inr f ↦ rw (e, q, f, grep_from) (m, more (suc found))
              ]
            ]
      ]

  -- From `found` results on, the limit leaves room for the first `max - found` lines that pass.
  grep_from-limited :
      (max found num offset : ℕ) (ls : List (List ℕ))
      → limit ≡ some max
      → found < max
      → lines_of (grep_from test limit found num offset ls) ≡ take (max - found) (passing test ls)
  unfolding grep_from lines_of passing
  grep_from-limited max found num offset [] q h = sym (take_nil (max - found))
  grep_from-limited max found num offset (l ∷ ls) q h =
      let next = offset + (length l + 1) in
      let room : max - found ≡ suc (max - suc found) = omega arith in
      elim (Bool-cases (test l)) [
        | inr e ↦ rw (e, passing, grep_from) (grep_from-limited max found (suc num) next ls q h)
        | inl e ↦ elim (Bool-cases (leb max (suc found))) [
          | inl f ↦
              let none_left : max - suc found ≡ 0 = ground (arith, f) in
              rw (e, q, f, room, none_left, passing, grep_from) refl
          | inr f ↦
              rw (e, room, passing, grep_from)
                (rw (q, f)
                  (ap (◌∷◌ l)
                    (grep_from-limited max (suc found) (suc num) next ls q (ground (arith, f)))))
        ]
      ]

  grep_from-passing :
      (found num offset : ℕ) (ls : List (List ℕ))
      → limit ≡ none
      → lines_of (grep_from test limit found num offset ls) ≡ passing test ls
  unfolding grep_from lines_of passing
  grep_from-passing found num offset [] q = refl
  grep_from-passing found num offset (l ∷ ls) q = ground (
    arith,
    q,
    grep_from-passing found (suc num) (offset + (length l + 1)) ls q,
    grep_from-passing (suc found) (suc num) (offset + (length l + 1)) ls q,
  )

-- Every match that is reported stands in the rope's text at its offset, is the line of its number,
-- and contains the pattern (in lower case both, if case does not count).
pub grep_lines-AllMatch :
    (to_lower : List ℕ → List ℕ) (r : Rope) (pattern : List ℕ) (max : ℤ) (fold : Bool)
    → AllMatch
        (λ line.
          contains
            (if fold then to_lower line else line)
            (if fold then to_lower pattern else pattern))
        (string r)
        (grep_lines to_lower r pattern max fold)
unfolding grep_lines lines
grep_lines-AllMatch to_lower r pattern max fold =
    grep_from-AllMatch _ (limit_of max) (string r) 0 0 0 (split_lines (string r)) refl
      (start (split_lines (string r)) (sym (join_lines-split_lines (string r))))
  where
    start : (ls : List (List ℕ)) → string r ≡ join_lines ls → TextAt (string r) 0 ls
    start [] e = tt
    start (l ∷ ls) e = e

-- What a search reports: every line that contains the pattern, in order, and with a positive limit
-- the first ones of these, up to the limit.
pub lines_of-grep_lines :
    (to_lower : List ℕ → List ℕ) (r : Rope) (pattern : List ℕ) (max : ℤ) (fold : Bool)
    → let test : List ℕ → Bool = λ line.
      contains
        (if fold then to_lower line else line)
        (if fold then to_lower pattern else pattern) in
      lines_of (grep_lines to_lower r pattern max fold) ≡ (elim (limit_of max) [
        | none ↦ passing test (split_lines (string r))
        | some n ↦ take n (passing test (split_lines (string r)))
      ])
unfolding grep_lines lines
lines_of-grep_lines to_lower r pattern (pos zero) fold = grep_from-passing _ none [] 0 0 0 _ refl
lines_of-grep_lines to_lower r pattern (pos (suc n)) fold =
    let room : suc n - 0 ≡ suc n = omega arith in
    grep_from-limited _ (some (suc n)) [] (suc n) 0 0 0 _ refl (omega arith)
    ∙ ap
        (λ k. take k (
          passing
            (λ line.
              contains (if fold then to_lower line else line)
                (if fold then to_lower pattern else pattern))
            (split_lines (string r))))
        room
lines_of-grep_lines to_lower r pattern (negsuc n) fold = grep_from-passing _ none [] 0 0 0 _ refl
