-- ===== src/Security/Extract/Parts.antt =====
-- What `extractJSONString` of pkg/security/jsonextract.go takes out of a text.
use dragonscale.Prelude.{
  ℕ, suc, ◌+◌, ◌≤◌, ◌≡◌, ◌≢◌, refl, sym, ap, ◌∙◌, true, false, List, [], ◌∷◌, ◌++◌, some, length,
  take, drop, take-append-drop, ltb, Bool-cases, Option-cases, inl, inr, arith,
}
use mathlib.Core.List.{append_assoc, append-nil}
use dragonscale.Prelude.Text.{begins, codes}
use dragonscale.Rlm.Strategy.{Strings}
use dragonscale.Security.Extract.{
  index, is_json, Fence, no_fence, past_end, fenced, fence_after, or_else, extract_from_code_fence,
  scan_braces, extract_first_braced, braced_json, fenced_json, extract_json_string,
}

-- The first text stands in the second.
abbrev pub IsPart : List ℕ → List ℕ → Type 0
IsPart t s = (before : List ℕ) × (after : List ℕ) × (s ≡ before ++ (t ++ after))

whole-IsPart : (s : List ℕ) → IsPart s s
whole-IsPart s = ([], [], sym (append-nil s))

empty-IsPart : (s : List ℕ) → IsPart [] s
empty-IsPart s = ([], s, refl)

drop-IsPart : (n : ℕ) (s : List ℕ) → IsPart (drop n s) s
drop-IsPart n s = (
  take n s,
  [],
  sym (take-append-drop n s) ∙ ap (λ l. take n s ++ l) (sym (append-nil (drop n s))),
)

take-IsPart : (n : ℕ) (s : List ℕ) → IsPart (take n s) s
take-IsPart n s = ([], drop n s, sym (take-append-drop n s))

IsPart_trans : (r s t : List ℕ) → IsPart r s → IsPart s t → IsPart r t
IsPart_trans r s t (a, b, e) (c, d, f) = (
  c ++ a,
  b ++ d,
  f
      ∙ ap (λ l. c ++ (l ++ d)) e
      ∙ ap (λ l. c ++ l) (append_assoc a (r ++ b) d ∙ ap (λ l. a ++ l) (append_assoc r b d))
      ∙ sym (append_assoc c a (r ++ (b ++ d))),
)

begins-le : (p s : List ℕ) → begins p s ≡ true → length p ≤ length s
begins-le [] s h = omega arith
begins-le (c ∷ p) [] h = cc
begins-le (c ∷ p) (d ∷ s) h = omega (arith, begins-le p s (ground (arith, h)))

index-le : (s p : List ℕ) (i : ℕ) → index s p ≡ some i → i + length p ≤ length s
unfolding index
index-le [] p i h = elim (Bool-cases (begins p [])) [
  | inl e ↦ let z : 0 ≡ i = ground (arith, h, e) in omega (arith, z, begins-le p [] e)
  | inr e ↦ absurd (ground (arith, h, e))
]
index-le (c ∷ cs) p i h = elim (Bool-cases (begins p (c ∷ cs))) [
  | inl e ↦ let z : 0 ≡ i = ground (arith, h, e) in omega (arith, z, begins-le p (c ∷ cs) e)
  | inr e ↦ elim (Option-cases (index cs p)) [
    | inl f ↦ absurd (ground (arith, h, e, f))
    | inr (k, f) ↦
        let z : suc k ≡ i = ground (arith, h, e, f) in omega (arith, z, index-le cs p k f)
  ]
]

module _ (strings : Strings) (trims : (s : List ℕ) → IsPart (strings.trim_space s) s) where
  -- Nothing, or a part of the text, and no panic.
  abbrev InText : List ℕ → Fence → Type 0
  InText text no_fence = Unit
  InText text past_end = ⊥
  InText text (fenced s) = IsPart s text

  fence_after-InText :
      (text marker : List ℕ)
      → length (strings.to_lower text) ≡ length text
      → InText text (fence_after strings text marker)
  unfolding fence_after
  fence_after-InText text marker same = elim (Option-cases (index (strings.to_lower text) marker)) [
    | inl e ↦ rw (e, fence_after) tt
    | inr (i, e) ↦
        let behind = drop (i + length marker) text in
        let fits : ltb (length text) (i + length marker) ≡ false =
          ground (arith, same, index-le (strings.to_lower text) marker i e) in
        elim (Option-cases (index behind (codes "```"))) [
          | inl f ↦ rw (e, fits, f, fence_after) tt
          | inr (k, f) ↦
              rw (e, fits, f, fence_after)
                (IsPart_trans (strings.trim_space (take k behind)) behind text
                  (IsPart_trans (strings.trim_space (take k behind)) (take k behind) behind
                    (trims (take k behind)) (take-IsPart k behind))
                  (drop-IsPart (i + length marker) text))
        ]
  ]

  or_else-InText :
      (text : List ℕ) (a b : Fence) → InText text a → InText text b → InText text (or_else a b)
  or_else-InText text no_fence b p q = q
  or_else-InText text past_end b p q = p
  or_else-InText text (fenced s) b p q = p

  braced-IsPart : (text : List ℕ) → IsPart (extract_first_braced text) text
  unfolding extract_first_braced
  braced-IsPart text = elim (Option-cases (index text (codes "{"))) [
    | inl e ↦ rw (e, extract_first_braced) (empty-IsPart text)
    | inr (i, e) ↦ elim (Option-cases (scan_braces 0 false false (drop i text))) [
      | inl f ↦ rw (e, f, extract_first_braced) (empty-IsPart text)
      | inr (n, f) ↦
          rw (e, f, extract_first_braced)
            (IsPart_trans (take n (drop i text)) (drop i text) text (take-IsPart n (drop i text))
              (drop-IsPart i text))
    ]
  ]

  -- A text that is taken out: nothing, or a part that begins and ends as JSON does.
  abbrev pub TakenFrom : List ℕ → List ℕ → Type 0
  TakenFrom text out = IsPart out text × (out ≢ [] → is_json strings out ≡ true)

  braced_json-TakenFrom : (text : List ℕ) → TakenFrom text (braced_json strings text)
  braced_json-TakenFrom text = elim (Bool-cases (is_json strings (extract_first_braced text))) [
    | inl e ↦ rw (e) (braced-IsPart text, λ h. e)
    | inr e ↦ rw (e) (empty-IsPart text, λ h. absurd (h refl))
  ]

  fenced_json-TakenFrom :
      (text : List ℕ) (f : Fence)
      → InText text f
      → (out : List ℕ) × (fenced_json strings text f ≡ some out) × TakenFrom text out
  fenced_json-TakenFrom text no_fence p =
      (braced_json strings text, refl, braced_json-TakenFrom text)
  fenced_json-TakenFrom text past_end p = absurd p
  fenced_json-TakenFrom text (fenced s) p = elim (Bool-cases (is_json strings s)) [
    | inl e ↦ rw (e) (s, refl, (p, λ h. e))
    | inr e ↦ rw (e) (braced_json strings text, refl, braced_json-TakenFrom text)
  ]

  -- When trimming takes a part of a text, and the trimmed text is as long in lower case, nothing
  -- panics, and what is extracted is empty or a part of the text that begins and ends as JSON does.
  pub extract_json_string-TakenFrom :
      (text : List ℕ)
      → length (strings.to_lower (strings.trim_space text)) ≡ length (strings.trim_space text)
      → (out : List ℕ) × (extract_json_string strings text ≡ some out) × TakenFrom text out
  unfolding extract_json_string extract_from_code_fence
  extract_json_string-TakenFrom text same =
      let trimmed = strings.trim_space text in
      elim (Bool-cases (is_json strings trimmed)) [
        | inl e ↦ rw (e, extract_json_string) (trimmed, refl, (trims text, λ h. e))
        | inr e ↦
            let fence =
              or_else-InText trimmed (fence_after strings trimmed (codes "```json"))
                (fence_after strings trimmed (codes "```"))
                (fence_after-InText trimmed (codes "```json") same)
                (fence_after-InText trimmed (codes "```") same) in
            let (out, f, (part, json)) =
              fenced_json-TakenFrom trimmed (extract_from_code_fence strings trimmed) fence in
            (out, ground (arith, e, f), (IsPart_trans out trimmed text part (trims text), json))
      ]
