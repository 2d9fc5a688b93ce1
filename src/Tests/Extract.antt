-- ===== src/Tests/Extract.antt =====
-- pkg/security/jsonextract.go at short texts.
use dragonscale.Prelude.{
  ℕ, ◌≡◌, refl, Bool, true, List, [], ◌∷◌, Option, none, some, if◌then◌else◌, ◌==◌,
}
use mathlib.Core.List.{append-nil}
use dragonscale.Prelude.{sym}
use dragonscale.Prelude.Int.{pos}
use dragonscale.Prelude.Text.{codes}
use dragonscale.Rlm.Strategy.{Strings}
use dragonscale.Security.Extract.{
  index, fence_after, extract_from_code_fence, scan_braces, extract_first_braced,
  extract_json_string, extract_json, ExtractJsonOptions, decoded, not_decoded, too_large,
}
use dragonscale.Security.Extract.Parts.{IsPart, TakenFrom, extract_json_string-TakenFrom}

program : Unit {0}
unfolding index fence_after extract_from_code_fence scan_braces extract_first_braced
    extract_json_string extract_json
program = tt

-- Texts without spaces around them, and in lower case.
abbrev plain : Strings
plain = record { to_lower = λ s. s; fields = λ s. s ∷ []; trim_space = λ s. s }

plain_trims : (s : List ℕ) → IsPart (plain.trim_space s) s
plain_trims s = ([], [], sym (append-nil s))

abbrev fenced_text : List ℕ
fenced_text = codes "so: ```json{\"a\":\"}\"}``` ok"

extract_json_string-TakenFrom_example :
    (out : List ℕ) × (extract_json_string plain fenced_text ≡ some out)
    × TakenFrom plain plain_trims fenced_text out
extract_json_string-TakenFrom_example =
    extract_json_string-TakenFrom plain plain_trims fenced_text refl

fence_taken : extract_json_string plain fenced_text ≡ some (codes "{\"a\":\"}\"}")
unfolding program
fence_taken = refl

brace_taken : extract_json_string plain (codes "see {\"a\":{}} and }") ≡ some (codes "{\"a\":{}}")
unfolding program
brace_taken = refl

-- The decoder of one object.
abbrev decode : Bool → List ℕ → Option ℕ
decode strict s = elim s [
  | [] ↦ none
  | c ∷ cs ↦ elim cs [ [] ↦ none | d ∷ ds ↦ elim ds [ [] ↦ some 0 | e ∷ es ↦ none ] ]
]

abbrev options : ExtractJsonOptions
options = record { max_input_bytes = pos 12; disallow_unknown_fields = true }

-- Two objects: the first one is not taken out, as the whole text begins and ends as JSON does.
two_objects : extract_json plain decode options (codes "{} then {}") ≡ not_decoded
unfolding program
two_objects = refl

one_object : extract_json plain decode options (codes "first {}") ≡ decoded 0
unfolding program
one_object = refl

text_too_large : extract_json plain decode options (codes "0123456789012") ≡ too_large 13 12
unfolding program
text_too_large = refl

-- A letter whose lower case is longer in bytes, as U+023A is: 200 186 becomes 226 177 165.
abbrev lower_longer : List ℕ → List ℕ
lower_longer [] = []
lower_longer (c ∷ cs) =
    let rest = lower_longer cs in
    if c == 200 then 226 ∷ 177 ∷ rest else if c == 186 then 165 ∷ rest else c ∷ rest

abbrev longer : Strings
longer = record { to_lower = lower_longer; fields = λ s. s ∷ []; trim_space = λ s. s }

fence_panics : extract_json_string longer (200 ∷ 186 ∷ codes "```") ≡ none
unfolding program
fence_panics = refl
