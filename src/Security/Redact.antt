-- ===== src/Security/Redact.antt =====
-- The redactor: pkg/security/redact.go, and `sanitizeAuditField` of pkg/security/securebus/bus.go.
-- Regular expressions (the standard library's regexp) are the parameter `Regexp`.
use Prim.Native.String.{String, ◌++◌ as append}
use text.Mathlib.Text.{◌==◌ as str_eq}
use text.Mathlib.TextEquality.{eq_iff}
use dragonscale.Prelude.{
  ℕ, ◌-◌, ◌≡◌, refl, Bool, false, ◌||◌, Option, none, some, List, [], ◌∷◌, ◌++◌, arith, length,
  take, length-take, length-replicate, length-append, ◌<◌, replicate, leb, if◌then◌else◌,
  Bool-cases, inl, inr,
}

-- What the redactor relies on of a compiled expression: replacing finds nothing in a text that
-- the expression does not match.
pub record Regexp : Type 0 where
  pub match_string : String → Bool
  pub replace_all_string : String → String → String
  pub replace_unmatched :
      (text repl : String) → match_string text ≡ false → replace_all_string text repl ≡ text

pub record RedactPattern : Type 0 where
  pub re : Regexp
  pub label : String

unfoldable pub redact_step : RedactPattern → String → String
redact_step p text = p.re.replace_all_string text (append "[REDACTED:" (append p.label "]"))

-- `Redact`: each pattern in turn, on what the ones before it left.
unfoldable pub redact : List RedactPattern → String → String
redact [] text = text
redact (p ∷ ps) text = redact ps (redact_step p text)

-- `ContainsSensitive`.
unfoldable pub contains_sensitive : List RedactPattern → String → Bool
contains_sensitive [] text = false
contains_sensitive (p ∷ ps) text = p.re.match_string text || contains_sensitive ps text

-- `sanitizeAuditField`, with a redactor that may be nil.
unfoldable pub sanitize_audit_field : Option (List RedactPattern) → String → String
sanitize_audit_field none text = text
sanitize_audit_field (some ps) text =
    if str_eq text "" then text else if contains_sensitive ps text then redact ps text else text

redact_step-unmatched :
    (p : RedactPattern) (text : String) → p.re.match_string text ≡ false → redact_step p text ≡ text
unfolding redact_step
redact_step-unmatched p text h = p.re.replace_unmatched text _ h

-- A text in which no pattern matches is left as it is.
pub redact-clean :
    (ps : List RedactPattern) (text : String)
    → contains_sensitive ps text ≡ false
    → redact ps text ≡ text
unfolding redact contains_sensitive
redact-clean [] text h = refl
redact-clean (p ∷ ps) text h =
    rw (redact_step-unmatched p text (ground arith)) (redact-clean ps text (ground arith))

-- The bus sanitises by testing first; that gives what redacting every field would give, where the
-- patterns do not match the empty text.
pub sanitize_audit_field-redact :
    (ps : List RedactPattern) (text : String)
    → contains_sensitive ps "" ≡ false
    → sanitize_audit_field (some ps) text ≡ redact ps text
unfolding sanitize_audit_field
sanitize_audit_field-redact ps text h =
    ground (arith, eq_iff text "", redact-clean ps text, redact-clean ps "")

-- `MaskKey`, over the key's bytes.
unfoldable pub mask_key : List ℕ → List ℕ
mask_key key =
    if leb (length key) 8
    then replicate (length key) b'*'
    else take 8 key ++ replicate (length key - 8) b'*'

-- The mask is as long as the key.
pub length-mask_key : (key : List ℕ) → length (mask_key key) ≡ length key
unfolding mask_key
length-mask_key key = ground (
  arith,
  length-append (take 8 key) (replicate (length key - 8) b'*'),
  length-take 8 key,
  length-replicate {A = ℕ} (length key) b'*',
  length-replicate {A = ℕ} (length key - 8) b'*',
)

-- The mask gives nothing of a key away but its length and, of a key longer than eight bytes, the
-- first eight: two keys that agree in these have the same mask.
pub mask_key-eq :
    (a b : List ℕ)
    → length a ≡ length b
    → ((8 < length a) → take 8 a ≡ take 8 b)
    → mask_key a ≡ mask_key b
unfolding mask_key
mask_key-eq a b same h = elim (Bool-cases (leb (length b) 8)) [
  | inl e ↦ rw (same, e)
  | inr e ↦ rw (same, e, h (ground arith))
]
