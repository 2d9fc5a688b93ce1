-- ===== src/Prelude/Text.antt =====
-- Texts that the program compares whole, and string-keyed maps as association lists.
use Prim.Native.Char.{code}
use Prim.Native.String.{String}
use text.Mathlib.TextEquality.{eq_iff}
use text.Mathlib.Text.{◌==◌ as str_eq}
use mathlib.Core.Path.{◌≡◌, refl, ap, ◌∙◌}
use native.Mathlib.Decide.{ℕ_discrete}
use mathlib.Core.Logic.{◌≢◌}
use mathlib.Core.Bool.{Bool, true, false, ◌||◌, ◌&&◌}
use mathlib.Core.Option.{Option, none, some}
use mathlib.Core.List.{List, [], ◌∷◌, ◌++◌}
use native.Mathlib.Omega.{arith}
use Prim.Native.Nat.{ℕ}
use dragonscale.Prelude.Tests.{◌==◌, leb, if◌then◌else◌}

-- The code points of a text.
abbrev pub codes : String → List ℕ
codes String.[] = []
codes (String.◌∷◌ c s) = code c ∷ codes s

unfoldable pub cons_eq :
    (a b : ℕ) (ps qs : List ℕ) → Dec (a ≡ b) → Dec (ps ≡ qs) → Dec (a ∷ ps ≡ b ∷ qs)
cons_eq a b ps qs (yes p) (yes q) = yes (ap (λ x. x ∷ ps) p ∙ ap (λ l. b ∷ l) q)
cons_eq a b ps qs (no p) q = no (λ e. p (cc))
cons_eq a b ps qs (yes p) (no q) = no (λ e. q (cc))

-- `==` on texts.
unfoldable pub codes_eq : Discrete (List ℕ)
codes_eq [] [] = yes refl
codes_eq [] (b ∷ qs) = no (λ e. cc)
codes_eq (a ∷ ps) [] = no (λ e. cc)
codes_eq (a ∷ ps) (b ∷ qs) = cons_eq a b ps qs (ℕ_discrete a b) (codes_eq ps qs)

-- Whether a text is the given one.
abbrev pub is_text : List ℕ → String → Bool
is_text s t = elim (codes_eq s (codes t)) [ yes p ↦ true | no p ↦ false ]

-- `unicode.IsSpace`.
abbrev pub is_space : ℕ → Bool
is_space c =
    (leb 9 c && leb c 13)
    || c == 32
    || c == 0x85
    || c == 0xa0
    || c == 0x1680
    || (leb 0x2000 c && leb c 0x200a)
    || c == 0x2028
    || c == 0x2029
    || c == 0x202f
    || c == 0x205f
    || c == 0x3000

abbrev pub all_space : List ℕ → Bool
all_space [] = true
all_space (c ∷ cs) = is_space c && all_space cs

-- `strings.TrimSpace(s) == ""`.
abbrev pub is_blank : String → Bool
is_blank s = all_space (codes s)

-- `strings.Join`, of the parts and behind the separator.
unfoldable pub join_by : List ℕ → List (List ℕ) → List ℕ
join_by separator [] = []
join_by separator (p ∷ []) = p
join_by separator (p ∷ q ∷ ps) = p ++ (separator ++ join_by separator (q ∷ ps))

abbrev pub begins : List ℕ → List ℕ → Bool
begins [] cs = true
begins (p ∷ ps) [] = false
begins (p ∷ ps) (c ∷ cs) = p == c && begins ps cs

abbrev pub contains_codes : List ℕ → List ℕ → Bool
contains_codes [] ps = begins ps []
contains_codes (c ∷ cs) ps = begins ps (c ∷ cs) || contains_codes cs ps

-- `strings.Contains(s, sub)`.
abbrev pub contains : String → String → Bool
contains s sub = contains_codes (codes s) (codes sub)

-- What follows a prefix, if the text has it.
abbrev pub after_prefix : String → String → Option String
after_prefix String.[] s = some s
after_prefix (String.◌∷◌ p ps) String.[] = none
after_prefix (String.◌∷◌ p ps) (String.◌∷◌ c s) =
    if code p == code c then after_prefix ps s else none

module _ {ℓ} {V : Type ℓ} where
  -- `m[key]`, with the second result of the comma-ok form.
  unfoldable pub lookup : String → List (String × V) → Option V
  lookup key [] = none
  lookup key (entry ∷ rest) = elim (str_eq entry.0 key) [
    | true ↦ some entry.1
    | false ↦ lookup key rest
  ]

  -- `m[key] = value`.
  unfoldable pub insert : String → V → List (String × V) → List (String × V)
  insert key value [] = (key, value) ∷ []
  insert key value (entry ∷ rest) = elim (str_eq entry.0 key) [
    | true ↦ (key, value) ∷ rest
    | false ↦ entry ∷ insert key value rest
  ]

  pub lookup-insert_ne :
      (key other : String) (value : V) (entries : List (String × V))
      → key ≢ other
      → lookup other (insert key value entries) ≡ lookup other entries
  unfolding lookup insert
  lookup-insert_ne key other value [] ne = ground (arith, eq_iff key other)
  lookup-insert_ne key other value (entry ∷ rest) ne = ground (
    arith,
    eq_iff entry.0 key,
    eq_iff entry.0 other,
    eq_iff key other,
    lookup-insert_ne key other value rest,
  )
