-- ===== src/Rlm/Strategy.antt =====
-- The strategy planner of pkg/rlm/strategy.go.
use dragonscale.Prelude.{
  ℕ, ◌-◌, ◌*◌, ◌%◌, Bool, not, ◌||◌, List, [], ◌∷◌, Option, none, some, ltb, leb, ◌==◌,
  if◌then◌else◌,
}
use dragonscale.Prelude.Text.{codes}
use dragonscale.Prelude.Int.{ℤ, pos, negsuc, ltb_ℤ}
use dragonscale.Rlm.Rope.{begins, contains}

-- What is used of the package strings beside searching.
pub record Strings : Type 0 where
  pub to_lower : List ℕ → List ℕ
  pub fields : List ℕ → List (List ℕ)
  pub trim_space : List ℕ → List ℕ

-- `StrategyOp`, by its type, with the field that belongs to it.
pub data StrategyOp : Type 0 where
  peek recurse_op final : StrategyOp
  grep : List ℕ → StrategyOp
  partition_into : ℤ → StrategyOp

pub record StrategyConfig : Type 0 where
  pub direct_threshold : ℤ
  pub default_partition_k : ℤ
  pub max_depth : ℤ

abbrev pub default_strategy_config : StrategyConfig
default_strategy_config = record {
  direct_threshold = pos 8192;
  default_partition_k = pos 4;
  max_depth = pos 8;
}

-- The conversion `uint8(n)`.
abbrev pub to_uint8 : ℤ → ℕ
to_uint8 (pos n) = n % 256
to_uint8 (negsuc n) = 255 - n % 256

abbrev pub quote_mark : List ℕ
quote_mark = b'"' ∷ []

unfoldable pub looks_like_keyword_query : Strings → List ℕ → Bool
looks_like_keyword_query strings query =
    let q = strings.to_lower query in
    contains q quote_mark
    || contains q (codes "error:")
    || contains q (codes "func ")
    || contains q (codes "def ")
    || begins (codes "find ") q
    || begins (codes "search ") q
    || begins (codes "where is ") q

-- `strings.Index(s, "\"")`: what stands before the first quote, and what stands behind it.
unfoldable pub cut_quote : List ℕ → Option (List ℕ × List ℕ)
cut_quote [] = none
cut_quote (b ∷ bs) =
    let rest = cut_quote bs in
    if b == b'"'
    then some ([], bs)
    else elim rest [ none ↦ none | some (before, behind) ↦ some (b ∷ before, behind) ]

abbrev pub first_word : List ℕ → List (List ℕ) → List ℕ
first_word query [] = query
first_word query (w ∷ ws) = w

-- `extractKeyword`.
unfoldable pub extract_keyword : Strings → List ℕ → List ℕ
extract_keyword strings query =
    let word = first_word query (strings.fields query) in
    elim (cut_quote query) [
      | none ↦ word
      | some (before, behind) ↦ elim (cut_quote behind) [
        | none ↦ word
        | some (quoted, after) ↦ quoted
      ]
    ]

-- `PlanNext`, for a context of so many bytes.
unfoldable pub plan_next : Strings → StrategyConfig → ℕ → List ℕ → ℕ → StrategyOp
plan_next strings cfg context_bytes query depth =
    if leb (to_uint8 cfg.max_depth) depth || not (ltb_ℤ cfg.direct_threshold (pos context_bytes))
    then final
    else if looks_like_keyword_query strings query
    then grep (extract_keyword strings query)
    else partition_into
        (if ltb (4 * 1024 * 1024) context_bytes then pos 8 else cfg.default_partition_k)
