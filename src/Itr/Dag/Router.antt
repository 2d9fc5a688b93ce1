-- ===== src/Itr/Dag/Router.antt =====
-- `Route` of pkg/itr/dag/router.go, and `extractJSON` of planner.go. A text is its bytes.
use dragonscale.Prelude.{
  ℕ, suc, Bool, true, false, List, [], ◌∷◌, Option, none, some, length, drop, leb, ◌==◌,
  if◌then◌else◌,
}
use dragonscale.Prelude.Text.{codes}
use dragonscale.Prelude.Int.{ℤ, pos, ltb_ℤ}
use dragonscale.Itr.Dag.Replan.{starts, occurs}
use dragonscale.Rlm.Strategy.{Strings}

pub data ToolLoopMode : Type 0 where
  react dag auto : ToolLoopMode

pub record RouterConfig : Type 0 where
  pub complexity_threshold : ℤ
  pub parallel_keywords : List (List ℕ)

abbrev pub default_router_config : RouterConfig
default_router_config = record {
  complexity_threshold = pos 30;
  parallel_keywords =
      codes "and then"
      ∷ codes "in parallel"
      ∷ codes "simultaneously"
      ∷ codes "at the same time"
      ∷ codes "multiple"
      ∷ codes "several"
      ∷ codes "both"
      ∷ codes "compare"
      ∷ codes "aggregate"
      ∷ codes "combine"
      ∷ codes "collect"
      ∷ codes "gather"
      ∷ [];
}

abbrev pub tool_indicators : List (List ℕ)
tool_indicators =
    codes "search"
    ∷ codes "read"
    ∷ codes "write"
    ∷ codes "execute"
    ∷ codes "fetch"
    ∷ codes "list"
    ∷ codes "create"
    ∷ codes "delete"
    ∷ codes "find"
    ∷ []

unfoldable pub any_occurs : List (List ℕ) → List ℕ → Bool
any_occurs [] text = false
any_occurs (kw ∷ kws) text = let rest = any_occurs kws text in if occurs kw text then true else rest

unfoldable pub count_occurs : List (List ℕ) → List ℕ → ℕ
count_occurs [] text = 0
count_occurs (ind ∷ inds) text =
    let rest = count_occurs inds text in if occurs ind text then suc rest else rest

-- `classifyQuery`, over the lower-case text and its fields.
unfoldable pub classify_query : Strings → List ℕ → RouterConfig → ToolLoopMode
classify_query strings query cfg =
    let lower = strings.to_lower query in
    if ltb_ℤ (pos (length (strings.fields lower))) cfg.complexity_threshold
    then (if any_occurs cfg.parallel_keywords lower
        then dag
        else if leb 3 (count_occurs tool_indicators lower)
        then dag
        else react)
    else dag

unfoldable pub route : Strings → ToolLoopMode → List ℕ → RouterConfig → ToolLoopMode
route strings react query cfg = react
route strings dag query cfg = dag
route strings auto query cfg = classify_query strings query cfg

-- What stands before the first occurrence of a part, and what stands behind it.
unfoldable pub cut : List ℕ → List ℕ → Option (List ℕ × List ℕ)
cut part [] = if starts part [] then some ([], []) else none
cut part (b ∷ bs) =
    let rest = cut part bs in
    if starts part (b ∷ bs)
    then some ([], drop (length part) (b ∷ bs))
    else elim rest [ none ↦ none | some (before, behind) ↦ some (b ∷ before, behind) ]

-- The body of a fence whose opening is cut off.
unfoldable pub until_fence : List ℕ → List ℕ
until_fence s = elim (cut (codes "```") s) [ none ↦ s | some (before, behind) ↦ before ]

unfoldable pub strip_fences : List ℕ → List ℕ
strip_fences s = elim (cut (codes "```json") s) [
  | some (before, behind) ↦ until_fence behind
  | none ↦ elim (cut (codes "```") s) [ some (before, behind) ↦ until_fence behind | none ↦ s ]
]

-- The text from its first opening brace on.
unfoldable pub from_brace : List ℕ → Option (List ℕ)
from_brace [] = none
from_brace (b ∷ bs) = let rest = from_brace bs in if b == b'{' then some (b ∷ bs) else rest

-- The text up to its last closing brace.
unfoldable pub to_brace : List ℕ → Option (List ℕ)
to_brace [] = none
to_brace (b ∷ bs) =
    let rest = to_brace bs in
    elim rest [ some part ↦ some (b ∷ part) | none ↦ if b == b'}' then some (b ∷ []) else none ]

-- `extractJSON`. A closing brace that is not behind the opening one leaves the text as it is.
unfoldable pub extract_json : List ℕ → List ℕ
extract_json s =
    let body = strip_fences s in
    elim (from_brace body) [
      | none ↦ body
      | some opened ↦ elim (to_brace opened) [ none ↦ body | some part ↦ part ]
    ]
