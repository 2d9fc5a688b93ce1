-- ===== src/Fantasy/Tools/Json.antt =====
-- JSON values as `any` holds them, and the functions of the standard library that tool_dag.go and
-- tool_runtime_dag.go read them with. The decoder and the encoder are parameters; an object's fields
-- are in one order of iteration.
use dragonscale.Prelude.{
  ℕ, ◌+◌, ◌-◌, ◌*◌, Bool, ◌&&◌, List, [], ◌∷◌, Option, none, some, ite, leb, ◌==◌, if◌then◌else◌,
  length, drop,
}
use dragonscale.Prelude.Int.{ℤ, pos, negsuc}
use dragonscale.Prelude.Text.{begins, codes_eq}

mutual
  pub data Value : Type 0 where
    null : Value
    boolean : Bool → Value
    number : List ℕ → Value
    text : List ℕ → Value
    array : Items → Value
    object : Fields → Value

  pub data Items : Type 0 where
    nil : Items
    cons : Value → Items → Items

  pub data Fields : Type 0 where
    end : Fields
    field : List ℕ → Value → Fields → Fields

-- `jsonv2.Unmarshal` into an `any`, and `jsonv2.Marshal`; an error is none.
pub record Json : Type 0 where
  pub unmarshal : List ℕ → Option Value
  pub marshal : Value → Option (List ℕ)

-- `typed[seg]` of an object, and of an array.
unfoldable pub find_field : List ℕ → Fields → Option Value
find_field key end = none
find_field key (field k v fs) = let rest = find_field key fs in ite (codes_eq k key) (some v) rest

unfoldable pub item_at : ℕ → Items → Option Value
item_at i nil = none
item_at i (cons v vs) = let rest = item_at (i - 1) vs in if i == 0 then some v else rest

-- `strings.TrimPrefix`.
abbrev pub trim_prefix : List ℕ → List ℕ → List ℕ
trim_prefix p s = if begins p s then drop (length p) s else s

-- `strings.Split(s, ".")`: the part before the first dot, and the parts behind it.
unfoldable pub split_dots : List ℕ → List ℕ × List (List ℕ)
split_dots [] = ([], [])
split_dots (c ∷ cs) =
    let rest = split_dots cs in if c == b'.' then ([], rest.0 ∷ rest.1) else (c ∷ rest.0, rest.1)

-- The value of the digits behind some that are read.
abbrev pub digits_from : ℕ → List ℕ → Option ℕ
digits_from n [] = some n
digits_from n (c ∷ cs) =
    let rest = digits_from (10 * n + (c - b'0')) cs in
    if leb b'0' c && leb c b'9' then rest else none

abbrev pub digits : List ℕ → Option ℕ
digits [] = none
digits (c ∷ cs) = digits_from 0 (c ∷ cs)

abbrev pub negated : ℕ → ℤ
negated n = if n == 0 then pos 0 else negsuc (n - 1)

-- `strconv.Atoi`, with its bounds on 64 bits.
unfoldable pub atoi : List ℕ → Option ℤ
atoi [] = none
atoi (c ∷ cs) =
    if c == b'-'
    then elim (digits cs) [
      | none ↦ none
      | some n ↦ if leb n 0x8000000000000000 then some (negated n) else none
    ]
    else elim (if c == b'+' then digits cs else digits (c ∷ cs)) [
      | none ↦ none
      | some n ↦ if leb n 0x7fffffffffffffff then some (pos n) else none
    ]
