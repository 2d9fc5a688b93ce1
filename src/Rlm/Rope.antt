-- ===== src/Rlm/Rope.antt =====
-- The rope of pkg/rlm/rope.go, over bytes. `int` arguments that the code tests for a sign are ℤ.
pub mod Slice
pub mod Partition
pub mod Runes
pub mod Lines
pub mod Grep
use dragonscale.Prelude.{
  ℕ, zero, suc, ◌+◌, ◌-◌, ◌/◌, ◌%◌, ◌≡◌, Bool, true, false, not, ◌||◌, ◌&&◌, List, [], ◌∷◌, ◌++◌,
  Option, none, some, length, take, drop, replicate, ltb, leb, ◌==◌, if◌then◌else◌,
}
use dragonscale.Prelude.Int.{ℤ, pos, negsuc}

-- `ropeNode`: each node stores its length beside its bytes or its children.
pub data RopeNode : Type 0 where
  leaf : List ℕ → ℕ → RopeNode
  internal : RopeNode → RopeNode → ℕ → RopeNode

-- `Rope`: the root, nil in a zero value.
abbrev pub Rope : Type 0
Rope = Option RopeNode

unfoldable pub node_length : RopeNode → ℕ
node_length (leaf bytes n) = n
node_length (internal l r n) = n

unfoldable pub new_leaf : List ℕ → RopeNode
new_leaf bytes = leaf bytes (length bytes)

unfoldable pub new_internal : RopeNode → RopeNode → RopeNode
new_internal l r = internal l r (node_length l + node_length r)

unfoldable pub new_rope : List ℕ → Rope
new_rope content = if length content == 0 then some (new_leaf []) else some (new_leaf content)

-- `Len`.
unfoldable pub len : Rope → ℕ
unfolding node_length
len none = 0
len (some n) = node_length n

-- `writeNode`, as what it writes.
unfoldable pub write_node : RopeNode → List ℕ
write_node (leaf bytes n) = bytes
write_node (internal l r n) = write_node l ++ write_node r

-- `String`.
unfoldable pub string : Rope → List ℕ
string none = []
string (some n) = write_node n

-- `Append`.
unfoldable pub append_to : Rope → List ℕ → Rope
append_to none content = if length content == 0 then none else some (new_leaf content)
append_to (some n) content =
    if length content == 0
    then some n
    else if node_length n == 0
    then some (new_leaf content)
    else some (new_internal n (new_leaf content))

abbrev pub min_of : ℕ → ℕ → ℕ
min_of a b = if ltb a b then a else b

-- `sliceNode`, as what it writes. `start - left` is `max(0, start-leftLen)`.
unfoldable pub slice_node : RopeNode → ℕ → ℕ → List ℕ
slice_node (leaf bytes n) start end =
    if leb end start
    then []
    else let hi = min_of end (length bytes) in
      if ltb start hi then drop start (take hi bytes) else []
slice_node (internal l r n) start end =
    if leb end start
    then []
    else (if ltb start (node_length l) then slice_node l start (min_of end (node_length l)) else [])
      ++ (if ltb (node_length l) end
          then slice_node r (start - node_length l) (end - node_length l)
          else [])

unfoldable pub slice_root : Rope → ℕ → ℕ → List ℕ
slice_root none start end = []
slice_root (some n) start end = slice_node n start end

-- `Slice`; none is the range error.
unfoldable pub slice : Rope → ℤ → ℤ → Option (List ℕ)
slice r (pos start) (pos end) =
    if ltb end start || ltb (len r) end
    then none
    else if start == end
    then some []
    else some (slice_root r start end)
slice r (pos start) (negsuc end) = none
slice r (negsuc start) end = none

-- `strings.Split(s, "\n")`.
unfoldable pub split_lines : List ℕ → List (List ℕ)
split_lines [] = [] ∷ []
split_lines (b ∷ bs) =
    if b == b'\n'
    then [] ∷ split_lines bs
    else elim (split_lines bs) [ [] ↦ (b ∷ []) ∷ [] | line ∷ rest ↦ (b ∷ line) ∷ rest ]

unfoldable pub lines : Rope → List (List ℕ)
lines r = split_lines (string r)

-- `GrepMatch`.
pub record GrepMatch : Type 0 where
  pub line_num : ℕ
  pub byte_offset : ℕ
  pub line : List ℕ

-- The loop of `GrepLines`. `found` is `len(results)` so far; a limit of 0 or less is none.
unfoldable pub grep_from : (List ℕ → Bool) → Option ℕ → ℕ → ℕ → ℕ → List (List ℕ) → List GrepMatch
grep_from matches limit found num offset [] = []
grep_from matches limit found num offset (line ∷ rest) =
    let miss = grep_from matches limit found (suc num) (offset + (length line + 1)) rest in
    let hit = grep_from matches limit (suc found) (suc num) (offset + (length line + 1)) rest in
    let m : GrepMatch = record { line_num = num + 1; byte_offset = offset; line = line } in
    elim (matches line) [
      | false ↦ miss
      | true ↦ elim limit [
        | none ↦ m ∷ hit
        | some max ↦ elim (leb max (suc found)) [ true ↦ m ∷ [] | false ↦ m ∷ hit ]
      ]
    ]

abbrev pub limit_of : ℤ → Option ℕ
limit_of (pos zero) = none
limit_of (pos (suc n)) = some (suc n)
limit_of (negsuc n) = none

-- `strings.Contains`, over bytes.
abbrev pub begins : List ℕ → List ℕ → Bool
begins [] bs = true
begins (p ∷ ps) [] = false
begins (p ∷ ps) (b ∷ bs) = p == b && begins ps bs

abbrev pub contains : List ℕ → List ℕ → Bool
contains [] ps = begins ps []
contains (b ∷ bs) ps = begins ps (b ∷ bs) || contains bs ps

-- `GrepLines`; `to_lower` is `strings.ToLower`.
unfoldable pub grep_lines : (List ℕ → List ℕ) → Rope → List ℕ → ℤ → Bool → List GrepMatch
grep_lines to_lower r pattern max_matches case_insensitive =
    let search = if case_insensitive then to_lower pattern else pattern in
    grep_from (λ line. contains (if case_insensitive then to_lower line else line) search)
      (limit_of max_matches) 0 0 0 (lines r)

-- `byteAt`.
unfoldable pub byte_at : Rope → ℕ → ℕ
byte_at r i = elim (slice r (pos i) (pos (i + 1))) [
  | none ↦ 0
  | some s ↦ elim s [ [] ↦ 0 | b ∷ bs ↦ b ]
]

-- `utf8.RuneStart`: the byte is no continuation byte (`b & 0xC0 != 0x80`).
abbrev pub rune_start : ℕ → Bool
rune_start b = not ((b / 64) % 4 == 2)

-- The loop that walks back from `at + gap` to a rune boundary, down to `at`.
unfoldable pub walk_back : Rope → ℕ → ℕ → ℕ
walk_back r at zero = at
walk_back r at (suc gap) =
    let back = walk_back r at gap in
    if rune_start (byte_at r (at + suc gap)) then at + suc gap else back

-- Where the part that begins at `at` ends; `last` tells the last round.
unfoldable pub part_end : Rope → ℕ → Bool → ℕ → ℕ
part_end r chunk last at =
    let total = len r in
    let end = if last || leb total (at + chunk) then total else at + chunk in
    if ltb end total then walk_back r at (end - at) else end

unfoldable pub slice_or_empty : Rope → ℕ → ℕ → List ℕ
slice_or_empty r start end = elim (slice r (pos start) (pos end)) [ none ↦ [] | some s ↦ s ]

-- The loop of `Partition`, with the rounds left.
unfoldable pub parts_from : Rope → ℕ → ℕ → ℕ → List (List ℕ)
parts_from r chunk zero at = []
parts_from r chunk (suc rounds) at =
    let end = part_end r chunk (rounds == 0) at in
    let rest = parts_from r chunk rounds end in
    slice_or_empty r at end ∷ (if leb (len r) end then [] else rest)

-- The padding to exactly `k` parts.
unfoldable pub pad : ℕ → List (List ℕ) → List (List ℕ)
pad k parts = parts ++ replicate (k - length parts) []

unfoldable pub partition_into : Rope → ℕ → List (List ℕ)
partition_into r k =
    if len r == 0
    then replicate k []
    else let chunk = if len r / k == 0 then 1 else len r / k in pad k (parts_from r chunk k 0)

-- `Partition`.
unfoldable pub partition : Rope → ℤ → List (List ℕ)
partition r (pos zero) = partition_into r 1
partition r (pos (suc k)) = partition_into r (suc k)
partition r (negsuc k) = partition_into r 1
