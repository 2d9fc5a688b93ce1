-- ===== src/Ids/Uuid.antt =====
-- pkg/ids/codec.go, type.go and uuidv7.go. A UUID is its 16 bytes, a text is its bytes; the clock
-- and the random bytes are arguments.
pub mod Text
pub mod Fresh
use dragonscale.Prelude.{
  ℕ, zero, suc, ◌+◌, ◌-◌, ◌*◌, ◌/◌, ◌%◌, ◌^◌, ◌<◌, ◌≡◌, Bool, true, false, ◌&&◌, List, [], ◌∷◌,
  ◌++◌, Option, none, some, length, take, drop, replicate, get_elem?, leb, ◌==◌, if◌then◌else◌,
}
use dragonscale.Prelude.Text.{codes}

-- What `UUID [16]byte` is among the lists.
abbrev pub AllBytes : List ℕ → Type 0
AllBytes [] = Unit
AllBytes (b ∷ bs) = (b < 256) × AllBytes bs

pub record IsUuid (u : List ℕ) : Type 0 where
  pub sixteen : length u ≡ 16
  pub bytes : AllBytes u

-- The zero value.
abbrev pub nil_uuid : List ℕ
nil_uuid = replicate 16 0

abbrev pub hexdigits : List ℕ
hexdigits = codes "0123456789abcdef"

unfoldable pub hex_digit : ℕ → ℕ
hex_digit i = elim (get_elem? hexdigits i) [ none ↦ 0 | some c ↦ c ]

-- The loops over `writeByte`.
unfoldable pub hex_of : List ℕ → List ℕ
hex_of [] = []
hex_of (b ∷ bs) = hex_digit (b / 16) ∷ hex_digit (b % 16) ∷ hex_of bs

-- `encodeCanonical`, which `UUID.String` calls.
unfoldable pub encode_canonical : List ℕ → List ℕ
encode_canonical u =
    hex_of (take 4 u)
    ++ (b'-'
        ∷ (hex_of (take 2 (drop 4 u))
            ++ (b'-'
                ∷ (hex_of (take 2 (drop 6 u))
                    ++ (b'-'
                        ∷ (hex_of (take 2 (drop 8 u)) ++ (b'-' ∷ hex_of (take 6 (drop 10 u)))))))))

-- `strings.ReplaceAll(u, "-", "")`.
unfoldable pub strip_hyphens : List ℕ → List ℕ
strip_hyphens [] = []
strip_hyphens (c ∷ cs) = let rest = strip_hyphens cs in if c == b'-' then rest else c ∷ rest

-- A digit in either case, as `hex.DecodeString` reads it.
unfoldable pub hex_value : ℕ → Option ℕ
hex_value c =
    if leb b'0' c && leb c b'9'
    then some (c - b'0')
    else if leb b'a' c && leb c b'f'
    then some (c - b'a' + 10)
    else if leb b'A' c && leb c b'F'
    then some (c - b'A' + 10)
    else none

-- `hex.DecodeString`; none is its error.
unfoldable pub decode_hex : List ℕ → Option (List ℕ)
decode_hex [] = some []
decode_hex (c ∷ []) = none
decode_hex (c ∷ d ∷ cs) = elim (hex_value c) [
  | none ↦ none
  | some hi ↦ elim (hex_value d) [
    | none ↦ none
    | some lo ↦ elim (decode_hex cs) [ none ↦ none | some bs ↦ some ((hi * 16 + lo) ∷ bs) ]
  ]
]

-- `ToBytes`, and `Parse`, which copies its result.
unfoldable pub to_bytes : List ℕ → Option (List ℕ)
to_bytes u = let s = strip_hyphens u in if length s == 32 then decode_hex s else none

abbrev pub parse : List ℕ → Option (List ℕ)
parse s = to_bytes s

unfoldable pub is_zero_uuid : List ℕ → Bool
is_zero_uuid [] = true
is_zero_uuid (b ∷ bs) = b == 0 && is_zero_uuid bs

-- What a database hands to `Scan`, and what `Value` hands to it.
pub data Column : Type 0 where
  null other : Column
  blob : List ℕ → Column
  plain : List ℕ → Column

-- `UUID.Value`.
unfoldable pub value : List ℕ → Column
value u = if is_zero_uuid u then null else blob u

-- `UUID.Scan` into a UUID that holds `u`; none is an error.
unfoldable pub scan : Column → List ℕ → Option (List ℕ)
scan null u = some u
scan other u = none
scan (blob b) u = if length b == 16 then some b else none
scan (plain s) u = parse s

-- `(u[6] & 0x0f) | 0x70` and `(u[8] & 0x3f) | 0x80`, where `u[6:]` is the list.
unfoldable pub marked : List ℕ → List ℕ
marked (r ∷ s ∷ t ∷ rest) = (r % 16 + 0x70) ∷ s ∷ (t % 64 + 0x80) ∷ rest
marked short = short

-- `New`, at a time in milliseconds, with the ten random bytes.
unfoldable pub new_v7 : ℕ → List ℕ → List ℕ
new_v7 ms random =
    (ms / 2 ^ 40 % 256)
    ∷ (ms / 2 ^ 32 % 256)
    ∷ (ms / 2 ^ 24 % 256)
    ∷ (ms / 2 ^ 16 % 256)
    ∷ (ms / 2 ^ 8 % 256)
    ∷ (ms % 256)
    ∷ marked random
