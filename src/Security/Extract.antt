-- ===== src/Security/Extract.antt =====
-- `ExtractJSON` of pkg/security/jsonextract.go. A text is its bytes. What is used of the package
-- strings beside searching, and the decoder, are parameters; a slice past the end is a panic.
pub mod Parts
use dragonscale.Prelude.{
  ℕ, zero, suc, ◌+◌, ◌-◌, Bool, true, false, ◌&&◌, ◌||◌, not, List, [], ◌∷◌, Option, none, some,
  length, take, drop, ltb, ◌==◌, if◌then◌else◌,
}
use dragonscale.Prelude.Int.{ℤ, pos, negsuc}
use dragonscale.Prelude.Text.{begins, codes}
use dragonscale.Rlm.Strategy.{Strings}

-- `strings.Index`.
unfoldable pub index : List ℕ → List ℕ → Option ℕ
index [] p = if begins p [] then some 0 else none
index (c ∷ cs) p =
    let rest = index cs p in
    if begins p (c ∷ cs) then some 0 else elim rest [ none ↦ none | some i ↦ some (suc i) ]

abbrev pub first_is : ℕ → List ℕ → Bool
first_is b [] = false
first_is b (c ∷ cs) = c == b

abbrev pub last_is : ℕ → List ℕ → Bool
last_is b [] = false
last_is b (c ∷ []) = c == b
last_is b (c ∷ d ∷ cs) = last_is b (d ∷ cs)

abbrev pub enclosed : List ℕ → Bool
enclosed s =
    not (ltb (length s) 2)
    && ((first_is b'{' s && last_is b'}' s) || (first_is b'[' s && last_is b']' s))

-- `isJSON`.
abbrev pub is_json : Strings → List ℕ → Bool
is_json strings s = enclosed (strings.trim_space s)

-- What a marker gives: nothing, a panic, or what stands between it and the closing fence.
pub data Fence : Type 0 where
  no_fence : Fence
  past_end : Fence
  fenced : List ℕ → Fence

-- The body of the loop over the markers. The index is one of the lowered text.
unfoldable pub fence_after : Strings → List ℕ → List ℕ → Fence
fence_after strings text marker = elim (index (strings.to_lower text) marker) [
  | none ↦ no_fence
  | some i ↦
      let start = i + length marker in
      let behind = drop start text in
      if ltb (length text) start then past_end else elim (index behind (codes "```")) [
        | none ↦ no_fence
        | some e ↦ fenced (strings.trim_space (take e behind))
      ]
]

abbrev pub or_else : Fence → Fence → Fence
or_else no_fence second = second
or_else past_end second = past_end
or_else (fenced s) second = fenced s

-- `extractFromCodeFence`.
unfoldable pub extract_from_code_fence : Strings → List ℕ → Fence
extract_from_code_fence strings text =
    or_else (fence_after strings text (codes "```json")) (fence_after strings text (codes "```"))

-- The loop of `extractFirstBraced`: how many bytes there are up to the brace that closes the first.
unfoldable pub scan_braces : ℕ → Bool → Bool → List ℕ → Option ℕ
scan_braces depth in_string escaped [] = none
scan_braces depth in_string escaped (c ∷ cs) =
    let count : Option ℕ → Option ℕ = λ n. elim n [ none ↦ none | some k ↦ some (suc k) ] in
    elim escaped [
      | true ↦ count (scan_braces depth in_string false cs)
      | false ↦ elim (c == b'\\' && in_string) [
        | true ↦ count (scan_braces depth in_string true cs)
        | false ↦ elim (c == b'"') [
          | true ↦ count (scan_braces depth (not in_string) false cs)
          | false ↦ elim in_string [
            | true ↦ count (scan_braces depth true false cs)
            | false ↦ elim (c == b'{') [
              | true ↦ count (scan_braces (suc depth) false false cs)
              | false ↦ elim (c == b'}') [
                | false ↦ count (scan_braces depth false false cs)
                | true ↦ elim (depth - 1 == 0) [
                  | true ↦ some 1
                  | false ↦ count (scan_braces (depth - 1) false false cs)
                ]
              ]
            ]
          ]
        ]
      ]
    ]

-- `extractFirstBraced`.
unfoldable pub extract_first_braced : List ℕ → List ℕ
extract_first_braced text = elim (index text (codes "{")) [
  | none ↦ []
  | some start ↦ elim (scan_braces 0 false false (drop start text)) [
    | none ↦ []
    | some n ↦ take n (drop start text)
  ]
]

abbrev pub braced_json : Strings → List ℕ → List ℕ
braced_json strings text =
    let extracted = extract_first_braced text in if is_json strings extracted then extracted else []

abbrev pub fenced_json : Strings → List ℕ → Fence → Option (List ℕ)
fenced_json strings text no_fence = some (braced_json strings text)
fenced_json strings text past_end = none
fenced_json strings text (fenced s) =
    some (if is_json strings s then s else braced_json strings text)

-- `extractJSONString`; none is a panic. An empty text is no JSON, so it is not tested for.
unfoldable pub extract_json_string : Strings → List ℕ → Option (List ℕ)
extract_json_string strings text =
    let trimmed = strings.trim_space text in
    if is_json strings trimmed
    then some trimmed
    else fenced_json strings trimmed (extract_from_code_fence strings trimmed)

pub record ExtractJsonOptions : Type 0 where
  pub max_input_bytes : ℤ
  pub disallow_unknown_fields : Bool

abbrev pub max_bytes : ℤ → ℕ
max_bytes (pos zero) = 65536
max_bytes (pos (suc n)) = suc n
max_bytes (negsuc n) = 65536

pub data Extraction (D : Type 0) : Type 0 where
  too_large : ℕ → ℕ → Extraction D
  no_json : Extraction D
  not_decoded : Extraction D
  decoded : D → Extraction D
  panicked : Extraction D

-- `ExtractJSON`, over the decoder with its option.
unfoldable pub extract_json :
    {D : Type 0} → Strings → (Bool → List ℕ → Option D) → ExtractJsonOptions → List ℕ → Extraction D
extract_json strings unmarshal options text =
    if ltb (max_bytes options.max_input_bytes) (length text)
    then too_large (length text) (max_bytes options.max_input_bytes)
    else elim (extract_json_string strings text) [
      | none ↦ panicked
      | some [] ↦ no_json
      | some (c ∷ cs) ↦ elim (unmarshal options.disallow_unknown_fields (c ∷ cs)) [
        | none ↦ not_decoded
        | some d ↦ decoded d
      ]
    ]
