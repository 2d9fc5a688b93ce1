-- ===== src/Fantasy/Tools/Refs.antt =====
-- The references `$tool.<id>` in the input of a call: what tool_dag.go reads out of them, and what
-- tool_runtime_dag.go puts in their place.
pub mod Table
pub mod Replaced
pub mod Rewrites
pub mod Needs
pub mod Ids
use dragonscale.Prelude.{
  ℕ, zero, suc, ◌⊎◌, inl, inr, Bool, true, false, List, [], ◌∷◌, ◌++◌, Option, none, some, ite,
  length, drop, ◌==◌, if◌then◌else◌,
}
use dragonscale.Prelude.Int.{ℤ, pos, negsuc}
use dragonscale.Prelude.Text.{begins, codes, codes_eq}
use dragonscale.Memory.Compress.{trim_space}
use dragonscale.Fantasy.Tools.{
  ToolResultOutput, no_output, text_output, error_output, media_output, ToolResultContent,
}
use dragonscale.Fantasy.Tools.Json.{
  Value, null, boolean, number, text, array, object, Items, nil, cons, Fields, end, field, Json,
  find_field, item_at, trim_prefix, split_dots, atoi,
}

abbrev pub marker : List ℕ
marker = codes "$tool."

-- What stands before the first dot, or all of it.
abbrev pub before_dot : List ℕ → List ℕ
before_dot [] = []
before_dot (c ∷ cs) = let rest = before_dot cs in if c == b'.' then [] else c ∷ rest

abbrev pub non_empty : List ℕ → List (List ℕ)
non_empty [] = []
non_empty (c ∷ cs) = (c ∷ cs) ∷ []

-- `extractToolRefIDsFromString`.
unfoldable pub ref_ids : List ℕ → List (List ℕ)
ref_ids s =
    let t = trim_space s in
    if begins marker t then non_empty (trim_space (before_dot (trim_prefix marker t))) else []

-- `walkJSON`, with the visitor of `extractToolDependencies`.
unfoldable mutual
  pub walk : Value → List (List ℕ)
  walk null = []
  walk (boolean b) = []
  walk (number n) = []
  walk (text s) = ref_ids s
  walk (array vs) = walk_items vs
  walk (object fs) = walk_fields fs

  pub walk_items : Items → List (List ℕ)
  walk_items nil = []
  walk_items (cons v vs) = walk v ++ walk_items vs

  pub walk_fields : Fields → List (List ℕ)
  walk_fields end = []
  walk_fields (field k v fs) = walk v ++ walk_fields fs

-- `extractToolDependencies`, whose error is always nil.
unfoldable pub extract_tool_dependencies : Json → List ℕ → List (List ℕ)
extract_tool_dependencies json input = elim (trim_space input) [
  | [] ↦ []
  | c ∷ cs ↦ elim (json.unmarshal (c ∷ cs)) [ none ↦ [] | some v ↦ walk v ]
]

-- The errors of `resolveToolRefValue`, by what they say.
pub data RefError : Type 0 where
  invalid_ref : List ℕ → RefError
  not_available : List ℕ → RefError
  non_json : List ℕ → RefError
  invalid_path : List ℕ → RefError
  missing_key : List ℕ → List ℕ → RefError
  not_an_int : List ℕ → List ℕ → RefError
  out_of_range : List ℕ → ℤ → RefError
  non_container : List ℕ → List ℕ → RefError
  not_encoded : RefError

-- The results that are there, by the id of the call.
abbrev pub Results : Type 0
Results = List (List ℕ × ToolResultContent)

unfoldable pub find_result : List ℕ → Results → Option ToolResultContent
find_result id [] = none
find_result id (entry ∷ rest) =
    let later = find_result id rest in ite (codes_eq entry.0 id) (some entry.1) later

-- `base`.
abbrev pub output_text : ToolResultOutput → List ℕ
output_text no_output = codes "<nil>"
output_text (text_output s) = s
output_text (error_output none) = []
output_text (error_output (some e)) = e
output_text (media_output d kind []) = d
output_text (media_output d kind (c ∷ cs)) = c ∷ cs

-- One segment of a path.
abbrev pub item_or_error : List ℕ → ℕ → Option Value → RefError ⊎ Value
item_or_error ref i none = inl (out_of_range ref (pos i))
item_or_error ref i (some v) = inr v

abbrev pub at_index : List ℕ → List ℕ → Option ℤ → Items → RefError ⊎ Value
at_index ref seg none vs = inl (not_an_int ref seg)
at_index ref seg (some (negsuc n)) vs = inl (out_of_range ref (negsuc n))
at_index ref seg (some (pos i)) vs = item_or_error ref i (item_at i vs)

abbrev pub step_into : List ℕ → List ℕ → Value → RefError ⊎ Value
step_into ref seg (object fs) = elim (find_field seg fs) [
  | none ↦ inl (missing_key ref seg)
  | some v ↦ inr v
]
step_into ref seg (array vs) = at_index ref seg (atoi seg) vs
step_into ref seg _ = inl (non_container ref seg)

abbrev pub segment : List ℕ → List ℕ → Value → RefError ⊎ Value
segment ref [] cur = inl (invalid_path ref)
segment ref (c ∷ cs) cur = step_into ref (c ∷ cs) cur

-- The loop over `parts[1:]`.
unfoldable pub follow : List ℕ → List (List ℕ) → Value → RefError ⊎ Value
follow ref [] cur = inr cur
follow ref (seg ∷ segs) cur = elim (segment ref (trim_space seg) cur) [
  | inl e ↦ inl e
  | inr next ↦ follow ref segs next
]

abbrev pub ref_value : Json → List ℕ → List (List ℕ) → List ℕ → RefError ⊎ Value
ref_value json ref [] base = inr (text base)
ref_value json ref (p ∷ ps) base = elim (json.unmarshal base) [
  | none ↦ inl (non_json ref)
  | some cur ↦ follow ref (p ∷ ps) cur
]

abbrev pub value_of_id : Json → List ℕ → List ℕ → List (List ℕ) → Results → RefError ⊎ Value
value_of_id json ref [] path results = inl (invalid_ref ref)
value_of_id json ref (c ∷ cs) path results = elim (find_result (c ∷ cs) results) [
  | none ↦ inl (not_available ref)
  | some r ↦ ref_value json ref path (output_text r.result)
]

-- `resolveToolRefValue`. Nothing behind the marker is one part that is empty.
unfoldable pub resolve_ref : Json → List ℕ → Results → RefError ⊎ Value
resolve_ref json ref results =
    let (first, path) = split_dots (trim_prefix marker (trim_space ref)) in
    value_of_id json ref (trim_space first) path results

-- `rewriteJSONToolRefs`.
abbrev pub rewrite_text : Json → Results → List ℕ → RefError ⊎ Value
rewrite_text json results s =
    let t = trim_space s in if begins marker t then resolve_ref json t results else inr (text s)

unfoldable mutual
  pub rewrite_refs : Json → Results → Value → RefError ⊎ Value
  rewrite_refs json results null = inr null
  rewrite_refs json results (boolean b) = inr (boolean b)
  rewrite_refs json results (number n) = inr (number n)
  rewrite_refs json results (text s) = rewrite_text json results s
  rewrite_refs json results (array vs) = elim (rewrite_items json results vs) [
    | inl e ↦ inl e
    | inr out ↦ inr (array out)
  ]
  rewrite_refs json results (object fs) = elim (rewrite_fields json results fs) [
    | inl e ↦ inl e
    | inr out ↦ inr (object out)
  ]

  pub rewrite_items : Json → Results → Items → RefError ⊎ Items
  rewrite_items json results nil = inr nil
  rewrite_items json results (cons v vs) = elim (rewrite_refs json results v) [
    | inl e ↦ inl e
    | inr w ↦ elim (rewrite_items json results vs) [ inl e ↦ inl e | inr ws ↦ inr (cons w ws) ]
  ]

  pub rewrite_fields : Json → Results → Fields → RefError ⊎ Fields
  rewrite_fields json results end = inr end
  rewrite_fields json results (field k v fs) = elim (rewrite_refs json results v) [
    | inl e ↦ inl e
    | inr w ↦ elim (rewrite_fields json results fs) [ inl e ↦ inl e | inr gs ↦ inr (field k w gs) ]
  ]

abbrev pub encoded : Json → RefError ⊎ Value → RefError ⊎ List ℕ
encoded json (inl e) = inl e
encoded json (inr v) = elim (json.marshal v) [ none ↦ inl not_encoded | some s ↦ inr s ]

-- `resolveToolRefsInInput`.
unfoldable pub resolve_input : Json → Results → List ℕ → RefError ⊎ List ℕ
resolve_input json results input = elim (trim_space input) [
  | [] ↦ inr []
  | c ∷ cs ↦ elim (json.unmarshal (c ∷ cs)) [
    | none ↦ inr (c ∷ cs)
    | some v ↦ encoded json (rewrite_refs json results v)
  ]
]
