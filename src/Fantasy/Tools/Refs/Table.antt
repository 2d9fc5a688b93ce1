-- ===== src/Fantasy/Tools/Refs/Table.antt =====
-- An input that is resolved stays so when more results are there.
use dragonscale.Prelude.{
  ℕ, inl, inr, ◌≡◌, List, [], ◌∷◌, some, Bool-cases, Option-cases, Sum-cases, List-cases, arith,
}
use dragonscale.Prelude.Text.{begins}
use dragonscale.Memory.Compress.{trim_space}
use dragonscale.Fantasy.Tools.{ToolResultContent}
use dragonscale.Fantasy.Tools.Json.{
  Value, null, boolean, number, text, array, object, Items, nil, cons, Fields, end, field, Json,
  trim_prefix, split_dots,
}
use dragonscale.Fantasy.Tools.Refs.{
  marker, Results, find_result, value_of_id, resolve_ref, rewrite_text, rewrite_refs, rewrite_items,
  rewrite_fields, encoded, resolve_input,
}

-- Every result of the first is there in the second.
abbrev pub Extends : Results → Results → Type 0
Extends t u =
    (id : List ℕ) (r : ToolResultContent) → find_result id t ≡ some r → find_result id u ≡ some r

module _ (json : Json) (t u : Results) (more : Extends t u) where
  value_more :
      (ref id : List ℕ) (path : List (List ℕ)) (v : Value)
      → value_of_id json ref id path t ≡ inr v
      → value_of_id json ref id path u ≡ inr v
  value_more ref [] path v h = cc
  value_more ref (c ∷ cs) path v h = elim (Option-cases (find_result (c ∷ cs) t)) [
    | inl e ↦ absurd (ground (arith, h, e))
    | inr (r, e) ↦ ground (arith, h, e, more (c ∷ cs) r e)
  ]

  text_more :
      (s : List ℕ) (v : Value) → rewrite_text json t s ≡ inr v → rewrite_text json u s ≡ inr v
  unfolding resolve_ref
  text_more s v h = elim (Bool-cases (begins marker (trim_space s))) [
    | inl e ↦
        let parts = split_dots (trim_prefix marker (trim_space (trim_space s))) in
        ground (arith, h, e, value_more (trim_space s) (trim_space parts.0) parts.1 v)
    | inr e ↦ ground (arith, h, e)
  ]

  mutual
    unfolding rewrite_refs rewrite_items rewrite_fields

    rewrite_more : (v w : Value) → rewrite_refs json t v ≡ inr w → rewrite_refs json u v ≡ inr w
    rewrite_more null w h = h
    rewrite_more (boolean b) w h = h
    rewrite_more (number n) w h = h
    rewrite_more (text s) w h = text_more s w h
    rewrite_more (array vs) w h = elim (Sum-cases (rewrite_items json t vs)) [
      | inl (e, p) ↦ absurd (ground (arith, h, p))
      | inr (ws, p) ↦ ground (arith, h, p, items_more vs ws p)
    ]
    rewrite_more (object fs) w h = elim (Sum-cases (rewrite_fields json t fs)) [
      | inl (e, p) ↦ absurd (ground (arith, h, p))
      | inr (gs, p) ↦ ground (arith, h, p, fields_more fs gs p)
    ]

    items_more :
        (vs ws : Items) → rewrite_items json t vs ≡ inr ws → rewrite_items json u vs ≡ inr ws
    items_more nil ws h = h
    items_more (cons v vs) ws h = elim (Sum-cases (rewrite_refs json t v)) [
      | inl (e, p) ↦ absurd (ground (arith, h, p))
      | inr (w, p) ↦ elim (Sum-cases (rewrite_items json t vs)) [
        | inl (e, q) ↦ absurd (ground (arith, h, p, q))
        | inr (xs, q) ↦ ground (arith, h, p, q, rewrite_more v w p, items_more vs xs q)
      ]
    ]

    fields_more :
        (fs gs : Fields) → rewrite_fields json t fs ≡ inr gs → rewrite_fields json u fs ≡ inr gs
    fields_more end gs h = h
    fields_more (field k v fs) gs h = elim (Sum-cases (rewrite_refs json t v)) [
      | inl (e, p) ↦ absurd (ground (arith, h, p))
      | inr (w, p) ↦ elim (Sum-cases (rewrite_fields json t fs)) [
        | inl (e, q) ↦ absurd (ground (arith, h, p, q))
        | inr (xs, q) ↦ ground (arith, h, p, q, rewrite_more v w p, fields_more fs xs q)
      ]
    ]

  encoded_more :
      (v : Value) (s : List ℕ)
      → encoded json (rewrite_refs json t v) ≡ inr s
      → encoded json (rewrite_refs json u v) ≡ inr s
  encoded_more v s h = elim (Sum-cases (rewrite_refs json t v)) [
    | inl (e, p) ↦ absurd (ground (arith, h, p))
    | inr (w, p) ↦ ground (arith, h, p, rewrite_more v w p)
  ]

  -- An input that the first results resolve, the second resolve to the same.
  pub resolve_input_more :
      (input s : List ℕ) → resolve_input json t input ≡ inr s → resolve_input json u input ≡ inr s
  unfolding resolve_input
  resolve_input_more input s h = elim (List-cases (trim_space input)) [
    | inl e ↦ ground (arith, h, e)
    | inr (c, cs, e) ↦ elim (Option-cases (json.unmarshal (c ∷ cs))) [
      | inl p ↦ ground (arith, h, e, p)
      | inr (v, p) ↦ ground (arith, h, e, p, encoded_more v s)
    ]
  ]
