-- ===== src/Fantasy/Tools/Refs/Ids.antt =====
-- The ids that tool_dag.go reads out of an input are trimmed, and not empty.
use dragonscale.Prelude.{
  ℕ, inl, inr, ◌≡◌, ◌≢◌, refl, sym, ap, ◌∙◌, List, [], ◌∷◌, Bool-cases, Option-cases, List-cases,
  arith, Memᴰ, Mem-cons, Mem-append_cases, subst,
}
use dragonscale.Prelude.Text.{begins}
use dragonscale.Memory.Compress.{trim_space}
use dragonscale.Fantasy.Tools.Json.{
  Value, null, boolean, number, text, array, object, Items, nil, cons, Fields, end, field, Json,
  trim_prefix,
}
use dragonscale.Fantasy.Tools.Refs.{
  marker, before_dot, non_empty, ref_ids, walk, walk_items, walk_fields, extract_tool_dependencies,
}
use dragonscale.Fantasy.Tools.Refs.Needs.{trim_space_once}

abbrev pub IsId : List ℕ → Type 0
IsId id = (trim_space id ≡ id) × (id ≢ [])

ref_ids-IsId : (s id : List ℕ) → Memᴰ id (ref_ids s) → IsId id
unfolding ref_ids
ref_ids-IsId s id m = elim (Bool-cases (begins marker (trim_space s))) [
  | inr e ↦ let ids : ref_ids s ≡ [] = ground (arith, e) in absurd (nothing (subst (Memᴰ id) ids m))
  | inl e ↦
      let inner = before_dot (trim_prefix marker (trim_space s)) in
      let ids : ref_ids s ≡ non_empty (trim_space inner) = rw (e) refl in
      single (trim_space inner) (trim_space_once inner) (subst (Memᴰ id) ids m)
]
  where
    nothing : Memᴰ id [] → ⊥
    nothing n = elim n [ ]

    single : (i : List ℕ) → trim_space i ≡ i → Memᴰ id (non_empty i) → IsId id
    single [] t n = elim n [ ]
    single (c ∷ cs) t n = elim (Mem-cons n) [
      | inl p ↦ (ap trim_space p ∙ t ∙ sym p, λ q. cons_nil (sym p ∙ q))
      | inr o ↦ absurd (nothing o)
    ]
      where
        cons_nil : c ∷ cs ≡ [] → ⊥
        cons_nil q = cc

mutual
  unfolding walk walk_items walk_fields

  walk-IsId : (v : Value) (id : List ℕ) → Memᴰ id (walk v) → IsId id
  walk-IsId null id m = elim m [ ]
  walk-IsId (boolean b) id m = elim m [ ]
  walk-IsId (number n) id m = elim m [ ]
  walk-IsId (text s) id m = ref_ids-IsId s id m
  walk-IsId (array vs) id m = items-IsId vs id m
  walk-IsId (object fs) id m = fields-IsId fs id m

  items-IsId : (vs : Items) (id : List ℕ) → Memᴰ id (walk_items vs) → IsId id
  items-IsId nil id m = elim m [ ]
  items-IsId (cons v vs) id m = elim (Mem-append_cases (walk v) (walk_items vs) m) [
    | inl a ↦ walk-IsId v id a
    | inr b ↦ items-IsId vs id b
  ]

  fields-IsId : (fs : Fields) (id : List ℕ) → Memᴰ id (walk_fields fs) → IsId id
  fields-IsId end id m = elim m [ ]
  fields-IsId (field k v fs) id m = elim (Mem-append_cases (walk v) (walk_fields fs) m) [
    | inl a ↦ walk-IsId v id a
    | inr b ↦ fields-IsId fs id b
  ]

pub extract-IsId :
    (json : Json) (input id : List ℕ) → Memᴰ id (extract_tool_dependencies json input) → IsId id
unfolding extract_tool_dependencies
extract-IsId json input id m = elim (List-cases (trim_space input)) [
  | inl e ↦
      let ids : extract_tool_dependencies json input ≡ [] = ground (arith, e) in
      elim (subst (Memᴰ id) ids m) [ ]
  | inr (c, cs, e) ↦ elim (Option-cases (json.unmarshal (c ∷ cs))) [
    | inl f ↦
        let ids : extract_tool_dependencies json input ≡ [] = ground (arith, e, f) in
        elim (subst (Memᴰ id) ids m) [ ]
    | inr (v, f) ↦
        let ids : extract_tool_dependencies json input ≡ walk v = ground (arith, e, f) in
        walk-IsId v id (subst (Memᴰ id) ids m)
  ]
]
