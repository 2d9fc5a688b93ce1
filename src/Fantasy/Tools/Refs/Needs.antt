-- ===== src/Fantasy/Tools/Refs/Needs.antt =====
-- The ids that tool_dag.go reads out of an input are those that tool_runtime_dag.go looks up.
use dragonscale.Prelude.{
  ℕ, inl, inr, ◌≡◌, refl, sym, ap, ◌∙◌, subst, List, [], ◌∷◌, ◌++◌, none, Bool-cases, Option-cases,
  Sum-cases, List-cases, arith, Memᴰ, Mem-append, Mem-append_right, ◌==◌,
}
use dragonscale.Prelude.Text.{begins, is_space}
use dragonscale.Memory.Compress.{trim_left, trim_right, trim_space}
use dragonscale.Prelude.Int.{pos, negsuc}
use dragonscale.Fantasy.Tools.Json.{
  Value, null, boolean, number, text, array, object, Items, nil, cons, Fields, end, field, Json,
  trim_prefix, split_dots, find_field, item_at, atoi,
}
use dragonscale.Fantasy.Tools.Refs.{
  output_text, marker, before_dot, non_empty, ref_ids, walk, walk_items, walk_fields,
  extract_tool_dependencies, not_available, Results, find_result, value_of_id, ref_value, follow,
  segment, step_into, resolve_ref, rewrite_text, rewrite_refs, rewrite_items, rewrite_fields,
  encoded, resolve_input,
}

trim_left_once : (s : List ℕ) → trim_left (trim_space s) ≡ trim_space s
unfolding trim_left trim_right
trim_left_once [] = refl
trim_left_once (c ∷ cs) = elim (Bool-cases (is_space c)) [
  | inl e ↦ ground (arith, e, trim_left_once cs)
  | inr e ↦ elim (List-cases (trim_right cs)) [
    | inl p ↦ ground (arith, e, p)
    | inr (d, ds, p) ↦ ground (arith, e, p)
  ]
]

trim_right_once : (s : List ℕ) → trim_right (trim_right s) ≡ trim_right s
unfolding trim_right
trim_right_once [] = refl
trim_right_once (c ∷ cs) = elim (List-cases (trim_right cs)) [
  | inl p ↦ elim (Bool-cases (is_space c)) [
    | inl e ↦ ground (arith, e, p)
    | inr e ↦ ground (arith, e, p)
  ]
  | inr (d, ds, p) ↦ ground (arith, p, trim_right_once cs)
]

pub trim_space_once : (s : List ℕ) → trim_space (trim_space s) ≡ trim_space s
trim_space_once s = ap trim_right (trim_left_once s) ∙ trim_right_once (trim_left s)

split-before_dot : (s : List ℕ) → (split_dots s).0 ≡ before_dot s
unfolding split_dots
split-before_dot [] = refl
split-before_dot (c ∷ cs) = elim (Bool-cases (c == b'.')) [
  | inl e ↦ rw (e) refl
  | inr e ↦ rw (e) (ap (◌∷◌ c) (split-before_dot cs))
]

-- One of the ids has no result.
abbrev pub Lacks : Results → List (List ℕ) → Type 0
Lacks t ids = (id : List ℕ) × Memᴰ id ids × (find_result id t ≡ none)

Lacks-left : (t : Results) (ids js : List (List ℕ)) → Lacks t ids → Lacks t (ids ++ js)
Lacks-left t ids js (id, m, e) = (id, Mem-append ids js m, e)

Lacks-right : (t : Results) (ids js : List (List ℕ)) → Lacks t js → Lacks t (ids ++ js)
Lacks-right t ids js (id, m, e) = (id, Mem-append_right ids js m, e)

step_available : (ref seg r : List ℕ) (v : Value) → step_into ref seg v ≡ inl (not_available r) → ⊥
step_available ref seg r null h = cc
step_available ref seg r (boolean b) h = cc
step_available ref seg r (number n) h = cc
step_available ref seg r (text s) h = cc
step_available ref seg r (array vs) h = elim (Option-cases (atoi seg)) [
  | inl e ↦ ground (arith, h, e)
  | inr (pos i, e) ↦ elim (Option-cases (item_at i vs)) [
    | inl p ↦ ground (arith, h, e, p)
    | inr (v, p) ↦ ground (arith, h, e, p)
  ]
  | inr (negsuc i, e) ↦ ground (arith, h, e)
]
step_available ref seg r (object fs) h = elim (Option-cases (find_field seg fs)) [
  | inl e ↦ ground (arith, h, e)
  | inr (v, e) ↦ ground (arith, h, e)
]

segment_available : (ref seg r : List ℕ) (v : Value) → segment ref seg v ≡ inl (not_available r) → ⊥
segment_available ref [] r v h = cc
segment_available ref (c ∷ cs) r v h = step_available ref (c ∷ cs) r v h

follow_available :
    (ref r : List ℕ) (segs : List (List ℕ)) (v : Value)
    → follow ref segs v ≡ inl (not_available r)
    → ⊥
unfolding follow
follow_available ref r [] v h = cc
follow_available ref r (seg ∷ segs) v h = elim (Sum-cases (segment ref (trim_space seg) v)) [
  | inl (e, p) ↦ segment_available ref (trim_space seg) r v (p ∙ ground (arith, h, p))
  | inr (w, p) ↦ follow_available ref r segs w (ground (arith, h, p))
]

value_available :
    (json : Json) (ref r : List ℕ) (path : List (List ℕ)) (base : List ℕ)
    → ref_value json ref path base ≡ inl (not_available r)
    → ⊥
value_available json ref r [] base h = cc
value_available json ref r (p ∷ ps) base h = elim (Option-cases (json.unmarshal base)) [
  | inl e ↦ ground (arith, h, e)
  | inr (v, e) ↦ follow_available ref r (p ∷ ps) v (ground (arith, h, e))
]

module _ (json : Json) (t : Results) (r : List ℕ) where
  value-Lacks :
      (ref id : List ℕ) (path : List (List ℕ))
      → value_of_id json ref id path t ≡ inl (not_available r)
      → Lacks t (non_empty id)
  value-Lacks ref [] path h = cc
  value-Lacks ref (c ∷ cs) path h = elim (Option-cases (find_result (c ∷ cs) t)) [
    | inl e ↦ (c ∷ cs, Memᴰ.head refl, e)
    | inr (x, e) ↦
        absurd (value_available json ref r path (output_text x.result) (ground (arith, h, e)))
  ]

  text-Lacks : (s : List ℕ) → rewrite_text json t s ≡ inl (not_available r) → Lacks t (ref_ids s)
  unfolding ref_ids resolve_ref
  text-Lacks s h = elim (Bool-cases (begins marker (trim_space s))) [
    | inl e ↦
        let parts = split_dots (trim_prefix marker (trim_space (trim_space s))) in
        let same : parts.0 ≡ before_dot (trim_prefix marker (trim_space s)) =
          split-before_dot _ ∙ ap (λ l. before_dot (trim_prefix marker l)) (trim_space_once s) in
        let ids : ref_ids s ≡ non_empty (trim_space parts.0) = rw (same, e) refl in
        subst (Lacks t) (sym ids)
          (value-Lacks (trim_space s) (trim_space parts.0) parts.1 (ground (arith, h, e)))
    | inr e ↦ absurd (ground (arith, h, e))
  ]

  mutual
    unfolding rewrite_refs rewrite_items rewrite_fields walk walk_items walk_fields

    rewrite-Lacks : (v : Value) → rewrite_refs json t v ≡ inl (not_available r) → Lacks t (walk v)
    rewrite-Lacks null h = cc
    rewrite-Lacks (boolean b) h = cc
    rewrite-Lacks (number n) h = cc
    rewrite-Lacks (text s) h = text-Lacks s h
    rewrite-Lacks (array vs) h = elim (Sum-cases (rewrite_items json t vs)) [
      | inl (e, p) ↦ items-Lacks vs (p ∙ ground (arith, h, p))
      | inr (ws, p) ↦ absurd (ground (arith, h, p))
    ]
    rewrite-Lacks (object fs) h = elim (Sum-cases (rewrite_fields json t fs)) [
      | inl (e, p) ↦ fields-Lacks fs (p ∙ ground (arith, h, p))
      | inr (ws, p) ↦ absurd (ground (arith, h, p))
    ]

    items-Lacks :
        (vs : Items) → rewrite_items json t vs ≡ inl (not_available r) → Lacks t (walk_items vs)
    items-Lacks nil h = cc
    items-Lacks (cons v vs) h = elim (Sum-cases (rewrite_refs json t v)) [
      | inl (e, p) ↦
          Lacks-left t (walk v) (walk_items vs) (rewrite-Lacks v (p ∙ ground (arith, h, p)))
      | inr (w, p) ↦ elim (Sum-cases (rewrite_items json t vs)) [
        | inl (e, q) ↦
            Lacks-right t (walk v) (walk_items vs) (items-Lacks vs (q ∙ ground (arith, h, p, q)))
        | inr (ws, q) ↦ absurd (ground (arith, h, p, q))
      ]
    ]

    fields-Lacks :
        (fs : Fields) → rewrite_fields json t fs ≡ inl (not_available r) → Lacks t (walk_fields fs)
    fields-Lacks end h = cc
    fields-Lacks (field k v fs) h = elim (Sum-cases (rewrite_refs json t v)) [
      | inl (e, p) ↦
          Lacks-left t (walk v) (walk_fields fs) (rewrite-Lacks v (p ∙ ground (arith, h, p)))
      | inr (w, p) ↦ elim (Sum-cases (rewrite_fields json t fs)) [
        | inl (e, q) ↦
            Lacks-right t (walk v) (walk_fields fs) (fields-Lacks fs (q ∙ ground (arith, h, p, q)))
        | inr (ws, q) ↦ absurd (ground (arith, h, p, q))
      ]
    ]

  encoded-Lacks :
      (v : Value) → encoded json (rewrite_refs json t v) ≡ inl (not_available r) → Lacks t (walk v)
  encoded-Lacks v h = elim (Sum-cases (rewrite_refs json t v)) [
    | inl (e, p) ↦ rewrite-Lacks v (p ∙ ground (arith, h, p))
    | inr (w, p) ↦ elim (Option-cases (json.marshal w)) [
      | inl q ↦ absurd (ground (arith, h, p, q))
      | inr (s, q) ↦ absurd (ground (arith, h, p, q))
    ]
  ]

  -- When a result is not there to resolve an input, it is that of an id that is read out of the
  -- input.
  pub resolve_input-Lacks :
      (input : List ℕ)
      → resolve_input json t input ≡ inl (not_available r)
      → Lacks t (extract_tool_dependencies json input)
  unfolding resolve_input extract_tool_dependencies
  resolve_input-Lacks input h = elim (List-cases (trim_space input)) [
    | inl e ↦ absurd (ground (arith, h, e))
    | inr (c, cs, e) ↦ elim (Option-cases (json.unmarshal (c ∷ cs))) [
      | inl p ↦ absurd (ground (arith, h, e, p))
      | inr (v, p) ↦
          let ids : extract_tool_dependencies json input ≡ walk v = ground (arith, e, p) in
          subst (Lacks t) (sym ids) (encoded-Lacks v (ground (arith, h, e, p)))
    ]
  ]
