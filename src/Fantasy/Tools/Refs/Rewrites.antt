-- ===== src/Fantasy/Tools/Refs/Rewrites.antt =====
-- `resolveToolRefsInInput` of tool_runtime_dag.go gives an input with its references replaced, and
-- nothing else.
use dragonscale.Prelude.{
  ℕ, inl, inr, ◌≡◌, refl, ap, ◌∙◌, subst, List, [], ◌∷◌, some, Bool-cases, Option-cases, Sum-cases,
  List-cases, arith,
}
use dragonscale.Prelude.Int.{pos, negsuc}
use dragonscale.Prelude.Text.{begins}
use dragonscale.Memory.Compress.{trim_space}
use dragonscale.Fantasy.Tools.Json.{
  Value, null, boolean, number, text, array, object, Items, nil, cons, Fields, end, field, Json,
  find_field, item_at, atoi, trim_prefix, split_dots,
}
use dragonscale.Fantasy.Tools.Refs.{
  marker, Results, find_result, output_text, step_into, follow, ref_value, resolve_ref,
  rewrite_text, rewrite_refs, rewrite_items, rewrite_fields, resolve_input,
}
use dragonscale.Fantasy.Tools.Refs.Replaced.{
  Leads, here, by_key, by_index, Part, whole, inside, Stands, Replaced, is_null, is_boolean,
  is_number, no_reference, reference, items, fields, AllReplaced, no_item, item, FieldsReplaced,
  no_field, one_field, Resolved, blank, no_json, replaced,
}

segment-Leads :
    (ref seg : List ℕ) (c : ℕ) (cs : List ℕ) (segs : List (List ℕ)) (v next w : Value)
    → trim_space seg ≡ c ∷ cs
    → step_into ref (c ∷ cs) v ≡ inr next
    → Leads segs next w
    → Leads (seg ∷ segs) v w
segment-Leads ref seg c cs segs (object fs) next w e h rest =
    elim (Option-cases (find_field (c ∷ cs) fs)) [
      | inl f ↦ absurd (ground (arith, h, f))
      | inr (v, f) ↦
          let same : next ≡ v = ground (arith, h, f) in
          by_key seg c cs v e f (subst (λ x. Leads segs x w) same rest)
    ]
segment-Leads ref seg c cs segs (array vs) next w e h rest = elim (Option-cases (atoi (c ∷ cs))) [
  | inl f ↦ absurd (ground (arith, h, f))
  | inr (negsuc i, f) ↦ absurd (ground (arith, h, f))
  | inr (pos i, f) ↦ elim (Option-cases (item_at i vs)) [
    | inl g ↦ absurd (ground (arith, h, f, g))
    | inr (v, g) ↦
        let same : next ≡ v = ground (arith, h, f, g) in
        by_index seg c cs i v e f g (subst (λ x. Leads segs x w) same rest)
  ]
]
segment-Leads ref seg c cs segs null next w e h rest = absurd (ground (arith, h))
segment-Leads ref seg c cs segs (boolean b) next w e h rest = absurd (ground (arith, h))
segment-Leads ref seg c cs segs (number n) next w e h rest = absurd (ground (arith, h))
segment-Leads ref seg c cs segs (text t) next w e h rest = absurd (ground (arith, h))

follow-Leads :
    (ref : List ℕ) (segs : List (List ℕ)) (v w : Value) → follow ref segs v ≡ inr w → Leads segs v w
unfolding follow
follow-Leads ref [] v w h = let same : v ≡ w = ground (arith, h) in subst (Leads [] v) same here
follow-Leads ref (seg ∷ segs) v w h = elim (List-cases (trim_space seg)) [
  | inl e ↦ absurd (ground (arith, h, e))
  | inr (c, cs, e) ↦ elim (Sum-cases (step_into ref (c ∷ cs) v)) [
    | inl (x, f) ↦ absurd (ground (arith, h, e, f))
    | inr (next, f) ↦
        segment-Leads ref seg c cs segs v next w e f
          (follow-Leads ref segs next w (ground (arith, h, e, f)))
  ]
]

Leads-follow :
    (ref : List ℕ) {segs : List (List ℕ)} {v w : Value} → Leads segs v w → follow ref segs v ≡ inr w
unfolding follow
Leads-follow ref here = refl
Leads-follow ref (by_key seg c cs v e f rest) = ground (arith, e, f, Leads-follow ref rest)
Leads-follow ref (by_index seg c cs i v e f g rest) = ground (arith, e, f, g, Leads-follow ref rest)

module _ (json : Json) (t : Results) where
  ref_value-Part :
      (ref : List ℕ) (path : List (List ℕ)) (base : List ℕ) (w : Value)
      → ref_value json ref path base ≡ inr w
      → Part json t path base w
  ref_value-Part ref [] base w h =
      let same : text base ≡ w = ground (arith, h) in subst (Part json t [] base) same whole
  ref_value-Part ref (p ∷ ps) base w h = elim (Option-cases (json.unmarshal base)) [
    | inl e ↦ absurd (ground (arith, h, e))
    | inr (v, e) ↦ inside v e (follow-Leads ref (p ∷ ps) v w (ground (arith, h, e)))
  ]

  Part-ref_value :
      (ref : List ℕ) {path : List (List ℕ)} {base : List ℕ} {w : Value}
      → Part json t path base w
      → ref_value json ref path base ≡ inr w
  Part-ref_value ref whole = refl
  Part-ref_value ref (inside v e l) = ground (arith, e, Leads-follow ref l)

  resolve_ref-Stands :
      (ref : List ℕ) (w : Value) → resolve_ref json ref t ≡ inr w → Stands json t ref w
  unfolding resolve_ref
  resolve_ref-Stands ref w h =
      let parts = split_dots (trim_prefix marker (trim_space ref)) in
      elim (List-cases (trim_space parts.0)) [
        | inl e ↦ absurd (ground (arith, h, e))
        | inr (c, cs, e) ↦ elim (Option-cases (find_result (c ∷ cs) t)) [
          | inl f ↦ absurd (ground (arith, h, e, f))
          | inr (r, f) ↦ record {
            first = c;
            others = cs;
            id = e;
            result = r;
            there = f;
            part = ref_value-Part ref parts.1 (output_text r.result) w (ground (arith, h, e, f));
          }
        ]
      ]

  Stands-resolve_ref :
      (ref : List ℕ) (w : Value) → Stands json t ref w → resolve_ref json ref t ≡ inr w
  unfolding resolve_ref
  Stands-resolve_ref ref w s = ground (arith, s.id, s.there, Part-ref_value ref s.part)

  rewrite_text-Replaced :
      (s : List ℕ) (w : Value) → rewrite_text json t s ≡ inr w → Replaced json t (text s) w
  rewrite_text-Replaced s w h = elim (Bool-cases (begins marker (trim_space s))) [
    | inl e ↦ reference s e (resolve_ref-Stands (trim_space s) w (ground (arith, h, e)))
    | inr e ↦
        let same : text s ≡ w = ground (arith, h, e) in
        subst (Replaced json t (text s)) same (no_reference s e)
  ]

  mutual
    unfolding rewrite_refs rewrite_items rewrite_fields

    rewrite-Replaced : (v w : Value) → rewrite_refs json t v ≡ inr w → Replaced json t v w
    rewrite-Replaced null w h =
        let same : null ≡ w = ground (arith, h) in subst (Replaced json t null) same is_null
    rewrite-Replaced (boolean b) w h =
        let same : boolean b ≡ w = ground (arith, h) in
        subst (Replaced json t (boolean b)) same (is_boolean b)
    rewrite-Replaced (number n) w h =
        let same : number n ≡ w = ground (arith, h) in
        subst (Replaced json t (number n)) same (is_number n)
    rewrite-Replaced (text s) w h = rewrite_text-Replaced s w h
    rewrite-Replaced (array vs) w h = elim (Sum-cases (rewrite_items json t vs)) [
      | inl (e, p) ↦ absurd (ground (arith, h, p))
      | inr (ws, p) ↦
          let same : array ws ≡ w = ground (arith, h, p) in
          subst (Replaced json t (array vs)) same (items (items-Replaced vs ws p))
    ]
    rewrite-Replaced (object fs) w h = elim (Sum-cases (rewrite_fields json t fs)) [
      | inl (e, p) ↦ absurd (ground (arith, h, p))
      | inr (gs, p) ↦
          let same : object gs ≡ w = ground (arith, h, p) in
          subst (Replaced json t (object fs)) same (fields (fields-Replaced fs gs p))
    ]

    items-Replaced : (vs ws : Items) → rewrite_items json t vs ≡ inr ws → AllReplaced json t vs ws
    items-Replaced nil ws h =
        let same : nil ≡ ws = ground (arith, h) in subst (AllReplaced json t nil) same no_item
    items-Replaced (cons v vs) ws h = elim (Sum-cases (rewrite_refs json t v)) [
      | inl (e, p) ↦ absurd (ground (arith, h, p))
      | inr (w, p) ↦ elim (Sum-cases (rewrite_items json t vs)) [
        | inl (e, q) ↦ absurd (ground (arith, h, p, q))
        | inr (xs, q) ↦
            let same : cons w xs ≡ ws = ground (arith, h, p, q) in
            subst (AllReplaced json t (cons v vs)) same
              (item (rewrite-Replaced v w p) (items-Replaced vs xs q))
      ]
    ]

    fields-Replaced :
        (fs gs : Fields) → rewrite_fields json t fs ≡ inr gs → FieldsReplaced json t fs gs
    fields-Replaced end gs h =
        let same : end ≡ gs = ground (arith, h) in subst (FieldsReplaced json t end) same no_field
    fields-Replaced (field k v fs) gs h = elim (Sum-cases (rewrite_refs json t v)) [
      | inl (e, p) ↦ absurd (ground (arith, h, p))
      | inr (w, p) ↦ elim (Sum-cases (rewrite_fields json t fs)) [
        | inl (e, q) ↦ absurd (ground (arith, h, p, q))
        | inr (xs, q) ↦
            let same : field k w xs ≡ gs = ground (arith, h, p, q) in
            subst (FieldsReplaced json t (field k v fs)) same
              (one_field k (rewrite-Replaced v w p) (fields-Replaced fs xs q))
      ]
    ]

  mutual
    unfolding rewrite_refs rewrite_items rewrite_fields

    Replaced-rewrite : {v w : Value} → Replaced json t v w → rewrite_refs json t v ≡ inr w
    Replaced-rewrite is_null = refl
    Replaced-rewrite (is_boolean b) = refl
    Replaced-rewrite (is_number n) = refl
    Replaced-rewrite (no_reference s e) = ground (arith, e)
    Replaced-rewrite (reference {w = w} s e st) =
        ground (arith, e, Stands-resolve_ref (trim_space s) w st)
    Replaced-rewrite (items a) = ground (arith, Replaced-items a)
    Replaced-rewrite (fields a) = ground (arith, Replaced-fields a)

    Replaced-items : {vs ws : Items} → AllReplaced json t vs ws → rewrite_items json t vs ≡ inr ws
    Replaced-items no_item = refl
    Replaced-items (item r a) = ground (arith, Replaced-rewrite r, Replaced-items a)

    Replaced-fields :
        {fs gs : Fields} → FieldsReplaced json t fs gs → rewrite_fields json t fs ≡ inr gs
    Replaced-fields no_field = refl
    Replaced-fields (one_field k r a) = ground (arith, Replaced-rewrite r, Replaced-fields a)

  -- What `resolveToolRefsInInput` gives of an input is the input resolved.
  pub resolve_input-Resolved :
      (input s : List ℕ) → resolve_input json t input ≡ inr s → Resolved json t input s
  unfolding resolve_input
  resolve_input-Resolved input s h = elim (List-cases (trim_space input)) [
    | inl e ↦
        let same : [] ≡ s = ground (arith, h, e) in subst (Resolved json t input) same (blank e)
    | inr (c, cs, e) ↦ elim (Option-cases (json.unmarshal (c ∷ cs))) [
      | inl f ↦
          let same : c ∷ cs ≡ s = ground (arith, h, e, f) in
          subst (Resolved json t input) same (no_json c cs e f)
      | inr (v, f) ↦ elim (Sum-cases (rewrite_refs json t v)) [
        | inl (x, g) ↦ absurd (ground (arith, h, e, f, g))
        | inr (w, g) ↦ elim (Option-cases (json.marshal w)) [
          | inl m ↦ absurd (ground (arith, h, e, f, g, m))
          | inr (out, m) ↦
              let same : out ≡ s = ground (arith, h, e, f, g, m) in
              replaced c cs v w e f (rewrite-Replaced v w g) (m ∙ ap some same)
        ]
      ]
    ]
  ]

  pub Resolved-resolve_input :
      (input : List ℕ) {s : List ℕ} → Resolved json t input s → resolve_input json t input ≡ inr s
  unfolding resolve_input
  Resolved-resolve_input input (blank e) = ground (arith, e)
  Resolved-resolve_input input (no_json c cs e f) = ground (arith, e, f)
  Resolved-resolve_input input (replaced c cs v w e f r m) =
      ground (arith, e, f, Replaced-rewrite r, m)
