-- ===== src/Fantasy/Tools/Refs/Replaced.antt =====
-- What stands for a reference, and an input with its references replaced, apart from the functions of
-- tool_runtime_dag.go that replace them.
use dragonscale.Prelude.{ℕ, ◌≡◌, Bool, true, false, List, [], ◌∷◌, none, some}
use dragonscale.Prelude.Int.{pos}
use dragonscale.Prelude.Text.{begins}
use dragonscale.Memory.Compress.{trim_space}
use dragonscale.Fantasy.Tools.{ToolResultContent}
use dragonscale.Fantasy.Tools.Json.{
  Value, null, boolean, number, text, array, object, Items, nil, cons, Fields, end, field, Json,
  find_field, item_at, atoi, trim_prefix, split_dots,
}
use dragonscale.Fantasy.Tools.Refs.{marker, Results, find_result, output_text}

-- A path leads from one value to another: by the key of an object or the index of an array, each
-- without the blanks around it.
pub data Leads : List (List ℕ) → Value → Value → Type 0 where
  here : {v : Value} → Leads [] v v
  by_key :
      {segs : List (List ℕ)} {fs : Fields} {w : Value}
      → (seg : List ℕ) (c : ℕ) (cs : List ℕ) (v : Value) → trim_space seg ≡ c ∷ cs
      → find_field (c ∷ cs) fs ≡ some v
      → Leads segs v w
      → Leads (seg ∷ segs) (object fs) w
  by_index :
      {segs : List (List ℕ)} {vs : Items} {w : Value}
      → (seg : List ℕ) (c : ℕ) (cs : List ℕ) (i : ℕ) (v : Value) → trim_space seg ≡ c ∷ cs
      → atoi (c ∷ cs) ≡ some (pos i)
      → item_at i vs ≡ some v
      → Leads segs v w
      → Leads (seg ∷ segs) (array vs) w

module _ (json : Json) (t : Results) where
  -- What a path is of the output of a result: the output's text without a path, and with one what
  -- it leads to in the JSON that the text is.
  pub data Part : List (List ℕ) → List ℕ → Value → Type 0 where
    whole : {base : List ℕ} → Part [] base (text base)
    inside :
        {p base : List ℕ} {ps : List (List ℕ)} {w : Value}
        → (v : Value) → json.unmarshal base ≡ some v
        → Leads (p ∷ ps) v w
        → Part (p ∷ ps) base w

  -- What stands for a reference: the part of the output of the result that is there for its id.
  pub record Stands (ref : List ℕ) (w : Value) : Type 0 where
    pub first : ℕ
    pub others : List ℕ
    pub id : trim_space (split_dots (trim_prefix marker (trim_space ref))).0 ≡ first ∷ others
    pub result : ToolResultContent
    pub there : find_result (first ∷ others) t ≡ some result
    pub part :
        Part (split_dots (trim_prefix marker (trim_space ref))).1 (output_text result.result) w

  -- A value with each text in it that is a reference replaced by what stands for it.
  mutual
    pub data Replaced : Value → Value → Type 0 where
      is_null : Replaced null null
      is_boolean : (b : Bool) → Replaced (boolean b) (boolean b)
      is_number : (n : List ℕ) → Replaced (number n) (number n)
      no_reference :
          (s : List ℕ) → begins marker (trim_space s) ≡ false → Replaced (text s) (text s)
      reference :
          {w : Value}
          → (s : List ℕ) → begins marker (trim_space s) ≡ true
          → Stands (trim_space s) w
          → Replaced (text s) w
      items : {vs ws : Items} → AllReplaced vs ws → Replaced (array vs) (array ws)
      fields : {fs gs : Fields} → FieldsReplaced fs gs → Replaced (object fs) (object gs)

    pub data AllReplaced : Items → Items → Type 0 where
      no_item : AllReplaced nil nil
      item :
          {v w : Value} {vs ws : Items}
          → Replaced v w
          → AllReplaced vs ws
          → AllReplaced (cons v vs) (cons w ws)

    pub data FieldsReplaced : Fields → Fields → Type 0 where
      no_field : FieldsReplaced end end
      one_field :
          {v w : Value} {fs gs : Fields}
          → (k : List ℕ) → Replaced v w
          → FieldsReplaced fs gs
          → FieldsReplaced (field k v fs) (field k w gs)

  -- The input that a tool is given: nothing for a blank one, the text that is no JSON without the
  -- blanks around it, or the JSON with its references replaced.
  pub data Resolved (input : List ℕ) : List ℕ → Type 0 where
    blank : trim_space input ≡ [] → Resolved input []
    no_json :
        (c : ℕ) (cs : List ℕ)
        → trim_space input ≡ c ∷ cs
        → json.unmarshal (c ∷ cs) ≡ none
        → Resolved input (c ∷ cs)
    replaced :
        {s : List ℕ}
        → (c : ℕ) (cs : List ℕ) (v w : Value) → trim_space input ≡ c ∷ cs
        → json.unmarshal (c ∷ cs) ≡ some v
        → Replaced v w
        → json.marshal w ≡ some s
        → Resolved input s
