-- ===== src/Security/Bus/Cleared/Run.antt =====
-- The executor's runs over a whole `dispatch`.
use Prim.Native.String.{String}
use dragonscale.Prelude.{
  ℕ, ◌≡◌, ◌↔◌, ◌⊎◌, inl, inr, refl, sym, ap, ◌∙◌, subst, [], ◌∷◌, ◌++◌, Memᴰ, Option, some, arith,
  Option-cases, snoc_injective, snoc-ne,
}
use dragonscale.Security.Policy.Engine.{Args, get_arg, non_empty_string_arg}
use dragonscale.Security.Policy.Network.{NetworkAllowed}
use dragonscale.Security.Policy.Files.{execution-NetworkAllowed}
use dragonscale.Security.Bus.Types.{
  CommandType, tool_exec, Payload, exec, search, answer, opaque, ToolRequest, ToolResult, BusDeps,
  Call, BusState, append_event,
}
use dragonscale.Security.Bus.Cleared.{
  Shows, Cleared, exec_stage-Passed, Passed-exec_stage, exec_stage-response,
}
use dragonscale.Security.Bus.Secrets.Frame.{inject_secrets-frame}
use dragonscale.Security.Bus.Dispatch.{
  capabilities, tool_event, dispatch_exec, answered, outcome, record_call, dispatch,
}

module _ {O : Type 0} (deps : BusDeps O) (req : ToolRequest) (at duration : ℕ) where
  payload-Cleared :
      (p : Payload) (c : Call O)
      → req.type ≡ tool_exec
      → req.payload ≡ p
      → (dispatch_exec deps req at duration p).ran ≡ some c
      → Cleared deps req c
  unfolding dispatch_exec
  payload-Cleared (exec te) c t e h = record {
    te = te;
    type = t;
    payload = e;
    passed = exec_stage-Passed deps req te (tool_event deps req te at duration) c h;
  }
  payload-Cleared (search q n) c t e h = cc
  payload-Cleared (answer a) c t e h = cc
  payload-Cleared opaque c t e h = cc

  outcome-Cleared :
      (type : CommandType) (c : Call O)
      → req.type ≡ type
      → (outcome deps req at duration type).ran ≡ some c
      → Cleared deps req c
  unfolding outcome answered
  outcome-Cleared tool_exec c t h = payload-Cleared req.payload c t refl h
  outcome-Cleared _ c t h = cc

  Cleared-outcome :
      (type : CommandType) (c : Call O)
      → req.type ≡ type
      → Cleared deps req c
      → (outcome deps req at duration type).ran ≡ some c
  unfolding outcome dispatch_exec
  Cleared-outcome type c t d =
      subst (λ k. (outcome deps req at duration k).ran ≡ some c) (sym d.type ∙ t)
        (subst (λ p. (dispatch_exec deps req at duration p).ran ≡ some c) (sym d.payload)
          (Passed-exec_stage deps req d.te (tool_event deps req d.te at duration) c d.passed))

  Cleared-Shows :
      (type : CommandType) (c : Call O) (r : ToolResult)
      → req.type ≡ type
      → Cleared deps req c
      → deps.executor c.tool c.args c.injected ≡ some r
      → Shows deps.redactor r (outcome deps req at duration type).response
  unfolding outcome dispatch_exec
  Cleared-Shows type c r t d x =
      let e = tool_event deps req d.te at duration in
      subst (λ k. Shows deps.redactor r (outcome deps req at duration k).response) (sym d.type ∙ t)
        (subst (λ p. Shows deps.redactor r (dispatch_exec deps req at duration p).response)
          (sym d.payload)
          (exec_stage-response deps req d.te e c r (Passed-exec_stage deps req d.te e c d.passed)
            x))

  module _ (st : BusState O) where
    dispatch-calls :
        (dispatch deps st req at duration).1.calls
        ≡ record_call deps (outcome deps req at duration req.type).ran st.calls
    unfolding dispatch append_event
    dispatch-calls = refl

    -- The bus runs the executor, on arguments and with injected keys, exactly when the request is
    -- a tool execution whose depth is allowed, whose arguments decode, whose targets the policy
    -- admits and whose secrets are injected, with that outcome.
    pub dispatch-Cleared :
        (c : Call O)
        → ((dispatch deps st req at duration).1.calls ≡ st.calls ++ (c ∷ [])) ↔ Cleared deps req c
    unfolding record_call
    dispatch-Cleared c = (sound, complete)
      where
        ran : Option (Call O)
        ran = (outcome deps req at duration req.type).ran

        sound :
            (dispatch deps st req at duration).1.calls ≡ st.calls ++ (c ∷ []) → Cleared deps req c
        sound h = elim (Option-cases ran) [
          | inl e ↦ absurd (
              snoc-ne st.calls c (sym h ∙ dispatch-calls ∙ ap (λ r. record_call deps r st.calls) e))
          | inr (c', e) ↦ outcome-Cleared req.type c refl (
              e
              ∙ ap some (
                  snoc_injective st.calls
                    (sym (ap (λ r. record_call deps r st.calls) e) ∙ sym dispatch-calls ∙ h)))
        ]

        complete :
            Cleared deps req c → (dispatch deps st req at duration).1.calls ≡ st.calls ++ (c ∷ [])
        complete d =
            dispatch-calls
            ∙ ap (λ r. record_call deps r st.calls) (Cleared-outcome req.type c refl d)

    -- A request runs the executor at most once, and never undoes a run.
    pub dispatch_once :
        ((dispatch deps st req at duration).1.calls ≡ st.calls)
        ⊎ ((c : Call O) × ((dispatch deps st req at duration).1.calls ≡ st.calls ++ (c ∷ [])))
    unfolding record_call
    dispatch_once = elim (Option-cases (outcome deps req at duration req.type).ran) [
      | inl e ↦ inl (dispatch-calls ∙ ap (λ r. record_call deps r st.calls) e)
      | inr (c, e) ↦ inr (c, dispatch-calls ∙ ap (λ r. record_call deps r st.calls) e)
    ]

    -- When the executor ran and returned a result, the response carries the result's text as
    -- redacted, is flagged exactly when
    -- the text held something sensitive, and is an error exactly when the result is.
    pub dispatch-Shows :
        (c : Call O) (r : ToolResult)
        → (dispatch deps st req at duration).1.calls ≡ st.calls ++ (c ∷ [])
        → deps.executor c.tool c.args c.injected ≡ some r
        → Shows deps.redactor r (dispatch deps st req at duration).0
    unfolding dispatch
    dispatch-Shows c r h x = Cleared-Shows req.type c r refl ((dispatch-Cleared c).0 h) x

    arg_same :
        (x y : Args O) (key : String)
        → get_arg key x ≡ get_arg key y
        → non_empty_string_arg x key ≡ non_empty_string_arg y key
    unfolding non_empty_string_arg
    arg_same x y key h = ground arith

    -- When the executor ran with a URL argument that no secret was injected into, the tool's
    -- declared capabilities and the policy allow that URL.
    pub dispatch-NetworkAllowed :
        (c : Call O) (url : String)
        → (dispatch deps st req at duration).1.calls ≡ st.calls ++ (c ∷ [])
        → ¬ Memᴰ "url" c.injected
        → non_empty_string_arg c.args "url" ≡ some url
        → NetworkAllowed deps.std deps.policy url (capabilities deps c.tool).network
    dispatch-NetworkAllowed c url h fresh e =
        let d = (dispatch-Cleared c).0 h in
        let p = d.passed in
        let seen = arg_same c.args p.decoded "url" (
          inject_secrets-frame deps.secrets (capabilities deps d.te.tool_name).secrets p.decoded
            p.accessed c.injected c.args "url" p.secrets fresh) in
        rw p.tool (
          execution-NetworkAllowed deps.std deps.policy d.te.tool_name p.decoded
            (capabilities deps d.te.tool_name) url (sym seen ∙ e) p.targets)
