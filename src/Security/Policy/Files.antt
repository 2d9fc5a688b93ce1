-- ===== src/Security/Policy/Files.antt =====
-- When the policy engine admits a path, and what a tool call with explicit targets may touch.
use Prim.Native.String.{String}
use text.Mathlib.Text.{◌==◌ as str_eq, starts_with}
use text.Mathlib.TextEquality.{eq_iff}
use dragonscale.Prelude.{
  ◌≡◌, ◌≢◌, ◌↔◌, ◌⊎◌, inl, inr, true, false, List, [], ◌∷◌, Memᴰ, any, any-Mem, Mem-any, none, some,
  arith, Option-cases,
}
use dragonscale.Prelude.Text.{contains}
use dragonscale.Security.Glob.{globstar_match}
use dragonscale.Security.Policy.Engine.{
  Args, PathRule, ToolCapabilities, zero_capabilities, Stdlib, PolicyEngine, non_empty_string_arg,
  filesystem_mode_for_tool, mode_allows, filesystem_policy_target, validate_endpoint,
  validate_network, check_path, rule_permits, validate_filesystem, check_url, check_path_arg,
  check_working_dir, validate_tool_execution,
}
use dragonscale.Security.Policy.Network.{NetworkAllowed, validate_network-none_iff}

-- When a rule's mode grants an access: reading by a mode that has an "r", writing by one that has a
-- "w", and both by "rw"; no mode grants any other access.
abbrev pub Grants : String → String → Type 0
Grants access mode =
    ((access ≡ "r") × (contains mode "r" ≡ true))
    ⊎ ((access ≡ "w") × (contains mode "w" ≡ true))
    ⊎ ((access ≡ "rw") × (mode ≡ "rw"))

mode_allows-Grants : (access mode : String) → (mode_allows access mode ≡ true) ↔ Grants access mode
unfolding mode_allows
mode_allows-Grants access mode = (
  λ h. ground (arith, eq_iff access "r", eq_iff access "w", eq_iff access "rw", eq_iff mode "rw"),
  λ h. elim h [
    | inl (p, c) ↦ rw p c
    | inr (inl (p, c)) ↦ rw p c
    | inr (inr (p, c)) ↦ rw p ((eq_iff mode "rw").1 c)
  ],
)

-- When a tool may access a path in a mode.
pub record FilesystemAllowed (std : Stdlib) (pe : PolicyEngine) (target mode : String)
    (rules : List PathRule) : Type 0 where
  pub path : String
  pub inside :
      ((pe.allowed_workspace ≡ "") × (path ≡ target))
      ⊎ ((pe.allowed_workspace ≢ "")
          × (std.rel pe.allowed_workspace target ≡ some path)
          × (path ≢ "..")
          × (starts_with path "../" ≡ false))
  pub permitted :
      (r : PathRule) × Memᴰ r rules
      × (globstar_match std.paths r.pattern path ≡ true)
      × Grants mode r.mode

module _ (std : Stdlib) (pe : PolicyEngine) (target mode : String) where
  check_path_sound :
      (path : String)
      → check_path std pe target ≡ some path
      → ((pe.allowed_workspace ≡ "") × (path ≡ target))
        ⊎ ((pe.allowed_workspace ≢ "")
            × (std.rel pe.allowed_workspace target ≡ some path)
            × (path ≢ "..")
            × (starts_with path "../" ≡ false))
  unfolding check_path
  check_path_sound path h = ground (arith, eq_iff pe.allowed_workspace "", eq_iff path "..")

  check_path_complete :
      (path : String)
      → ((pe.allowed_workspace ≡ "") × (path ≡ target))
        ⊎ ((pe.allowed_workspace ≢ "")
            × (std.rel pe.allowed_workspace target ≡ some path)
            × (path ≢ "..")
            × (starts_with path "../" ≡ false))
      → check_path std pe target ≡ some path
  unfolding check_path
  check_path_complete path h = ground (arith, eq_iff pe.allowed_workspace "", eq_iff path "..")

  files_sound :
      (rules : List PathRule)
      → validate_filesystem std pe target mode rules ≡ none
      → (path : String) × (check_path std pe target ≡ some path)
        × (any (rule_permits std path mode) rules ≡ true)
  unfolding validate_filesystem
  files_sound [] h = cc
  files_sound (r ∷ rules) h = elim (Option-cases (check_path std pe target)) [
    | inl e ↦ ground arith
    | inr (path, e) ↦ (path, e, ground arith)
  ]

  files_complete :
      (rules : List PathRule) (path : String)
      → check_path std pe target ≡ some path
      → any (rule_permits std path mode) rules ≡ true
      → validate_filesystem std pe target mode rules ≡ none
  unfolding validate_filesystem any
  files_complete [] path e h = cc
  files_complete (r ∷ rules) path e h = ground arith

  -- A path is admitted in a mode exactly when it lies in the workspace, if there is one, and some
  -- declared rule matches it there and grants the mode.
  pub validate_filesystem-none_iff :
      (rules : List PathRule)
      → (validate_filesystem std pe target mode rules ≡ none)
        ↔ FilesystemAllowed std pe target mode rules
  validate_filesystem-none_iff rules = (sound, complete)
    where
      sound :
          validate_filesystem std pe target mode rules ≡ none
          → FilesystemAllowed std pe target mode rules
      sound h =
          let (path, e, matched) = files_sound rules h in
          let (r, m, ok) = any-Mem (rule_permits std path mode) rules matched in
          record {
            path = path;
            inside = check_path_sound path e;
            permitted = (r, m, ground arith, (mode_allows-Grants mode r.mode).0 (ground arith));
          }

      complete :
          FilesystemAllowed std pe target mode rules
          → validate_filesystem std pe target mode rules ≡ none
      complete a = files_complete rules a.path (check_path_complete a.path a.inside) (
          Mem-any (rule_permits std a.path mode) rules a.permitted.1 (
            ground
              (arith, a.permitted.2, (mode_allows-Grants mode a.permitted.0.mode).1 a.permitted.3)))

module _ (std : Stdlib) {O : Type 0} (pe : PolicyEngine) (tool : String) (args : Args O) where
  -- A tool call that is admitted and names a URL may contact it.
  pub execution-NetworkAllowed :
      (caps : ToolCapabilities) (url : String)
      → non_empty_string_arg args "url" ≡ some url
      → validate_tool_execution std pe tool args caps ≡ none
      → NetworkAllowed std pe url caps.network
  unfolding validate_tool_execution check_url
  execution-NetworkAllowed caps url e h =
      (validate_network-none_iff std pe url caps.network).0 (ground arith)

  -- A call of a file tool that is admitted and names a path may access it in the tool's mode.
  pub execution-FilesystemAllowed :
      (caps : ToolCapabilities) (path mode : String)
      → non_empty_string_arg args "path" ≡ some path
      → filesystem_mode_for_tool tool ≡ some mode
      → validate_tool_execution std pe tool args caps ≡ none
      → FilesystemAllowed std pe (filesystem_policy_target std pe path) mode caps.filesystem
  unfolding validate_tool_execution check_url check_path_arg
  execution-FilesystemAllowed caps path mode e m h =
      (validate_filesystem-none_iff std pe (filesystem_policy_target std pe path) mode
          caps.filesystem).0
        (ground arith)

  -- With no declared capability a call is admitted exactly when it names no URL, no path (or the
  -- tool is no file tool), and, for `exec`, no working directory.
  pub zero_capabilities-denies :
      (validate_tool_execution std pe tool args zero_capabilities ≡ none) ↔ (
        (non_empty_string_arg args "url" ≡ none)
        × ((non_empty_string_arg args "path" ≡ none) ⊎ (filesystem_mode_for_tool tool ≡ none))
        × ((str_eq tool "exec" ≡ false) ⊎ (non_empty_string_arg args "working_dir" ≡ none)))
  unfolding validate_tool_execution check_url check_path_arg check_working_dir validate_network
      validate_endpoint validate_filesystem
  zero_capabilities-denies = (λ h. ground arith, λ h. ground arith)
