-- ===== src/Security/Policy/Engine.antt =====
-- policy.go: the checks, in the order in which the code makes them.
use Prim.Native.String.{String}
use text.Mathlib.Text.{◌==◌ as str_eq, starts_with}
use dragonscale.Prelude.{
  ℕ, Bool, false, not, ◌||◌, ◌&&◌, List, [], ◌∷◌, any, Option, none, some, ltb, if◌then◌else◌,
}
use dragonscale.Prelude.Text.{contains, is_blank, lookup}
use dragonscale.Security.Glob.{FilePathFns, globstar_match}

-- A decoded JSON argument: a string, or any value of another type.
pub data Value (O : Type 0) : Type 0 where
  str : String → Value O
  other : O → Value O

-- The map of the arguments; none is the nil map.
abbrev pub Args : Type 0 → Type 0
Args O = Option (List (String × Value O))

-- `args[key]`: a nil map has no key.
unfoldable pub get_arg : {O : Type 0} → String → Args O → Option (Value O)
get_arg key none = none
get_arg key (some entries) = lookup key entries

pub record SecretRef : Type 0 where
  pub name : String
  pub inject_as : String
  pub required : Bool

pub record PathRule : Type 0 where
  pub pattern : String
  pub mode : String

pub data ShellAccessLevel : Type 0 where
  shell_none shell_denylist shell_allowlist : ShellAccessLevel

pub record ToolCapabilities : Type 0 where
  pub secrets : List SecretRef
  pub network : List String  -- the patterns of the EndpointRules
  pub filesystem : List PathRule
  pub shell : ShellAccessLevel

-- `ZeroCapabilities`.
abbrev pub zero_capabilities : ToolCapabilities
zero_capabilities = record { secrets = []; network = []; filesystem = []; shell = shell_none }

pub data PolicyError : Type 0 where
  recursion_depth : ℕ → ℕ → PolicyError
  invalid_url unsupported_scheme ssrf_blocklist no_endpoint_match url_guard : String → PolicyError
  no_endpoint_rules no_path_rules : PolicyError
  outside_workspace no_path_match : String → PolicyError

-- What the engine uses of net/url and path/filepath, beside the globs: the lower-cased scheme of a
-- URL that parses, `Rel` (none on an error), `IsAbs` and `Join`.
pub record Stdlib : Type 0 where
  pub paths : FilePathFns
  pub url_scheme : String → Option String
  pub rel : String → String → Option String
  pub is_abs : String → Bool
  pub join : String → String → String

-- `PolicyEngine` with its config. `validate_url` is true where the URL guard returns nil.
pub record PolicyEngine : Type 0 where
  pub max_recursion_depth : ℕ  -- uint8
  pub allowed_workspace : String
  pub ssrf_blocked_prefixes : List String
  pub validate_url : String → Bool

-- `Validate`: an error, or none.
unfoldable pub validate : PolicyEngine → ℕ → Option PolicyError
validate pe depth =
    if ltb 0 pe.max_recursion_depth && ltb pe.max_recursion_depth depth
    then some (recursion_depth depth pe.max_recursion_depth)
    else none

-- `nonEmptyStringArg`.
unfoldable pub non_empty_string_arg : {O : Type 0} → Args O → String → Option String
non_empty_string_arg args key = elim (get_arg key args) [
  | none ↦ none
  | some v ↦ elim v [ other o ↦ none | str s ↦ if is_blank s then none else some s ]
]

-- `filesystemModeForTool`: the empty mode is none.
unfoldable pub filesystem_mode_for_tool : String → Option String
filesystem_mode_for_tool name =
    if str_eq name "read_file" || str_eq name "list_dir"
    then some "r"
    else if str_eq name "write_file" || str_eq name "append_file"
    then some "w"
    else if str_eq name "edit_file"
    then some "rw"
    else none

-- The `switch mode` of `ValidateFilesystem`.
unfoldable pub mode_allows : String → String → Bool
mode_allows mode rule_mode =
    if str_eq mode "r"
    then contains rule_mode "r"
    else if str_eq mode "w"
    then contains rule_mode "w"
    else if str_eq mode "rw"
    then str_eq rule_mode "rw"
    else false

module _ (std : Stdlib) where
  -- `filesystemPolicyTarget`.
  unfoldable pub filesystem_policy_target : PolicyEngine → String → String
  filesystem_policy_target pe target =
      if str_eq pe.allowed_workspace "" || std.is_abs target
      then target
      else std.join pe.allowed_workspace target

  -- `ValidateNetwork`, after the URL is parsed.
  unfoldable pub validate_endpoint : PolicyEngine → String → List String → Option PolicyError
  validate_endpoint pe url [] = some no_endpoint_rules
  validate_endpoint pe url (r ∷ rules) =
      if any (λ prefix. starts_with url prefix) pe.ssrf_blocked_prefixes
      then some (ssrf_blocklist url)
      else if not (any (λ pattern. globstar_match std.paths pattern url) (r ∷ rules))
      then some (no_endpoint_match url)
      else if not (pe.validate_url url)
      then some (url_guard url)
      else none

  unfoldable pub validate_network : PolicyEngine → String → List String → Option PolicyError
  validate_network pe url rules = elim (std.url_scheme url) [
    | none ↦ some (invalid_url url)
    | some scheme ↦
        if str_eq scheme "http" || str_eq scheme "https"
        then validate_endpoint pe url rules
        else some (unsupported_scheme url)
  ]

  -- The path that the rules are matched against, relative to the workspace if there is one.
  unfoldable pub check_path : PolicyEngine → String → Option String
  check_path pe target =
      if str_eq pe.allowed_workspace ""
      then some target
      else elim (std.rel pe.allowed_workspace target) [
        | none ↦ none
        | some r ↦ if str_eq r ".." || starts_with r "../" then none else some r
      ]

  abbrev pub rule_permits : String → String → PathRule → Bool
  rule_permits path mode rule =
      globstar_match std.paths rule.pattern path && mode_allows mode rule.mode

  unfoldable pub validate_filesystem :
      PolicyEngine → String → String → List PathRule → Option PolicyError
  validate_filesystem pe target mode [] = some no_path_rules
  validate_filesystem pe target mode (r ∷ rules) = elim (check_path pe target) [
    | none ↦ some (outside_workspace target)
    | some path ↦
        if any (rule_permits path mode) (r ∷ rules) then none else some (no_path_match target)
  ]

  module _ {O : Type 0} (pe : PolicyEngine) (tool : String) (args : Args O)
      (caps : ToolCapabilities) where
    -- The three blocks of `ValidateToolExecution`.
    unfoldable pub check_url : Option PolicyError
    check_url = elim (non_empty_string_arg args "url") [
      | none ↦ none
      | some url ↦ validate_network pe url caps.network
    ]

    unfoldable pub check_path_arg : Option PolicyError
    check_path_arg = elim (non_empty_string_arg args "path") [
      | none ↦ none
      | some path ↦ elim (filesystem_mode_for_tool tool) [
        | none ↦ none
        | some mode ↦ validate_filesystem pe (filesystem_policy_target pe path) mode caps.filesystem
      ]
    ]

    unfoldable pub check_working_dir : Option PolicyError
    check_working_dir =
        if str_eq tool "exec"
        then elim (non_empty_string_arg args "working_dir") [
          | none ↦ none
          | some dir ↦ validate_filesystem pe (filesystem_policy_target pe dir) "rw" caps.filesystem
        ]
        else none

    -- `ValidateToolExecution`: the first error of the three.
    unfoldable pub validate_tool_execution : Option PolicyError
    validate_tool_execution = elim check_url [
      | some e ↦ some e
      | none ↦ elim check_path_arg [ some e ↦ some e | none ↦ check_working_dir ]
    ]
