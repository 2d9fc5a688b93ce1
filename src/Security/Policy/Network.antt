-- ===== src/Security/Policy/Network.antt =====
-- When the policy engine admits a request by its depth, and a URL.
use Prim.Native.String.{String}
use text.Mathlib.Text.{starts_with}
use text.Mathlib.TextEquality.{eq_iff}
use dragonscale.Prelude.{
  ℕ, ◌≤◌, ◌≡◌, ◌↔◌, ◌⊎◌, inl, inr, Bool, true, false, List, [], ◌∷◌, Memᴰ, any, any-Mem, Mem-any,
  none, some, arith, Bool-cases, Option-cases,
}
use dragonscale.Security.Glob.{globstar_match}
use dragonscale.Security.Policy.Engine.{
  Stdlib, PolicyEngine, validate, validate_endpoint, validate_network,
}

-- The depth check passes exactly when there is no limit or the depth is within it.
pub validate-none_iff :
    (pe : PolicyEngine) (depth : ℕ)
    → (validate pe depth ≡ none) ↔ ((pe.max_recursion_depth ≡ 0) ⊎ (depth ≤ pe.max_recursion_depth))
unfolding validate
validate-none_iff pe depth = (λ h. ground arith, λ h. ground arith)

-- When a tool may contact a URL.
pub record NetworkAllowed (std : Stdlib) (pe : PolicyEngine) (url : String) (rules : List String)
    : Type 0 where
  pub scheme : (std.url_scheme url ≡ some "http") ⊎ (std.url_scheme url ≡ some "https")
  pub unblocked :
      (prefix : String) → Memᴰ prefix pe.ssrf_blocked_prefixes → starts_with url prefix ≡ false
  pub permitted : (p : String) × Memᴰ p rules × (globstar_match std.paths p url ≡ true)
  pub guarded : pe.validate_url url ≡ true

any-false :
    (p : String → Bool) (xs : List String)
    → any p xs ≡ false
    → (x : String) → Memᴰ x xs
    → p x ≡ false
any-false p xs h x m = elim (Bool-cases (p x)) [ inl e ↦ cc (Mem-any p xs m e) | inr e ↦ e ]

any-false_of :
    (p : String → Bool) (xs : List String)
    → ((x : String) → Memᴰ x xs → p x ≡ false)
    → any p xs ≡ false
any-false_of p xs h = elim (Bool-cases (any p xs)) [
  | inl e ↦ let (x, m, ok) = any-Mem p xs e in cc (h x m)
  | inr e ↦ e
]

module _ (std : Stdlib) (pe : PolicyEngine) (url : String) where
  endpoint_sound :
      (rules : List String)
      → validate_endpoint std pe url rules ≡ none
      → (any (λ prefix. starts_with url prefix) pe.ssrf_blocked_prefixes ≡ false)
        × (any (λ pattern. globstar_match std.paths pattern url) rules ≡ true)
        × (pe.validate_url url ≡ true)
  unfolding validate_endpoint
  endpoint_sound [] h = cc
  endpoint_sound (r ∷ rules) h = ground arith

  endpoint_complete :
      (rules : List String)
      → any (λ prefix. starts_with url prefix) pe.ssrf_blocked_prefixes ≡ false
      → any (λ pattern. globstar_match std.paths pattern url) rules ≡ true
      → pe.validate_url url ≡ true
      → validate_endpoint std pe url rules ≡ none
  unfolding validate_endpoint any
  endpoint_complete [] a b c = cc
  endpoint_complete (r ∷ rules) a b c = ground arith

  scheme_sound :
      (rules : List String)
      → validate_network std pe url rules ≡ none
      → ((std.url_scheme url ≡ some "http") ⊎ (std.url_scheme url ≡ some "https"))
        × (validate_endpoint std pe url rules ≡ none)
  unfolding validate_network
  scheme_sound rules h = elim (Option-cases (std.url_scheme url)) [
    | inl e ↦ ground arith
    | inr (s, e) ↦ ground (arith, eq_iff s "http", eq_iff s "https")
  ]

  network_complete :
      (rules : List String)
      → NetworkAllowed std pe url rules
      → validate_network std pe url rules ≡ none
  unfolding validate_network
  network_complete rules a =
      let e : validate_endpoint std pe url rules ≡ none =
        endpoint_complete rules
          (any-false_of (λ prefix. starts_with url prefix) pe.ssrf_blocked_prefixes a.unblocked)
          (Mem-any (λ pattern. globstar_match std.paths pattern url) rules a.permitted.1
            a.permitted.2)
          a.guarded in
      elim a.scheme [ inl s ↦ rw (s, validate_network) e | inr s ↦ rw (s, validate_network) e ]

  -- A URL is admitted exactly when its scheme is http or https, no blocked prefix begins it, some
  -- declared pattern matches it, and the URL guard lets it pass.
  pub validate_network-none_iff :
      (rules : List String)
      → (validate_network std pe url rules ≡ none) ↔ NetworkAllowed std pe url rules
  validate_network-none_iff rules = (sound, network_complete rules)
    where
      sound : validate_network std pe url rules ≡ none → NetworkAllowed std pe url rules
      sound h =
          let (scheme, rest) = scheme_sound rules h in
          let (clear, matched, guarded) = endpoint_sound rules rest in
          record {
            scheme = scheme;
            unblocked = any-false (λ prefix. starts_with url prefix) pe.ssrf_blocked_prefixes clear;
            permitted = any-Mem (λ pattern. globstar_match std.paths pattern url) rules matched;
            guarded = guarded;
          }
