-- ===== src/Security/Bus/Secrets.antt =====
-- `injectSecrets` and `injectArg` of bus.go.
pub mod Frame
use Prim.Native.String.{String}
use text.Mathlib.Text.{◌==◌ as str_eq}
use text.Mathlib.TextEquality.{eq_iff}
use dragonscale.Prelude.{
  ℕ, ◌≡◌, ◌≢◌, ◌⊎◌, inl, inr, refl, sym, Bool, true, false, not, List, [], ◌∷◌, ◌++◌, map, Memᴰ,
  Option, none, some, arith, if◌then◌else◌, Option-cases, Mem-append,
}
use dragonscale.Prelude.Text.{lookup, insert, lookup-insert_ne, after_prefix}
use dragonscale.Security.Policy.Engine.{Value, str, Args, SecretRef}
use dragonscale.Security.Bus.Types.{
  SecretError, secret_not_found, secret_failure, SecretResult, found, missing,
}

-- The key of an `InjectAs` of the form "arg:<key>", with a key that is not empty.
unfoldable pub arg_key : String → Option String
arg_key inject_as = elim (after_prefix "arg:" inject_as) [
  | none ↦ none
  | some key ↦ if str_eq key "" then none else some key
]

-- The names of the secrets read, the keys injected, and the arguments; or the secret that failed.
pub data Injection (O : Type 0) : Type 0 where
  injected : List String → List String → Args O → Injection O
  failed : String → SecretError → Injection O

module _ {O : Type 0} where
  -- `injectArg`: the arguments, and the keys with the injected one added. Into a nil map nothing is
  -- injected.
  unfoldable pub inject_arg : Args O → String → String → List String → Args O × List String
  inject_arg none inject_as value keys = (none, keys)
  inject_arg (some entries) inject_as value keys = elim (arg_key inject_as) [
    | none ↦ (some entries, keys)
    | some key ↦ (some (insert key (str value) entries), keys ++ (key ∷ []))
  ]

  -- One turn of the loop over the references; `rest` is the remaining loop.
  unfoldable pub inject_one :
      SecretResult
      → SecretRef
      → (List String → List String → Args O → Injection O)
      → List String
      → List String
      → Args O
      → Injection O
  inject_one (found value) ref rest accessed keys args =
      let (args', keys') = inject_arg args ref.inject_as value keys in
      rest (accessed ++ (ref.name ∷ [])) keys' args'
  inject_one (missing secret_not_found) ref rest accessed keys args =
      if ref.required then failed ref.name secret_not_found else rest accessed keys args
  inject_one (missing (secret_failure m)) ref rest accessed keys args =
      failed ref.name (secret_failure m)

  unfoldable pub inject_from :
      (String → SecretResult) → List SecretRef → List String → List String → Args O → Injection O
  inject_from get [] accessed keys args = injected accessed keys args
  inject_from get (ref ∷ refs) accessed keys args =
      inject_one (get ref.name) ref (inject_from get refs) accessed keys args

  -- `injectSecrets`: nothing is injected without a store.
  unfoldable pub inject_secrets :
      Option (String → SecretResult) → List SecretRef → Args O → Injection O
  inject_secrets none refs args = injected [] [] args
  inject_secrets (some get) refs args = inject_from get refs [] [] args

  -- How a turn of the loop goes on.
  pub data Turn (r : SecretResult) (ref : SecretRef)
      (rest : List String → List String → Args O → Injection O) (accessed keys : List String)
      (args : Args O) (done : Injection O) : Type 0 where
    reads :
        (value : String)
        → r ≡ found value
        → rest
            (accessed ++ (ref.name ∷ []))
            (inject_arg args ref.inject_as value keys).1
            (inject_arg args ref.inject_as value keys).0
          ≡ done
        → Turn r ref rest accessed keys args done
    skips :
        ref.required ≡ false
        → rest accessed keys args ≡ done
        → Turn r ref rest accessed keys args done

  pub inject_one-Turn :
      (r : SecretResult) (ref : SecretRef) (rest : List String → List String → Args O → Injection O)
      (accessed keys : List String) (args : Args O) (a k : List String) (args' : Args O)
      → inject_one r ref rest accessed keys args ≡ injected a k args'
      → Turn r ref rest accessed keys args (injected a k args')
  unfolding inject_one
  inject_one-Turn (found value) ref rest accessed keys args a k args' h = reads value refl h
  inject_one-Turn (missing secret_not_found) ref rest accessed keys args a k args' h =
      skips (ground arith) (ground arith)
  inject_one-Turn (missing (secret_failure m)) ref rest accessed keys args a k args' h = cc

  pub Mem-inject_arg :
      (args : Args O) (target value : String) (keys : List String) (key : String)
      → Memᴰ key keys
      → Memᴰ key (inject_arg args target value keys).1
  unfolding inject_arg
  Mem-inject_arg none target value keys key m = m
  Mem-inject_arg (some entries) target value keys key m = elim (Option-cases (arg_key target)) [
    | inl e ↦ rw (e, inject_arg) m
    | inr (k, e) ↦ rw (e, inject_arg) (Mem-append keys (k ∷ []) m)
  ]
