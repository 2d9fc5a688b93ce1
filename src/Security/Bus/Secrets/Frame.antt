-- ===== src/Security/Bus/Secrets/Frame.antt =====
-- What secret injection reads and changes.
use Prim.Native.String.{String}
use dragonscale.Prelude.{
  ◌≡◌, inl, inr, refl, sym, ◌∙◌, true, List, [], ◌∷◌, Memᴰ, Option, none, some, Option-cases,
  Mem-append_right, Mem-cons,
}
use dragonscale.Prelude.Text.{lookup-insert_ne}
use dragonscale.Security.Policy.Engine.{str, Args, get_arg, SecretRef}
use dragonscale.Security.Bus.Types.{SecretResult, found}
use dragonscale.Security.Bus.Secrets.{
  arg_key, injected, inject_arg, inject_from, inject_secrets, reads, skips, inject_one-Turn,
  Mem-inject_arg,
}

module _ {O : Type 0} where
  injected_args :
      {a k a' k' : List String} {x y : Args O} → injected a k x ≡ injected a' k' y → x ≡ y
  injected_args e = cc

  injected_keys :
      {a k a' k' : List String} {x y : Args O} → injected a k x ≡ injected a' k' y → k ≡ k'
  injected_keys e = cc

  inject_arg-frame :
      (args : Args O) (target value : String) (keys : List String) (key : String)
      → ¬ Memᴰ key (inject_arg args target value keys).1
      → get_arg key (inject_arg args target value keys).0 ≡ get_arg key args
  unfolding inject_arg get_arg
  inject_arg-frame none target value keys key h = refl
  inject_arg-frame (some entries) target value keys key h = elim (Option-cases (arg_key target)) [
    | inl e ↦ rw (e, inject_arg)
    | inr (k, e) ↦
        rw (e, inject_arg)
          (lookup-insert_ne k key (str value) entries
            (λ q. (rw (e, inject_arg) at h) (Mem-append_right keys (k ∷ []) (Memᴰ.head (sym q)))))
  ]

  module _ (get : String → SecretResult) where
    keys_kept :
        (refs : List SecretRef) (accessed keys : List String) (args : Args O) (a k : List String)
        (args' : Args O) (key : String)
        → inject_from get refs accessed keys args ≡ injected a k args'
        → Memᴰ key keys
        → Memᴰ key k
    unfolding inject_from
    keys_kept [] accessed keys args a k args' key h m = rw (← injected_keys h) m
    keys_kept (ref ∷ refs) accessed keys args a k args' key h m =
        elim (inject_one-Turn (get ref.name) ref (inject_from get refs) accessed keys args a k args'
          h) [
            | reads value e next ↦
                keys_kept refs _ (inject_arg args ref.inject_as value keys).1 _ a k args' key next
                  (Mem-inject_arg args ref.inject_as value keys key m)
            | skips e next ↦ keys_kept refs accessed keys args a k args' key next m
          ]

    from-frame :
        (refs : List SecretRef) (accessed keys : List String) (args : Args O) (a k : List String)
        (args' : Args O) (key : String)
        → inject_from get refs accessed keys args ≡ injected a k args'
        → ¬ Memᴰ key k
        → get_arg key args' ≡ get_arg key args
    unfolding inject_from
    from-frame [] accessed keys args a k args' key h m = rw (injected_args h)
    from-frame (ref ∷ refs) accessed keys args a k args' key h m =
        elim (inject_one-Turn (get ref.name) ref (inject_from get refs) accessed keys args a k args'
          h) [
            | reads value e next ↦
                from-frame refs _ (inject_arg args ref.inject_as value keys).1
                  (inject_arg args ref.inject_as value keys).0 a k args' key next m
                ∙ inject_arg-frame args ref.inject_as value keys key
                    (λ q. m (keys_kept refs _ _ _ a k args' key next q))
            | skips e next ↦ from-frame refs accessed keys args a k args' key next m
          ]

    from-required :
        (refs : List SecretRef) (accessed keys : List String) (args : Args O) (a k : List String)
        (args' : Args O) (ref : SecretRef)
        → inject_from get refs accessed keys args ≡ injected a k args'
        → Memᴰ ref refs
        → ref.required ≡ true
        → (value : String) × (get ref.name ≡ found value)
    unfolding inject_from
    from-required [] accessed keys args a k args' ref h m r = elim m [ ]
    from-required (ref' ∷ refs) accessed keys args a k args' ref h m r =
        elim (inject_one-Turn (get ref'.name) ref' (inject_from get refs) accessed keys args a k
          args' h) [
            | reads value e next ↦ elim (Mem-cons m) [
              | inl q ↦ (value, rw q e)
              | inr m' ↦ from-required refs _ _ _ a k args' ref next m' r
            ]
            | skips e next ↦ elim (Mem-cons m) [
              | inl q ↦ cc
              | inr m' ↦ from-required refs accessed keys args a k args' ref next m' r
            ]
          ]

  -- Injection changes no argument but those whose keys it reports.
  pub inject_secrets-frame :
      (store : Option (String → SecretResult)) (refs : List SecretRef) (args : Args O)
      (a k : List String) (args' : Args O) (key : String)
      → inject_secrets store refs args ≡ injected a k args'
      → ¬ Memᴰ key k
      → get_arg key args' ≡ get_arg key args
  unfolding inject_secrets
  inject_secrets-frame none refs args a k args' key h m = rw (injected_args h)
  inject_secrets-frame (some get) refs args a k args' key h m =
      from-frame get refs [] [] args a k args' key h m

  -- With a store, injection succeeds only if every required secret was found in it.
  pub inject_secrets-required :
      (get : String → SecretResult) (refs : List SecretRef) (args : Args O) (a k : List String)
      (args' : Args O) (ref : SecretRef)
      → inject_secrets (some get) refs args ≡ injected a k args'
      → Memᴰ ref refs
      → ref.required ≡ true
      → (value : String) × (get ref.name ≡ found value)
  unfolding inject_secrets
  inject_secrets-required get refs args a k args' ref h m r =
      from-required get refs [] [] args a k args' ref h m r
