-- ===== src/Fantasy/React/Chain.antt =====
-- The log is a connected path of permitted transitions.
use dragonscale.Prelude.{
  ℕ, ◌≡◌, refl, Bool, true, false, none, some, List, [], ◌∷◌, ◌++◌, ◌⊎◌, inl, inr, arith, ap,
  Option-cases,
}
use dragonscale.Fantasy.React.Machine.{
  ReActState, ReActTrigger, ReActTransition, ReActFsm, StateMachine, init, configure, permitted,
  new_react_fsm, notify, on_transitioned, fire, fire_all,
}

-- `Chain s l e`: the transitions of `l`, oldest first, lead from `s` to `e`, each one permitted.
abbrev pub Chain : ReActState → List ReActTransition → ReActState → Type 0
Chain s [] e = s ≡ e
Chain s (t ∷ l) e =
    (t.from ≡ s) × (permitted (configure t.from) t.trigger ≡ some t.to) × Chain t.to l e

Chain-snoc :
    (s e : ReActState) (l : List ReActTransition) (t : ReActTransition)
    → Chain s l e
    → t.from ≡ e
    → permitted (configure t.from) t.trigger ≡ some t.to
    → Chain s (l ++ (t ∷ [])) t.to
Chain-snoc s e [] t c f p = (cc, p, refl)
Chain-snoc s e (u ∷ l) t c f p = (c.0, c.1, Chain-snoc u.to e l t c.2 f p)

-- The last transition of a chain.
pub record Last (s : ReActState) (l : List ReActTransition) (e : ReActState) : Type 0 where
  pub front : List ReActTransition
  pub last : ReActTransition
  pub split : l ≡ front ++ (last ∷ [])
  pub before : Chain s front last.from
  pub step : permitted (configure last.from) last.trigger ≡ some last.to
  pub ends : last.to ≡ e

pub Chain-Last :
    (s e : ReActState) (l : List ReActTransition) → Chain s l e → ((l ≡ []) × (s ≡ e)) ⊎ Last s l e
Chain-Last s e [] c = inl (refl, c)
Chain-Last s e (t ∷ l) c = elim (Chain-Last t.to e l c.2) [
  | inl r ↦
      inr (record {
        front = [];
        last = t;
        split = ap (◌∷◌ t) r.0;
        before = cc;
        step = c.1;
        ends = r.1;
      })
  | inr r ↦ inr (record {
    front = t ∷ r.front;
    last = r.last;
    split = ap (◌∷◌ t) r.split;
    before = (c.0, c.1, r.before);
    step = r.step;
    ends = r.ends;
  })
]

-- What holds of a machine between two triggers.
pub record IsTraced (f : ReActFsm) : Type 0 where
  pub chained : Chain init f.log f.state
  pub told : (f.observer ≡ none) ⊎ (f.observer ≡ some f.log)

pub new_react_fsm-IsTraced : (b : Bool) → IsTraced (new_react_fsm b)
unfolding new_react_fsm
new_react_fsm-IsTraced true = record { chained = refl; told = inr refl }
new_react_fsm-IsTraced false = record { chained = refl; told = inl refl }

module _ (sm : StateMachine) where
  pub fire-IsTraced :
      (f : ReActFsm) (t : ReActTrigger) (now step : ℕ)
      → IsTraced f
      → IsTraced (fire sm f t now step)
  unfolding fire on_transitioned notify
  fire-IsTraced f t now step h = elim (Option-cases (sm.fire_ctx configure f.state t)) [
    | inl e ↦ rw (e, fire) h
    | inr (to, e) ↦
        rw (e, fire)
          (record {
            chained =
                Chain-snoc init f.state f.log _ h.chained refl
                  (cc (sm.fire_permitted configure f.state t));
            told = ground (arith, h.told);
          })
  ]

  -- However the machine is driven from a new one, its log is a connected path of permitted
  -- transitions from `init` to its state, and an observer was told exactly the log.
  pub fire_all-IsTraced :
      (f : ReActFsm) (ts : List (ReActTrigger × ℕ × ℕ)) → IsTraced f → IsTraced (fire_all sm f ts)
  unfolding fire_all
  fire_all-IsTraced f [] h = h
  fire_all-IsTraced f ((t, now, step) ∷ ts) h =
      fire_all-IsTraced (fire sm f t now step) ts (fire-IsTraced f t now step h)
