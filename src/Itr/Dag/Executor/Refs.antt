-- ===== src/Itr/Dag/Executor/Refs.antt =====
-- The `#node` references of a plan, and that a node's request reads no other result.
use dragonscale.Prelude.{
  ℕ, zero, suc, ◌+◌, ◌≡◌, refl, sym, ap, subst, Bool, true, ◌&&◌, List, [], ◌∷◌, ◌++◌, ◌∙◌, Option,
  none, some, length, Memᴰ, if◌then◌else◌, arith, Option-cases, inl, inr,
}
use dragonscale.Prelude.Text.{codes, contains_codes}
use dragonscale.Itr.Dag.Resolver.{NodeState}
use dragonscale.Itr.Dag.Degrees.{mem}
use dragonscale.Itr.Dag.Plan.{PlanNode, Response}
use dragonscale.Itr.Dag.Executor.{find_state, find_node}
use dragonscale.Itr.Dag.Executor.Requests.{
  CommandType, tool_exec, tool_search, Payload, exec_payload, search_payload, other_payload,
  Command, ToolRequest, reference, replacement, resolve_from, node_to_request, execute_node,
  Executor, services_of,
}
use dragonscale.Itr.Dag.Executor.Dataflow.{Local}

-- The references of a text behind the given number of bytes.
abbrev pub refs_from : ℕ → List ℕ → List (List ℕ)
refs_from skip [] = []
refs_from (suc skip) (c ∷ cs) = refs_from skip cs
refs_from zero (c ∷ cs) = elim (reference (c ∷ cs)) [
  | none ↦ refs_from zero cs
  | some id ↦ id ∷ refs_from (4 + length id) cs
]

abbrev pub refs_of : Command → List (List ℕ)
refs_of c = elim c.payload [
  | exec_payload name args ↦ refs_from 0 args
  | search_payload query limit ↦ []
  | other_payload name contents ↦ []
]

module _ (dec : Discrete (List ℕ)) where
  abbrev pub all_in : List (List ℕ) → List (List ℕ) → Bool
  all_in [] deps = true
  all_in (r ∷ rs) deps = mem dec r deps && all_in rs deps

  -- Each reference of a node is to a dependency of the state that the node's id has.
  abbrev pub refs_declared : List (NodeState (List ℕ)) → List (PlanNode (List ℕ) Command) → Bool
  refs_declared states [] = true
  refs_declared states (n ∷ ns) =
      (elim (find_state dec n.id states) [
        | none ↦ true
        | some s ↦ all_in (refs_of n.payload) s.depends_on
      ])
      && refs_declared states ns

  mem-Mem : (d : List ℕ) (deps : List (List ℕ)) → mem dec d deps ≡ true → Memᴰ d deps
  mem-Mem d [] h = absurd (ground (arith, h))
  mem-Mem d (e ∷ deps) h = elim (dec e d) [
    | yes p ↦ subst (λ i. Memᴰ i (e ∷ deps)) p (Memᴰ.head refl)
    | no p ↦ Memᴰ.tail (mem-Mem d deps (ground (arith, h, p)))
  ]

  module _ (marshal : List ℕ → Option (List ℕ)) (f g : List ℕ → Option (List ℕ))
      (deps : List (List ℕ)) (agree : (d : List ℕ) → Memᴰ d deps → f d ≡ g d) where
    resolve_from-agree :
        (skip : ℕ) (args : List ℕ)
        → all_in (refs_from skip args) deps ≡ true
        → resolve_from marshal f skip args ≡ resolve_from marshal g skip args
    resolve_from-agree skip [] h = refl
    resolve_from-agree (suc skip) (c ∷ cs) h = resolve_from-agree skip cs h
    resolve_from-agree zero (c ∷ cs) h = elim (Option-cases (reference (c ∷ cs))) [
      | inl e ↦
          rw (e, resolve_from)
            (ap (λ rest. c ∷ rest) (resolve_from-agree 0 cs (ground (arith, h, e))))
      | inr (id, e) ↦
          let both : all_in (id ∷ refs_from (4 + length id) cs) deps ≡ true =
            ground (arith, h, e) in
          let here = agree id (mem-Mem id deps (ground (arith, both))) in
          let rest = resolve_from-agree (4 + length id) cs (ground (arith, both)) in
          rw (e, resolve_from)
            (ap (λ o. replacement marshal id o ++ resolve_from marshal f (4 + length id) cs) here
              ∙ ap (λ l. replacement marshal id (g id) ++ l) rest)
    ]

    node_to_request-agree :
        (session id : List ℕ) (d : List (List ℕ)) (kind : CommandType) (p : Payload)
        → all_in (refs_of (record { kind = kind; payload = p })) deps ≡ true
        → let n : PlanNode (List ℕ) Command = record {
          id = id;
          depends_on = d;
          payload = record { kind = kind; payload = p };
        } in
          node_to_request marshal session n f ≡ node_to_request marshal session n g
    unfolding node_to_request
    node_to_request-agree session id d tool_exec (exec_payload name args) h =
        ap
          (λ text. inr (record {
            id = id;
            kind = tool_exec;
            payload =
                exec_payload name (if contains_codes args (codes "#node") then text else args);
            session_key = session;
            tool_call_id = id;
          }))
          (resolve_from-agree 0 args h)
    node_to_request-agree session id d tool_exec (search_payload query limit) h = refl
    node_to_request-agree session id d tool_exec (other_payload name contents) h = refl
    node_to_request-agree session id d tool_search p h = elim p [
      | exec_payload name args ↦ refl
      | _ ↦ refl
    ]
    node_to_request-agree session id d kind p h = refl

    execute_node-agree :
        (session : List ℕ) (bus : ToolRequest → Response) (n : PlanNode (List ℕ) Command)
        → all_in (refs_of n.payload) deps ≡ true
        → execute_node marshal session bus n f ≡ execute_node marshal session bus n g
    unfolding execute_node
    execute_node-agree session bus n h =
        ap
          (λ r. elim r as (λ x. Response) [
            | inl message ↦ record { result = message; is_error = true; cost_tokens = 0 }
            | inr request ↦ bus request
          ])
          (node_to_request-agree session n.id n.depends_on n.payload.kind n.payload.payload h)

  find_node-declared :
      (states : List (NodeState (List ℕ))) (ns : List (PlanNode (List ℕ) Command)) (k : List ℕ)
      (s : NodeState (List ℕ)) (n : PlanNode (List ℕ) Command)
      → refs_declared states ns ≡ true
      → find_state dec k states ≡ some s
      → find_node dec k ns ≡ some n
      → all_in (refs_of n.payload) s.depends_on ≡ true
  unfolding find_node
  find_node-declared states [] k s n d h f = absurd (ground (arith, f))
  find_node-declared states (m ∷ ns) k s n d h f = elim (dec m.id k) [
    | yes p ↦
        let here : find_state dec m.id states ≡ some s =
          subst (λ i. find_state dec i states ≡ some s) (sym p) h in
        let first : all_in (refs_of m.payload) s.depends_on ≡ true = ground (arith, d, here) in
        let same : m ≡ n = ground (arith, f, p) in
        subst (λ x. all_in (refs_of x.payload) s.depends_on ≡ true) same first
    | no p ↦ find_node-declared states ns k s n (ground (arith, d)) h (ground (arith, f, p))
  ]

  pub services_of-Local :
      (e : Executor) (session query : List ℕ) (plan : List (PlanNode (List ℕ) Command))
      (states : List (NodeState (List ℕ)))
      → refs_declared states plan ≡ true
      → Local dec (services_of e session query) plan states
  services_of-Local e session query plan states d s n f g h found agree =
      execute_node-agree e.marshal f g s.depends_on agree session e.bus n
        (find_node-declared states plan s.id s n d h found)
