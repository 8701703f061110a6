-- ===== src/Holmes/Declared.antt =====
-- The tools that internal/holmesprovider/tools.go offers and the commands that
-- internal/commands/commands.go executes under their names: the parameters, their defaults, and
-- those that must be given.
mod Examples
use hive_agent.Prelude.{
  String, ◌≡◌, ◌≢◌, refl, sym, ap, subst, ◌∙◌, ◌||◌, Bool, true, false, inl, inr, Option, none,
  some, List, [], ◌∷◌, ◌==◌, eq_iff, if◌then◌else◌, arith, In, Bool-cases,
}
use hive_agent.Prelude.Int.{ℤ, pos}
use hive_agent.Prelude.Result.{err}
use hive_agent.Value.{Value, Object, empty, object, strings, string, int, Float64}
use hive_agent.Value.Fields.{get_field}
use hive_agent.Kube.Api.{Clientset}
use hive_agent.Capabilities as Capabilities
use hive_agent.Commands.Names.{Name, text, contains-text, get_pod, describe_pod, get_logs}
use hive_agent.Commands.Allowed.{is_allowed-contains}
use hive_agent.Kube.Queries as Queries
use hive_agent.Commands.Params.{str, integer, as_string, as_integer}
use hive_agent.Commands.Arguments.{
  parameter, set_parameter, str-parameter, integer-parameter, parameter-set_parameter, execute-run,
}
use hive_agent.Commands.Run.{Clock, Response, is_allowed, fail, run, execute}
use hive_agent.Holmes.Tools.{namespace_params, pod_params, logs_params}
use hive_agent.Holmes.Types.{ToolDefinition}
use hive_agent.Holmes.Registry.{tool_of}
use hive_agent.Holmes.Provider.{Dispatcher, new_provider}
use hive_agent.Holmes.Catalogue.{is_some, default_tool_iff_capability}
use hive_agent.Holmes.Contract.{
  declared, default_of, required_of, declared-SameFor, default-SameFor,
}
use hive_agent.Holmes.Shapes.{
  Shape, nothing, any_namespace, one_pod, one_log, shape, schema, offered, SameFor, same_nothing,
  same_namespace, same_pod, same_log, request, run-SameFor, tool_name-text,
}

offered_listed :
    (dispatcher : Option Dispatcher) (audit : Bool) (name : String) (def : ToolDefinition)
    → tool_of (new_provider none dispatcher audit).registry name ≡ some def
    → Capabilities.contains name ≡ true
offered_listed dispatcher audit name def h =
    sym (default_tool_iff_capability dispatcher audit name)
    ∙ ap (λ (o : Option ToolDefinition). is_some o) h

abbrev ChosenName : (name : String) (def : ToolDefinition) → Type 0
ChosenName name def = (k : Name) × (text k ≡ name) × (def.parameters ≡ schema (shape k))

offers_named :
    (dispatcher : Option Dispatcher) (audit : Bool) (name : String) (def : ToolDefinition)
    → tool_of (new_provider none dispatcher audit).registry name ≡ some def
    → ChosenName name def
offers_named dispatcher audit name def h =
    let r = (new_provider none dispatcher audit).registry in
    let (k, e) = contains-text name (offered_listed dispatcher audit name def h) in
    let (d, found, _, params) = offered dispatcher audit k in
    let same : some d ≡ some def =
      sym found ∙ ap (λ (n : String). tool_of r n) (tool_name-text k ∙ e) ∙ h in
    let equal : d ≡ def = cc in
    (k, e, ap (λ (t : ToolDefinition). t.parameters) (sym equal) ∙ params)

module _ (dispatcher : Option Dispatcher) (audit : Bool) (wild : Float64 → ℤ) (kube : Clientset)
    (cluster id name : String) (clock : Clock) (def : ToolDefinition)
    (found : tool_of (new_provider none dispatcher audit).registry name ≡ some def) where
  abbrev response : Option Object → Response
  response p = execute wild cluster kube clock (request id name p)

  SameFor-response :
      (p q : Option Object)
      → ((k : Name) → def.parameters ≡ schema (shape k) → SameFor wild p q (shape k))
      → response q ≡ response p
  SameFor-response p q same =
      let (k, e, s) = offers_named dispatcher audit name def found in
      let runs = run-SameFor wild kube id p q k (same k s) in
      execute-run wild kube (request id name p) q
        (subst (λ (n : String). run wild kube (request id n p) ≡ run wild kube (request id n q)) e
          runs)
        cluster clock

  -- The agent's answer to a tool depends on no parameter that the tool's schema does not declare:
  -- with any two maps of parameters that agree on the declared names, the response is the same.
  pub only_declared :
      (p q : Option Object)
      → ((key : String) → declared def.parameters key ≢ none → parameter p key ≡ parameter q key)
      → execute wild cluster kube clock (request id name q)
        ≡ execute wild cluster kube clock (request id name p)
  only_declared p q agree = SameFor-response p q (λ k s.
      declared-SameFor wild p q (shape k)
        (λ key is. agree key (λ no. is (subst (λ (o : Object). declared o key ≡ none) s no))))

  -- A default that a tool's schema declares is the agent's: a call without the parameter is answered as
  -- the call that gives it that value.
  pub declared_default :
      (p : Option Object) (key : String) (v : Value)
      → default_of def.parameters key ≡ some v
      → parameter p key ≡ none
      → execute wild cluster kube clock (request id name (set_parameter p key v))
        ≡ execute wild cluster kube clock (request id name p)
  declared_default p key v h absent = SameFor-response p (set_parameter p key v) (λ k s.
      default-SameFor wild p key v absent (shape k)
        (subst (λ (o : Object). default_of o key ≡ some v) s h))

  blank :
      (p : Option Object) (key other : String)
      → key ≡ other
      → parameter p key ≡ none
      → (str p other "" == "") ≡ true
  blank p key other e absent =
      let none_here = subst (λ (k : String). parameter p k ≡ none) e absent in
      rw (str-parameter p other "", none_here) refl

  missing_blank :
      (p : Option Object) (key : String)
      → In key ("namespace" ∷ "name" ∷ [])
      → parameter p key ≡ none
      → (str p "namespace" "" == "" || str p "name" "" == "") ≡ true
  missing_blank p key (inl e) absent = rw (blank p key "namespace" e absent) refl
  missing_blank p key (inr (inl e)) absent = elim (Bool-cases (str p "namespace" "" == "")) [
    | inl n ↦ rw n refl
    | inr n ↦ rw (n, blank p key "name" e absent) refl
  ]
  missing_blank p key (inr (inr m)) absent = absurd m.never

  missing-run :
      (p : Option Object) (key : String) (k : Name)
      → In key (required_of (schema (shape k)))
      → parameter p key ≡ none
      → run wild kube (request id (text k) p) ≡ err "namespace and name are required"
  unfolding run required_of Queries.get_pod Queries.get_logs
  missing-run p key get_pod m absent = rw (missing_blank p key m absent) refl
  missing-run p key describe_pod m absent = rw (missing_blank p key m absent) refl
  missing-run p key get_logs m absent = rw (missing_blank p key m absent) refl
  missing-run p key _ m absent = absurd m.never

  -- A call without a parameter that the tool's schema requires is answered with an error that says
  -- so, whatever the cluster.
  pub required_missing :
      (p : Option Object) (key : String)
      → In key (required_of def.parameters)
      → parameter p key ≡ none
      → execute wild cluster kube clock (request id name p)
        ≡ fail cluster clock (request id name p) "namespace and name are required"
  unfolding execute
  required_missing p key m absent =
      let (k, e, s) = offers_named dispatcher audit name def found in
      let due = subst (λ (o : Object). In key (required_of o)) s m in
      let message : String = "namespace and name are required" in
      let runs =
        subst (λ (n : String). run wild kube (request id n p) ≡ err message) e
          (missing-run p key k due absent) in
      rw (is_allowed-contains, offered_listed dispatcher audit name def found, runs) refl
