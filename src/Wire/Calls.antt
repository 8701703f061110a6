-- ===== src/Wire/Calls.antt =====
-- `Invoke` of internal/holmesprovider/provider.go over agents that are reached through the tunnel.
use hive_agent.Prelude.{
  ℕ, ◌<◌, ◌≡◌, ◌≢◌, sym, inl, inr, ap, ◌∙◌, refl, true, false, some, List, [], length, get_elem?,
  In, eq_iff,
}
use hive_agent.Prelude.Int.{ℤ}
use hive_agent.Value.{Float64}
use hive_agent.Capabilities as Capabilities
use hive_agent.Commands.Params.{str}
use hive_agent.Commands.Supported.{AnswersAll, execute_supported}
use hive_agent.Commands.Envelope.{execute_envelope}
use hive_agent.Holmes.Types.{
  ToolDefinition, ClusterInfo, ToolInvocation, NormalizedResult, AggregatedResult,
}
use hive_agent.Holmes.Registry.{tool_of}
use hive_agent.Holmes.Provider.{
  Provider, Dispatcher, Clock, chosen, resolve_clusters, normalize, command_of, invoke,
}
use hive_agent.Holmes.Outcome.{invoke_answers}
use hive_agent.Wire.{Codec}
use hive_agent.Wire.Parameters.{IsPlain, IsTyped, sent}
use hive_agent.Wire.Relay.{Fleet, IsTimed, Relays, executed, shown, result_at-shown}

module _ (codec : Codec) (wild : Float64 → ℤ) (f : Fleet) (p : Provider) (d : Dispatcher)
    (clock : Clock) (schedule : List ℕ) (inv : ToolInvocation) (def : ToolDefinition)
    (l : List ClusterInfo) (plain : IsPlain codec) (timed : IsTimed codec wild f)
    (relays : Relays codec wild f d) (typed : IsTyped inv.parameters)
    (has_d : p.dispatcher ≡ some d) (has_tool : tool_of p.registry inv.tool ≡ some def)
    (resolved : resolve_clusters p.registry inv.target inv.tool ≡ chosen l) (some_cluster : l ≢ [])
    (every : (i : ℕ) → i < length l → In i schedule) where
  -- When the dispatcher relays the calls to the agents, the codec keeps texts, exact numbers and
  -- times, and the parameters are of the declared types, `Invoke` over the resolved clusters
  -- answers, and each slot shows what `Execute` of its cluster's agent makes of the parameters of
  -- the call itself: the way there and back changes nothing but the data, which is carried by the
  -- codec.
  pub invoke_relayed :
      (answer : AggregatedResult) × ((invoke p clock schedule inv).0 ≡ chosen answer)
      × (length answer.results ≡ length l)
      × ((i : ℕ) (cluster : ClusterInfo)
          → get_elem? l i ≡ some cluster
          → get_elem? answer.results i ≡ some (shown codec wild f d inv i cluster))
  invoke_relayed =
      let (answer, e, long, slots, _, _, _) =
        invoke_answers p d clock schedule inv def l has_d has_tool resolved some_cluster every in
      (
        answer,
        e,
        long,
        λ i cluster at.
            slots i cluster at
            ∙ ap (λ (r : NormalizedResult). some r)
                (result_at-shown codec wild f d inv i cluster plain timed relays typed),
      )

  slot_succeeds :
      ((cluster : ClusterInfo) → AnswersAll (f.kube cluster))
      → Capabilities.contains inv.tool ≡ true
      → str inv.parameters "namespace" "" ≢ ""
      → str inv.parameters "name" "" ≢ ""
      → (i : ℕ) (cluster : ClusterInfo)
      → ((executed codec wild f i cluster (command_of inv)).status ≡ "success")
        × ((executed codec wild f i cluster (command_of inv)).error ≡ "")
  slot_succeeds answers listed hn hp i cluster =
      let req = sent (command_of inv) in
      let id = cluster.cluster_id in
      let kube = f.kube cluster in
      let status = execute_supported wild kube (answers cluster) req hn hp id (f.clock i) listed in
      let (_, _, _, way) = execute_envelope wild id kube (f.clock i) req in
      elim way [
        | inl (fine, no_error, _) ↦ (fine, no_error)
        | inr (failed, _) ↦
            let impossible : false ≡ true = (eq_iff "success" "error").1 (sym status ∙ failed) in
            absurd (cc)
      ]

  -- When moreover the API of each cluster answers every question, the tool is a capability of the
  -- agents, and the call names a namespace and a pod, every slot has the status "success", no error,
  -- the tool, and the id of its cluster.
  pub invoke_served :
      ((cluster : ClusterInfo) → AnswersAll (f.kube cluster))
      → Capabilities.contains inv.tool ≡ true
      → str inv.parameters "namespace" "" ≢ ""
      → str inv.parameters "name" "" ≢ ""
      → (answer : AggregatedResult) × ((invoke p clock schedule inv).0 ≡ chosen answer)
        × ((i : ℕ) (cluster : ClusterInfo)
            → get_elem? l i ≡ some cluster
            → (r : NormalizedResult) × (get_elem? answer.results i ≡ some r)
              × (r.status ≡ "success")
              × (r.error ≡ "")
              × (r.command ≡ inv.tool)
              × (r.cluster_id ≡ cluster.cluster_id))
  unfolding normalize
  invoke_served answers listed hn hp =
      let (answer, e, long, slots) = invoke_relayed in
      (
        answer,
        e,
        λ i cluster at.
            let (status, error) = slot_succeeds answers listed hn hp i cluster in
            (shown codec wild f d inv i cluster, slots i cluster at, status, error, refl, refl),
      )
