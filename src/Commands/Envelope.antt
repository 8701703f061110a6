-- ===== src/Commands/Envelope.antt =====
-- The envelope of every response of internal/commands/commands.go.
use hive_agent.Prelude.{String, ◌≡◌, refl, ◌⊎◌, inl, inr, true, false, Bool-cases}
use hive_agent.Prelude.Int.{ℤ}
use hive_agent.Prelude.Result.{Result-cases}
use hive_agent.Value.{Float64, object, empty}
use hive_agent.Kube.Api.{Clientset}
use hive_agent.Capabilities as Capabilities
use hive_agent.Commands.Run.{Request, Clock, run, fail, execute}
use hive_agent.Commands.Allowed.{is_allowed-contains}

module _ (wild : Float64 → ℤ) (cluster : String) (kube : Clientset) (clock : Clock)
    (req : Request) where
  -- A response repeats the command and the request's id, and names the executor's cluster, whatever
  -- happens. Either its status is "success", its error empty and the command one of the capabilities,
  -- or its status is "error" and its data the empty map.
  pub execute_envelope :
      ((execute wild cluster kube clock req).command ≡ req.command)
      × ((execute wild cluster kube clock req).request_id ≡ req.request_id)
      × ((execute wild cluster kube clock req).cluster_id ≡ cluster)
      × ((((execute wild cluster kube clock req).status ≡ "success")
            × ((execute wild cluster kube clock req).error ≡ "")
            × (Capabilities.contains req.command ≡ true))
          ⊎ (((execute wild cluster kube clock req).status ≡ "error")
              × ((execute wild cluster kube clock req).data_value ≡ object empty)))
  unfolding execute
  execute_envelope = elim (Bool-cases (Capabilities.contains req.command)) [
    | inr other ↦ rw (is_allowed-contains, other) (refl, refl, refl, inr (refl, refl))
    | inl listed ↦ elim (Result-cases (run wild kube req)) [
      | inl (v, e) ↦ rw (is_allowed-contains, listed, e) (refl, refl, refl, inl (refl, refl, refl))
      | inr (t, e) ↦ rw (is_allowed-contains, listed, e) (refl, refl, refl, inr (refl, refl))
    ]
  ]

  -- A command that is none of the capabilities is refused with "unsupported capability", whatever
  -- its parameters and whatever the cluster answers.
  pub execute_unsupported :
      Capabilities.contains req.command ≡ false
      → execute wild cluster kube clock req ≡ fail cluster clock req "unsupported capability"
  unfolding execute
  execute_unsupported h = rw (is_allowed-contains, h)

  -- A response has the time and the duration of the clock, whatever happens.
  pub execute_clock :
      ((execute wild cluster kube clock req).timestamp ≡ clock.now)
      × ((execute wild cluster kube clock req).duration_millis ≡ clock.elapsed)
  unfolding execute
  execute_clock = elim (Bool-cases (Capabilities.contains req.command)) [
    | inr other ↦ rw (is_allowed-contains, other) (refl, refl)
    | inl listed ↦ elim (Result-cases (run wild kube req)) [
      | inl (v, e) ↦ rw (is_allowed-contains, listed, e) (refl, refl)
      | inr (t, e) ↦ rw (is_allowed-contains, listed, e) (refl, refl)
    ]
  ]
