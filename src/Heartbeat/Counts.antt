-- ===== src/Heartbeat/Counts.antt =====
-- What a heartbeat of internal/heartbeat/heartbeat.go counts and which states it leads to.
use hive_agent.Prelude.{
  ℕ, ◌+◌, String, ◌≡◌, refl, ap, ◌∙◌, ◌⊎◌, inl, inr, List, [], ◌∷◌, arith, length, Option-cases,
}
use hive_agent.Kube.Api.{Clientset}
use hive_agent.Kube.Health.{health}
use hive_agent.State.{degraded}
use hive_agent.State.Diagram.{◌⟶◌}
use hive_agent.Registration.Retry.{Session}
use hive_agent.Registration.Client.{Client, heartbeat}
use hive_agent.Agent.{Agent}
use hive_agent.Agent.Moves.{counters-move, state-move}
use hive_agent.Heartbeat.{payload_of, once, run, count_failure}

abbrev pub beats : Agent → ℕ
beats a = a.metrics.heartbeats + a.metrics.heartbeat_failures

once-beats :
    (api : Client) (id : String) (kube : Clientset) (now : ℕ) (a : Agent) (s : Session)
    → beats (once api id kube now a s).0 ≡ beats a + 1
unfolding once
once-beats api id kube now a s = elim (Option-cases (health kube).1) [
  | inr (_, e) ↦
      let same =
        counters-move (record a { metrics = count_failure a.metrics }) degraded
          "kubernetes health collection failed" now in
      rw (once, e)
        (ground (arith, ap (λ c. c.heartbeats) same, ap (λ c. c.heartbeat_failures) same))
  | inl e ↦ elim (Option-cases (heartbeat api (payload_of id (health kube).0 a.machine now) s).0) [
    | inl f ↦ rw (once, e, f) (omega arith)
    | inr (_, f) ↦ rw (once, e, f) (omega arith)
  ]
]

-- Every round of the heartbeat is counted exactly once, as sent or as failed.
pub run-beats :
    (api : Client) (id : String) (rounds : List (Clientset × ℕ)) (a : Agent) (s : Session)
    → beats (run api id rounds a s).0 ≡ beats a + length rounds
unfolding run
run-beats api id [] a s = omega arith
run-beats api id ((kube, now) ∷ later) a s =
    let (a', s') = once api id kube now a s in
    omega (arith, run-beats api id later a' s', once-beats api id kube now a s)

once-state :
    (api : Client) (id : String) (kube : Clientset) (now : ℕ) (a : Agent) (s : Session)
    → ((once api id kube now a s).0.machine.state ≡ a.machine.state)
      ⊎ (((once api id kube now a s).0.machine.state ≡ degraded) × (a.machine.state ⟶ degraded))
unfolding once
once-state api id kube now a s = elim (Option-cases (health kube).1) [
  | inr (_, e) ↦
      rw (once, e) (state-move (record a { metrics = count_failure a.metrics }) degraded _ now)
  | inl e ↦ elim (Option-cases (heartbeat api (payload_of id (health kube).0 a.machine now) s).0) [
    | inl f ↦ rw (once, e, f) (inl refl)
    | inr (_, f) ↦ rw (once, e, f) (inl refl)
  ]
]

-- The heartbeat alone never changes the state but to `degraded`: whatever the cluster and the control
-- plane answer, the state is at the end what it was, or it is `degraded`.
pub run-state :
    (api : Client) (id : String) (rounds : List (Clientset × ℕ)) (a : Agent) (s : Session)
    → ((run api id rounds a s).0.machine.state ≡ a.machine.state)
      ⊎ ((run api id rounds a s).0.machine.state ≡ degraded)
unfolding run
run-state api id [] a s = inl refl
run-state api id ((kube, now) ∷ later) a s =
    let (a', s') = once api id kube now a s in
    elim (run-state api id later a' s') [
      | inr d ↦ inr d
      | inl e ↦ elim (once-state api id kube now a s) [
        | inl f ↦ inl (e ∙ f)
        | inr (f, _) ↦ inr (e ∙ f)
      ]
    ]
