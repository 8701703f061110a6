-- ===== src/Executor/Told.antt =====
-- What the goroutines of internal/executor/executor.go say and count, in whatever order their turns
-- come.
use hive_agent.Prelude.{
  ℕ, ◌+◌, String, ◌≡◌, refl, sym, ap, ◌∙◌, inl, inr, false, Option, some, List, [], ◌∷◌, ◌++◌,
  arith, ◌==◌, length, get_elem?, get_elem?-append, get_elem?-none, eqb, ltb, sum_by-append,
  Bool-cases, Option-cases, subst,
}
use mathlib.Core.List.{append-nil}
use hive_agent.Prelude.Int.{ℤ}
use hive_agent.Value.{Float64}
use hive_agent.Kube.Api.{Clientset}
use hive_agent.Telemetry.{Metrics}
use hive_agent.Commands.Run.{Request, Response, Clock, execute}
use hive_agent.Executor.{Message, command_result, Executor}
use hive_agent.Executor.Metering.{not_failed}
use hive_agent.Executor.Said.{
  counts, running, IsResult, Said, IsTold, moved-IsTold, passed_here, passed_else,
}
use hive_agent.Executor.Jobs.{
  Phase, starting, executing, counting, answering, finished, Job, Crew, Event, arrives, connects,
  works, send, tell, count, turn, happen, happen_all, of_job, no_crew,
}

module _ (wild : Float64 → ℤ) (e : Executor) (write_json : ℕ → Message → Option String) where
  count_result :
      (cmd : Request) (res : Response) (m : Metrics)
      → IsResult wild e cmd res
      → ((count res m).commands ≡ m.commands + 1)
        × ((count res m).command_failures ≡ m.command_failures)
  unfolding count
  count_result cmd res m (kube, clock, same) =
      let fine : (res.status == "failed") ≡ false =
        rw same (not_failed wild e kube 0 clock m cmd) in
      rw fine (refl, refl)

  turn-IsTold :
      (m : Metrics) (now : ℕ) (kube : Clientset) (clock : Clock) (i : ℕ) (request : Request)
      (phase : Phase) (crew : Crew)
      → IsTold wild e m crew
      → get_elem? crew.jobs i ≡ some (record { request = request; phase = phase })
      → IsTold wild e m (
          turn wild e write_json now kube clock i
            (record { request = request; phase = phase })
            crew)
  unfolding turn tell send count
  turn-IsTold m now kube clock i cmd starting crew told here =
      let job : Job = record { request = cmd; phase = starting } in
      let none_said = told.each i job here in
      moved-IsTold wild e m i job executing (running e cmd now ∷ []) crew _ told here refl
        (passed_here i (running e cmd now) crew.passed)
        (λ k t. passed_else i k (running e cmd now) crew.passed t)
        (now, ap (λ l. l ++ running e cmd now ∷ []) none_said) refl refl
  turn-IsTold m now kube clock i cmd executing crew told here =
      let job : Job = record { request = cmd; phase = executing } in
      let (t, said) = told.each i job here in
      moved-IsTold wild e m i job (counting (execute wild e.commands_cluster kube clock cmd)) []
        crew _ told here refl (sym (append-nil (of_job i crew.passed))) (λ k other. refl)
        (t, append-nil (of_job i crew.passed) ∙ said, (kube, clock, refl)) refl refl
  turn-IsTold m now kube clock i cmd (counting res) crew told here =
      let job : Job = record { request = cmd; phase = counting res } in
      let (t, said, result) = told.each i job here in
      let (one_more, same) = count_result cmd res crew.metrics result in
      moved-IsTold wild e m i job (answering res) [] crew _ told here refl
        (sym (append-nil (of_job i crew.passed))) (λ k other. refl)
        (t, append-nil (of_job i crew.passed) ∙ said, result) (omega (arith, one_more)) same
  turn-IsTold m now kube clock i cmd (answering res) crew told here =
      let job : Job = record { request = cmd; phase = answering res } in
      let (t, said, result) = told.each i job here in
      moved-IsTold wild e m i job finished (command_result res ∷ []) crew _ told here refl
        (passed_here i (command_result res) crew.passed)
        (λ k t. passed_else i k (command_result res) crew.passed t)
        (t, res, ap (λ l. l ++ command_result res ∷ []) said, result) refl refl
  turn-IsTold m now kube clock i cmd finished crew told here = told

  happen-IsTold :
      (m : Metrics) (x : Event) (crew : Crew)
      → IsTold wild e m crew
      → IsTold wild e m (happen wild e write_json x crew)
  unfolding happen
  happen-IsTold m (arrives cmd) crew told = record {
    each = λ i job found.
        let at = get_elem?-append crew.jobs (record { request = cmd; phase = starting }) i in
        elim (Bool-cases (ltb i (length crew.jobs))) [
          | inl old ↦ told.each i job (ground (arith, at, old, found))
          | inr new ↦ elim (Bool-cases (eqb i (length crew.jobs))) [
            | inl last ↦
                let it : record { request = cmd; phase = starting } ≡ job =
                  ground (arith, at, new, last, found) in
                subst (λ (o : Job). Said wild e o.request o.phase (of_job i crew.passed)) it
                  (told.beyond i (get_elem?-none crew.jobs i new))
            | inr past ↦ absurd (ground (arith, at, new, past, found))
          ]
        ];
    beyond = λ i absent.
        let at = get_elem?-append crew.jobs (record { request = cmd; phase = starting }) i in
        elim (Bool-cases (ltb i (length crew.jobs))) [
          | inl old ↦ told.beyond i (ground (arith, at, old, absent))
          | inr new ↦ told.beyond i (get_elem?-none crew.jobs i new)
        ];
    completed = omega (
      arith,
      told.completed,
      sum_by-append counts crew.jobs (record { request = cmd; phase = starting } ∷ []),
    );
    failures = told.failures;
  }
  happen-IsTold m (connects c) crew told = record {
    each = told.each;
    beyond = told.beyond;
    completed = told.completed;
    failures = told.failures;
  }
  happen-IsTold m (works i now kube clock) crew told = elim (Option-cases (get_elem? crew.jobs i)) [
    | inl e ↦ rw (happen, e) told
    | inr (job, e) ↦
        rw (happen, e) (turn-IsTold m now kube clock i job.request job.phase crew told e)
  ]

  all-IsTold :
      (m : Metrics) (events : List Event) (crew : Crew)
      → IsTold wild e m crew
      → IsTold wild e m (happen_all wild e write_json events crew)
  all-IsTold m [] crew told = told
  all-IsTold m (x ∷ later) crew told =
      all-IsTold m later (happen wild e write_json x crew) (happen-IsTold m x crew told)

  none-IsTold : (conn : Option ℕ) (m : Metrics) → IsTold wild e m (no_crew conn m)
  none-IsTold conn m = record {
    each = λ i job found. absurd (cc found);
    beyond = λ i absent. refl;
    completed = omega arith;
    failures = refl;
  }

  -- In whatever order commands arrive, connections are stored and the goroutines of the commands
  -- make their turns, each goroutine has passed to `Send` just what its place tells: nothing at
  -- first, then one status message of its request, and at its end also one result, which is that of
  -- its request over some answers of the cluster. The counter of completed commands has grown by one
  -- for each result that was counted, and the counter of failures has not grown.
  pub crew-IsTold :
      (conn : Option ℕ) (m : Metrics) (events : List Event)
      → IsTold wild e m (happen_all wild e write_json events (no_crew conn m))
  crew-IsTold conn m events = all-IsTold m events (no_crew conn m) (none-IsTold conn m)
