-- ===== src/Executor/Said.antt =====
-- What each goroutine of internal/executor/executor.go has said when it stands at a place, as an
-- invariant.
use hive_agent.Prelude.{
  ℕ, ◌+◌, ◌≡◌, refl, sym, ap, ◌∙◌, inl, inr, false, none, some, List, [], ◌∷◌, ◌++◌, arith,
  if◌then◌else◌, get_elem?, set, get_elem?-set, get_elem?-some_lt, eqb, sum_by, sum_by-set,
  Bool-cases, subst,
}
use mathlib.Core.List.{append-nil}
use hive_agent.Prelude.Int.{ℤ}
use hive_agent.Value.{Float64}
use hive_agent.Kube.Api.{Clientset}
use hive_agent.Telemetry.{Metrics}
use hive_agent.Commands.Run.{Request, Response, Clock, execute}
use hive_agent.Executor.{Message, command_status, command_result, Executor}
use hive_agent.Executor.Jobs.{
  Phase, starting, executing, counting, answering, finished, Job, Crew, of_job,
}

of_job-append :
    (i j : ℕ) (msg : Message) (l : List (ℕ × Message))
    → of_job i (l ++ (j, msg) ∷ []) ≡ of_job i l ++ (if eqb j i then msg ∷ [] else [])
of_job-append i j msg [] = elim (Bool-cases (eqb j i)) [ inl e ↦ rw e refl | inr e ↦ rw e refl ]
of_job-append i j msg ((k, other) ∷ l) =
    let rest = of_job-append i j msg l in
    elim (Bool-cases (eqb k i)) [ inl e ↦ rw (e, rest) refl | inr e ↦ rw (e, rest) refl ]

-- 1 once the result of the command has been counted
abbrev pub counts : Job → ℕ
counts job = elim job.phase [ answering res ↦ 1 | finished ↦ 1 | _ ↦ 0 ]

-- The jobs after a replacement.
found_here :
    (jobs : List Job) (i : ℕ) (old new : Job)
    → get_elem? jobs i ≡ some old
    → get_elem? (set jobs i new) i ≡ some new
found_here jobs i old new here =
    ground (arith, get_elem?-set jobs i i new (get_elem?-some_lt jobs i old here))

found_else :
    (jobs : List Job) (i k : ℕ) (old new : Job)
    → get_elem? jobs i ≡ some old
    → eqb i k ≡ false
    → get_elem? (set jobs i new) k ≡ get_elem? jobs k
found_else jobs i k old new here other =
    ground (arith, other, get_elem?-set jobs i k new (get_elem?-some_lt jobs i old here))

pub passed_here :
    (i : ℕ) (msg : Message) (l : List (ℕ × Message))
    → of_job i (l ++ (i, msg) ∷ []) ≡ of_job i l ++ msg ∷ []
passed_here i msg l = of_job-append i i msg l ∙ ground arith

pub passed_else :
    (i k : ℕ) (msg : Message) (l : List (ℕ × Message))
    → eqb i k ≡ false
    → of_job k (l ++ (i, msg) ∷ []) ≡ of_job k l
passed_else i k msg l t = of_job-append k i msg l ∙ rw t (append-nil (of_job k l))

abbrev pub running : Executor → Request → ℕ → Message
running e cmd t = command_status cmd.request_id e.cluster_id "running" t

module _ (wild : Float64 → ℤ) (e : Executor) where
  -- The result of a command, over what the cluster answered at some time.
  abbrev pub IsResult : Request → Response → Type 0
  IsResult cmd res =
      (kube : Clientset) × (clock : Clock) × (res ≡ execute wild e.commands_cluster kube clock cmd)

  -- What a goroutine has said when it stands at a phase.
  abbrev pub Said : Request → Phase → List Message → Type 0
  Said cmd starting l = l ≡ []
  Said cmd executing l = (t : ℕ) × (l ≡ running e cmd t ∷ [])
  Said cmd (counting res) l = (t : ℕ) × (l ≡ running e cmd t ∷ []) × IsResult cmd res
  Said cmd (answering res) l = (t : ℕ) × (l ≡ running e cmd t ∷ []) × IsResult cmd res
  Said cmd finished l =
      (t : ℕ) × (res : Response) × (l ≡ running e cmd t ∷ command_result res ∷ [])
      × IsResult cmd res

  -- Each goroutine has said what its phase tells, and nothing else has been said; the counter of
  -- completed commands has grown by the number of counted results, and the other counter has not
  -- grown.
  pub record IsTold (m : Metrics) (crew : Crew) : Type 0 where
    pub each :
        (i : ℕ) (job : Job)
        → get_elem? crew.jobs i ≡ some job
        → Said job.request job.phase (of_job i crew.passed)
    pub beyond : (i : ℕ) → get_elem? crew.jobs i ≡ none → of_job i crew.passed ≡ []
    pub completed : crew.metrics.commands ≡ m.commands + sum_by counts crew.jobs
    pub failures : crew.metrics.command_failures ≡ m.command_failures

  -- The i-th goroutine gets to a phase and says something.
  pub moved-IsTold :
      (m : Metrics) (i : ℕ) (job : Job) (phase : Phase) (out : List Message) (crew crew' : Crew)
      → IsTold m crew
      → get_elem? crew.jobs i ≡ some job
      → crew'.jobs ≡ set crew.jobs i (record job { phase = phase })
      → of_job i crew'.passed ≡ of_job i crew.passed ++ out
      → ((k : ℕ) → eqb i k ≡ false → of_job k crew'.passed ≡ of_job k crew.passed)
      → Said job.request phase (of_job i crew.passed ++ out)
      → crew'.metrics.commands + counts job
        ≡ crew.metrics.commands + counts (record job { phase = phase })
      → crew'.metrics.command_failures ≡ crew.metrics.command_failures
      → IsTold m crew'
  moved-IsTold m i job phase out crew crew' told here jobs passed others said counted failed =
      let new : Job = record job { phase = phase } in
      let new_here : get_elem? crew'.jobs i ≡ some new =
        ap (λ l. get_elem? l i) jobs ∙ found_here crew.jobs i job new here in
      record {
        each = λ k other found. elim (Bool-cases (eqb i k)) [
          | inl t ↦
              let same : i ≡ k = ground (arith, t) in
              let is_new : new ≡ other = cc (found, new_here, ap (get_elem? crew'.jobs) same) in
              subst (λ n. Said other.request other.phase (of_job n crew'.passed)) same
                (subst (λ (o : Job). Said o.request o.phase (of_job i crew'.passed)) is_new
                  (subst (Said job.request phase) (sym passed) said))
          | inr t ↦
              let at = ap (λ l. get_elem? l k) jobs ∙ found_else crew.jobs i k job new here t in
              subst (Said other.request other.phase) (sym (others k t))
                (told.each k other (sym at ∙ found))
        ];
        beyond = λ k absent. elim (Bool-cases (eqb i k)) [
          | inl t ↦
              let same : i ≡ k = ground (arith, t) in
              absurd (cc (absent, new_here, ap (get_elem? crew'.jobs) same))
          | inr t ↦
              let at = ap (λ l. get_elem? l k) jobs ∙ found_else crew.jobs i k job new here t in
              others k t ∙ told.beyond k (sym at ∙ absent)
        ];
        completed =
            rw jobs
              (omega (arith, told.completed, counted, sum_by-set counts crew.jobs i job new here));
        failures = failed ∙ told.failures;
      }
