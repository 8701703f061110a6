-- ===== src/Holmes/Schedules.antt =====
-- The goroutines of `Invoke` in internal/holmesprovider/provider.go end in any order.
use hive_agent.Prelude.{
  ℕ, ◌<◌, ◌≡◌, ◌≢◌, refl, sym, ◌∙◌, inl, inr, some, List, [], ◌∷◌, arith, eqb, length, replicate,
  get_elem?, get_elem?-set, get_elem?-some_lt, length-set, length-replicate, In, Bool-cases,
  Option-cases,
}
use hive_agent.Holmes.Types.{ClusterInfo, ToolInvocation, NormalizedResult}
use hive_agent.Holmes.Provider.{Dispatcher, result_at, finish, run_schedule, zero_result}

module _ (d : Dispatcher) (inv : ToolInvocation) (l : List ClusterInfo) where
  length-finish : (i : ℕ) (out : List NormalizedResult) → length (finish d inv l i out) ≡ length out
  length-finish i out = elim (Option-cases (get_elem? l i)) [
    | inl e ↦ rw (finish, e) refl
    | inr (c, e) ↦ rw (finish, e) (length-set out i (result_at d inv i c))
  ]

  pub length-run_schedule :
      (schedule : List ℕ) (out : List NormalizedResult)
      → length (run_schedule d inv l schedule out) ≡ length out
  unfolding run_schedule
  length-run_schedule [] out = refl
  length-run_schedule (i ∷ later) out =
      length-run_schedule later (finish d inv l i out) ∙ length-finish i out

  finish-here :
      (i : ℕ) (c : ClusterInfo) (out : List NormalizedResult)
      → length out ≡ length l
      → get_elem? l i ≡ some c
      → get_elem? (finish d inv l i out) i ≡ some (result_at d inv i c)
  finish-here i c out same e =
      rw (finish, e)
        (ground (arith, get_elem?-set out i i (result_at d inv i c), get_elem?-some_lt l i c e))

  finish-elsewhere :
      (i j : ℕ) (out : List NormalizedResult)
      → length out ≡ length l
      → i ≢ j
      → get_elem? (finish d inv l i out) j ≡ get_elem? out j
  finish-elsewhere i j out same ne = elim (Option-cases (get_elem? l i)) [
    | inl e ↦ rw (finish, e) refl
    | inr (c, e) ↦
        rw (finish, e)
          (ground (arith, get_elem?-set out i j (result_at d inv i c), get_elem?-some_lt l i c e))
  ]

  -- A slot that is already right stays so.
  run_schedule-keeps :
      (schedule : List ℕ) (j : ℕ) (c : ClusterInfo) (out : List NormalizedResult)
      → length out ≡ length l
      → get_elem? l j ≡ some c
      → get_elem? out j ≡ some (result_at d inv j c)
      → get_elem? (run_schedule d inv l schedule out) j ≡ some (result_at d inv j c)
  unfolding run_schedule
  run_schedule-keeps [] j c out same e h = h
  run_schedule-keeps (i ∷ later) j c out same e h =
      run_schedule-keeps later j c (finish d inv l i out) (length-finish i out ∙ same) e
        (elim (Bool-cases (eqb i j)) [
          | inl here ↦ ground (arith, finish-here j c out same e)
          | inr elsewhere ↦ finish-elsewhere i j out same (ground arith) ∙ h
        ])

  run_schedule-fills :
      (schedule : List ℕ) (j : ℕ) (c : ClusterInfo) (out : List NormalizedResult)
      → length out ≡ length l
      → get_elem? l j ≡ some c
      → In j schedule
      → get_elem? (run_schedule d inv l schedule out) j ≡ some (result_at d inv j c)
  unfolding run_schedule
  run_schedule-fills [] j c out same e m = absurd m.never
  run_schedule-fills (i ∷ later) j c out same e (inl here) =
      run_schedule-keeps later j c (finish d inv l i out) (length-finish i out ∙ same) e
        (rw (sym here) (finish-here j c out same e))
  run_schedule-fills (i ∷ later) j c out same e (inr m) =
      run_schedule-fills later j c (finish d inv l i out) (length-finish i out ∙ same) e m

  -- Whatever the order in which the goroutines end, once each has ended every slot holds the result
  -- of its own cluster, and there is one slot for each cluster.
  pub schedule_irrelevant :
      (schedule : List ℕ)
      → ((i : ℕ) → i < length l → In i schedule)
      → (length (run_schedule d inv l schedule (replicate (length l) zero_result)) ≡ length l)
        × ((i : ℕ) (c : ClusterInfo)
            → get_elem? l i ≡ some c
            → get_elem? (run_schedule d inv l schedule (replicate (length l) zero_result)) i
              ≡ some (result_at d inv i c))
  schedule_irrelevant schedule complete =
      let start = replicate (length l) zero_result in
      let same = length-replicate (length l) zero_result in
      (
        length-run_schedule schedule start ∙ same,
        (λ i c e.
            run_schedule-fills schedule i c start same e (complete i (get_elem?-some_lt l i c e))),
      )
