-- ===== src/Kube/Failing.antt =====
-- How the pod lists of internal/kubernetes/client.go include one another.
use hive_agent.Prelude.{
  String, ◌≡◌, refl, inl, inr, Bool, true, List, [], ◌∷◌, map, ◌==◌, In, filter_by, arith, eq_iff,
  ap, subst, Option-cases, mem_of-any, any_of-mem, mem-filter_by, mem_of-filter_by,
}
use hive_agent.Prelude.Text.{codes, lower, contains}
use hive_agent.Prelude.Result.{ok, >>=-ok}
use hive_agent.Value.{Object}
use hive_agent.Kube.Api.{Clientset, Pod, ContainerStatus}
use hive_agent.Kube.Maps.{pod_map}
use hive_agent.Kube.Queries.{
  ns, pod_failing, pod_crash_looping, waits_for_crash, in_crash_loop, get_failed_pods,
  get_crash_loop_pods, get_pending_pods,
}

crash_reason : contains (map lower (codes "CrashLoopBackOff")) (codes "crash") ≡ true
unfolding contains
crash_reason = refl

crash_loop_waits : (cs : ContainerStatus) → in_crash_loop cs ≡ true → waits_for_crash cs ≡ true
crash_loop_waits cs h = elim (Option-cases cs.waiting) [
  | inl e ↦ absurd (ground arith)
  | inr (reason, e) ↦
      let is_loop : reason ≡ "CrashLoopBackOff" =
        ground (arith, eq_iff reason "CrashLoopBackOff") in
      ground (arith, crash_reason, ap (λ r. contains (map lower (codes r)) (codes "crash")) is_loop)
]

-- A pod in a crash loop is a failing pod.
pub crash_looping-failing : (p : Pod) → pod_crash_looping p ≡ true → pod_failing p ≡ true
unfolding pod_crash_looping pod_failing
crash_looping-failing p h =
    let (cs, m, t) = mem_of-any in_crash_loop p.container_statuses h in
    ground (arith, any_of-mem waits_for_crash cs p.container_statuses m (crash_loop_waits cs t))

pub mem-map : {A B : Type 0} (f : A → B) (x : A) (l : List A) → In x l → In (f x) (map f l)
mem-map f x [] m = absurd m.never
mem-map f x (y ∷ l) m = ground (arith, mem-map f x l)

-- What a map of a list holds comes from an element.
pub mem_of-map :
    {A B : Type 0} (f : A → B) (y : B) (l : List A) → In y (map f l) → (x : A) × In x l × (y ≡ f x)
mem_of-map f y [] m = absurd m.never
mem_of-map f y (x ∷ l) (inl e) = (x, inl refl, e)
mem_of-map f y (x ∷ l) (inr m) = let (z, n, e) = mem_of-map f y l m in (z, inr n, e)

-- A filter by a stronger test leaves a part of what a weaker one leaves.
mem-map_filter :
    {A B : Type 0} (f : A → B) (p q : A → Bool) (l : List A) (y : B)
    → ((x : A) → p x ≡ true → q x ≡ true)
    → In y (map f (filter_by p l))
    → In y (map f (filter_by q l))
mem-map_filter f p q l y h m =
    let (x, n, e) = mem_of-map f y (filter_by p l) m in
    let (n', t) = mem_of-filter_by p x l n in
    rw e (mem-map f x (filter_by q l) (mem-filter_by q x l n' (h x t)))

pending-failing : (p : Pod) → (p.phase == "Pending") ≡ true → pod_failing p ≡ true
unfolding pod_failing
pending-failing p h = ground arith

-- Where `GetFailedPods` succeeds, so do `GetCrashLoopPods` and `GetPendingPods` for the same
-- namespace, and it lists every pod that one of them lists.
pub failed_pods-include :
    (c : Clientset) (namespace : String) {failed : List Object}
    → get_failed_pods c namespace ≡ ok failed
    → ((looping : List Object) × (get_crash_loop_pods c namespace ≡ ok looping)
        × ((o : Object) → In o looping → In o failed))
      × ((pending : List Object) × (get_pending_pods c namespace ≡ ok pending)
          × ((o : Object) → In o pending → In o failed))
unfolding get_failed_pods get_crash_loop_pods get_pending_pods
failed_pods-include c namespace {failed} h =
    let (pods, found, e) =
      >>=-ok (c.pods (ns namespace)) (λ pods. ok (map pod_map (filter_by pod_failing pods))) h in
    let same : map pod_map (filter_by pod_failing pods) ≡ failed = cc in
    (
      (
        map pod_map (filter_by pod_crash_looping pods),
        rw e,
        λ o m.
            subst (In o) same
              (mem-map_filter pod_map pod_crash_looping pod_failing pods o crash_looping-failing m),
      ),
      (
        map pod_map (filter_by (λ p. p.phase == "Pending") pods),
        rw e,
        λ o m. subst (In o) same (
            mem-map_filter pod_map (λ p. p.phase == "Pending") pod_failing pods o pending-failing
              m),
      ),
    )
