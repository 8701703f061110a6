-- ===== src/Kube/Restarts.antt =====
-- What `GetRestartAnalysis` of internal/kubernetes/client.go lists.
use hive_agent.Prelude.{
  String, ◌≡◌, refl, sym, subst, inl, inr, ◌⊎◌, ◌↔◌, true, List, [], ◌∷◌, ◌++◌, In, filter_by,
  arith, mem_of-filter_by, mem-filter_by,
}
use hive_agent.Prelude.Int.{positive}
use hive_agent.Prelude.Result.{ok}
use hive_agent.Value.{Object}
use hive_agent.Kube.Api.{Clientset, Pod, ContainerStatus}
use hive_agent.Kube.Queries.{ns, restart_map, restarts_of, restarts, get_restart_analysis}
use hive_agent.Kube.Failing.{mem-map, mem_of-map}

-- A container of one of the pods that has restarted, and its entry.
abbrev pub IsRestarted : List Pod → Object → Type 0
IsRestarted pods o =
    (p : Pod) × (cs : ContainerStatus) × In p pods
    × In cs p.container_statuses
    × (positive cs.restart_count ≡ true)
    × (o ≡ restart_map p cs)

mem-append_left : {A : Type 0} (x : A) (l r : List A) → In x l → In x (l ++ r)
mem-append_left x [] r m = absurd m.never
mem-append_left x (y ∷ l) r m = ground (arith, mem-append_left x l r, m)

mem-append_right : {A : Type 0} (x : A) (l r : List A) → In x r → In x (l ++ r)
mem-append_right x [] r m = m
mem-append_right x (y ∷ l) r m = inr (mem-append_right x l r m)

mem_of-append : {A : Type 0} (x : A) (l r : List A) → In x (l ++ r) → In x l ⊎ In x r
mem_of-append x [] r m = inr m
mem_of-append x (y ∷ l) r (inl e) = inl (inl e)
mem_of-append x (y ∷ l) r (inr m) = elim (mem_of-append x l r m) [
  | inl a ↦ inl (inr a)
  | inr b ↦ inr b
]

mem-restarts : (pods : List Pod) (o : Object) → IsRestarted pods o → In o (restarts pods)
unfolding restarts
mem-restarts [] o (p, cs, here, listed, restarted, e) = absurd here.never
mem-restarts (q ∷ pods) o (p, cs, inl same, listed, restarted, e) =
    let kept =
      mem-filter_by (λ cs. positive cs.restart_count) cs p.container_statuses listed restarted in
    let there =
      mem-map (restart_map p) cs (filter_by (λ cs. positive cs.restart_count) p.container_statuses)
        kept in
    mem-append_left o (restarts_of q) (restarts pods)
      (subst (λ x. In o (restarts_of x)) same (subst (λ x. In x (restarts_of p)) (sym e) there))
mem-restarts (q ∷ pods) o (p, cs, inr later, listed, restarted, e) =
    mem-append_right o (restarts_of q) (restarts pods)
      (mem-restarts pods o (p, cs, later, listed, restarted, e))

mem_of-restarts : (pods : List Pod) (o : Object) → In o (restarts pods) → IsRestarted pods o
unfolding restarts
mem_of-restarts [] o m = absurd m.never
mem_of-restarts (q ∷ pods) o m = elim (mem_of-append o (restarts_of q) (restarts pods) m) [
  | inl here ↦
      let (cs, listed, e) =
        mem_of-map (restart_map q) o
          (filter_by (λ cs. positive cs.restart_count) q.container_statuses) here in
      let (there, restarted) =
        mem_of-filter_by (λ cs. positive cs.restart_count) cs q.container_statuses listed in
      (q, cs, inl refl, there, restarted, e)
  | inr later ↦
      let (p, cs, there, listed, restarted, e) = mem_of-restarts pods o later in
      (p, cs, inr there, listed, restarted, e)
]

-- Where the pods are listed, `GetRestartAnalysis` succeeds, and its entries are exactly those of the
-- containers of the listed pods that have restarted at least once.
pub get_restart_analysis-IsRestarted :
    (c : Clientset) (namespace : String) (pods : List Pod)
    → c.pods (ns namespace) ≡ ok pods
    → (out : List Object) × (get_restart_analysis c namespace ≡ ok out)
      × ((o : Object) → In o out ↔ IsRestarted pods o)
unfolding get_restart_analysis
get_restart_analysis-IsRestarted c namespace pods h = (
  restarts pods,
  rw (get_restart_analysis, h) refl,
  λ o. (mem_of-restarts pods o, mem-restarts pods o),
)
