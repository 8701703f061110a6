-- ===== src/Commands/Examples.antt =====
-- Commands of internal/commands/commands.go over a small cluster.
use hive_agent.Prelude.{◌≡◌, ◌⊎◌, refl, true, some, arith}
use hive_agent.Prelude.Result.{err}
use hive_agent.Value.{object, empty, json_number}
use hive_agent.Capabilities as Capabilities
use hive_agent.Commands.Run.{execute, fail}
use hive_agent.Commands.Unanswered.{FailsAll, execute_unanswered}
use hive_agent.Kube.Api.{Clientset}
use hive_agent.Commands.Envelope.{execute_envelope}
use hive_agent.Commands.Numbers.{FitsInt64}
use hive_agent.Samples.Answering.{namespace_given, name_given}
use hive_agent.Samples.{cluster, wild, clock, pod_request, delete_request}

refuses_delete : (execute wild "c1" cluster clock delete_request).status ≡ "error"
unfolding execute
refuses_delete = refl

execute_envelope_example :
    ((execute wild "c1" cluster clock delete_request).command ≡ "delete_pod")
    × ((execute wild "c1" cluster clock delete_request).request_id ≡ "r2")
    × ((execute wild "c1" cluster clock delete_request).cluster_id ≡ "c1")
    × ((((execute wild "c1" cluster clock delete_request).status ≡ "success")
          × ((execute wild "c1" cluster clock delete_request).error ≡ "")
          × (Capabilities.contains "delete_pod" ≡ true))
        ⊎ (((execute wild "c1" cluster clock delete_request).status ≡ "error")
            × ((execute wild "c1" cluster clock delete_request).data_value ≡ object empty)))
execute_envelope_example = execute_envelope wild "c1" cluster clock delete_request

twelve_fits : FitsInt64 wild (some (json_number "12"))
twelve_fits = record {
  machine = λ f. omega arith;
  int64_fits = λ n e. absurd (ground (arith, e));
  int_fits = λ n e. absurd (ground (arith, e));
}

abbrev silent_cluster : Clientset
silent_cluster = record cluster {
  nodes = err "timeout";
  namespaces = err "timeout";
  pods = λ n. err "timeout";
  pod = λ n p. err "timeout";
  logs = λ n p k t. err "timeout";
  events = λ n. err "timeout";
  deployments = λ n. err "timeout";
  stateful_sets = λ n. err "timeout";
  daemon_sets = λ n. err "timeout";
  services = λ n. err "timeout";
  ingresses = λ n. err "timeout";
}

silent_cluster-FailsAll : FailsAll silent_cluster "timeout"
silent_cluster-FailsAll = record {
  nodes = refl;
  namespaces = refl;
  pods = λ n. refl;
  pod = λ n p. refl;
  logs = λ n p k t. refl;
  events = λ n. refl;
  deployments = λ n. refl;
  stateful_sets = λ n. refl;
  daemon_sets = λ n. refl;
  services = λ n. refl;
  ingresses = λ n. refl;
}

execute_unanswered_example :
    execute wild "c1" silent_cluster clock pod_request ≡ fail "c1" clock pod_request "timeout"
execute_unanswered_example =
    execute_unanswered wild silent_cluster "timeout" silent_cluster-FailsAll pod_request
      namespace_given name_given "c1" clock (unfold Capabilities.contains in refl)
