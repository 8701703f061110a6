-- ===== src/Samples/Answering.antt =====
-- The small cluster answers every question, and the sample request names a namespace and a pod.
use hive_agent.Prelude.{◌≢◌, refl, arith, eq_iff}
use hive_agent.Prelude.Result.{ok}
use hive_agent.Value.Fields.{get_field}
use hive_agent.Commands.Params.{str}
use hive_agent.Commands.Supported.{AnswersAll, IsOk}
use hive_agent.Samples.{cluster, pod_request}

is_ok : {A : Type 0} (a : A) → IsOk (ok a)
is_ok a = record { value = a; equation = refl }

pub cluster-AnswersAll : AnswersAll cluster
cluster-AnswersAll = record {
  nodes = is_ok _;
  namespaces = is_ok _;
  pods = λ n. is_ok _;
  pod = λ n p. is_ok _;
  logs = λ n p k t. is_ok _;
  events = λ n. is_ok _;
  deployments = λ n. is_ok _;
  stateful_sets = λ n. is_ok _;
  daemon_sets = λ n. is_ok _;
  services = λ n. is_ok _;
  ingresses = λ n. is_ok _;
}

pub namespace_given : str pod_request.parameters "namespace" "" ≢ ""
unfolding str get_field
namespace_given e = ground (arith, eq_iff "shop" "", e)

pub name_given : str pod_request.parameters "name" "" ≢ ""
unfolding str get_field
name_given e = ground (arith, eq_iff "web-1" "", e)
