-- ===== src/Kube/InCluster.antt =====
-- `NewInCluster` of internal/kubernetes/client.go, over package rest and the client of client-go.
use hive_agent.Prelude.Result.{Result, ok, ◌>>=◌}
use hive_agent.Kube.Api.{Foreign, Clientset}

-- `rest.InClusterConfig()` and `kubernetes.NewForConfig(cfg)` are the arguments; the configuration is
-- client-go's.
abbrev pub new_in_cluster : Result Foreign → (Foreign → Result Clientset) → Result Clientset
new_in_cluster config for_config = config >>= λ cfg. for_config cfg >>= λ cs. ok cs
