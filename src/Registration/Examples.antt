-- ===== src/Registration/Examples.antt =====
-- The client of internal/registration/client.go against a server that accepts everything.
use hive_agent.Prelude.{◌≡◌, ◌≢◌, refl, none, List, [], ◌∷◌, ◌++◌, All, arith, eq_iff}
use hive_agent.Registration.Payload.{Request, HttpRequest, no_body}
use hive_agent.Registration.Client.{register, register_request, with_capabilities}
use hive_agent.Registration.Runs.{Accepted}
use hive_agent.Registration.Requests.{register-Exchange}
use hive_agent.Registration.Tokens.{Use, posted, refreshed, rotated}
use hive_agent.Samples.{client, session}

abbrev request : Request
request = record {
  cluster_name = "prod";
  provider = "gke";
  agent_version = "1.0.0";
  kubernetes_version = "v1.30";
  cluster_uid = "u1";
  node_count = 1;
  api_key = "agt_1";
  capabilities = [];
  state = "PENDING_KEY";
}

stores_the_token : (register client request session).1.token ≡ "token-1"
unfolding register
stores_the_token = refl

register-Exchange_example :
    (x : List HttpRequest) × ((register client request session).1.sent ≡ [] ++ x)
    × All (λ q. q ≡ register_request client (with_capabilities request)) x
    × ((register client request session).0.1 ≡ none
        → Accepted client.net (register_request client (with_capabilities request))
          × ((register client request session).1.token ≡ (register client request session).0.0.jwt))
    × ((register client request session).0.1 ≢ none
        → (register client request session).1.token ≡ "token-0")
register-Exchange_example = register-Exchange client request session

abbrev calls : List Use
calls =
    posted "/x" no_body
    ∷ refreshed
    ∷ rotated (record { jwt = "token-2"; api_key = ""; ws_endpoint = "" })
    ∷ []

has_token : session.token ≢ ""
has_token e = ground (arith, eq_iff "token-0" "", e)
