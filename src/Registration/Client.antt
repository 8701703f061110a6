-- ===== src/Registration/Client.antt =====
-- The client of internal/registration/client.go.
use Prim.Native.String as Text
use hive_agent.Prelude.{
  String, Option, none, some, List, ◌==◌, ◌||◌, if◌then◌else◌, length, leb, eqb, not,
}
use hive_agent.Capabilities as Capabilities
use hive_agent.Registration.Payload.{
  Request, Response, zero_response, HeartbeatPayload, InventoryDeltaPayload, CredentialRotation,
  Body, register_body, capabilities_body, heartbeat_body, inventory_body, no_body, HttpRequest,
  ApiError, transport, register_status, path_status, refresh_unauthorized, refresh_status,
}
use hive_agent.Registration.Retry.{
  Reply, Network, Session, Verdict, success, transient, Op, Backoff, retry, post, post_into,
}

-- What the functions of the client share: the libraries and the configured endpoint.
pub record Client : Type 0 where
  pub net : Network
  pub backoff : Backoff
  pub api_endpoint : String

abbrev pub bearer : String → String
bearer token = Text.◌++◌ "Bearer " token

abbrev pub at_path : Client → String → String
at_path c path = Text.◌++◌ c.api_endpoint path

-- the checks of the closure of `Register`
abbrev pub register_verdict : Reply → Verdict
register_verdict reply = elim reply.error [
  | some e ↦ transient (transport e)
  | none ↦
      if leb 300 reply.status then transient (register_status reply.status reply.text) else success
]

abbrev pub register_request : Client → Request → HttpRequest
register_request c req = record {
  url = at_path c "/api/v1/agents/register";
  authorization = none;
  body = register_body req;
}

unfoldable pub register_op : Client → Request → Op
unfolding post_into
register_op c req s =
    let (reply, s') = post_into c.net (register_request c req) s in (register_verdict reply, s')

abbrev pub with_capabilities : Request → Request
with_capabilities req =
    if eqb (length req.capabilities) 0 then record req { capabilities = Capabilities.all } else req

abbrev pub with_url : Response → Response
with_url out =
    if out.websocket_url == "" then record out { websocket_url = out.ws_endpoint } else out

unfoldable pub register : Client → Request → Session → (Response × Option ApiError) × Session
unfolding register_op retry
register c req s =
    let (failure, s') =
      retry c.backoff c.net (register_op c (with_capabilities req))
        (record s { out = zero_response }) in
    elim failure [
      | some e ↦ ((s'.out, some e), s')
      | none ↦ ((with_url s'.out, none), record s' { out = with_url s'.out; token = s'.out.jwt })
    ]

abbrev pub path_verdict : String → Reply → Verdict
path_verdict path reply = elim reply.error [
  | some e ↦ transient (transport e)
  | none ↦ if leb 300 reply.status then transient (path_status path reply.status) else success
]

-- The token is read anew for each attempt.
abbrev pub jwt_request : Client → String → Body → Session → HttpRequest
jwt_request c path body s = record {
  url = at_path c path;
  authorization = some (bearer s.token);
  body = body;
}

unfoldable pub post_op : Client → String → Body → Op
unfolding post
post_op c path body s =
    let (reply, s') = post c.net (jwt_request c path body s) s in (path_verdict path reply, s')

unfoldable pub post_jwt : Client → String → Body → Session → Option ApiError × Session
unfolding post_op retry
post_jwt c path body s = retry c.backoff c.net (post_op c path body) s

unfoldable pub register_capabilities :
    Client → String → List String → Session → Option ApiError × Session
unfolding post_jwt
register_capabilities c cluster_id capabilities s =
    post_jwt c "/api/v1/agents/capabilities"
      (capabilities_body (record { cluster_id = cluster_id; capabilities = capabilities })) s

unfoldable pub heartbeat : Client → HeartbeatPayload → Session → Option ApiError × Session
unfolding post_jwt
heartbeat c hb s = post_jwt c "/api/v1/agents/heartbeat" (heartbeat_body hb) s

unfoldable pub inventory_delta :
    Client → InventoryDeltaPayload → Session → Option ApiError × Session
unfolding post_jwt
inventory_delta c delta s = post_jwt c "/api/v1/agents/inventory/delta" (inventory_body delta) s

abbrev pub refresh_verdict : Reply → Verdict
refresh_verdict reply = elim reply.error [
  | some e ↦ transient (transport e)
  | none ↦
      if eqb reply.status 401 || eqb reply.status 403
      then transient refresh_unauthorized
      else if leb 300 reply.status
      then transient (refresh_status reply.status)
      else success
]

unfoldable pub refresh_op : Client → Op
unfolding post_into
refresh_op c s =
    let (reply, s') = post_into c.net (jwt_request c "/api/v1/agents/token/refresh" no_body s) s in
    (refresh_verdict reply, s')

unfoldable pub refresh : Client → Session → (Response × Option ApiError) × Session
unfolding refresh_op retry
refresh c s =
    let (failure, s') = retry c.backoff c.net (refresh_op c) (record s { out = zero_response }) in
    elim failure [
      | some e ↦ ((s'.out, some e), s')
      | none ↦ ((s'.out, none), if s'.out.jwt == "" then s' else record s' { token = s'.out.jwt })
    ]

unfoldable pub tunnel_url : Response → String
tunnel_url r = if not (r.websocket_url == "") then r.websocket_url else r.ws_endpoint

unfoldable pub apply_rotation : CredentialRotation → Session → Session
apply_rotation rotation s =
    if not (rotation.jwt == "") then record s { token = rotation.jwt } else s
