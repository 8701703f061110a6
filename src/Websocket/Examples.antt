-- ===== src/Websocket/Examples.antt =====
-- Attempts of internal/websocket/manager.go.
use hive_agent.Prelude.{
  ℕ, zero, suc, ◌+◌, ◌*◌, All, none, ◌≡◌, ◌≢◌, refl, true, false, some, List, [], ◌∷◌, ◌++◌, arith,
  eq_iff, length,
}
use hive_agent.State.{registered, revoked}
use hive_agent.Telemetry.{new_metrics}
use hive_agent.Registration.Payload.{CredentialRotation}
use hive_agent.Websocket.{
  command, credential_rotation, revoke, other_type, Dial, dial_error, opened, Manager, handshake_of,
  endpoint_of, run,
}
use hive_agent.Websocket.Deadlines.{
  Tick, ticked, ComesBetween, arrivals, ping, reads_all, pings_keep,
}
use hive_agent.Websocket.Rotation.{rotation_next}
use hive_agent.Prelude.Text.{replace_first}
use hive_agent.Registration.Client.{tunnel_url}
use hive_agent.Samples.{session, answer, pod_request}

abbrev manager : Manager
manager = record {
  api_endpoint = "https://hub";
  session = session;
  reg = answer;
  agent = record {
    machine = record { state = registered; reason = ""; updated = 0; on_change = true };
    metrics = new_metrics;
  };
  connected = false;
  dialed = [];
  started = [];
}

abbrev rotation : CredentialRotation
rotation = record { jwt = "token-2"; api_key = ""; ws_endpoint = "wss://hub2/ws" }

abbrev attempts : List (ℕ × Dial)
attempts =
    (1, dial_error "refused")
    ∷ (2, opened (command (some pod_request) ∷ credential_rotation (some rotation) ∷ []))
    ∷ (3, opened (revoke ∷ []))
    ∷ (4, opened [])
    ∷ []

dials_three_times : length (run attempts manager).dialed ≡ 3
unfolding run
dials_three_times = refl

still_registered : manager.agent.machine.state ≢ revoked
still_registered e = ground (arith, e)

rotation_next_example :
    (run
      ((
        1,
        opened (
            (other_type "hello" ∷ []) ++ credential_rotation (some rotation) ∷ (command none ∷ [])),
      )
        ∷ (2, dial_error "refused")
        ∷ [])
      manager).dialed
    ≡ []
      ++ handshake_of manager
        ∷ record { endpoint = "wss://hub2/ws"; authorization = "Bearer token-2"; cluster = "c1" }
        ∷ []
rotation_next_example =
    rotation_next 1 (other_type "hello" ∷ []) (command none ∷ []) rotation manager
      (λ e. ground (arith, eq_iff "token-2" "", e))
      (λ e. ground (arith, eq_iff "wss://hub2/ws" "", e)) (refl, tt) ((refl, refl), tt) 2
      (dial_error "refused") still_registered

-- no tunnel URL: the API endpoint with `wss://` for `https://`
unnamed_endpoint :
    endpoint_of (record manager { reg = record answer { ws_endpoint = ""; websocket_url = "" } })
    ≡ "wss://hub/ws"
unfolding endpoint_of tunnel_url replace_first
unnamed_endpoint = refl

abbrev ticks : List Tick
ticks = ticked none ∷ ticked none ∷ ticked none ∷ ticked none ∷ ticked none ∷ []

-- One message, between the opening and the first pong.
abbrev between : ℕ → List ℕ
between zero = 105 ∷ []
between (suc n) = []

timely : (n : ℕ) → All (ComesBetween (100 + 20 * suc n) (100 + 20 * suc n + 3)) (between n)
timely zero = ((omega arith, omega arith), tt)
timely (suc n) = tt

five_ticks : All (λ t. t ≡ ticked none) ticks
five_ticks = (refl, (refl, (refl, (refl, (refl, tt)))))

-- up to 159 seconds after the opening, twice the first deadline
pings_keep_example : reads_all 259 175 (arrivals (λ n. 3) between 0 (ping 120 ticks)) ≡ true
pings_keep_example =
    pings_keep (λ n. 3) between 100 259 (λ n. omega arith) timely ticks five_ticks (omega arith)

-- without pings the first read meets its deadline
unanswered_closed : reads_all 259 175 (arrivals (λ n. 3) between 0 []) ≡ false
unfolding reads_all
unanswered_closed = refl
