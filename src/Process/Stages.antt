-- ===== src/Process/Stages.antt =====
-- What each place of the tunnel's goroutine in internal/websocket/manager.go says of the state, the
-- flag and the gauge, whatever the heartbeat does.
use hive_agent.Prelude.{ℕ, ◌≡◌, refl, Option, none, some, Bool, true, false, arith, ◌||◌, not, ◌==◌}
use hive_agent.State.{
  AgentState, registered, connecting, online, degraded, offline, revoked, allowed, name,
}
use hive_agent.State.Diagram.{◌⟶◌, ⟶-of_allowed, allowed-of_⟶, name_ne}
use hive_agent.Process.{
  Stage, entering, dialing, storing, announcing, raising, reading, revoking, lowering, counting,
  unflagging, checking, leaving,
}

-- no tunnel is being opened or open
abbrev pub apart : AgentState → Bool
apart registered = true
apart offline = true
apart _ = false

-- a tunnel is being opened
abbrev pub opening : AgentState → Bool
opening connecting = true
opening degraded = true
opening _ = false

-- a tunnel is open
abbrev pub up : AgentState → Bool
up online = true
up degraded = true
up _ = false

abbrev pub gone : AgentState → Bool
gone revoked = true
gone _ = false

-- The states that the machine can be in.
unfoldable pub may_be : Stage → AgentState → Bool
may_be entering s = apart s
may_be dialing s = opening s
may_be storing s = opening s
may_be announcing s = opening s
may_be raising s = up s
may_be reading s = up s
may_be revoking s = up s
may_be lowering s = up s || gone s
may_be counting s = opening s || (up s || gone s)
may_be unflagging s = opening s || (up s || gone s)
may_be checking s = opening s || (up s || gone s)
may_be leaving s = opening s || up s
may_be _ s = apart s || gone s

-- The values that `connected` can have.
unfoldable pub may_read : Stage → Bool → Bool
may_read announcing flag = flag
may_read raising flag = flag
may_read reading flag = flag
may_read revoking flag = flag
may_read lowering flag = flag
may_read counting flag = true
may_read unflagging flag = true
may_read _ flag = not flag

-- The tunnel's gauge.
unfoldable pub gauge_of : Stage → ℕ
gauge_of reading = 1
gauge_of revoking = 1
gauge_of lowering = 1
gauge_of _ = 0

-- The heartbeat's move to `degraded` stays within what the place allows.
pub may_be-degraded :
    (x : Stage) (s : AgentState) → may_be x s ≡ true → s ⟶ degraded → may_be x degraded ≡ true
unfolding may_be allowed
may_be-degraded x s h edge = ground (arith, h, allowed-of_⟶ edge)

-- The edges that the tunnel's own moves follow.
pub apart-edge : (s : AgentState) → apart s ≡ true → s ⟶ connecting
unfolding allowed
apart-edge s h = ⟶-of_allowed s connecting (ground (arith, h))

pub opening-edge : (s : AgentState) → opening s ≡ true → s ⟶ online
unfolding allowed
opening-edge s h = ⟶-of_allowed s online (ground (arith, h))

pub up-edge : (s : AgentState) → up s ≡ true → s ⟶ revoked
unfolding allowed
up-edge s h = ⟶-of_allowed s revoked (ground (arith, h))

pub leaving-edge : (s : AgentState) → opening s || up s ≡ true → s ⟶ offline
unfolding allowed
leaving-edge s h = ⟶-of_allowed s offline (ground (arith, h))

-- What the test for a revocation leaves of the states.
pub still_apart :
    (s : AgentState)
    → (apart s || gone s) ≡ true
    → (name s == name revoked) ≡ false
    → apart s ≡ true
still_apart revoked h e = absurd (name_ne revoked revoked e refl)
still_apart _ h e = ground (arith, h)

pub still_leaving :
    (s : AgentState)
    → (opening s || (up s || gone s)) ≡ true
    → (name s == name revoked) ≡ false
    → (opening s || up s) ≡ true
still_leaving revoked h e = absurd (name_ne revoked revoked e refl)
still_leaving _ h e = ground (arith, h)

pub lowering_counts :
    (s : AgentState) → (up s || gone s) ≡ true → (opening s || (up s || gone s)) ≡ true
lowering_counts s h = ground (arith, h)

-- The state that the tunnel asks the machine for in its next turn.
unfoldable pub asked : Stage → Option AgentState
asked entering = some connecting
asked announcing = some online
asked revoking = some revoked
asked leaving = some offline
asked _ = none

pub asked-edge :
    (x : Stage) (s next : AgentState) → may_be x s ≡ true → asked x ≡ some next → s ⟶ next
unfolding asked may_be allowed
asked-edge x s next fits asks = ⟶-of_allowed s next (ground (arith, fits, asks))

-- What a place tells of the flag when the gauge reads 1, and when no tunnel is open.
pub gauge_up : (x : Stage) (flag : Bool) → may_read x flag ≡ true → gauge_of x ≡ 1 → flag ≡ true
unfolding may_read gauge_of
gauge_up x flag h e = ground (arith, h, e)

pub apart_down :
    (x : Stage) (s : AgentState) (flag : Bool)
    → may_be x s ≡ true
    → may_read x flag ≡ true
    → apart s ≡ true
    → (gauge_of x ≡ 0) × (flag ≡ false)
unfolding may_be may_read gauge_of
apart_down x s flag fits reads e = ground (arith, fits, reads, e)
