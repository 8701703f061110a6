-- ===== src/Websocket/Deadlines.antt =====
-- The deadlines and the pings of internal/websocket/manager.go, in seconds. A read of the connection
-- fails once its deadline is reached; the peer answers a ping with a pong, as the protocol wants.
use hive_agent.Prelude.{
  ℕ, suc, ◌+◌, ◌*◌, ◌≤◌, ◌<◌, String, ◌≡◌, Bool, true, ◌&&◌, Option, none, some, List, [], ◌∷◌, All,
  ltb, length, arith,
}

-- What arrives on the connection.
pub data Arrival : Type 0 where
  message pong : Arrival

-- `SetReadDeadline` of the loop before the next read, and of the pong handler
abbrev pub deadline_after : Arrival → ℕ → ℕ
deadline_after message now = now + 75
deadline_after pong now = now + 60

-- Whether no read meets its deadline up to the time `until`, when these are all the arrivals: each of
-- them comes before the deadline of its read, and the read that is pending after the last has not met
-- its own at that time.
unfoldable pub reads_all : ℕ → ℕ → List (ℕ × Arrival) → Bool
reads_all until deadline [] = ltb until deadline
reads_all until deadline ((at, a) ∷ later) =
    let rest = reads_all until (deadline_after a at) later in ltb at deadline && rest

-- What the `select` of `ping` finds: the context is done, or the ticker has ticked, and the ping
-- that is then written may fail.
pub data Tick : Type 0 where
  context_done : Tick
  ticked : Option String → Tick

-- The times of the pings that are written; `at` is the time of the next tick.
unfoldable pub ping : ℕ → List Tick → List ℕ
ping at [] = []
ping at (context_done ∷ later) = []
ping at (ticked (some failure) ∷ later) = []
ping at (ticked none ∷ later) = at ∷ ping (at + 20) later

-- The messages that are read, and then the rest.
abbrev pub messages : List ℕ → List (ℕ × Arrival) → List (ℕ × Arrival)
messages [] rest = rest
messages (at ∷ later) rest = (at, message) ∷ messages later rest

-- What arrives: the n-th pong comes some seconds after its ping, and the messages of `between n`
-- before it.
abbrev pub arrivals : (ℕ → ℕ) → (ℕ → List ℕ) → ℕ → List ℕ → List (ℕ × Arrival)
arrivals delay between n [] = []
arrivals delay between n (at ∷ later) =
    messages (between n) ((at + delay n, pong) ∷ arrivals delay between (suc n) later)

-- A message that comes after the ping before the one at `at`, and before the pong of that at `limit`.
abbrev pub ComesBetween : ℕ → ℕ → ℕ → Type 0
ComesBetween at limit m = (at ≤ m + 20) × (m < limit)

messages_kept :
    (until at limit deadline : ℕ) (ms : List ℕ) (rest : List (ℕ × Arrival))
    → limit < at + 40
    → at + 40 ≤ deadline
    → All (ComesBetween at limit) ms
    → ((later : ℕ) → at + 40 ≤ later → reads_all until later rest ≡ true)
    → reads_all until deadline (messages ms rest) ≡ true
unfolding reads_all
messages_kept until at limit deadline [] rest soon enough h kept = kept deadline enough
messages_kept until at limit deadline (m ∷ ms) rest soon enough h kept =
    let later =
      messages_kept until at limit (m + 75) ms rest soon (omega (arith, h.0.0)) h.1 kept in
    ground (arith, later, h.0.1)

module _ (delay : ℕ → ℕ) (between : ℕ → List ℕ) (opened until : ℕ) (quick : (n : ℕ) → delay n < 40)
    (timely : (n : ℕ)
      → All (ComesBetween (opened + 20 * suc n) (opened + 20 * suc n + delay n)) (between n)) where
  kept :
      (at deadline n : ℕ) (ticks : List Tick)
      → at ≡ opened + 20 * suc n
      → at + 40 ≤ deadline
      → All (λ t. t ≡ ticked none) ticks
      → until < at + 40 + 20 * length ticks
      → reads_all until deadline (arrivals delay between n (ping at ticks)) ≡ true
  unfolding reads_all ping
  kept at deadline n [] e enough written before = ground (arith, enough, before)
  kept at deadline n (context_done ∷ later) e enough written before = absurd (cc (written.0))
  kept at deadline n (ticked (some failure) ∷ later) e enough written before =
      absurd (cc (written.0))
  kept at deadline n (ticked none ∷ later) e enough written before =
      let now = at + delay n in
      let next =
        kept (at + 20) (now + 60) (suc n) later (omega (arith, e)) (omega arith) written.1
          (omega (arith, before)) in
      let ms : All (ComesBetween at now) (between n) = rw e (timely n) in
      messages_kept until at now deadline (between n)
        ((now, pong) ∷ arrivals delay between (suc n) (ping (at + 20) later))
        (omega (arith, quick n)) enough ms (λ due h. ground (arith, next, quick n, h))

  -- The pings hold the tunnel open while its peer answers: when every tick of the ticker writes its
  -- ping, and every pong comes less than 40 seconds after its ping, then no read of the connection
  -- meets its deadline in the first `60 + 20 * n` seconds of `n` ticks, whatever messages come
  -- between the pongs; the read that is pending at that time has not met it either.
  pub pings_keep :
      (ticks : List Tick)
      → All (λ t. t ≡ ticked none) ticks
      → until < opened + 60 + 20 * length ticks
      → reads_all until
          (deadline_after message opened)
          (arrivals delay between 0 (ping (opened + 20) ticks))
        ≡ true
  pings_keep ticks written before =
      kept (opened + 20) (opened + 75) 0 ticks (omega arith) (omega arith) written
        (omega (arith, before))
