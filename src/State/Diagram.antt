-- ===== src/State/Diagram.antt =====
-- The transitions that the table of internal/state/state.go allows, as a relation, and single calls against it.
use hive_agent.Prelude.{
  ℕ, String, ◌≡◌, ◌≢◌, refl, ◌⊎◌, ◌↔◌, inl, inr, true, false, none, some, [], ◌∷◌, arith, ◌==◌,
  if◌then◌else◌, Bool-cases, eq_iff, eq_refl, ap, Option,
}
use hive_agent.State.{
  AgentState, pending_key, registered, connecting, online, degraded, offline, revoked, Machine,
  transition, name, allowed, snapshot, invalid_transition,
}

-- The edges of the table: registration, the tunnel's life, and revocation from everywhere but
-- `revoked` itself.
infix 40 ◌⟶◌
pub data ◌⟶◌ : AgentState → AgentState → Type 0 where
  register : pending_key ⟶ registered
  open_tunnel : registered ⟶ connecting
  reopen_online : online ⟶ connecting
  reopen_degraded : degraded ⟶ connecting
  reopen_offline : offline ⟶ connecting
  connect : connecting ⟶ online
  recover : degraded ⟶ online
  degrade_connecting : connecting ⟶ degraded
  degrade_online : online ⟶ degraded
  lose_registered : registered ⟶ offline
  lose_connecting : connecting ⟶ offline
  lose_online : online ⟶ offline
  lose_degraded : degraded ⟶ offline
  register_again : offline ⟶ registered
  revoke : {s : AgentState} → s ≢ revoked → s ⟶ revoked

ruleset edges = (
  register, open_tunnel, reopen_online, reopen_degraded, reopen_offline, connect, recover,
  degrade_connecting, degrade_online, lose_registered, lose_connecting, lose_online, lose_degraded,
  register_again, revoke,
)

pub ⟶-of_allowed : (a b : AgentState) → allowed a b ≡ true → a ⟶ b
unfolding allowed
⟶-of_allowed a b h = grind (arith, edges)

pub allowed-of_⟶ : {a b : AgentState} → a ⟶ b → allowed a b ≡ true
unfolding allowed
allowed-of_⟶ (revoke {s} ne) = ground arith
allowed-of_⟶ register = refl
allowed-of_⟶ _ = refl

-- Reads a state's string back.
of_name : String → Option AgentState
of_name s =
    if s == "PENDING_KEY"
    then some pending_key
    else if s == "REGISTERED"
    then some registered
    else if s == "CONNECTING"
    then some connecting
    else if s == "ONLINE"
    then some online
    else if s == "DEGRADED"
    then some degraded
    else if s == "OFFLINE"
    then some offline
    else some revoked

of_name-name : (s : AgentState) → of_name (name s) ≡ some s
unfolding of_name
of_name-name pending_key = refl
of_name-name _ = refl

-- The seven strings are different.
pub name_inj : (a b : AgentState) → (name a == name b) ≡ true → a ≡ b
name_inj a b h = cc (of_name-name a, of_name-name b, ap of_name ((eq_iff (name a) (name b)).0 h))

pub name_ne : (a b : AgentState) → (name a == name b) ≡ false → a ≢ b
name_ne a b h e = cc (eq_refl (name b), ap (λ s. name s == name b) e)

module _ (m : Machine) (next : AgentState) (reason : String) (now : ℕ) where
  -- The machine that a successful call leaves.
  abbrev pub moved : Machine
  moved = record m { state = next; reason = reason; updated = now }

  -- The three branches of a call.
  pub transition-cases :
      ((m.state ≡ next)
        × (transition m next reason now ≡ record { machine = moved; error = none; notified = [] }))
      ⊎ ((m.state ≢ next)
          × (m.state ⟶ next)
          × (transition m next reason now ≡ record {
            machine = moved;
            error = none;
            notified = if m.on_change then snapshot moved ∷ [] else [];
          }))
      ⊎ ((m.state ≢ next)
          × (allowed m.state next ≡ false)
          × (transition m next reason now ≡ record {
            machine = m;
            error = some (invalid_transition m.state next);
            notified = [];
          }))
  unfolding transition
  transition-cases = elim (Bool-cases (name m.state == name next)) [
    | inl same ↦ let e = name_inj m.state next same in inl (e, ground arith)
    | inr other ↦ elim (Bool-cases (allowed m.state next)) [
      | inl ok ↦ inr (inl (name_ne _ _ other, ⟶-of_allowed _ _ ok, rw (other, ok)))
      | inr refused ↦ inr (inr (name_ne _ _ other, refused, rw (other, refused)))
    ]
  ]

  -- A call succeeds exactly when it asks for the present state or for the end of an edge of the
  -- table, and then the machine is in the state that was asked for, with the reason and the time
  -- of the call.
  pub transition-accepts_iff :
      (((transition m next reason now).error ≡ none) ↔ ((m.state ≡ next) ⊎ (m.state ⟶ next)))
      × ((transition m next reason now).error ≡ none
          → (transition m next reason now).machine ≡ moved)
  transition-accepts_iff = elim transition-cases [
    | inl (same, e) ↦ rw e ((λ _. inl same, λ _. refl), λ _. refl)
    | inr (inl (other, edge, e)) ↦ rw e ((λ _. inr edge, λ _. refl), λ _. refl)
    | inr (inr (other, no_edge, e)) ↦ rw e (
      (
        λ p. absurd (cc),
        λ p. absurd (elim p [ inl same ↦ other same | inr edge ↦ cc (allowed-of_⟶ edge) ]),
      ),
      λ p. absurd (cc),
    )
  ]

  -- A refused call leaves the machine as it was and calls no callback; the error names both states.
  pub transition_refused :
      m.state ≢ next
      → ¬ (m.state ⟶ next)
      → transition m next reason now
        ≡ record { machine = m; error = some (invalid_transition m.state next); notified = [] }
  transition_refused d h = elim transition-cases [
    | inl (same, e) ↦ absurd (d same)
    | inr (inl (other, edge, e)) ↦ absurd (h edge)
    | inr (inr (other, no_edge, e)) ↦ e
  ]
