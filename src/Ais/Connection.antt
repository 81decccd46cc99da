-- ===== src/Ais/Connection.antt =====
-- The connection over any sequence of calls and events.
use malacca_port_resilience.Prelude.{
  ℕ, ◌≤◌, ◌≡◌, refl, true, not, ◌||◌, String, Option, none, some, is_some, Bool-cases, inl, inr,
  arith,
}
use malacca_port_resilience.Json.{Fields}
use malacca_port_resilience.Ais.{
  AisGateway, AisPlatform, connecting, is_configured, is_stopped, is_connected, is_busy, is_current,
  reconnect_delay, parse_ais_stream_message, has_error, keep_vessel, LiveVessel, new_ais_gateway,
  degrade, connect, start, stop, reconnect, on_open, ingest_vessel, on_message, on_error, on_close,
}

module _ {N : Type 0} (p : AisPlatform N) where
  -- The calls and the events of the sockets. Only the current socket opens or gives a message,
  -- since one that was closed does neither.
  pub data Step : AisGateway N → AisGateway N → Type 0 where
    starts : (s : AisGateway N) (thrown : Option String) → Step s (start thrown s)
    stops : (s : AisGateway N) → Step s (stop s)
    fires :
        (s : AisGateway N) (thrown : Option String) (delay : ℕ)
        → s.reconnect_timer ≡ some delay
        → Step s (reconnect thrown s)
    opens : (s : AisGateway N) (k : ℕ) (at : String) → s.socket ≡ some k → Step s (on_open at s)
    receives :
        (s : AisGateway N) (k : ℕ) (body : Option (Fields N)) (text : String) (received : ℕ)
        → s.socket ≡ some k
        → Step s (on_message p body text received s)
    errs : (s : AisGateway N) → Step s (on_error s)
    closes : (s : AisGateway N) (k : ℕ) (message : String) → Step s (on_close k message s)

  pub data Reach (first : AisGateway N) : AisGateway N → Type 0 where
    here : Reach first first
    next : {s s' : AisGateway N} → Reach first s → Step s s' → Reach first s'

  abbrev pub TimerBounded : Option ℕ → Type 0
  TimerBounded none = Unit
  TimerBounded (some delay) = delay ≤ 60000

  -- The gateway is stopped, or has a socket, or will try again within a minute; it is connected only
  -- by a socket.
  pub record IsAlive (s : AisGateway N) : Type 0 where
    pub has_line :
        is_stopped s.state
          || (not (is_configured s) || (is_some s.socket || is_some s.reconnect_timer))
        ≡ true
    pub linked : not (is_connected s.state) || is_some s.socket ≡ true
    pub soon : TimerBounded s.reconnect_timer

  delay_bounded : (n : ℕ) → reconnect_delay n ≤ 60000
  unfolding reconnect_delay
  delay_bounded n = omega arith

  degrade-IsAlive :
      (message : String) (s : AisGateway N)
      → TimerBounded s.reconnect_timer
      → IsAlive (degrade message s)
  unfolding degrade
  degrade-IsAlive message s soon = record {
    has_line = ground arith;
    linked = ground arith;
    soon = ground (arith, soon, delay_bounded s.reconnect_attempt);
  }

  connect-IsAlive :
      (thrown : Option String) (s : AisGateway N)
      → TimerBounded s.reconnect_timer
      → IsAlive (connect thrown s)
  unfolding connect
  connect-IsAlive none s soon = record { has_line = ground arith; linked = refl; soon = soon }
  connect-IsAlive (some message) s soon =
      degrade-IsAlive message (record s { state = connecting; last_error = none }) soon

  start-IsAlive : (thrown : Option String) (s : AisGateway N) → IsAlive s → IsAlive (start thrown s)
  unfolding start
  start-IsAlive thrown s alive =
      elim (Bool-cases (not (is_configured s) || (is_some s.socket || is_busy s.state))) [
        | inl busy ↦ rw busy alive
        | inr free ↦ rw free (connect-IsAlive thrown s alive.soon)
      ]

  reconnect-IsAlive :
      (thrown : Option String) (s : AisGateway N) → IsAlive s → IsAlive (reconnect thrown s)
  unfolding reconnect
  reconnect-IsAlive thrown s alive = elim (Bool-cases (is_some s.socket)) [
    | inl held ↦
        rw held
          (record { has_line = ground (arith, held); linked = ground (arith, held); soon = tt })
    | inr shut ↦ rw shut (connect-IsAlive thrown (record s { reconnect_timer = none }) tt)
  ]

  stop-IsAlive : (s : AisGateway N) → IsAlive (stop s)
  unfolding stop
  stop-IsAlive s = record { has_line = ground arith; linked = ground arith; soon = tt }

  close-IsAlive :
      (k : ℕ) (message : String) (s : AisGateway N) → IsAlive s → IsAlive (on_close k message s)
  unfolding on_close
  close-IsAlive k message s alive = elim (Bool-cases (not (is_current k s.socket))) [
    | inl other ↦ rw other alive
    | inr same ↦ elim (Bool-cases (is_stopped s.state)) [
      | inl halted ↦
          rw (same, halted)
            (record {
              has_line = ground (arith, halted);
              linked = ground (arith, halted);
              soon = alive.soon;
            })
      | inr going ↦
          rw (same, going) (degrade-IsAlive message (record s { socket = none }) alive.soon)
    ]
  ]

  keep_vessel-IsAlive :
      (v : Option (LiveVessel N)) (s : AisGateway N) → IsAlive s → IsAlive (keep_vessel v s)
  keep_vessel-IsAlive none s alive = alive
  keep_vessel-IsAlive (some v) s alive = record {
    has_line = alive.has_line;
    linked = alive.linked;
    soon = alive.soon;
  }

  message-IsAlive :
      (body : Option (Fields N)) (text : String) (received k : ℕ) (s : AisGateway N)
      → s.socket ≡ some k
      → IsAlive s
      → IsAlive (on_message p body text received s)
  unfolding on_message ingest_vessel
  message-IsAlive none text received k s held alive = record {
    has_line = alive.has_line;
    linked = alive.linked;
    soon = alive.soon;
  }
  message-IsAlive (some fs) text received k s held alive = elim (Bool-cases (has_error p fs)) [
    | inl bad ↦
        rw bad (record { has_line = ground (arith, held); linked = refl; soon = alive.soon })
    | inr good ↦ rw good (keep_vessel-IsAlive (parse_ais_stream_message p fs received) s alive)
  ]

  Step-IsAlive : {s s' : AisGateway N} → Step s s' → IsAlive s → IsAlive s'
  unfolding on_open on_error
  Step-IsAlive (starts s thrown) alive = start-IsAlive thrown s alive
  Step-IsAlive (stops s) alive = stop-IsAlive s
  Step-IsAlive (fires s thrown delay due) alive = reconnect-IsAlive thrown s alive
  Step-IsAlive (opens s k at held) alive = record {
    has_line = ground (arith, held);
    linked = ground (arith, held);
    soon = alive.soon;
  }
  Step-IsAlive (receives s k body text received held) alive =
      message-IsAlive body text received k s held alive
  Step-IsAlive (errs s) alive = record {
    has_line = alive.has_line;
    linked = alive.linked;
    soon = alive.soon;
  }
  Step-IsAlive (closes s k message) alive = close-IsAlive k message s alive

  new-IsAlive : (key : String) → IsAlive (new_ais_gateway key)
  unfolding new_ais_gateway
  new-IsAlive key = record { has_line = ground arith; linked = ground arith; soon = tt }

  -- After any calls and events, in any order, whatever the messages say and however often the socket
  -- cannot be made, the gateway is stopped, or has no key, or has a socket, or has a timer on which it
  -- tries again; the timer's delay is at most a minute; and the gateway is connected only while it
  -- has a socket.
  pub Reach-IsAlive : (key : String) (s : AisGateway N) → Reach (new_ais_gateway key) s → IsAlive s
  Reach-IsAlive key s here = new-IsAlive key
  Reach-IsAlive key s (next before step) = Step-IsAlive step (Reach-IsAlive key _ before)
