-- ===== src/Ais.antt =====
-- server/realtimeAisGateway.ts, `RealtimeAisGateway`: its connection and the vessels on record.
mod Messages
pub mod Connection
mod Examples
use text.Mathlib.Text.{◌==◌ as str_eq}
use malacca_port_resilience.Prelude.{
  ℕ, zero, suc, ◌+◌, ◌-◌, ◌*◌, min, Bool, true, false, not, ◌&&◌, ◌||◌, String, Option, none, some,
  is_some, List, [], ◌∷◌, length, map, values, leb, Map, insert, if◌then◌else◌, ◌==◌,
}
use Prim.Native.Nat.{◌^◌}
use malacca_port_resilience.Json.{Fields}
unfoldable pub use Messages.*

pub data ConnectionState : Type 0 where
  not_configured : ConnectionState
  connecting : ConnectionState
  connected : ConnectionState
  degraded : ConnectionState
  stopped : ConnectionState

-- A socket is known by its number; the timer by the delay after which it fires.
pub record AisGateway (N : Type 0) : Type 0 where
  pub api_key : String
  pub vessels : Map (LiveVessel N)
  pub socket : Option ℕ
  pub next_socket : ℕ
  pub reconnect_timer : Option ℕ
  pub reconnect_attempt : ℕ
  pub state : ConnectionState
  pub connected_at : Option String
  pub latest_position_at : Option String
  pub last_error : Option String

abbrev pub is_configured : {N : Type 0} → AisGateway N → Bool
is_configured s = not (str_eq s.api_key "")

abbrev pub idle_state : String → ConnectionState
idle_state key = if str_eq key "" then not_configured else stopped

abbrev pub is_stopped : ConnectionState → Bool
is_stopped stopped = true
is_stopped _ = false

abbrev pub is_busy : ConnectionState → Bool
is_busy connecting = true
is_busy connected = true
is_busy _ = false

abbrev pub is_current : ℕ → Option ℕ → Bool
is_current k none = false
is_current k (some n) = n == k

-- `Math.min(60_000, 1_000 * 2 ** Math.min(attempt, 6))`
unfoldable pub reconnect_delay : ℕ → ℕ
reconnect_delay attempt = min 60000 (1000 * 2 ^ min attempt 6)

module _ {N : Type 0} where
  -- The constructor before `start`; the key is trimmed.
  unfoldable pub new_ais_gateway : String → AisGateway N
  new_ais_gateway key = record {
    api_key = key;
    vessels = [];
    socket = none;
    next_socket = 0;
    reconnect_timer = none;
    reconnect_attempt = 0;
    state = idle_state key;
    connected_at = none;
    latest_position_at = none;
    last_error = none;
  }

  unfoldable pub degrade : String → AisGateway N → AisGateway N
  unfolding reconnect_delay
  degrade message s =
      let t = record s { state = degraded; last_error = some message } in
      if not (is_configured s) || is_some s.reconnect_timer then t else record t {
        reconnect_timer = some (reconnect_delay s.reconnect_attempt);
        reconnect_attempt = s.reconnect_attempt + 1;
      }

  -- The factory gives a socket, or throws with a message.
  unfoldable pub connect : Option String → AisGateway N → AisGateway N
  unfolding degrade
  connect thrown s =
      let t = record s { state = connecting; last_error = none } in
      elim thrown [
        | some message ↦ degrade message t
        | none ↦ record t { socket = some s.next_socket; next_socket = suc s.next_socket }
      ]

  unfoldable pub start : Option String → AisGateway N → AisGateway N
  unfolding connect
  start thrown s =
      if not (is_configured s) || (is_some s.socket || is_busy s.state) then s else connect thrown s

  unfoldable pub stop : AisGateway N → AisGateway N
  stop s = record s { reconnect_timer = none; socket = none; state = idle_state s.api_key }

  -- The timer fires.
  unfoldable pub reconnect : Option String → AisGateway N → AisGateway N
  unfolding connect
  reconnect thrown s =
      let t = record s { reconnect_timer = none } in
      if is_some s.socket then t else connect thrown t

  unfoldable pub on_open : String → AisGateway N → AisGateway N
  on_open at s = record s { state = connected; connected_at = some at; reconnect_attempt = 0 }

  abbrev pub keep_vessel : Option (LiveVessel N) → AisGateway N → AisGateway N
  keep_vessel none s = s
  keep_vessel (some v) s = record s {
    vessels = insert v.mmsi v s.vessels;
    latest_position_at = some v.observed_at;
  }

  unfoldable pub ingest_vessel : AisPlatform N → Fields N → ℕ → AisGateway N → AisGateway N
  ingest_vessel p fs received s = keep_vessel (parse_ais_stream_message p fs received) s

  -- A message whose JSON is an envelope, or is none; `text` is the envelope's error as a text.
  unfoldable pub on_message :
      AisPlatform N → Option (Fields N) → String → ℕ → AisGateway N → AisGateway N
  unfolding ingest_vessel
  on_message p none text received s = record s {
    last_error = some "AISStream returned invalid JSON";
  }
  on_message p (some fs) text received s =
      if has_error p fs
      then record s { last_error = some text; state = degraded }
      else ingest_vessel p fs received s

  unfoldable pub on_error : AisGateway N → AisGateway N
  on_error s = record s { last_error = some "AISStream WebSocket error" }

  unfoldable pub on_close : ℕ → String → AisGateway N → AisGateway N
  unfolding degrade
  on_close k message s =
      let t = record s { socket = none } in
      if not (is_current k s.socket) then s else if is_stopped s.state then t else degrade message t

abbrev distance : ℕ → ℕ → ℕ
distance a b = (a - b) + (b - a)

abbrev take {ℓ} : {A : Type ℓ} → ℕ → List A → List A
take zero xs = []
take (suc n) [] = []
take (suc n) (x ∷ xs) = x ∷ take n xs

abbrev is_provided : TimestampQuality → Bool
is_provided provider = true
is_provided _ = false

abbrev pub is_connected : ConnectionState → Bool
is_connected connected = true
is_connected _ = false

abbrev time_of : Option ℕ → ℕ
time_of none = 0
time_of (some t) = t

-- `snapshot`, of what depends on the state.
pub record AisSnapshot (N : Type 0) : Type 0 where
  pub configured : Bool
  pub connection_state : ConnectionState
  pub fresh_vessel_count : ℕ
  pub cached_vessel_count : ℕ
  pub live_data_verified : Bool
  pub fresh_vessels : List (LiveVessel N)

module _ {N : Type 0} (p : AisPlatform N) (stale_after_ms : ℕ) where
  -- A date that cannot be read is not fresh.
  abbrev pub is_fresh : ℕ → LiveVessel N → Bool
  is_fresh now v = elim (p.texts.parse_date v.observed_at) [
    | none ↦ false
    | some observed ↦ elim (p.texts.parse_date v.received_at) [
      | none ↦ false
      | some received ↦
          is_provided v.timestamp_quality
          && (leb (distance now observed) stale_after_ms && leb (now - received) stale_after_ms)
    ]
  ]

  abbrev fresh_of : ℕ → List (LiveVessel N) → List (LiveVessel N)
  fresh_of now [] = []
  fresh_of now (v ∷ rest) =
      let others = fresh_of now rest in if is_fresh now v then v ∷ others else others

  abbrev received_time : LiveVessel N → ℕ
  received_time v = time_of (p.texts.parse_date v.received_at)

  -- A stable sort, the latest received first.
  abbrev place : LiveVessel N → List (LiveVessel N) → List (LiveVessel N)
  place v [] = v ∷ []
  place v (w ∷ rest) =
      let after = place v rest in
      if leb (received_time w) (received_time v) then v ∷ w ∷ rest else w ∷ after

  abbrev by_received : List (LiveVessel N) → List (LiveVessel N)
  by_received [] = []
  by_received (v ∷ rest) = place v (by_received rest)

  unfoldable pub snapshot : ℕ → AisGateway N → AisSnapshot N
  snapshot now s =
      let fresh = take 500 (by_received (fresh_of now (values s.vessels))) in
      record {
        configured = is_configured s;
        connection_state = s.state;
        fresh_vessel_count = length fresh;
        cached_vessel_count = length s.vessels;
        live_data_verified = is_connected s.state && not (length fresh == 0);
        fresh_vessels = fresh;
      }
