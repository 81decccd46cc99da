-- ===== src/Ais/Examples.antt =====
-- A connection that opens, gives a position, closes, and then cannot be made again, in thousandths.
use malacca_port_resilience.Prelude.{
  ℕ, ◌≡◌, refl, min, max, true, false, Option, none, some, insert, codes, length,
}
use malacca_port_resilience.Samples.{thousandths}
use malacca_port_resilience.Json.{Json, Fields, end, field, string, number, object, TextPlatform}
use malacca_port_resilience.Ais.{
  AisGateway, AisPlatform, degraded, reconnect_delay, parse_ais_stream_message, new_ais_gateway,
  degrade, connect, start, reconnect, on_open, ingest_vessel, on_message, on_close, snapshot,
}
use malacca_port_resilience.Ais.Connection.{
  Reach, IsAlive, here, next, starts, opens, receives, closes, fires, Reach-IsAlive,
}

abbrev texts : TextPlatform ℕ
texts = record {
  trim = λ s. s;
  upper = λ s. s;
  string_of = λ _. "563000001";
  stringify = λ _. "";
  locale_before = λ a b. false;
  parse_date = λ s. some (length (codes s));
  iso_string = λ _. "2026-01-01T00:00:00Z";
  sha256 = λ _. "";
  hmac_sha256 = λ key text. "";
}

abbrev number_or_zero : Option (Json ℕ) → ℕ
number_or_zero (some (number n)) = n
number_or_zero _ = 0

abbrev platform : AisPlatform ℕ
platform = record {
  texts = texts;
  floats = thousandths;
  min_of = min;
  max_of = max;
  to_number = number_or_zero;
  is_truthy = λ _. true;
}

abbrev position : Fields ℕ
position = field "MessageType" (string "PositionReport") (
    field "MetaData" (object (field "time_utc" (string "2026-01-01T00:00:00Z") end)) (
      field "Message"
        (object (
          field "PositionReport"
            (object (
              field "UserID" (string "563000001")
                (field "Latitude" (number 2000) (field "Longitude" (number 101000) end))))
            end))
        end))

abbrev first : AisGateway ℕ
first = new_ais_gateway "key"

abbrev sailing : AisGateway ℕ
sailing =
    on_message platform (some position) "" 5 (on_open "2026-01-01T00:00:00Z" (start none first))

abbrev waiting : AisGateway ℕ
waiting = on_close 0 "closed" sailing

abbrev last : AisGateway ℕ
last = reconnect (some "refused") waiting

reached : Reach platform first last
unfolding new_ais_gateway start connect degrade reconnect_delay on_open on_message ingest_vessel
    on_close insert parse_ais_stream_message
reached =
    next
      (next
        (next (next (next here (starts first none)) (opens (start none first) 0 _ refl)) (
          receives (on_open "2026-01-01T00:00:00Z" (start none first)) 0 (some position) "" 5 refl))
        (closes sailing 0 "closed"))
      (fires waiting (some "refused") 1000 refl)

Reach-IsAlive_example : IsAlive platform last
Reach-IsAlive_example = Reach-IsAlive platform "key" last reached

second_delay : (last.reconnect_timer ≡ some 2000) × (last.state ≡ degraded)
unfolding new_ais_gateway start connect degrade reconnect_delay on_open on_message ingest_vessel
    on_close insert parse_ais_stream_message reconnect
second_delay = (refl, refl)

shown_vessel :
    ((snapshot platform 300000 5 sailing).fresh_vessel_count ≡ 1)
    × ((snapshot platform 300000 5 sailing).live_data_verified ≡ true)
unfolding new_ais_gateway start connect on_open on_message ingest_vessel insert
    parse_ais_stream_message snapshot
shown_vessel = (refl, refl)
