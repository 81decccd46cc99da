-- ===== src/Community/Examples.antt =====
-- The gateway's theorems on concrete messages. Hashes are constant, and a date's instant is its length.
use Prim.Native.String.{◌++◌ as ◌++ˢ◌}
use text.Mathlib.Text.{◌==◌ as str_eq}
use malacca_port_resilience.Prelude.{
  ℕ, ◌≡◌, refl, true, false, String, Option, none, some, [], ◌∷◌, lookup, insert, codes, length, ok,
  if◌then◌else◌, matches,
}
use malacca_port_resilience.Samples.{thousandths}
use malacca_port_resilience.Authority.{ends_with_offset}
use malacca_port_resilience.Json.{
  Json, string, number, object, Fields, get, as_record, end, field, TextPlatform,
}
use malacca_port_resilience.Community.Authentic.{is_filed, IsAuthentic, ingest-IsAuthentic}
use malacca_port_resilience.Community.Ledger.{Delivery, deliver, deliver-replayed}
use malacca_port_resilience.Community.Standing.{
  Follows, deliver-Follows, deliver-AllDated, new_gateway-AllDated,
}
use malacca_port_resilience.Community.Keys.{deliver-one_per_key}
use malacca_port_resilience.Community.Events.{IsWellFormed, validate_port_call_event-IsWellFormed}
use malacca_port_resilience.Community.{
  CommunityPlatform, CommunityOptions, CommunityGateway, CommunityEnvelope, Filed, ClearanceStatus,
  replayed, rejected, PortCallEvent, clearance, new_gateway, status, parse_envelope, payload_digest,
  envelope_signature, message_digest, ingest, validate_clearance, validate_port_call_event,
  normalized_event,
}

abbrev hash : String
hash = "aaaaaaaaaaaaaaaaaaaaaaaaaaaaaaaaaaaaaaaaaaaaaaaaaaaaaaaaaaaaaaaa"

abbrev other_hash : String
other_hash = "bbbbbbbbbbbbbbbbbbbbbbbbbbbbbbbbbbbbbbbbbbbbbbbbbbbbbbbbbbbbbbbb"

abbrev get_payload : Json ℕ → Option (Fields ℕ)
get_payload (object fs) = as_record (get "payload" fs)
get_payload _ = none

abbrev fields_of : Json ℕ → Fields ℕ
fields_of v = elim (get_payload v) [ none ↦ end | some fs ↦ fs ]

abbrev texts : TextPlatform ℕ
texts = record {
  trim = λ s. s;
  upper = λ s. s;
  string_of = λ _. "";
  stringify = λ _. "";
  locale_before = λ a b. false;
  parse_date = λ s. some (length (codes s));
  iso_string = λ _. "";
  sha256 = λ _. hash;
  hmac_sha256 = λ key text. if str_eq key "customs-key" then hash else other_hash;
}

abbrev platform : CommunityPlatform ℕ
platform = record { texts = texts; floats = thousandths; inherited = λ _. false }

abbrev options : CommunityOptions
options = record {
  local_party = record { party_id = "port"; role = "PORT_AUTHORITY" };
  partners =
      (
        "customs",
        record {
          party_id = "customs";
          role = "CUSTOMS";
          signing_key = "customs-key";
          allowed_message_types = "CLEARANCE_STATUS" ∷ [];
        },
      )
      ∷ [];
  maximum_message_age_seconds = 600;
}

-- A customs clearance with an id, an idempotency key, a status and the time from which it holds.
abbrev clearance_message : String → String → String → String → Json ℕ
clearance_message id key status at = object (
    field "protocolVersion" (string "port-community-message.v1") (
      field "messageID" (string id) (
        field "conversationID" (string "conversation") (
          field "sender"
            (object (field "partyID" (string "customs") (field "role" (string "CUSTOMS") end)))
            (field "recipient"
              (object
                (field "partyID" (string "port") (field "role" (string "PORT_AUTHORITY") end)))
              (field "sentAt" (string "10Z") (
                field "idempotencyKey" (string key) (
                  field "messageType" (string "CLEARANCE_STATUS") (
                    field "payload"
                      (object (
                        field "clearanceType" (string "CUSTOMS") (
                          field "status" (string status) (
                            field "UNLocationCode" (string "MYPKG") (
                              field "effectiveAt" (string at) (
                                field "portCallID" (string "call-1")
                                  (field "authorityReference" (string "ref-1") end)))))))
                      (field "payloadSHA256" (string hash)
                        (field "signature" (string hash) end)))))))))))

abbrev granted : Delivery ℕ
granted = record { now = 5; later = 6; body = clearance_message "m-1" "k-1" "GRANTED" "11Z" }

abbrev granted_again : Delivery ℕ
granted_again = record {
  now = 50;
  later = 60;
  body = clearance_message "m-1" "k-1" "GRANTED" "11Z";
}

abbrev revoked : Delivery ℕ
revoked = record { now = 9; later = 9; body = clearance_message "m-2" "k-2" "REVOKED" "1200Z" }

-- A clearance that would take effect before the one that was granted.
abbrev outdated : Delivery ℕ
outdated = record { now = 9; later = 9; body = clearance_message "m-3" "k-3" "PENDING" "1Z" }

abbrev after_granted : CommunityGateway ℕ
after_granted = deliver platform options (granted ∷ []) new_gateway

ingest-IsAuthentic_example :
    (e : CommunityEnvelope ℕ) × (parse_envelope texts granted.body ≡ ok e)
    × IsAuthentic platform options 5 e
    × (is_filed e.message_id (ingest platform options 5 6 granted.body new_gateway).1 ≡ true)
unfolding ingest parse_envelope matches ends_with_offset lookup payload_digest envelope_signature
    new_gateway validate_clearance
ingest-IsAuthentic_example =
    (ingest-IsAuthentic platform options 5 6 granted.body new_gateway).1 refl

outdated_rejected :
    (ingest platform options 9 9 outdated.body after_granted).0
    ≡ rejected "clearance_effective_time_not_increasing"
unfolding ingest parse_envelope matches ends_with_offset lookup payload_digest envelope_signature
    deliver new_gateway validate_clearance insert
outdated_rejected = refl

abbrev filed_as : String → CommunityGateway ℕ → Option (Filed ℕ)
filed_as id s = lookup id s.messages

abbrev standing : ClearanceStatus
standing = record {
  port_call_id = "call-1";
  un_location_code = "MYPKG";
  clearance_type = "CUSTOMS";
  status = "GRANTED";
  authority_reference = "ref-1";
  effective_at = "11Z";
  expires_at = none;
}

-- A revocation takes the place of the clearance, and a clearance of an earlier date does not.
deliver-Follows_example :
    Follows platform options "call-1:CUSTOMS" standing
      (deliver platform options (revoked ∷ outdated ∷ []) after_granted).clearances
unfolding lookup deliver ingest parse_envelope matches ends_with_offset payload_digest
    envelope_signature new_gateway validate_clearance insert
deliver-Follows_example =
    deliver-Follows platform options "call-1:CUSTOMS" standing (revoked ∷ outdated ∷ [])
      after_granted
      (deliver-AllDated platform options (granted ∷ []) new_gateway
        (new_gateway-AllDated platform options))
      refl

abbrev envelope_of : String → String → String → Fields ℕ → CommunityEnvelope ℕ
envelope_of id key type payload = record {
  message_id = id;
  conversation_id = "conversation";
  correlation_id = none;
  sender = record { party_id = "customs"; role = "CUSTOMS" };
  recipient = record { party_id = "port"; role = "PORT_AUTHORITY" };
  sent_at = "10Z";
  idempotency_key = key;
  message_type = type;
  payload = payload;
  payload_sha256 = hash;
  signature = hash;
}

abbrev granted_envelope : CommunityEnvelope ℕ
granted_envelope = envelope_of "m-1" "k-1" "CLEARANCE_STATUS" (fields_of granted.body)

deliver-replayed_example :
    let s = deliver platform options (granted ∷ revoked ∷ []) new_gateway in
    ingest platform options 50 60 granted_again.body s ≡ (replayed "m-1" s.audit_head, s)
unfolding ingest parse_envelope matches ends_with_offset lookup payload_digest envelope_signature
    new_gateway validate_clearance
deliver-replayed_example =
    deliver-replayed platform options granted granted_again new_gateway "m-1" hash
      (clearance standing) granted_envelope (revoked ∷ []) refl refl refl

abbrev filed : Filed ℕ
filed = record {
  digest = hash;
  envelope = granted_envelope;
  normalized_payload = clearance standing;
}

abbrev first_id : String
first_id = "m-1"

deliver-one_per_key_example : (first_id ≡ first_id) × (filed ≡ filed)
unfolding lookup deliver ingest parse_envelope matches ends_with_offset payload_digest
    envelope_signature new_gateway validate_clearance insert message_digest
deliver-one_per_key_example =
    deliver-one_per_key platform options (granted ∷ revoked ∷ []) "m-1" "m-1" filed filed refl refl
      refl

abbrev event_body : Json ℕ
event_body = object (
    field "protocolVersion" (string "port-call-event.v1") (
      field "portCallID" (string "call-1") (
        field "vesselVisitReference" (string "visit-1") (
          field "UNLocationCode" (string "MYPKG") (
            field "vessel" (object (field "IMO" (string "1234567") end)) (
              field "portCallServiceTypeCode" (string "BERTH") (
                field "eventTypeCode" (string "ARRIVAL") (
                  field "eventClassifierCode" (string "EST") (
                    field "eventDateTime" (string "2026-01-01T00:00:00Z") (
                      field "facility"
                        (object (
                          field "facilityTypeCode" (string "BERTH")
                            (field "facilityCode" (string "B1") end)))
                        (field "source"
                          (object (
                            field "system" (string "vts") (
                              field "recordID" (string "r-1")
                                (field "observedAt" (string "2026-01-01T00:00:00Z") end))))
                          (field "quality"
                            (object (
                              field "status" (string "ESTIMATED")
                                (field "confidence" (number 900) end)))
                            end))))))))))))

abbrev event : PortCallEvent ℕ
event =
    normalized_event texts thousandths
      (elim (as_record (some event_body)) [ none ↦ end | some fs ↦ fs ])

validate_port_call_event-IsWellFormed_example : IsWellFormed texts thousandths event
unfolding validate_port_call_event matches ends_with_offset
validate_port_call_event-IsWellFormed_example =
    validate_port_call_event-IsWellFormed texts thousandths event_body event (λ s h. h) refl

abbrev grant : String → String → String × ClearanceStatus
grant call type =
    (call ++ˢ ":" ++ˢ type, record standing { port_call_id = call; clearance_type = type })

-- The five clearances count as granted although each is for another port call.
mixed_port_calls :
    (status options (record after_granted {
      clearances =
          grant "call-1" "CUSTOMS"
          ∷ grant "call-2" "IMMIGRATION"
          ∷ grant "call-3" "HEALTH"
          ∷ grant "call-4" "SECURITY"
          ∷ grant "call-5" "PORT_CLEARANCE"
          ∷ [];
    })).all_five_clearances_granted
    ≡ true
unfolding status
mixed_port_calls = refl
