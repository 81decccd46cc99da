-- ===== src/Community.antt =====
-- server/portCommunityGateway.ts, `PortCommunityGateway`: what it accepts, and what it remembers.
mod Messages
mod PortCalls
pub mod Events
pub mod Authentic
pub mod Ledger
pub mod Standing
pub mod Keys
mod Examples
use Prim.Native.String.{◌++◌ as ◌++ˢ◌}
use text.Mathlib.Text.{◌==◌ as str_eq}
use malacca_port_resilience.Prelude.{
  ℕ, ◌+◌, ◌*◌, Bool, true, false, not, ◌&&◌, ◌||◌, String, Option, none, some, List, [], ◌∷◌,
  length, Map, lookup, insert, values, contains, Result, ok, err, ltb, leb, Floats, if◌then◌else◌,
  ◌>>=◌, ◌>>◌, throw_if, all, any,
}
use malacca_port_resilience.Json.{
  Json, string, object, Fields, end, field, TextPlatform, canonical_json,
}
unfoldable pub use Messages.*
unfoldable pub use PortCalls.*

pub data NormalizedPayload (N : Type 0) : Type 0 where
  port_call_event : PortCallEvent N → NormalizedPayload N
  clearance : ClearanceStatus → NormalizedPayload N
  acknowledgement : Acknowledgement → NormalizedPayload N

pub record Filed (N : Type 0) : Type 0 where
  pub digest : String
  pub envelope : CommunityEnvelope N
  pub normalized_payload : NormalizedPayload N

pub record CommunityOptions : Type 0 where
  pub local_party : Party
  pub partners : Map AuthorizedPartner
  pub maximum_message_age_seconds : ℕ

pub record CommunityGateway (N : Type 0) : Type 0 where
  pub messages : Map (Filed N)
  pub idempotency : Map String
  pub clearances : Map ClearanceStatus
  pub audit_head : String

-- The answers of `ingest`, by what tells them apart.
pub data Answer (N : Type 0) : Type 0 where
  accepted : String → NormalizedPayload N → String → Answer N
  replayed : String → String → Answer N
  rejected : String → Answer N

unfoldable pub new_gateway : {N : Type 0} → CommunityGateway N
new_gateway = record { messages = []; idempotency = []; clearances = []; audit_head = "GENESIS" }

-- `new Map(options.partners.map((partner) => [partner.partyID, partner]))`
unfoldable pub partner_map : List AuthorizedPartner → Map AuthorizedPartner
partner_map partners = from partners []
  where
    from : List AuthorizedPartner → Map AuthorizedPartner → Map AuthorizedPartner
    from [] m = m
    from (a ∷ rest) m = from rest (insert a.party_id a m)

-- What the gateway calls: texts, numbers, and the names that every object inherits.
pub record CommunityPlatform (N : Type 0) : Type 0 where
  pub texts : TextPlatform N
  pub floats : Floats N
  pub inherited : String → Bool

abbrev party_json : {N : Type 0} → Party → Json N
party_json a = object (field "partyID" (string a.party_id) (field "role" (string a.role) end))

-- The envelope without its signature, in the order of its fields.
abbrev unsigned_fields : {N : Type 0} → CommunityEnvelope N → Fields N → Fields N
unsigned_fields e more =
    let rest = field "sender" (party_json e.sender) (
      field "recipient" (party_json e.recipient) (
        field "sentAt" (string e.sent_at) (
          field "idempotencyKey" (string e.idempotency_key) (
            field "messageType" (string e.message_type) (
              field "payload" (object e.payload)
                (field "payloadSHA256" (string e.payload_sha256) more)))))) in
    field "protocolVersion" (string "port-community-message.v1") (
      field "messageID" (string e.message_id) (
        field "conversationID" (string e.conversation_id) (elim e.correlation_id [
          | none ↦ rest
          | some id ↦ field "correlationID" (string id) rest
        ])))

-- `${partyID}:${idempotencyKey}`
abbrev pub idempotency_key_of : {N : Type 0} → CommunityEnvelope N → String
idempotency_key_of e = e.sender.party_id ++ˢ ":" ++ˢ e.idempotency_key

-- `${portCallID}:${clearanceType}`
abbrev pub clearance_key : ClearanceStatus → String
clearance_key c = c.port_call_id ++ˢ ":" ++ˢ c.clearance_type

module _ {N : Type 0} (p : CommunityPlatform N) where
  unfoldable pub envelope_signature : String → CommunityEnvelope N → String
  envelope_signature key e =
      p.texts.hmac_sha256 key (canonical_json p.texts (object (unsigned_fields e end)))

  -- `portCommunityPayloadSha256`
  unfoldable pub payload_digest : Fields N → String
  payload_digest payload = p.texts.sha256 (canonical_json p.texts (object payload))

  unfoldable pub message_digest : CommunityEnvelope N → String
  message_digest e = p.texts.sha256 (
      canonical_json p.texts
        (object (unsigned_fields e (field "signature" (string e.signature) end))))

  -- The checks of the sender and of the recipient.
  unfoldable pub authorized_partner :
      CommunityOptions → CommunityEnvelope N → Result String AuthorizedPartner
  authorized_partner o e = elim (lookup e.sender.party_id o.partners) [
    | none ↦ err "sender_not_authorized"
    | some a ↦ do
      throw_if (not (str_eq a.role e.sender.role)) "sender_not_authorized"
      throw_if (not (contains e.message_type a.allowed_message_types)) "message_type_not_authorized"
      throw_if
          (not (str_eq e.recipient.party_id o.local_party.party_id)
            || not (str_eq e.recipient.role o.local_party.role))
          "recipient_mismatch"
      ok a
  ]

  -- The checks of the time, of the payload's digest and of the signature. The date was read before.
  unfoldable pub check_integrity :
      CommunityOptions
      → ℕ
      → CommunityEnvelope N
      → AuthorizedPartner
      → Result String (CommunityEnvelope N)
  check_integrity o now e a = elim (p.texts.parse_date e.sent_at) [
    | none ↦ err "sentAt_invalid"
    | some sent ↦ do
      throw_if (ltb (now + 30000) sent) "message_from_future"
      throw_if (ltb (sent + o.maximum_message_age_seconds * 1000) now) "message_stale"
      throw_if (not (str_eq (payload_digest e.payload) e.payload_sha256)) "payload_sha256_mismatch"
      throw_if (not (str_eq e.signature (envelope_signature a.signing_key e))) "signature_invalid"
      ok e
  ]

  -- `ingest` up to the message's digest.
  unfoldable pub authenticate : CommunityOptions → ℕ → Json N → Result String (CommunityEnvelope N)
  unfolding authorized_partner check_integrity
  authenticate o now value = do
    e ← parse_envelope p.texts value
    a ← authorized_partner o e
    check_integrity o now e a

  -- `previous && Date.parse(clearance.effectiveAt) <= Date.parse(previous.effectiveAt)`
  abbrev pub not_increasing : ClearanceStatus → Option ClearanceStatus → Bool
  not_increasing c none = false
  not_increasing c (some previous) = elim (p.texts.parse_date c.effective_at) [
    | none ↦ false
    | some t ↦ elim (p.texts.parse_date previous.effective_at) [ none ↦ false | some t' ↦ leb t t' ]
  ]

  abbrev event_payload :
      Result (List String) (PortCallEvent N) → Result String (NormalizedPayload N)
  event_payload (ok e) = ok (port_call_event e)
  event_payload (err errors) = err ("port_call_event_invalid:" ++ˢ joined_by "|" errors)

  unfoldable pub normalize_clearance :
      CommunityEnvelope N
      → Map ClearanceStatus
      → Result String (NormalizedPayload N × Map ClearanceStatus)
  normalize_clearance e clearances = do
    c ← validate_clearance p.texts p.inherited e.payload e.sender
    throw_if (not_increasing c (lookup (clearance_key c) clearances))
        "clearance_effective_time_not_increasing"
    ok (clearance c, insert (clearance_key c) c clearances)

  abbrev unchanged :
      Map ClearanceStatus
      → Result String (NormalizedPayload N)
      → Result String (NormalizedPayload N × Map ClearanceStatus)
  unchanged clearances r = r >>= λ payload. ok (payload, clearances)

  abbrev acknowledgement_payload :
      Result String Acknowledgement → Result String (NormalizedPayload N)
  acknowledgement_payload r = r >>= λ a. ok (acknowledgement a)

  -- The payload by the message's type, and the clearances after it.
  unfoldable pub normalize :
      CommunityEnvelope N
      → Map ClearanceStatus
      → Result String (NormalizedPayload N × Map ClearanceStatus)
  unfolding normalize_clearance
  normalize e clearances =
      if str_eq e.message_type "PORT_CALL_EVENT"
      then unchanged clearances
          (event_payload (validate_port_call_event p.texts p.floats (object e.payload)))
      else if str_eq e.message_type "CLEARANCE_STATUS"
      then normalize_clearance e clearances
      else unchanged clearances
          (acknowledgement_payload (validate_acknowledgement p.texts e.payload))

  abbrev audit_entry : CommunityEnvelope N → String → ℕ → Json N
  audit_entry e head later = object (
      field "previousHash" (string head) (
        field "messageID" (string e.message_id) (
          field "conversationID" (string e.conversation_id) (
            field "senderPartyID" (string e.sender.party_id) (
              field "messageType" (string e.message_type) (
                field "payloadSHA256" (string e.payload_sha256)
                  (field "acceptedAt" (string (p.texts.iso_string later)) end)))))))

  -- A message that is new is filed.
  unfoldable pub file_message :
      ℕ
      → CommunityEnvelope N
      → NormalizedPayload N × Map ClearanceStatus
      → CommunityGateway N
      → Answer N × CommunityGateway N
  file_message later e (payload, clearances) s =
      let head = p.texts.sha256 (canonical_json p.texts (audit_entry e s.audit_head later)) in
      (
        accepted e.message_id payload head,
        record {
          messages =
              insert e.message_id
                (record { digest = message_digest e; envelope = e; normalized_payload = payload })
                s.messages;
          idempotency = insert (idempotency_key_of e) e.message_id s.idempotency;
          clearances = clearances;
          audit_head = head;
        },
      )

  unfoldable pub receive :
      ℕ → CommunityEnvelope N → CommunityGateway N → Answer N × CommunityGateway N
  unfolding file_message normalize
  receive later e s = elim (lookup e.message_id s.messages) [
    | some previous ↦
        if str_eq previous.digest (message_digest e)
        then (replayed e.message_id s.audit_head, s)
        else (rejected "message_id_conflict", s)
    | none ↦ elim (lookup (idempotency_key_of e) s.idempotency) [
      | some _ ↦ (rejected "idempotency_key_conflict", s)
      | none ↦ elim (normalize e s.clearances) [
        | err error ↦ (rejected error, s)
        | ok placed ↦ file_message later e placed s
      ]
    ]
  ]

  -- `ingest`, whose clock is read first at `now` and, for a new message, again at `later`.
  unfoldable pub ingest :
      CommunityOptions → ℕ → ℕ → Json N → CommunityGateway N → Answer N × CommunityGateway N
  unfolding authenticate receive
  ingest o now later value s = elim (authenticate o now value) [
    | err error ↦ (rejected error, s)
    | ok e ↦ receive later e s
  ]

-- `status`, of what depends on the messages.
pub record CommunityStatus : Type 0 where
  pub authorized_partner_count : ℕ
  pub accepted_message_count : ℕ
  pub audit_head : String
  pub current_clearances : List ClearanceStatus
  pub all_five_clearances_granted : Bool

abbrev has_granted : List ClearanceStatus → String → Bool
has_granted cs type = any (λ c. str_eq c.status "GRANTED" && str_eq c.clearance_type type) cs

unfoldable pub status : {N : Type 0} → CommunityOptions → CommunityGateway N → CommunityStatus
status o s =
    let current = values s.clearances in
    record {
      authorized_partner_count = length o.partners;
      accepted_message_count = length s.messages;
      audit_head = s.audit_head;
      current_clearances = current;
      all_five_clearances_granted =
          all (has_granted current)
            ("CUSTOMS" ∷ "IMMIGRATION" ∷ "HEALTH" ∷ "SECURITY" ∷ "PORT_CLEARANCE" ∷ []);
    }
