-- ===== src/Community/Messages.antt =====
-- server/portCommunityGateway.ts: the messages of a port community, and how they are read from JSON.
use Prim.Native.String.{◌++◌ as ◌++ˢ◌}
use text.Mathlib.Text.{◌==◌ as str_eq}
use malacca_port_resilience.Prelude.{
  ℕ, Bool, true, false, not, ◌&&◌, ◌||◌, String, Option, none, some, List, [], ◌∷◌, codes, matches,
  is_hex, is_path_id_char, is_upper, is_digit, is_digit, contains, Result, ok, err, ltb,
  if◌then◌else◌, ◌>>=◌, ◌>>◌, throw_if, is_empty,
}
use malacca_port_resilience.Authority.{ends_with_offset}
use malacca_port_resilience.Json.{
  Json, Fields, get, keys, as_record, as_string, to_text, TextPlatform,
}

pub record Party : Type 0 where
  pub party_id : String
  pub role : String

pub record CommunityEnvelope (N : Type 0) : Type 0 where
  pub message_id : String
  pub conversation_id : String
  pub correlation_id : Option String
  pub sender : Party
  pub recipient : Party
  pub sent_at : String
  pub idempotency_key : String
  pub message_type : String
  pub payload : Fields N
  pub payload_sha256 : String
  pub signature : String

pub record AuthorizedPartner : Type 0 where
  pub party_id : String
  pub role : String
  pub signing_key : String
  pub allowed_message_types : List String

pub record ClearanceStatus : Type 0 where
  pub port_call_id : String
  pub un_location_code : String
  pub clearance_type : String
  pub status : String
  pub authority_reference : String
  pub effective_at : String
  pub expires_at : Option String

pub record Acknowledgement : Type 0 where
  pub acknowledged_message_id : String
  pub status : String
  pub reason_code : Option String

abbrev pub message_types : List String
message_types = "PORT_CALL_EVENT" ∷ "CLEARANCE_STATUS" ∷ "ACKNOWLEDGEMENT" ∷ []

abbrev pub party_roles : List String
party_roles =
    "CARRIER" ∷ "SHIP_AGENT" ∷ "TERMINAL" ∷ "PORT_AUTHORITY" ∷ "VESSEL_TRAFFIC_SERVICE"
    ∷ "MARITIME_SINGLE_WINDOW" ∷ "PORT_COMMUNITY_SYSTEM" ∷ "CUSTOMS" ∷ "IMMIGRATION"
    ∷ "HEALTH_AUTHORITY" ∷ "SECURITY_AUTHORITY" ∷ "SERVICE_PROVIDER" ∷ []

abbrev pub envelope_fields : List String
envelope_fields =
    "protocolVersion" ∷ "messageID" ∷ "conversationID" ∷ "correlationID" ∷ "sender" ∷ "recipient"
    ∷ "sentAt" ∷ "idempotencyKey" ∷ "messageType" ∷ "payload" ∷ "payloadSHA256" ∷ "signature" ∷ []

-- `xs.filter((key) => !allowed.has(key))`
abbrev pub outside : List String → List String → List String
outside allowed [] = []
outside allowed (k ∷ ks) = if contains k allowed then outside allowed ks else k ∷ outside allowed ks

-- `xs.join(',')`
abbrev pub joined_by : String → List String → String
joined_by sep [] = ""
joined_by sep (x ∷ []) = x
joined_by sep (x ∷ y ∷ ys) = x ++ˢ sep ++ˢ joined_by sep (y ∷ ys)

abbrev is_upper_or_digit : ℕ → Bool
is_upper_or_digit c = is_upper c || is_digit c

-- `UNLOCODE`
abbrev pub is_unlocode : List ℕ → Bool
is_unlocode (a ∷ b ∷ c ∷ d ∷ e ∷ []) =
    is_upper a
    && (is_upper b && (is_upper_or_digit c && (is_upper_or_digit d && is_upper_or_digit e)))
is_unlocode _ = false

abbrev pub is_stable : String → Bool
is_stable = matches is_path_id_char 2 180

abbrev pub expected_clearance_role : String → Option String
expected_clearance_role type =
    if str_eq type "CUSTOMS"
    then some "CUSTOMS"
    else if str_eq type "IMMIGRATION"
    then some "IMMIGRATION"
    else if str_eq type "HEALTH"
    then some "HEALTH_AUTHORITY"
    else if str_eq type "SECURITY"
    then some "SECURITY_AUTHORITY"
    else if str_eq type "PORT_CLEARANCE"
    then some "PORT_AUTHORITY"
    else none

abbrev pub clearance_statuses : List String
clearance_statuses = "PENDING" ∷ "GRANTED" ∷ "REJECTED" ∷ "REVOKED" ∷ []

abbrev pub is_role : Option String → String → Bool
is_role none role = false
is_role (some expected) role = str_eq role expected

-- The role that may send a clearance of a type.
abbrev pub role_for : (String → Bool) → String → Result String (Option String)
role_for inherited type = elim (expected_clearance_role type) [
  | some role ↦ ok (some role)
  | none ↦ if inherited type then ok none else err "clearance_type_invalid"
]

module _ {N : Type 0} where
  unfoldable pub stable_id : Option (Json N) → String → Result String String
  stable_id v name = elim (as_string v) [
    | none ↦ err (name ++ˢ "_invalid")
    | some s ↦ if is_stable s then ok s else err (name ++ˢ "_invalid")
  ]

  -- A field that may be missing.
  unfoldable pub optional :
      (Option (Json N) → String → Result String String)
      → Option (Json N)
      → String
      → Result String (Option String)
  optional read none name = ok none
  optional read (some v) name = do s ← read (some v) name; ok (some s)

  unfoldable pub parse_party : TextPlatform N → Option (Json N) → String → Result String Party
  unfolding stable_id
  parse_party p v name = elim (as_record v) [
    | none ↦ err (name ++ˢ "_invalid")
    | some fs ↦
        let role = to_text p (get "role" fs) in
        do
          throw_if (not (contains role party_roles)) (name ++ˢ ".role_invalid")
          id ← stable_id (get "partyID" fs) (name ++ˢ ".partyID")
          ok (record { party_id = id; role = role })
  ]

  unfoldable pub timestamp : TextPlatform N → Option (Json N) → String → Result String String
  timestamp p v name = elim (as_string v) [
    | none ↦ err (name ++ˢ "_invalid")
    | some s ↦ elim (p.parse_date s) [
      | none ↦ err (name ++ˢ "_invalid")
      | some _ ↦ if ends_with_offset (codes s) then ok s else err (name ++ˢ "_invalid")
    ]
  ]

  -- `value !== PORT_COMMUNITY_PROTOCOL_VERSION` does not hold.
  abbrev is_version : Option (Json N) → Bool
  is_version v = elim (as_string v) [ none ↦ false | some s ↦ str_eq s "port-community-message.v1" ]

  abbrev payload_of : Option (Fields N) → Result String (Fields N)
  payload_of none = err "payload_invalid"
  payload_of (some fs) = ok fs

  -- `parsePortCommunityEnvelope`.
  unfoldable pub parse_envelope : TextPlatform N → Json N → Result String (CommunityEnvelope N)
  unfolding stable_id optional parse_party timestamp
  parse_envelope p value = elim (as_record (some value)) [
    | none ↦ err "message_must_be_object"
    | some fs ↦
        let unknown = outside envelope_fields (keys fs) in
        let message_type = to_text p (get "messageType" fs) in
        let digest = to_text p (get "payloadSHA256" fs) in
        let signature = to_text p (get "signature" fs) in
        do
          throw_if (not (is_empty unknown)) ("message_unknown_fields:" ++ˢ joined_by "," unknown)
          throw_if (not (is_version (get "protocolVersion" fs))) "protocol_version_invalid"
          throw_if (not (contains message_type message_types)) "message_type_invalid"
          payload ← payload_of (as_record (get "payload" fs))
          throw_if (not (matches is_hex 64 64 digest)) "payload_sha256_invalid"
          throw_if (not (matches is_hex 64 64 signature)) "signature_invalid"
          message_id ← stable_id (get "messageID" fs) "messageID"
          conversation_id ← stable_id (get "conversationID" fs) "conversationID"
          correlation_id ← optional stable_id (get "correlationID" fs) "correlationID"
          sender ← parse_party p (get "sender" fs) "sender"
          recipient ← parse_party p (get "recipient" fs) "recipient"
          sent_at ← timestamp p (get "sentAt" fs) "sentAt"
          idempotency_key ← stable_id (get "idempotencyKey" fs) "idempotencyKey"
          ok (record {
            message_id = message_id;
            conversation_id = conversation_id;
            correlation_id = correlation_id;
            sender = sender;
            recipient = recipient;
            sent_at = sent_at;
            idempotency_key = idempotency_key;
            message_type = message_type;
            payload = payload;
            payload_sha256 = digest;
            signature = signature;
          })
  ]

  -- `expiresAt && Date.parse(expiresAt) <= Date.parse(effectiveAt)` does not hold.
  abbrev pub is_period : TextPlatform N → String → Option String → Bool
  is_period p effective none = true
  is_period p effective (some expires) = elim (p.parse_date expires) [
    | none ↦ true
    | some e ↦ elim (p.parse_date effective) [ none ↦ true | some s ↦ ltb s e ]
  ]

  -- `validateClearance`. A name that every object inherits passes the test `in`, and then no role is
  -- equal to what it finds, so that the error differs.
  unfoldable pub validate_clearance :
      TextPlatform N → (String → Bool) → Fields N → Party → Result String ClearanceStatus
  validate_clearance p inherited payload sender =
      let type = to_text p (get "clearanceType" payload) in
      let status = to_text p (get "status" payload) in
      let location = p.upper (to_text p (get "UNLocationCode" payload)) in
      do
        role ← role_for inherited type
        throw_if (not (contains status clearance_statuses)) "clearance_status_invalid"
        throw_if (not (is_role role sender.role)) "clearance_sender_role_not_authoritative"
        throw_if (not (is_unlocode (codes location))) "clearance_unlocode_invalid"
        effective_at ← timestamp p (get "effectiveAt" payload) "clearance.effectiveAt"
        expires_at ← optional (timestamp p) (get "expiresAt" payload) "clearance.expiresAt"
        throw_if (not (is_period p effective_at expires_at)) "clearance_period_invalid"
        port_call_id ← stable_id (get "portCallID" payload) "clearance.portCallID"
        reference ← stable_id (get "authorityReference" payload) "clearance.authorityReference"
        ok (record {
          port_call_id = port_call_id;
          un_location_code = location;
          clearance_type = type;
          status = status;
          authority_reference = reference;
          effective_at = effective_at;
          expires_at = expires_at;
        })

  -- `validateAcknowledgement`.
  unfoldable pub validate_acknowledgement :
      TextPlatform N → Fields N → Result String Acknowledgement
  validate_acknowledgement p payload =
      let status = to_text p (get "status" payload) in
      do
        throw_if (not (contains status ("ACCEPTED" ∷ "REJECTED" ∷ [])))
            "acknowledgement_status_invalid"
        id ← stable_id (get "acknowledgedMessageID" payload) "acknowledgedMessageID"
        reason ← optional stable_id (get "reasonCode" payload) "reasonCode"
        ok (record { acknowledged_message_id = id; status = status; reason_code = reason })
