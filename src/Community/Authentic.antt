-- ===== src/Community/Authentic.antt =====
-- Which messages `ingest` lets in.
use text.Mathlib.TextEquality.{eq_iff}
use malacca_port_resilience.Prelude.{
  ℕ, ◌+◌, ◌*◌, ◌≤◌, ◌≡◌, refl, Bool, true, false, not, String, some, Option-cases, is_some, Map,
  lookup, lookup-insert_self, subst, contains, Result-cases, ok, arith, inl, inr, bind-eq-ok,
}
use malacca_port_resilience.Json.{Json}
use malacca_port_resilience.Community.{
  CommunityPlatform, CommunityOptions, CommunityGateway, CommunityEnvelope, AuthorizedPartner,
  NormalizedPayload, ClearanceStatus, Answer, rejected, parse_envelope, authorized_partner,
  check_integrity, authenticate, payload_digest, envelope_signature, receive, ingest, normalize,
  file_message, idempotency_key_of,
}

abbrev pub is_rejected : {N : Type 0} → Answer N → Bool
is_rejected (rejected error) = true
is_rejected _ = false

-- Whether a message is on record.
abbrev pub is_filed : {N : Type 0} → String → CommunityGateway N → Bool
is_filed id s = is_some (lookup id s.messages)

truth : {b : Bool} → not b ≡ false → b ≡ true
truth {b = true} h = refl
truth {b = false} h = cc

module _ {N : Type 0} (p : CommunityPlatform N) where
  -- A message from a partner that may send it, to the local party, in its time, with the payload that
  -- its digest says, signed with the partner's key.
  pub record IsAuthentic (o : CommunityOptions) (now : ℕ) (e : CommunityEnvelope N) : Type 0 where
    pub partner : AuthorizedPartner
    pub known : lookup e.sender.party_id o.partners ≡ some partner
    pub in_role : partner.role ≡ e.sender.role
    pub allowed : contains e.message_type partner.allowed_message_types ≡ true
    pub addressed : e.recipient ≡ o.local_party
    pub sent : ℕ
    pub sent_then : p.texts.parse_date e.sent_at ≡ some sent
    pub not_early : sent ≤ now + 30000
    pub not_stale : now ≤ sent + o.maximum_message_age_seconds * 1000
    pub intact : payload_digest p e.payload ≡ e.payload_sha256
    pub signed : e.signature ≡ envelope_signature p partner.signing_key e

  partner_found :
      (o : CommunityOptions) (e : CommunityEnvelope N) (a : AuthorizedPartner)
      → authorized_partner p o e ≡ ok a
      → (lookup e.sender.party_id o.partners ≡ some a)
        × (a.role ≡ e.sender.role)
        × (contains e.message_type a.allowed_message_types ≡ true)
        × (e.recipient ≡ o.local_party)
  unfolding authorized_partner
  partner_found o e a h = elim (Option-cases (lookup e.sender.party_id o.partners)) [
    | inl missing ↦ absurd (ground (arith, missing, h))
    | inr (b, there) ↦
        let same : b ≡ a = ground (arith, there, h) in
        let role : (b.role ≡ e.sender.role) =
          ground (arith, there, h, eq_iff b.role e.sender.role) in
        let allowed : contains e.message_type b.allowed_message_types ≡ true =
          ground (arith, there, h) in
        let id : e.recipient.party_id ≡ o.local_party.party_id =
          ground (arith, there, h, eq_iff e.recipient.party_id o.local_party.party_id) in
        let local_role : e.recipient.role ≡ o.local_party.role =
          ground (arith, there, h, eq_iff e.recipient.role o.local_party.role) in
        subst
          (λ c.
            (lookup e.sender.party_id o.partners ≡ some c)
            × (c.role ≡ e.sender.role)
            × (contains e.message_type c.allowed_message_types ≡ true)
            × (e.recipient ≡ o.local_party))
          same (there, role, allowed, cc (id, local_role))
  ]

  integrity_checked :
      (o : CommunityOptions) (now : ℕ) (e e' : CommunityEnvelope N) (a : AuthorizedPartner)
      → check_integrity p o now e a ≡ ok e'
      → (e ≡ e')
        × (sent : ℕ) × (p.texts.parse_date e.sent_at ≡ some sent)
        × (sent ≤ now + 30000)
        × (now ≤ sent + o.maximum_message_age_seconds * 1000)
        × (payload_digest p e.payload ≡ e.payload_sha256)
        × (e.signature ≡ envelope_signature p a.signing_key e)
  unfolding check_integrity
  integrity_checked o now e e' a h = elim (Option-cases (p.texts.parse_date e.sent_at)) [
    | inl missing ↦ absurd (ground (arith, missing, h))
    | inr (sent, there) ↦
        let same : e ≡ e' = ground (arith, there, h) in
        (
          same,
          sent,
          there,
          ground (arith, there, h),
          ground (arith, there, h),
          ground (arith, there, h, eq_iff (payload_digest p e.payload) e.payload_sha256),
          ground (arith, there, h, eq_iff e.signature (envelope_signature p a.signing_key e)),
        )
  ]

  -- What passes is what the JSON says, and authentic.
  pub authenticate-IsAuthentic :
      (o : CommunityOptions) (now : ℕ) (value : Json N) (e : CommunityEnvelope N)
      → authenticate p o now value ≡ ok e
      → (parse_envelope p.texts value ≡ ok e) × IsAuthentic o now e
  unfolding authenticate
  authenticate-IsAuthentic o now value e h =
      let (e0, parsed, h1) = bind-eq-ok (parse_envelope p.texts value) _ e h in
      let (a, partner, h2) = bind-eq-ok (authorized_partner p o e0) _ e h1 in
      let (known, role, allowed, addressed) = partner_found o e0 a partner in
      let (same, sent, there, early, stale, intact, signed) = integrity_checked o now e0 e a h2 in
      subst (λ c. (parse_envelope p.texts value ≡ ok c) × IsAuthentic o now c) same
        (
          parsed,
          record {
            partner = a;
            known = known;
            in_role = role;
            allowed = allowed;
            addressed = addressed;
            sent = sent;
            sent_then = there;
            not_early = early;
            not_stale = stale;
            intact = intact;
            signed = signed;
          },
        )

  file_message_filed :
      (later : ℕ) (e : CommunityEnvelope N) (placed : NormalizedPayload N × Map ClearanceStatus)
      (s : CommunityGateway N)
      → (is_rejected (file_message p later e placed s).0 ≡ false)
        × (is_filed e.message_id (file_message p later e placed s).1 ≡ true)
  unfolding file_message
  file_message_filed later e placed s =
      (refl, rw (lookup-insert_self e.message_id _ s.messages) refl)

  receive_filed :
      (later : ℕ) (e : CommunityEnvelope N) (s : CommunityGateway N)
      → let (answer, s') = receive p later e s in
        (is_rejected answer ≡ true → s' ≡ s)
        × (is_rejected answer ≡ false → is_filed e.message_id s' ≡ true)
  unfolding receive
  receive_filed later e s = elim (Option-cases (lookup e.message_id s.messages)) [
    | inr (f, there) ↦ ground (arith, there)
    | inl new ↦ elim (Option-cases (lookup (idempotency_key_of e) s.idempotency)) [
      | inr (id, used) ↦ ground (arith, new, used)
      | inl free ↦ elim (Result-cases (normalize p e s.clearances)) [
        | inr (error, h) ↦ ground (arith, new, free, h)
        | inl (placed, h) ↦ ground (arith, new, free, h, file_message_filed later e placed s)
      ]
    ]
  ]

  -- A message that `ingest` does not reject is what the JSON says, is authentic, and is filed under its
  -- id from then on; a message that it rejects leaves the gateway as it was.
  pub ingest-IsAuthentic :
      (o : CommunityOptions) (now later : ℕ) (value : Json N) (s : CommunityGateway N)
      → let (answer, s') = ingest p o now later value s in
        (is_rejected answer ≡ true → s' ≡ s)
        × (is_rejected answer ≡ false
            → (e : CommunityEnvelope N) × (parse_envelope p.texts value ≡ ok e)
              × IsAuthentic o now e
              × (is_filed e.message_id s' ≡ true))
  unfolding ingest
  ingest-IsAuthentic o now later value s = elim (Result-cases (authenticate p o now value)) [
    | inr (error, h) ↦ ground (arith, h)
    | inl (e, h) ↦
        let (parsed, authentic) = authenticate-IsAuthentic o now value e h in
        let (undone, filed) = receive_filed later e s in
        (
          (λ r. ground (arith, h, undone, r)),
          (λ r. (e, parsed, authentic, ground (arith, h, filed, r))),
        )
  ]
