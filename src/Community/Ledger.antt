-- ===== src/Community/Ledger.antt =====
-- What the gateway remembers over any sequence of messages.
use text.Mathlib.TextEquality.{eq_iff}
use malacca_port_resilience.Prelude.{
  ℕ, ◌≡◌, refl, subst, String, none, some, Option-cases, Map, lookup, lookup-insert_self,
  lookup-insert_new, List, [], ◌∷◌, Result-cases, ok, arith, inl, inr,
}
use malacca_port_resilience.Json.{Json}
use malacca_port_resilience.Community.Authentic.{authenticate-IsAuthentic}
use malacca_port_resilience.Community.{
  CommunityPlatform, CommunityOptions, CommunityGateway, CommunityEnvelope, Filed,
  NormalizedPayload, ClearanceStatus, accepted, replayed, authenticate, receive, ingest,
  message_digest, normalize, file_message, idempotency_key_of,
}

-- A call of `ingest`: the two readings of the clock, and the body.
pub record Delivery (N : Type 0) : Type 0 where
  pub now : ℕ
  pub later : ℕ
  pub body : Json N

module _ {N : Type 0} (p : CommunityPlatform N) (o : CommunityOptions) where
  abbrev after : Delivery N → CommunityGateway N → CommunityGateway N
  after d s = (ingest p o d.now d.later d.body s).1

  unfoldable pub deliver : List (Delivery N) → CommunityGateway N → CommunityGateway N
  deliver [] s = s
  deliver (d ∷ ds) s = deliver ds (ingest p o d.now d.later d.body s).1

  -- The three ways in which a delivery ends for what the gateway remembers.
  pub data Outcome (s : CommunityGateway N) : CommunityGateway N → Type 0 where
    unchanged : Outcome s s
    files :
        (e : CommunityEnvelope N) (later : ℕ) (payload : NormalizedPayload N)
        (clearances : Map ClearanceStatus)
        → lookup e.message_id s.messages ≡ none
        → lookup (idempotency_key_of e) s.idempotency ≡ none
        → normalize p e s.clearances ≡ ok (payload, clearances)
        → Outcome s (file_message p later e (payload, clearances) s).1

  receive-Outcome :
      (later : ℕ) (e : CommunityEnvelope N) (s : CommunityGateway N)
      → Outcome s (receive p later e s).1
  unfolding receive
  receive-Outcome later e s = elim (Option-cases (lookup e.message_id s.messages)) [
    | inr (f, there) ↦ subst (Outcome s) (ground (arith, there)) unchanged
    | inl new ↦ elim (Option-cases (lookup (idempotency_key_of e) s.idempotency)) [
      | inr (id, used) ↦ subst (Outcome s) (ground (arith, new, used)) unchanged
      | inl free ↦ elim (Result-cases (normalize p e s.clearances)) [
        | inr (error, h) ↦ subst (Outcome s) (ground (arith, new, free, h)) unchanged
        | inl ((payload, clearances), h) ↦
            subst (Outcome s) (ground (arith, new, free, h))
              (files e later payload clearances new free h)
      ]
    ]
  ]

  pub ingest-Outcome : (d : Delivery N) (s : CommunityGateway N) → Outcome s (after d s)
  unfolding ingest
  ingest-Outcome d s = elim (Result-cases (authenticate p o d.now d.body)) [
    | inr (error, h) ↦ subst (Outcome s) (ground (arith, h)) unchanged
    | inl (e, h) ↦ subst (Outcome s) (ground (arith, h)) (receive-Outcome d.later e s)
  ]

  kept_by_outcome :
      (id : String) (f : Filed N) (s s' : CommunityGateway N)
      → Outcome s s'
      → lookup id s.messages ≡ some f
      → lookup id s'.messages ≡ some f
  unfolding file_message
  kept_by_outcome id f s s' unchanged h = h
  kept_by_outcome id f s s' (files e later payload clearances new free n) h =
      lookup-insert_new id e.message_id _ f s.messages new h

  deliver_kept :
      (id : String) (f : Filed N) (ds : List (Delivery N)) (s : CommunityGateway N)
      → lookup id s.messages ≡ some f
      → lookup id (deliver ds s).messages ≡ some f
  unfolding deliver
  deliver_kept id f [] s h = h
  deliver_kept id f (d ∷ ds) s h =
      deliver_kept id f ds (after d s) (kept_by_outcome id f s _ (ingest-Outcome d s) h)

  -- A message that is new to the gateway is on record under its id, with its digest.
  filed_by_receive :
      (later : ℕ) (e : CommunityEnvelope N) (s : CommunityGateway N) (id head : String)
      (payload : NormalizedPayload N)
      → (receive p later e s).0 ≡ accepted id payload head
      → (f : Filed N) × (lookup e.message_id (receive p later e s).1.messages ≡ some f)
        × (f.digest ≡ message_digest p e)
  unfolding receive file_message
  filed_by_receive later e s id head payload h =
      elim (Option-cases (lookup e.message_id s.messages)) [
        | inr (f, there) ↦ absurd (ground (arith, there, h))
        | inl new ↦ elim (Option-cases (lookup (idempotency_key_of e) s.idempotency)) [
          | inr (i, used) ↦ absurd (ground (arith, new, used, h))
          | inl free ↦ elim (Result-cases (normalize p e s.clearances)) [
            | inr (error, n) ↦ absurd (ground (arith, new, free, n, h))
            | inl ((x, clearances), n) ↦
                let f : Filed N = record {
                  digest = message_digest p e;
                  envelope = e;
                  normalized_payload = x;
                } in
                (
                  f,
                  ground (arith, new, free, n, lookup-insert_self e.message_id f s.messages),
                  refl,
                )
          ]
        ]
      ]

  replay_of :
      (d : Delivery N) (e : CommunityEnvelope N) (s : CommunityGateway N) (f : Filed N)
      → authenticate p o d.now d.body ≡ ok e
      → lookup e.message_id s.messages ≡ some f
      → f.digest ≡ message_digest p e
      → ingest p o d.now d.later d.body s ≡ (replayed e.message_id s.audit_head, s)
  unfolding ingest receive
  replay_of d e s f a there digest =
      ground (arith, a, there, digest, eq_iff f.digest (message_digest p e))

  -- After a message was accepted as new, and after any further messages, the same body that is still
  -- authentic when it comes again is answered as a replay under its id, and changes nothing.
  pub deliver-replayed :
      (d again : Delivery N) (s : CommunityGateway N) (id head : String)
      (payload : NormalizedPayload N) (e : CommunityEnvelope N) (ds : List (Delivery N))
      → (ingest p o d.now d.later d.body s).0 ≡ accepted id payload head
      → again.body ≡ d.body
      → authenticate p o again.now again.body ≡ ok e
      → let s' = deliver (d ∷ ds) s in
        ingest p o again.now again.later again.body s' ≡ (replayed e.message_id s'.audit_head, s')
  unfolding ingest deliver
  deliver-replayed d again s id head payload e ds h same fresh =
      elim (Result-cases (authenticate p o d.now d.body)) [
        | inr (error, a) ↦ absurd (ground (arith, a, h))
        | inl (e0, a) ↦
            let parsed = (authenticate-IsAuthentic p o d.now d.body e0 a).0 in
            let parsed' = (authenticate-IsAuthentic p o again.now again.body e fresh).0 in
            let equal : e0 ≡ e = ground (arith, parsed, parsed', same) in
            let (f, there, digest) =
              filed_by_receive d.later e0 s id head payload (ground (arith, a, h)) in
            replay_of again e _ f fresh
              (deliver_kept e.message_id f ds _ (ground (arith, a, there, equal)))
              (ground (arith, digest, equal))
      ]
