-- ===== src/Community/Keys.antt =====
-- One message for each idempotency key, over any sequence of messages.
use text.Mathlib.Text.{◌==◌ as str_eq}
use text.Mathlib.TextEquality.{eq_iff}
use malacca_port_resilience.Prelude.{
  ◌≡◌, refl, sym, ap, ◌∙◌, subst, String, none, some, Map, lookup, insert, lookup-insert,
  lookup-insert_self, lookup-insert_new, List, [], ◌∷◌, arith, inl, inr, Bool-cases,
}
use malacca_port_resilience.Community.Ledger.{
  Delivery, deliver, Outcome, unchanged, files, ingest-Outcome,
}
use malacca_port_resilience.Community.{
  CommunityPlatform, CommunityOptions, CommunityGateway, CommunityEnvelope, Filed, ClearanceStatus,
  new_gateway, file_message, idempotency_key_of,
}

module _ {N : Type 0} (p : CommunityPlatform N) (o : CommunityOptions) where
  -- A record stands under its message's id, and its key leads to it.
  IsKeyed : CommunityGateway N → String → Filed N → Type 0
  IsKeyed s id f =
      (f.envelope.message_id ≡ id)
      × (lookup (idempotency_key_of f.envelope) s.idempotency ≡ some id)

  AllKeyed : CommunityGateway N → Type 0
  AllKeyed s = (id : String) (f : Filed N) → lookup id s.messages ≡ some f → IsKeyed s id f

  file_message-AllKeyed :
      (s : CommunityGateway N) (e : CommunityEnvelope N) (f : Filed N) (m : Map ClearanceStatus)
      (head : String)
      → f.envelope ≡ e
      → lookup (idempotency_key_of e) s.idempotency ≡ none
      → AllKeyed s
      → AllKeyed (record {
        messages = insert e.message_id f s.messages;
        idempotency = insert (idempotency_key_of e) e.message_id s.idempotency;
        clearances = m;
        audit_head = head;
      })
  unfolding AllKeyed IsKeyed
  file_message-AllKeyed s e f m head own free v = λ id g h.
      elim (Bool-cases (str_eq e.message_id id)) [
        | inl same ↦
            let is : g ≡ f = ground (arith, h, same, lookup-insert id e.message_id f s.messages) in
            let named : e.message_id ≡ id = (eq_iff e.message_id id).0 same in
            (
              ap (λ x. x.envelope.message_id) is ∙ ap (λ x. x.message_id) own ∙ named,
              subst
                  (λ x.
                    lookup (idempotency_key_of x)
                      (insert (idempotency_key_of e) e.message_id s.idempotency)
                    ≡ some id)
                  (sym (ap (λ x. x.envelope) is ∙ own))
                  (lookup-insert_self (idempotency_key_of e) e.message_id s.idempotency
                    ∙ ap some named),
            )
        | inr other ↦
            let (named, leads) =
              v id g (ground (arith, h, other, lookup-insert id e.message_id f s.messages)) in
            (
              named,
              lookup-insert_new (idempotency_key_of g.envelope) (idempotency_key_of e) e.message_id
                  id s.idempotency free leads,
            )
      ]

  Outcome-AllKeyed : (s s' : CommunityGateway N) → Outcome p o s s' → AllKeyed s → AllKeyed s'
  unfolding file_message
  Outcome-AllKeyed s s' unchanged v = v
  Outcome-AllKeyed s s' (files e later payload clearances new free n) v =
      file_message-AllKeyed s e _ clearances _ refl free v

  deliver-AllKeyed :
      (ds : List (Delivery N)) (s : CommunityGateway N) → AllKeyed s → AllKeyed (deliver p o ds s)
  unfolding deliver
  deliver-AllKeyed [] s v = v
  deliver-AllKeyed (d ∷ ds) s v =
      deliver-AllKeyed ds _ (Outcome-AllKeyed s _ (ingest-Outcome p o d s) v)

  -- Whatever messages a new gateway has received, two messages on record with one key of their sender
  -- are one message.
  pub deliver-one_per_key :
      (ds : List (Delivery N)) (id id' : String) (f g : Filed N)
      → lookup id (deliver p o ds new_gateway).messages ≡ some f
      → lookup id' (deliver p o ds new_gateway).messages ≡ some g
      → idempotency_key_of f.envelope ≡ idempotency_key_of g.envelope
      → (id ≡ id') × (f ≡ g)
  unfolding IsKeyed AllKeyed new_gateway lookup
  deliver-one_per_key ds id id' f g there there' same =
      let keyed = deliver-AllKeyed ds new_gateway (λ i h e. cc) in
      let a = (keyed id f there).1 in
      let b = (keyed id' g there').1 in
      let one : id ≡ id' = ground (arith, a, b, same) in (one, ground (arith, one, there, there'))
