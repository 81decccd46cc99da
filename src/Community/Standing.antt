-- ===== src/Community/Standing.antt =====
-- The clearances and the idempotency keys over any sequence of messages.
use text.Mathlib.Text.{◌==◌ as str_eq}
use text.Mathlib.TextEquality.{eq_iff}
use malacca_port_resilience.Prelude.{
  ℕ, ◌<◌, ◌≡◌, ◌⊎◌, refl, sym, subst, false, not, String, Option, some, Option-cases, Map, lookup,
  insert, lookup-insert, List, [], ◌∷◌, ok, arith, inl, inr, Bool-cases, throw_if-eq-ok, bind-eq-ok,
  codes, contains,
}
use malacca_port_resilience.Json.{Json, Fields, get, as_string, to_text}
use malacca_port_resilience.Community.Ledger.{
  Delivery, deliver, Outcome, unchanged, files, ingest-Outcome,
}
use malacca_port_resilience.Community.{
  new_gateway, CommunityPlatform, CommunityOptions, CommunityGateway, CommunityEnvelope, Party,
  NormalizedPayload, ClearanceStatus, normalize, normalize_clearance, not_increasing, clearance_key,
  file_message, validate_clearance, timestamp, role_for, is_role, is_period, is_unlocode, optional,
  stable_id, clearance_statuses,
}

module _ {N : Type 0} (p : CommunityPlatform N) (o : CommunityOptions) where
  -- From a clearance to one that has taken its place.
  pub record IsSuperseded (c c' : ClearanceStatus) : Type 0 where
    pub since : ℕ
    pub until : ℕ
    pub was : p.texts.parse_date c.effective_at ≡ some since
    pub is : p.texts.parse_date c'.effective_at ≡ some until
    pub earlier : since < until

  pub IsDated : ClearanceStatus → Type 0
  IsDated c = (t : ℕ) × (p.texts.parse_date c.effective_at ≡ some t)

  timestamp_dated :
      (v : Option (Json N)) (name s : String)
      → timestamp p.texts v name ≡ ok s
      → (t : ℕ) × (p.texts.parse_date s ≡ some t)
  unfolding timestamp
  timestamp_dated v name s h = elim (Option-cases (as_string v)) [
    | inl a ↦ absurd (ground (arith, a, h))
    | inr (x, a) ↦ elim (Option-cases (p.texts.parse_date x)) [
      | inl b ↦ absurd (ground (arith, a, b, h))
      | inr (t, b) ↦ (t, ground (arith, a, b, h))
    ]
  ]

  validate_clearance-IsDated :
      (payload : Fields N) (sender : Party) (c : ClearanceStatus)
      → validate_clearance p.texts p.inherited payload sender ≡ ok c
      → IsDated c
  unfolding validate_clearance IsDated
  validate_clearance-IsDated payload sender c h =
      let type = to_text p.texts (get "clearanceType" payload) in
      let status = to_text p.texts (get "status" payload) in
      let location = p.texts.upper (to_text p.texts (get "UNLocationCode" payload)) in
      let (role, _, h1) = bind-eq-ok (role_for p.inherited type) _ c h in
      let (_, h2) = throw_if-eq-ok (not (contains status clearance_statuses)) _ _ c h1 in
      let (_, h3) = throw_if-eq-ok (not (is_role role sender.role)) _ _ c h2 in
      let (_, h4) = throw_if-eq-ok (not (is_unlocode (codes location))) _ _ c h3 in
      let (at, dated, h5) =
        bind-eq-ok (timestamp p.texts (get "effectiveAt" payload) "clearance.effectiveAt") _ c h4 in
      let (until, _, h6) =
        bind-eq-ok (optional (timestamp p.texts) (get "expiresAt" payload) "clearance.expiresAt") _
          c h5 in
      let (_, h7) = throw_if-eq-ok (not (is_period p.texts at until)) _ _ c h6 in
      let (id, _, h8) =
        bind-eq-ok (stable_id (get "portCallID" payload) "clearance.portCallID") _ c h7 in
      let (reference, _, h9) =
        bind-eq-ok (stable_id (get "authorityReference" payload) "clearance.authorityReference") _ c
          h8 in
      let (t, there) =
        timestamp_dated (get "effectiveAt" payload) "clearance.effectiveAt" at dated in
      let same : at ≡ c.effective_at = ground (arith, h9) in
      (t, subst (λ s. p.texts.parse_date s ≡ some t) same there)

  -- What a message does to the clearances.
  data Change (clearances : Map ClearanceStatus) : Map ClearanceStatus → Type 0 where
    stays : Change clearances clearances
    sets :
        (c : ClearanceStatus)
        → IsDated c
        → not_increasing p c (lookup (clearance_key c) clearances) ≡ false
        → Change clearances (insert (clearance_key c) c clearances)

  clearance-Change :
      (e : CommunityEnvelope N) (clearances clearances' : Map ClearanceStatus)
      (payload : NormalizedPayload N)
      → normalize_clearance p e clearances ≡ ok (payload, clearances')
      → Change clearances clearances'
  unfolding normalize_clearance
  clearance-Change e clearances clearances' payload h =
      let (c, valid, h1) =
        bind-eq-ok (validate_clearance p.texts p.inherited e.payload e.sender) _ _ h in
      let (increasing, h2) =
        throw_if-eq-ok (not_increasing p c (lookup (clearance_key c) clearances)) _ _ _ h1 in
      subst (Change clearances) (ground (arith, h2))
        (sets c (validate_clearance-IsDated e.payload e.sender c valid) increasing)

  normalize-Change :
      (e : CommunityEnvelope N) (clearances clearances' : Map ClearanceStatus)
      (payload : NormalizedPayload N)
      → normalize p e clearances ≡ ok (payload, clearances')
      → Change clearances clearances'
  unfolding normalize
  normalize-Change e clearances clearances' payload h =
      elim (Bool-cases (str_eq e.message_type "PORT_CALL_EVENT")) [
        | inl event ↦ subst (Change clearances) (ground (arith, event, h)) stays
        | inr other ↦ elim (Bool-cases (str_eq e.message_type "CLEARANCE_STATUS")) [
          | inl status ↦
              clearance-Change e clearances clearances' payload (ground (arith, other, status, h))
          | inr rest ↦ subst (Change clearances) (ground (arith, other, rest, h)) stays
        ]
      ]

  -- Every clearance on record has a date that can be read.
  pub AllDated : Map ClearanceStatus → Type 0
  AllDated m = (k : String) (c : ClearanceStatus) → lookup k m ≡ some c → IsDated c

  -- The clearance under a key is the one there was, or has taken its place.
  pub Follows : String → ClearanceStatus → Map ClearanceStatus → Type 0
  Follows k c m = (c' : ClearanceStatus) × (lookup k m ≡ some c') × ((c' ≡ c) ⊎ IsSuperseded c c')

  Change-AllDated : (m m' : Map ClearanceStatus) → Change m m' → AllDated m → AllDated m'
  unfolding AllDated
  Change-AllDated m m' stays v = v
  Change-AllDated m m' (sets c dated later) v = λ k c' h.
      elim (Bool-cases (str_eq (clearance_key c) k)) [
        | inl e ↦ subst IsDated (ground (arith, h, e, lookup-insert k (clearance_key c) c m)) dated
        | inr e ↦ v k c' (ground (arith, h, e, lookup-insert k (clearance_key c) c m))
      ]

  Change-Follows :
      (m m' : Map ClearanceStatus) (k : String) (c : ClearanceStatus)
      → Change m m'
      → AllDated m
      → lookup k m ≡ some c
      → Follows k c m'
  unfolding Follows AllDated IsDated
  Change-Follows m m' k c stays v h = (c, h, inl refl)
  Change-Follows m m' k c (sets c' (t', dated) later) v h =
      elim (Bool-cases (str_eq (clearance_key c') k)) [
        | inl e ↦
            let (t, was) = v k c h in
            let before : lookup (clearance_key c') m ≡ some c =
              ground (arith, h, e, eq_iff (clearance_key c') k) in
            (
              c',
              ground (arith, e, lookup-insert k (clearance_key c') c' m),
              inr (record {
                since = t;
                until = t';
                was = was;
                is = dated;
                earlier = ground (arith, later, before, was, dated);
              }),
            )
        | inr e ↦ (c, ground (arith, h, e, lookup-insert k (clearance_key c') c' m), inl refl)
      ]

  Outcome-Change :
      (s s' : CommunityGateway N) → Outcome p o s s' → Change s.clearances s'.clearances
  unfolding file_message
  Outcome-Change s s' unchanged = stays
  Outcome-Change s s' (files e later payload clearances new free n) =
      normalize-Change e s.clearances clearances payload n

  IsSuperseded-by :
      (c c1 c2 : ClearanceStatus)
      → (c1 ≡ c) ⊎ IsSuperseded c c1
      → (c2 ≡ c1) ⊎ IsSuperseded c1 c2
      → (c2 ≡ c) ⊎ IsSuperseded c c2
  IsSuperseded-by c c1 c2 (inl e) by = subst (λ x. (c2 ≡ x) ⊎ IsSuperseded x c2) e by
  IsSuperseded-by c c1 c2 (inr v) (inl e) = inr (subst (IsSuperseded c) (sym e) v)
  IsSuperseded-by c c1 c2 (inr v) (inr w) =
      let same : v.until ≡ w.since = ground (arith, v.is, w.was) in
      inr (record {
        since = v.since;
        until = w.until;
        was = v.was;
        is = w.is;
        earlier = omega (arith, v.earlier, w.earlier, same);
      })

  -- Over any sequence of messages a clearance is replaced only by one that takes effect later.
  pub deliver-Follows :
      (k : String) (c : ClearanceStatus) (ds : List (Delivery N)) (s : CommunityGateway N)
      → AllDated s.clearances
      → lookup k s.clearances ≡ some c
      → Follows k c (deliver p o ds s).clearances
  unfolding deliver Follows
  deliver-Follows k c [] s v h = (c, h, inl refl)
  deliver-Follows k c (d ∷ ds) s v h =
      let change = Outcome-Change s _ (ingest-Outcome p o d s) in
      let (c1, h1, by) = Change-Follows s.clearances _ k c change v h in
      let (c2, h2, by2) = deliver-Follows k c1 ds _ (Change-AllDated s.clearances _ change v) h1 in
      (c2, h2, IsSuperseded-by c c1 c2 by by2)

  pub deliver-AllDated :
      (ds : List (Delivery N)) (s : CommunityGateway N)
      → AllDated s.clearances
      → AllDated (deliver p o ds s).clearances
  unfolding deliver
  deliver-AllDated [] s v = v
  deliver-AllDated (d ∷ ds) s v =
      deliver-AllDated ds _
        (Change-AllDated s.clearances _ (Outcome-Change s _ (ingest-Outcome p o d s)) v)

  pub new_gateway-AllDated : AllDated (new_gateway {N = N}).clearances
  unfolding AllDated new_gateway lookup
  new_gateway-AllDated k c h = cc
