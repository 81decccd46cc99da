-- ===== src/Sources/Ready.antt =====
-- What a manifest that is ready shows, from the file to its adapters.
use text.Mathlib.Text.{◌==◌ as str_eq}
use text.Mathlib.TextEquality.{eq_iff}
use malacca_port_resilience.Prelude.{
  ℕ, suc, ◌≤◌, ◌<◌, ◌≡◌, ◌∙◌, refl, ap, subst, Bool, true, false, not, String, Option, none, some,
  Option-cases, List, [], ◌∷◌, map, length, get_elem?, codes, contains, unique, raised, Clear,
  raised-eq-nil_iff, append-eq-nil_iff, is_empty_iff, Result-cases, ok, Bool-cases, inl, inr, arith,
  bind-eq-ok, throw_if-eq-ok, ◌==◌,
}
use malacca_port_resilience.Authority.{ends_with_offset}
use malacca_port_resilience.Acceptance.Delivery.{none_missing}
use malacca_port_resilience.Json.{Json, Fields, get, as_record, as_string, TextPlatform}
use malacca_port_resilience.Sources.{
  SourceAdapter, SourceAuthorization, SourceManifest, SourcePlatform, operator_adapter_ids, some_or,
  adapters_of, non_empty_string, timezone_date, stable_name, parse_adapters, check_shape,
  parse_authorization, parse_fields, parse_operator_source_manifest, adapter_checks,
  adapter_blockers, manifest_checks, manifest_blockers, assess, read_manifest, load_manifest,
}

-- Everything about an adapter has been reviewed, and its data's owner approves.
pub record IsReviewed (a : SourceAdapter) : Type 0 where
  pub fields : a.field_mapping_reviewed ≡ true
  pub units : a.units_reviewed ≡ true
  pub zone : a.timezone_reviewed ≡ true
  pub owner : a.data_owner_approved ≡ true

reviewed : {b : Bool} → not b ≡ false → b ≡ true
reviewed {b = true} h = refl
reviewed {b = false} h = cc

IsReviewed-of : (a : SourceAdapter) → Clear (adapter_checks a) → IsReviewed a
IsReviewed-of a (_, (fields, (units, (zone, (owner, _))))) = record {
  fields = reviewed fields;
  units = reviewed units;
  zone = reviewed zone;
  owner = reviewed owner;
}

-- Without blockers every adapter that is listed has been reviewed.
adapter_named :
    (id : String) (adapters : List SourceAdapter)
    → adapter_blockers adapters ≡ []
    → contains id (map (λ a. a.adapter_id) adapters) ≡ true
    → (i : ℕ) × (a : SourceAdapter) × (get_elem? adapters i ≡ some a)
      × (a.adapter_id ≡ id)
      × IsReviewed a
unfolding adapter_blockers
adapter_named id [] h there = cc
adapter_named id (a ∷ rest) h there =
    let (first, others) =
      (append-eq-nil_iff (raised (adapter_checks a)) (adapter_blockers rest)).0 h in
    elim (Bool-cases (str_eq a.adapter_id id)) [
      | inl e ↦ (
        0,
        a,
        refl,
        (eq_iff a.adapter_id id).0 e,
        IsReviewed-of a ((raised-eq-nil_iff (adapter_checks a)).0 first),
      )
      | inr e ↦
          let (i, b, at, named, done) = adapter_named id rest others (ground (arith, e, there)) in
          (suc i, b, at, named, done)
    ]

module _ {N : Type 0} (p : TextPlatform N) where
  -- An authorization by the operator, in its period, for adapters that have all been reviewed.
  pub record IsAuthorized (m : SourceManifest) (now : ℕ) : Type 0 where
    pub declared : m.evidence_level ≡ "operator-authorized"
    pub approved : ℕ
    pub approved_then : p.parse_date m.authorization.approved_at ≡ some approved
    pub not_early : approved ≤ now
    pub expires : ℕ
    pub expires_then : p.parse_date m.authorization.expires_at ≡ some expires
    pub not_over : now < expires
    pub all_reviewed :
        (id : String)
        → contains id operator_adapter_ids ≡ true
        → (i : ℕ) × (a : SourceAdapter) × (get_elem? m.adapters i ≡ some a)
          × (a.adapter_id ≡ id)
          × IsReviewed a

  Dated : String → Type 0
  Dated s = (t : ℕ) × (p.parse_date s ≡ some t)

  timezone_date-Dated :
      (v : Option (Json N)) (name s : String) → timezone_date p v name ≡ ok s → Dated s
  unfolding timezone_date Dated
  timezone_date-Dated v name s h =
      let (x, _, h1) = bind-eq-ok (non_empty_string p v name) _ s h in
      let (_, h2) = throw_if-eq-ok (not (ends_with_offset (codes x))) _ _ s h1 in
      elim (Option-cases (p.parse_date x)) [
        | inl none_there ↦ absurd (ground (arith, h2, none_there))
        | inr (t, there) ↦ (t, ground (arith, h2, there))
      ]

  parse_authorization-Dated :
      (fs : Fields N) (a : SourceAuthorization)
      → parse_authorization p fs ≡ ok a
      → Dated a.approved_at × Dated a.expires_at
  unfolding parse_authorization
  parse_authorization-Dated fs a h =
      let (r, _, h1) =
        bind-eq-ok (non_empty_string p (get "reference" fs) "authorization.reference") _ a h in
      let (b, _, h2) =
        bind-eq-ok (non_empty_string p (get "approvedBy" fs) "authorization.approvedBy") _ a h1 in
      let (s, from, h3) =
        bind-eq-ok (timezone_date p (get "approvedAt" fs) "authorization.approvedAt") _ a h2 in
      let (t, until, h4) =
        bind-eq-ok (timezone_date p (get "expiresAt" fs) "authorization.expiresAt") _ a h3 in
      let same : s ≡ a.approved_at = ground (arith, h4) in
      let same' : t ≡ a.expires_at = ground (arith, h4) in
      (
        subst Dated same
            (timezone_date-Dated (get "approvedAt" fs) "authorization.approvedAt" s from),
        subst Dated same'
            (timezone_date-Dated (get "expiresAt" fs) "authorization.expiresAt" t until),
      )

  parse_fields-authorization :
      (zone : String → Bool) (fs : Fields N) (adapters : List SourceAdapter) (a : Fields N)
      (m : SourceManifest)
      → parse_fields p zone fs adapters a ≡ ok m
      → parse_authorization p a ≡ ok m.authorization
  unfolding parse_fields
  parse_fields-authorization zone fs adapters a m h =
      let (_, h1) =
        throw_if-eq-ok (not (length (unique (map (λ x. x.adapter_id) adapters)) == length adapters))
          _ _ m h in
      let (level, _, h2) =
        bind-eq-ok
          (some_or "evidenceLevel 必须是 operator-authorized 或 site-template"
            (as_string (get "evidenceLevel" fs)))
          _ m h1 in
      let (_, h3) =
        throw_if-eq-ok (not (contains level ("operator-authorized" ∷ "site-template" ∷ []))) _ _ m
          h2 in
      let (z, _, h4) = bind-eq-ok (non_empty_string p (get "timezone" fs) "timezone") _ m h3 in
      let (_, h5) = throw_if-eq-ok (not (zone z)) _ _ m h4 in
      let (_, _, h6) = bind-eq-ok (stable_name p (get "manifestId" fs) "manifestId") _ m h5 in
      let (_, _, h7) = bind-eq-ok (stable_name p (get "siteId" fs) "siteId") _ m h6 in
      let (_, _, h8) = bind-eq-ok (stable_name p (get "portId" fs) "portId") _ m h7 in
      let (_, _, h9) = bind-eq-ok (stable_name p (get "terminalId" fs) "terminalId") _ m h8 in
      let (_, _, h10) =
        bind-eq-ok (stable_name p (get "sceneProfileId" fs) "sceneProfileId") _ m h9 in
      let (_, _, h11) =
        bind-eq-ok (stable_name p (get "scenePortNodeId" fs) "scenePortNodeId") _ m h10 in
      let (_, _, h12) =
        bind-eq-ok (non_empty_string p (get "operatorOrganization" fs) "operatorOrganization") _ m
          h11 in
      let (x, parsed, h13) = bind-eq-ok (parse_authorization p a) _ m h12 in
      parsed ∙ ap ok (ground (arith, h13))

  -- The dates of a manifest that was read can be read again.
  parse-Dated :
      (zone : String → Bool) (show : ℕ → String) (value : Json N) (m : SourceManifest)
      → parse_operator_source_manifest p zone show value ≡ ok m
      → Dated m.authorization.approved_at × Dated m.authorization.expires_at
  unfolding parse_operator_source_manifest
  parse-Dated zone show value m h =
      let (fs, _, h1) = bind-eq-ok (some_or "现场数据源清单必须是 JSON 对象" (as_record (some value))) _ m h in
      let (a, _, h2) = bind-eq-ok (check_shape p fs) _ m h1 in
      let (adapters, _, h3) = bind-eq-ok (parse_adapters p show 0 (adapters_of p fs)) _ m h2 in
      parse_authorization-Dated a m.authorization
        (parse_fields-authorization zone fs adapters a m h3)

  IsAuthorized-of :
      (m : SourceManifest) (now : ℕ)
      → Dated m.authorization.approved_at
      → Dated m.authorization.expires_at
      → manifest_blockers p m now ≡ []
      → IsAuthorized m now
  unfolding manifest_blockers Dated
  IsAuthorized-of m now (t, from) (t', until) h =
      let (checks, adapters) =
        (append-eq-nil_iff (raised (manifest_checks p m now)) (adapter_blockers m.adapters)).0 h in
      let (level, (_, (early, (over, (_, (named, _)))))) =
        (raised-eq-nil_iff (manifest_checks p m now)).0 checks in
      record {
        declared = (eq_iff m.evidence_level "operator-authorized").0 (reviewed level);
        approved = t;
        approved_then = from;
        not_early = ground (arith, early, from);
        expires = t';
        expires_then = until;
        not_over = ground (arith, over, until);
        all_reviewed = λ id known. adapter_named id m.adapters adapters (
            none_missing operator_adapter_ids (map (λ a. a.adapter_id) m.adapters)
              ((is_empty_iff _).0 (reviewed named)) id known);
      }

  assess_ready :
      (m : SourceManifest) (now : ℕ)
      → (assess p m now).authorization_ready ≡ true
      → manifest_blockers p m now ≡ []
  unfolding assess
  assess_ready m now h = (is_empty_iff (manifest_blockers p m now)).0 h

  -- A configured manifest is ready only if its file was read as one that the operator has authorized,
  -- now in its period, with each of the six adapters listed and reviewed in every respect.
  pub load_manifest-IsAuthorized :
      (o : SourcePlatform N) (path : Option String) (now : ℕ)
      → (load_manifest p o path now).authorization_ready ≡ true
      → (file : String) × (m : SourceManifest) × (path ≡ some file)
        × (read_manifest p o file ≡ ok m)
        × IsAuthorized m now
  unfolding load_manifest
  load_manifest-IsAuthorized o none now h = cc
  load_manifest-IsAuthorized o (some file) now h = elim (Bool-cases (str_eq file "")) [
    | inl missing ↦ absurd (ground (arith, missing, h))
    | inr there ↦ elim (Result-cases (read_manifest p o file)) [
      | inr (error, e) ↦ absurd (ground (arith, there, e, h))
      | inl (m, e) ↦
          let (value, _, parsed) = bind-eq-ok (o.read_json (o.resolve file)) _ m e in
          let (from, until) = parse-Dated o.is_timezone o.show value m parsed in
          (
            file,
            m,
            refl,
            e,
            IsAuthorized-of m now from until (assess_ready m now (ground (arith, there, e, h))),
          )
    ]
  ]
