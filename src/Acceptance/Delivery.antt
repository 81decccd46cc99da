-- ===== src/Acceptance/Delivery.antt =====
-- What a site that is ready for delivery has shown.
use text.Mathlib.Text.{◌==◌ as str_eq}
use text.Mathlib.TextEquality.{eq_iff}
use malacca_port_resilience.Prelude.{
  ℕ, zero, suc, ◌≤◌, ◌≡◌, refl, sym, subst, ◌∙◌, true, String, some, List, [], ◌∷◌, map, length,
  get_elem?, Bool-cases, inl, inr, arith, Floats, FloatsLaws, IsNumber, at_least, ◌≢◌, ◌+◌, All,
  Option, none, Option-cases, lookup, raised, Clear, raised-eq-nil_iff, contains, contains-unique,
  unique, unique-eq-nil_iff, append-eq-nil_iff, is_empty_iff, Map,
}
use malacca_port_resilience.Acceptance.{
  FieldKpi, Signoff, SiteEvidence, SitePlatform, missing, required_kpis, required_roles, kpi_checks,
  kpi_blockers, identity_checks, window_blockers, shadow_run_checks, kpi_list_checks,
  delivery_checks, signoff_checks, is_valid_signoff, valid_signoffs, site_blockers,
  site_delivery_ready, site_instant, in_time, verify_signoff,
}
use malacca_port_resilience.Authority.{is_stable_id}

pub none_missing :
    (xs ys : List String)
    → missing xs ys ≡ []
    → (a : String) → contains a xs ≡ true
    → contains a ys ≡ true
unfolding missing
none_missing [] ys h a there = cc
none_missing (x ∷ xs) ys h a there = elim (Bool-cases (contains x ys)) [
  | inr e ↦ ground (arith, e, h)
  | inl e ↦ elim (Bool-cases (str_eq x a)) [
    | inl same ↦ subst (λ b. contains b ys ≡ true) ((eq_iff x a).0 same) e
    | inr other ↦ none_missing xs ys (ground (arith, e, h)) a (ground (arith, other, there))
  ]
]

module _ {F : Type 0} where
  kpi_named :
      (id : String) (kpis : List (FieldKpi F))
      → contains id (map (λ k. k.kpi_id) kpis) ≡ true
      → (i : ℕ) × (k : FieldKpi F) × (get_elem? kpis i ≡ some k) × (k.kpi_id ≡ id)
  kpi_named id [] h = cc
  kpi_named id (k ∷ rest) h = elim (Bool-cases (str_eq k.kpi_id id)) [
    | inl e ↦ (0, k, refl, (eq_iff k.kpi_id id).0 e)
    | inr e ↦
        let (i, found, there, same) = kpi_named id rest (ground (arith, e, h)) in
        (suc i, found, there, same)
  ]

module _ {F : Type 0} (fl : Floats F) (p : SitePlatform F) where
  -- A KPI that was measured independently, on thirty samples each, and reaches its target.
  pub record IsMet (k : FieldKpi F) : Type 0 where
    pub independent : k.independent_measurement ≡ true
    pub on_target : fl.le k.required_improvement_percent k.improvement_lower95_percent ≡ true
    pub baseline_samples : fl.le (fl.decimal 30 0) k.baseline_sample_count ≡ true
    pub shadow_samples : fl.le (fl.decimal 30 0) k.shadow_sample_count ≡ true

  -- The counts of samples are numbers, which the gate does not check.
  pub record IsCounted (k : FieldKpi F) : Type 0 where
    pub baseline : IsNumber fl k.baseline_sample_count
    pub shadow : IsNumber fl k.shadow_sample_count

  IsMet-of :
      (laws : FloatsLaws fl) (k : FieldKpi F) → IsCounted k → Clear (kpi_checks fl p k) → IsMet k
  IsMet-of laws k counted (metric, (samples, (gaps, (independent, (lineage, (target, rest)))))) =
      record {
        independent = ground (arith, independent);
        on_target =
            laws.total k.improvement_lower95_percent k.required_improvement_percent
              (laws.finite k.improvement_lower95_percent (ground (arith, metric)))
              (laws.finite k.required_improvement_percent (ground (arith, metric))) target;
        baseline_samples =
            at_least laws k.baseline_sample_count 30 0 counted.baseline (ground (arith, samples));
        shadow_samples =
            at_least laws k.shadow_sample_count 30 0 counted.shadow (ground (arith, samples));
      }

  All-IsMet :
      (laws : FloatsLaws fl) (kpis : List (FieldKpi F)) (i : ℕ) (k : FieldKpi F)
      → All IsCounted kpis
      → kpi_blockers fl p kpis ≡ []
      → get_elem? kpis i ≡ some k
      → IsMet k
  unfolding kpi_blockers
  All-IsMet laws [] i k counted h there = cc
  All-IsMet laws (x ∷ xs) i k counted h there =
      let (first, rest) =
        (append-eq-nil_iff (raised (kpi_checks fl p x)) (kpi_blockers fl p xs)).0 h in
      elim i as (λ i. get_elem? (x ∷ xs) i ≡ some k → IsMet k) [
        | zero ↦ λ at.
            let same : x ≡ k = cc in
            subst IsMet same
              (IsMet-of laws x counted.0 ((raised-eq-nil_iff (kpi_checks fl p x)).0 first))
        | suc j ↦ λ at. All-IsMet laws xs j k counted.1 rest at
      ]
        there

  -- A sign-off of the evidence's digest by a named person, dated before now (and half a minute of
  -- tolerance), whose signature verifies with the key that is trusted under its name.
  pub record IsSigned (trust : Map String) (now : ℕ) (e : SiteEvidence F) (s : Signoff)
      : Type 0 where
    pub listed : (i : ℕ) × (get_elem? e.signoffs i ≡ some s)
    pub same_digest : s.acceptance_digest ≡ e.acceptance_digest
    pub stable_subject : is_stable_id s.subject_id ≡ true
    pub signed : (t : ℕ) × (site_instant fl p s.signed_at ≡ some t) × (t ≤ now + 30000)
    pub verified :
        (key : String) × (lookup s.key_id trust ≡ some key) × (key ≢ "") × (p.verify key s ≡ true)

  verified_key :
      (trust : Map String) (s : Signoff)
      → verify_signoff fl p trust s ≡ true
      → (key : String) × (lookup s.key_id trust ≡ some key) × (key ≢ "") × (p.verify key s ≡ true)
  unfolding verify_signoff
  verified_key trust s h = elim (Option-cases (lookup s.key_id trust)) [
    | inl e ↦ absurd (ground (arith, e, h))
    | inr (key, e) ↦
        (key, e, (λ blank. ground (arith, e, h, (eq_iff key "").1 blank)), ground (arith, e, h))
  ]

  signed_instant :
      (now : ℕ) (o : Option ℕ)
      → in_time fl p now o ≡ true
      → (t : ℕ) × (o ≡ some t) × (t ≤ now + 30000)
  signed_instant now none h = cc
  signed_instant now (some t) h = (t, refl, ground (arith, h))

  valid-IsSigned :
      (trust : Map String) (now : ℕ) (e : SiteEvidence F) (i : ℕ) (s : Signoff)
      → get_elem? e.signoffs i ≡ some s
      → is_valid_signoff fl p trust now e s ≡ true
      → IsSigned trust now e s
  unfolding is_valid_signoff
  valid-IsSigned trust now e i s there h = record {
    listed = (i, there);
    same_digest = (eq_iff s.acceptance_digest e.acceptance_digest).0 (ground (arith, h));
    stable_subject = ground (arith, h);
    signed = signed_instant now (site_instant fl p s.signed_at) (ground (arith, h));
    verified = verified_key trust s (ground (arith, h));
  }

  -- What holds of every valid sign-off holds of all that are kept.
  kept :
      (trust : Map String) (now : ℕ) (e : SiteEvidence F) (P : Signoff → Type 0)
      (signoffs : List Signoff)
      → ((i : ℕ) (s : Signoff)
          → get_elem? signoffs i ≡ some s
          → is_valid_signoff fl p trust now e s ≡ true
          → P s)
      → All P (valid_signoffs fl p trust now e signoffs)
  unfolding valid_signoffs
  kept trust now e P [] h = tt
  kept trust now e P (s ∷ rest) h = elim (Bool-cases (is_valid_signoff fl p trust now e s)) [
    | inl g ↦ rw g (h 0 s refl g, kept trust now e P rest (λ i. h (suc i)))
    | inr g ↦ rw g (kept trust now e P rest (λ i. h (suc i)))
  ]

  with_role :
      (P : Signoff → Type 0) (role : String) (signoffs : List Signoff)
      → All P signoffs
      → contains role (map (λ s. s.role) signoffs) ≡ true
      → (s : Signoff) × P s × (s.role ≡ role)
  with_role P role [] a h = cc
  with_role P role (s ∷ rest) a h = elim (Bool-cases (str_eq s.role role)) [
    | inl g ↦ (s, a.0, (eq_iff s.role role).0 g)
    | inr g ↦ with_role P role rest a.1 (ground (arith, g, h))
  ]

  pub record IsDelivered (trust : Map String) (now : ℕ) (e : SiteEvidence F) : Type 0 where
    pub field_accepted : e.evidence_level ≡ "FIELD_ACCEPTED"
    pub own_digest : e.acceptance_digest ≡ p.digest e
    pub required_kpi :
        (id : String)
        → contains id required_kpis ≡ true
        → (i : ℕ) × (k : FieldKpi F) × (get_elem? e.kpis i ≡ some k) × (k.kpi_id ≡ id) × IsMet k
    pub every_kpi : (i : ℕ) (k : FieldKpi F) → get_elem? e.kpis i ≡ some k → IsMet k
    pub required_role :
        (role : String)
        → contains role required_roles ≡ true
        → (s : Signoff) × IsSigned trust now e s × (s.role ≡ role)
    pub signers : List Signoff
    pub signers_signed : All (IsSigned trust now e) signers
    pub five_signers : 5 ≤ length (unique (map (λ s. s.subject_id) signers))

  -- If the counts of samples are numbers, a site is ready for delivery only on evidence from the field
  -- that carries its own digest, in which each required KPI is reported, every KPI was measured
  -- independently on at least thirty samples each and reaches its target, and each of the five roles
  -- and at least five different people have signed that digest, in time and with a signature that
  -- verifies with a trusted key.
  pub site_delivery_ready_only_if :
      (laws : FloatsLaws fl) (trust : Map String) (now : ℕ) (e : SiteEvidence F)
      → All IsCounted e.kpis
      → site_delivery_ready fl p trust now e ≡ true
      → IsDelivered trust now e
  unfolding site_delivery_ready site_blockers
  site_delivery_ready_only_if laws trust now e counted h =
      let r0 =
        (unique-eq-nil_iff (site_blockers fl p trust now e)).0
          ((is_empty_iff (unique (site_blockers fl p trust now e))).0 h) in
      let (identity, r1) = (append-eq-nil_iff (raised (identity_checks fl p e)) _).0 r0 in
      let (window, r2) =
        (append-eq-nil_iff (window_blockers fl p now e.shadow e.observation_window) _).0 r1 in
      let (run, r3) = (append-eq-nil_iff (raised (shadow_run_checks fl p e.shadow)) _).0 r2 in
      let (listed, r4) = (append-eq-nil_iff (raised (kpi_list_checks fl p e.kpis)) _).0 r3 in
      let (kpis, r5) = (append-eq-nil_iff (kpi_blockers fl p e.kpis) _).0 r4 in
      let (delivery, signed) = (append-eq-nil_iff (raised (delivery_checks fl p e)) _).0 r5 in
      let (protocol, (ids, (digest, _))) =
        (raised-eq-nil_iff (identity_checks fl p e)).0 identity in
      let (twice, (lacking, _)) = (raised-eq-nil_iff (kpi_list_checks fl p e.kpis)).0 listed in
      let (roles, (level, _)) = (raised-eq-nil_iff (signoff_checks fl p trust now e)).0 signed in
      let names = map (λ k. k.kpi_id) e.kpis in
      let valid = valid_signoffs fl p trust now e e.signoffs in
      let held = map (λ s. s.role) valid in
      let signers = unique (map (λ s. s.subject_id) valid) in
      let no_kpi_lacking : missing required_kpis (unique names) ≡ [] =
        (is_empty_iff (missing required_kpis (unique names))).0 (ground (arith, lacking)) in
      let no_role_lacking : missing required_roles (unique held) ≡ [] =
        (is_empty_iff (missing required_roles (unique held))).0 (ground (arith, roles)) in
      let all_signed =
        kept trust now e (IsSigned trust now e) e.signoffs (valid-IsSigned trust now e) in
      record {
        field_accepted = (eq_iff e.evidence_level "FIELD_ACCEPTED").0 (ground (arith, level));
        own_digest = (eq_iff e.acceptance_digest (p.digest e)).0 (ground (arith, digest));
        required_kpi = λ id required.
            let (i, k, there, same) = kpi_named id e.kpis (
              sym (contains-unique id names)
              ∙ none_missing required_kpis (unique names) no_kpi_lacking id required) in
            (i, k, there, same, All-IsMet laws e.kpis i k counted kpis there);
        every_kpi = λ i k there. All-IsMet laws e.kpis i k counted kpis there;
        required_role = λ role required. with_role (IsSigned trust now e) role valid all_signed (
            sym (contains-unique role held)
            ∙ none_missing required_roles (unique held) no_role_lacking role required);
        signers = valid;
        signers_signed = all_signed;
        five_signers = ground (arith, roles);
      }
