-- ===== src/Community/Events.antt =====
-- What a port call event that is accepted says, for those who read it.
use text.Mathlib.Text.{◌==◌ as str_eq}
use text.Mathlib.TextEquality.{eq_iff}
use malacca_port_resilience.Prelude.{
  List, [], ◌∷◌, Bool, true, false, not, ◌&&◌, is_some, String, Option, none, some, Option-cases,
  List, [], codes, matches, is_digit, contains, ok, ◌≡◌, ◌≢◌, ◌⊎◌, inl, inr, arith, Bool-cases, All,
  raised, Clear, raised-eq-nil_iff, append-eq-nil_iff, Floats, is_empty, is_empty_iff, refl, subst,
}
use malacca_port_resilience.Authority.{ends_with_offset}
use malacca_port_resilience.Json.{Json, Fields, as_record, TextPlatform}
use malacca_port_resilience.Community.Messages.{is_unlocode}
use malacca_port_resilience.Community.PortCalls.{
  PortCallEvent, service_types, event_types, event_classifiers, facility_types, quality_statuses,
  starts_with_date, out_of_unit, text_field, normalized_event, field_errors, vessel_checks,
  code_checks, date_checks, facility_checks, value_checks, raised_by, event_errors, value_errors,
  validate_port_call_event,
}

checked : {b : Bool} → not b ≡ false → b ≡ true
checked {b = true} h = refl
checked {b = false} h = cc

not_empty : (s : String) → str_eq s "" ≡ false → s ≢ ""
not_empty s h = ground (arith, h, eq_iff s "")

-- `if (s && !b)` has not pushed its error.
checked_text : (s : String) (b : Bool) → not (str_eq s "") && not b ≡ false → s ≢ "" → b ≡ true
checked_text s b h n = ground (arith, h, n, eq_iff s "")

raised_by-Clear : (ts : List (List (Bool × String))) → raised_by ts ≡ [] → All Clear ts
raised_by-Clear [] h = tt
raised_by-Clear (t ∷ ts) h =
    let (a, b) = (append-eq-nil_iff (raised t) (raised_by ts)).0 h in
    ((raised-eq-nil_iff t).0 a, raised_by-Clear ts b)

module _ {N : Type 0} (p : TextPlatform N) (f : Floats N) where
  -- What an event promises to those who read it: a vessel that can be told apart, codes from their
  -- lists, dates with an offset, and a confidence between 0 and 1.
  pub record IsWellFormed (e : PortCallEvent N) : Type 0 where
    pub identified : (e.imo ≢ "") ⊎ ((e.mmsi ≢ "") ⊎ (e.vessel_name ≢ ""))
    pub imo_digits : e.imo ≢ "" → matches is_digit 7 7 e.imo ≡ true
    pub mmsi_digits : e.mmsi ≢ "" → matches is_digit 9 9 e.mmsi ≡ true
    pub location : is_unlocode (codes e.un_location_code) ≡ true
    pub service_known : contains e.service_type_code service_types ≡ true
    pub type_known : contains e.event_type_code event_types ≡ true
    pub classifier_known : contains e.event_classifier_code event_classifiers ≡ true
    pub facility_known : contains e.facility_type_code facility_types ≡ true
    pub quality_known : contains e.quality_status quality_statuses ≡ true
    pub dated : starts_with_date (codes e.event_date_time) ≡ true
    pub offset : ends_with_offset (codes e.event_date_time) ≡ true
    pub observed_offset : ends_with_offset (codes e.observed_at) ≡ true
    pub named : e.port_call_id ≢ ""
    pub in_unit :
        (c : N) × (e.confidence ≡ some c)
        × (f.is_finite c ≡ true)
        × (f.lt c (f.decimal 0 0) ≡ false)
        × (f.lt (f.decimal 1 0) c ≡ false)

  in_unit_of :
      (c : Option N)
      → out_of_unit p f c ≡ false
      → (x : N) × (c ≡ some x)
        × (f.is_finite x ≡ true)
        × (f.lt x (f.decimal 0 0) ≡ false)
        × (f.lt (f.decimal 1 0) x ≡ false)
  in_unit_of none h = cc
  in_unit_of (some x) h = (x, refl, ground (arith, h), ground (arith, h), ground (arith, h))

  identified_by :
      (e : PortCallEvent N)
      → Clear (vessel_checks p f e)
      → (e.imo ≢ "") ⊎ ((e.mmsi ≢ "") ⊎ (e.vessel_name ≢ ""))
  identified_by e h = elim (Bool-cases (str_eq e.imo "")) [
    | inr a ↦ inl (ground (arith, a, eq_iff e.imo ""))
    | inl a ↦ elim (Bool-cases (str_eq e.mmsi "")) [
      | inr b ↦ inr (inl (ground (arith, b, eq_iff e.mmsi "")))
      | inl b ↦ inr (inr (ground (arith, a, b, h.0, eq_iff e.vessel_name "")))
    ]
  ]

  dated_by :
      (path s : String)
      → Clear (date_checks p f path s)
      → (starts_with_date (codes s) ≡ true) × (ends_with_offset (codes s) ≡ true)
  dated_by path s h =
      let (full, (date, (offset, _))) = h in
      let there = not_empty s full in
      let dates =
        checked_text s (starts_with_date (codes s) && is_some (p.parse_date s)) date there in
      (ground (arith, dates), checked_text s (ends_with_offset (codes s)) offset there)

  checked-IsWellFormed :
      (e : PortCallEvent N) (location : String)
      → (e.un_location_code ≡ "" → location ≡ "")
      → Clear (vessel_checks p f e)
      → Clear (code_checks p f location e)
      → Clear (date_checks p f "eventDateTime" e.event_date_time)
      → Clear (facility_checks p f e)
      → Clear (date_checks p f "source.observedAt" e.observed_at)
      → IsWellFormed e
  checked-IsWellFormed e location upper vessel code date facility observed =
      let (_, (imo, (mmsi, _))) = vessel in
      let (c0, (c1, (c2, (c3, (c4, (_, (c6, (c7, (c8, _))))))))) = code in
      record {
        identified = identified_by e vessel;
        imo_digits = λ n. checked_text e.imo (matches is_digit 7 7 e.imo) imo n;
        mmsi_digits = λ n. checked_text e.mmsi (matches is_digit 9 9 e.mmsi) mmsi n;
        location =
            checked_text e.un_location_code (is_unlocode (codes e.un_location_code)) c1
              (λ z. not_empty location c0 (upper z));
        service_known = checked c6;
        type_known = checked c7;
        classifier_known = checked c8;
        facility_known = checked facility.0;
        quality_known = checked c3;
        dated = (dated_by "eventDateTime" e.event_date_time date).0;
        offset = (dated_by "eventDateTime" e.event_date_time date).1;
        observed_offset = (dated_by "source.observedAt" e.observed_at observed).1;
        named = not_empty e.port_call_id c4;
        in_unit = in_unit_of e.confidence c2;
      }

  well_formed :
      (fs : Fields N) (e : PortCallEvent N)
      → (e.un_location_code ≡ "" → text_field p f "UNLocationCode" fs ≡ "")
      → value_errors p f fs e ≡ []
      → IsWellFormed e
  unfolding value_errors
  well_formed fs e upper h =
      let (_, (vessel, (code, (date, (facility, (observed, _)))))) =
        raised_by-Clear (value_checks p f fs e) h in
      checked-IsWellFormed e (text_field p f "UNLocationCode" fs) upper vessel code date facility
        observed

  event_errors_nil :
      (fs : Fields N)
      → event_errors p f fs ≡ []
      → value_errors p f fs (normalized_event p f fs) ≡ []
  unfolding event_errors
  event_errors_nil fs h = ((append-eq-nil_iff (field_errors p f fs) _).0 h).1

  upper_location :
      (fs : Fields N)
      → ((s : String) → p.upper s ≡ "" → s ≡ "")
      → (normalized_event p f fs).un_location_code ≡ ""
      → text_field p f "UNLocationCode" fs ≡ ""
  unfolding normalized_event
  upper_location fs upper h = upper _ h

  -- An event that `validatePortCallEvent` accepts names a vessel, a port call and a UN/LOCODE, has its
  -- codes from their lists, its dates with an offset and its confidence between 0 and 1, whatever the
  -- JSON was, provided that only the empty text has an empty text in capitals.
  pub validate_port_call_event-IsWellFormed :
      (input : Json N) (e : PortCallEvent N)
      → ((s : String) → p.upper s ≡ "" → s ≡ "")
      → validate_port_call_event p f input ≡ ok e
      → IsWellFormed e
  unfolding validate_port_call_event
  validate_port_call_event-IsWellFormed input e upper h =
      elim (Option-cases (as_record (some input))) [
        | inl a ↦ absurd (ground (arith, a, h))
        | inr (fs, a) ↦ elim (Bool-cases (is_empty (event_errors p f fs))) [
          | inr b ↦ absurd (ground (arith, a, b, h))
          | inl b ↦
              let same : normalized_event p f fs ≡ e = ground (arith, a, b, h) in
              subst IsWellFormed same (
                well_formed fs _ (upper_location fs upper)
                  (event_errors_nil fs ((is_empty_iff _).0 b)))
        ]
      ]
