-- ===== src/Assurance/Shield.antt =====
-- server/algorithmAssuranceGate.ts, `applyAlgorithmSafetyShield`: an action passes the shield, or is
-- replaced by holding the plan.
use text.Mathlib.Text.{◌==◌ as str_eq}
use malacca_port_resilience.Prelude.{
  ◌≡◌, ◌⊎◌, Bool, true, false, not, ◌&&◌, ◌||◌, String, List, [], ◌∷◌, Floats, raised, is_empty,
  contains, if◌then◌else◌, IsNumber,
}

pub record RuntimeState (F : Type 0) : Type 0 where
  pub data_completeness_percent : F
  pub communication_available : Bool
  pub vessel_traffic_critical_encounter_count : F
  pub safety_risk_percent : F
  pub yard_occupancy_percent : F
  pub transformer_loading_percent : F
  pub channel_available : Bool
  pub live_authority_verified : Bool

pub record ShieldDecision : Type 0 where
  pub requested_action : String
  pub admitted : Bool
  pub shielded_action : String
  pub blockers : List String
  pub requires_human_review : Bool
  pub dispatch_allowed : Bool
  pub production_authority : Bool

abbrev pub allowed : List String
allowed = "hold-plan" ∷ "eco-speed" ∷ "arrival-window" ∷ "port-diversion" ∷ "capacity-control" ∷ []

module _ {F : Type 0} (fl : Floats F) where
  abbrev pub shield_checks : String → RuntimeState F → List (Bool × String)
  shield_checks requested s =
      (not (contains requested allowed), "action_not_in_allowlist")
      ∷ (fl.lt s.data_completeness_percent (fl.decimal 95 0), "data_completeness_below_95_percent")
      ∷ (not s.communication_available, "communications_unavailable")
      ∷ (
        fl.lt (fl.decimal 0 0) s.vessel_traffic_critical_encounter_count,
        "critical_vessel_encounter_active",
      )
      ∷ (fl.lt (fl.decimal 15 0) s.safety_risk_percent, "safety_risk_above_envelope")
      ∷ (not s.channel_available && not (str_eq requested "hold-plan"), "channel_unavailable")
      ∷ (
        str_eq requested "capacity-control"
            && (fl.lt (fl.decimal 90 0) s.yard_occupancy_percent
                || fl.lt (fl.decimal 95 0) s.transformer_loading_percent),
        "capacity_control_physical_envelope_blocked",
      )
      ∷ (not s.live_authority_verified, "live_authority_not_verified")
      ∷ []

  unfoldable pub apply_algorithm_safety_shield : String → RuntimeState F → ShieldDecision
  apply_algorithm_safety_shield requested s =
      let blockers = raised (shield_checks requested s) in
      record {
        requested_action = requested;
        admitted = is_empty blockers;
        shielded_action = if is_empty blockers then requested else "hold-plan";
        blockers = blockers;
        requires_human_review = true;
        dispatch_allowed = false;
        production_authority = false;
      }

  -- The state in which an action may go ahead.
  pub record IsSafe (requested : String) (s : RuntimeState F) : Type 0 where
    pub complete : fl.le (fl.decimal 95 0) s.data_completeness_percent ≡ true
    pub communicating : s.communication_available ≡ true
    pub no_encounter : fl.le s.vessel_traffic_critical_encounter_count (fl.decimal 0 0) ≡ true
    pub low_risk : fl.le s.safety_risk_percent (fl.decimal 15 0) ≡ true
    pub channel : (requested ≡ "hold-plan") ⊎ (s.channel_available ≡ true)
    pub capacity :
        requested ≡ "capacity-control"
        → (fl.le s.yard_occupancy_percent (fl.decimal 90 0) ≡ true)
          × (fl.le s.transformer_loading_percent (fl.decimal 95 0) ≡ true)
    pub authority : s.live_authority_verified ≡ true

  -- The readings of the state are numbers, which the shield does not check.
  pub record IsMeasured (s : RuntimeState F) : Type 0 where
    pub completeness : IsNumber fl s.data_completeness_percent
    pub encounters : IsNumber fl s.vessel_traffic_critical_encounter_count
    pub risk : IsNumber fl s.safety_risk_percent
    pub yard : IsNumber fl s.yard_occupancy_percent
    pub transformer : IsNumber fl s.transformer_loading_percent
