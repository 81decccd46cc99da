-- ===== src/Simulator/Envelope.antt =====
-- server/operationalSimulator.ts: the actions, their effects, and the envelope that `applyCoreControl`
-- holds an effect to.
use malacca_port_resilience.Prelude.{
  ℕ, Bool, true, false, ◌||◌, not, ◌&&◌, List, [], ◌∷◌, Floats, ltb,
}

pub data Action : Type 0 where
  hold_plan eco_speed arrival_window port_diversion capacity_control : Action

-- The numbers of an `ActiveControlEffect`; a multiplier that the source leaves out is 1, a bonus,
-- an adjustment or a relief 0, as the source reads a missing one.
pub record Effect (F : Type 0) : Type 0 where
  pub queue_relief : F
  pub capacity_multiplier : F
  pub carbon_multiplier : F
  pub diversion_fraction : F
  pub yard_outflow_multiplier : F
  pub gate_outflow_multiplier : F
  pub intermodal_outflow_multiplier : F
  pub energy_load_multiplier : F
  pub peak_grid_multiplier : F
  pub reefer_power_multiplier : F
  pub equipment_availability_bonus : F
  pub battery_power_adjustment_kw : F
  pub maintenance_relief_count : F

-- `CoreSimulationControlEffect`, of whole ticks, as its callers ask for.
pub record CoreEffect (F : Type 0) : Type 0 where
  pub remaining_ticks : ℕ
  pub effect : Effect F

module _ {F : Type 0} (fl : Floats F) where
  abbrev pub outside : F → ℕ → ℕ → ℕ → Bool
  outside x low high digits = fl.lt x (fl.decimal low digits) || fl.lt (fl.decimal high digits) x

  -- The bounds of the source, as numerals over 10 ^ digits.
  abbrev pub bounds : Effect F → List (F × ℕ × ℕ × ℕ)
  bounds e =
      (e.queue_relief, 0, 8, 1)
      ∷ (e.capacity_multiplier, 97, 109, 2)
      ∷ (e.carbon_multiplier, 90, 105, 2)
      ∷ (e.diversion_fraction, 0, 1, 2)
      ∷ (e.yard_outflow_multiplier, 10, 14, 1)
      ∷ (e.gate_outflow_multiplier, 10, 13, 1)
      ∷ (e.intermodal_outflow_multiplier, 100, 135, 2)
      ∷ (e.energy_load_multiplier, 93, 105, 2)
      ∷ (e.peak_grid_multiplier, 84, 104, 2)
      ∷ (e.reefer_power_multiplier, 94, 102, 2)
      ∷ (e.equipment_availability_bonus, 0, 2, 0)
      ∷ (e.battery_power_adjustment_kw, 0, 1500, 0)
      ∷ (e.maintenance_relief_count, 0, 4, 0)
      ∷ []

  abbrev pub any_outside : List (F × ℕ × ℕ × ℕ) → Bool
  any_outside [] = false
  any_outside ((x, low, high, digits) ∷ rest) = outside x low high digits || any_outside rest

  abbrev pub all_finite : List (F × ℕ × ℕ × ℕ) → Bool
  all_finite [] = true
  all_finite ((x, low, high, digits) ∷ rest) = fl.is_finite x && all_finite rest

  -- The condition under which `applyCoreControl` throws.
  unfoldable pub outside_envelope : CoreEffect F → Bool
  outside_envelope c =
      not (all_finite (bounds c.effect))
      || (ltb c.remaining_ticks 1 || (ltb 12 c.remaining_ticks || any_outside (bounds c.effect)))
