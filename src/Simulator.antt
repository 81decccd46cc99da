-- ===== src/Simulator.antt =====
-- server/operationalSimulator.ts, `PortOperationsSimulator`: the clock, the scenario and the control
-- that is in force. The physics of one tick is a parameter, `Physics`; Tick has the source's.
mod Envelope
pub mod Counterfactual
pub mod Control
pub mod Tick
mod Examples
unfoldable pub use Envelope.*
use malacca_port_resilience.Prelude.{
  ℕ, zero, suc, ◌+◌, ◌-◌, ◌*◌, ◌/◌, max, Bool, true, false, Option, none, some, String, List, [],
  ◌∷◌, ◌++◌, length, leb, ltb, ◌==◌, if◌then◌else◌, Result, ok, err, Floats, not,
}

pub data Scenario : Type 0 where
  normal peak_arrivals channel_closure equipment_failure : Scenario
  extreme_weather channel_congestion yard_saturation data_loss : Scenario

-- The control in force, with the ticks for which it stays so.
pub record ActiveControl (F : Type 0) : Type 0 where
  pub action : Action
  pub remaining_ticks : ℕ
  pub effect : Effect F

-- `step` without its bookkeeping: from the state before the tick, the scenario, the control and the
-- tick's number, the state after it and what the tick shows.
pub record Physics (F Body Tick : Type 0) : Type 0 where
  pub tick : ℕ → Scenario → Option (ActiveControl F) → Body → Body × Tick

pub record Simulator (F Body Tick : Type 0) : Type 0 where
  pub sequence : ℕ
  pub body : Body
  pub latest_tick : Tick
  pub recent_ticks : List Tick
  pub running : Bool
  pub scenario : Scenario
  pub active_control : Option (ActiveControl F)

pub record Status : Type 0 where
  pub running : Bool
  pub scenario : Scenario
  pub sequence : ℕ

abbrev rest {ℓ} : {A : Type ℓ} → List A → List A
rest [] = []
rest (x ∷ xs) = xs

module _ {F : Type 0} where
  -- `remainingTicks -= 1; if (remainingTicks <= 0) activeControl = null`
  unfoldable pub spend_tick : Option (ActiveControl F) → Option (ActiveControl F)
  spend_tick none = none
  spend_tick (some c) =
      let left = c.remaining_ticks - 1 in
      if leb left 0 then none else some (record c { remaining_ticks = left })

module _ {Tick : Type 0} where
  -- `recentTicks.push(tickState); if (recentTicks.length > 192) recentTicks.shift()`
  unfoldable pub remember : Tick → List Tick → List Tick
  remember t ts =
      let longer = ts ++ t ∷ [] in if ltb 192 (length longer) then rest longer else longer

module _ {F : Type 0} (fl : Floats F) where
  abbrev pub plain : ℕ → ℕ → ℕ → ℕ → Effect F
  plain relief capacity carbon diversion = record {
    queue_relief = fl.decimal relief 2;
    capacity_multiplier = fl.decimal capacity 2;
    carbon_multiplier = fl.decimal carbon 2;
    diversion_fraction = fl.decimal diversion 2;
    yard_outflow_multiplier = fl.decimal 1 0;
    gate_outflow_multiplier = fl.decimal 1 0;
    intermodal_outflow_multiplier = fl.decimal 1 0;
    energy_load_multiplier = fl.decimal 1 0;
    peak_grid_multiplier = fl.decimal 1 0;
    reefer_power_multiplier = fl.decimal 1 0;
    equipment_availability_bonus = fl.decimal 0 0;
    battery_power_adjustment_kw = fl.decimal 0 0;
    maintenance_relief_count = fl.decimal 0 0;
  }

  -- `effectByAction`, its numbers in hundredths.
  unfoldable pub effect_by_action : Action → ActiveControl F
  effect_by_action hold_plan = record {
    action = hold_plan;
    remaining_ticks = 4;
    effect = plain 0 100 100 0;
  }
  effect_by_action eco_speed = record {
    action = eco_speed;
    remaining_ticks = 8;
    effect = plain 5 100 96 0;
  }
  effect_by_action arrival_window = record {
    action = arrival_window;
    remaining_ticks = 8;
    effect = plain 12 100 99 0;
  }
  effect_by_action port_diversion = record {
    action = port_diversion;
    remaining_ticks = 8;
    effect = plain 10 100 101 1;
  }
  effect_by_action capacity_control = record {
    action = capacity_control;
    remaining_ticks = 8;
    effect = plain 20 102 101 0;
  }

module _ {F Body Tick : Type 0} (ph : Physics F Body Tick) where
  unfoldable pub step : ℕ → Simulator F Body Tick → Simulator F Body Tick
  step sequence sim =
      let (body, tick) = ph.tick sequence sim.scenario sim.active_control sim.body in
      record sim {
        sequence = sequence;
        body = body;
        latest_tick = tick;
        recent_ticks = remember tick sim.recent_ticks;
        active_control = spend_tick sim.active_control;
      }

  unfoldable pub steps : ℕ → Simulator F Body Tick → Simulator F Body Tick
  steps zero sim = sim
  steps (suc n) sim = steps n (step (sim.sequence + 1) sim)

  -- `forceAdvance`
  unfoldable pub force_advance : ℕ → Simulator F Body Tick → Simulator F Body Tick
  force_advance ticks sim = if not sim.running then sim else steps ticks sim

  -- `advance`; `elapsed` is the wall time since the start in milliseconds.
  unfoldable pub advance : ℕ → ℕ → Simulator F Body Tick → Simulator F Body Tick
  advance wall_tick_ms elapsed sim =
      if not sim.running
      then sim
      else steps (max sim.sequence (elapsed / wall_tick_ms) - sim.sequence) sim

  unfoldable pub set_running : Bool → Simulator F Body Tick → Simulator F Body Tick
  set_running running sim = record sim { running = running }

  unfoldable pub set_scenario : Scenario → Simulator F Body Tick → Simulator F Body Tick
  set_scenario scenario sim = record sim { scenario = scenario }

  unfoldable pub status : Simulator F Body Tick → Status
  status sim = record { running = sim.running; scenario = sim.scenario; sequence = sim.sequence }

  module _ (fl : Floats F) where
    unfoldable pub apply_action : Action → Simulator F Body Tick → Simulator F Body Tick
    apply_action a sim =
        force_advance 1 (record sim { active_control = some (effect_by_action fl a) })

    -- `none` where the source throws CORE_CONTROL_EFFECT_OUTSIDE_ENVELOPE.
    unfoldable pub apply_core_control :
        CoreEffect F → Simulator F Body Tick → Option (Simulator F Body Tick)
    apply_core_control c sim =
        let control : ActiveControl F = record {
          action = capacity_control;
          remaining_ticks = c.remaining_ticks;
          effect = c.effect;
        } in
        if outside_envelope fl c
        then none
        else some (force_advance 1 (record sim { active_control = some control }))

  module _ {View : Type 0} (fl : Floats F) (view : Simulator F Body Tick → View) where
    -- `snapshot` at the wall time of the simulator's own tick.
    unfoldable pub snapshot_at_tick : ℕ → Simulator F Body Tick → View × Simulator F Body Tick
    snapshot_at_tick wall_tick_ms sim =
        let later = advance wall_tick_ms (sim.sequence * wall_tick_ms) sim in (view later, later)

    -- `restore`, field by field.
    unfoldable pub restore : Simulator F Body Tick → Simulator F Body Tick → Simulator F Body Tick
    restore checkpoint sim = record sim {
      sequence = checkpoint.sequence;
      body = checkpoint.body;
      latest_tick = checkpoint.latest_tick;
      recent_ticks = checkpoint.recent_ticks;
      running = checkpoint.running;
      scenario = checkpoint.scenario;
      active_control = checkpoint.active_control;
    }

    -- The baseline's snapshot and the controlled one, or `none` where it throws.
    unfoldable pub apply_core_control_with_counterfactual :
        ℕ → CoreEffect F → Simulator F Body Tick → Option (View × View) × Simulator F Body Tick
    apply_core_control_with_counterfactual wall_tick_ms c sim =
        let (baseline, after_baseline) = snapshot_at_tick wall_tick_ms (force_advance 1 sim) in
        let restored = restore sim after_baseline in
        elim (apply_core_control fl c restored) [
          | none ↦ (none, restored)
          | some controlled ↦
              let (shown, later) = snapshot_at_tick wall_tick_ms controlled in
              (some (baseline, shown), later)
        ]
