-- ===== src/Simulator/Counterfactual.antt =====
-- `applyCoreControlWithCounterfactual` runs a baseline first, and takes it back.
use native.Mathlib.Nat.{mul-div_cancel}
use malacca_port_resilience.Prelude.{
  ℕ, ◌<◌, ◌-◌, ◌*◌, ◌/◌, max, ◌≡◌, Option, Option-cases, inl, inr, none, some, Floats, arith,
}
use malacca_port_resilience.Simulator.{
  CoreEffect, Physics, Simulator, advance, steps, force_advance, apply_core_control,
  snapshot_at_tick, restore, apply_core_control_with_counterfactual,
}

module _ {F Body Tick : Type 0} (ph : Physics F Body Tick) where
  -- What is left of a run with a baseline is what the control alone leaves.
  abbrev pub or_same :
      Simulator F Body Tick → Option (Simulator F Body Tick) → Simulator F Body Tick
  or_same sim none = sim
  or_same sim (some controlled) = controlled

  module _ {View : Type 0} (fl : Floats F) (view : Simulator F Body Tick → View) where
    abbrev pub views : Simulator F Body Tick → Option (Simulator F Body Tick) → Option (View × View)
    views sim none = none
    views sim (some controlled) = some (view (force_advance ph 1 sim), view controlled)

    -- At the wall time of its own tick a simulator is shown as it is.
    snapshot_lem :
        (wall_tick_ms : ℕ) (sim : Simulator F Body Tick)
        → 0 < wall_tick_ms
        → snapshot_at_tick ph fl view wall_tick_ms sim ≡ (view sim, sim)
    unfolding snapshot_at_tick advance steps
    snapshot_lem wall_tick_ms sim h =
        let same : max sim.sequence (sim.sequence * wall_tick_ms / wall_tick_ms) - sim.sequence
            ≡ 0 =
          omega (arith, mul-div_cancel sim.sequence h) in
        rw same (ground arith)

    -- The baseline leaves no trace: the simulator ends where the control alone brings it, or unchanged
    -- if the control is refused, and the two snapshots are those of one tick without the control and
    -- one tick with it, from the same state.
    pub counterfactual_leaves_no_trace :
        (wall_tick_ms : ℕ) (c : CoreEffect F) (sim : Simulator F Body Tick)
        → 0 < wall_tick_ms
        → let controlled = apply_core_control ph fl c sim in
          apply_core_control_with_counterfactual ph fl view wall_tick_ms c sim
          ≡ (views sim controlled, or_same sim controlled)
    unfolding apply_core_control_with_counterfactual restore
    counterfactual_leaves_no_trace wall_tick_ms c sim h =
        let shown = snapshot_lem wall_tick_ms (force_advance ph 1 sim) h in
        elim (Option-cases (apply_core_control ph fl c sim)) [
          | inl e ↦ ground (arith, e, shown)
          | inr (controlled, e) ↦ ground (arith, e, shown, snapshot_lem wall_tick_ms controlled h)
        ]
