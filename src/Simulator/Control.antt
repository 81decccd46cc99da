-- ===== src/Simulator/Control.antt =====
-- The simulator's clock, its bounded memory, and how long a control stays in force.
use malacca_port_resilience.Prelude.{
  ℕ, zero, suc, ◌+◌, ◌-◌, ◌/◌, ◌≤◌, max, ◌≡◌, refl, true, Option, none, some, List, [], ◌∷◌, length,
  length-append, Floats, arith,
}
use malacca_port_resilience.Simulator.{
  capacity_control, CoreEffect, ActiveControl, Physics, Simulator, spend_tick, remember, step,
  steps, force_advance, advance, apply_core_control, outside_envelope,
}

-- A control in force has one to twelve ticks left; at most 192 ticks are remembered.
abbrev pub InForce : {F : Type 0} → Option (ActiveControl F) → Type 0
InForce none = Unit
InForce (some c) = (1 ≤ c.remaining_ticks) × (c.remaining_ticks ≤ 12)

pub record IsSound {F Body Tick : Type 0} (sim : Simulator F Body Tick) : Type 0 where
  pub memory : length sim.recent_ticks ≤ 192
  pub in_force : InForce sim.active_control

-- The ticks for which a control stays in force from here on.
abbrev pub ticks_left : {F : Type 0} → Option (ActiveControl F) → ℕ
ticks_left none = 0
ticks_left (some c) = c.remaining_ticks

remember-le :
    {Tick : Type 0} (t : Tick) (ts : List Tick) → length ts ≤ 192 → length (remember t ts) ≤ 192
unfolding remember
remember-le t [] h = omega arith
remember-le t (x ∷ ts) h = ground (arith, length-append ts (t ∷ []))

spend_tick-InForce :
    {F : Type 0} (o : Option (ActiveControl F))
    → InForce o
    → InForce (spend_tick o) × (ticks_left (spend_tick o) ≡ ticks_left o - 1)
unfolding spend_tick
spend_tick-InForce none h = (tt, refl)
spend_tick-InForce (some c) h = ground arith

module _ {F Body Tick : Type 0} (ph : Physics F Body Tick) where
  step-IsSound :
      (n : ℕ) (sim : Simulator F Body Tick)
      → IsSound sim
      → IsSound (step ph n sim)
        × (ticks_left (step ph n sim).active_control ≡ ticks_left sim.active_control - 1)
  unfolding step
  step-IsSound n sim v =
      let (kept, left) = spend_tick-InForce sim.active_control v.in_force in
      (
        record {
          memory =
              remember-le (ph.tick n sim.scenario sim.active_control sim.body).1 sim.recent_ticks
                v.memory;
          in_force = kept;
        },
        left,
      )

  step-sequence : (n : ℕ) (sim : Simulator F Body Tick) → (step ph n sim).sequence ≡ n
  unfolding step
  step-sequence n sim = refl

  -- Over n ticks the sequence grows by n and the control in force loses n of its ticks.
  pub steps-IsSound :
      (n : ℕ) (sim : Simulator F Body Tick)
      → IsSound sim
      → IsSound (steps ph n sim)
        × ((steps ph n sim).sequence ≡ sim.sequence + n)
        × (ticks_left (steps ph n sim).active_control ≡ ticks_left sim.active_control - n)
  unfolding steps
  steps-IsSound zero sim v = (v, omega arith, omega arith)
  steps-IsSound (suc n) sim v =
      let (sound, left) = step-IsSound (sim.sequence + 1) sim v in
      let (sound', sequence, left') = steps-IsSound n (step ph (sim.sequence + 1) sim) sound in
      (sound', omega (arith, step-sequence (sim.sequence + 1) sim), omega arith)

  advance-running :
      (wall_tick_ms elapsed : ℕ) (sim : Simulator F Body Tick)
      → sim.running ≡ true
      → advance ph wall_tick_ms elapsed sim
        ≡ steps ph (max sim.sequence (elapsed / wall_tick_ms) - sim.sequence) sim
  unfolding advance
  advance-running wall_tick_ms elapsed sim running = ground arith

  force_advance-running :
      (n : ℕ) (sim : Simulator F Body Tick)
      → sim.running ≡ true
      → force_advance ph n sim ≡ steps ph n sim
  unfolding force_advance
  force_advance-running n sim running = ground arith

  -- `advance` on a running simulator brings it to the wall clock's tick, and never back.
  pub advance_lem :
      (wall_tick_ms elapsed : ℕ) (sim : Simulator F Body Tick)
      → IsSound sim
      → sim.running ≡ true
      → IsSound (advance ph wall_tick_ms elapsed sim)
        × ((advance ph wall_tick_ms elapsed sim).sequence
            ≡ max sim.sequence (elapsed / wall_tick_ms))
  advance_lem wall_tick_ms elapsed sim v running =
      let (sound, sequence, left) =
        steps-IsSound (max sim.sequence (elapsed / wall_tick_ms) - sim.sequence) sim v in
      rw (advance-running wall_tick_ms elapsed sim running) (sound, omega arith)

  module _ (fl : Floats F) where
    abbrev controlled : CoreEffect F → Simulator F Body Tick → Simulator F Body Tick
    controlled c sim = record sim {
      active_control = some (record {
        action = capacity_control;
        remaining_ticks = c.remaining_ticks;
        effect = c.effect;
      });
    }

    accepted :
        (c : CoreEffect F) (sim sim' : Simulator F Body Tick)
        → sim.running ≡ true
        → apply_core_control ph fl c sim ≡ some sim'
        → (sim' ≡ steps ph 1 (controlled c sim)) × (IsSound sim → IsSound (controlled c sim))
    unfolding apply_core_control outside_envelope
    accepted c sim sim' running h = (
      ground (arith, force_advance-running 1 (controlled c sim)),
      (λ v. record { memory = v.memory; in_force = ground arith }),
    )

    -- A control that `applyCoreControl` accepts on a running simulator takes one tick at once and then
    -- stays in force for exactly the ticks that it has left.
    pub apply_core_control_lifetime :
        (c : CoreEffect F) (sim sim' : Simulator F Body Tick)
        → IsSound sim
        → sim.running ≡ true
        → apply_core_control ph fl c sim ≡ some sim'
        → IsSound sim'
          × (sim'.sequence ≡ sim.sequence + 1)
          × ((n : ℕ) → ticks_left (steps ph n sim').active_control ≡ c.remaining_ticks - 1 - n)
    apply_core_control_lifetime c sim sim' v running h =
        let (forced, in_force) = accepted c sim sim' running h in
        let (sound, sequence, left) = steps-IsSound 1 (controlled c sim) (in_force v) in
        rw forced (
          sound,
          sequence,
          (λ n. omega (arith, (steps-IsSound n (steps ph 1 (controlled c sim)) sound).2)),
        )
