-- ===== src/Simulator/Examples.antt =====
-- The simulator's theorems on a harbour whose body and ticks count the ticks that it has run.
use malacca_port_resilience.Prelude.{ℕ, ◌+◌, ◌-◌, ◌≡◌, refl, true, some, none, [], ◌∷◌, arith}
use malacca_port_resilience.Samples.{thousandths}
use malacca_port_resilience.Simulator.{
  CoreEffect, Physics, Simulator, plain, normal, capacity_control, outside_envelope, steps, advance,
  force_advance, apply_core_control, apply_core_control_with_counterfactual,
}
use malacca_port_resilience.Simulator.Control.{
  IsSound, ticks_left, steps-IsSound, advance_lem, apply_core_control_lifetime,
}
use malacca_port_resilience.Simulator.Counterfactual.{
  counterfactual_leaves_no_trace, views, or_same,
}

abbrev pub counting : Physics ℕ ℕ ℕ
counting = record { tick = λ n scenario control body. (body + 1, n) }

abbrev pub harbour : Simulator ℕ ℕ ℕ
harbour = record {
  sequence = 7;
  body = 0;
  latest_tick = 7;
  recent_ticks = 6 ∷ 7 ∷ [];
  running = true;
  scenario = normal;
  active_control = none;
}

harbour-IsSound : IsSound harbour
harbour-IsSound = record { memory = omega arith; in_force = tt }

abbrev pub relief : CoreEffect ℕ
relief = record { remaining_ticks = 3; effect = plain thousandths 12 105 99 1 }

abbrev relieved : Simulator ℕ ℕ ℕ
relieved = steps counting 1 (record harbour {
  active_control =
      some (record { action = capacity_control; remaining_ticks = 3; effect = relief.effect });
})

accepted : apply_core_control counting thousandths relief harbour ≡ some relieved
unfolding apply_core_control outside_envelope force_advance
accepted = refl

steps-IsSound_example :
    IsSound (steps counting 5 harbour)
    × ((steps counting 5 harbour).sequence ≡ 12)
    × (ticks_left (steps counting 5 harbour).active_control ≡ 0)
steps-IsSound_example = steps-IsSound counting 5 harbour harbour-IsSound

advance_lem_example :
    IsSound (advance counting 5000 51000 harbour)
    × ((advance counting 5000 51000 harbour).sequence ≡ 10)
advance_lem_example = advance_lem counting 5000 51000 harbour harbour-IsSound refl

apply_core_control_lifetime_example :
    IsSound relieved
    × (relieved.sequence ≡ 8)
    × ((n : ℕ) → ticks_left (steps counting n relieved).active_control ≡ 2 - n)
apply_core_control_lifetime_example =
    apply_core_control_lifetime counting thousandths relief harbour relieved harbour-IsSound refl
      accepted

counterfactual_leaves_no_trace_example :
    let controlled = apply_core_control counting thousandths relief harbour in
    apply_core_control_with_counterfactual counting thousandths (λ s. s.body) 5000 relief harbour
    ≡ (
      views counting thousandths (λ s. s.body) harbour controlled,
      or_same counting harbour controlled,
    )
counterfactual_leaves_no_trace_example =
    counterfactual_leaves_no_trace counting thousandths (λ s. s.body) 5000 relief harbour
      (omega arith)
