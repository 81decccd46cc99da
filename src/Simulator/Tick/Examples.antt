-- ===== src/Simulator/Tick/Examples.antt =====
-- The physics in thousandths, with a calm sea and no waves.
use malacca_port_resilience.Prelude.{ℕ, ◌≡◌, true, none, [], ◌∷◌, ◌++◌, List, length, arith}
use malacca_port_resilience.Samples.{thousandths}
use malacca_port_resilience.Simulator.{Simulator, extreme_weather, steps}
use malacca_port_resilience.Simulator.Tick.{Engine, Body, TickState, port_physics}
use malacca_port_resilience.Simulator.Tick.Ledger.{Accounts, steps-Accounts}

abbrev engine : Engine ℕ
engine = record {
  floats = thousandths;
  round = λ x d. x;
  nearest = λ x. x;
  floor = λ x. x;
  sin = λ x. 0;
  cos = λ x. 0;
  pi = 3142;
  noise = λ n salt. 0;
  local_hour = λ n. 8000;
  event_time = λ n. "2026-01-01T00:00:00Z";
}

abbrev body : Body ℕ
body = record {
  queue_vessels = 18000;
  yard_inventory_teu = 48000000;
  battery_soc_percent = 58000;
  battery_soh_percent = 96400;
  previous_arrivals = 4000;
  cumulative_throughput_teu = 0;
  cumulative_energy_kwh = 0;
  cumulative_carbon_tons = 0;
  cumulative_cost_myr = 0;
  peak_grid_kw = 0;
}

abbrev first : TickState ℕ
first = ((port_physics engine).tick 0 extreme_weather none body).1

abbrev harbour : Simulator ℕ (Body ℕ) (TickState ℕ)
harbour = record {
  sequence = 0;
  body = body;
  latest_tick = first;
  recent_ticks = first ∷ [];
  running = true;
  scenario = extreme_weather;
  active_control = none;
}

steps-Accounts_example :
    (ts : List (TickState ℕ)) × (older : List (TickState ℕ)) × ((steps
        (port_physics engine)
        96
        harbour).recent_ticks
      ≡ older ++ ts)
    × (length ts ≡ 96)
    × Accounts engine 0 body ts (steps (port_physics engine) 96 harbour).body
steps-Accounts_example = steps-Accounts engine 96 harbour (omega arith)
