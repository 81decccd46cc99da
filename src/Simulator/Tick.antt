-- ===== src/Simulator/Tick.antt =====
-- server/operationalSimulator.ts, `step`: the formulas of one tick, over any numbers.
pub mod Ledger
mod Examples
use malacca_port_resilience.Prelude.{
  ℕ, ◌%◌, Bool, true, false, not, ◌&&◌, ◌||◌, String, Option, none, some, Floats, ltb, ◌==◌,
  if◌then◌else◌,
}
use malacca_port_resilience.Simulator.{
  Scenario, peak_arrivals, channel_closure, equipment_failure, extreme_weather, channel_congestion,
  yard_saturation, data_loss, Effect, ActiveControl, Physics, plain,
}

-- Numbers with what `step` calls besides arithmetic: `toFixed`, `Math.round`, `Math.floor`, `Math.sin`,
-- `Math.cos`, `Math.PI`, `deterministicNoise` with the simulator's seed, and the local hour and the ISO
-- time of a tick.
pub record Engine (F : Type 0) : Type 0 where
  pub floats : Floats F
  pub round : F → ℕ → F
  pub nearest : F → F
  pub floor : F → F
  pub sin : F → F
  pub cos : F → F
  pub pi : F
  pub noise : ℕ → String → F
  pub local_hour : ℕ → F
  pub event_time : ℕ → String

-- `SimulatorState` without its sequence.
pub record Body (F : Type 0) : Type 0 where
  pub queue_vessels : F
  pub yard_inventory_teu : F
  pub battery_soc_percent : F
  pub battery_soh_percent : F
  pub previous_arrivals : F
  pub cumulative_throughput_teu : F
  pub cumulative_energy_kwh : F
  pub cumulative_carbon_tons : F
  pub cumulative_cost_myr : F
  pub peak_grid_kw : F

-- The part of `TickState` that the weather and the scenario decide.
pub record Conditions (F : Type 0) : Type 0 where
  pub arrivals : F
  pub tide_height_m : F
  pub tide_window_open : Bool
  pub wind_speed_ms : F
  pub wave_height_m : F
  pub visibility_km : F
  pub current_speed_knots : F
  pub channel_available : Bool
  pub equipment_faults : F
  pub available_quay_cranes : F

-- The part of `TickState` that the terminal decides.
pub record Terminal (F : Type 0) : Type 0 where
  pub serviced_vessels : F
  pub diverted_vessels : F
  pub effective_capacity : F
  pub queue_vessels : F
  pub throughput_teu : F
  pub quay_crane_moves_per_hour : F
  pub yard_inventory_teu : F
  pub yard_occupancy_percent : F
  pub berth_utilization_percent : F
  pub truck_turn_minutes : F

-- The part of `TickState` that the energy system decides.
pub record Energy (F : Type 0) : Type 0 where
  pub shore_power_kw : F
  pub solar_kw : F
  pub battery_power_kw : F
  pub battery_soc_percent : F
  pub battery_soh_percent : F
  pub grid_load_kw : F
  pub transformer_loading_percent : F
  pub electricity_price_myr_kwh : F
  pub carbon_factor_kg_kwh : F
  pub tick_energy_kwh : F
  pub tick_carbon_tons : F
  pub tick_cost_myr : F

pub record TickState (F : Type 0) : Type 0 where
  pub sequence : ℕ
  pub event_time : String
  pub state : Body F
  pub previous_queue_vessels : F
  pub control_queue_relief : F
  pub conditions : Conditions F
  pub terminal : Terminal F
  pub energy : Energy F
  pub safety_incidents : ℕ
  pub communication_latency_ms : F
  pub control_envelope_breaches : ℕ

abbrev is_closure : Scenario → Bool
is_closure channel_closure = true
is_closure _ = false

abbrev is_failure : Scenario → Bool
is_failure equipment_failure = true
is_failure _ = false

abbrev is_saturation : Scenario → Bool
is_saturation yard_saturation = true
is_saturation _ = false

module _ {F : Type 0} (g : Engine F) where
  abbrev pub lit : ℕ → ℕ → F
  lit m d = g.floats.decimal m d

  abbrev plus : F → F → F
  plus a b = g.floats.add a b

  abbrev minus : F → F → F
  minus a b = g.floats.sub a b

  abbrev times : F → F → F
  times a b = g.floats.mul a b

  abbrev over : F → F → F
  over a b = g.floats.div a b

  abbrev negated : F → F
  negated a = g.floats.sub (lit 0 0) a

  -- `Math.max(a, b)` and `Math.min(a, b)` with a number first; NaN is passed on.
  abbrev pub at_least : F → F → F
  at_least lo x = if g.floats.lt x lo then lo else x

  abbrev pub at_most : F → F → F
  at_most hi x = if g.floats.lt hi x then hi else x

  abbrev pub clamp : F → F → F → F
  clamp x lo hi = at_most hi (at_least lo x)

  -- `Math.sin(x / period * Math.PI * 2)`
  abbrev wave : F → F → F
  wave x period = g.sin (times (times (over x period) g.pi) (lit 2 0))

  abbrev seq : ℕ → F
  seq n = g.floats.of_ℕ n

  abbrev effect_of : Option (ActiveControl F) → Effect F
  effect_of none = plain g.floats 0 100 100 0
  effect_of (some c) = c.effect

  abbrev arrival_multiplier : Scenario → F
  arrival_multiplier peak_arrivals = lit 155 2
  arrival_multiplier channel_congestion = lit 118 2
  arrival_multiplier _ = lit 1 0

  abbrev weather_shock : Scenario → F
  weather_shock extreme_weather = lit 1 0
  weather_shock _ = lit 0 0

  unfoldable pub conditions_at : ℕ → Scenario → Effect F → Conditions F
  conditions_at n scenario e =
      let hour = g.local_hour n in
      let day =
        plus (times (lit 18 2) (wave (minus hour (lit 6 0)) (lit 24 0)))
          (times (lit 12 2) (wave (minus hour (lit 15 0)) (lit 12 0))) in
      let week =
        times (lit 6 2) (g.cos (times (times (over (seq n) (lit 672 0)) g.pi) (lit 2 0))) in
      let expected =
        times (times (lit 41 1) (plus (plus (lit 1 0) day) week)) (arrival_multiplier scenario) in
      let arrivals =
        at_least (lit 0 0) (g.nearest (plus expected (times (g.noise n "arrivals") (lit 7 1)))) in
      let tide = g.round (plus (lit 185 2) (times (lit 135 2) (wave (seq n) (lit 496 1)))) 2 in
      let shock = weather_shock scenario in
      let breeze = plus (lit 61 1) (times (lit 22 1) (wave (seq n) (lit 96 0))) in
      let gust = plus breeze (times (g.noise n "wind") (lit 8 1)) in
      let wind = g.round (clamp (plus gust (times shock (lit 13 0))) (lit 0 0) (lit 32 0)) 1 in
      let swell = plus (lit 7 1) (times wind (lit 55 3)) in
      let sea = plus swell (times (g.noise n "wave") (lit 8 2)) in
      let height = g.round (clamp (plus sea (times shock (lit 11 1))) (lit 2 1) (lit 5 0)) 2 in
      let haze = minus (minus (lit 18 0) (times height (lit 15 1))) (times shock (lit 9 0)) in
      let visibility =
        g.round (clamp (plus haze (g.noise n "visibility")) (lit 1 0) (lit 20 0)) 1 in
      let current = plus (lit 7 1) (times (g.floats.abs (minus tide (lit 185 2))) (lit 5 1)) in
      let available =
        not (is_closure scenario)
        && (g.floats.lt wind (lit 22 0) && g.floats.le (lit 2 0) visibility) in
      let base =
        if is_failure scenario
        then lit 3 0
        else if n % 113 == 0 && ltb 0 n
        then lit 1 0
        else lit 0 0 in
      let faults = at_least (lit 0 0) (minus base e.equipment_availability_bonus) in
      record {
        arrivals = arrivals;
        tide_height_m = tide;
        tide_window_open = g.floats.le (lit 9 1) tide;
        wind_speed_ms = wind;
        wave_height_m = height;
        visibility_km = visibility;
        current_speed_knots = g.round (clamp current (lit 2 1) (lit 22 1)) 2;
        channel_available = available;
        equipment_faults = faults;
        available_quay_cranes = minus (lit 10 0) faults;
      }

  -- The yard before the tick, which a saturation fills to 74 000 TEU.
  abbrev yard_before : Scenario → Body F → F
  yard_before scenario b =
      if is_saturation scenario && g.floats.lt b.yard_inventory_teu (lit 74000 0)
      then lit 74000 0
      else b.yard_inventory_teu

  unfoldable pub terminal_at : ℕ → Scenario → Effect F → Conditions F → Body F → Terminal F
  terminal_at n scenario e c b =
      let hour = g.local_hour n in
      let yard = yard_before scenario b in
      let before = times (over yard (lit 80000 0)) (lit 100 0) in
      let equipment = over c.available_quay_cranes (lit 10 0) in
      let crowding =
        if g.floats.lt (lit 92 0) before
        then lit 66 2
        else if g.floats.lt (lit 85 0) before
        then lit 82 2
        else lit 1 0 in
      let strong = at_least (lit 0 0) (minus c.wind_speed_ms (lit 12 0)) in
      let weather =
        if not c.channel_available
        then lit 0 0
        else clamp (minus (lit 1 0) (times strong (lit 25 3))) (lit 55 2) (lit 1 0) in
      let tide = if c.tide_window_open then lit 1 0 else lit 72 2 in
      let raw = times (times (times (times (lit 52 1) equipment) crowding) weather) tide in
      let capacity = g.round (times raw e.capacity_multiplier) 2 in
      let diverted = at_most c.arrivals (g.nearest (times c.arrivals e.diversion_fraction)) in
      let demand = minus (plus b.queue_vessels c.arrivals) diverted in
      let serviced = at_most demand (at_least (lit 0 0) (g.floor capacity)) in
      let queue = at_least (lit 0 0) (g.round (minus (minus demand serviced) e.queue_relief) 2) in
      let per_service =
        plus (lit 680 0) (g.nearest (times (lit 90 0) (g.sin (over (seq n) (lit 17 0))))) in
      let throughput = at_least (lit 0 0) (times serviced per_service) in
      let moves =
        g.round (times (times (lit 28 0) equipment) (plus (times crowding (lit 9 1)) (lit 1 1)))
          1 in
      let gate_wave = times (lit 210 0) (wave (minus hour (lit 7 0)) (lit 24 0)) in
      let gate =
        times (at_least (lit 600 0) (plus (lit 1140 0) gate_wave)) e.gate_outflow_multiplier in
      let by_day = g.floats.le (lit 6 0) hour && g.floats.le hour (lit 22 0) in
      let rail = times (if by_day then lit 210 0 else lit 80 0) e.intermodal_outflow_multiplier in
      let barge = plus (lit 260 0) (times (lit 60 0) (g.sin (over (seq n) (lit 12 0)))) in
      let water = times barge e.intermodal_outflow_multiplier in
      let inflow = times throughput (lit 18 2) in
      let outflow =
        times (over (plus (plus gate rail) water) (lit 4 0)) e.yard_outflow_multiplier in
      let balancing = at_least (lit 0 0) (times (minus yard (lit 48000 0)) (lit 25 3)) in
      let yard' =
        clamp (minus (minus (plus yard inflow) outflow) balancing) (lit 8000 0) (lit 80000 0) in
      let occupancy = g.round (times (over yard' (lit 80000 0)) (lit 100 0)) 1 in
      let berth =
        plus (times (over serviced (at_least (lit 1 0) capacity)) (lit 74 0))
          (times queue (lit 5 1)) in
      let turn =
        plus (lit 24 0) (times (at_least (lit 0 0) (minus occupancy (lit 65 0))) (lit 85 2)) in
      record {
        serviced_vessels = serviced;
        diverted_vessels = diverted;
        effective_capacity = capacity;
        queue_vessels = queue;
        throughput_teu = throughput;
        quay_crane_moves_per_hour = moves;
        yard_inventory_teu = yard';
        yard_occupancy_percent = occupancy;
        berth_utilization_percent = g.round (clamp berth (lit 12 0) (lit 100 0)) 1;
        truck_turn_minutes = g.round (plus turn (times queue (lit 35 2))) 1;
      }

  -- What the battery is asked for, charging being negative.
  abbrev battery_request : Bool → F → F
  battery_request peak soc =
      if peak && g.floats.lt (lit 25 0) soc
      then lit 1800 0
      else if not peak && g.floats.lt soc (lit 88 0)
      then negated (lit 1200 0)
      else lit 0 0

  -- The change of the state of charge over a quarter of an hour.
  abbrev soc_delta : F → F
  soc_delta power =
      if g.floats.le (lit 0 0) power
      then times (over (times (negated (over power (lit 94 2))) (lit 25 2)) (lit 12000 0))
          (lit 100 0)
      else times (over (times (times (negated power) (lit 92 2)) (lit 25 2)) (lit 12000 0))
          (lit 100 0)

  unfoldable pub energy_at : ℕ → Effect F → Terminal F → Body F → Energy F
  energy_at n e t b =
      let hour = g.local_hour n in
      let shore = plus (lit 1450 0) (times t.serviced_vessels (lit 190 0)) in
      let sunlight = g.sin (times (over (minus hour (lit 6 0)) (lit 12 0)) g.pi) in
      let solar = g.round (at_least (lit 0 0) (times (lit 3800 0) sunlight)) 1 in
      let equipment =
        plus (plus (lit 2300 0) (times t.throughput_teu (lit 72 2)))
          (times t.yard_occupancy_percent (lit 18 0)) in
      let office = g.floats.le (lit 8 0) hour && g.floats.le hour (lit 20 0) in
      let building = plus (lit 1650 0) (if office then lit 420 0 else lit 0 0) in
      let reefer = plus (lit 1120 0) (times t.yard_occupancy_percent (lit 52 1)) in
      let reefer_change = times reefer (minus e.reefer_power_multiplier (lit 1 0)) in
      let raw =
        times (plus (plus (plus shore equipment) building) reefer_change)
          e.energy_load_multiplier in
      let peak = g.floats.le (lit 14 0) hour && g.floats.lt hour (lit 22 0) in
      let price =
        if peak then lit 62 2 else if g.floats.lt hour (lit 7 0) then lit 34 2 else lit 48 2 in
      let asked = battery_request peak b.battery_soc_percent in
      let power =
        clamp (plus asked e.battery_power_adjustment_kw) (negated (lit 3000 0)) (lit 3000 0) in
      let wear = times (over (times (g.floats.abs power) (lit 25 2)) (lit 12000 0)) (lit 8 4) in
      let net =
        plus (minus (minus raw solar) (at_least (lit 0 0) power))
          (at_least (lit 0 0) (negated power)) in
      let grid = g.round (at_least (lit 0 0) (times net e.peak_grid_multiplier)) 1 in
      let factor =
        g.round (minus (lit 58 2) (times (over solar (at_least (lit 1 0) raw)) (lit 8 2))) 3 in
      let used = g.round (times grid (lit 25 2)) 2 in
      record {
        shore_power_kw = shore;
        solar_kw = solar;
        battery_power_kw = power;
        battery_soc_percent =
            clamp (plus b.battery_soc_percent (soc_delta power)) (lit 15 0) (lit 95 0);
        battery_soh_percent = clamp (minus b.battery_soh_percent wear) (lit 70 0) (lit 100 0);
        grid_load_kw = grid;
        transformer_loading_percent = g.round (times (over grid (lit 18000 0)) (lit 100 0)) 1;
        electricity_price_myr_kwh = price;
        carbon_factor_kg_kwh = factor;
        tick_energy_kwh = used;
        tick_carbon_tons =
            g.round (times (over (times used factor) (lit 1000 0)) e.carbon_multiplier) 3;
        tick_cost_myr = g.round (times used price) 2;
      }

  abbrev latency : ℕ → Scenario → F
  latency n data_loss = lit 9999 0
  latency n channel_congestion = lit 320 0
  latency n _ = g.nearest (plus (lit 72 0) (times (g.floats.abs (g.noise n "latency")) (lit 48 0)))

  abbrev pub next_body : Conditions F → Terminal F → Energy F → Body F → Body F
  next_body c t x b = record {
    queue_vessels = t.queue_vessels;
    yard_inventory_teu = t.yard_inventory_teu;
    battery_soc_percent = x.battery_soc_percent;
    battery_soh_percent = x.battery_soh_percent;
    previous_arrivals = c.arrivals;
    cumulative_throughput_teu = plus b.cumulative_throughput_teu t.throughput_teu;
    cumulative_energy_kwh = plus b.cumulative_energy_kwh x.tick_energy_kwh;
    cumulative_carbon_tons = plus b.cumulative_carbon_tons x.tick_carbon_tons;
    cumulative_cost_myr = plus b.cumulative_cost_myr x.tick_cost_myr;
    peak_grid_kw = at_least b.peak_grid_kw x.grid_load_kw;
  }

  unfoldable pub port_physics : Physics F (Body F) (TickState F)
  port_physics = record {
    tick = λ n scenario control b.
        let e = effect_of control in
        let c = conditions_at n scenario e in
        let t = terminal_at n scenario e c b in
        let x = energy_at n e t b in
        let b' = next_body c t x b in
        let trouble = not c.channel_available || is_failure scenario in
        let strained =
          g.floats.lt (lit 95 0) x.transformer_loading_percent
          || g.floats.lt (lit 98 0) t.yard_occupancy_percent in
        (
          b',
          record {
            sequence = n;
            event_time = g.event_time n;
            state = b';
            previous_queue_vessels = b.queue_vessels;
            control_queue_relief = e.queue_relief;
            conditions = c;
            terminal = t;
            energy = x;
            safety_incidents = if trouble && n % 7 == 0 then 1 else 0;
            communication_latency_ms = latency n scenario;
            control_envelope_breaches = if strained then 1 else 0;
          },
        );
  }
