-- ===== src/Simulator/Tick/Ledger.antt =====
-- The ticks that are remembered account for the simulator's totals.
use mathlib.Core.List.{append-nil, append_assoc}
use malacca_port_resilience.Prelude.{
  ℕ, zero, suc, ◌+◌, ◌≤◌, ◌≡◌, ◌∙◌, refl, sym, ap, subst, List, [], ◌∷◌, ◌++◌, length,
  length-append, arith, ltb, Bool-cases, inl, inr,
}
use malacca_port_resilience.Simulator.{Simulator, remember, step, steps}
use malacca_port_resilience.Simulator.Tick.{Engine, Body, TickState, plus, at_least, port_physics}

-- The last ticks are still remembered after another one, as long as they are fewer than 192.
remember-append :
    {Tick : Type 0} (t : Tick) (older ts : List Tick)
    → length ts + 1 ≤ 192
    → (older' : List Tick) × (remember t (older ++ ts) ≡ older' ++ (ts ++ t ∷ []))
unfolding remember
remember-append t [] ts h = ([], ground (arith, length-append ts (t ∷ [])))
remember-append t (x ∷ older) ts h =
    let joined = append_assoc older ts (t ∷ []) in
    elim (Bool-cases (ltb 192 (length ((x ∷ (older ++ ts)) ++ t ∷ [])))) [
      | inl e ↦ (older, rw e joined)
      | inr e ↦ (x ∷ older, rw e (ap (λ l. x ∷ l) joined))
    ]

module _ {F : Type 0} (g : Engine F) where
  -- A tick with the number after `sequence`, from the state `b` on: its totals are those of `b` and its
  -- own amounts, its peak is the greater one, and its queue before is that of `b`.
  pub record Follows (sequence : ℕ) (b : Body F) (t : TickState F) : Type 0 where
    pub numbered : t.sequence ≡ sequence + 1
    pub queue : t.previous_queue_vessels ≡ b.queue_vessels
    pub throughput :
        t.state.cumulative_throughput_teu
        ≡ plus g b.cumulative_throughput_teu t.terminal.throughput_teu
    pub energy :
        t.state.cumulative_energy_kwh ≡ plus g b.cumulative_energy_kwh t.energy.tick_energy_kwh
    pub carbon :
        t.state.cumulative_carbon_tons ≡ plus g b.cumulative_carbon_tons t.energy.tick_carbon_tons
    pub cost : t.state.cumulative_cost_myr ≡ plus g b.cumulative_cost_myr t.energy.tick_cost_myr
    pub peak : t.state.peak_grid_kw ≡ at_least g b.peak_grid_kw t.energy.grid_load_kw
    pub charge : t.state.battery_soc_percent ≡ t.energy.battery_soc_percent

  -- Ticks, each from the state that the one before left, up to a last state.
  abbrev pub Accounts : ℕ → Body F → List (TickState F) → Body F → Type 0
  Accounts sequence b [] last = b ≡ last
  Accounts sequence b (t ∷ ts) last = Follows sequence b t × Accounts (sequence + 1) t.state ts last

  Accounts-from :
      {n n' : ℕ} {b b' : Body F} (ts : List (TickState F)) (last : Body F)
      → n ≡ n'
      → b ≡ b'
      → Accounts n b ts last
      → Accounts n' b' ts last
  Accounts-from {n} {b' = b'} ts last e e' a =
      subst (λ m. Accounts m b' ts last) e (subst (λ x. Accounts n x ts last) e' a)

  step-Follows :
      (sim : Simulator F (Body F) (TickState F))
      → let sim' = step (port_physics g) (sim.sequence + 1) sim in
        Follows sim.sequence sim.body sim'.latest_tick
        × (sim'.latest_tick.state ≡ sim'.body)
        × (sim'.sequence ≡ sim.sequence + 1)
        × (sim'.recent_ticks ≡ remember sim'.latest_tick sim.recent_ticks)
  unfolding step port_physics
  step-Follows sim = (
    record {
      numbered = refl;
      queue = refl;
      throughput = refl;
      energy = refl;
      carbon = refl;
      cost = refl;
      peak = refl;
      charge = refl;
    },
    refl,
    refl,
    refl,
  )

  account :
      (n : ℕ) (sim : Simulator F (Body F) (TickState F)) (older before : List (TickState F))
      → sim.recent_ticks ≡ older ++ before
      → length before + n ≤ 192
      → (ts : List (TickState F)) × (older' : List (TickState F)) × ((steps
            (port_physics g)
            n
            sim).recent_ticks
          ≡ older' ++ (before ++ ts))
        × (length ts ≡ n)
        × Accounts sim.sequence sim.body ts (steps (port_physics g) n sim).body
  unfolding steps
  account zero sim older before h fits =
      ([], older, h ∙ ap (λ l. older ++ l) (sym (append-nil before)), refl, refl)
  account (suc n) sim older before h fits =
      let next = step (port_physics g) (sim.sequence + 1) sim in
      let t = next.latest_tick in
      let (follows, left, numbered, memory) = step-Follows sim in
      let (older', kept) = remember-append t older before (omega (arith, fits)) in
      let (ts, older'', ends, count, accounts) =
        account n next older' (before ++ t ∷ []) (memory ∙ ap (remember t) h ∙ kept)
          (omega (arith, fits, length-append before (t ∷ []))) in
      (
        t ∷ ts,
        older'',
        ends ∙ ap (λ l. older'' ++ l) (append_assoc before (t ∷ []) ts),
        ap suc count,
        (follows, Accounts-from ts _ numbered (sym left) accounts),
      )

  -- After up to 192 ticks of the port's physics, whatever the scenario and the control, the last ticks
  -- remembered are as many and account for the state: they are numbered on from the sequence, the
  -- throughput, the energy, the carbon and the cost of each are those of the one before it and its own
  -- amounts, its peak is the greater of the two, its queue before and its charge are those of the states
  -- around it, and the last of them leaves the simulator's state.
  pub steps-Accounts :
      (n : ℕ) (sim : Simulator F (Body F) (TickState F))
      → n ≤ 192
      → (ts : List (TickState F)) × (older : List (TickState F)) × ((steps
            (port_physics g)
            n
            sim).recent_ticks
          ≡ older ++ ts)
        × (length ts ≡ n)
        × Accounts sim.sequence sim.body ts (steps (port_physics g) n sim).body
  steps-Accounts n sim fits =
      account n sim sim.recent_ticks [] (sym (append-nil sim.recent_ticks)) (omega (arith, fits))
