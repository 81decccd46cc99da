-- ===== src/Assurance/Coverage.antt =====
-- What an admitted checkpoint's evidence covers.
use malacca_port_resilience.Prelude.{
  ℕ, zero, suc, ◌≡◌, refl, sym, subst, ap, ◌∙◌, true, false, not, some, List, [], ◌∷◌, ◌++◌, ◌==◌,
  ==_iff, get_elem?, All, Bool-cases, inl, inr, Floats, FloatsLaws, IsNumber, at_least, at_most,
  arith, raised, Clear, raised-eq-nil_iff, unique, unique-eq-nil_iff, append-eq-nil_iff, is_empty,
  is_empty_iff,
}
use malacca_port_resilience.Assurance.{
  Category, normal, peak, extreme_weather, equipment_failure, data_loss, regulatory_delay,
  category_index, required_categories, ScenarioEvidence, Evidence, has_category, missing_categories,
  scenario_checks, scenario_blockers, protocol_checks, suite_checks, evaluate_algorithm_assurance,
}

of_index : ℕ → Category
of_index zero = normal
of_index (suc zero) = peak
of_index (suc (suc zero)) = extreme_weather
of_index (suc (suc (suc zero))) = equipment_failure
of_index (suc (suc (suc (suc zero)))) = data_loss
of_index (suc (suc (suc (suc (suc n))))) = regulatory_delay

of_index-category_index : (c : Category) → of_index (category_index c) ≡ c
unfolding of_index
of_index-category_index normal = refl
of_index-category_index peak = refl
of_index-category_index extreme_weather = refl
of_index-category_index equipment_failure = refl
of_index-category_index data_loss = refl
of_index-category_index regulatory_delay = refl

category_index_injective : (a b : Category) → category_index a ≡ category_index b → a ≡ b
category_index_injective a b h =
    sym (of_index-category_index a) ∙ (ap of_index h ∙ of_index-category_index b)

module _ {F : Type 0} where
  found :
      (c : Category) (xs : List (ScenarioEvidence F))
      → has_category c xs ≡ true
      → (i : ℕ) × (s : ScenarioEvidence F) × (get_elem? xs i ≡ some s) × (s.category ≡ c)
  unfolding has_category
  found c [] h = cc
  found c (s ∷ rest) h = elim (Bool-cases (category_index s.category == category_index c)) [
    | inl e ↦
        let same : category_index s.category ≡ category_index c =
          (==_iff (category_index s.category) (category_index c)).0 e in
        (0, s, refl, category_index_injective s.category c same)
    | inr e ↦
        let (i, t, there, same) = found c rest (ground (arith, e, h)) in (suc i, t, there, same)
  ]

  none_missing :
      (cs : List Category) (xs : List (ScenarioEvidence F))
      → missing_categories cs xs ≡ []
      → All (λ c. has_category c xs ≡ true) cs
  unfolding missing_categories
  none_missing [] xs h = tt
  none_missing (c ∷ rest) xs h = elim (Bool-cases (has_category c xs)) [
    | inl e ↦ (e, none_missing rest xs (ground (arith, e, h)))
    | inr e ↦ ground (arith, e, h)
  ]

  required_present :
      (xs : List (ScenarioEvidence F))
      → All (λ c. has_category c xs ≡ true) required_categories
      → (c : Category) → has_category c xs ≡ true
  required_present xs h normal = h.0
  required_present xs h peak = h.1.0
  required_present xs h extreme_weather = h.1.1.0
  required_present xs h equipment_failure = h.1.1.1.0
  required_present xs h data_loss = h.1.1.1.1.0
  required_present xs h regulatory_delay = h.1.1.1.1.1.0

module _ {F : Type 0} (fl : Floats F) where
  -- A scenario of a sufficient sample, with numbers that are numbers, no regression and no violation.
  pub record IsAdmissible (s : ScenarioEvidence F) : Type 0 where
    pub episodes_suffice : fl.le (fl.decimal 50 0) s.episodes ≡ true
    pub seeds_suffice : fl.le (fl.decimal 5 0) s.seeds ≡ true
    pub mean_is_finite : fl.is_finite s.objective_mean ≡ true
    pub no_regression : fl.le (fl.decimal 0 0) s.objective_improvement_lower95 ≡ true
    pub no_violation : fl.le s.safety_violation_count (fl.decimal 0 0) ≡ true
    pub rate_bounded : fl.le s.safety_violation_rate_upper95 (fl.decimal 1 2) ≡ true

  -- The counts of a scenario are numbers, which the gate does not check.
  pub record IsCounted (s : ScenarioEvidence F) : Type 0 where
    pub episodes : IsNumber fl s.episodes
    pub seeds : IsNumber fl s.seeds
    pub violations : IsNumber fl s.safety_violation_count

  admissible :
      (laws : FloatsLaws fl) (s : ScenarioEvidence F)
      → IsCounted s
      → Clear (scenario_checks fl s)
      → IsAdmissible s
  admissible laws s counted (sample, (finite, (regression, (violation, _)))) = record {
    episodes_suffice = at_least laws s.episodes 50 0 counted.episodes (ground (arith, sample));
    seeds_suffice = at_least laws s.seeds 5 0 counted.seeds (ground (arith, sample));
    mean_is_finite = ground (arith, finite);
    no_regression =
        at_least laws s.objective_improvement_lower95 0 0
          (laws.finite s.objective_improvement_lower95 (ground (arith, finite))) regression;
    no_violation =
        at_most laws s.safety_violation_count 0 0 counted.violations (ground (arith, violation));
    rate_bounded =
        at_most laws s.safety_violation_rate_upper95 1 2
          (laws.finite s.safety_violation_rate_upper95 (ground (arith, finite)))
          (ground (arith, violation));
  }

  All-IsAdmissible :
      (laws : FloatsLaws fl) (xs : List (ScenarioEvidence F)) (i : ℕ) (s : ScenarioEvidence F)
      → All IsCounted xs
      → scenario_blockers fl xs ≡ []
      → get_elem? xs i ≡ some s
      → IsAdmissible s
  unfolding scenario_blockers
  All-IsAdmissible laws [] i s counted h there = cc
  All-IsAdmissible laws (x ∷ xs) i s counted h there =
      let (first, rest) =
        (append-eq-nil_iff (raised (scenario_checks fl x)) (scenario_blockers fl xs)).0 h in
      elim i as (λ i. get_elem? (x ∷ xs) i ≡ some s → IsAdmissible s) [
        | zero ↦ λ at.
            let same : x ≡ s = cc in
            subst IsAdmissible same
              (admissible laws x counted.0 ((raised-eq-nil_iff (scenario_checks fl x)).0 first))
        | suc j ↦ λ at. All-IsAdmissible laws xs j s counted.1 rest at
      ]
        there

  -- If the episodes, the seeds and the violations of every scenario are numbers, a checkpoint is
  -- admitted offline only on evidence in which each of the six categories has a scenario, and every
  -- scenario has at least 50 episodes and 5 seeds, a finite mean, a lower bound of the improvement that
  -- is no less than 0, no safety violation, and an upper bound of their rate of at most one percent.
  pub offline_promotion_covers :
      (laws : FloatsLaws fl) (e : Evidence F)
      → All IsCounted e.scenarios
      → (evaluate_algorithm_assurance fl e).offline_promotion_ready ≡ true
      → ((c : Category)
          → (i : ℕ) × (s : ScenarioEvidence F) × (get_elem? e.scenarios i ≡ some s)
            × (s.category ≡ c)
            × IsAdmissible s)
        × ((i : ℕ) (s : ScenarioEvidence F) → get_elem? e.scenarios i ≡ some s → IsAdmissible s)
  unfolding evaluate_algorithm_assurance
  offline_promotion_covers laws e counted h =
      let before = raised (protocol_checks fl e) in
      let after = scenario_blockers fl e.scenarios ++ raised (suite_checks fl e) in
      let none_at_all = (is_empty_iff (unique (before ++ after))).0 h in
      let (first, rest) =
        (append-eq-nil_iff before after).0 ((unique-eq-nil_iff (before ++ after)).0 none_at_all) in
      let (scenarios, suite) =
        (append-eq-nil_iff (scenario_blockers fl e.scenarios) (raised (suite_checks fl e))).0
          rest in
      let clear = (raised-eq-nil_iff (protocol_checks fl e)).0 first in
      let missing = missing_categories required_categories e.scenarios in
      let covered : not (is_empty missing) ≡ false = clear.1.1.1.1.1.1.1.1.1.1.1.1.1.0 in
      let present =
        none_missing required_categories e.scenarios
          ((is_empty_iff missing).0 (ground (arith, covered))) in
      (
        (λ c.
            let (i, s, there, same) =
              found c e.scenarios (required_present e.scenarios present c) in
            (i, s, there, same, All-IsAdmissible laws e.scenarios i s counted scenarios there)),
        (λ i s there. All-IsAdmissible laws e.scenarios i s counted scenarios there),
      )
