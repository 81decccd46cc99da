-- ===== src/Readiness.antt =====
-- server/reliableStateStore.ts, `assessReliabilityReadiness`.
mod Examples
use malacca_port_resilience.Prelude.{
  ℕ, ◌≡◌, refl, ◌↔◌, Bool, true, false, not, ◌||◌, String, List, [], ◌∷◌, if◌then◌else◌, raised,
  raised-eq-nil_iff, is_empty, is_empty_iff, contains, Floats, FloatsLaws, IsNumber, at_least,
  at_most, arith,
}

pub record ReliabilityInput (F : Type 0) : Type 0 where
  pub replica_count : F
  pub backup_age_minutes : F
  pub restore_drill_age_days : F
  pub restore_drill_passed : Bool
  pub journal_verified : Bool
  pub alert_route_tested : Bool
  pub runbook_reviewed : Bool
  pub observed_availability_days : F
  pub observed_availability_percent : F

pub record ReliabilityReadiness : Type 0 where
  pub software_controls_ready : Bool
  pub site_reliability_accepted : Bool
  pub blockers : List String
  pub dispatch_allowed : Bool
  pub production_authority : Bool

-- `blockers.filter((blocker) => !excepted.includes(blocker))`
pub except : List String → List String → List String
except excepted [] = []
except excepted (b ∷ bs) =
    if not (contains b excepted) then b ∷ except excepted bs else except excepted bs

abbrev rows_except : List String → List (Bool × String) → List (Bool × String)
rows_except excepted [] = []
rows_except excepted ((c, b) ∷ rest) =
    if contains b excepted then rows_except excepted rest else (c, b) ∷ rows_except excepted rest

except-raised :
    (excepted : List String) (rows : List (Bool × String))
    → except excepted (raised rows) ≡ raised (rows_except excepted rows)
unfolding except
except-raised excepted [] = refl
except-raised excepted ((c, b) ∷ rest) = ground (arith, except-raised excepted rest)

module _ {F : Type 0} (fl : Floats F) where
  abbrev checks : ReliabilityInput F → List (Bool × String)
  checks i =
      (fl.lt i.replica_count (fl.decimal 2 0), "redundant_replica_missing")
      ∷ (fl.lt (fl.decimal 15 0) i.backup_age_minutes, "rpo_15_minutes_not_met")
      ∷ (
        fl.lt (fl.decimal 90 0) i.restore_drill_age_days || not i.restore_drill_passed,
        "restore_drill_not_current",
      )
      ∷ (not i.journal_verified, "journal_integrity_failed")
      ∷ (not i.alert_route_tested, "alert_route_not_tested")
      ∷ (not i.runbook_reviewed, "runbook_not_reviewed")
      ∷ (
        fl.lt i.observed_availability_days (fl.decimal 30 0)
            || fl.lt i.observed_availability_percent (fl.decimal 999 1),
        "availability_slo_not_evidenced",
      )
      ∷ []

  pub assess_reliability_readiness : ReliabilityInput F → ReliabilityReadiness
  assess_reliability_readiness i =
      let blockers = raised (checks i) in
      record {
        software_controls_ready =
            is_empty (
              except ("redundant_replica_missing" ∷ "availability_slo_not_evidenced" ∷ [])
                blockers);
        site_reliability_accepted = is_empty blockers;
        blockers = blockers;
        dispatch_allowed = false;
        production_authority = false;
      }

  -- The counts, the ages and the availability are numbers, which the assessment does not check.
  pub record IsMeasured (i : ReliabilityInput F) : Type 0 where
    pub replicas : IsNumber fl i.replica_count
    pub backup : IsNumber fl i.backup_age_minutes
    pub drill : IsNumber fl i.restore_drill_age_days
    pub days : IsNumber fl i.observed_availability_days
    pub percent : IsNumber fl i.observed_availability_percent

  -- What a site has to show for its software controls.
  pub record SoftwareControls (i : ReliabilityInput F) : Type 0 where
    pub backup_recent : fl.le i.backup_age_minutes (fl.decimal 15 0) ≡ true
    pub drill_recent : fl.le i.restore_drill_age_days (fl.decimal 90 0) ≡ true
    pub drill_passed : i.restore_drill_passed ≡ true
    pub journal_verified : i.journal_verified ≡ true
    pub alert_tested : i.alert_route_tested ≡ true
    pub runbook_reviewed : i.runbook_reviewed ≡ true

  -- What it has to show besides: two replicas, and thirty days at no less than 99.9 percent.
  pub record Redundancy (i : ReliabilityInput F) : Type 0 where
    pub replicas : fl.le (fl.decimal 2 0) i.replica_count ≡ true
    pub days : fl.le (fl.decimal 30 0) i.observed_availability_days ≡ true
    pub percent : fl.le (fl.decimal 999 1) i.observed_availability_percent ≡ true

  below_iff :
      (laws : FloatsLaws fl) (x : F) (m d : ℕ)
      → IsNumber fl x
      → (fl.lt x (fl.decimal m d) ≡ false) ↔ (fl.le (fl.decimal m d) x ≡ true)
  below_iff laws x m d h = (at_least laws x m d h, laws.strict x (fl.decimal m d))

  above_iff :
      (laws : FloatsLaws fl) (x : F) (m d : ℕ)
      → IsNumber fl x
      → (fl.lt (fl.decimal m d) x ≡ false) ↔ (fl.le x (fl.decimal m d) ≡ true)
  above_iff laws x m d h = (at_most laws x m d h, laws.strict (fl.decimal m d) x)

  -- If what was measured are numbers, the software controls are ready exactly if the backups, the drill,
  -- the journal, the alert route and the runbook are in order, whatever the replicas and the availability
  -- are; and the site is accepted exactly if, besides, it has two replicas and thirty days at no less
  -- than 99.9 percent.
  pub readiness_iff :
      (laws : FloatsLaws fl) (i : ReliabilityInput F)
      → IsMeasured i
      → (((assess_reliability_readiness i).software_controls_ready ≡ true) ↔ SoftwareControls i)
        × (((assess_reliability_readiness i).site_reliability_accepted ≡ true)
            ↔ (SoftwareControls i × Redundancy i))
  unfolding assess_reliability_readiness
  readiness_iff laws i m =
      let (to, from) = raised-eq-nil_iff (checks i) in
      let excepted : List String =
        "redundant_replica_missing" ∷ "availability_slo_not_evidenced" ∷ [] in
      let (to', from') = raised-eq-nil_iff (rows_except excepted (checks i)) in
      let backup = above_iff laws i.backup_age_minutes 15 0 m.backup in
      let drill = above_iff laws i.restore_drill_age_days 90 0 m.drill in
      let replicas = below_iff laws i.replica_count 2 0 m.replicas in
      let days = below_iff laws i.observed_availability_days 30 0 m.days in
      let percent = below_iff laws i.observed_availability_percent 999 1 m.percent in
      (
        rw (except-raised excepted (checks i)) (
          (λ h. let c = to' ((is_empty_iff _).0 h) in ground (arith, backup, drill)),
          (λ h. (is_empty_iff _).1 (from' (ground (arith, backup, drill)))),
        ),
        (
          (λ h.
              let c = to ((is_empty_iff _).0 h) in
              ground (arith, backup, drill, replicas, days, percent)),
          (λ h. (is_empty_iff _).1 (from (ground (arith, backup, drill, replicas, days, percent)))),
        ),
      )
