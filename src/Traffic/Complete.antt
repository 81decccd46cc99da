-- ===== src/Traffic/Complete.antt =====
-- What an assessment accounts for: every observation, and every two of its tracks.
use malacca_port_resilience.Prelude.{
  ℕ, zero, suc, ◌+◌, ◌*◌, ◌<◌, ◌≡◌, ◌≢◌, refl, sym, ap, ◌∙◌, String, some, List, [], ◌∷◌, map,
  length, get_elem?, is_empty, is_empty_iff, Bool-cases, inl, inr, arith,
}
use malacca_port_resilience.Traffic.{
  TrafficMath, TrafficOptions, Observation, FusedTrack, Encounter, TrafficAssessment,
  validate_observation, pairs, encounter, accepted_of, rejected_of, tracks_of,
  assess_vessel_traffic,
}
use malacca_port_resilience.Traffic.Pairs.{
  length-map, get_elem-map, get_elem-of_map, pairs-length, pairs-hold, IsPair, of_pairs,
}

module _ {F : Type 0} (g : TrafficMath F) (o : TrafficOptions F) (now : ℕ) where
  accepted_or_rejected :
      (i : ℕ) (vs : List (Observation F))
      → length (accepted_of g o now vs) + length (rejected_of g o now i vs) ≡ length vs
  unfolding accepted_of rejected_of
  accepted_or_rejected i [] = omega arith
  accepted_or_rejected i (v ∷ rest) =
      elim (Bool-cases (is_empty (validate_observation g now o.maximum_age_seconds v))) [
        | inl e ↦ ground (arith, e, accepted_or_rejected (suc i) rest)
        | inr e ↦ ground (arith, e, accepted_or_rejected (suc i) rest)
      ]

  abbrev faults : Observation F → List String
  faults v = validate_observation g now o.maximum_age_seconds v

  -- The reports that the faults of the observations give, counted from one place on.
  rejected_first :
      (n : ℕ) (w : Observation F) (vs : List (Observation F))
      → faults w ≢ []
      → rejected_of g o now n (w ∷ vs) ≡ (n, faults w) ∷ rejected_of g o now (suc n) vs
  unfolding rejected_of
  rejected_first n w vs bad = elim (Bool-cases (is_empty (faults w))) [
    | inl e ↦ absurd (bad ((is_empty_iff (faults w)).0 e))
    | inr e ↦ rw e refl
  ]

  rejected_holds :
      (n i : ℕ) (vs : List (Observation F)) (v : Observation F)
      → get_elem? vs i ≡ some v
      → faults v ≢ []
      → (k : ℕ) × (get_elem? (rejected_of g o now n vs) k ≡ some (n + i, faults v))
  unfolding rejected_of
  rejected_holds n i [] v h bad = cc
  rejected_holds n zero (w ∷ vs) v h bad =
      let same : w ≡ v = cc in
      (
        0,
        rw (← same)
            (rw (rejected_first n w vs (rw same bad)) (ap (λ m. some (m, faults w)) (omega arith))),
      )
  rejected_holds n (suc i) (w ∷ vs) v h bad =
      let (k, there) = rejected_holds (suc n) i vs v h bad in
      let next : get_elem? (rejected_of g o now (suc n) vs) k ≡ some (n + suc i, faults v) =
        there ∙ ap (λ m. some (m, faults v)) (omega arith) in
      elim (Bool-cases (is_empty (faults w))) [
        | inl e ↦ (k, rw e next)
        | inr e ↦ (suc k, rw e next)
      ]

  -- A report is of an observation in its place, with the faults that it has.
  pub record IsReport (n : ℕ) (vs : List (Observation F)) (at : ℕ) (reasons : List String)
      : Type 0 where
    pub index : ℕ
    pub observation : Observation F
    pub in_place : at ≡ n + index
    pub there : get_elem? vs index ≡ some observation
    pub faulty : faults observation ≢ []
    pub same_faults : reasons ≡ faults observation

  IsReport-later :
      (n : ℕ) (w : Observation F) (vs : List (Observation F)) (at : ℕ) (reasons : List String)
      → IsReport (suc n) vs at reasons
      → IsReport n (w ∷ vs) at reasons
  IsReport-later n w vs at reasons q = record {
    index = suc q.index;
    observation = q.observation;
    in_place = omega (arith, q.in_place);
    there = q.there;
    faulty = q.faulty;
    same_faults = q.same_faults;
  }

  rejected-IsReport :
      (n k : ℕ) (vs : List (Observation F)) (at : ℕ) (reasons : List String)
      → get_elem? (rejected_of g o now n vs) k ≡ some (at, reasons)
      → IsReport n vs at reasons
  unfolding rejected_of
  rejected-IsReport n k [] at reasons h = cc
  rejected-IsReport n k (w ∷ vs) at reasons h = elim (Bool-cases (is_empty (faults w))) [
    | inl e ↦
        IsReport-later n w vs at reasons
          (rejected-IsReport (suc n) k vs at reasons (rw (← h) (rw e refl)))
    | inr e ↦
        let bad : faults w ≢ [] = λ none_. ground (arith, e, (is_empty_iff (faults w)).1 none_) in
        let h' : get_elem? ((n, faults w) ∷ rejected_of g o now (suc n) vs) k ≡ some (at, reasons) =
          ap (λ rs. get_elem? rs k) (sym (rejected_first n w vs bad)) ∙ h in
        elim k
            as (λ k.
              get_elem? ((n, faults w) ∷ rejected_of g o now (suc n) vs) k ≡ some (at, reasons)
              → IsReport n (w ∷ vs) at reasons) [
                | zero ↦ λ here.
                    let placed : at ≡ n = cc in
                    record {
                      index = 0;
                      observation = w;
                      in_place = omega (arith, placed);
                      there = refl;
                      faulty = bad;
                      same_faults = cc;
                    }
                | suc j ↦ λ later.
                    IsReport-later n w vs at reasons
                      (rejected-IsReport (suc n) j vs at reasons later)
              ]
          h'
  ]

  pub record IsComplete (vs : List (Observation F)) (a : TrafficAssessment F) : Type 0 where
    pub counted :
        a.accepted_observation_count + length a.rejected_observations ≡ a.input_observation_count
    pub reported :
        (i : ℕ) (v : Observation F)
        → get_elem? vs i ≡ some v
        → faults v ≢ []
        → (k : ℕ) × (get_elem? a.rejected_observations k ≡ some (i, faults v))
    pub only_reported :
        (k at : ℕ) (reasons : List String)
        → get_elem? a.rejected_observations k ≡ some (at, reasons)
        → IsReport 0 vs at reasons
    pub pairs_counted :
        2 * length a.encounters + length a.tracks ≡ length a.tracks * length a.tracks
    pub assessed :
        (i j : ℕ) (l r : FusedTrack F)
        → i < j
        → get_elem? a.tracks i ≡ some l
        → get_elem? a.tracks j ≡ some r
        → (k : ℕ) × (get_elem? a.encounters k ≡ some (encounter g o (l, r)))
    pub only_assessed :
        (k : ℕ) (e : Encounter F)
        → get_elem? a.encounters k ≡ some e
        → (l : FusedTrack F) × (r : FusedTrack F) × IsPair a.tracks l r × (e ≡ encounter g o (l, r))

  encounters_hold :
      (ts : List (FusedTrack F)) (i j : ℕ) (l r : FusedTrack F)
      → i < j
      → get_elem? ts i ≡ some l
      → get_elem? ts j ≡ some r
      → (k : ℕ) × (get_elem? (map (encounter g o) (pairs ts)) k ≡ some (encounter g o (l, r)))
  encounters_hold ts i j l r before hi hj =
      let (k, there) = pairs-hold ts i j l r before hi hj in
      (k, get_elem-map (encounter g o) (pairs ts) k (l, r) there)

  of_encounters :
      (ts : List (FusedTrack F)) (k : ℕ) (e : Encounter F)
      → get_elem? (map (encounter g o) (pairs ts)) k ≡ some e
      → (l : FusedTrack F) × (r : FusedTrack F) × IsPair ts l r × (e ≡ encounter g o (l, r))
  of_encounters ts k e h =
      let ((l, r), there, same) = get_elem-of_map (encounter g o) (pairs ts) k e h in
      (l, r, of_pairs ts k l r there, same)

  -- An assessment reports the observations with a fault, each in its place with all its faults, and
  -- nothing else; it accepts as many as there are others. Every two of its tracks, in their order, are
  -- assessed, nothing else is, and there are as many encounters as such pairs.
  pub assess-IsComplete :
      (vs : List (Observation F)) → IsComplete vs (assess_vessel_traffic g o now vs)
  unfolding assess_vessel_traffic
  assess-IsComplete vs =
      let ts = tracks_of g o (accepted_of g o now vs) in
      record {
        counted = accepted_or_rejected 0 vs;
        reported = λ i v there bad.
            let (k, held) = rejected_holds 0 i vs v there bad in
            (k, held ∙ ap (λ m. some (m, faults v)) (omega arith));
        only_reported = λ k at reasons there. rejected-IsReport 0 k vs at reasons there;
        pairs_counted = omega (arith, length-map (pairs ts) (encounter g o), pairs-length ts);
        assessed = λ i j l r before hi hj. encounters_hold ts i j l r before hi hj;
        only_assessed = λ k e there. of_encounters ts k e there;
      }
