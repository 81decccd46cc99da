-- ===== src/Traffic/Encounters.antt =====
-- What an alarm about two vessels rests on.
use mathlib.Core.List.{map-append}
use malacca_port_resilience.Prelude.{
  ℕ, ◌≡◌, ◌∙◌, refl, sym, ap, subst, true, ◌||◌, String, some, List, [], ◌∷◌, map, get_elem?, All,
  Map, values, arith,
}
use malacca_port_resilience.Traffic.{
  TrafficMath, TrafficOptions, Observation, FusedTrack, Encounter, is_warning, is_critical,
  is_correlated, fuse, pairs, pairs_with, risk_of, encounter, accepted_of, tracks_of,
  assess_vessel_traffic,
}
use malacca_port_resilience.Traffic.Sightings.{
  AllEntries, All-append, All-at, IsSighting, accepted_valid, grouped, IsShown, fuse-IsShown,
}

module _ {F : Type 0} (g : TrafficMath F) (o : TrafficOptions F) (now : ℕ) where
  -- A track that is fused from valid observations of one vessel.
  pub record IsFused (t : FusedTrack F) : Type 0 where
    pub vessel : String
    pub observations : List (Observation F)
    pub sighted : All (IsSighting g o now vessel) observations
    pub is_fused : fuse g o.correlation_distance_nm observations ≡ t

  IsFused-IsShown :
      (t : FusedTrack F) → IsFused t → is_correlated t.quality ≡ true → IsShown g o now t
  IsFused-IsShown t v h = subst (IsShown g o now) v.is_fused (
      fuse-IsShown g o now v.vessel v.observations v.sighted
        (ap (λ x. is_correlated x.quality) v.is_fused ∙ h))

  IsFused-entries :
      (m : Map (List (Observation F)))
      → AllEntries (λ k. All (IsSighting g o now k)) m
      → All IsFused (map (fuse g o.correlation_distance_nm) (values m))
  unfolding AllEntries
  IsFused-entries [] h = tt
  IsFused-entries ((k, vs) ∷ m) h = (
    record { vessel = k; observations = vs; sighted = h.0; is_fused = refl },
    IsFused-entries m h.1,
  )

  tracks-IsFused :
      (vs : List (Observation F)) → All IsFused (tracks_of g o (accepted_of g o now vs))
  unfolding tracks_of AllEntries
  tracks-IsFused vs =
      IsFused-entries _ (grouped g o now (accepted_of g o now vs) [] (accepted_valid g o now vs) tt)

  -- An encounter is one of two tracks that are fused from valid observations.
  pub record IsMeeting (e : Encounter F) : Type 0 where
    pub left : FusedTrack F
    pub right : FusedTrack F
    pub left_fused : IsFused left
    pub right_fused : IsFused right
    pub is_meeting : encounter g o (left, right) ≡ e

  met_with :
      (left : FusedTrack F) (ts : List (FusedTrack F))
      → IsFused left
      → All IsFused ts
      → All IsMeeting (map (encounter g o) (pairs_with left ts))
  met_with left [] v a = tt
  met_with left (right ∷ rest) v a = (
    record { left = left; right = right; left_fused = v; right_fused = a.0; is_meeting = refl },
    met_with left rest v a.1,
  )

  met : (ts : List (FusedTrack F)) → All IsFused ts → All IsMeeting (map (encounter g o) (pairs ts))
  met [] a = tt
  met (left ∷ rest) a =
      rw (map-append (encounter g o) (pairs_with left rest) (pairs rest))
        (All-append IsMeeting _ _ (met_with left rest a.0 a.1) (met rest a.1))

  assess_met :
      (vs : List (Observation F)) → All IsMeeting (assess_vessel_traffic g o now vs).encounters
  unfolding assess_vessel_traffic
  assess_met vs = met _ (tracks-IsFused vs)

  alarm_correlated :
      (left right : FusedTrack F)
      → is_warning (risk_of g o left right) || is_critical (risk_of g o left right) ≡ true
      → (is_correlated left.quality ≡ true) × (is_correlated right.quality ≡ true)
  unfolding risk_of
  alarm_correlated left right h = ground arith

  -- An encounter that is assessed as a warning or as critical, whatever was observed, is one of two
  -- vessels that are each shown by two valid observations of two kinds of sensor and without a conflict
  -- between its sources.
  pub alarm-IsShown :
      (vs : List (Observation F)) (i : ℕ) (e : Encounter F)
      → get_elem? (assess_vessel_traffic g o now vs).encounters i ≡ some e
      → is_warning e.risk || is_critical e.risk ≡ true
      → (left : FusedTrack F) × (right : FusedTrack F) × IsShown g o now left
        × IsShown g o now right
        × (e.vessels ≡ (left.vessel_identity, right.vessel_identity))
  unfolding encounter
  alarm-IsShown vs i e there alarm =
      let m : IsMeeting e = All-at IsMeeting _ i e (assess_met vs) there in
      let (l, r) =
        alarm_correlated m.left m.right
          (ap (λ x. is_warning x.risk || is_critical x.risk) m.is_meeting ∙ alarm) in
      (
        m.left,
        m.right,
        IsFused-IsShown m.left m.left_fused l,
        IsFused-IsShown m.right m.right_fused r,
        sym (ap (λ x. x.vessels) m.is_meeting),
      )
