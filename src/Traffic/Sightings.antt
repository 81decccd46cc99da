-- ===== src/Traffic/Sightings.antt =====
-- What a track of two kinds of sensor rests on: valid observations of its vessel.
use text.Mathlib.Text.{◌==◌ as str_eq}
use text.Mathlib.TextEquality.{eq_iff}
use malacca_port_resilience.Prelude.{
  ℕ, zero, suc, ◌≤◌, ◌≡◌, ◌≢◌, ◌∙◌, refl, sym, subst, Bool, true, false, String, some, Option-cases,
  List, [], ◌∷◌, ◌++◌, map, length, get_elem?, All, contains, unique, two_of_unique, is_empty,
  is_empty_iff, Map, lookup, insert, values, Bool-cases, inl, inr, arith, if◌then◌else◌,
}
use malacca_port_resilience.Traffic.{
  TrafficMath, TrafficOptions, Observation, FusedTrack, is_correlated, vessel_identity_of,
  validate_observation, is_later, latest_by_source, conflicts_of, quality_of, first_text, fuse,
  group, or_empty, accepted_of,
}

module _ {ℓ κ} {V : Type ℓ} (P : String → V → Type κ) where
  -- What holds of every key and its value.
  unfoldable pub AllEntries : Map V → Type κ
  AllEntries [] = Unit
  AllEntries ((k, v) ∷ m) = P k v × AllEntries m

  AllEntries-insert :
      (k : String) (v : V) (m : Map V) → P k v → AllEntries m → AllEntries (insert k v m)
  unfolding AllEntries insert
  AllEntries-insert k v [] h a = (h, tt)
  AllEntries-insert k v ((j, w) ∷ m) h a = elim (Bool-cases (str_eq j k)) [
    | inl e ↦ rw e (subst (λ i. P i v) (sym ((eq_iff j k).0 e)) h, a.1)
    | inr e ↦ rw e (a.0, AllEntries-insert k v m h a.1)
  ]

  AllEntries-lookup : (k : String) (v : V) (m : Map V) → AllEntries m → lookup k m ≡ some v → P k v
  unfolding AllEntries lookup
  AllEntries-lookup k v [] a h = cc
  AllEntries-lookup k v ((j, w) ∷ m) a h = elim (Bool-cases (str_eq j k)) [
    | inl e ↦
        let same : w ≡ v = ground (arith, e, h) in
        subst (λ i. P i v) ((eq_iff j k).0 e) (subst (P j) same a.0)
    | inr e ↦ AllEntries-lookup k v m a.1 (ground (arith, e, h))
  ]

module _ {ℓ κ} {A : Type ℓ} (P : A → Type κ) where
  pub All-append : (xs ys : List A) → All P xs → All P ys → All P (xs ++ ys)
  All-append [] ys a b = b
  All-append (x ∷ xs) ys a b = (a.0, All-append xs ys a.1 b)

  pub All-at : (xs : List A) (i : ℕ) (x : A) → All P xs → get_elem? xs i ≡ some x → P x
  All-at [] i x a h = cc
  All-at (y ∷ ys) zero x a h = subst P (ground (arith, h)) a.0
  All-at (y ∷ ys) (suc i) x a h = All-at ys i x a.1 h

module _ {F : Type 0} (g : TrafficMath F) (o : TrafficOptions F) (now : ℕ) where
  -- An observation of a vessel that passes every check.
  pub record IsSighting (identity : String) (v : Observation F) : Type 0 where
    pub is_valid : validate_observation g now o.maximum_age_seconds v ≡ []
    pub of_vessel : vessel_identity_of v ≡ identity

  pub accepted_valid :
      (vs : List (Observation F))
      → All (λ v. IsSighting (vessel_identity_of v) v) (accepted_of g o now vs)
  unfolding accepted_of
  accepted_valid [] = tt
  accepted_valid (v ∷ rest) =
      elim (Bool-cases (is_empty (validate_observation g now o.maximum_age_seconds v))) [
        | inl e ↦
            rw e (record { is_valid = (is_empty_iff _).0 e; of_vessel = refl }, accepted_valid rest)
        | inr e ↦ rw e (accepted_valid rest)
      ]

  pub grouped :
      (vs : List (Observation F)) (m : Map (List (Observation F)))
      → All (λ v. IsSighting (vessel_identity_of v) v) vs
      → AllEntries (λ k. All (IsSighting k)) m
      → AllEntries (λ k. All (IsSighting k)) (group vs m)
  unfolding group
  grouped [] m a h = h
  grouped (v ∷ rest) m a h =
      let k = vessel_identity_of v in
      grouped rest (insert k (or_empty (lookup k m) ++ v ∷ []) m) a.1 (
        AllEntries-insert (λ k. All (IsSighting k)) k _ m
          (All-append (IsSighting k) (or_empty (lookup k m)) (v ∷ []) (earlier k) (a.0, tt)) h)
    where
      earlier : (k : String) → All (IsSighting k) (or_empty (lookup k m))
      earlier k = elim (Option-cases (lookup k m)) [
        | inl e ↦ rw e tt
        | inr (vs, e) ↦ rw e (AllEntries-lookup (λ k. All (IsSighting k)) k vs m h e)
      ]

  pub latest_sighted :
      (k : String) (vs : List (Observation F)) (m : Map (Observation F))
      → All (IsSighting k) vs
      → AllEntries (λ _. IsSighting k) m
      → AllEntries (λ _. IsSighting k) (latest_by_source g vs m)
  unfolding latest_by_source
  latest_sighted k [] m a h = h
  latest_sighted k (v ∷ rest) m a h =
      latest_sighted k rest _ a.1 (elim (Option-cases (lookup v.source_id m)) [
        | inl e ↦ rw e (AllEntries-insert (λ _. IsSighting k) v.source_id v m a.0 h)
        | inr (previous, e) ↦
            rw e
              (chosen (is_later (g.parse_date v.observed_at) (g.parse_date previous.observed_at)))
      ])
    where
      chosen : (b : Bool) → AllEntries (λ _. IsSighting k) (if b then insert v.source_id v m else m)
      chosen true = AllEntries-insert (λ _. IsSighting k) v.source_id v m a.0 h
      chosen false = h

  All-values :
      (k : String) (m : Map (Observation F))
      → AllEntries (λ _. IsSighting k) m
      → All (IsSighting k) (values m)
  unfolding AllEntries
  All-values k [] h = tt
  All-values k ((j, v) ∷ m) h = (h.0, All-values k m h.1)

  -- A vessel that two valid observations of it, by sensors of two kinds, show where it is, while no two
  -- of its sources are in conflict.
  pub record IsShown (t : FusedTrack F) : Type 0 where
    pub first : Observation F
    pub second : Observation F
    pub first_sighted : IsSighting t.vessel_identity first
    pub second_sighted : IsSighting t.vessel_identity second
    pub two_kinds : first.source_type ≢ second.source_type
    pub agreed : t.conflicts ≡ []

  seen_by :
      (k type : String) (vs : List (Observation F))
      → All (IsSighting k) vs
      → contains type (map (λ v. v.source_type) vs) ≡ true
      → (v : Observation F) × (v.source_type ≡ type)
        × IsSighting k v
        × (first_text vessel_identity_of vs ≡ k)
  seen_by k type [] a h = cc
  seen_by k type (v ∷ rest) a h = elim (Bool-cases (str_eq v.source_type type)) [
    | inl e ↦ (v, (eq_iff v.source_type type).0 e, a.0, a.0.of_vessel)
    | inr e ↦
        let (w, same, sighted, _) = seen_by k type rest a.1 (ground (arith, e, h)) in
        (w, same, sighted, a.0.of_vessel)
  ]

  quality_shown :
      (conflicts types : List String)
      → is_correlated (quality_of g conflicts types) ≡ true
      → (conflicts ≡ []) × (2 ≤ length types)
  quality_shown [] types h = (refl, ground (arith, h))
  quality_shown (c ∷ cs) types h = cc

  pub fuse-IsShown :
      (k : String) (vs : List (Observation F))
      → All (IsSighting k) vs
      → is_correlated (fuse g o.correlation_distance_nm vs).quality ≡ true
      → IsShown (fuse g o.correlation_distance_nm vs)
  unfolding fuse AllEntries
  fuse-IsShown k vs a h =
      let candidates = values (latest_by_source g vs []) in
      let sighted : All (IsSighting k) candidates =
        All-values k (latest_by_source g vs []) (latest_sighted k vs [] a none_yet) in
      let (agreed, two) =
        quality_shown (conflicts_of g o.correlation_distance_nm candidates)
          (unique (map (λ v. v.source_type) candidates)) h in
      let (s, t, differ, there, there') = two_of_unique (map (λ v. v.source_type) candidates) two in
      let (x, is_s, x_sighted, name) = seen_by k s candidates sighted there in
      let (y, is_t, y_sighted, _) = seen_by k t candidates sighted there' in
      record {
        first = x;
        second = y;
        first_sighted = subst (λ i. IsSighting i x) (sym name) x_sighted;
        second_sighted = subst (λ i. IsSighting i y) (sym name) y_sighted;
        two_kinds = λ same. differ (sym is_s ∙ same ∙ is_t);
        agreed = agreed;
      }
    where
      none_yet : AllEntries (λ _. IsSighting k) []
      none_yet = tt
