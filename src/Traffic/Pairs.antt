-- ===== src/Traffic/Pairs.antt =====
-- The pairs of tracks that an assessment goes through, by their places.
use malacca_port_resilience.Prelude.{
  ℕ, zero, suc, ◌+◌, ◌*◌, ◌<◌, ◌≡◌, ◌⊎◌, refl, ap, some, List, [], ◌∷◌, ◌++◌, map, length,
  length-append, get_elem?, inl, inr, arith,
}
use malacca_port_resilience.Traffic.{FusedTrack, pairs, pairs_with}

pub length-map : {A B : Type 0} → (xs : List A) (f : A → B) → length (map f xs) ≡ length xs
length-map [] f = refl
length-map (x ∷ xs) f = ap suc (length-map xs f)

module _ {A B : Type 0} (f : A → B) where
  pub get_elem-map :
      (xs : List A) (k : ℕ) (x : A) → get_elem? xs k ≡ some x → get_elem? (map f xs) k ≡ some (f x)
  get_elem-map [] k x h = cc
  get_elem-map (y ∷ ys) zero x h = cc
  get_elem-map (y ∷ ys) (suc k) x h = get_elem-map ys k x h

  pub get_elem-of_map :
      (xs : List A) (k : ℕ) (y : B)
      → get_elem? (map f xs) k ≡ some y
      → (x : A) × (get_elem? xs k ≡ some x) × (y ≡ f x)
  get_elem-of_map [] k y h = cc
  get_elem-of_map (x ∷ xs) zero y h = (x, refl, cc)
  get_elem-of_map (x ∷ xs) (suc k) y h = get_elem-of_map xs k y h

module _ {A : Type 0} where
  get_elem-append_left :
      (xs ys : List A) (k : ℕ) (x : A) → get_elem? xs k ≡ some x → get_elem? (xs ++ ys) k ≡ some x
  get_elem-append_left [] ys k x h = cc
  get_elem-append_left (y ∷ xs) ys zero x h = h
  get_elem-append_left (y ∷ xs) ys (suc k) x h = get_elem-append_left xs ys k x h

  get_elem-append_right :
      (xs ys : List A) (k : ℕ) (y : A)
      → get_elem? ys k ≡ some y
      → (m : ℕ) × (get_elem? (xs ++ ys) m ≡ some y)
  get_elem-append_right [] ys k y h = (k, h)
  get_elem-append_right (x ∷ xs) ys k y h =
      let (m, there) = get_elem-append_right xs ys k y h in (suc m, there)

  get_elem-append :
      (xs ys : List A) (k : ℕ) (z : A)
      → get_elem? (xs ++ ys) k ≡ some z
      → (get_elem? xs k ≡ some z) ⊎ ((m : ℕ) × (get_elem? ys m ≡ some z))
  get_elem-append [] ys k z h = inr (k, h)
  get_elem-append (x ∷ xs) ys zero z h = inl h
  get_elem-append (x ∷ xs) ys (suc k) z h = get_elem-append xs ys k z h

module _ {F : Type 0} where
  pairs_with-length :
      (left : FusedTrack F) (ts : List (FusedTrack F)) → length (pairs_with left ts) ≡ length ts
  pairs_with-length left [] = refl
  pairs_with-length left (right ∷ rest) = ap suc (pairs_with-length left rest)

  pub pairs-length :
      (ts : List (FusedTrack F)) → 2 * length (pairs ts) + length ts ≡ length ts * length ts
  pairs-length [] = refl
  pairs-length (left ∷ rest) = omega (
    arith,
    length-append (pairs_with left rest) (pairs rest),
    pairs_with-length left rest,
    pairs-length rest,
  )

  pairs_with-holds :
      (left : FusedTrack F) (ts : List (FusedTrack F)) (j : ℕ) (r : FusedTrack F)
      → get_elem? ts j ≡ some r
      → get_elem? (pairs_with left ts) j ≡ some (left, r)
  pairs_with-holds left [] j r h = cc
  pairs_with-holds left (t ∷ ts) zero r h = cc
  pairs_with-holds left (t ∷ ts) (suc j) r h = pairs_with-holds left ts j r h

  of_pairs_with :
      (left : FusedTrack F) (ts : List (FusedTrack F)) (k : ℕ) (l r : FusedTrack F)
      → get_elem? (pairs_with left ts) k ≡ some (l, r)
      → (left ≡ l) × (get_elem? ts k ≡ some r)
  of_pairs_with left [] k l r h = cc
  of_pairs_with left (t ∷ ts) zero l r h = (cc, cc)
  of_pairs_with left (t ∷ ts) (suc k) l r h = of_pairs_with left ts k l r h

  -- Two tracks in their order.
  pub record IsPair (ts : List (FusedTrack F)) (l r : FusedTrack F) : Type 0 where
    pub i : ℕ
    pub j : ℕ
    pub ordered : i < j
    pub first : get_elem? ts i ≡ some l
    pub second : get_elem? ts j ≡ some r

  pub pairs-hold :
      (ts : List (FusedTrack F)) (i j : ℕ) (l r : FusedTrack F)
      → i < j
      → get_elem? ts i ≡ some l
      → get_elem? ts j ≡ some r
      → (k : ℕ) × (get_elem? (pairs ts) k ≡ some (l, r))
  pairs-hold [] i j l r o hi hj = cc
  pairs-hold (t ∷ ts) i zero l r o hi hj = absurd (omega arith)
  pairs-hold (t ∷ ts) zero (suc j) l r o hi hj =
      let same : t ≡ l = cc in
      (
        j,
        get_elem-append_left (pairs_with t ts) (pairs ts) j (l, r)
            (rw (← same) (pairs_with-holds t ts j r hj)),
      )
  pairs-hold (t ∷ ts) (suc i) (suc j) l r o hi hj =
      let (k, there) = pairs-hold ts i j l r (omega arith) hi hj in
      get_elem-append_right (pairs_with t ts) (pairs ts) k (l, r) there

  pub of_pairs :
      (ts : List (FusedTrack F)) (k : ℕ) (l r : FusedTrack F)
      → get_elem? (pairs ts) k ≡ some (l, r)
      → IsPair ts l r
  of_pairs [] k l r h = cc
  of_pairs (t ∷ ts) k l r h = elim (get_elem-append (pairs_with t ts) (pairs ts) k (l, r) h) [
    | inl e ↦
        let (same, there) = of_pairs_with t ts k l r e in
        record { i = 0; j = suc k; ordered = omega arith; first = ap some same; second = there }
    | inr (m, e) ↦
        let q = of_pairs ts m l r e in
        record {
          i = suc q.i;
          j = suc q.j;
          ordered = omega (arith, q.ordered);
          first = q.first;
          second = q.second;
        }
  ]
