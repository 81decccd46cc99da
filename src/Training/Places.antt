-- ===== src/Training/Places.antt =====
-- Where the jobs of the queue are: each waits, is scheduled or is worked on in one place at most.
use malacca_port_resilience.Prelude.{
  ℕ, zero, suc, ◌+◌, ◌≤◌, ◌<◌, ltb→le, ltb→lt, ◌⊎◌, ◌≡◌, refl, Bool, true, false, Option, none,
  some, List, [], ◌∷◌, ◌++◌, length, get_elem?, arith, ◌==◌, if◌then◌else◌, ltb, inl, inr, subst,
  ◌≢◌, ℕ_discrete, Bool-cases,
}
use mathlib.Core.Option.{map as option_map}
use malacca_port_resilience.Training.{
  JobStatus, queued, running, completed, failed, cancelled, TrainingJob, Stage, TrainingQueue,
  modify, pump, TrainingPlatform, cancel_job, append_log, is_dropped,
}

-- How often an address is in a list.
abbrev pub times : ℕ → List ℕ → ℕ
times address [] = 0
times address (first ∷ rest) = (if first == address then 1 else 0) + times address rest

abbrev pub count_workers : ℕ → List (ℕ × Stage) → ℕ
count_workers a [] = 0
count_workers a ((b, stage) ∷ ws) = (if b == a then 1 else 0) + count_workers a ws

pub times-append :
    (address : ℕ) (before after : List ℕ)
    → times address (before ++ after) ≡ times address before + times address after
times-append address [] after = omega arith
times-append address (first ∷ rest) after = omega (arith, times-append address rest after)

pub count_workers-append :
    (a : ℕ) (xs ys : List (ℕ × Stage))
    → count_workers a (xs ++ ys) ≡ count_workers a xs + count_workers a ys
count_workers-append a [] ys = omega arith
count_workers-append a (x ∷ xs) ys = omega (arith, count_workers-append a xs ys)

pub count_workers_self :
    (a : ℕ) (stage : Stage) (before after : List (ℕ × Stage))
    → count_workers a (before ++ (a, stage) ∷ after) ≡ suc (count_workers a (before ++ after))
count_workers_self a stage before after =
    ground (
      arith,
      count_workers-append a before ((a, stage) ∷ after),
      count_workers-append a before after,
    )

pub count_workers_other :
    (a b : ℕ) (stage : Stage) (before after : List (ℕ × Stage))
    → a ≢ b
    → count_workers b (before ++ (a, stage) ∷ after) ≡ count_workers b (before ++ after)
count_workers_other a b stage before after n =
    ground (
      arith,
      count_workers-append b before ((a, stage) ∷ after),
      count_workers-append b before after,
    )

-- What holds of `a`, and of each other number, holds of all.
pub at_each {ℓ} : (Q : ℕ → Type ℓ) (a : ℕ) → Q a → ((b : ℕ) → a ≢ b → Q b) → (b : ℕ) → Q b
at_each Q a same other b = elim (ℕ_discrete a b) [ yes e ↦ subst Q e same | no n ↦ other b n ]

-- The statuses that `runJob` and `cancelRlTrainingJob` leave behind them.
abbrev pub is_over : JobStatus → Bool
is_over queued = false
is_over running = false
is_over _ = true

module _ {ℓ} {A : Type ℓ} where
  pub get_elem?-append :
      (a : ℕ) (xs : List A) (x : A)
      → get_elem? (xs ++ x ∷ []) a ≡ (if length xs == a then some x else get_elem? xs a)
  get_elem?-append zero [] x = refl
  get_elem?-append (suc a) [] x = ground arith
  get_elem?-append zero (y ∷ xs) x = ground arith
  get_elem?-append (suc a) (y ∷ xs) x = ground (arith, get_elem?-append a xs x)

  pub get_elem?-modify :
      (a b : ℕ) (f : A → A) (xs : List A)
      → get_elem? (modify a f xs) b
        ≡ (if a == b then option_map f (get_elem? xs b) else get_elem? xs b)
  get_elem?-modify a b f [] = ground arith
  get_elem?-modify zero zero f (x ∷ xs) = refl
  get_elem?-modify zero (suc b) f (x ∷ xs) = ground arith
  get_elem?-modify (suc a) zero f (x ∷ xs) = ground arith
  get_elem?-modify (suc a) (suc b) f (x ∷ xs) = ground (arith, get_elem?-modify a b f xs)

  pub get_elem?-modify_self :
      (a : ℕ) (f : A → A) (xs : List A)
      → get_elem? (modify a f xs) a ≡ option_map f (get_elem? xs a)
  get_elem?-modify_self a f xs = ground (arith, get_elem?-modify a a f xs)

  pub get_elem?-modify_other :
      (a b : ℕ) (f : A → A) (xs : List A) → a ≢ b → get_elem? (modify a f xs) b ≡ get_elem? xs b
  get_elem?-modify_other a b f xs n = ground (arith, get_elem?-modify a b f xs)

-- How the status of a job goes with the number of places in which it waits, is scheduled and is
-- worked on; an address without a job is nowhere.
unfoldable pub Fits : {N P : Type 0} → Option (TrainingJob N P) → ℕ → ℕ → ℕ → Type 0
Fits none w s r = w + s + r ≡ 0
Fits (some j) w s r = elim j.status [
  | queued ↦ (w + s ≡ 1) × (r ≡ 0) × (j.cancel_requested ≡ false)
  | running ↦ (w + s ≡ 0) × (r ≡ 1)
  | completed ↦ w + s + r ≡ 0
  | failed ↦ w + s + r ≡ 0
  | cancelled ↦ (w + s ≤ 1) × (r ≡ 0)
]

module _ {N P : Type 0} where
  abbrev pub Placed : TrainingQueue N P → Type 0
  Placed s =
      (a : ℕ)
      → Fits (get_elem? s.heap a) (times a s.pending_jobs) (times a s.scheduled)
          (count_workers a s.workers)

  pump_full :
      (limit : ℕ) (heap : List (TrainingJob N P)) (busy : ℕ) (scheduled waits : List ℕ) (b : ℕ)
      → ltb busy limit ≡ false
      → pump limit heap busy scheduled (b ∷ waits) ≡ (busy, scheduled, b ∷ waits)
  unfolding pump
  pump_full limit heap busy scheduled waits b e = ground (arith, e)

  pump_free :
      (limit : ℕ) (heap : List (TrainingJob N P)) (busy : ℕ) (scheduled waits : List ℕ) (b : ℕ)
      → ltb busy limit ≡ true
      → pump limit heap busy scheduled (b ∷ waits)
        ≡ pump limit heap
            (if is_dropped heap b then busy else busy + 1)
            (if is_dropped heap b then scheduled else scheduled ++ b ∷ [])
            waits
  unfolding pump
  pump_free limit heap busy scheduled waits b e = ground (arith, e)

  -- What holds of the pending and the scheduled jobs, and is kept by a round of the pump's loop,
  -- holds when it ends.
  pub pump-induct {κ} :
      (limit : ℕ) (heap : List (TrainingJob N P)) (Q : ℕ → List ℕ → List ℕ → Type κ)
      → ((busy b : ℕ) (scheduled waits : List ℕ)
          → busy < limit
          → Q busy scheduled (b ∷ waits)
          → Q
              (if is_dropped heap b then busy else busy + 1)
              (if is_dropped heap b then scheduled else scheduled ++ b ∷ [])
              waits)
      → (busy : ℕ) (scheduled waits : List ℕ) → Q busy scheduled waits
      → let (busy', scheduled', waits') = pump limit heap busy scheduled waits in
        Q busy' scheduled' waits' × ((waits' ≡ []) ⊎ (limit ≤ busy'))
  unfolding pump
  pump-induct limit heap Q keep busy scheduled [] h = (h, inl refl)
  pump-induct limit heap Q keep busy scheduled (b ∷ waits) h = elim (Bool-cases (ltb busy limit)) [
    | inr full ↦
        rw (pump_full limit heap busy scheduled waits b full) (h, inr (ltb→le busy limit full))
    | inl free ↦ rw (pump_free limit heap busy scheduled waits b free) (
        pump-induct limit heap Q keep (if is_dropped heap b then busy else busy + 1)
          (if is_dropped heap b then scheduled else scheduled ++ b ∷ []) waits
          (keep busy b scheduled waits (ltb→lt busy limit free) h))
  ]

  pub Fits-worked :
      (o : Option (TrainingJob N P)) (f : TrainingJob N P → TrainingJob N P) (w s r : ℕ)
      → ((j : TrainingJob N P) → (f j).status ≡ j.status)
      → Fits o w s (suc r)
      → Fits (option_map f o) w s (suc r)
  unfolding Fits
  Fits-worked none f w s r keep h = absurd (omega arith)
  Fits-worked (some j) f w s r keep h = ground (arith, keep j)

  pub Fits-ended :
      (o : Option (TrainingJob N P)) (f : TrainingJob N P → TrainingJob N P) (w s r : ℕ)
      → ((j : TrainingJob N P) → is_over (f j).status ≡ true)
      → Fits o w s (suc r)
      → Fits (option_map f o) w s r
  unfolding Fits
  Fits-ended none f w s r over h = absurd (omega arith)
  Fits-ended (some j) f w s r over h = ground (arith, over j)

  pub Fits-started :
      (o : Option (TrainingJob N P)) (f : TrainingJob N P → TrainingJob N P) (w s r : ℕ)
      → ((j : TrainingJob N P) → (f j).status ≡ running)
      → Fits o w (suc s) r
      → Fits (option_map f o) w s (suc r)
  unfolding Fits
  Fits-started none f w s r starts h = absurd (omega arith)
  Fits-started (some j) f w s r starts h = ground (arith, starts j)

  pub Fits-cancelled :
      (p : TrainingPlatform N) (now : ℕ) (o : Option (TrainingJob N P)) (w s r : ℕ)
      → Fits o w s r
      → Fits (option_map (cancel_job p now) o) w s r
  unfolding Fits cancel_job append_log
  Fits-cancelled p now none w s r h = h
  Fits-cancelled p now (some j) w s r h = ground arith
