-- ===== src/Lease.antt =====
-- server/reliableStateStore.ts, `FileFencedLease`: a leader's lease in a file, guarded while it is
-- rewritten by a lock file that only one process can create.
pub mod Fencing
pub mod Interleaving
mod Examples
use malacca_port_resilience.Prelude.{
  ℕ, ◌+◌, ◌*◌, Bool, true, false, not, ◌&&◌, ◌||◌, String, Option, none, some, ltb, leb, ◌==◌,
  if◌then◌else◌, Result, ok, err, is_id_char, matches, ◌≡◌,
}
use text.Mathlib.Text.{◌==◌ as str_eq}

pub record FencingToken : Type 0 where
  pub protocol_version : String
  pub lease_id : String
  pub holder_id : String
  pub fencing_number : ℕ
  pub acquired_at : String
  pub expires_at : String

pub data LeaseError : Type 0 where
  lease_directory_must_be_absolute leader_lease_corrupt lease_request_invalid : LeaseError
  leader_lease_update_in_progress leader_lease_held stale_fencing_token : LeaseError

-- `leader-lease.json`, if it exists, and whether `leader-lease.update.lock` does.
pub record LeaseDirectory (Text : Type 0) : Type 0 where
  pub lease_file : Option Text
  pub update_locked : Bool

-- JSON (`none` where `JSON.parse` throws, `some none` for null), `toISOString` of an instant in
-- milliseconds, and `Date.parse` (`none` for NaN).
pub record LeasePlatform (Text : Type 0) : Type 0 where
  pub print_token : FencingToken → Text
  pub parse_token : Text → Option (Option FencingToken)
  pub iso_string : ℕ → String
  pub parse_date : String → Option ℕ

pub record LeasePlatformLaws {Text : Type 0} (p : LeasePlatform Text) : Type 0 where
  pub parse-print : (t : FencingToken) → p.parse_token (p.print_token t) ≡ some (some t)
  pub parse_date-iso : (instant : ℕ) → p.parse_date (p.iso_string instant) ≡ some instant

-- `a > b` and `a <= b` where `a` may be NaN.
abbrev pub is_after : Option ℕ → ℕ → Bool
is_after none now = false
is_after (some t) now = ltb now t

abbrev pub is_over : Option ℕ → ℕ → Bool
is_over none now = false
is_over (some t) now = leb t now

-- `/^[A-Za-z0-9._:-]{2,120}$/`, and a whole number of seconds in its range.
abbrev pub is_valid_request : String → ℕ → Bool
is_valid_request holder ttl_seconds =
    matches is_id_char 2 120 holder && (leb 5 ttl_seconds && leb ttl_seconds 300)

abbrev pub number_of : Option FencingToken → ℕ
number_of none = 0
number_of (some t) = t.fencing_number

-- What a process asks for, with the time and the random id that it will read.
pub record Request : Type 0 where
  pub holder : String
  pub ttl_seconds : ℕ
  pub now : ℕ
  pub uuid : String

module _ {Text : Type 0} (p : LeasePlatform Text) where
  unfoldable pub read : LeaseDirectory Text → Result LeaseError (Option FencingToken)
  read d = elim d.lease_file [
    | none ↦ ok none
    | some body ↦ elim (p.parse_token body) [ none ↦ err leader_lease_corrupt | some t ↦ ok t ]
  ]

  abbrev pub is_held : Request → Option FencingToken → Bool
  is_held q none = false
  is_held q (some t) =
      is_after (p.parse_date t.expires_at) q.now && not (str_eq t.holder_id q.holder)

  unfoldable pub new_token : Request → Option FencingToken → FencingToken
  new_token q current = record {
    protocol_version = "fencing-token.v1";
    lease_id = q.uuid;
    holder_id = q.holder;
    fencing_number = number_of current + 1;
    acquired_at = p.iso_string q.now;
    expires_at = p.iso_string (q.now + q.ttl_seconds * 1000);
  }

  -- `acquire` up to `openSync(updateLockFile, 'wx')`, which fails if the file exists.
  unfoldable pub lock : Request → LeaseDirectory Text → Result LeaseError (LeaseDirectory Text)
  lock q d =
      if not (is_valid_request q.holder q.ttl_seconds)
      then err lease_request_invalid
      else if d.update_locked
      then err leader_lease_update_in_progress
      else ok (record d { update_locked = true })

  -- The part of `acquire` that the lock guards, and `finally`, which removes it.
  unfoldable pub update :
      Request → LeaseDirectory Text → Result LeaseError FencingToken × LeaseDirectory Text
  update q d = elim (read d) [
    | err e ↦ (err e, record d { update_locked = false })
    | ok current ↦
        let t = new_token q current in
        if is_held q current
        then (err leader_lease_held, record d { update_locked = false })
        else (ok t, record { lease_file = some (p.print_token t); update_locked = false })
  ]

  unfoldable pub acquire :
      Request → LeaseDirectory Text → Result LeaseError FencingToken × LeaseDirectory Text
  acquire q d = elim (lock q d) [ err e ↦ (err e, d) | ok locked ↦ update q locked ]

  abbrev is_stale : FencingToken → ℕ → Option FencingToken → Bool
  is_stale t now none = true
  is_stale t now (some current) =
      not (str_eq current.lease_id t.lease_id)
      || (not (current.fencing_number == t.fencing_number)
          || is_over (p.parse_date current.expires_at) now)

  -- `assertCurrent`, which returns `true` or throws.
  unfoldable pub assert_current : FencingToken → ℕ → LeaseDirectory Text → Result LeaseError Bool
  assert_current t now d = elim (read d) [
    | err e ↦ err e
    | ok current ↦ if is_stale t now current then err stale_fencing_token else ok true
  ]
