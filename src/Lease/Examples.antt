-- ===== src/Lease/Examples.antt =====
-- The lease's theorems on a platform whose file is the token itself and whose dates are in unary.
use Prim.Native.String.{String}
use malacca_port_resilience.Prelude.{
  ℕ, zero, suc, ◌<◌, ◌≤◌, ◌⊎◌, ◌≢◌, ◌≡◌, refl, ap, true, false, none, some, [], ◌∷◌, codes, length,
  ok, err, arith, matches,
}
use malacca_port_resilience.Lease.Fencing.{acquire-acquire, assert_current-acquire}
use malacca_port_resilience.Lease.Interleaving.{
  World, locks, updates, Reach, here, next, older_token_stale,
}
use malacca_port_resilience.Lease.{
  FencingToken, LeaseDirectory, LeasePlatform, LeasePlatformLaws, leader_lease_held,
  stale_fencing_token, Request, read, lock, update, new_token, acquire, assert_current,
}

unary : ℕ → String
unary zero = String.[]
unary (suc n) = String.◌∷◌ "x" (unary n)

length-unary : (n : ℕ) → length (codes (unary n)) ≡ n
unfolding unary
length-unary zero = refl
length-unary (suc n) = ap suc (length-unary n)

abbrev platform : LeasePlatform FencingToken
platform = record {
  print_token = λ t. t;
  parse_token = λ t. some (some t);
  iso_string = unary;
  parse_date = λ s. some (length (codes s));
}

platform-LeasePlatformLaws : LeasePlatformLaws platform
platform-LeasePlatformLaws = record {
  parse-print = λ t. refl;
  parse_date-iso = λ n. ap some (length-unary n);
}

abbrev request : Request
request = record { holder = "vts-1"; ttl_seconds = 5; now = 100; uuid = "id-1" }

abbrev rival : Request
rival = record { holder = "vts-2"; ttl_seconds = 5; now = 200; uuid = "id-2" }

abbrev again : Request
again = record { holder = "vts-1"; ttl_seconds = 5; now = 300; uuid = "id-3" }

abbrev free : LeaseDirectory FencingToken
free = record { lease_file = none; update_locked = false }

abbrev token : FencingToken
token = new_token platform request none

abbrev held : LeaseDirectory FencingToken
held = record { lease_file = some token; update_locked = false }

token_granted : acquire platform request free ≡ (ok token, held)
unfolding acquire lock update read new_token matches
token_granted = refl

acquire-acquire_example :
    ((t : FencingToken) × (d : LeaseDirectory FencingToken) × (acquire platform rival held
        ≡ (ok t, d))
      × (t.fencing_number ≡ 2)
      × (d.update_locked ≡ false)
      × ((request.holder ≡ rival.holder) ⊎ (5100 ≤ 200)))
    ⊎ ((acquire platform rival held ≡ (err leader_lease_held, held))
        × (held.update_locked ≡ false)
        × (request.holder ≢ rival.holder)
        × (200 < 5100))
unfolding matches new_token
acquire-acquire_example =
    acquire-acquire platform platform-LeasePlatformLaws request rival free held token token_granted
      refl

assert_current-acquire_example : assert_current platform token 5000 held ≡ ok true
assert_current-acquire_example =
    (assert_current-acquire platform platform-LeasePlatformLaws request free held token token 5000
        token_granted).1
      (refl, refl, omega arith)

abbrev start : World FencingToken
start = record { directory = free; updating = []; written = [] }

abbrev locked_by : Request → LeaseDirectory FencingToken → LeaseDirectory FencingToken
locked_by q d = record d { update_locked = true }

abbrev renewed : FencingToken
renewed = new_token platform again (some token)

abbrev finish : World FencingToken
finish = record {
  directory =
      (update platform again
        (locked_by again (update platform request (locked_by request free)).1)).1;
  updating = [];
  written = renewed ∷ token ∷ [];
}

-- One holder takes the lease and renews it.
start_to_finish : Reach platform start finish
unfolding lock update read new_token matches unary
start_to_finish =
    next
      (next
        (next (next here (locks start request (locked_by request free) refl))
          (updates _ [] request [] refl))
        (locks _ again (locked_by again held) refl))
      (updates _ [] again [] refl)

older_token_stale_example :
    (token.fencing_number < renewed.fencing_number)
    × (assert_current platform token 400 finish.directory ≡ err stale_fencing_token)
unfolding read
older_token_stale_example =
    older_token_stale platform platform-LeasePlatformLaws none start finish refl refl refl
      start_to_finish renewed token [] [] refl 400
