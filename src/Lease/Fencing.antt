-- ===== src/Lease/Fencing.antt =====
-- One process at a time: who is refused the lease, and which tokens pass `assertCurrent` afterwards.
use malacca_port_resilience.Prelude.{
  ℕ, ◌+◌, ◌*◌, ◌<◌, ◌≡◌, ◌≢◌, ◌↔◌, ◌⊎◌, ◌≤◌, Bool-cases, refl, ap, inl, inr, true, false, Option,
  some, Result-cases, ok, err, arith,
}
use text.Mathlib.TextEquality.{eq_iff}
use malacca_port_resilience.Lease.{
  FencingToken, LeaseDirectory, LeasePlatform, LeasePlatformLaws, leader_lease_held,
  is_valid_request, Request, read, is_held, new_token, lock, update, acquire, assert_current,
}

module _ {Text : Type 0} (p : LeasePlatform Text) where
  module _ (laws : LeasePlatformLaws p) where
    -- What a granted update has read, and what it leaves to be read.
    pub update-read :
        (q : Request) (d : LeaseDirectory Text) (t : FencingToken) (d' : LeaseDirectory Text)
        → update p q d ≡ (ok t, d')
        → (current : Option FencingToken) × (read p d ≡ ok current)
          × (t ≡ new_token p q current)
          × (read p d' ≡ ok (some t))
          × (is_held p q current ≡ false)
    unfolding update read
    update-read q d t d' h = elim (Result-cases (read p d)) [
      | inl (current, e) ↦
          let written : d'.lease_file ≡ some (p.print_token t) = ground (arith, e) in
          (
            current,
            e,
            ground (arith, e),
            rw (written, read) (rw (laws.parse-print t)),
            ground (arith, e),
          )
      | inr (x, e) ↦ absurd (ground (arith, e))
    ]

    acquire-update :
        (q : Request) (d d' : LeaseDirectory Text) (t : FencingToken)
        → acquire p q d ≡ (ok t, d')
        → update p q (record d { update_locked = true }) ≡ (ok t, d')
    unfolding acquire lock
    acquire-update q d d' t h = ground arith

    -- After `acquire` has granted a token, a token passes `assertCurrent` exactly if it has that
    -- token's id and number and the time granted is not over.
    pub assert_current-acquire :
        (q : Request) (d d' : LeaseDirectory Text) (granted t : FencingToken) (later : ℕ)
        → acquire p q d ≡ (ok granted, d')
        → (assert_current p t later d' ≡ ok true) ↔ (
            (granted.lease_id ≡ t.lease_id)
            × (granted.fencing_number ≡ t.fencing_number)
            × (later < q.now + q.ttl_seconds * 1000))
    unfolding assert_current new_token
    assert_current-acquire q d d' granted t later h =
        let (current, before, own, after, free) =
          update-read q _ granted d' (acquire-update q d d' granted h) in
        rw (after, assert_current)
          (ground (
            arith,
            ap (λ x. x.expires_at) own,
            laws.parse_date-iso (q.now + q.ttl_seconds * 1000),
            eq_iff granted.lease_id t.lease_id,
          ))

    acquire_free :
        (q : Request) (d d' : LeaseDirectory Text) (t : FencingToken)
        → acquire p q d ≡ (ok t, d')
        → d'.update_locked ≡ false
    unfolding acquire lock update
    acquire_free q d d' t h = ground (arith, Result-cases (read p d))

    -- `acquire` on a directory that nobody updates, by the token that it reads there.
    acquire_of :
        (q : Request) (d : LeaseDirectory Text) (t : FencingToken)
        → read p d ≡ ok (some t)
        → d.update_locked ≡ false
        → is_valid_request q.holder q.ttl_seconds ≡ true
        → ((is_held p q (some t) ≡ true) × (acquire p q d ≡ (err leader_lease_held, d)))
          ⊎ ((is_held p q (some t) ≡ false)
              × (acquire p q d ≡ (
                ok (new_token p q (some t)),
                record {
                  lease_file = some (p.print_token (new_token p q (some t)));
                  update_locked = false;
                },
              )))
    unfolding acquire lock update read
    acquire_of q d t there free valid = elim (Bool-cases (is_held p q (some t))) [
      | inl e ↦ inl (e, ground (arith, e))
      | inr e ↦ inr (e, ground (arith, e))
    ]

    -- After `acquire` has granted a token, any other valid request is either granted with the next
    -- number, and then it is of the same holder or the time granted is over, or it is refused with the
    -- directory left as it was, and then it is of another holder before that time is over. In neither
    -- case is a lock file left.
    pub acquire-acquire :
        (q q' : Request) (d d' : LeaseDirectory Text) (t : FencingToken)
        → acquire p q d ≡ (ok t, d')
        → is_valid_request q'.holder q'.ttl_seconds ≡ true
        → ((t' : FencingToken) × (d'' : LeaseDirectory Text) × (acquire p q' d' ≡ (ok t', d''))
            × (t'.fencing_number ≡ t.fencing_number + 1)
            × (d''.update_locked ≡ false)
            × ((q.holder ≡ q'.holder) ⊎ (q.now + q.ttl_seconds * 1000 ≤ q'.now)))
          ⊎ ((acquire p q' d' ≡ (err leader_lease_held, d'))
              × (d'.update_locked ≡ false)
              × (q.holder ≢ q'.holder)
              × (q'.now < q.now + q.ttl_seconds * 1000))
    unfolding new_token
    acquire-acquire q q' d d' t h valid =
        let (current, before, own, after, unheld) =
          update-read q _ t d' (acquire-update q d d' t h) in
        let free = acquire_free q d d' t h in
        let expiry : p.parse_date t.expires_at ≡ some (q.now + q.ttl_seconds * 1000) =
          rw own (laws.parse_date-iso (q.now + q.ttl_seconds * 1000)) in
        let holder : t.holder_id ≡ q.holder = ap (λ x. x.holder_id) own in
        let same = eq_iff q.holder q'.holder in
        elim (acquire_of q' d' t after free valid) [
          | inl (e, refused) ↦ inr (
            refused,
            free,
            ground (arith, e, expiry, holder, same),
            ground (arith, e, expiry, holder, same),
          )
          | inr (e, granted) ↦ inl (
            new_token p q' (some t),
            _,
            granted,
            refl,
            refl,
            ground (arith, e, expiry, holder, same),
          )
        ]
