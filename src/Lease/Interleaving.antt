-- ===== src/Lease/Interleaving.antt =====
-- Several processes that call `acquire` at once: the lock file makes their updates follow one another.
use malacca_port_resilience.Prelude.{
  ℕ, ◌+◌, ◌≤◌, ◌<◌, ◌≡◌, refl, ap, ◌∙◌, subst, Bool, inl, inr, true, false, Option, some, List, [],
  ◌∷◌, ◌++◌, length, length-append, Result, Bool-cases, ok, err, arith, if◌then◌else◌,
}
use malacca_port_resilience.Lease.{
  FencingToken, LeaseError, LeaseDirectory, LeasePlatform, LeasePlatformLaws, number_of, Request,
  stale_fencing_token, read, is_held, new_token, lock, update, assert_current,
}

-- The directory, the requests that are past their lock, and the tokens written, newest first.
pub record World (Text : Type 0) : Type 0 where
  pub directory : LeaseDirectory Text
  pub updating : List Request
  pub written : List FencingToken

abbrev pub add_token : Result LeaseError FencingToken → List FencingToken → List FencingToken
add_token (ok t) ts = t ∷ ts
add_token (err e) ts = ts

module _ {Text : Type 0} (p : LeasePlatform Text) where
  -- Any process may take its next step; one that is past its lock may crash instead, before it
  -- writes or after, and then its lock file stays.
  pub data Step : World Text → World Text → Type 0 where
    locks :
        (w : World Text) (q : Request) (d : LeaseDirectory Text)
        → lock p q w.directory ≡ ok d
        → Step w (record w { directory = d; updating = q ∷ w.updating })
    updates :
        (w : World Text) (before : List Request) (q : Request) (after : List Request)
        → w.updating ≡ before ++ q ∷ after
        → Step w (record {
          directory = (update p q w.directory).1;
          updating = before ++ after;
          written = add_token (update p q w.directory).0 w.written;
        })
    crashes :
        (w : World Text) (before : List Request) (q : Request) (after : List Request)
        → w.updating ≡ before ++ q ∷ after
        → Step w (record w { updating = before ++ after })
    crashes_late :
        (w : World Text) (before : List Request) (q : Request) (after : List Request)
        → w.updating ≡ before ++ q ∷ after
        → Step w (record {
          directory = record (update p q w.directory).1 { update_locked = true };
          updating = before ++ after;
          written = add_token (update p q w.directory).0 w.written;
        })

  pub data Reach (start : World Text) : World Text → Type 0 where
    here : Reach start start
    next : {w w' : World Text} → Reach start w → Step w w' → Reach start w'

  abbrev pub newest : List FencingToken → Option FencingToken → Option FencingToken
  newest [] start = start
  newest (t ∷ ts) start = some t

  -- Each token's number is one above that of the token written before it.
  abbrev pub Consecutive : Option FencingToken → List FencingToken → Type 0
  Consecutive start [] = Unit
  Consecutive start (t ∷ ts) =
      (t.fencing_number ≡ number_of (newest ts start) + 1) × Consecutive start ts

  pub record Inv (start : Option FencingToken) (w : World Text) : Type 0 where
    pub one_updates : length w.updating ≤ (if w.directory.update_locked then 1 else 0)
    pub newest_stored : read p w.directory ≡ ok (newest w.written start)
    pub numbered : Consecutive start w.written

  read-relock :
      (d : LeaseDirectory Text) (b : Bool) → read p (record d { update_locked = b }) ≡ read p d
  unfolding read
  read-relock d b = refl

  module _ (laws : LeasePlatformLaws p) (start : Option FencingToken) where
    locks-Inv :
        (w : World Text) (q : Request) (d : LeaseDirectory Text)
        → lock p q w.directory ≡ ok d
        → Inv start w
        → Inv start (record w { directory = d; updating = q ∷ w.updating })
    unfolding lock read
    locks-Inv w q d h v = ground arith

    -- With one request past its lock, its update leaves the newest token stored.
    update-stored :
        (w : World Text) (q : Request)
        → Inv start w
        → let (r, d) = update p q w.directory in
          (read p d ≡ ok (newest (add_token r w.written) start))
          × Consecutive start (add_token r w.written)
    unfolding update new_token read
    update-stored w q v = elim (Bool-cases (is_held p q (newest w.written start))) [
      | inl held ↦ ground (arith, v.newest_stored)
      | inr free ↦
          ground (arith, v.newest_stored, laws.parse-print (new_token p q (newest w.written start)))
    ]

    removed :
        (w : World Text) (before : List Request) (q : Request) (after : List Request)
        → w.updating ≡ before ++ q ∷ after
        → Inv start w
        → length (before ++ after) ≡ 0
    removed w before q after e v = ground (
      arith,
      v.one_updates,
      ap length e,
      length-append before (q ∷ after),
      length-append before after,
    )

    unlocked :
        (w : World Text) (q : Request)
        → Inv start w
        → (update p q w.directory).1.update_locked ≡ false
    unfolding update read
    unlocked w q v = ground (arith, v.newest_stored)

    -- Every step of every process keeps it so that one request at most is past its lock, that the
    -- file holds the token written last, and that the tokens' numbers follow one another.
    pub Step-Inv : {w w' : World Text} → Step w w' → Inv start w → Inv start w'
    Step-Inv (locks w q d h) v = locks-Inv w q d h v
    Step-Inv (updates w before q after e) v =
        let (stored, numbered) = update-stored w q v in
        record {
          one_updates = omega (arith, removed w before q after e v);
          newest_stored = stored;
          numbered = numbered;
        }
    Step-Inv (crashes w before q after e) v = record {
      one_updates = omega (arith, removed w before q after e v);
      newest_stored = v.newest_stored;
      numbered = v.numbered;
    }
    Step-Inv (crashes_late w before q after e) v =
        let (stored, numbered) = update-stored w q v in
        record {
          one_updates = omega (arith, removed w before q after e v);
          newest_stored = read-relock _ true ∙ stored;
          numbered = numbered;
        }

    Reach-Inv : {w w' : World Text} → Inv start w → Reach w w' → Inv start w'
    Reach-Inv v here = v
    Reach-Inv v (next r s) = Step-Inv s (Reach-Inv v r)

    Consecutive-lt :
        (newer : List FencingToken) (t : FencingToken) (older : List FencingToken)
        (u : FencingToken)
        → Consecutive start (u ∷ newer ++ t ∷ older)
        → t.fencing_number < u.fencing_number
    Consecutive-lt [] t older u c = omega arith
    Consecutive-lt (x ∷ newer) t older u c = omega (arith, Consecutive-lt newer t older x c.1)

    -- Whatever the processes do from a state with nobody in `acquire`, a token that was written before
    -- another has the smaller number, so it no longer passes `assertCurrent` once the other is stored.
    pub older_token_stale :
        (w w' : World Text)
        → w.updating ≡ []
        → w.written ≡ []
        → read p w.directory ≡ ok start
        → Reach w w'
        → (u t : FencingToken) (newer older : List FencingToken)
        → w'.written ≡ u ∷ newer ++ t ∷ older
        → (now : ℕ)
        → (t.fencing_number < u.fencing_number)
          × (assert_current p t now w'.directory ≡ err stale_fencing_token)
    unfolding assert_current
    older_token_stale w w' nobody none_yet stored r u t newer older e now =
        let v : Inv start w' =
          Reach-Inv
            (record {
              one_updates = rw nobody (omega arith);
              newest_stored = rw none_yet stored;
              numbered = rw none_yet tt;
            })
            r in
        let smaller : t.fencing_number < u.fencing_number =
          Consecutive-lt newer t older u (subst (Consecutive start) e v.numbered) in
        let top : read p w'.directory ≡ ok (some u) =
          v.newest_stored ∙ ap (λ (ts : List FencingToken). ok (newest ts start)) e in
        (smaller, rw (top, assert_current) (ground arith))
