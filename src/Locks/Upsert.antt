-- ===== src/Locks/Upsert.antt =====
-- About the upserts of `host_execution_locks` in repositories/runs.py and repositories/web_shell.py.
use ops_composer.Prelude.{
  ℕ, ◌≤◌, ◌<◌, ◌≡◌, refl, sym, Option, not, false, is_set, subst, ◌∙◌, none, some, List, [], ◌∷◌,
  inl, inr, arith, ◌==◌, ==_iff, ==_refl, lt→ltb, if◌then◌else◌, Option-cases, Bool-cases, length,
  All,
}
use ops_composer.Db.{HostLock}
use ops_composer.Locks.{take_lock, take_locks, lock_of, is_held}

-- The host's row becomes the new one; the rows of all other hosts stay.
pub lock_of-take_lock :
    (new : HostLock) (now h : ℕ) (ls taken : List HostLock)
    → take_lock new now ls ≡ some taken
    → lock_of h taken ≡ (if new.host_id == h then some new else lock_of h ls)
unfolding take_lock lock_of
lock_of-take_lock new now h [] taken e = ground arith
lock_of-take_lock new now h (l ∷ ls) taken e = elim (Option-cases (take_lock new now ls)) [
  | inl no_row ↦ ground (arith, no_row)
  | inr (rest, row) ↦ ground (arith, row, lock_of-take_lock new now h ls rest row)
]

-- The upsert returns a row exactly when the host has no lock, or one that has expired.
pub is_set-take_lock :
    (new : HostLock) (now : ℕ) (ls : List HostLock)
    → is_set (take_lock new now ls) ≡ not (is_held now (lock_of new.host_id ls))
unfolding take_lock lock_of
is_set-take_lock new now [] = refl
is_set-take_lock new now (l ∷ ls) = elim (Option-cases (take_lock new now ls)) [
  | inl no_row ↦ ground (arith, no_row, is_set-take_lock new now ls)
  | inr (rest, row) ↦ ground (arith, row, is_set-take_lock new now ls)
]

not_set : {A : Type 0} (o : Option A) → is_set o ≡ false → o ≡ none
not_set none e = refl
not_set (some a) e = cc

-- One host of the statement, by the answer of its upsert.
module _ (new : ℕ → HostLock) (now h : ℕ) (hs : List ℕ) (ls : List HostLock) where
  take_locks_skip :
      take_lock (new h) now ls ≡ none → take_locks new now (h ∷ hs) ls ≡ take_locks new now hs ls
  unfolding take_locks
  take_locks_skip no_row = rw (no_row, take_locks)

  take_locks_take :
      (taken : List HostLock)
      → take_lock (new h) now ls ≡ some taken
      → take_locks new now (h ∷ hs) ls
        ≡ (h ∷ (take_locks new now hs taken).0, (take_locks new now hs taken).1)
  unfolding take_locks
  take_locks_take taken row = rw (row, take_locks)

module _ (new : ℕ → HostLock) (now : ℕ) (same_host : (h : ℕ) → (new h).host_id ≡ h) where
  -- a host whose lock is held is not locked
  take_lock_held :
      (h : ℕ) (ls : List HostLock) (l : HostLock)
      → lock_of h ls ≡ some l
      → now < l.expires_at
      → take_lock (new h) now ls ≡ none
  take_lock_held h ls l found live =
      not_set (take_lock (new h) now ls)
        (is_set-take_lock (new h) now ls ∙ rw (same_host h, found, lt→ltb now l.expires_at live))

  -- a lock that has not expired survives the upsert of any host
  take_lock_keep :
      (h g : ℕ) (ls taken : List HostLock) (l : HostLock)
      → take_lock (new h) now ls ≡ some taken
      → lock_of g ls ≡ some l
      → now < l.expires_at
      → lock_of g taken ≡ some l
  take_lock_keep h g ls taken l row found live = elim (Bool-cases (h == g)) [
    | inl same ↦
        let e : h ≡ g = (==_iff h g).0 same in
        absurd (cc (take_lock_held h ls l (rw e found) live, row))
    | inr other ↦ lock_of-take_lock (new h) now g ls taken row ∙ rw (same_host h, other) found
  ]

  -- Statements that lock many hosts steal no lock that has not expired.
  pub take_locks_keep :
      (hs : List ℕ) (ls : List HostLock) (g : ℕ) (l : HostLock)
      → lock_of g ls ≡ some l
      → now < l.expires_at
      → lock_of g (take_locks new now hs ls).1 ≡ some l
  take_locks_keep [] ls g l found live = unfold take_locks in found
  take_locks_keep (h ∷ hs) ls g l found live = elim (Option-cases (take_lock (new h) now ls)) [
    | inl no_row ↦
        rw (take_locks_skip new now h hs ls no_row) (take_locks_keep hs ls g l found live)
    | inr (taken, row) ↦
        rw (take_locks_take new now h hs ls taken row)
          (take_locks_keep hs taken g l (take_lock_keep h g ls taken l row found live) live)
  ]

  pub length-take_locks :
      (hs : List ℕ) (ls : List HostLock) → length (take_locks new now hs ls).0 ≤ length hs
  length-take_locks [] ls = unfold take_locks in omega arith
  length-take_locks (h ∷ hs) ls = elim (Option-cases (take_lock (new h) now ls)) [
    | inl no_row ↦
        rw (take_locks_skip new now h hs ls no_row) (omega (arith, length-take_locks hs ls))
    | inr (taken, row) ↦
        rw (take_locks_take new now h hs ls taken row) (omega (arith, length-take_locks hs taken))
  ]

  -- If as many rows come back as there are hosts, every host has the new lock.
  pub take_locks-All :
      ((h : ℕ) → now < (new h).expires_at)
      → (hs : List ℕ) (ls : List HostLock) → length (take_locks new now hs ls).0 ≡ length hs
      → All (λ h. lock_of h (take_locks new now hs ls).1 ≡ some (new h)) hs
  take_locks-All fresh [] ls e = tt
  take_locks-All fresh (h ∷ hs) ls e = elim (Option-cases (take_lock (new h) now ls)) [
    | inl no_row ↦
        absurd
          (omega (arith, length-take_locks hs ls, rw (take_locks_skip new now h hs ls no_row) at e))
    | inr (taken, row) ↦
        let count : length (take_locks new now hs taken).0 ≡ length hs =
          omega (arith, rw (take_locks_take new now h hs ls taken row) at e) in
        let mine : lock_of h taken ≡ some (new h) =
          lock_of-take_lock (new h) now h ls taken row ∙ rw (same_host h, ==_refl h) in
        subst (λ r. All (λ g. lock_of g r.1 ≡ some (new g)) (h ∷ hs))
          (sym (take_locks_take new now h hs ls taken row))
          (take_locks_keep hs taken h (new h) mine (fresh h), take_locks-All fresh hs taken count)
  ]
