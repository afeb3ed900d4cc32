-- ===== src/PollMutex/Queue.antt =====
-- src/poll_mutex.rs: who holds the place in the queue.
use vt_muxer.Common.{◌≡◌, refl, ap, ◌∙◌, inl, inr, Option, none, some, Bool-cases, Option-cases}
use vt_muxer.Common.Poll.{Poll, ready, pending}
use vt_muxer.Runtime.{Runtime, IsRuntime}
use vt_muxer.PollMutex.{
  PollMutex, settle, after_try, poll_lock, take_token, lock, deref, clone, clone_from, new,
}

module _ (r : Runtime) where
  open r use {
    World, Mutex, Guard, LockFuture, Waker, try_lock_owned, lock_owned, poll_future, await_future,
    await_lock, sent,
  }

  -- No future is left once the lock is there; while it is not, a future stands in the queue.
  abbrev pub Placed : Poll Guard → Option LockFuture → Type 0
  Placed (ready g) fut = fut ≡ none
  Placed pending fut = (f : LockFuture) × (fut ≡ some f)

  pub record Polled (m : PollMutex r) (out : Poll Guard × PollMutex r × World) : Type 0 where
    pub same_mutex : out.1.mutex ≡ m.mutex
    pub placed : Placed out.0 out.1.fut

  settle-Polled :
      (m : PollMutex r) (polled : Poll Guard × LockFuture × World) → Polled m (settle r m polled)
  unfolding settle
  settle-Polled m (ready g, f, w) = record { same_mutex = refl; placed = refl }
  settle-Polled m (pending, f, w) = record { same_mutex = refl; placed = (f, refl) }

  after_try-Polled :
      (m : PollMutex r) (k : Waker) (tried : Option Guard × World)
      → m.fut ≡ none
      → Polled m (after_try r m k tried)
  unfolding after_try
  after_try-Polled m k (some g, w) e = record { same_mutex = refl; placed = e }
  after_try-Polled m k (none, w) e = settle-Polled m _

  pub poll_lock_try :
      (m : PollMutex r) (k : Waker) (w : World)
      → m.fut ≡ none
      → poll_lock r m k w ≡ after_try r m k (try_lock_owned m.mutex w)
  unfolding poll_lock
  poll_lock_try m k w e = simp (e, poll_lock)

  pub poll_lock_queued :
      (m : PollMutex r) (f : LockFuture) (k : Waker) (w : World)
      → m.fut ≡ some f
      → poll_lock r m k w ≡ settle r m (poll_future f k w)
  unfolding poll_lock
  poll_lock_queued m f k w e = rw (e, poll_lock)

  -- A poll of the lock, in every state, answers the guard and leaves no future behind, or waits and
  -- keeps a future in the queue; the mutex stays the same.
  pub poll_lock-Polled : (m : PollMutex r) (k : Waker) (w : World) → Polled m (poll_lock r m k w)
  poll_lock-Polled m k w = elim (Option-cases m.fut) [
    | inl e ↦ rw (poll_lock_try m k w e) (after_try-Polled m k (try_lock_owned m.mutex w) e)
    | inr (f, e) ↦ rw (poll_lock_queued m f k w e) (settle-Polled m (poll_future f k w))
  ]

  -- What a poll leaves of the mutex `m`, by what the poll of a future `f` answered: the guard and no
  -- future, or the future as that poll left it.
  abbrev pub Settled :
      PollMutex r → Poll Guard × LockFuture × World → Poll Guard × PollMutex r × World → Type 0
  Settled m (ready g, f, w) (o, m', w') =
      (o ≡ ready g) × (m'.mutex ≡ m.mutex) × (m'.fut ≡ none) × (w' ≡ w)
  Settled m (pending, f, w) (o, m', w') =
      (o ≡ pending) × (m'.mutex ≡ m.mutex) × (m'.fut ≡ some f) × (w' ≡ w)

  -- What a poll that tries the mutex first leaves: the guard at once and no future, or what the poll
  -- of a new future leaves.
  abbrev pub Tried :
      PollMutex r → Waker → Option Guard × World → Poll Guard × PollMutex r × World → Type 0
  Tried m k (some g, w) (o, m', w') =
      (o ≡ ready g) × (m'.mutex ≡ m.mutex) × (m'.fut ≡ none) × (w' ≡ w)
  Tried m k (none, w) out = let (f, w1) = lock_owned m.mutex w in Settled m (poll_future f k w1) out

  settle-Settled :
      (m : PollMutex r) (polled : Poll Guard × LockFuture × World)
      → Settled m polled (settle r m polled)
  unfolding settle
  settle-Settled m (ready g, f, w) = (refl, refl, refl, refl)
  settle-Settled m (pending, f, w) = (refl, refl, refl, refl)

  after_try-Tried :
      (m : PollMutex r) (k : Waker) (tried : Option Guard × World)
      → m.fut ≡ none
      → Tried m k tried (after_try r m k tried)
  unfolding after_try
  after_try-Tried m k (some g, w) e = (refl, refl, e, refl)
  after_try-Tried m k (none, w) e =
      let (f, w1) = lock_owned m.mutex w in settle-Settled m (poll_future f k w1)

  -- A poll that finds a future in the queue polls that one, and neither tries the mutex nor queues a
  -- second time: it answers the guard and leaves no future, or waits and leaves that future, so the
  -- place in the queue is kept from one poll to the next. The token that is taken from the mutex
  -- has the same future and the same mutex, and a lock of it waits for that very future; what is left
  -- behind has no future, so a poll of it tries the mutex, and only then queues anew.
  pub queue_kept :
      (m : PollMutex r) (f : LockFuture) (k : Waker) (w : World)
      → m.fut ≡ some f
      → let (left, token) = take_token r m in
        Settled m (poll_future f k w) (poll_lock r m k w)
        × (token.fut ≡ some f)
        × (token.mutex ≡ m.mutex)
        × (deref r (lock r token w).0 ≡ (await_future f w).0)
        × Tried m k (try_lock_owned m.mutex w) (poll_lock r left k w)
  unfolding poll_lock take_token lock deref
  queue_kept m f k w e = (
    rw (e, poll_lock) (settle-Settled m (poll_future f k w)),
    e,
    refl,
    rw (e, lock),
    after_try-Tried (take_token r m).0 k (try_lock_owned m.mutex w) refl,
  )

  -- `lock` leaves nothing queued, whether a future was queued or not; a clone shares the mutex and
  -- has no place in the queue, and so does a mutex after `clone_from`, if two mutexes that are
  -- pointer-equal are one.
  pub clones :
      IsRuntime r
      → (m n : PollMutex r) (w : World)
      → ((lock r m w).1 ≡ clone r m) × (clone_from r m n ≡ clone r n) × (clone r m ≡ new r m.mutex)
  unfolding lock clone clone_from new
  clones laws m n w = (locked, cloned, refl)
    where
      locked : (lock r m w).1 ≡ clone r m
      locked = elim (Option-cases m.fut) [ inl e ↦ rw (e, lock, ← e) | inr (f, e) ↦ rw (e, lock) ]

      cloned : clone_from r m n ≡ clone r n
      cloned = elim (Bool-cases (r.ptr_eq m.mutex n.mutex)) [
        | inl e ↦ rw (e, clone_from, laws.ptr_eq_sound m.mutex n.mutex e)
        | inr e ↦ rw (e, clone_from)
      ]

  -- No lock operation puts a byte on the wire.
  settle_world :
      (m : PollMutex r) (polled : Poll Guard × LockFuture × World)
      → (settle r m polled).2 ≡ polled.2
  unfolding settle
  settle_world m (ready g, f, w) = refl
  settle_world m (pending, f, w) = refl

  module _ (laws : IsRuntime r) where
    after_try_quiet :
        (m : PollMutex r) (k : Waker) (tried : Option Guard × World)
        → sent (after_try r m k tried).2 ≡ sent tried.1
    unfolding after_try
    after_try_quiet m k (some g, w) = refl
    after_try_quiet m k (none, w) =
        ap sent (settle_world m (poll_future (lock_owned m.mutex w).0 k (lock_owned m.mutex w).1))
        ∙ laws.future_quiet (lock_owned m.mutex w).0 k (lock_owned m.mutex w).1
        ∙ laws.lock_quiet m.mutex w

    pub poll_lock_quiet :
        (m : PollMutex r) (k : Waker) (w : World) → sent (poll_lock r m k w).2 ≡ sent w
    unfolding poll_lock
    poll_lock_quiet m k w = elim (Option-cases m.fut) [
      | inl e ↦
          rw (e, poll_lock)
            (after_try_quiet m k (try_lock_owned m.mutex w) ∙ laws.try_quiet m.mutex w)
      | inr (f, e) ↦
          rw (e, poll_lock) (ap sent (settle_world m (poll_future f k w)) ∙ laws.future_quiet f k w)
    ]

    pub lock_quiet : (m : PollMutex r) (w : World) → sent (lock r m w).2 ≡ sent w
    unfolding lock
    lock_quiet m w = elim (Option-cases m.fut) [
      | inl e ↦ rw (e, lock) (laws.await_lock_quiet m.mutex w)
      | inr (f, e) ↦ rw (e, lock) (laws.await_future_quiet f w)
    ]
