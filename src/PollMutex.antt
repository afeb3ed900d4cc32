-- ===== src/PollMutex.antt =====
-- src/poll_mutex.rs: a mutex that is locked by polling, and keeps its place in the queue between two
-- polls.
pub mod Queue
mod Tests
use vt_muxer.Common.{Bool, true, false, Option, none, some}
use vt_muxer.Common.Poll.{Poll, ready, pending}
use vt_muxer.Runtime.{Runtime}

module _ (r : Runtime) where
  open r use {
    World, Mutex, Guard, LockFuture, Waker, ptr_eq, try_lock_owned, lock_owned, poll_future,
    await_future, await_lock,
  }

  pub record PollMutex : Type 0 where
    pub mutex : Mutex
    pub fut : Option LockFuture

  -- `MaybeOwnedGuard`: how the lock was come by. Both kinds lead to the same writer.
  pub data MaybeOwnedGuard : Type 0 where
    borrowed : Guard → MaybeOwnedGuard
    owned : Guard → MaybeOwnedGuard

  -- `Deref::deref` and `DerefMut::deref_mut`.
  unfoldable pub deref : MaybeOwnedGuard → Guard
  deref (borrowed g) = g
  deref (owned g) = g

  unfoldable pub new : Mutex → PollMutex
  new mutex = record { mutex = mutex; fut = none }

  -- The `match` at the end of `poll_lock`, on what the poll of the future answered.
  unfoldable pub settle :
      PollMutex → Poll Guard × LockFuture × World → Poll Guard × PollMutex × World
  settle m (ready g, f, w) = (ready g, record m { fut = none }, w)
  settle m (pending, f, w) = (pending, record m { fut = some f }, w)

  -- The case without a queued future: a try first, then a place in the queue.
  unfoldable pub after_try :
      PollMutex → Waker → Option Guard × World → Poll Guard × PollMutex × World
  unfolding settle
  after_try m k (some g, w) = (ready g, m, w)
  after_try m k (none, w) = let (f, w') = lock_owned m.mutex w in settle m (poll_future f k w')

  unfoldable pub poll_lock : PollMutex → Waker → World → Poll Guard × PollMutex × World
  unfolding settle after_try
  poll_lock m k w = elim m.fut [
    | some f ↦ settle m (poll_future f k w)
    | none ↦ after_try m k (try_lock_owned m.mutex w)
  ]

  -- What is left behind, and the token that is taken.
  unfoldable pub take_token : PollMutex → PollMutex × PollMutex
  take_token m = (record m { fut = none }, record { mutex = m.mutex; fut = m.fut })

  unfoldable pub lock : PollMutex → World → MaybeOwnedGuard × PollMutex × World
  lock m w = elim m.fut [
    | some f ↦ let (g, w') = await_future f w in (owned g, record m { fut = none }, w')
    | none ↦ let (g, w') = await_lock m.mutex w in (borrowed g, m, w')
  ]

  unfoldable pub clone : PollMutex → PollMutex
  clone m = record { mutex = m.mutex; fut = none }

  -- `self.clone_from(source)`.
  unfoldable pub clone_from : PollMutex → PollMutex → PollMutex
  clone_from self source = elim (ptr_eq self.mutex source.mutex) [
    | true ↦ record self { fut = none }
    | false ↦ record { mutex = source.mutex; fut = none }
  ]
