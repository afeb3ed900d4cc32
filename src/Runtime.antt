-- ===== src/Runtime.antt =====
-- What src/poll_mutex.rs and src/write.rs use of tokio: the mutex around the writing half of the TCP
-- stream, its guards and lock futures, the half itself, and the wakers of the standard library.
use vt_muxer.Common.{ℕ, ◌≤◌, ◌≡◌, Bool, true, Option, List, ◌++◌, take, length}
use vt_muxer.Common.Poll.{Poll, ready, pending, ErrorKind, IoResult, ok, err}

-- `World` is all that lies outside one connection. An asynchronous call that is awaited to its end
-- is one operation: what other tasks do in the meantime is part of its new world.
pub record Runtime : Type 1 where
  pub World : Type 0
  pub Mutex : Type 0
  pub Guard : Type 0
  pub LockFuture : Type 0
  pub Waker : Type 0
  -- `Waker::noop` and `Waker::wake`.
  pub noop : Waker
  pub wake : Waker → World → World
  -- `Arc::ptr_eq` on the shared mutexes.
  pub ptr_eq : Mutex → Mutex → Bool
  -- `Mutex::try_lock_owned`, `Mutex::lock_owned`, a poll of its future, the future awaited, and
  -- `Mutex::lock` awaited. Dropping a guard unlocks.
  pub try_lock_owned : Mutex → World → Option Guard × World
  pub lock_owned : Mutex → World → LockFuture × World
  pub poll_future : LockFuture → Waker → World → Poll Guard × LockFuture × World
  pub await_future : LockFuture → World → Guard × World
  pub await_lock : Mutex → World → Guard × World
  pub unlock : Guard → World → World
  -- `AsyncWrite` of the half behind a guard, and `AsyncWriteExt::write_all` awaited.
  pub poll_write : Guard → Waker → List ℕ → World → Poll (IoResult ℕ) × World
  pub poll_flush : Guard → Waker → World → Poll (IoResult (Unit {0})) × World
  pub write_all : Guard → List ℕ → World → IoResult (Unit {0}) × World
  -- The bytes that this connection has put on the wire so far, whatever other connections put
  -- between them.
  pub sent : World → List ℕ

module _ (r : Runtime) where
  open r use {
    World, Mutex, Guard, LockFuture, Waker, wake, ptr_eq, try_lock_owned, lock_owned, poll_future,
    await_future, await_lock, unlock, poll_write, poll_flush, write_all, sent,
  }

  -- Only the writing operations put bytes on the wire: `poll_write` the first bytes of the slice, as
  -- many as it answers and no more than there are, and none if it fails or waits; `write_all` the
  -- whole slice if it succeeds.
  pub record IsRuntime : Type 0 where
    pub ptr_eq_sound : (m n : Mutex) → ptr_eq m n ≡ true → m ≡ n
    pub wake_quiet : (k : Waker) (w : World) → sent (wake k w) ≡ sent w
    pub try_quiet : (m : Mutex) (w : World) → sent (try_lock_owned m w).1 ≡ sent w
    pub lock_quiet : (m : Mutex) (w : World) → sent (lock_owned m w).1 ≡ sent w
    pub future_quiet :
        (f : LockFuture) (k : Waker) (w : World) → sent (poll_future f k w).2 ≡ sent w
    pub await_future_quiet : (f : LockFuture) (w : World) → sent (await_future f w).1 ≡ sent w
    pub await_lock_quiet : (m : Mutex) (w : World) → sent (await_lock m w).1 ≡ sent w
    pub unlock_quiet : (g : Guard) (w : World) → sent (unlock g w) ≡ sent w
    pub write_ok :
        (g : Guard) (k : Waker) (bs : List ℕ) (w : World) (n : ℕ) (w' : World)
        → poll_write g k bs w ≡ (ready (ok n), w')
        → (n ≤ length bs) × (sent w' ≡ sent w ++ take n bs)
    pub write_err :
        (g : Guard) (k : Waker) (bs : List ℕ) (w : World) (e : ErrorKind) (w' : World)
        → poll_write g k bs w ≡ (ready (err e), w')
        → sent w' ≡ sent w
    pub write_pending :
        (g : Guard) (k : Waker) (bs : List ℕ) (w w' : World)
        → poll_write g k bs w ≡ (pending, w')
        → sent w' ≡ sent w
    pub flush_quiet : (g : Guard) (k : Waker) (w : World) → sent (poll_flush g k w).1 ≡ sent w
    pub write_all_ok :
        (g : Guard) (bs : List ℕ) (w w' : World)
        → write_all g bs w ≡ (ok tt, w')
        → sent w' ≡ sent w ++ bs
