-- ===== src/Write/Live.antt =====
-- src/write.rs: a flush over a writer that takes bytes whenever it is asked.
use vt_muxer.Common.{
  ℕ, zero, suc, ◌<◌, ◌≡◌, ◌≢◌, refl, inl, inr, Option, none, some, List, [], ◌∷◌, ◌==◌, Bool-cases,
  arith,
}
use vt_muxer.Common.Poll.{Poll, ready, pending, IoResult, ok, err}
use vt_muxer.ThinAddr.{SocketAddr}
use vt_muxer.PacketBuffer
use vt_muxer.PacketBuffer.{PacketBuffer}
use vt_muxer.Runtime.{Runtime, IsRuntime}
use vt_muxer.PollMutex
use vt_muxer.PollMutex.{PollMutex, settle, after_try}
use vt_muxer.Write.State.{
  Outcome, returns, panicked, exhausted, WriteState, WritePipeState, WriteInner,
}
use vt_muxer.Write.Flush.{
  Flush, add_count, flush_step, flush_round, flush_loop, flush_buf, u32_limit,
}
use vt_muxer.Write.Step.{Pipe}
use vt_muxer.Write.Settled.{IsPrompt}
use vt_muxer.Write.Written.{IsWriting}
use vt_muxer.Write.Drained.{AllOut, FlushEnded, flush-FlushEnded}
use vt_muxer.Write.Poll.{
  leave, while_writing, new_flush, locked_state, poll_locked, flush_writer, flush_end, after_buffer,
  flush_buffer, flush_pipe, flush,
}

module _ (r : Runtime) where
  open r use {
    sent, World, Guard, Waker, LockFuture, poll_write, poll_flush, poll_future, lock_owned,
    try_lock_owned,
  }

  abbrev Took : Poll (IoResult ℕ) → Type 0
  Took (ready (ok n)) = 0 < n
  Took _ = ⊥

  abbrev Succeeds : Poll (IoResult (Unit {0})) → Type 0
  Succeeds (ready (ok _)) = Unit {0}
  Succeeds _ = ⊥

  abbrev Answers : Poll Guard → Type 0
  Answers (ready g) = Unit {0}
  Answers pending = ⊥

  -- The writer takes at least a byte of what is not empty, its own flush succeeds, and no other
  -- connection keeps the lock.
  pub record IsEager : Type 0 where
    pub writes :
        (g : Guard) (k : Waker) (x : ℕ) (xs : List ℕ) (w : World)
        → Took (poll_write g k (x ∷ xs) w).0
    pub flushes : (g : Guard) (k : Waker) (w : World) → Succeeds (poll_flush g k w).0
    pub locks : (f : LockFuture) (k : Waker) (w : World) → Answers (poll_future f k w).0

  -- Neither a failure nor a wait.
  abbrev GoesOn : Outcome (Unit {0}) → Type 0
  GoesOn (returns (ready (err e))) = ⊥
  GoesOn (returns pending) = ⊥
  GoesOn _ = Unit {0}

  module _ (eager : IsEager) where
    flush_step-GoesOn :
        (again : ℕ → World → Flush r) (b : PacketBuffer) (limit n : ℕ)
        → ((n' : ℕ) (w' : World) → GoesOn (again n' w').outcome)
        → (polled : Poll (IoResult ℕ) × World) → Took polled.0
        → GoesOn (flush_step r again b limit n polled).outcome
    unfolding flush_step
    flush_step-GoesOn again b limit n step (ready (ok amt), w) took = elim (Bool-cases (amt == 0)) [
      | inl nothing ↦ absurd (ground (arith, took, nothing))
      | inr some_bytes ↦ rw (some_bytes, flush_step) (counted (add_count limit n amt))
    ]
      where
        counted :
            (o : Option ℕ)
            → let out : Flush r = elim o [
              | some total ↦ again total w
              | none ↦ record { outcome = panicked; buffer = b; written = n; world = w }
            ] in
              GoesOn out.outcome
        counted none = tt
        counted (some total) = step total w
    flush_step-GoesOn again b limit n step (ready (err e), w) took = absurd took
    flush_step-GoesOn again b limit n step (pending, w) took = absurd took

    flush_round-GoesOn :
        (again : ℕ → World → Flush r) (k : Waker) (b : PacketBuffer) (g : Guard) (limit n : ℕ)
        (w : World)
        → ((n' : ℕ) (w' : World) → GoesOn (again n' w').outcome)
        → (rest : Option (List ℕ))
        → let out = flush_round r again k b g limit n w rest in GoesOn out.outcome
    unfolding flush_round
    flush_round-GoesOn again k b g limit n w step none = tt
    flush_round-GoesOn again k b g limit n w step (some []) = tt
    flush_round-GoesOn again k b g limit n w step (some (x ∷ xs)) =
        flush_step-GoesOn again b limit n step (poll_write g k (x ∷ xs) w) (eager.writes g k x xs w)

    flush_loop-GoesOn :
        (fuel : ℕ) (k : Waker) (b : PacketBuffer) (g : Guard) (limit n : ℕ) (w : World)
        → GoesOn (flush_loop r fuel k b g limit n w).outcome
    unfolding flush_loop
    flush_loop-GoesOn zero k b g limit n w = tt
    flush_loop-GoesOn (suc fuel) k b g limit n w =
        flush_round-GoesOn (λ n' w'. flush_loop r fuel k b g limit n' w') k b g limit n w
          (λ n' w'. flush_loop-GoesOn fuel k b g limit n' w') (PacketBuffer.bytes_from b n)

    flush_writer-GoesOn :
        (p : Pipe r) (g : Guard) (polled : Poll (IoResult (Unit {0})) × World)
        → Succeeds polled.0
        → GoesOn (flush_writer r p g polled).0
    unfolding flush_writer
    flush_writer-GoesOn p g (ready (ok _), w) h = tt
    flush_writer-GoesOn p g (ready (err e), w) h = absurd h
    flush_writer-GoesOn p g (pending, w) h = absurd h

    poll_lock-Answers :
        (m : PollMutex r) (k : Waker) (w : World) → Answers (PollMutex.poll_lock r m k w).0
    unfolding PollMutex.poll_lock
    poll_lock-Answers m k w = by_queue m.fut refl
      where
        settled :
            (polled : Poll Guard × LockFuture × World)
            → Answers polled.0
            → Answers (settle r m polled).0
        settled (ready g, f, w') h = tt
        settled (pending, f, w') h = absurd h

        tried : (o : Option Guard × World) → Answers (after_try r m k o).0
        tried (some g, w') = tt
        tried (none, w') =
            let (f, w'') = lock_owned m.mutex w' in
            settled (poll_future f k w'') (eager.locks f k w'')

        by_queue : (o : Option LockFuture) → m.fut ≡ o → Answers (PollMutex.poll_lock r m k w).0
        by_queue (some f) e =
            rw (e, PollMutex.poll_lock) (settled (poll_future f k w) (eager.locks f k w))
        by_queue none e = rw (e, PollMutex.poll_lock) (tried (try_lock_owned m.mutex w))

    -- The lock that a pipe comes to.
    abbrev Locked : Poll (Guard × ℕ) → Type 0
    Locked (ready g) = Unit {0}
    Locked pending = ⊥

    locked_state-Locked :
        (k : Waker) (p : Pipe r) (s : WriteState r) → Locked (locked_state r k p s).0
    unfolding locked_state new_flush
    locked_state-Locked k p WriteState.buffering =
        started (PollMutex.poll_lock r p.write_lock k p.world)
          (poll_lock-Answers p.write_lock k p.world)
      where
        started :
            (polled : Poll Guard × PollMutex r × World)
            → Answers polled.0
            → Locked (new_flush r p polled).0
        started (ready g, m, w) h = tt
        started (pending, m, w) h = absurd h
    locked_state-Locked k p (WriteState.flushing g n) = tt

    flush_end-GoesOn :
        (k : Waker) (q : Poll (Guard × ℕ) × Pipe r) → Locked q.0 → GoesOn (flush_end r k q).0
    unfolding flush_end
    flush_end-GoesOn k (ready (g, n), p) h =
        flush_writer-GoesOn p g (poll_flush g k p.world) (eager.flushes g k p.world)
    flush_end-GoesOn k (pending, p) h = absurd h

    after_buffer-GoesOn :
        (k : Waker) (p : Pipe r) (g : Guard) (o : Outcome (Unit {0})) (b : PacketBuffer) (n : ℕ)
        (w : World)
        → GoesOn o
        → GoesOn
            (after_buffer r k p g (record { outcome = o; buffer = b; written = n; world = w })).0
    unfolding after_buffer poll_locked
    after_buffer-GoesOn k p g (returns (ready (ok _))) b n w h =
        let kept : Pipe r = record p { state = WriteState.flushing g n; buffer = b; world = w } in
        flush_end-GoesOn k (locked_state r k kept (WriteState.flushing g n))
          (locked_state-Locked k kept (WriteState.flushing g n))
    after_buffer-GoesOn k p g (returns (ready (err e))) b n w h = absurd h
    after_buffer-GoesOn k p g (returns pending) b n w h = absurd h
    after_buffer-GoesOn k p g panicked b n w h = tt
    after_buffer-GoesOn k p g exhausted b n w h = tt

    flush_buffer-GoesOn :
        (k : Waker) (q : Poll (Guard × ℕ) × Pipe r) → Locked q.0 → GoesOn (flush_buffer r k q).0
    unfolding flush_buffer flush_buf
    flush_buffer-GoesOn k (ready (g, n), p) h =
        let out = flush_buf r k p.buffer g (u32_limit r) n p.world in
        after_buffer-GoesOn k p g out.outcome out.buffer out.written out.world
          (flush_loop-GoesOn _ k p.buffer g (u32_limit r) n p.world)
    flush_buffer-GoesOn k (pending, p) h = absurd h

    pub flush_pipe-GoesOn : (k : Waker) (p : Pipe r) → GoesOn (flush_pipe r k p).0
    unfolding flush_pipe poll_locked
    flush_pipe-GoesOn k p = elim (Bool-cases (PacketBuffer.is_empty p.buffer)) [
      | inl none_left ↦
          rw (none_left, flush_pipe)
            (flush_end-GoesOn k (locked_state r k p p.state) (locked_state-Locked k p p.state))
      | inr some_left ↦
          rw (some_left, flush_pipe)
            (flush_buffer-GoesOn k (locked_state r k p p.state) (locked_state-Locked k p p.state))
    ]

    leave-GoesOn :
        (i : WriteInner r) (k : Waker) (o : Outcome (Unit {0})) (p : Pipe r)
        → GoesOn o
        → GoesOn (leave r i k (o, p)).0
    unfolding leave
    leave-GoesOn i k (returns (ready (ok _))) p h = tt
    leave-GoesOn i k (returns (ready (err e))) p h = absurd h
    leave-GoesOn i k (returns pending) p h = absurd h
    leave-GoesOn i k panicked p h = tt
    leave-GoesOn i k exhausted p h = tt

    eager-IsPrompt : IsPrompt r
    eager-IsPrompt g k w = answered (poll_flush g k w).0 (eager.flushes g k w)
      where
        answered : (o : Poll (IoResult (Unit {0}))) → Succeeds o → o ≢ pending
        answered (ready (ok _)) h e = cc
        answered (ready (err x)) h e = absurd h
        answered pending h e = absurd h

    module _ (laws : IsRuntime r) (base accepted : List ℕ) (a : SocketAddr) where
      -- All that was accepted is out, and the lock is given up.
      abbrev pub Drained : Outcome (Unit {0}) → WriteInner r → World → Type 0
      Drained o i w =
          (o ≡ returns (ready (ok tt)))
          × ((k : Waker) × (i.state ≡ WritePipeState.writing k WriteState.buffering))
          × AllOut base accepted a (sent w)

      ended-Drained :
          (o : Outcome (Unit {0})) (i : WriteInner r) (w : World)
          → GoesOn o
          → FlushEnded r base accepted a o i w
          → Drained o i w
      ended-Drained (returns (ready (ok _))) i w h (state, v, out) = (refl, state, out)
      ended-Drained (returns (ready (err e))) i w h ended = absurd h
      ended-Drained (returns pending) i w h ended = absurd h
      ended-Drained panicked i w h ended = absurd ended
      ended-Drained exhausted i w h ended = absurd ended

      -- Over a writer that takes at least a byte whenever it is asked, whose own flush succeeds, and
      -- whose lock is not kept by another connection, one `poll_flush` of a connection that is writing
      -- is enough: it succeeds, every byte that was accepted is on the wire, in whole frames of the
      -- connection's address, none of them empty, and the lock is given up.
      pub flush-Drained :
          (i : WriteInner r) (k : Waker) (w : World)
          → IsWriting r base accepted a i w
          → let (o, i', w') = flush r i k w in Drained o i' w'
      unfolding flush while_writing
      flush-Drained i k w v =
          let p : Pipe r = record {
            write_lock = i.write_lock;
            state = v.phase;
            buffer = i.buffer;
            world = w;
          } in
          let out = flush r i k w in
          ended-Drained out.0 out.1 out.2
            (rw (v.is_writing, flush)
              (leave-GoesOn i k (flush_pipe r k p).0 (flush_pipe r k p).1 (flush_pipe-GoesOn k p)))
            (flush-FlushEnded r laws eager-IsPrompt base accepted a i k w v)
