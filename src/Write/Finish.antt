-- ===== src/Write/Finish.antt =====
-- src/write.rs: `poll_shutdown` of a connection, on every branch.
use vt_muxer.Common.{ℕ, ◌≤◌, ◌≡◌, refl, sym, ap, ◌⊎◌, inl, inr, List, arith, subst}
use vt_muxer.Common.Poll.{ready, pending, ok, err}
use vt_muxer.ThinAddr.{SocketAddr}
use vt_muxer.Runtime.{Runtime, IsRuntime}
use vt_muxer.Write.State.{
  Outcome, returns, panicked, exhausted, ShutDownState, WriteState, WritePipeState, WriteInner,
}
use vt_muxer.Write.Shutdown.{
  Closing, shutdown_loop, closing_state, leave_closing, run_shutdown, shutdown_from, poll_shutdown,
}
use vt_muxer.Write.Stream.{Streams}
use vt_muxer.Write.Ended.{count, Busy}
use vt_muxer.Write.Written.{IsWriting}
use vt_muxer.Write.Closed.{ClosedOut, InShutdown, ShutEnded, rounds, shutdown_loop-Ended}

module _ (r : Runtime) where
  open r use {World, Guard, Waker, sent, wake}

  -- A connection in the middle of its shutdown, or past it.
  pub record IsShutting (base accepted : List ℕ) (a : SocketAddr) (i : WriteInner r) (w : World)
      : Type 0 where
    pub phase : ShutDownState r
    pub is_shutting : i.state ≡ WritePipeState.shutdown phase
    pub inside : InShutdown r base accepted a phase i.buffer (sent w)

  abbrev pub Shut :
      List ℕ → List ℕ → SocketAddr → Outcome (Unit {0}) → WriteInner r → World → Type 0
  Shut base accepted a (returns (ready (ok _))) i w =
      (i.state ≡ WritePipeState.shutdown ShutDownState.done) × ClosedOut base accepted a (sent w)
  Shut base accepted a (returns (ready (err e))) i w =
      i.state ≡ WritePipeState.shutdown ShutDownState.error
  Shut base accepted a (returns pending) i w = IsShutting base accepted a i w
  Shut base accepted a panicked i w = ⊥
  Shut base accepted a exhausted i w = ⊥

  leave_closing-Shut :
      (base accepted : List ℕ) (a : SocketAddr) (o : Outcome (Unit {0})) (c : Closing r)
      → ShutEnded r base accepted a o c
      → let (o', i', w') = leave_closing r (o, c) in Shut base accepted a o' i' w'
  unfolding leave_closing
  leave_closing-Shut base accepted a (returns (ready (ok _))) c (e, s) =
      (ap WritePipeState.shutdown e, s)
  leave_closing-Shut base accepted a (returns (ready (err e'))) c e = ap WritePipeState.shutdown e
  leave_closing-Shut base accepted a (returns pending) c s = record {
    phase = c.state;
    is_shutting = refl;
    inside = s;
  }
  leave_closing-Shut base accepted a panicked c s = s
  leave_closing-Shut base accepted a exhausted c s = s

  module _ (laws : IsRuntime r) (base accepted : List ℕ) (a : SocketAddr) where
    few_rounds : (s : ShutDownState r) → rounds r laws base accepted a s ≤ 4
    few_rounds ShutDownState.waiting_lock = omega arith
    few_rounds (ShutDownState.flushing g n) = omega arith
    few_rounds (ShutDownState.writing g n) = omega arith
    few_rounds ShutDownState.done = omega arith
    few_rounds ShutDownState.error = omega arith

    run_shutdown-Shut :
        (i : WriteInner r) (k : Waker) (s : ShutDownState r) (w : World)
        → InShutdown r base accepted a s i.buffer (sent w)
        → let (o, i', w') = run_shutdown r i k s w in Shut base accepted a o i' w'
    unfolding run_shutdown
    run_shutdown-Shut i k s w inv =
        let c : Closing r = record {
          write_lock = i.write_lock;
          state = s;
          buffer = i.buffer;
          world = w;
        } in
        let out = shutdown_loop r 4 k c in
        leave_closing-Shut base accepted a out.0 out.1
          (shutdown_loop-Ended r laws base accepted a 4 k c s refl (few_rounds s) inv)

    begin :
        (s : WriteState r) (i : WriteInner r) (out : List ℕ)
        → Streams base accepted a i.buffer (count r s) out
        → Busy r s i.buffer
        → InShutdown r base accepted a (closing_state r s) i.buffer out
    unfolding closing_state
    begin WriteState.buffering i out s busy = s
    begin (WriteState.flushing g n) i out s busy = (s, λ z. absurd (omega arith))

    -- `poll_shutdown` of a connection that is writing, or is shutting down already, ends within four
    -- rounds and without a panic. If it succeeds, every byte that was accepted is on the wire in
    -- whole frames, none of them empty, and behind them the one empty header that closes the
    -- connection. If it answers `Pending`, the shutdown goes on from where it stands. If it fails,
    -- the connection stays in the error state.
    pub poll_shutdown-Shut :
        (i : WriteInner r) (k : Waker) (w : World)
        → IsWriting r base accepted a i w ⊎ IsShutting base accepted a i w
        → let (o, i', w') = poll_shutdown r i k w in Shut base accepted a o i' w'
    unfolding poll_shutdown shutdown_from
    poll_shutdown-Shut i k w (inl v) =
        rw (v.is_writing, poll_shutdown)
          (run_shutdown-Shut i k (closing_state r v.phase) (wake v.waker w) (
            subst (InShutdown r base accepted a (closing_state r v.phase) i.buffer)
              (sym (laws.wake_quiet v.waker w)) (begin v.phase i (sent w) v.streams v.busy)))
    poll_shutdown-Shut i k w (inr v) =
        rw (v.is_shutting, poll_shutdown) (run_shutdown-Shut i k v.phase w v.inside)
