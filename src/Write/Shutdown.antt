-- ===== src/Write/Shutdown.antt =====
-- src/write.rs: `poll_shutdown`, and what dropping a connection leaves to do.
use vt_muxer.Common.{ℕ, zero, suc, true, false}
use vt_muxer.Common.Poll.{Poll, ready, pending, ok, err, ErrorKind}
use vt_muxer.PacketBuffer
use vt_muxer.PacketBuffer.{PacketBuffer}
use vt_muxer.Runtime.{Runtime}
use vt_muxer.PollMutex
use vt_muxer.PollMutex.{PollMutex}
use vt_muxer.Write.State.{
  Outcome, returns, panicked, exhausted, ShutDownState, WriteState, WritePipeState, WriteInner,
}
use vt_muxer.Write.Flush.{Flush, flush_buf, u32_limit, u8_limit}

module _ (r : Runtime) where
  open r use {World, Guard, Waker, unlock, wake, write_all}

  -- What `poll_shutdown` works on once the connection is shutting down.
  pub record Closing : Type 0 where
    pub write_lock : PollMutex r
    pub state : ShutDownState r
    pub buffer : PacketBuffer
    pub world : World

  -- `guarded_flush!` behind `flush_buf`: `keep` is the state with the new count, `next` what follows
  -- a flush that is done.
  unfoldable pub guarded :
      (Closing → Outcome (Unit {0}) × Closing)
      → (ℕ → ShutDownState r)
      → Closing
      → Guard
      → Flush r
      → Outcome (Unit {0}) × Closing
  guarded next keep c g out =
      let kept : Closing = record c {
        state = keep out.written;
        buffer = out.buffer;
        world = out.world;
      } in
      elim out.outcome [
        | returns polled ↦ elim polled [
          | ready res ↦ elim res [
            | ok _ ↦ next kept
            | err e ↦ (
              returns (ready (err e)),
              record kept { state = ShutDownState.error; world = unlock g out.world },
            )
          ]
          | pending ↦ (returns pending, kept)
        ]
        | panicked ↦ (panicked, kept)
        | exhausted ↦ (exhausted, kept)
      ]

  unfoldable pub lock_closing :
      (Closing → Outcome (Unit {0}) × Closing)
      → Closing
      → Poll Guard × PollMutex r × World
      → Outcome (Unit {0}) × Closing
  lock_closing again c (ready g, m, w) =
      again (record c { write_lock = m; state = ShutDownState.flushing g 0; world = w })
  lock_closing again c (pending, m, w) = (returns pending, record c { write_lock = m; world = w })

  -- The body of the loop of `poll_shutdown`, with the loop as `again`.
  unfoldable pub shutdown_round :
      (Closing → Outcome (Unit {0}) × Closing)
      → Waker
      → Closing
      → ShutDownState r
      → Outcome (Unit {0}) × Closing
  unfolding guarded lock_closing
  shutdown_round again k c ShutDownState.waiting_lock =
      lock_closing again c (PollMutex.poll_lock r c.write_lock k c.world)
  shutdown_round again k c (ShutDownState.flushing g n) =
      let next = λ (c' : Closing). again (record c' { state = ShutDownState.writing g 0 }) in
      elim (PacketBuffer.is_empty c.buffer) [
        | false ↦
            guarded next (ShutDownState.flushing g) c g
              (flush_buf r k c.buffer g (u32_limit r) n c.world)
        | true ↦ next c
      ]
  shutdown_round again k c (ShutDownState.writing g n) =
      guarded (λ c'. again (record c' { state = ShutDownState.done; world = unlock g c'.world }))
        (ShutDownState.writing g) c g (flush_buf r k c.buffer g (u8_limit r) n c.world)
  shutdown_round again k c ShutDownState.done = (returns (ready (ok tt)), c)
  shutdown_round again k c ShutDownState.error = (returns (ready (err ErrorKind.other)), c)

  unfoldable pub shutdown_loop : ℕ → Waker → Closing → Outcome (Unit {0}) × Closing
  unfolding shutdown_round
  shutdown_loop zero k c = (exhausted, c)
  shutdown_loop (suc fuel) k c = shutdown_round (λ c'. shutdown_loop fuel k c') k c c.state

  -- The state that a writing connection is closed in.
  unfoldable pub closing_state : WriteState r → ShutDownState r
  closing_state WriteState.buffering = ShutDownState.waiting_lock
  closing_state (WriteState.flushing g n) = ShutDownState.flushing g n

  unfoldable pub drop_closing : ShutDownState r → World → World
  drop_closing (ShutDownState.flushing g n) w = unlock g w
  drop_closing (ShutDownState.writing g n) w = unlock g w
  drop_closing _ w = w

  -- The state that is left, or the poison of a panic.
  unfoldable pub leave_closing :
      Outcome (Unit {0}) × Closing → Outcome (Unit {0}) × WriteInner r × World
  unfolding drop_closing
  leave_closing (panicked, c) = (
    panicked,
    record { write_lock = c.write_lock; state = WritePipeState.poisoned; buffer = c.buffer },
    drop_closing c.state c.world,
  )
  leave_closing (o, c) = (
    o,
    record {
      write_lock = c.write_lock;
      state = WritePipeState.shutdown c.state;
      buffer = c.buffer;
    },
    c.world,
  )

  -- At most four rounds: the lock, the packet, the closing header, the end.
  unfoldable pub run_shutdown :
      WriteInner r → Waker → ShutDownState r → World → Outcome (Unit {0}) × WriteInner r × World
  unfolding shutdown_loop leave_closing
  run_shutdown i k s w = leave_closing (
      shutdown_loop 4 k
        (record { write_lock = i.write_lock; state = s; buffer = i.buffer; world = w }))

  unfoldable pub shutdown_from :
      WriteInner r → Waker → WritePipeState r → World → Outcome (Unit {0}) × WriteInner r × World
  unfolding run_shutdown closing_state
  shutdown_from i k WritePipeState.poisoned w = (panicked, i, w)
  shutdown_from i k (WritePipeState.shutdown s) w = run_shutdown i k s w
  shutdown_from i k (WritePipeState.writing old s) w =
      run_shutdown i k (closing_state s) (wake old w)

  unfoldable pub poll_shutdown :
      WriteInner r → Waker → World → Outcome (Unit {0}) × WriteInner r × World
  unfolding shutdown_from
  poll_shutdown i k w = shutdown_from i k i.state w
