-- ===== src/Write/Poll.antt =====
-- src/write.rs: `poll_write` and `poll_flush` of a `WriteInner`, from the state they find.
use vt_muxer.Common.{ℕ, ◌+◌, ◌*◌, true, false, List, length}
use vt_muxer.Common.Poll.{Poll, ready, pending, IoResult, ok, err, ErrorKind}
use vt_muxer.PacketBuffer
use vt_muxer.Runtime.{Runtime}
use vt_muxer.PollMutex
use vt_muxer.PollMutex.{PollMutex}
use vt_muxer.Write.State.{
  Outcome, returns, panicked, exhausted, WriteState, WritePipeState, WriteInner,
}
use vt_muxer.Write.Flush.{Flush, flush_buf, u32_limit}
use vt_muxer.Write.Step.{Pipe, write_loop}

module _ (r : Runtime) where
  open r use {World, Guard, Waker, unlock, poll_flush}

  -- What dropping a state does: the guard in it is dropped.
  unfoldable pub drop_state : WriteState r → World → World
  drop_state WriteState.buffering w = w
  drop_state (WriteState.flushing g n) w = unlock g w

  -- `PoisonOnPanic::drop`: a panic poisons the state.
  unfoldable pub leave {ℓ} :
      {A : Type ℓ} → WriteInner r → Waker → Outcome A × Pipe r → Outcome A × WriteInner r × World
  leave i k (panicked, p) = (
    panicked,
    record { write_lock = p.write_lock; state = WritePipeState.poisoned; buffer = p.buffer },
    drop_state p.state p.world,
  )
  leave i k (o, p) = (
    o,
    record {
      write_lock = p.write_lock;
      state = WritePipeState.writing k p.state;
      buffer = p.buffer;
    },
    p.world,
  )

  -- `PoisonOnPanic::new` and `get_write_state!`: the body runs only while the connection is writing.
  unfoldable pub while_writing {ℓ} :
      {A : Type ℓ}
      → (Pipe r → Outcome A × Pipe r)
      → WriteInner r
      → WritePipeState r
      → Waker
      → World
      → Outcome A × WriteInner r × World
  unfolding leave
  while_writing body i WritePipeState.poisoned k w = (panicked, i, w)
  while_writing body i (WritePipeState.shutdown s) k w =
      (returns (ready (err ErrorKind.broken_pipe)), i, w)
  while_writing body i (WritePipeState.writing old s) k w =
      leave i k
        (body (record { write_lock = i.write_lock; state = s; buffer = i.buffer; world = w }))

  -- A round takes a byte of the slice, or ends a flush after which the next round takes one.
  unfoldable pub poll_write :
      WriteInner r → Waker → List ℕ → World → Outcome ℕ × WriteInner r × World
  unfolding while_writing write_loop
  poll_write i k buf w =
      while_writing (λ p. write_loop r (2 * length buf + 2) k buf 0 p) i i.state k w

  -- The lock and the count of a pipe: those of the flush under way, or a new one.
  unfoldable pub new_flush : Pipe r → Poll Guard × PollMutex r × World → Poll (Guard × ℕ) × Pipe r
  new_flush p (ready g, m, w) =
      (ready (g, 0), record p { write_lock = m; state = WriteState.flushing g 0; world = w })
  new_flush p (pending, m, w) = (pending, record p { write_lock = m; world = w })

  unfoldable pub locked_state : Waker → Pipe r → WriteState r → Poll (Guard × ℕ) × Pipe r
  unfolding new_flush
  locked_state k p WriteState.buffering = new_flush p (PollMutex.poll_lock r p.write_lock k p.world)
  locked_state k p (WriteState.flushing g n) = (ready (g, n), p)

  unfoldable pub poll_locked : Waker → Pipe r → Poll (Guard × ℕ) × Pipe r
  unfolding locked_state
  poll_locked k p = locked_state k p p.state

  -- `poll_flush` of the writer, and the state behind its result.
  unfoldable pub flush_writer :
      Pipe r → Guard → Poll (IoResult (Unit {0})) × World → Outcome (Unit {0}) × Pipe r
  flush_writer p g (ready res, w) =
      (returns (ready res), record p { state = WriteState.buffering; world = unlock g w })
  flush_writer p g (pending, w) = (returns pending, record p { world = w })

  -- The second half of `poll_flush`, on what `poll_locked` answered.
  unfoldable pub flush_end : Waker → Poll (Guard × ℕ) × Pipe r → Outcome (Unit {0}) × Pipe r
  unfolding flush_writer
  flush_end k (ready (g, n), p) = flush_writer p g (poll_flush g k p.world)
  flush_end k (pending, p) = (returns pending, p)

  -- What follows `flush_buf` in `poll_flush`.
  unfoldable pub after_buffer : Waker → Pipe r → Guard → Flush r → Outcome (Unit {0}) × Pipe r
  unfolding flush_end poll_locked
  after_buffer k p g out =
      let kept : Pipe r = record p {
        state = WriteState.flushing g out.written;
        buffer = out.buffer;
        world = out.world;
      } in
      elim out.outcome [
        | returns polled ↦ elim polled [
          | ready res ↦ elim res [
            | ok _ ↦ flush_end k (poll_locked k kept)
            | err e ↦ (
              returns (ready (err e)),
              record kept { state = WriteState.buffering; world = unlock g out.world },
            )
          ]
          | pending ↦ (returns pending, kept)
        ]
        | panicked ↦ (panicked, kept)
        | exhausted ↦ (exhausted, kept)
      ]

  unfoldable pub flush_buffer : Waker → Poll (Guard × ℕ) × Pipe r → Outcome (Unit {0}) × Pipe r
  unfolding after_buffer
  flush_buffer k (ready (g, n), p) =
      after_buffer k p g (flush_buf r k p.buffer g (u32_limit r) n p.world)
  flush_buffer k (pending, p) = (returns pending, p)

  unfoldable pub flush_pipe : Waker → Pipe r → Outcome (Unit {0}) × Pipe r
  unfolding flush_buffer
  flush_pipe k p = elim (PacketBuffer.is_empty p.buffer) [
    | false ↦ flush_buffer k (poll_locked k p)
    | true ↦ flush_end k (poll_locked k p)
  ]

  unfoldable pub flush : WriteInner r → Waker → World → Outcome (Unit {0}) × WriteInner r × World
  unfolding while_writing flush_pipe
  flush i k w = while_writing (λ p. flush_pipe k p) i i.state k w
