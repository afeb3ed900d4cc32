-- ===== src/Write/Step.antt =====
-- src/write.rs: `poll_write` and `poll_flush`.
use vt_muxer.Common.{ℕ, zero, suc, ◌+◌, ◌==◌, if◌then◌else◌, true, false, List, [], ◌∷◌, drop}
use vt_muxer.Common.Poll.{Poll, ready, pending, ok, err}
use vt_muxer.PacketBuffer
use vt_muxer.PacketBuffer.{PacketBuffer}
use vt_muxer.Runtime.{Runtime}
use vt_muxer.PollMutex
use vt_muxer.PollMutex.{PollMutex}
use vt_muxer.Write.State.{Outcome, returns, panicked, exhausted, WriteState}
use vt_muxer.Write.Flush.{Flush, flush_buf, u32_limit}

module _ (r : Runtime) where
  open r use {World, Guard, Waker, unlock}

  -- What the two functions work on once the connection is known to be writing.
  pub record Pipe : Type 0 where
    pub write_lock : PollMutex r
    pub state : WriteState r
    pub buffer : PacketBuffer
    pub world : World

  -- `flush!` behind `flush_buf`: a result puts the state back to buffering, which drops the guard; a
  -- flush that waits ends the call, with what was accepted before.
  unfoldable pub after_flush :
      (Pipe → Outcome ℕ × Pipe) → Pipe → Guard → ℕ → Flush r → Outcome ℕ × Pipe
  after_flush again p g wrote out =
      let released : Pipe = record p {
        state = WriteState.buffering;
        buffer = out.buffer;
        world = unlock g out.world;
      } in
      let kept : Pipe = record p {
        state = WriteState.flushing g out.written;
        buffer = out.buffer;
        world = out.world;
      } in
      elim out.outcome [
        | returns polled ↦ elim polled [
          | ready res ↦ elim res [
            | ok _ ↦ again released
            | err e ↦ (returns (ready (err e)), released)
          ]
          | pending ↦ (if wrote == 0 then returns pending else returns (ready (ok wrote)), kept)
        ]
        | panicked ↦ (panicked, kept)
        | exhausted ↦ (exhausted, kept)
      ]

  -- `push!`, and what follows it with the rest of the slice and the new count.
  unfoldable pub push_then :
      (List ℕ → ℕ → Pipe → Outcome ℕ × Pipe) → Pipe → List ℕ → ℕ → ℕ → Outcome ℕ × Pipe
  push_then rest p buf wrote written =
      let (b, n) = PacketBuffer.push p.buffer buf written in
      rest (drop n buf) (wrote + n) (record p { buffer = b })

  -- `poll_locked` in the buffering state, when the buffer is full: a lock that has to be waited for
  -- ends the call at once.
  unfoldable pub lock_then_flush :
      (Pipe → Outcome ℕ × Pipe)
      → Waker
      → Pipe
      → ℕ
      → Poll Guard × PollMutex r × World
      → Outcome ℕ × Pipe
  unfolding after_flush
  lock_then_flush again k p wrote (ready g, m, w) =
      after_flush again (record p { write_lock = m }) g wrote
        (flush_buf r k p.buffer g (u32_limit r) 0 w)
  lock_then_flush again k p wrote (pending, m, w) =
      (returns pending, record p { write_lock = m; world = w })

  -- The body of the loop of `poll_write` on a slice that is not empty, with the loop as `again`.
  unfoldable pub write_round :
      (List ℕ → ℕ → Pipe → Outcome ℕ × Pipe)
      → Waker
      → Pipe
      → WriteState r
      → List ℕ
      → ℕ
      → Outcome ℕ × Pipe
  unfolding lock_then_flush push_then
  write_round again k p WriteState.buffering buf wrote = elim (PacketBuffer.is_full p.buffer) [
    | true ↦
        lock_then_flush (λ p'. push_then again p' buf wrote 0) k p wrote
          (PollMutex.poll_lock r p.write_lock k p.world)
    | false ↦ push_then again p buf wrote 0
  ]
  write_round again k p (WriteState.flushing g written) buf wrote =
      let flush = λ (rest : List ℕ) (count : ℕ) (p' : Pipe).
        after_flush (again rest count) p' g count
          (flush_buf r k p'.buffer g (u32_limit r) written p'.world) in
      elim (PacketBuffer.must_flush_for p.buffer written) [
        | true ↦ flush buf wrote p
        | false ↦ push_then flush p buf wrote written
      ]

  unfoldable pub write_loop : ℕ → Waker → List ℕ → ℕ → Pipe → Outcome ℕ × Pipe
  unfolding write_round
  write_loop fuel k [] wrote p = (returns (ready (ok wrote)), p)
  write_loop zero k (x ∷ xs) wrote p = (exhausted, p)
  write_loop (suc fuel) k (x ∷ xs) wrote p =
      write_round (λ buf count p'. write_loop fuel k buf count p') k p p.state (x ∷ xs) wrote
