-- ===== src/Write/Drop.antt =====
-- src/write.rs: `Drop for WriteInner`: the task that is spawned for a connection that was not shut
-- down.
use vt_muxer.Common.{ℕ, zero, suc, Option, none, some, List}
use vt_muxer.Common.Poll.{IoResult, ok, err}
use vt_muxer.ThinAddr.{SocketAddr}
use vt_muxer.Protocol
use vt_muxer.PacketBuffer
use vt_muxer.PacketBuffer.{PacketBuffer}
use vt_muxer.Runtime.{Runtime}
use vt_muxer.PollMutex
use vt_muxer.PollMutex.{PollMutex}
use vt_muxer.Write.State.{ShutDownState, WriteState, WritePipeState, WriteInner}

module _ (r : Runtime) where
  open r use {World, Guard, unlock, write_all}

  -- `writer`: a token to lock with later, the lock of a packet of which nothing was sent, or the
  -- lock with the rest of a packet. `nothing` is the early return, `releases` the early return of a
  -- shutdown that holds the lock, `panics` a slice out of range, where the guard is dropped too.
  pub data DropJob : Type 0 where
    nothing : DropJob
    releases : Guard → DropJob
    panics : Guard → DropJob
    late : PollMutex r → DropJob
    early : Guard → DropJob
    rest : Guard → List ℕ → DropJob

  unfoldable pub rest_of : Guard → Option (List ℕ) → DropJob
  rest_of g (some bytes) = rest g bytes
  rest_of g none = panics g

  -- A shutdown that is dropped lets its lock go.
  unfoldable pub closing_job : ShutDownState r → DropJob
  closing_job ShutDownState.waiting_lock = nothing
  closing_job (ShutDownState.flushing g n) = releases g
  closing_job (ShutDownState.writing g n) = releases g
  closing_job ShutDownState.done = nothing
  closing_job ShutDownState.error = nothing

  unfoldable pub drop_job : WriteInner r → WritePipeState r → DropJob
  unfolding rest_of closing_job
  drop_job i WritePipeState.poisoned = nothing
  drop_job i (WritePipeState.shutdown s) = closing_job s
  drop_job i (WritePipeState.writing k WriteState.buffering) =
      late (PollMutex.take_token r i.write_lock).1
  drop_job i (WritePipeState.writing k (WriteState.flushing g zero)) = early g
  drop_job i (WritePipeState.writing k (WriteState.flushing g (suc n))) =
      rest_of g (PacketBuffer.bytes_from i.buffer (suc n))

  -- The closing header and the end of the task, which drops the guard; the result of the write is
  -- ignored.
  unfoldable pub send_eof : SocketAddr → Guard → World → World
  send_eof socket g w = unlock g (write_all g (Protocol.header_bytes (Protocol.empty socket)) w).1

  -- After the rest of a packet; a failure ends the task.
  unfoldable pub after_rest : SocketAddr → Guard → IoResult (Unit {0}) × World → World
  unfolding send_eof
  after_rest socket g (ok _, w) = send_eof socket g w
  after_rest socket g (err e, w) = unlock g w

  -- The future that is spawned, run to its end.
  unfoldable pub run_job : SocketAddr → DropJob → World → World
  unfolding after_rest
  run_job socket nothing w = w
  run_job socket (releases g) w = unlock g w
  run_job socket (panics g) w = unlock g w
  run_job socket (late m) w =
      let (g, m', w') = PollMutex.lock r m w in send_eof socket (PollMutex.deref r g) w'
  run_job socket (early g) w = send_eof socket g w
  run_job socket (rest g bytes) w = after_rest socket g (write_all g bytes w)

  unfoldable pub drop_inner : WriteInner r → World → World
  unfolding drop_job run_job
  drop_inner i w = run_job (PacketBuffer.addr i.buffer) (drop_job i i.state) w
