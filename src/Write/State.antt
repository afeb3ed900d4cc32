-- ===== src/Write/State.antt =====
-- src/write.rs: the states of the writing side, how it starts, and its handshake.
use vt_muxer.Common.{ℕ, Bool, true, false, List}
use vt_muxer.Common.Poll.{Poll, IoResult}
use vt_muxer.ThinAddr.{SocketAddr}
use vt_muxer.PacketBuffer
use vt_muxer.PacketBuffer.{PacketBuffer}
use vt_muxer.Runtime.{Runtime}
use vt_muxer.PollMutex
use vt_muxer.PollMutex.{PollMutex}

-- How a polling function ends: it returns, or it panics. `exhausted` is the end of the fuel of a
-- loop of the model; the code has no such end.
pub data Outcome {ℓ} (A : Type ℓ) : Type ℓ where
  returns : Poll (IoResult A) → Outcome A
  panicked : Outcome A
  exhausted : Outcome A

module _ (r : Runtime) where
  open r use {World, Guard, Waker, noop, write_all}

  pub data ShutDownState : Type 0 where
    waiting_lock : ShutDownState
    flushing : Guard → ℕ → ShutDownState
    writing : Guard → ℕ → ShutDownState
    done : ShutDownState
    error : ShutDownState

  pub data WriteState : Type 0 where
    buffering : WriteState
    flushing : Guard → ℕ → WriteState

  pub data WritePipeState : Type 0 where
    poisoned : WritePipeState
    shutdown : ShutDownState → WritePipeState
    writing : Waker → WriteState → WritePipeState

  pub record WriteInner : Type 0 where
    pub write_lock : PollMutex r
    pub state : WritePipeState
    pub buffer : PacketBuffer

  -- `Construct::init`, over the array that the allocation holds.
  unfoldable pub init : List ℕ → SocketAddr → PollMutex r → WriteInner
  init array socket write = record {
    write_lock = write;
    state = WritePipeState.writing noop WriteState.buffering;
    buffer = PacketBuffer.init array socket;
  }

  unfoldable pub addr : WriteInner → SocketAddr
  addr i = PacketBuffer.addr i.buffer

  -- `matches!(self.state, WritePipeState::Writing(_, WriteState::Buffering))`.
  unfoldable pub is_buffering : WritePipeState → Bool
  is_buffering (WritePipeState.writing k WriteState.buffering) = true
  is_buffering (WritePipeState.writing k (WriteState.flushing g n)) = false
  is_buffering (WritePipeState.shutdown s) = false
  is_buffering WritePipeState.poisoned = false

  -- The lock, the bytes of the packet, and the guard dropped at the end.
  unfoldable pub greet : WriteInner → World → IoResult (Unit {0}) × WriteInner × World
  greet i w =
      let (g, m, w1) = PollMutex.lock r i.write_lock w in
      let (res, w2) = write_all (PollMutex.deref r g) (PacketBuffer.bytes i.buffer) w1 in
      (res, record i { write_lock = m }, r.unlock (PollMutex.deref r g) w2)

  -- The two assertions of `handshake` panic. The future is awaited to its end.
  unfoldable pub handshake : WriteInner → World → Outcome (Unit {0}) × WriteInner × World
  handshake i w = elim (is_buffering i.state) [
    | false ↦ (panicked, i, w)
    | true ↦ elim (PacketBuffer.is_empty i.buffer) [
      | false ↦ (panicked, i, w)
      | true ↦ let (res, i', w') = greet i w in (returns (Poll.ready res), i', w')
    ]
  ]
