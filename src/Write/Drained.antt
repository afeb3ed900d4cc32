-- ===== src/Write/Drained.antt =====
-- src/write.rs: what is on the wire when `poll_flush` of a connection answers.
use vt_muxer.Common.{ℕ, ◌≡◌, refl, ap, ◌∙◌, List, [], ◌∷◌, ◌++◌, arith, length, append-nil}
use vt_muxer.Common.Poll.{ready, pending, ok, err}
use vt_muxer.ThinAddr.{SocketAddr}
use vt_muxer.PacketBuffer
use vt_muxer.PacketBuffer.{PacketBuffer, IsPacket}
use vt_muxer.PacketBuffer.Content.{payload, length-payload}
use vt_muxer.Runtime.{Runtime, IsRuntime}
use vt_muxer.Write.State.{
  Outcome, returns, panicked, exhausted, WriteState, WritePipeState, WriteInner,
}
use vt_muxer.Write.Step.{Pipe}
use vt_muxer.Write.Poll.{leave, while_writing, flush_pipe, flush}
use vt_muxer.Write.Stream.{Streams, frames, joined, AreChunks}
use vt_muxer.Write.Written.{IsWriting}
use vt_muxer.Write.Settled.{IsPrompt, PipeFlushed, flush_pipe-Flushed}

-- Everything accepted is on the wire, after `base`, in whole frames of the connection.
pub record AllOut (base accepted : List ℕ) (a : SocketAddr) (out : List ℕ) : Type 0 where
  pub chunks : List (List ℕ)
  pub chunks_valid : AreChunks chunks
  pub on_wire : out ≡ base ++ frames a chunks
  pub carried : accepted ≡ joined chunks

pub nil_of_length : (xs : List ℕ) → length xs ≡ 0 → xs ≡ []
nil_of_length [] h = refl
nil_of_length (x ∷ xs) h = absurd (omega arith)

-- Nothing accepted is left in a packet without payload.
pub all_carried :
    {accepted : List ℕ} {b : PacketBuffer} (chunks : List (List ℕ))
    → IsPacket b
    → PacketBuffer.packet_size b ≡ 0
    → accepted ≡ joined chunks ++ payload b
    → accepted ≡ joined chunks
all_carried {b = b} chunks v none_left e =
    e
    ∙ ap (◌++◌ (joined chunks)) (nil_of_length (payload b) (omega (arith, length-payload v)))
    ∙ append-nil (joined chunks)

Streams-AllOut :
    {base accepted : List ℕ} {a : SocketAddr} {b : PacketBuffer} {out : List ℕ}
    → PacketBuffer.packet_size b ≡ 0
    → Streams base accepted a b 0 out
    → AllOut base accepted a out
Streams-AllOut {b = b} none_left s = record {
  chunks = s.chunks;
  chunks_valid = s.chunks_valid;
  on_wire = s.on_wire ∙ append-nil _;
  carried = all_carried s.chunks s.valid none_left s.carried;
}

module _ (r : Runtime) where
  open r use {World, Waker, sent}

  abbrev pub FlushEnded :
      List ℕ → List ℕ → SocketAddr → Outcome (Unit {0}) → WriteInner r → World → Type 0
  FlushEnded base accepted a (returns (ready (ok _))) i w =
      ((k : Waker) × (i.state ≡ WritePipeState.writing k WriteState.buffering))
      × IsWriting r base accepted a i w
      × AllOut base accepted a (sent w)
  FlushEnded base accepted a (returns (ready (err e))) i w =
      (k : Waker) × (i.state ≡ WritePipeState.writing k WriteState.buffering)
  FlushEnded base accepted a (returns pending) i w = IsWriting r base accepted a i w
  FlushEnded base accepted a panicked i w = ⊥
  FlushEnded base accepted a exhausted i w = ⊥

  leave-FlushEnded :
      (base accepted : List ℕ) (a : SocketAddr) (i : WriteInner r) (k : Waker)
      (o : Outcome (Unit {0})) (p : Pipe r)
      → PipeFlushed r base accepted a o p
      → let (o', i', w') = leave r i k (o, p) in FlushEnded base accepted a o' i' w'
  unfolding leave
  leave-FlushEnded base accepted a i k (returns (ready (ok _))) p (e, none_left, s) = (
    (k, ap (WritePipeState.writing k) e),
    record {
      waker = k;
      phase = WriteState.buffering;
      is_writing = ap (WritePipeState.writing k) e;
      streams = s;
      busy = tt;
    },
    Streams-AllOut none_left s,
  )
  leave-FlushEnded base accepted a i k (returns (ready (err e))) p s =
      (k, ap (WritePipeState.writing k) s)
  leave-FlushEnded base accepted a i k (returns pending) p s = record {
    waker = k;
    phase = p.state;
    is_writing = refl;
    streams = s.streams;
    busy = s.busy;
  }
  leave-FlushEnded base accepted a i k panicked p s = s
  leave-FlushEnded base accepted a i k exhausted p s = s

  -- `poll_flush` of a connection that is writing, over a writer whose own flush has its result at
  -- once, ends without a panic. If it succeeds, every byte that was accepted is on the wire, in whole
  -- frames of the connection's address, none of them empty, and the lock is given up. If it answers
  -- `Pending`, the stream is as it was, some more of it sent. If it fails, the lock is given up.
  pub flush-FlushEnded :
      IsRuntime r
      → IsPrompt r
      → (base accepted : List ℕ) (a : SocketAddr) (i : WriteInner r) (k : Waker) (w : World)
      → IsWriting r base accepted a i w
      → let (o, i', w') = flush r i k w in FlushEnded base accepted a o i' w'
  unfolding flush while_writing
  flush-FlushEnded laws prompt base accepted a i k w v =
      let p : Pipe r = record {
        write_lock = i.write_lock;
        state = v.phase;
        buffer = i.buffer;
        world = w;
      } in
      let out = flush_pipe r k p in
      rw (v.is_writing, flush)
        (leave-FlushEnded base accepted a i k out.0 out.1
          (flush_pipe-Flushed r laws prompt base accepted a k p v.phase refl v.streams v.busy))
