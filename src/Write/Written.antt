-- ===== src/Write/Written.antt =====
-- src/write.rs: `poll_write` of a connection, on every branch.
use vt_muxer.Common.{
  ℕ, ◌+◌, ◌*◌, ◌<◌, ◌≤◌, ◌≡◌, refl, ap, ◌⊎◌, inl, inr, true, List, [], ◌++◌, arith, length, take,
  subst,
}
use vt_muxer.Common.Bytes.{AreBytes}
use vt_muxer.Common.Poll.{ready, pending, ok, err}
use vt_muxer.ThinAddr.{SocketAddr}
use vt_muxer.PacketBuffer
use vt_muxer.PacketBuffer.{PacketBuffer, IsPacket}
use vt_muxer.Runtime.{Runtime, IsRuntime}
use vt_muxer.Write.State.{
  Outcome, returns, panicked, exhausted, WriteState, WritePipeState, WriteInner,
}
use vt_muxer.Write.Step.{Pipe, write_loop}
use vt_muxer.Write.Poll.{leave, while_writing, poll_write}
use vt_muxer.Write.Stream.{Streams}
use vt_muxer.Write.Ended.{count, Busy, Waits, WriteEnded}
use vt_muxer.Write.Accept.{tick, write_loop-Ended}

module _ (r : Runtime) where
  open r use {World, Guard, Waker, sent}

  -- A connection that is writing, with everything it has accepted on the wire or in its packet.
  pub record IsWriting (base accepted : List ℕ) (a : SocketAddr) (i : WriteInner r) (w : World)
      : Type 0 where
    pub waker : Waker
    pub phase : WriteState r
    pub is_writing : i.state ≡ WritePipeState.writing waker phase
    pub streams : Streams base accepted a i.buffer (count r phase) (sent w)
    pub busy : Busy r phase i.buffer

  -- What `poll_write` of the slice `buf` may do.
  abbrev pub Written :
      List ℕ → List ℕ → SocketAddr → List ℕ → Outcome ℕ → WriteInner r → World → Type 0
  Written base accepted a buf (returns (ready (ok n))) i w =
      (n ≤ length buf) × (n ≡ 0 → buf ≡ []) × IsWriting base (accepted ++ take n buf) a i w
  Written base accepted a buf (returns (ready (err e))) i w =
      (k : Waker) × (i.state ≡ WritePipeState.writing k WriteState.buffering)
  Written base accepted a buf (returns pending) i w =
      (m : ℕ) × (m ≤ length buf)
      × ((m ≡ 0) ⊎ (PacketBuffer.is_full i.buffer ≡ true))
      × IsWriting base (accepted ++ take m buf) a i w
  Written base accepted a buf panicked i w = ⊥
  Written base accepted a buf exhausted i w = ⊥

  leave-Written :
      (base accepted : List ℕ) (a : SocketAddr) (buf : List ℕ) (i : WriteInner r) (k : Waker)
      (o : Outcome ℕ) (p : Pipe r)
      → WriteEnded r base accepted a buf 0 o p
      → let (o', i', w') = leave r i k (o, p) in Written base accepted a buf o' i' w'
  unfolding leave
  leave-Written base accepted a buf i k (returns (ready (ok n))) p (m, le, e, z, s) =
      let same : m ≡ n = omega arith in
      (
        omega arith,
        z,
        record {
          waker = k;
          phase = p.state;
          is_writing = refl;
          streams =
              subst
                (λ j.
                  Streams base (accepted ++ take j buf) a p.buffer (count r p.state) (sent p.world))
                same s.streams;
          busy = s.busy;
        },
      )
  leave-Written base accepted a buf i k (returns (ready (err e))) p s =
      (k, ap (WritePipeState.writing k) s)
  leave-Written base accepted a buf i k (returns pending) p (m, le, waits, s) = (
    m,
    le,
    why waits,
    record { waker = k; phase = p.state; is_writing = refl; streams = s.streams; busy = s.busy },
  )
    where
      why : Waits r 0 m p → (m ≡ 0) ⊎ (PacketBuffer.is_full p.buffer ≡ true)
      why (inl (x, y)) = inl y
      why (inr (x, y)) = inr y
  leave-Written base accepted a buf i k panicked p s = s
  leave-Written base accepted a buf i k exhausted p s = s

  -- `poll_write` on a connection that is writing, with any slice of bytes, ends without a panic. If
  -- it answers `n`, the first `n` bytes of the slice, and nothing else, have been added to what the
  -- connection streams, and `n` is 0 only for the empty slice. If it answers `Pending`, some first
  -- bytes have been added: none, unless the packet is full. If it fails, it has given the lock up.
  pub poll_write-Written :
      IsRuntime r
      → (base accepted : List ℕ) (a : SocketAddr) (buf : List ℕ) (i : WriteInner r) (k : Waker)
        (w : World)
      → IsWriting base accepted a i w
      → AreBytes buf
      → let (o, i', w') = poll_write r i k buf w in Written base accepted a buf o i' w'
  unfolding poll_write while_writing
  poll_write-Written laws base accepted a buf i k w v hs =
      let p : Pipe r = record {
        write_lock = i.write_lock;
        state = v.phase;
        buffer = i.buffer;
        world = w;
      } in
      let out = write_loop r (2 * length buf + 2) k buf 0 p in
      rw (v.is_writing, poll_write)
        (leave-Written base accepted a buf i k out.0 out.1 (
          write_loop-Ended r laws base a (2 * length buf + 2) k accepted buf 0 p
            (record { streams = v.streams; busy = v.busy }) hs (enough v.phase)))
    where
      enough : (s : WriteState r) → 2 * length buf + tick r laws base a s < 2 * length buf + 2
      enough WriteState.buffering = omega arith
      enough (WriteState.flushing g n) = omega arith
