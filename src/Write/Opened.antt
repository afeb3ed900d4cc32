-- ===== src/Write/Opened.antt =====
-- src/write.rs: a new connection and its handshake.
use vt_muxer.Common.{
  ℕ, ◌≡◌, refl, sym, ap, ap₂, ◌∙◌, subst, true, List, [], ◌++◌, arith, length, take, append-nil,
}
use vt_muxer.Common.Bytes.{AreBytes}
use vt_muxer.Common.Poll.{ready, pending, IoResult, ok, err}
use vt_muxer.Integers.RoundTrip.{get-new, new-IsU16}
use vt_muxer.ThinAddr.{SocketAddr, IsSocket}
use vt_muxer.Protocol
use vt_muxer.PacketBuffer
use vt_muxer.PacketBuffer.{PacketBuffer, IsPacket}
use vt_muxer.PacketBuffer.Content.{payload}
use vt_muxer.Runtime.{Runtime, IsRuntime}
use vt_muxer.PollMutex
use vt_muxer.PollMutex.{PollMutex}
use vt_muxer.PollMutex.Queue.{lock_quiet}
use vt_muxer.Write.State.{
  Outcome, returns, panicked, exhausted, WriteState, WritePipeState, WriteInner, init, is_buffering,
  greet, handshake,
}
use vt_muxer.Write.Stream.{Streams, frames, joined}
use vt_muxer.Write.Written.{IsWriting}
use vt_muxer.Write.Closed.{bytes_empty}

-- A new packet is valid and empty, whatever its array holds.
init-IsPacket :
    (array : List ℕ) (a : SocketAddr)
    → length array ≡ 65535
    → AreBytes array
    → IsSocket a
    → IsPacket (PacketBuffer.init array a)
unfolding PacketBuffer.init
init-IsPacket array a size bytes v = record {
  addr_valid = v;
  len_valid = new-IsU16 0;
  array_size = size;
  array_bytes = bytes;
}

init-size :
    (array : List ℕ) (a : SocketAddr) → PacketBuffer.packet_size (PacketBuffer.init array a) ≡ 0
unfolding PacketBuffer.init PacketBuffer.packet_size
init-size array a = get-new 0 (omega arith)

pub init-empty :
    (array : List ℕ) (a : SocketAddr) → PacketBuffer.is_empty (PacketBuffer.init array a) ≡ true
unfolding PacketBuffer.is_empty
init-empty array a = rw (init-size array a)

init-payload : (array : List ℕ) (a : SocketAddr) → payload (PacketBuffer.init array a) ≡ []
unfolding PacketBuffer.init
init-payload array a = ap (λ n. take n array) (get-new 0 (omega arith))

init-addr : (array : List ℕ) (a : SocketAddr) → (PacketBuffer.init array a).socket_addr ≡ a
unfolding PacketBuffer.init
init-addr array a = refl

init-Streams :
    (base array : List ℕ) (a : SocketAddr)
    → IsPacket (PacketBuffer.init array a)
    → Streams base [] a (PacketBuffer.init array a) 0 base
unfolding frames joined
init-Streams base array a v = record {
  valid = v;
  addr = init-addr array a;
  mark = omega arith;
  chunks = [];
  chunks_valid = tt;
  on_wire = sym (append-nil (base ++ []) ∙ append-nil base);
  carried = sym (init-payload array a);
}

module _ (r : Runtime) where
  open r use {World, sent, write_all}

  -- The handshake of a new connection.
  abbrev pub Greeted : List ℕ → SocketAddr → Outcome (Unit {0}) → WriteInner r → World → Type 0
  Greeted before a (returns (ready (ok _))) i w =
      IsWriting r (before ++ Protocol.header_bytes (Protocol.empty a)) [] a i w
      × (sent w ≡ before ++ Protocol.header_bytes (Protocol.empty a))
  Greeted before a (returns (ready (err e))) i w =
      i.state ≡ WritePipeState.writing r.noop WriteState.buffering
  Greeted before a (returns pending) i w = ⊥
  Greeted before a panicked i w = ⊥
  Greeted before a exhausted i w = ⊥

  module _ (laws : IsRuntime r) (array : List ℕ) (a : SocketAddr) (lock : PollMutex r)
      (size : length array ≡ 65535) (bytes : AreBytes array) (valid : IsSocket a) where
    greeting :
        PacketBuffer.bytes (PacketBuffer.init array a) ≡ Protocol.header_bytes (Protocol.empty a)
    greeting =
        bytes_empty (init-IsPacket array a size bytes valid) (init-size array a)
        ∙ ap (λ x. Protocol.header_bytes (Protocol.empty x)) (init-addr array a)

    -- The state behind the handshake, from what the write of the header answered.
    greeted :
        (m : PollMutex r) (before : List ℕ) (res : IoResult (Unit {0})) (w : World)
        → (res ≡ ok tt → sent w ≡ before ++ Protocol.header_bytes (Protocol.empty a))
        → Greeted before a (returns (ready res)) (record (init r array a lock) { write_lock = m }) w
    unfolding init
    greeted m before (ok _) w e = (
      record {
        waker = r.noop;
        phase = WriteState.buffering;
        is_writing = refl;
        streams =
            subst
              (Streams (before ++ Protocol.header_bytes (Protocol.empty a)) [] a
                (PacketBuffer.init array a) 0)
              (sym (e refl))
              (init-Streams (before ++ Protocol.header_bytes (Protocol.empty a)) array a
                (init-IsPacket array a size bytes valid));
        busy = tt;
      },
      e refl,
    )
    greeted m before (err e') w e = refl

    -- The handshake of a new connection, awaited to its end, whatever its packet's array holds,
    -- does not panic. If it succeeds, it has sent the empty header of the connection's address, and
    -- the connection is writing, with nothing accepted yet. If it fails, the connection still
    -- buffers.
    pub handshake-Greeted :
        (w : World)
        → let (o, i, w') = handshake r (init r array a lock) w in Greeted (sent w) a o i w'
    unfolding handshake is_buffering greet init
    handshake-Greeted w =
        let locked = PollMutex.lock r lock w in
        let g = PollMutex.deref r locked.0 in
        let written = write_all g (PacketBuffer.bytes (PacketBuffer.init array a)) locked.2 in
        rw (init-empty array a, handshake)
          (greeted locked.1 (sent w) written.0 (r.unlock g written.1) (λ fine.
            laws.unlock_quiet g written.1
            ∙ laws.write_all_ok g (PacketBuffer.bytes (PacketBuffer.init array a)) locked.2
                written.1 (λ j. (fine j, written.1))
            ∙ ap₂ ◌++◌ (lock_quiet r laws lock w) greeting))
