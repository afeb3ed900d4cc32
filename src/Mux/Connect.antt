-- ===== src/Mux/Connect.antt =====
-- src/lib.rs: how `MuxPipe::add_connection` ends.
use vt_muxer.Common.{
  ℕ, ◌≡◌, refl, ◌⊎◌, inl, inr, Bool-cases, true, false, Option, none, some, List, [], ◌++◌, ◌==◌,
  length, arith,
}
use vt_muxer.Common.Bytes.{AreBytes}
use vt_muxer.Common.Poll.{ready, pending, IoResult, ok, err, ErrorKind}
use vt_muxer.ThinAddr.{SocketAddr, IsSocket}
use vt_muxer.Protocol
use vt_muxer.Runtime.{Runtime, IsRuntime}
use vt_muxer.PacketBuffer
use vt_muxer.PollMutex
use vt_muxer.Construct.{box_new}
use vt_muxer.Write.State
use vt_muxer.Write.State.{Outcome, returns, panicked, exhausted, WriteInner, handshake}
use vt_muxer.Write.Written.{IsWriting}
use vt_muxer.Write.Opened.{Greeted, handshake-Greeted}
use vt_muxer.Read.Shared
use vt_muxer.Read.Shared.{Source, LockedReaderState, lookup, insert_at, insert, put_entry}
use vt_muxer.Read.Entries.{IsSource, ValidAt}
use vt_muxer.Read.Dispatch.{table, Kept}
use vt_muxer.Read.Valid.{IsShared}
use vt_muxer.Read.Attach.{Added, Attached, add_connection-Attached}
use vt_muxer.Mux.{
  Link, MuxConnection, MuxPipe, new, addr, drop_connection, make_writer, after_handshake,
  after_reader, add_connection,
}

module _ (w : Runtime) (s : Source) (stream : s.World → List ℕ) where
  open w use {sent}

  -- The reader refused: nothing was made, and nothing was sent.
  abbrev pub Refused : Link w s → SocketAddr → ErrorKind → Link w s → Type 0
  Refused n a e n' =
      (n'.wire ≡ n.wire)
      × (n'.shared.socket_map ≡ n.shared.socket_map)
      × Kept s stream (table s stream n.shared) n'.shared
      × ((e ≡ ErrorKind.addr_in_use) × ((j : ℕ) × (lookup s n.shared.socket_map a ≡ some j))
          ⊎ (e ≡ ErrorKind.out_of_memory) × (lookup s n.shared.socket_map a ≡ none))

  -- The handshake failed: the new entry is gone, but its address is still in use.
  pub record Abandoned (n : Link w s) (a : SocketAddr) (n' : Link w s) : Type 0 where
    pub entry : ℕ
    pub was_vacant : lookup s n.shared.socket_map a ≡ none
    pub freed : n'.shared.entries entry ≡ none
    pub others : (j : ℕ) → (j == entry) ≡ false → n'.shared.entries j ≡ n.shared.entries j
    pub in_use : Shared.add_connection s n'.shared a ≡ (err ErrorKind.addr_in_use, n'.shared)

  abbrev pub Connected : Link w s → SocketAddr → Outcome (MuxConnection w s) → Link w s → Type 0
  Connected n a (returns (ready (ok c))) n' =
      Added s stream n.shared a c.read n'.shared
      × IsWriting w (sent n.wire ++ Protocol.header_bytes (Protocol.empty a)) [] a c.write n'.wire
      × (sent n'.wire ≡ sent n.wire ++ Protocol.header_bytes (Protocol.empty a))
      × (addr w s c ≡ a)
  Connected n a (returns (ready (err e))) n' = Refused n a e n' ⊎ Abandoned n a n'
  Connected n a (returns pending) n' = ⊥
  Connected n a panicked n' = ⊥
  Connected n a exhausted n' = ⊥

  -- What holds of the shared reader however it ends.
  abbrev pub Sound : Link w s → Link w s → Type 0
  Sound n n' = IsShared s stream n'.shared × (stream n'.shared.world ≡ stream n.shared.world)

  writing-addr :
      (base : List ℕ) (a : SocketAddr) (i : WriteInner w) (x : w.World) (j : ℕ)
      → IsWriting w base [] a i x
      → addr w s (new w s i j) ≡ a
  unfolding addr new State.addr PacketBuffer.addr
  writing-addr base a i x j v = v.streams.addr

  in_use-refused :
      (l : LockedReaderState s) (a : SocketAddr) (i : ℕ)
      → lookup s l.socket_map a ≡ some i
      → Shared.add_connection s l a ≡ (err ErrorKind.addr_in_use, l)
  unfolding Shared.add_connection insert insert_at
  in_use-refused l a i e = rw (e, insert_at) refl

  pub freed-ValidAt :
      (entries : ℕ → Option (Shared.ReaderEntry s)) (i : ℕ)
      → ((j : ℕ) → ValidAt s (entries j))
      → (j : ℕ) → ValidAt s (put_entry s entries i none j)
  unfolding put_entry
  freed-ValidAt entries i v j = elim (Bool-cases (j == i)) [
    | inl this ↦ rw (this, put_entry) tt
    | inr other ↦ rw (other, put_entry) (v j)
  ]

  -- A connection whose handshake failed is dropped with its entry.
  abandon :
      (n : Link w s) (a : SocketAddr) (i : ℕ) (l : LockedReaderState s) (writer : WriteInner w)
      (x : w.World)
      → Added s stream n.shared a i l
      → IsShared s stream l
      → let n' = drop_connection w s (new w s writer i) (record { shared = l; wire = x }) in
        Abandoned n a n' × IsShared s stream n'.shared
  unfolding drop_connection new put_entry
  abandon n a i l writer x m v = (
    record {
      entry = i;
      was_vacant = m.vacant;
      freed = rw (same i) refl;
      others = λ j h. rw (h) (m.others j h);
      in_use = in_use-refused freed a i m.mapped.here;
    },
    record {
      buffers = freed-ValidAt l.entries i v.buffers;
      known = v.known;
      state_valid = v.state_valid;
    },
  )
    where
      same : (j : ℕ) → (j == j) ≡ true
      same j = ground arith

      freed : LockedReaderState s
      freed = record l { entries = put_entry s l.entries i none }

  after_handshake-Connected :
      (n : Link w s) (a : SocketAddr) (i : ℕ) (l : LockedReaderState s) (o : Outcome (Unit {0}))
      (writer : WriteInner w) (x : w.World)
      → Added s stream n.shared a i l
      → IsShared s stream l
      → stream l.world ≡ stream n.shared.world
      → Greeted w (sent n.wire) a o writer x
      → let (p, n') = after_handshake w s i l (o, writer, x) in Connected n a p n' × Sound n n'
  unfolding after_handshake drop_connection
  after_handshake-Connected n a i l (returns (ready (ok _))) writer x m v quiet (g, e) =
      ((m, g, e, writing-addr (sent n.wire ++ _) a writer x i g), (v, quiet))
  after_handshake-Connected n a i l (returns (ready (err e))) writer x m v quiet g =
      let (gone, v') = abandon n a i l writer x m v in (inr gone, (v', quiet))
  after_handshake-Connected n a i l (returns pending) writer x m v quiet g = absurd g
  after_handshake-Connected n a i l panicked writer x m v quiet g = absurd g
  after_handshake-Connected n a i l exhausted writer x m v quiet g = absurd g

  module _ (laws : IsRuntime w) (p : MuxPipe w s) (array : List ℕ) (a : SocketAddr)
      (size : length array ≡ 65535) (array_bytes : AreBytes array) (valid : IsSocket a) where
    greeted :
        (x : w.World)
        → let (o, i, x') = handshake w (make_writer w s p array a) x in Greeted w (sent x) a o i x'
    unfolding make_writer box_new
    greeted x = handshake-Greeted w laws array a (PollMutex.new w p.write) size array_bytes valid x

    after_reader-Connected :
        (n : Link w s) (o : IoResult ℕ) (l : LockedReaderState s)
        → Attached s stream n.shared a o l
        → let (c, n') = after_reader w s p array a n.wire (o, l) in Connected n a c n' × Sound n n'
    unfolding after_reader
    after_reader-Connected n (ok i) l (m, v, kept, quiet) =
        let (o, writer, x) = handshake w (make_writer w s p array a) n.wire in
        after_handshake-Connected n a i l o writer x m v quiet (greeted n.wire)
    after_reader-Connected n (err e) l ((map, same, why), v, kept, quiet) =
        (inl (refl, map, same, why), (v, quiet))

    -- `MuxPipe::add_connection`, awaited to its end, on a valid shared reader, over a writer that
    -- keeps its contract, with an array of bytes of the size of a packet's and a valid address,
    -- does not panic. It succeeds with a connection of that address, whose entry is new and has
    -- nothing unread, and which has sent its empty header behind what was sent and accepted nothing
    -- yet. Or the reader refuses, for an address in use or for want of memory, and nothing is made
    -- or sent. Or the handshake fails: then the new entry is freed and the others are as they were,
    -- but the address stays in use, and the next `add_connection` of it is refused. The shared
    -- reader is valid in each case, and nothing is taken from its stream.
    pub add_connection-Connected :
        IsSource s stream
        → (n : Link w s) → IsShared s stream n.shared
        → let (o, n') = add_connection w s p array a n in Connected n a o n' × Sound n n'
    unfolding add_connection
    add_connection-Connected src n v =
        let (o, l) = Shared.add_connection s n.shared a in
        after_reader-Connected n o l (add_connection-Attached s stream src n.shared a v)
