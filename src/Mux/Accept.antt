-- ===== src/Mux/Accept.antt =====
-- src/lib.rs: how a poll of `MuxListener::accept` ends.
use vt_muxer.Common.{ℕ, ◌≡◌, ◌<◌, refl, ap, ◌∙◌, true, Option, none, some, List, length, arith}
use vt_muxer.Common.Poll.{Poll, ready, pending, ok, err, ErrorKind}
use vt_muxer.ThinAddr.{SocketAddr}
use vt_muxer.Runtime.{Runtime}
use vt_muxer.PacketBuffer
use vt_muxer.Construct.{box_new}
use vt_muxer.Write.State
use vt_muxer.Write.State.{
  Outcome, returns, panicked, exhausted, WriteInner, WritePipeState, WriteState,
}
use vt_muxer.Write.Opened.{init-empty}
use vt_muxer.Read.Shared.{Source, LockedReaderState}
use vt_muxer.Read.Poll as ReadPoll
use vt_muxer.Read.Entries.{IsSource}
use vt_muxer.Read.Valid.{IsShared, work}
use vt_muxer.Read.Loop.{Returned, poll-Returned}
use vt_muxer.Mux
use vt_muxer.Mux.{Split, Link, MuxConnection, addr, make_writer}
use vt_muxer.Mux.Listen.{MuxListener, from_reader, after_recv, poll_accept}

module _ (w : Runtime) (s : Source) (t : Split w s) (stream : s.World → List ℕ) where
  open t use {TcpStream, Receiver, RecvFut, bounded, recv_async, poll_recv, drop_future}

  -- The channel takes nothing from the stream.
  pub record IsSplit : Type 0 where
    pub recv_quiet : (c : Receiver) (x : s.World) → stream (recv_async c x).1 ≡ stream x
    pub poll_quiet :
        (f : RecvFut) (k : s.Waker) (x : s.World) → stream (poll_recv f k x).2 ≡ stream x
    pub drop_quiet : (f : RecvFut) (x : s.World) → stream (drop_future f x) ≡ stream x

  -- A connection for what was received: it buffers, with nothing written.
  pub record Accepted (o : Poll (Option (SocketAddr × ℕ))) (c : MuxConnection w s) : Type 0 where
    pub peer : SocketAddr
    pub received : o ≡ ready (some (peer, c.read))
    pub same_addr : addr w s c ≡ peer
    pub buffers : c.write.state ≡ WritePipeState.writing w.noop WriteState.buffering
    pub nothing_written : PacketBuffer.is_empty c.write.buffer ≡ true

  -- What the poll of the receiver has to do with the end of `accept`.
  abbrev pub Ended :
      Link w s
      → Poll (Option (SocketAddr × ℕ))
      → Outcome (MuxConnection w s)
      → Option RecvFut
      → Link w s
      → Type 0
  Ended n o (returns (ready (ok c))) rest n' =
      Accepted o c
      × (n'.shared.socket_map ≡ n.shared.socket_map)
      × (n'.shared.entries ≡ n.shared.entries)
      × (stream n'.shared.world ≡ stream n.shared.world)
      × (rest ≡ none)
  Ended n o (returns (ready (err e))) rest n' = (o ≡ pending) × (rest ≡ none)
  Ended n o (returns pending) rest n' = (o ≡ pending) × ((f : RecvFut) × (rest ≡ some f))
  Ended n o panicked rest n' = o ≡ ready none
  Ended n o exhausted rest n' = ⊥

  abbrev pub Polled :
      Link w s
      → Poll (Option (SocketAddr × ℕ))
      → Outcome (MuxConnection w s) × Option RecvFut × Link w s
      → Type 0
  Polled n o (p, rest, n') = Ended n o p rest n' × (n'.wire ≡ n.wire) × IsShared s stream n'.shared

  -- The world may change, as long as it keeps the stream.
  moved-IsShared :
      (l : LockedReaderState s) (x : s.World)
      → IsShared s stream l
      → IsShared s stream (record l { world = x })
  moved-IsShared l x v = record {
    buffers = v.buffers;
    known = v.known;
    state_valid = v.state_valid;
  }

  from_reader-Polled :
      (n : Link w s) (f : RecvFut) (p : Option (Poll ErrorKind) × LockedReaderState s)
      → Returned s stream p
      → Polled n pending (from_reader w s t f n.wire p)
  unfolding from_reader
  from_reader-Polled n f (some (ready e), l) v =
      ((refl, refl), refl, moved-IsShared l (drop_future f l.world) v)
  from_reader-Polled n f (some pending, l) v = ((refl, (f, refl)), refl, v)
  from_reader-Polled n f (none, l) v = absurd v

  module _ (laws : IsSplit) (src : IsSource s stream) (m : MuxListener w s t) (array : List ℕ)
      (fuel : ℕ) (k : s.Waker) (n : Link w s) (v : IsShared s stream n.shared)
      (enough : work s stream n.shared < fuel) where
    after_recv-Polled :
        (o : Poll (Option (SocketAddr × ℕ))) (f : RecvFut) (x : s.World)
        → stream x ≡ stream n.shared.world
        → Polled n o (after_recv w s t m array fuel k n (o, f, x))
    unfolding after_recv make_writer box_new addr Mux.new State.addr State.init PacketBuffer.addr
        PacketBuffer.init
    after_recv-Polled (ready (some (a, i))) f x quiet = (
      (
        record {
          peer = a;
          received = refl;
          same_addr = refl;
          buffers = refl;
          nothing_written = init-empty array a;
        },
        refl,
        refl,
        laws.drop_quiet f x ∙ quiet,
        refl,
      ),
      refl,
      moved-IsShared n.shared (drop_future f x) v,
    )
    after_recv-Polled (ready none) f x quiet =
        (refl, refl, moved-IsShared n.shared (drop_future f x) v)
    after_recv-Polled pending f x quiet =
        from_reader-Polled n f (ReadPoll.poll s fuel (record n.shared { world = x }) k) (
          poll-Returned s stream src fuel (record n.shared { world = x }) k
            (moved-IsShared n.shared x v) (omega (arith, enough, ap length quiet)))

    -- A poll of `MuxListener::accept` on a valid shared reader, over a stream and a channel that keep
    -- their contracts, ends when the shared reader has fuel for its work. It gives a connection just
    -- when the channel has one for it: for the address and the entry received, with a writing side
    -- that buffers an empty packet; the map and the entries are as they were, and nothing is taken
    -- from the stream. It fails or waits only if the channel waits, and panics only if the channel is
    -- closed. In each case nothing is sent, the shared reader is valid, and the future of the channel
    -- is kept just while `accept` waits.
    pub poll_accept-Polled :
        (f : RecvFut)
        → Polled n (poll_recv f k n.shared.world).0 (poll_accept w s t m array fuel k f n)
    unfolding poll_accept
    poll_accept-Polled f =
        let (o, f', x) = poll_recv f k n.shared.world in
        after_recv-Polled o f' x (laws.poll_quiet f k n.shared.world)
