-- ===== src/Mux.antt =====
-- src/lib.rs: connections, pipes and listeners over one TCP stream.
pub mod Accept
pub mod Carried
pub mod Connect
pub mod Listen
pub mod Sides
mod CarriedTests
mod Tests
use vt_muxer.Common.{ℕ, Option, none, some, List}
use vt_muxer.Common.Poll.{Poll, ready, pending, IoResult, ok, err, ErrorKind}
use vt_muxer.ThinAddr.{SocketAddr}
use vt_muxer.ReadBuffer.{ReadBuf}
use vt_muxer.Runtime.{Runtime}
use vt_muxer.PollMutex
use vt_muxer.PollMutex.{PollMutex}
use vt_muxer.Construct.{box_new, write_construct}
use vt_muxer.Write.State
use vt_muxer.Write.State.{Outcome, returns, panicked, exhausted, WriteInner, handshake}
use vt_muxer.Write.Poll as WritePoll
use vt_muxer.Write.Shutdown
use vt_muxer.Write.Drop.{drop_inner}
use vt_muxer.Read.Shared
use vt_muxer.Read.Shared.{Source, ReaderEntry, LockedReaderState, put_entry}
use vt_muxer.Read.Poll as ReadPoll
use vt_muxer.Read.Inner

-- What src/lib.rs uses of tokio and flume to take a TCP stream apart: the halves, the mutex around
-- the writing one, a channel and its receiver.
pub record Split (w : Runtime) (s : Source) : Type 1 where
  pub TcpStream : Type 0
  pub Receiver : Type 0
  pub RecvFut : Type 0
  -- `into_split`, with a `BufReader` around the reading half and a mutex around the other.
  pub into_split : TcpStream → s.World × w.Mutex × w.World
  -- `flume::bounded`, the receiver dropped, with the entries of the connections that stood in the
  -- queue, `recv_async`, a poll of its future, and that dropped.
  pub bounded : ℕ → s.World → Receiver × s.World
  pub drop_receiver : Receiver → s.World → List ℕ × s.World
  pub recv_async : Receiver → s.World → RecvFut × s.World
  pub poll_recv : RecvFut → s.Waker → s.World → Poll (Option (SocketAddr × ℕ)) × RecvFut × s.World
  pub drop_future : RecvFut → s.World → s.World

module _ (w : Runtime) (s : Source) where
  -- Both sides of the TCP stream: the shared reader, and the world of the writer.
  pub record Link : Type 0 where
    pub shared : LockedReaderState s
    pub wire : w.World

  -- `read` is the entry that the `ReaderInner` holds; the shared reader it also holds is the link's.
  pub record MuxConnection : Type 0 where
    pub write : WriteInner w
    pub read : ℕ

  -- The shared reader that the pipe holds is the link's.
  pub record MuxPipe : Type 0 where
    pub write : w.Mutex

  unfoldable pub new : WriteInner w → ℕ → MuxConnection
  new write read = record { write = write; read = read }

  unfoldable pub addr : MuxConnection → SocketAddr
  addr c = State.addr w c.write

  -- The answer of a method of `WriteInner`, with the connection and the link behind it.
  unfoldable pub with_write {ℓ} :
      {A : Type ℓ}
      → MuxConnection
      → Link
      → Outcome A × WriteInner w × w.World
      → Outcome A × MuxConnection × Link
  with_write c n (o, i, x) = (o, record c { write = i }, record n { wire = x })

  unfoldable pub poll_write :
      MuxConnection → w.Waker → List ℕ → Link → Outcome ℕ × MuxConnection × Link
  unfolding with_write
  poll_write c k buf n = with_write c n (WritePoll.poll_write w c.write k buf n.wire)

  unfoldable pub poll_flush :
      MuxConnection → w.Waker → Link → Outcome (Unit {0}) × MuxConnection × Link
  unfolding with_write
  poll_flush c k n = with_write c n (WritePoll.flush w c.write k n.wire)

  unfoldable pub poll_shutdown :
      MuxConnection → w.Waker → Link → Outcome (Unit {0}) × MuxConnection × Link
  unfolding with_write
  poll_shutdown c k n = with_write c n (Shutdown.poll_shutdown w c.write k n.wire)

  -- The entry that a connection holds is there; `none` is also the shared reader out of fuel.
  unfoldable pub poll_read :
      (t : ReadBuf)
      → ℕ
      → MuxConnection
      → s.Waker
      → t.Buf
      → Link
      → Option (Poll (IoResult (Unit {0}))) × t.Buf × Link
  poll_read t fuel c k o n = elim (n.shared.entries c.read) [
    | none ↦ (none, o, n)
    | some e ↦
        let (ans, l, o') = Inner.poll_read s t fuel n.shared k c.read e o in
        (ans, o', record n { shared = l })
  ]

  -- `Drop` of a connection: the writing side closes itself, and the last `Arc` of the entry goes.
  unfoldable pub drop_connection : MuxConnection → Link → Link
  drop_connection c n = record {
    shared = record n.shared { entries = put_entry s n.shared.entries c.read none };
    wire = drop_inner w c.write n.wire;
  }

  -- `make_writer`, in memory that holds `array`.
  unfoldable pub make_writer : MuxPipe → List ℕ → SocketAddr → WriteInner w
  unfolding box_new
  make_writer p array a = box_new (write_construct w) array (a, PollMutex.new w p.write)

  -- Behind the handshake of a connection that was added. On a failure both sides are dropped.
  unfoldable pub after_handshake :
      ℕ
      → LockedReaderState s
      → Outcome (Unit {0}) × WriteInner w × w.World
      → Outcome MuxConnection × Link
  unfolding new drop_connection
  after_handshake i l (returns (ready (ok _)), writer, x) =
      (returns (ready (ok (new writer i))), record { shared = l; wire = x })
  after_handshake i l (returns (ready (err e)), writer, x) =
      (returns (ready (err e)), drop_connection (new writer i) (record { shared = l; wire = x }))
  after_handshake i l (returns pending, writer, x) =
      (returns pending, record { shared = l; wire = x })
  after_handshake i l (panicked, writer, x) =
      (panicked, drop_connection (new writer i) (record { shared = l; wire = x }))
  after_handshake i l (exhausted, writer, x) = (exhausted, record { shared = l; wire = x })

  unfoldable pub after_reader :
      MuxPipe
      → List ℕ
      → SocketAddr
      → w.World
      → IoResult ℕ × LockedReaderState s
      → Outcome MuxConnection × Link
  unfolding after_handshake make_writer
  after_reader p array a x (ok i, l) = after_handshake i l (handshake w (make_writer p array a) x)
  after_reader p array a x (err e, l) = (returns (ready (err e)), record { shared = l; wire = x })

  -- `MuxPipe::add_connection`, awaited to its end.
  unfoldable pub add_connection :
      MuxPipe → List ℕ → SocketAddr → Link → Outcome MuxConnection × Link
  unfolding after_reader
  add_connection p array a n = after_reader p array a n.wire (Shared.add_connection s n.shared a)
