-- ===== src/Mux/Listen.antt =====
-- src/lib.rs: `MuxListener`, and how a `MuxPipe` is made of one.
use vt_muxer.Common.{ℕ, Option, none, some, List, [], ◌∷◌}
use vt_muxer.Common.Poll.{Poll, ready, pending, ok, err, ErrorKind}
use vt_muxer.ThinAddr.{SocketAddr}
use vt_muxer.Runtime.{Runtime}
use vt_muxer.Write.State.{Outcome, returns, panicked, exhausted}
use vt_muxer.Read.Shared
use vt_muxer.Read.Shared.{Source, ReaderEntry, LockedReaderState, put_entry}
use vt_muxer.Read.Poll as ReadPoll
use vt_muxer.Mux
use vt_muxer.Mux.{Split, Link, MuxConnection, MuxPipe, make_writer}

module _ (w : Runtime) (s : Source) (t : Split w s) where
  open t use {
    TcpStream, Receiver, RecvFut, into_split, bounded, drop_receiver, recv_async, poll_recv,
    drop_future,
  }

  pub record MuxListener : Type 0 where
    pub pipe : MuxPipe w s
    pub receiver : Receiver

  unfoldable pub with_listener_capacity : TcpStream → ℕ → MuxListener × Link w s
  with_listener_capacity tcp capacity =
      let (reader, write, x) = into_split tcp in
      let (receiver, reader') = bounded capacity reader in
      (
        record { pipe = record { write = write }; receiver = receiver },
        record { shared = Shared.new s reader'; wire = x },
      )

  -- `MuxListener::new`.
  unfoldable pub new : TcpStream → MuxListener × Link w s
  unfolding with_listener_capacity
  new tcp = with_listener_capacity tcp 1

  unfoldable pub pipe : MuxListener → MuxPipe w s
  pipe m = m.pipe

  -- The last `Arc` of each of these entries goes.
  unfoldable pub free_all : (ℕ → Option (ReaderEntry s)) → List ℕ → ℕ → Option (ReaderEntry s)
  unfolding put_entry
  free_all entries [] = entries
  free_all entries (i ∷ rest) = free_all (put_entry s entries i none) rest

  -- Only the pipe is kept, so the receiver is dropped, and the connections that nobody has accepted.
  unfoldable pub into_pipe : MuxListener → Link w s → MuxPipe w s × Link w s
  unfolding free_all
  into_pipe m n =
      let (queued, x) = drop_receiver m.receiver n.shared.world in
      (
        m.pipe,
        record n {
          shared = record n.shared { entries = free_all n.shared.entries queued; world = x };
        },
      )

  -- `MuxPipe::new`.
  unfoldable pub new_pipe : TcpStream → MuxPipe w s × Link w s
  unfolding with_listener_capacity into_pipe
  new_pipe tcp = let (m, n) = with_listener_capacity tcp 0 in into_pipe m n

  unfoldable pub add_connection :
      MuxListener → List ℕ → SocketAddr → Link w s → Outcome (MuxConnection w s) × Link w s
  add_connection m array a n = Mux.add_connection w s m.pipe array a n

  -- The poll of the shared reader within `accept`, which only returns to fail or to wait.
  unfoldable pub from_reader :
      RecvFut
      → w.World
      → Option (Poll ErrorKind) × LockedReaderState s
      → Outcome (MuxConnection w s) × Option RecvFut × Link w s
  from_reader f x (some (ready e), l) = (
    returns (ready (err e)),
    none,
    record { shared = record l { world = drop_future f l.world }; wire = x },
  )
  from_reader f x (some pending, l) = (returns pending, some f, record { shared = l; wire = x })
  from_reader f x (none, l) = (exhausted, some f, record { shared = l; wire = x })

  -- Behind the poll of the receiver's future. A closed channel is the panic of `expect`.
  unfoldable pub after_recv :
      MuxListener
      → List ℕ
      → ℕ
      → s.Waker
      → Link w s
      → Poll (Option (SocketAddr × ℕ)) × RecvFut × s.World
      → Outcome (MuxConnection w s) × Option RecvFut × Link w s
  unfolding from_reader make_writer
  after_recv m array fuel k n (ready (some (a, i)), f, x) = (
    returns (ready (ok (Mux.new w s (make_writer w s m.pipe array a) i))),
    none,
    record n { shared = record n.shared { world = drop_future f x } },
  )
  after_recv m array fuel k n (ready none, f, x) =
      (panicked, none, record n { shared = record n.shared { world = drop_future f x } })
  after_recv m array fuel k n (pending, f, x) =
      from_reader f n.wire (ReadPoll.poll s fuel (record n.shared { world = x }) k)

  -- One poll of `accept`, which has the future of the receiver under way; it is dropped at the end.
  unfoldable pub poll_accept :
      MuxListener
      → List ℕ
      → ℕ
      → s.Waker
      → RecvFut
      → Link w s
      → Outcome (MuxConnection w s) × Option RecvFut × Link w s
  unfolding after_recv
  poll_accept m array fuel k f n = after_recv m array fuel k n (poll_recv f k n.shared.world)

  -- The start of `accept`.
  unfoldable pub start_accept : MuxListener → Link w s → RecvFut × Link w s
  start_accept m n =
      let (f, x) = recv_async m.receiver n.shared.world in
      (f, record n { shared = record n.shared { world = x } })
