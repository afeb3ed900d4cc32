-- ===== src/Read/Poll.antt =====
-- src/read.rs: the loop of the shared reader: `poll_read`, `poll_next_packet`, `poll_once`, `poll`.
use vt_muxer.Common.{
  ℕ, zero, suc, ◌+◌, ◌-◌, ◌%◌, compare, Ordering, Option, none, some, List, ◌++◌, ◌==◌, leb,
  if◌then◌else◌, length, take,
}
use vt_muxer.Common.Poll.{Poll, ready, pending, IoResult, ok, err, ErrorKind}
use vt_muxer.ThinAddr.{SocketAddr}
use vt_muxer.Protocol
use vt_muxer.Protocol.{MuxFrameHeader}
use vt_muxer.ReadBuffer
use vt_muxer.ReadBuffer.{ReadBuffer, Window, Filled}
use vt_muxer.Read.Shared.{
  Source, ReaderEntry, SharedReaderState, LockedReaderState, new_packet, lookup, upgrade, put_entry,
  insert, remove,
}

module _ (r : Source) where
  open r use {
    World, Waker, SendFut, wake, poll_read, poll_take, is_disconnected, into_send_async, poll_send,
    poll_budget,
  }

  -- `error!`: the state is poisoned for good.
  unfoldable pub fail :
      LockedReaderState r → ErrorKind → Poll (IoResult (Unit {0})) × LockedReaderState r
  fail l e = (ready (err e), record l { state = SharedReaderState.error })

  -- The end of `poll_read`, when `amount` bytes were read.
  unfoldable pub count_read :
      LockedReaderState r → SocketAddr → ℕ → ℕ → Poll (IoResult (Unit {0})) × LockedReaderState r
  unfolding fail
  count_read l owner left amount =
      if amount == 0
      then fail l ErrorKind.unexpected_eof
      else if leb amount left
      then (
        ready (ok tt),
        record l {
          state =
              if left - amount == 0
              then new_packet r
              else SharedReaderState.read owner (left - amount);
        },
      )
      else fail l ErrorKind.other

  -- The bytes of a connection that is gone are read into `scratch`.
  unfoldable pub skip_read :
      LockedReaderState r
      → SocketAddr
      → ℕ
      → Poll (IoResult Filled) × World
      → Poll (IoResult (Unit {0})) × LockedReaderState r
  unfolding count_read
  skip_read l owner left (ready (ok f), w) =
      count_read (record l { world = w }) owner left (length f.got)
  skip_read l owner left (ready (err e), w) = (ready (err e), record l { world = w })
  skip_read l owner left (pending, w) = (pending, record l { world = w })

  -- What `fill_buffer` answered, with the entry of the owner. A full buffer waits for its reader.
  unfoldable pub entry_read :
      LockedReaderState r
      → Waker
      → SocketAddr
      → ℕ
      → ℕ
      → ReaderEntry r
      → Poll (IoResult (Option ℕ)) × ReadBuffer × World
      → Poll (IoResult (Unit {0})) × LockedReaderState r
  unfolding count_read put_entry
  entry_read l k owner left i e (ready (ok (some amount)), b, w) =
      count_read
        (record l {
          entries = put_entry r l.entries i (some (record e { buffer = b }));
          world = wake e.reader_pipe_waker w;
        })
        owner left amount
  entry_read l k owner left i e (ready (ok none), b, w) = (
    pending,
    record l {
      entries = put_entry r l.entries i (some (record e { waiting_waker = k; buffer = b }));
      world = wake e.reader_pipe_waker w;
    },
  )
  entry_read l k owner left i e (ready (err x), b, w) = (
    ready (err x),
    record l { entries = put_entry r l.entries i (some (record e { buffer = b })); world = w },
  )
  entry_read l k owner left i e (pending, b, w) = (
    pending,
    record l { entries = put_entry r l.entries i (some (record e { buffer = b })); world = w },
  )

  unfoldable pub read_into :
      LockedReaderState r
      → Waker
      → SocketAddr
      → ℕ
      → Option (ℕ × ReaderEntry r)
      → Poll (IoResult (Unit {0})) × LockedReaderState r
  unfolding skip_read entry_read
  read_into l k owner left none =
      skip_read l owner left
        (poll_take left k l.world (record { filled = 0; initialized = 0; capacity = 65535 }))
  read_into l k owner left (some (i, e)) =
      entry_read l k owner left i e
        (ReadBuffer.fill_buffer (λ w win. poll_take left k w win) e.buffer l.world)

  unfoldable pub poll_payload :
      LockedReaderState r
      → Waker
      → SocketAddr
      → ℕ
      → Poll (IoResult (Unit {0})) × LockedReaderState r
  unfolding read_into upgrade lookup
  poll_payload l k owner left =
      read_into l k owner left (upgrade r l.entries (lookup r l.socket_map owner))

  -- The entry that `insert` made goes to the listener.
  unfoldable pub open_socket :
      SocketAddr
      → IoResult ℕ × LockedReaderState r
      → Poll (IoResult (Unit {0})) × LockedReaderState r
  open_socket addr (ok i, l) =
      let (future, w) = into_send_async addr i l.world in
      (ready (ok tt), record l { state = SharedReaderState.send_socket future; world = w })
  open_socket addr (err e, l) = (ready (err e), l)

  -- A header without payload, by what the map has for the address: the connection is closed, or
  -- opened.
  unfoldable pub take_empty :
      LockedReaderState r
      → Waker
      → SocketAddr
      → Option ℕ
      → Poll (IoResult (Unit {0})) × LockedReaderState r
  unfolding open_socket insert remove
  take_empty l k addr (some i) = (ready (ok tt), record (remove r l addr) { state = new_packet r })
  take_empty l k addr none =
      let opened = open_socket addr (insert r l addr k) in
      if is_disconnected l.world then (ready (ok tt), record l { state = new_packet r }) else opened

  unfoldable pub take_header :
      LockedReaderState r
      → Waker
      → SocketAddr
      → ℕ
      → Poll (IoResult (Unit {0})) × LockedReaderState r
  unfolding take_empty lookup
  take_header l k addr zero = take_empty l k addr (lookup r l.socket_map addr)
  take_header l k addr (suc len) =
      (ready (ok tt), record l { state = SharedReaderState.read addr (suc len) })

  -- What the reader answered to `poll_next_packet`. A header that is not complete waits. The cast is
  -- `extra_fill as u8`.
  unfoldable pub after_header :
      LockedReaderState r
      → Waker
      → List ℕ
      → ℕ
      → Poll (IoResult Filled) × World
      → Poll (IoResult (Unit {0})) × LockedReaderState r
  unfolding take_header fail
  after_header l k header filled (ready (ok f), w) =
      let l' : LockedReaderState r = record l { world = w } in
      let bytes = take filled header ++ f.got in
      let new_filled = filled + length f.got % 256 in
      if length f.got == 0
      then fail l' ErrorKind.unexpected_eof
      else elim (compare new_filled Protocol.header_size) [
        | Ordering.lt ↦
            (pending, record l' { state = SharedReaderState.next_packet bytes new_filled })
        | Ordering.eq ↦
            let h = Protocol.header_of_bytes bytes in
            take_header (record l' { state = SharedReaderState.next_packet bytes filled }) k
              (Protocol.addr h) (Protocol.len h)
        | Ordering.gt ↦ fail l' ErrorKind.other
      ]
  after_header l k header filled (ready (err e), w) = (ready (err e), record l { world = w })
  after_header l k header filled (pending, w) = (pending, record l { world = w })

  unfoldable pub poll_next_packet :
      LockedReaderState r → Waker → List ℕ → ℕ → Poll (IoResult (Unit {0})) × LockedReaderState r
  unfolding after_header
  poll_next_packet l k header filled = after_header l k header filled (
      poll_read k l.world
        (record { filled = 0; initialized = 0; capacity = Protocol.header_size - filled }))

  -- The connection that nobody received is dropped with what the future gives back.
  unfoldable pub drop_reader : LockedReaderState r → Option ℕ → LockedReaderState r
  unfolding put_entry
  drop_reader l none = l
  drop_reader l (some i) = record l { entries = put_entry r l.entries i none }

  unfoldable pub after_send :
      LockedReaderState r
      → Poll (Option ℕ) × SendFut × World
      → Poll (IoResult (Unit {0})) × LockedReaderState r
  unfolding drop_reader
  after_send l (ready back, f, w) =
      (ready (ok tt), record (drop_reader l back) { state = new_packet r; world = w })
  after_send l (pending, f, w) =
      (pending, record l { state = SharedReaderState.send_socket f; world = w })

  unfoldable pub poll_state :
      LockedReaderState r
      → Waker
      → SharedReaderState r
      → Poll (IoResult (Unit {0})) × LockedReaderState r
  unfolding poll_payload poll_next_packet after_send
  poll_state l k (SharedReaderState.read owner left) = poll_payload l k owner left
  poll_state l k (SharedReaderState.next_packet header filled) = poll_next_packet l k header filled
  poll_state l k (SharedReaderState.send_socket f) = after_send l (poll_send f k l.world)
  poll_state l k SharedReaderState.error = (ready (err ErrorKind.broken_pipe), l)

  unfoldable pub poll_once :
      LockedReaderState r → Waker → Poll (IoResult (Unit {0})) × LockedReaderState r
  unfolding poll_state
  poll_once l k = poll_state l k l.state

  -- `none` is the loop out of fuel; the code never answers with a value.
  unfoldable pub after_budget :
      (LockedReaderState r → Option (Poll ErrorKind) × LockedReaderState r)
      → LockedReaderState r
      → Poll (Unit {0}) × World
      → Option (Poll ErrorKind) × LockedReaderState r
  after_budget again l (ready _, w) = again (record l { world = w })
  after_budget again l (pending, w) = (some pending, record l { world = w })

  unfoldable pub after_once :
      (LockedReaderState r → Option (Poll ErrorKind) × LockedReaderState r)
      → Waker
      → Poll (IoResult (Unit {0})) × LockedReaderState r
      → Option (Poll ErrorKind) × LockedReaderState r
  unfolding after_budget
  after_once again k (ready (ok _), l) = after_budget again l (poll_budget k l.world)
  after_once again k (ready (err e), l) = (some (ready e), l)
  after_once again k (pending, l) = (some pending, l)

  unfoldable pub poll :
      ℕ → LockedReaderState r → Waker → Option (Poll ErrorKind) × LockedReaderState r
  unfolding after_once poll_once
  poll zero l k = (none, l)
  poll (suc fuel) l k = after_once (λ l'. poll fuel l' k) k (poll_once l k)
