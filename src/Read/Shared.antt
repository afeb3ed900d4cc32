-- ===== src/Read/Shared.antt =====
-- src/read.rs: the types of the shared reader, its socket map, `insert` and `remove`.
use vt_muxer.Common.{ℕ, suc, Bool, Option, none, some, List, [], ◌∷◌, ◌==◌, if◌then◌else◌}
use vt_muxer.Common.Poll.{Poll, IoResult, ok, err, ErrorKind}
use vt_muxer.ThinAddr
use vt_muxer.ThinAddr.{SocketAddr}
use vt_muxer.ReadBuffer
use vt_muxer.ReadBuffer.{ReadBuffer, Window, Filled}

-- What src/read.rs uses of tokio, flume and the standard library.
pub record Source : Type 1 where
  pub World : Type 0
  pub Waker : Type 0
  -- `SendFut` of a new connection: its address and the entry that its `ReaderInner` holds.
  pub SendFut : Type 0
  pub noop : Waker
  pub wake : Waker → World → World
  -- `AsyncRead` of the reading half of the TCP stream, and of `take(limit)` on it.
  pub poll_read : Waker → World → Window → Poll (IoResult Filled) × World
  pub poll_take : ℕ → Waker → World → Window → Poll (IoResult Filled) × World
  pub alloc : ℕ → World → Option (List ℕ) × World
  -- `Sender::is_disconnected`, `into_send_async`, and a poll of its future: a send that failed gives
  -- the `ReaderInner` back.
  pub is_disconnected : World → Bool
  pub into_send_async : SocketAddr → ℕ → World → SendFut × World
  pub poll_send : SendFut → Waker → World → Poll (Option ℕ) × SendFut × World
  -- The entry that a future carries to the listener.
  pub carries : SendFut → ℕ
  -- `tokio::task::coop::consume_budget`.
  pub poll_budget : Waker → World → Poll (Unit {0}) × World

-- `DEFAULT_BUFFER_CAPACITY` is `u16::MAX * 2`.
abbrev pub default_buffer_capacity : ℕ
default_buffer_capacity = 131070

module _ (r : Source) where
  open r use {World, Waker, SendFut, noop, wake, alloc}

  pub record ReaderEntry : Type 0 where
    pub reader_pipe_waker : Waker
    pub waiting_waker : Waker
    pub buffer : ReadBuffer

  -- The header holds the bytes of it that were written, `filled` counts those that have arrived.
  pub data SharedReaderState : Type 0 where
    read : SocketAddr → ℕ → SharedReaderState
    next_packet : List ℕ → ℕ → SharedReaderState
    send_socket : SendFut → SharedReaderState
    error : SharedReaderState

  -- `entries` are the allocations behind the `Arc`s: `none` where the last one was dropped, and
  -- from `fresh` on. The map has a `Weak` for each address.
  pub record LockedReaderState : Type 0 where
    pub socket_map : List (SocketAddr × ℕ)
    pub state : SharedReaderState
    pub entries : ℕ → Option ReaderEntry
    pub fresh : ℕ
    pub world : World

  unfoldable pub new_packet : SharedReaderState
  new_packet = SharedReaderState.next_packet [] 0

  unfoldable pub new : World → LockedReaderState
  unfolding new_packet
  new w = record { socket_map = []; state = new_packet; entries = λ i. none; fresh = 0; world = w }

  unfoldable pub lookup : List (SocketAddr × ℕ) → SocketAddr → Option ℕ
  lookup [] a = none
  lookup ((b, i) ∷ m) a = if ThinAddr.eq a b then some i else lookup m a

  unfoldable pub forget : List (SocketAddr × ℕ) → SocketAddr → List (SocketAddr × ℕ)
  forget [] a = []
  forget ((b, i) ∷ m) a = let rest = forget m a in if ThinAddr.eq a b then rest else (b, i) ∷ rest

  -- `Weak::upgrade` of what the map has.
  unfoldable pub upgrade : (ℕ → Option ReaderEntry) → Option ℕ → Option (ℕ × ReaderEntry)
  upgrade entries none = none
  upgrade entries (some i) = elim (entries i) [ none ↦ none | some e ↦ some (i, e) ]

  unfoldable pub put_entry :
      (ℕ → Option ReaderEntry) → ℕ → Option ReaderEntry → ℕ → Option ReaderEntry
  put_entry entries i e j = if j == i then e else entries j

  -- `insert` on a vacant slot, with what `ReadBuffer::new` answered.
  unfoldable pub fill_slot :
      LockedReaderState → SocketAddr → Waker → IoResult ReadBuffer → IoResult ℕ × LockedReaderState
  unfolding put_entry
  fill_slot l socket k (err e) = (err e, l)
  fill_slot l socket k (ok b) =
      let entry : ReaderEntry = record {
        reader_pipe_waker = noop;
        waiting_waker = k;
        buffer = b;
      } in
      (
        ok l.fresh,
        record l {
          socket_map = (socket, l.fresh) ∷ l.socket_map;
          entries = put_entry l.entries l.fresh (some entry);
          fresh = suc l.fresh;
        },
      )

  -- By what the map has for the socket.
  unfoldable pub insert_at :
      LockedReaderState → SocketAddr → Waker → Option ℕ → IoResult ℕ × LockedReaderState
  unfolding fill_slot
  insert_at l socket k (some i) = (err ErrorKind.addr_in_use, l)
  insert_at l socket k none =
      let (cells, w) = alloc default_buffer_capacity l.world in
      fill_slot (record l { world = w }) socket k (ReadBuffer.new default_buffer_capacity cells)

  unfoldable pub insert : LockedReaderState → SocketAddr → Waker → IoResult ℕ × LockedReaderState
  unfolding insert_at lookup
  insert l socket k = insert_at l socket k (lookup l.socket_map socket)

  -- The reading pipe of the entry is woken once the map has no `Weak` to it.
  unfoldable pub wake_pipe : Option (ℕ × ReaderEntry) → World → World
  wake_pipe none w = w
  wake_pipe (some (i, e)) w = wake e.reader_pipe_waker w

  unfoldable pub remove : LockedReaderState → SocketAddr → LockedReaderState
  unfolding forget wake_pipe lookup upgrade
  remove l socket = record l {
    socket_map = forget l.socket_map socket;
    world = wake_pipe (upgrade l.entries (lookup l.socket_map socket)) l.world;
  }

  -- `SharedReader::add_connection`, under the waker that does nothing.
  unfoldable pub add_connection : LockedReaderState → SocketAddr → IoResult ℕ × LockedReaderState
  unfolding insert
  add_connection l sock = insert l sock noop
