-- ===== src/Read/Inner.antt =====
-- src/read.rs: `poll_read` of a connection's `ReaderInner`.
use vt_muxer.Common.{ℕ, suc, Option, none, some, List, [], ◌∷◌, ◌==◌, not, if◌then◌else◌}
use vt_muxer.Common.Poll.{Poll, ready, pending, IoResult, ok, err, ErrorKind}
use vt_muxer.ThinAddr.{SocketAddr}
use vt_muxer.ReadBuffer
use vt_muxer.ReadBuffer.{ReadBuffer, ReadBuf}
use vt_muxer.Read.Shared.{Source, ReaderEntry, LockedReaderState, put_entry}
use vt_muxer.Read.Poll.{poll}

-- `Arc::weak_count`: the addresses that the map has for the entry.
unfoldable pub weak_count : List (SocketAddr × ℕ) → ℕ → ℕ
weak_count [] i = 0
weak_count ((a, j) ∷ m) i = let rest = weak_count m i in if j == i then suc rest else rest

module _ (r : Source) (t : ReadBuf) where
  open r use {Waker, wake}

  -- The poll of the shared reader, which only returns to fail or to wait.
  unfoldable pub from_shared :
      t.Buf
      → Option (Poll ErrorKind) × LockedReaderState r
      → Option (Poll (IoResult (Unit {0}))) × LockedReaderState r × t.Buf
  from_shared o (some (ready e), l) = (some (ready (err e)), l, o)
  from_shared o (some pending, l) = (some pending, l, o)
  from_shared o (none, l) = (none, l, o)

  unfoldable pub with_buffer : LockedReaderState r → ℕ → ReaderEntry r → LockedReaderState r
  unfolding put_entry
  with_buffer l i e = record l { entries = put_entry r l.entries i (some e) }

  -- Behind `buffer.read(buf)`, with the room at the start.
  unfoldable pub after_copy :
      ℕ
      → LockedReaderState r
      → Waker
      → ℕ
      → ReaderEntry r
      → ℕ
      → ReadBuffer × t.Buf
      → Option (Poll (IoResult (Unit {0}))) × LockedReaderState r × t.Buf
  unfolding from_shared with_buffer weak_count poll
  after_copy fuel l k i e start (b, o) =
      let woken = record (with_buffer l i (record e { buffer = b })) {
        world = wake e.waiting_waker l.world;
      } in
      let waiting =
        poll r fuel (with_buffer l i (record e { reader_pipe_waker = k; buffer = b })) k in
      if not (start == t.remaining o)
      then (some (ready (ok tt)), woken, o)
      else if weak_count l.socket_map i == 0
      then (some (ready (ok tt)), with_buffer l i (record e { buffer = b }), o)
      else from_shared o waiting

  -- The `ReaderInner` holds the entry `i`, so it is `e` that its lock gives. `none` is the shared
  -- reader out of fuel.
  unfoldable pub poll_read :
      ℕ
      → LockedReaderState r
      → Waker
      → ℕ
      → ReaderEntry r
      → t.Buf
      → Option (Poll (IoResult (Unit {0}))) × LockedReaderState r × t.Buf
  unfolding after_copy
  poll_read fuel l k i e o =
      let copied = after_copy fuel l k i e (t.remaining o) (ReadBuffer.read t e.buffer o) in
      if t.remaining o == 0 then (some (ready (ok tt)), l, o) else copied
