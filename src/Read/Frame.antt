-- ===== src/Read/Frame.antt =====
-- src/read.rs: a header of src/protocol.rs while it arrives.
use vt_muxer.Common.{ℕ, ◌≡◌, ◌≢◌, ◌≤◌, ◌<◌, ◌⊎◌, List, ◌++◌, length, take, drop}
use vt_muxer.Common.Poll.{Poll, ready, IoResult, ok, err, ErrorKind}
use vt_muxer.Protocol
use vt_muxer.Protocol.{MuxFrameHeader}
use vt_muxer.Read.Shared.{Source, SharedReaderState, LockedReaderState, lookup}
use vt_muxer.Read.Dispatch.{table, Dispatched}

module _ (r : Source) (stream : r.World → List ℕ) where
  open r use {World, Waker, poll_read}

  -- In `header`, `filled` bytes of the header `h` have arrived; its other bytes and then `rest` are to
  -- come.
  pub record Arriving (h : MuxFrameHeader) (rest : List ℕ) (header : List ℕ) (filled : ℕ)
      (l : LockedReaderState r) : Type 0 where
    pub reading : l.state ≡ SharedReaderState.next_packet header filled
    pub part : filled < Protocol.header_size
    pub there : filled ≤ length header
    pub begun : take filled header ≡ take filled (Protocol.header_bytes h)
    pub coming : stream l.world ≡ drop filled (Protocol.header_bytes h) ++ rest

  -- The header is still arriving, or the stream has ended, or the header is dispatched by what it says.
  abbrev pub HeaderRead :
      LockedReaderState r
      → MuxFrameHeader
      → List ℕ
      → Poll (IoResult (Unit {0}))
      → LockedReaderState r
      → Type 0
  HeaderRead l h rest o l' =
      (o ≢ ready (ok tt))
        × (((header : List ℕ) × (filled : ℕ) × Arriving h rest header filled l')
            ⊎ (l'.state ≡ SharedReaderState.error) × (o ≡ ready (err ErrorKind.unexpected_eof)))
      ⊎ (stream l'.world ≡ rest)
        × ((s : SharedReaderState r) × Dispatched r stream (table r stream l) s (Protocol.addr h)
              (Protocol.len h) (lookup r l.socket_map (Protocol.addr h)) o l')

  abbrev ok_of : Poll (IoResult (Unit {0})) → ℕ
  ok_of (ready (ok _)) = 1
  ok_of _ = 0
