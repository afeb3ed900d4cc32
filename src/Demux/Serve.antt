-- ===== src/Demux/Serve.antt =====
-- src/write.rs and src/read.rs together: a connection that the peer opens, and what it reads.
use vt_muxer.Common.{ℕ, ◌≡◌, ◌<◌, ◌∙◌, refl, none, List, [], ◌∷◌, ◌++◌, some, take}
use vt_muxer.Common.Poll.{Poll, ready, IoResult, ok}
use vt_muxer.ThinAddr.{SocketAddr}
use vt_muxer.ReadBuffer.{ReadBuf, IsReadBuf}
use vt_muxer.Wire.{Frame, AreFrames, encode, owed}
use vt_muxer.Wire.Merge.{payloads, owed-joined}
use vt_muxer.Write.Stream.{joined, AreChunks}
use vt_muxer.Read.Shared.{Source, ReaderEntry, SharedReaderState, LockedReaderState, lookup}
use vt_muxer.Read.Poll.{poll_once}
use vt_muxer.Read.Inner.{poll_read}
use vt_muxer.Read.Entries.{IsSource}
use vt_muxer.Read.Valid.{IsShared, work, sends}
use vt_muxer.Demux.{IsListening}
use vt_muxer.Demux.Incoming.{opening, poll_once-Opened}
use vt_muxer.Demux.Run.{Seen, Reach, Owes}
use vt_muxer.Demux.End.{end_of_stream}

module _ (r : Source) (stream : r.World → List ℕ) where
  -- What is owed to a connection that the peer has opened.
  pub opened-Owes :
      (t : ReadBuf)
      → IsSource r stream
      → IsListening r stream
      → (l l' : LockedReaderState r) (a : SocketAddr) (fs : List Frame) (header : List ℕ)
        (filled : ℕ) (k : r.Waker) (o : Poll (IoResult (Unit {0})))
      → IsShared r stream l
      → AreFrames (opening r stream a ∷ fs)
      → l.state ≡ SharedReaderState.next_packet header filled
      → take filled header ++ stream l.world ≡ encode (opening r stream a ∷ fs)
      → lookup r l.socket_map a ≡ none
      → poll_once r l k ≡ (o, l')
      → sends r stream l'.state ≡ 1
      → Owes r stream t a l.fresh (owed a fs) (record { shared = l'; out = [] })
  opened-Owes t src sure l l' a fs header filled k o v valid e ahead vacant p opens =
      let (v', tracked) =
        poll_once-Opened r stream src sure l a fs header filled k o l' v valid e ahead vacant p
          opens in
      record { valid = v'; rest = owed a fs; tracked = tracked; whole = refl }

  -- A round of the shared reader, valid and over a stream that keeps its contract, ends the header
  -- of an empty frame for an address that the map does not have, and so opens a connection that
  -- goes to the listener. No send to the listener fails. The frames that are still to come, of all
  -- connections, have valid addresses and at most 65535 bytes of payload, and those of this address
  -- are the chunks that a writer has sent, then an empty one. Then, after any run without running
  -- out of memory, the listener's receiving included, while the connection has its entry, when a
  -- read of it with fuel for the shared reader's work succeeds with no byte although there is room,
  -- it has read exactly the bytes of the chunks.
  pub opened_delivered :
      (t : ReadBuf)
      → IsSource r stream
      → IsReadBuf t
      → IsListening r stream
      → (l l' : LockedReaderState r) (a : SocketAddr) (fs : List Frame) (header : List ℕ)
        (filled : ℕ) (k : r.Waker) (o : Poll (IoResult (Unit {0}))) (chunks later : List (List ℕ))
        (z : Seen r stream t)
      → IsShared r stream l
      → AreFrames (opening r stream a ∷ fs)
      → l.state ≡ SharedReaderState.next_packet header filled
      → take filled header ++ stream l.world ≡ encode (opening r stream a ∷ fs)
      → lookup r l.socket_map a ≡ none
      → poll_once r l k ≡ (o, l')
      → sends r stream l'.state ≡ 1
      → AreChunks chunks
      → payloads a fs ≡ chunks ++ ([] ∷ later)
      → Reach r stream t l.fresh (record { shared = l'; out = [] }) z
      → (fuel : ℕ) (k' : r.Waker) (e : ReaderEntry r) (b b' : t.Buf) (l'' : LockedReaderState r)
      → z.shared.entries l.fresh ≡ some e
      → work r stream z.shared < fuel
      → 0 < t.remaining b
      → poll_read r t fuel z.shared k' l.fresh e b ≡ (some (ready (ok tt)), l'', b')
      → t.contents b' ≡ t.contents b
      → z.out ≡ joined chunks
  opened_delivered t src laws sure l l' a fs header filled k o chunks later z v valid at ahead
        vacant p opens whole sent run fuel k' e b b' l'' live enough room q nothing =
      end_of_stream r stream t src laws
        (opened-Owes t src sure l l' a fs header filled k o v valid at ahead vacant p opens) run
        fuel k' e b b' l'' live enough room q nothing
      ∙ owed-joined a fs chunks later whole sent
