-- ===== src/Demux/Deliver.antt =====
-- src/write.rs and src/read.rs together: a connection that is added here, and what it reads.
use vt_muxer.Common.{ℕ, ◌≡◌, ◌<◌, refl, sym, ◌∙◌, false, List, [], ◌∷◌, ◌++◌, some, subst}
use vt_muxer.Common.Poll.{ready, IoResult, ok}
use vt_muxer.ThinAddr
use vt_muxer.ThinAddr.{SocketAddr}
use vt_muxer.ReadBuffer.{ReadBuf, IsReadBuf}
use vt_muxer.Wire.{Frame, AreFrames, owed}
use vt_muxer.Wire.Merge.{payloads, owed-joined}
use vt_muxer.Write.Stream.{joined, AreChunks}
use vt_muxer.Read.Shared.{Source, ReaderEntry, SharedReaderState, LockedReaderState, add_connection}
use vt_muxer.Read.Inner.{poll_read}
use vt_muxer.Read.Entries.{IsSource}
use vt_muxer.Read.Valid.{IsShared, work}
use vt_muxer.Read.Attach.{Attached, add_connection-Attached}
use vt_muxer.Demux.{Ahead, Held}
use vt_muxer.Demux.Open.{coming, Added-Tracked}
use vt_muxer.Demux.Run.{Seen, Reach, Owes}
use vt_muxer.Demux.End.{end_of_stream}

module _ (r : Source) (stream : r.World → List ℕ) where
  -- No payload for the address is under way.
  abbrev pub Between : SocketAddr → SharedReaderState r → Type 0
  Between a (SharedReaderState.read owner left) = ThinAddr.eq a owner ≡ false
  Between a _ = Unit {0}

  coming-owed :
      (a : SocketAddr) (s : SharedReaderState r) (rest : List ℕ) (fs : List Frame)
      → Between a s
      → coming r stream a s rest fs ≡ owed a fs
  coming-owed a (SharedReaderState.read owner left) rest fs other = rw (other) refl
  coming-owed a (SharedReaderState.next_packet header filled) rest fs free = refl
  coming-owed a (SharedReaderState.send_socket f) rest fs free = refl
  coming-owed a SharedReaderState.error rest fs free = refl

  -- What is owed to a connection that `add_connection` has made.
  pub added-Owes :
      (t : ReadBuf)
      → IsSource r stream
      → (l l' : LockedReaderState r) (a : SocketAddr) (i : ℕ) (rest : List ℕ) (fs : List Frame)
      → IsShared r stream l
      → AreFrames fs
      → Ahead r stream l.state (stream l.world) rest fs
      → Held r stream l.state l.fresh
      → Between a l.state
      → add_connection r l a ≡ (ok i, l')
      → Owes r stream t a i (owed a fs) (record { shared = l'; out = [] })
  added-Owes t src l l' a i rest fs v valid ahead held free e =
      let (added, v', state, quiet) =
        subst (λ (q : IoResult ℕ × LockedReaderState r). Attached r stream l a q.0 q.1) e
          (add_connection-Attached r stream src l a v) in
      record {
        valid = v';
        rest = coming r stream a l.state rest fs;
        tracked = Added-Tracked r stream l l' a i fs rest v valid ahead held added state quiet;
        whole = sym (coming-owed a l.state rest fs free);
      }

  -- A connection is added for an address, on a valid shared reader, over a stream that keeps its
  -- contract, between two of its payloads, and its new entry is not on its way to the listener, or
  -- no send to the listener fails. The frames that are still to come, of all connections, have
  -- valid addresses and at most 65535 bytes of payload, and those of this address are the chunks
  -- that a writer has sent, then an empty one. Then, after any run without running out of memory,
  -- while the connection has its entry, when a read of it with fuel for the shared reader's work
  -- succeeds with no byte although there is room, it has read exactly the bytes of the chunks.
  pub delivered :
      (t : ReadBuf)
      → IsSource r stream
      → IsReadBuf t
      → (l l' : LockedReaderState r) (a : SocketAddr) (i : ℕ) (rest : List ℕ) (fs : List Frame)
        (chunks later : List (List ℕ)) (z : Seen r stream t)
      → IsShared r stream l
      → AreFrames fs
      → Ahead r stream l.state (stream l.world) rest fs
      → Held r stream l.state l.fresh
      → Between a l.state
      → AreChunks chunks
      → payloads a fs ≡ chunks ++ ([] ∷ later)
      → add_connection r l a ≡ (ok i, l')
      → Reach r stream t i (record { shared = l'; out = [] }) z
      → (fuel : ℕ) (k : r.Waker) (e : ReaderEntry r) (b b' : t.Buf) (l'' : LockedReaderState r)
      → z.shared.entries i ≡ some e
      → work r stream z.shared < fuel
      → 0 < t.remaining b
      → poll_read r t fuel z.shared k i e b ≡ (some (ready (ok tt)), l'', b')
      → t.contents b' ≡ t.contents b
      → z.out ≡ joined chunks
  delivered t src laws l l' a i rest fs chunks later z v valid ahead held free whole sent added run
        fuel k e b b' l'' live enough room p nothing =
      end_of_stream r stream t src laws
        (added-Owes t src l l' a i rest fs v valid ahead held free added) run fuel k e b b' l'' live
        enough room p nothing
      ∙ owed-joined a fs chunks later whole sent
