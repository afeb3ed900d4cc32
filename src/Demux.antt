-- ===== src/Demux.antt =====
-- What the shared reader of src/read.rs owes to one connection, while frames come in for all of them.
pub mod Shares
pub mod Payload
pub mod Move
pub mod Dispatch
pub mod Header
pub mod Loop
pub mod Reads
pub mod Open
pub mod Incoming
pub mod Run
pub mod End
pub mod Deliver
pub mod Serve
mod ServeTests
mod Tests
use vt_muxer.Common.{
  ℕ, ◌≡◌, ◌≢◌, ◌<◌, ◌⊎◌, Bool, true, false, Option, none, some, List, [], ◌++◌, ◌==◌, if◌then◌else◌,
  length, take,
}
use vt_muxer.Common.Poll.{ready}
use vt_muxer.ThinAddr
use vt_muxer.ThinAddr.{SocketAddr}
use vt_muxer.Wire.{Frame, AreFrames, encode, owed}
use vt_muxer.Read.Shared.{Source, SharedReaderState, LockedReaderState, lookup}
use vt_muxer.Read.Entries.{unread, is_alive}

module _ (r : Source) (stream : r.World → List ℕ) where
  -- The stream `bytes`, seen from the state: the rest of a payload under way, then whole frames, of
  -- which the first bytes of a header may have arrived.
  abbrev pub Ahead : SharedReaderState r → List ℕ → List ℕ → List Frame → Type 0
  Ahead (SharedReaderState.read owner left) bytes rest fs =
      (length rest ≡ left) × (bytes ≡ rest ++ encode fs)
  Ahead (SharedReaderState.next_packet header filled) bytes rest fs =
      take filled header ++ bytes ≡ encode fs
  Ahead (SharedReaderState.send_socket f) bytes rest fs = bytes ≡ encode fs
  Ahead SharedReaderState.error bytes rest fs = Unit {0}

  -- The listener is there: no send to it fails.
  abbrev pub IsListening : Type 0
  IsListening =
      (f : r.SendFut) (k : r.Waker) (w : r.World) (j : ℕ) → (r.poll_send f k w).0 ≢ ready (some j)

  -- The entry `i` is not dropped with a send that fails: a connection holds it, or the listener will.
  abbrev pub Held : SharedReaderState r → ℕ → Type 0
  Held (SharedReaderState.send_socket f) i = (r.carries f ≢ i) ⊎ IsListening
  Held _ i = Unit {0}

  -- The map has the entry for the address.
  abbrev pub mapped : Option ℕ → ℕ → Bool
  mapped none i = false
  mapped (some j) i = j == i

  -- What the connection of `a` is still to get: nothing once it is closed, nothing certain behind an
  -- error, else its part of the payload under way and of the frames.
  abbrev pub Due : SocketAddr → SharedReaderState r → Bool → List ℕ → List Frame → List ℕ → Type 0
  Due a s false rest fs d = d ≡ []
  Due a (SharedReaderState.read owner left) true rest fs d =
      d ≡ (if ThinAddr.eq a owner then rest ++ owed a fs else owed a fs)
  Due a (SharedReaderState.next_packet header filled) true rest fs d = d ≡ owed a fs
  Due a (SharedReaderState.send_socket f) true rest fs d = d ≡ owed a fs
  Due a SharedReaderState.error true rest fs d = Unit {0}

  -- The connection of `a` with the entry `i` is to receive `total`, with what is unread, when the
  -- state is `s`.
  pub record TrackedAt (a : SocketAddr) (i : ℕ) (total : List ℕ) (s : SharedReaderState r)
      (l : LockedReaderState r) : Type 0 where
    pub frames : List Frame
    pub frames_valid : AreFrames frames
    pub rest : List ℕ
    pub ahead : Ahead s (stream l.world) rest frames
    pub old : i < l.fresh
    pub alone : (b : SocketAddr) → lookup r l.socket_map b ≡ some i → b ≡ a
    pub alive : is_alive r (l.entries i) ≡ true
    pub held : Held s i
    pub due : List ℕ
    pub owing : Due a s (mapped (lookup r l.socket_map a) i) rest frames due
    pub balance : total ≡ unread r (l.entries i) ++ due

  abbrev pub Tracked : SocketAddr → ℕ → List ℕ → LockedReaderState r → Type 0
  Tracked a i total l = TrackedAt a i total l.state l
