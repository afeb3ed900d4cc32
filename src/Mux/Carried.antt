-- ===== src/Mux/Carried.antt =====
-- src/lib.rs from end to end: a connection that is added on one side, and opened on the other.
use vt_muxer.Common.{
  ℕ, ◌≡◌, ◌<◌, sym, ap, ◌∙◌, none, some, List, [], ◌∷◌, ◌++◌, length, take, subst, arith,
}
use vt_muxer.Common.Bytes.{AreBytes}
use vt_muxer.Common.Poll.{Poll, ready, IoResult, ok}
use vt_muxer.ThinAddr.{SocketAddr, IsSocket}
use vt_muxer.Protocol
use vt_muxer.ReadBuffer.{ReadBuf, IsReadBuf}
use vt_muxer.Runtime.{Runtime, IsRuntime}
use vt_muxer.Wire.{Frame, AreFrames, encode}
use vt_muxer.Wire.Merge.{frames_of, payloads}
use vt_muxer.Wire.Unique.{
  payloads-injective, payloads-AreFrames, session_payloads, session_payloads-AreFrames,
  encode-session,
}
use vt_muxer.Write.State.{Outcome, returns}
use vt_muxer.Write.Settled.{IsPrompt}
use vt_muxer.Write.Written.{IsWriting}
use vt_muxer.Write.Closed.{ClosedOut}
use vt_muxer.Write.Session.{Writer, Session, Closing, Took, Session-ClosedOut}
use vt_muxer.Read.Shared.{Source, ReaderEntry, SharedReaderState, LockedReaderState, lookup}
use vt_muxer.Read.Poll.{poll_once}
use vt_muxer.Read.Inner.{poll_read}
use vt_muxer.Read.Entries.{IsSource}
use vt_muxer.Read.Valid.{IsShared, work, sends}
use vt_muxer.Demux.{IsListening}
use vt_muxer.Demux.Incoming.{opening}
use vt_muxer.Demux.Run.{Seen, Reach}
use vt_muxer.Demux.Serve.{opened_delivered}
use vt_muxer.Mux.{Link, MuxConnection, MuxPipe, add_connection}
use vt_muxer.Mux.Connect.{Connected, Sound, add_connection-Connected}

tail_of : List (List ℕ) → List (List ℕ)
tail_of [] = []
tail_of (p ∷ ps) = ps

-- The payloads that come in for the address are those of the session that has sent them.
sent_payloads :
    (a : SocketAddr) (fs : List Frame) (taken out : List ℕ)
    → IsSocket a
    → AreFrames fs
    → (v : ClosedOut (Protocol.header_bytes (Protocol.empty a)) taken a out)
    → encode (frames_of a ([] ∷ payloads a fs)) ≡ out
    → payloads a fs ≡ v.chunks ++ ([] ∷ [])
unfolding tail_of
sent_payloads a fs taken out valid fine v e = ap tail_of (
    payloads-injective a ([] ∷ payloads a fs) (session_payloads v.chunks)
      (record { socket_valid = valid; short = omega arith }, payloads-AreFrames a fs valid fine)
      (session_payloads-AreFrames a v.chunks valid v.chunks_valid)
      (e ∙ v.on_wire ∙ sym (encode-session a v.chunks)))

module _ (w : Runtime) (s : Source) (stream : s.World → List ℕ) where
  open w use {sent}

  abbrev writer_of : MuxConnection w s → Link w s → Writer w
  writer_of c n = record { inner = c.write; world = n.wire }

  module _ (laws : IsRuntime w) (prompt : IsPrompt w) (src : IsSource s stream) (p : MuxPipe w s)
      (array : List ℕ) (a : SocketAddr) (size : length array ≡ 65535) (array_bytes : AreBytes array)
      (valid : IsSocket a) (n n' : Link w s) (c : MuxConnection w s)
      (v : IsShared s stream n.shared) (unsent : sent n.wire ≡ [])
      (added : add_connection w s p array a n ≡ (returns (ready (ok c)), n')) where
    abbrev hdr : List ℕ
    hdr = Protocol.header_bytes (Protocol.empty a)

    added-Writing : IsWriting w hdr [] a c.write n'.wire
    added-Writing =
        let (ended, fine) =
          subst
            (λ (q : Outcome (MuxConnection w s) × Link w s).
              Connected w s stream n a q.0 q.1 × Sound w s stream n q.1)
            added
            (add_connection-Connected w s stream laws p array a size array_bytes valid src n v) in
        subst (λ xs. IsWriting w (xs ++ hdr) [] a c.write n'.wire) unsent ended.1

    module _ (s' : Source) (stream' : s'.World → List ℕ) (t : ReadBuf) where
      -- From end to end. On one side, `add_connection` for a valid address, on a valid shared
      -- reader and in memory of the size of a packet's, gives a connection, and its writer has sent
      -- nothing before; a session of writes and flushes, none of which fails, takes the bytes that
      -- each write counts, and those that a write which waits has put in its packet, none unless
      -- that is full; then a shutdown succeeds. On the other side, with a valid shared reader that
      -- does not know the address, the frames to come, of all connections, have valid addresses and
      -- at most 65535 bytes of payload, those of this address are those that were sent, and a round
      -- of the shared reader that ends the header of the first one opens a connection for the
      -- listener. Then, after any run of the shared reader that does not run out of memory, while
      -- the connection has its entry, when a read of it with fuel for the shared reader's work
      -- succeeds with no byte although there is room, it has read exactly the bytes that the
      -- session has taken. The writer's own flush has its result at once, no send to the listener
      -- fails, and the runtimes, streams and buffers keep their contracts.
      pub carried :
          {y z : Writer w} (session : Session w (writer_of c n') y)
          → Closing w z y
          → IsSource s' stream'
          → IsReadBuf t
          → IsListening s' stream'
          → (l l' : LockedReaderState s') (fs : List Frame) (header : List ℕ) (filled : ℕ)
            (k : s'.Waker) (o : Poll (IoResult (Unit {0}))) (x : Seen s' stream' t)
          → IsShared s' stream' l
          → AreFrames (opening s' stream' a ∷ fs)
          → encode (frames_of a ([] ∷ payloads a fs)) ≡ sent z.world
          → l.state ≡ SharedReaderState.next_packet header filled
          → take filled header ++ stream' l.world ≡ encode (opening s' stream' a ∷ fs)
          → lookup s' l.socket_map a ≡ none
          → poll_once s' l k ≡ (o, l')
          → sends s' stream' l'.state ≡ 1
          → Reach s' stream' t l.fresh (record { shared = l'; out = [] }) x
          → (fuel : ℕ) (k' : s'.Waker) (e : ReaderEntry s') (b b' : t.Buf)
            (l'' : LockedReaderState s')
          → x.shared.entries l.fresh ≡ some e
          → work s' stream' x.shared < fuel
          → 0 < t.remaining b
          → poll_read s' t fuel x.shared k' l.fresh e b ≡ (some (ready (ok tt)), l'', b')
          → t.contents b' ≡ t.contents b
          → Took w session x.out
      carried session close src' buf sure l l' fs header filled k o x v' frames same at ahead vacant
            polled opens run fuel k' e b b' l'' live enough room q nothing =
          let (taken, took, closed) =
            Session-ClosedOut w laws prompt hdr a session added-Writing close in
          let read =
            opened_delivered s' stream' t src' buf sure l l' a fs header filled k o closed.chunks []
              x v' frames at ahead vacant polled opens closed.chunks_valid
              (sent_payloads a fs taken _ valid frames.1 closed same) run fuel k' e b b' l'' live
              enough room q nothing in
          subst (Took w session) (sym (read ∙ sym closed.carried)) took
