-- ===== src/Mux/Sides.antt =====
-- src/lib.rs: where a link starts, and which side of it an operation leaves alone.
use vt_muxer.Common.{ℕ, ◌≡◌, refl, inl, Option, none, some, [], ◌∷◌, ◌<◌, min, List, length}
use vt_muxer.Common.Bytes.{AreBytes}
use vt_muxer.ThinAddr.{SocketAddr}
use vt_muxer.Runtime.{Runtime, IsRuntime}
use vt_muxer.Write.Written.{IsWriting, Written, poll_write-Written}
use vt_muxer.Write.Settled.{IsPrompt}
use vt_muxer.Write.Drained.{FlushEnded, flush-FlushEnded}
use vt_muxer.Write.Finish.{Shut, poll_shutdown-Shut}
use vt_muxer.Read.Shared
use vt_muxer.Read.Shared.{Source, ReaderEntry, put_entry}
use vt_muxer.ReadBuffer.{bytes, ReadBuf, IsReadBuf}
use vt_muxer.Read.Entries.{IsSource, ValidAt}
use vt_muxer.Read.Delivery.{ReadEnded, poll_read-Ended}
use vt_muxer.Read.Valid.{IsShared, work}
use vt_muxer.Read.Attach.{new-IsShared}
use vt_muxer.Mux.{
  Split, Link, MuxConnection, with_write, poll_write, poll_flush, poll_shutdown, poll_read,
}
use vt_muxer.Mux.Connect.{freed-ValidAt}
use vt_muxer.Mux.Listen.{
  free_all, MuxListener, with_listener_capacity, new, new_pipe, into_pipe, start_accept,
}
use vt_muxer.Mux.Accept.{IsSplit}

module _ (w : Runtime) (s : Source) (stream : s.World → List ℕ) where
  module _ (t : Split w s) where
    free_all-ValidAt :
        (entries : ℕ → Option (ReaderEntry s)) (queued : List ℕ)
        → ((j : ℕ) → ValidAt s (entries j))
        → (j : ℕ) → ValidAt s (free_all w s t entries queued j)
    unfolding free_all
    free_all-ValidAt entries [] v = v
    free_all-ValidAt entries (i ∷ rest) v =
        free_all-ValidAt (put_entry s entries i none) rest (freed-ValidAt w s stream entries i v)

    -- A listener, and a pipe, start with a valid shared reader.
    new-Started :
        (tcp : t.TcpStream)
        → IsShared s stream (new w s t tcp).1.shared
          × IsShared s stream (new_pipe w s t tcp).1.shared
    unfolding new new_pipe with_listener_capacity into_pipe Shared.new Shared.new_packet
    new-Started tcp = (
      new-IsShared s stream (t.bounded 1 (t.into_split tcp).0).1,
      let v = new-IsShared s stream (t.bounded 0 (t.into_split tcp).0).1 in
          record {
            buffers = free_all-ValidAt _ (t.drop_receiver _ _).0 v.buffers;
            known = v.known;
            state_valid = v.state_valid;
          },
    )

    -- To start `accept` keeps the shared reader valid and takes nothing from its stream.
    start_accept-IsShared :
        IsSplit w s t stream
        → (m : MuxListener w s t) (n : Link w s) → IsShared s stream n.shared
        → let (f, n') = start_accept w s t m n in
          IsShared s stream n'.shared × (stream n'.shared.world ≡ stream n.shared.world)
    unfolding start_accept
    start_accept-IsShared laws m n v = (
      record { buffers = v.buffers; known = v.known; state_valid = v.state_valid },
      laws.recv_quiet m.receiver n.shared.world,
    )

  -- The writing methods of a connection leave its entry and the shared reader alone.
  abbrev Apart : MuxConnection w s → Link w s → MuxConnection w s → Link w s → Type 0
  Apart c n c' n' = (c'.read ≡ c.read) × (n'.shared ≡ n.shared)

  module _ (laws : IsRuntime w) (base accepted : List ℕ) (a : SocketAddr) (c : MuxConnection w s)
      (k : w.Waker) (n : Link w s) (v : IsWriting w base accepted a c.write n.wire) where
    poll_write-Apart :
        (buf : List ℕ)
        → AreBytes buf
        → let (o, c', n') = poll_write w s c k buf n in
          Written w base accepted a buf o c'.write n'.wire × Apart c n c' n'
    unfolding poll_write with_write
    poll_write-Apart buf hs =
        (poll_write-Written w laws base accepted a buf c.write k n.wire v hs, (refl, refl))

    poll_flush-Apart :
        IsPrompt w
        → let (o, c', n') = poll_flush w s c k n in
          FlushEnded w base accepted a o c'.write n'.wire × Apart c n c' n'
    unfolding poll_flush with_write
    poll_flush-Apart prompt =
        (flush-FlushEnded w laws prompt base accepted a c.write k n.wire v, (refl, refl))

    poll_shutdown-Apart :
        let (o, c', n') = poll_shutdown w s c k n in
        Shut w base accepted a o c'.write n'.wire × Apart c n c' n'
    unfolding poll_shutdown with_write
    poll_shutdown-Apart =
        (poll_shutdown-Shut w laws base accepted a c.write k n.wire (inl v), (refl, refl))

  -- To read leaves the writing side alone.
  poll_read-Apart :
      (t : ReadBuf)
      → IsSource s stream
      → IsReadBuf t
      → (fuel : ℕ) (c : MuxConnection w s) (k : s.Waker) (e : ReaderEntry s) (b : t.Buf)
        (n : Link w s)
      → IsShared s stream n.shared
      → n.shared.entries c.read ≡ some e
      → work s stream n.shared < fuel
      → let (o, b', n') = poll_read w s t fuel c k b n in
        ReadEnded s stream t n.shared c.read e b
          (min (t.remaining b) (length (bytes e.buffer)))
          o
          n'.shared
          b'
        × (n'.wire ≡ n.wire)
  unfolding poll_read
  poll_read-Apart t src laws fuel c k e b n v live enough =
      rw (live, poll_read)
        (poll_read-Ended s stream t src laws fuel n.shared k c.read e b v live enough, refl)
