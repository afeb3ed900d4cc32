-- ===== src/Demux/End.antt =====
-- src/read.rs: what a connection has read when its stream ends.
use vt_muxer.Common.{
  ℕ, min, ◌≡◌, ◌<◌, refl, sym, ap, ◌∙◌, inl, inr, Option, some, List, [], ◌∷◌, ◌++◌, subst, length,
  take, length-take, length-append, append-nil, arith,
}
use vt_muxer.Common.Poll.{Poll, ready, IoResult, ok}
use vt_muxer.ThinAddr.{SocketAddr}
use vt_muxer.ReadBuffer.{bytes, ReadBuf, IsReadBuf}
use vt_muxer.Read.Shared.{Source, ReaderEntry, LockedReaderState}
use vt_muxer.Read.Inner.{weak_count, poll_read}
use vt_muxer.Read.Entries.{IsSource, unread}
use vt_muxer.Read.Valid.{work}
use vt_muxer.Read.Delivery.{ReadEnded, poll_read-Ended}
use vt_muxer.Demux.Reads.{at_end}
use vt_muxer.Demux.Run.{
  Seen, Step, polls, reads, another_reads, adds, another_drops, world_acts, Reach, here, next, Owes,
  polls-Owes, reads-Owes, another_reads-Owes, adds-Owes, another_drops-Owes, world_acts-Owes,
}

module _ (r : Source) (stream : r.World → List ℕ) (t : ReadBuf) (src : IsSource r stream)
    (laws : IsReadBuf t) where
  open r use {World, Waker}

  Step-Owes :
      {a : SocketAddr} {i : ℕ} {total : List ℕ} {y z : Seen r stream t}
      → Step r stream t i y z
      → Owes r stream t a i total y
      → Owes r stream t a i total z
  Step-Owes (polls fuel k o e fine same) w = polls-Owes r stream t w src fuel k o e fine same
  Step-Owes (reads fuel k e b b' got o live p fine held more) w =
      reads-Owes r stream t w src laws fuel k e b b' got o live p fine held more
  Step-Owes (another_reads fuel k j e b b' o other live p fine same) w =
      another_reads-Owes r stream t w src laws fuel k j e b b' o other live p fine same
  Step-Owes (adds sock o e same) w = adds-Owes r stream t w src sock o e same
  Step-Owes (world_acts x quiet e same) w = world_acts-Owes r stream t w x quiet e same
  Step-Owes (another_drops j other e same) w = another_drops-Owes r stream t w j other e same

  -- Whatever happens to the shared reader, over a stream and a `ReadBuf` that keep their contracts
  -- and without running out of memory: polls of it, reads of this connection and of others,
  -- connections that are added, other connections that are dropped, whatever takes nothing from the
  -- stream. The shared reader stays valid, and some bytes, always the same, are what the connection
  -- has read, then what is unread in its entry, then a rest. Unless the shared reader is in the
  -- error state, the rest is the connection's part of the frames to come, up to the one that closes
  -- it; once its address is out of the map, it is empty; in the error state with the address in the
  -- map, nothing more is said of it.
  pub Reach-Owes :
      {a : SocketAddr} {i : ℕ} {total : List ℕ} {y z : Seen r stream t}
      → Reach r stream t i y z
      → Owes r stream t a i total y
      → Owes r stream t a i total z
  Reach-Owes here w = w
  Reach-Owes (next run step) w = Step-Owes step (Reach-Owes run w)

  -- A read that gives nothing, with room for something.
  nothing_left :
      (l : LockedReaderState r) (i : ℕ) (e : ReaderEntry r) (b b' : t.Buf)
      (l' : LockedReaderState r)
      → 0 < t.remaining b
      → t.contents b' ≡ t.contents b
      → ReadEnded r stream t l i e b
          (min (t.remaining b) (length (bytes e.buffer)))
          (some (ready (ok tt)))
          l'
          b'
      → (weak_count l.socket_map i ≡ 0) × (bytes e.buffer ≡ [])
  nothing_left l i e b b' l' room same ended = elim ended.ending [
    | inl (some_bytes, done, kept, quiet) ↦
        absurd (omega (arith, some_bytes, none_taken, length-take n (bytes e.buffer)))
    | inr (inl (zero_bytes, done, inl full)) ↦ absurd (omega (arith, full, room))
    | inr (inl (zero_bytes, done, inr gone)) ↦
        (gone, nil_of (bytes e.buffer) (omega (arith, zero_bytes, room)))
    | inr (inr (zero_bytes, has_room, known, waiting)) ↦ absurd waiting
  ]
    where
      n : ℕ
      n = min (t.remaining b) (length (bytes e.buffer))

      none_taken : length (take n (bytes e.buffer)) ≡ 0
      none_taken = omega (
        arith,
        ap length (sym same ∙ ended.copied),
        length-append (t.contents b) (take n (bytes e.buffer)),
      )

      nil_of : (xs : List ℕ) → length xs ≡ 0 → xs ≡ []
      nil_of [] h = refl
      nil_of (x ∷ xs) h = absurd (omega (arith, h))

  -- When `poll_read` of a connection succeeds with no byte although there is room, after any run, the
  -- connection has read all that it was owed: no byte is lost, repeated or out of order.
  pub end_of_stream :
      {a : SocketAddr} {i : ℕ} {total : List ℕ} {y z : Seen r stream t}
      → Owes r stream t a i total y
      → Reach r stream t i y z
      → (fuel : ℕ) (k : Waker) (e : ReaderEntry r) (b b' : t.Buf) (l' : LockedReaderState r)
      → z.shared.entries i ≡ some e
      → work r stream z.shared < fuel
      → 0 < t.remaining b
      → poll_read r t fuel z.shared k i e b ≡ (some (ready (ok tt)), l', b')
      → t.contents b' ≡ t.contents b
      → z.out ≡ total
  end_of_stream {i = i} {z = z} w run fuel k e b b' l' live enough room p nothing =
      let owes = Reach-Owes run w in
      let ended =
        subst
          (λ (q : Option (Poll (IoResult (Unit {0}))) × LockedReaderState r × t.Buf).
            ReadEnded r stream t z.shared i e b (min (t.remaining b) (length (bytes e.buffer))) q.0
              q.1 q.2)
          p (poll_read-Ended r stream t src laws fuel z.shared k i e b owes.valid live enough) in
      let (gone, empty) = nothing_left z.shared i e b b' l' room nothing ended in
      sym (
        owes.whole
        ∙ ap (λ xs. z.out ++ xs) (at_end r stream t owes.tracked gone (ap (unread r) live ∙ empty))
        ∙ append-nil z.out)
