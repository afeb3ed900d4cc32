-- ===== src/Read/Header.antt =====
-- src/read.rs: `poll_next_packet` collects a header.
use vt_muxer.Common.{
  ℕ, ◌+◌, ◌-◌, ◌%◌, ◌≡◌, ◌≢◌, ◌≤◌, ◌<◌, refl, sym, ap, ◌∙◌, ◌⊎◌, inl, inr, true, false, List, [],
  ◌∷◌, ◌++◌, ◌==◌, length, take, compare, Ordering, ltb, ltb→lt, Bool-cases, arith,
}
use vt_muxer.Common.Poll.{Poll, ready, pending, IoResult, ok, err, ErrorKind}
use vt_muxer.Protocol
use vt_muxer.ReadBuffer.{Window, Filled}
use vt_muxer.Read.Shared.{Source, SharedReaderState, LockedReaderState, lookup}
use vt_muxer.Read.Poll.{fail, take_header, after_header, poll_next_packet}
use vt_muxer.Read.Entries.{IsSource}
use vt_muxer.Read.Dispatch.{table, Kept, Dispatched, take_header-Dispatched}

module _ (r : Source) (stream : r.World → List ℕ) where
  open r use {World, Waker, SendFut, wake, poll_read, alloc, is_disconnected, into_send_async}

  -- How `poll_next_packet` may end when `filled` bytes of the header were there.
  abbrev pub HeaderEnded :
      LockedReaderState r → List ℕ → ℕ → Poll (IoResult (Unit {0})) → LockedReaderState r → Type 0
  HeaderEnded l header filled o l' =
      (got : List ℕ) × (stream l.world ≡ got ++ stream l'.world)
      × ((filled + length got < Protocol.header_size)
            × (l'.socket_map ≡ l.socket_map)
            × Kept r stream (table r stream l) l'
            × ((0 < length got)
                  × (o ≡ pending)
                  × (l'.state
                      ≡ SharedReaderState.next_packet (take filled header ++ got)
                          (filled + length got))
                ⊎ (got ≡ [])
                  × (o ≢ ready (ok tt))
                  × (l'.state ≡ l.state
                      ⊎ (l'.state ≡ SharedReaderState.error)
                        × (o ≡ ready (err ErrorKind.unexpected_eof))))
          ⊎ (filled + length got ≡ Protocol.header_size)
            × Dispatched r stream (table r stream l)
                (SharedReaderState.next_packet (take filled header ++ got) filled)
                (Protocol.addr (Protocol.header_of_bytes (take filled header ++ got)))
                (Protocol.len (Protocol.header_of_bytes (take filled header ++ got)))
                (lookup r l.socket_map
                  (Protocol.addr (Protocol.header_of_bytes (take filled header ++ got))))
                o l')

  -- What is made of the stream's answer: bytes are taken, no byte is the end of the stream, and an
  -- error or a wait is passed on.
  abbrev pub HeaderTold :
      LockedReaderState r
      → Poll (IoResult Filled)
      → Poll (IoResult (Unit {0}))
      → LockedReaderState r
      → Type 0
  HeaderTold l (ready (ok f)) o l' =
      (0 < length f.got) × (stream l.world ≡ f.got ++ stream l'.world)
      ⊎ (f.got ≡ [])
        × (o ≡ ready (err ErrorKind.unexpected_eof))
        × (l'.state ≡ SharedReaderState.error)
  HeaderTold l (ready (err x)) o l' = (o ≡ ready (err x)) × (l'.state ≡ l.state)
  HeaderTold l pending o l' = (o ≡ pending) × (l'.state ≡ l.state)

  abbrev ok_of : Poll (IoResult (Unit {0})) → ℕ
  ok_of (ready (ok _)) = 1
  ok_of _ = 0

  lt-compare : (a b : ℕ) → a < b → compare a b ≡ Ordering.lt
  lt-compare a b h = ground arith

  eq-compare : (a b : ℕ) → a ≡ b → compare a b ≡ Ordering.eq
  eq-compare a b h = ground arith

  nil_of : (xs : List ℕ) → (length xs == 0) ≡ true → xs ≡ []
  nil_of [] h = refl
  nil_of (x ∷ xs) h = absurd (ground arith)

  abbrev pub header_window : ℕ → Window
  header_window filled = record {
    filled = 0;
    initialized = 0;
    capacity = Protocol.header_size - filled;
  }

  after_header-Answered :
      IsSource r stream
      → (l : LockedReaderState r) (k : Waker) (header : List ℕ) (filled : ℕ)
      → filled < Protocol.header_size
      → filled ≤ length header
      → (polled : Poll (IoResult Filled) × World)
      → poll_read k l.world (header_window filled) ≡ polled
      → let (o, l') = after_header r l k header filled polled in
        HeaderEnded l header filled o l' × HeaderTold l polled.0 o l'
  unfolding after_header fail
  after_header-Answered src l k header filled part whole (pending, w) e = (
    (
      [],
      sym ((src.read_reader k).waits l.world (header_window filled) w e),
      inl (
        omega (arith, part),
        refl,
        record { same_entries = refl; same_fresh = refl },
        inr (refl, λ h. absurd (omega (arith, ap ok_of h)), inl refl),
      ),
    ),
    (refl, refl),
  )
  after_header-Answered src l k header filled part whole (ready (err x), w) e = (
    (
      [],
      sym ((src.read_reader k).fails l.world (header_window filled) x w e),
      inl (
        omega (arith, part),
        refl,
        record { same_entries = refl; same_fresh = refl },
        inr (refl, λ h. absurd (omega (arith, ap ok_of h)), inl refl),
      ),
    ),
    (refl, refl),
  )
  after_header-Answered src l k header filled part whole (ready (ok f), w) e =
      elim (Bool-cases (length f.got == 0)) [
        | inl eof ↦
            rw (eof, after_header)
              (
                (
                  f.got,
                  gave,
                  inl (
                    omega (arith, part, ap length (nil_of f.got eof)),
                    refl,
                    record { same_entries = refl; same_fresh = refl },
                    inr (
                      nil_of f.got eof,
                      λ h. absurd (omega (arith, ap ok_of h)),
                      inr (refl, refl),
                    ),
                  ),
                ),
                inr (nil_of f.got eof, refl, refl),
              )
        | inr some_bytes ↦ elim (Bool-cases (ltb (filled + length f.got) Protocol.header_size)) [
          | inl short ↦
              rw
                (
                  some_bytes,
                  small,
                  lt-compare (filled + length f.got) Protocol.header_size (below short),
                  after_header,
                )
                (
                  (
                    f.got,
                    gave,
                    inl (
                      below short,
                      refl,
                      record { same_entries = refl; same_fresh = refl },
                      inl (
                        positive some_bytes,
                        refl,
                        ap
                            (λ n.
                              SharedReaderState.next_packet (take filled header ++ f.got)
                                (filled + n))
                            small,
                      ),
                    ),
                  ),
                  inl (positive some_bytes, gave),
                )
          | inr full ↦
              let n = eq-compare (filled + length f.got) Protocol.header_size (exact full) in
              rw (some_bytes, small, n, after_header)
                (
                  (
                    f.got,
                    gave ∙ ap (λ xs. f.got ++ xs) (sym dispatched.1),
                    inr (exact full, dispatched.0),
                  ),
                  inl (positive some_bytes, gave ∙ ap (λ xs. f.got ++ xs) (sym dispatched.1)),
                )
        ]
      ]
    where
      gave : stream l.world ≡ f.got ++ stream w
      gave = (src.read_reader k).gives l.world (header_window filled) f w e

      room : filled + length f.got ≤ Protocol.header_size
      room =
          let (a, b) =
            (src.read_reader k).in_room l.world (header_window filled) f w
              (omega arith, omega arith) e in
          omega (arith, a, b, part)

      small : length f.got % 256 ≡ length f.got
      small = omega (arith, room)

      below :
          ltb (filled + length f.got) Protocol.header_size ≡ true
          → filled + length f.got < Protocol.header_size
      below h = ltb→lt (filled + length f.got) Protocol.header_size h

      exact :
          ltb (filled + length f.got) Protocol.header_size ≡ false
          → filled + length f.got ≡ Protocol.header_size
      exact h = ground (arith, room)

      positive : (length f.got == 0) ≡ false → 0 < length f.got
      positive h = ground arith

      next : LockedReaderState r
      next = record l {
        world = w;
        state = SharedReaderState.next_packet (take filled header ++ f.got) filled;
      }

      h : Protocol.MuxFrameHeader
      h = Protocol.header_of_bytes (take filled header ++ f.got)

      dispatched :
          let (o, l') = take_header r next k (Protocol.addr h) (Protocol.len h) in
          Dispatched r stream
            (table r stream l)
            next.state
            (Protocol.addr h)
            (Protocol.len h)
            (lookup r l.socket_map (Protocol.addr h))
            o
            l'
          × (stream l'.world ≡ stream w)
      dispatched = take_header-Dispatched r stream src next k (Protocol.addr h) (Protocol.len h)

  -- A poll of the shared reader between two frames, with less than a whole header there, over a
  -- stream that keeps its contract. It takes some bytes from the stream and no more than the header
  -- lacks. If the header is still not whole, the call succeeds in nothing: with new bytes it keeps
  -- them and answers `Pending`; without any, the state is the same or `error`. If it is whole, the
  -- call does what its address and length say: with a length, `read` is the state; without one, the
  -- address is taken out of the socket map if it was in it; else the connection is opened with a new
  -- valid entry that has nothing unread, or ignored, or there is no memory for its buffer, and then
  -- the state counts as many bytes of the header as before the call. What is not named here does not
  -- change in the map and the entries. Which of these happens is as the stream says: when it is ready
  -- with bytes, exactly these are taken, so the answer `Pending` is then the call's own; when it is
  -- ready with none, the call ends in `UnexpectedEof` and the state `error`; an error or a wait is
  -- passed on with the same state.
  pub poll_next_packet-Answered :
      IsSource r stream
      → (l : LockedReaderState r) (k : Waker) (header : List ℕ) (filled : ℕ)
      → filled < Protocol.header_size
      → filled ≤ length header
      → let (o, l') = poll_next_packet r l k header filled in
        HeaderEnded l header filled o l'
        × HeaderTold l (poll_read k l.world (header_window filled)).0 o l'
  unfolding poll_next_packet
  poll_next_packet-Answered src l k header filled part whole =
      after_header-Answered src l k header filled part whole
        (poll_read k l.world (header_window filled)) refl

  pub poll_next_packet-Ended :
      IsSource r stream
      → (l : LockedReaderState r) (k : Waker) (header : List ℕ) (filled : ℕ)
      → filled < Protocol.header_size
      → filled ≤ length header
      → let (o, l') = poll_next_packet r l k header filled in HeaderEnded l header filled o l'
  poll_next_packet-Ended src l k header filled part whole =
      (poll_next_packet-Answered src l k header filled part whole).0
