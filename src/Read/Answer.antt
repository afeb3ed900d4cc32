-- ===== src/Read/Answer.antt =====
-- src/read.rs: what `poll_read` of the shared reader makes of the stream's own answer.
use vt_muxer.Common.{
  ℕ, ◌+◌, ◌-◌, ◌≡◌, ◌≤◌, ◌<◌, refl, sym, ap, ◌⊎◌, inl, inr, true, false, Option, none, some, List,
  [], ◌∷◌, ◌==◌, leb, length, Bool-cases, subst, arith,
}
use vt_muxer.Common.Poll.{Poll, ready, pending, IoResult, ok, err, ErrorKind}
use vt_muxer.ThinAddr.{SocketAddr}
use vt_muxer.ReadBuffer.{IsBuffer, Window, window, Filled, store, after_read, fill_buffer}
use vt_muxer.Read.Shared.{
  Source, ReaderEntry, SharedReaderState, LockedReaderState, lookup, upgrade, put_entry,
}
use vt_muxer.Read.Poll.{fail, count_read, skip_read, entry_read, read_into, poll_payload}
use vt_muxer.Read.Entries.{IsSource, ValidAt, Live, upgrade-Live}
use vt_muxer.Read.Payload.{after_payload, PayloadEnded, poll_payload-Ended}

module _ (r : Source) (stream : r.World → List ℕ) where
  open r use {World, Waker, wake, poll_take}

  -- What is made of the stream's answer with `left` bytes to come in the state `s`: bytes are counted,
  -- no byte is the end of the stream, and an error or a wait is passed on.
  abbrev pub Told :
      SocketAddr
      → ℕ
      → SharedReaderState r
      → Poll (IoResult Filled)
      → Poll (IoResult (Unit {0}))
      → SharedReaderState r
      → Type 0
  Told owner left s (ready (ok f)) o s' =
      (0 < length f.got)
        × (o ≡ ready (ok tt))
        × (s' ≡ after_payload r stream owner (left - length f.got))
      ⊎ (f.got ≡ []) × (o ≡ ready (err ErrorKind.unexpected_eof)) × (s' ≡ SharedReaderState.error)
  Told owner left s (ready (err x)) o s' = (o ≡ ready (err x)) × (s' ≡ s)
  Told owner left s pending o s' = (o ≡ pending) × (s' ≡ s)

  -- The payload of nobody is read into 65535 bytes of scratch, and that of an entry into its buffer. A
  -- full buffer is no answer of the stream: the call leaves its waker there and waits.
  abbrev pub PayloadTold :
      LockedReaderState r
      → Waker
      → Option (ℕ × ReaderEntry r)
      → SocketAddr
      → ℕ
      → Poll (IoResult (Unit {0}))
      → LockedReaderState r
      → Type 0
  PayloadTold l k none owner left o l' =
      Told owner left l.state
        (poll_take left k l.world (record { filled = 0; initialized = 0; capacity = 65535 })).0 o
        l'.state
  PayloadTold l k (some (i, e)) owner left o l' =
      (e.buffer.filled ≡ e.buffer.capacity)
        × (o ≡ pending)
        × (l'.state ≡ l.state)
        × (l'.entries i ≡ some (record e { waiting_waker = k }))
        × (l'.world ≡ wake e.reader_pipe_waker l.world)
      ⊎ (e.buffer.filled < e.buffer.capacity)
        × Told owner left l.state (poll_take left k l.world (window e.buffer)).0 o l'.state

  nil_of : (xs : List ℕ) (n : ℕ) → length xs ≡ n → (n == 0) ≡ true → xs ≡ []
  nil_of [] n e h = refl
  nil_of (x ∷ xs) n e h = absurd (ground (arith, e))

  count_read-Told :
      (l : LockedReaderState r) (owner : SocketAddr) (left : ℕ) (s : SharedReaderState r)
      (f : Filled) (amount : ℕ)
      → length f.got ≡ amount
      → length f.got ≤ left
      → let (o, l') = count_read r l owner left amount in
        Told owner left s (ready (ok f)) o l'.state
  unfolding count_read fail
  count_read-Told l owner left s f amount size fits = elim (Bool-cases (amount == 0)) [
    | inl eof ↦ rw (eof, count_read) (inr (nil_of f.got amount size eof, refl, refl))
    | inr some_bytes ↦
        rw (some_bytes, count_read, within)
          (inl (
            positive some_bytes,
            refl,
            ap (λ n. after_payload r stream owner (left - n)) (sym size),
          ))
  ]
    where
      positive : (amount == 0) ≡ false → 0 < length f.got
      positive h = grind (arith, size)

      within : leb amount left ≡ true
      within = ground (arith, size, fits)

  skip_read-Told :
      IsSource r stream
      → (l : LockedReaderState r) (k : Waker) (owner : SocketAddr) (left : ℕ) (win : Window)
      → (polled : Poll (IoResult Filled) × World) → poll_take left k l.world win ≡ polled
      → let (o, l') = skip_read r l owner left polled in Told owner left l.state polled.0 o l'.state
  unfolding skip_read
  skip_read-Told src l k owner left win (ready (ok f), w) e =
      count_read-Told (record l { world = w }) owner left l.state f (length f.got) refl
        (src.take_limit left k l.world win f w e)
  skip_read-Told src l k owner left win (ready (err x), w) e = (refl, refl)
  skip_read-Told src l k owner left win (pending, w) e = (refl, refl)

  entry_read-Told :
      IsSource r stream
      → (l : LockedReaderState r) (k : Waker) (owner : SocketAddr) (left i : ℕ) (e : ReaderEntry r)
      → (polled : Poll (IoResult Filled) × World)
      → poll_take left k l.world (window e.buffer) ≡ polled
      → let (o, l') = entry_read r l k owner left i e (after_read e.buffer polled) in
        Told owner left l.state polled.0 o l'.state
  unfolding entry_read after_read
  entry_read-Told src l k owner left i e (ready (ok f), w) h =
      count_read-Told
        (record l {
          entries = put_entry r l.entries i (
              some (record e {
                buffer = record e.buffer {
                  cells = store e.buffer.cells e.buffer.filled f.got;
                  filled = e.buffer.filled + length f.got;
                  initialized = f.initialized;
                };
              }));
          world = wake e.reader_pipe_waker w;
        })
        owner left l.state f (e.buffer.filled + length f.got - e.buffer.filled) (omega arith)
        (src.take_limit left k l.world (window e.buffer) f w h)
  entry_read-Told src l k owner left i e (ready (err x), w) h = (refl, refl)
  entry_read-Told src l k owner left i e (pending, w) h = (refl, refl)

  put_entry-same :
      (entries : ℕ → Option (ReaderEntry r)) (i : ℕ) (o : Option (ReaderEntry r))
      → put_entry r entries i o i ≡ o
  unfolding put_entry
  put_entry-same entries i o = rw (same, put_entry) refl
    where
      same : (i == i) ≡ true
      same = ground arith

  read_into-Told :
      IsSource r stream
      → (l : LockedReaderState r) (k : Waker) (owner : SocketAddr) (left : ℕ)
        (target : Option (ℕ × ReaderEntry r))
      → ((j : ℕ) → ValidAt r (l.entries j))
      → Live r l.entries target
      → let (o, l') = read_into r l k owner left target in PayloadTold l k target owner left o l'
  unfolding read_into fill_buffer
  read_into-Told src l k owner left none valid live =
      skip_read-Told src l k owner left _ (poll_take left k l.world _) refl
  read_into-Told src l k owner left (some (i, e)) valid live =
      elim (Bool-cases (e.buffer.capacity - e.buffer.filled == 0)) [
        | inl full ↦
            rw (full, read_into, fill_buffer, entry_read)
              (inl (is_full full, refl, refl, put_entry-same l.entries i _, refl))
        | inr room ↦
            rw (room, read_into, fill_buffer)
              (inr (
                has_room room,
                entry_read-Told src l k owner left i e (poll_take left k l.world (window e.buffer))
                    refl,
              ))
      ]
    where
      buffer_valid : IsBuffer e.buffer
      buffer_valid = subst (ValidAt r) live (valid i)

      is_full :
          (e.buffer.capacity - e.buffer.filled == 0) ≡ true → e.buffer.filled ≡ e.buffer.capacity
      is_full h = ground (arith, buffer_valid.filled_in, buffer_valid.initialized_in)

      has_room :
          (e.buffer.capacity - e.buffer.filled == 0) ≡ false → e.buffer.filled < e.buffer.capacity
      has_room h = ground arith

  -- A poll of the shared reader with `left` bytes of the payload for `owner` to come, over a stream
  -- that keeps its contract, all buffers valid. If it succeeds it has taken at least one byte from
  -- the stream and at most `left`, so none of the next frame; they are appended to the unread bytes
  -- of the owner's entry, or dropped if the owner has none, and the state is `read` with the rest,
  -- or the next header when none is left. If it fails or waits, no byte is taken from the stream.
  -- The other entries' unread bytes and the socket map never change, and all buffers stay valid.
  -- Which of these happens is as the stream says: if the owner has an entry with a full buffer, the
  -- call waits with its waker in the entry, the connection's reader woken and the same state; else
  -- it succeeds when the stream has given bytes, ends in `UnexpectedEof` and the state `error`
  -- when the stream was ready with none, and passes an error or a wait on with the same
  -- state.
  pub poll_payload-Answered :
      IsSource r stream
      → (l : LockedReaderState r) (k : Waker) (owner : SocketAddr) (left : ℕ)
      → ((j : ℕ) → ValidAt r (l.entries j))
      → let (o, l') = poll_payload r l k owner left in
        let target = upgrade r l.entries (lookup r l.socket_map owner) in
        PayloadEnded r stream l target owner left o l' × PayloadTold l k target owner left o l'
  unfolding poll_payload
  poll_payload-Answered src l k owner left valid = (
    poll_payload-Ended r stream src l k owner left valid,
    read_into-Told src l k owner left (upgrade r l.entries (lookup r l.socket_map owner)) valid
        (upgrade-Live r l.entries (lookup r l.socket_map owner)),
  )
