-- ===== src/Read/Payload.antt =====
-- src/read.rs: `poll_read` of the shared reader, on the payload of a frame.
use vt_muxer.Common.{
  ℕ, ◌-◌, ◌≡◌, ◌≤◌, ◌<◌, refl, sym, ap, ◌∙◌, ◌⊎◌, inl, inr, true, false, Option, none, some, List,
  [], ◌∷◌, ◌++◌, ◌==◌, leb, if◌then◌else◌, length, append-nil, Bool-cases, subst, arith,
}
use vt_muxer.Common.Poll.{Poll, ready, pending, IoResult, ok, err, ErrorKind}
use vt_muxer.ThinAddr.{SocketAddr}
use vt_muxer.ReadBuffer.{ReadBuffer, IsBuffer, bytes, Window, Filled, fill_buffer}
use vt_muxer.ReadBuffer.Limit.{Within, fill_buffer-Within}
use vt_muxer.ReadBuffer.Fifo.{FillEnded, fill_buffer-FillEnded}
use vt_muxer.Read.Shared.{
  Source, ReaderEntry, SharedReaderState, LockedReaderState, new_packet, lookup, upgrade, put_entry,
}
use vt_muxer.Read.Poll.{fail, count_read, skip_read, entry_read, read_into, poll_payload}
use vt_muxer.Read.Entries.{
  IsSource, unread, ValidAt, Live, upgrade-Live, Taken, put_entry-shared, put_entry-ValidAt,
  put_entry-is_alive,
}

module _ (r : Source) (stream : r.World → List ℕ) where
  open r use {World, Waker, wake, poll_take}

  abbrev pub after_payload : SocketAddr → ℕ → SharedReaderState r
  after_payload owner left = if left == 0 then new_packet r else SharedReaderState.read owner left

  -- How `poll_read` may end in the state `read owner left`.
  abbrev pub PayloadEnded :
      LockedReaderState r
      → Option (ℕ × ReaderEntry r)
      → SocketAddr
      → ℕ
      → Poll (IoResult (Unit {0}))
      → LockedReaderState r
      → Type 0
  PayloadEnded l target owner left (ready (ok _)) l' =
      (got : List ℕ) × (0 < length got)
      × (length got ≤ left)
      × Taken r stream l target got l'
      × (l'.state ≡ after_payload owner (left - length got))
  PayloadEnded l target owner left (ready (err e)) l' =
      Taken r stream l target [] l'
      × ((l'.state ≡ l.state)
          ⊎ (l'.state ≡ SharedReaderState.error) × (e ≡ ErrorKind.unexpected_eof))
  PayloadEnded l target owner left pending l' = Taken r stream l target [] l' × (l'.state ≡ l.state)

  count_read-Ended :
      (l₀ l : LockedReaderState r) (target : Option (ℕ × ReaderEntry r)) (owner : SocketAddr)
      (left amount : ℕ) (got : List ℕ)
      → length got ≡ amount
      → amount ≤ left
      → Taken r stream l₀ target got l
      → let (o, l') = count_read r l owner left amount in PayloadEnded l₀ target owner left o l'
  unfolding count_read fail
  count_read-Ended l₀ l target owner left amount got size fits t = elim (Bool-cases (amount == 0)) [
    | inl eof ↦ rw (eof, count_read) (as_empty got (size ∙ is_zero eof) t, inr (refl, refl))
    | inr some_bytes ↦
        rw (some_bytes, count_read, within)
          (
            got,
            positive some_bytes,
            omega (arith, size),
            again t,
            ap (λ n. after_payload owner (left - n)) (sym size),
          )
  ]
    where
      is_zero : (amount == 0) ≡ true → amount ≡ 0
      is_zero h = ground arith

      positive : (amount == 0) ≡ false → 0 < length got
      positive h = grind (arith, size)

      within : leb amount left ≡ true
      within = ground arith

      again :
          {s : SharedReaderState r} {xs : List ℕ}
          → Taken r stream l₀ target xs l
          → Taken r stream l₀ target xs (record l { state = s })
      again u = record {
        from_stream = u.from_stream;
        shared = u.shared;
        valid = u.valid;
        same_alive = u.same_alive;
        same_map = u.same_map;
        same_fresh = u.same_fresh;
      }

      as_empty :
          (xs : List ℕ)
          → length xs ≡ 0
          → Taken r stream l₀ target xs l
          → Taken r stream l₀ target [] (record l { state = SharedReaderState.error })
      as_empty [] e u = again u
      as_empty (x ∷ xs) e u = absurd (omega (arith, e))

  skip_read-Ended :
      IsSource r stream
      → (l : LockedReaderState r) (k : Waker) (owner : SocketAddr) (left : ℕ) (win : Window)
      → ((j : ℕ) → ValidAt r (l.entries j))
      → (polled : Poll (IoResult Filled) × World) → poll_take left k l.world win ≡ polled
      → let (o, l') = skip_read r l owner left polled in PayloadEnded l none owner left o l'
  unfolding skip_read
  skip_read-Ended src l k owner left win valid (ready (ok f), w) e =
      count_read-Ended l (record l { world = w }) none owner left (length f.got) f.got refl
        (src.take_limit left k l.world win f w e)
        (record {
          from_stream = (src.take_reader left k).gives l.world win f w e;
          shared = λ j. sym (append-nil (unread r (l.entries j)));
          valid = valid;
          same_alive = λ j. refl;
          same_map = refl;
          same_fresh = refl;
        })
  skip_read-Ended src l k owner left win valid (ready (err x), w) e = (
    record {
      from_stream = sym ((src.take_reader left k).fails l.world win x w e);
      shared = λ j. sym (append-nil (unread r (l.entries j)));
      valid = valid;
      same_alive = λ j. refl;
      same_map = refl;
      same_fresh = refl;
    },
    inl refl,
  )
  skip_read-Ended src l k owner left win valid (pending, w) e = (
    record {
      from_stream = sym ((src.take_reader left k).waits l.world win w e);
      shared = λ j. sym (append-nil (unread r (l.entries j)));
      valid = valid;
      same_alive = λ j. refl;
      same_map = refl;
      same_fresh = refl;
    },
    refl,
  )

  updated :
      (l : LockedReaderState r) (i : ℕ) (e e' : ReaderEntry r) (got : List ℕ) (w : World)
      → ((j : ℕ) → ValidAt r (l.entries j))
      → l.entries i ≡ some e
      → stream l.world ≡ got ++ stream w
      → bytes e'.buffer ≡ bytes e.buffer ++ got
      → IsBuffer e'.buffer
      → Taken r stream l
          (some (i, e))
          got
          (record l { entries = put_entry r l.entries i (some e'); world = w })
  updated l i e e' got w valid live gave took v = record {
    from_stream = gave;
    shared = put_entry-shared r l.entries i e e' got live took;
    valid = put_entry-ValidAt r l.entries i e' valid v;
    same_alive = put_entry-is_alive r l.entries i e e' live;
    same_map = refl;
    same_fresh = refl;
  }

  -- A fill that gave nothing: the buffer is the same.
  untouched :
      (l : LockedReaderState r) (i : ℕ) (e e' : ReaderEntry r) (w : World)
      → ((j : ℕ) → ValidAt r (l.entries j))
      → l.entries i ≡ some e
      → stream w ≡ stream l.world
      → e'.buffer ≡ e.buffer
      → Taken r stream l
          (some (i, e))
          []
          (record l { entries = put_entry r l.entries i (some e'); world = w })
  untouched l i e e' w valid live idle same =
      updated l i e e' [] w valid live (sym idle)
        (ap bytes same ∙ sym (append-nil (bytes e.buffer))) (subst IsBuffer (sym same) here)
    where
      here : IsBuffer e.buffer
      here = subst (ValidAt r) live (valid i)

  entry_read-Ended :
      IsSource r stream
      → (l : LockedReaderState r) (k : Waker) (owner : SocketAddr) (left i : ℕ) (e : ReaderEntry r)
      → ((j : ℕ) → ValidAt r (l.entries j))
      → l.entries i ≡ some e
      → (o : Poll (IoResult (Option ℕ))) (b : ReadBuffer) (w : World)
      → FillEnded (λ w win. poll_take left k w win) stream e.buffer l.world o b w
      → Within left o
      → let (o', l') = entry_read r l k owner left i e (o, b, w) in
        PayloadEnded l (some (i, e)) owner left o' l'
  unfolding entry_read
  entry_read-Ended src l k owner left i e valid live (ready (ok (some n))) b w
        (got, size, gave, took, v) fits =
      let e' : ReaderEntry r = record e { buffer = b } in
      let w' = wake e.reader_pipe_waker w in
      count_read-Ended l (record l { entries = put_entry r l.entries i (some e'); world = w' })
        (some (i, e)) owner left n got size fits
        (updated l i e e' got w' valid live
          (gave ∙ ap (λ xs. got ++ xs) (sym (src.wake_quiet e.reader_pipe_waker w))) took v)
  entry_read-Ended src l k owner left i e valid live (ready (ok none)) b w (same, idle, full) fits =
      (
        untouched l i e (record e { waiting_waker = k; buffer = b }) (wake e.reader_pipe_waker w)
            valid live (src.wake_quiet e.reader_pipe_waker w ∙ ap stream idle) same,
        refl,
      )
  entry_read-Ended src l k owner left i e valid live (ready (err x)) b w (same, idle) fits =
      (untouched l i e (record e { buffer = b }) w valid live idle same, inl refl)
  entry_read-Ended src l k owner left i e valid live pending b w (same, idle) fits =
      (untouched l i e (record e { buffer = b }) w valid live idle same, refl)

  read_into-Ended :
      IsSource r stream
      → (l : LockedReaderState r) (k : Waker) (owner : SocketAddr) (left : ℕ)
        (target : Option (ℕ × ReaderEntry r))
      → ((j : ℕ) → ValidAt r (l.entries j))
      → Live r l.entries target
      → let (o, l') = read_into r l k owner left target in PayloadEnded l target owner left o l'
  unfolding read_into
  read_into-Ended src l k owner left none valid live =
      skip_read-Ended src l k owner left _ valid
        (poll_take left k l.world (record { filled = 0; initialized = 0; capacity = 65535 })) refl
  read_into-Ended src l k owner left (some (i, e)) valid live =
      let poll = λ (w : World) (win : Window). poll_take left k w win in
      let (o, b, w) = fill_buffer poll e.buffer l.world in
      entry_read-Ended src l k owner left i e valid live o b w
        (fill_buffer-FillEnded poll stream (src.take_reader left k) e.buffer l.world
          (subst (ValidAt r) live (valid i)))
        (fill_buffer-Within poll left e.buffer l.world
          (λ win f w' g. src.take_limit left k l.world win f w' g))

  -- A poll of the shared reader with `left` bytes of the payload for `owner` to come, over a stream
  -- that keeps its contract, all buffers valid. If it succeeds it has taken at least one byte from
  -- the stream and at most `left`, so none of the next frame; they are appended to the unread bytes
  -- of the owner's entry, or dropped if the owner has none, and the state is `read` with the rest, or
  -- the next header when none is left. If it fails or waits, no byte is taken from the stream, and
  -- the state has only changed if the stream ended, to `error`. The other entries' unread bytes and
  -- the socket map never change, and all buffers stay valid.
  pub poll_payload-Ended :
      IsSource r stream
      → (l : LockedReaderState r) (k : Waker) (owner : SocketAddr) (left : ℕ)
      → ((j : ℕ) → ValidAt r (l.entries j))
      → let (o, l') = poll_payload r l k owner left in
        PayloadEnded l (upgrade r l.entries (lookup r l.socket_map owner)) owner left o l'
  unfolding poll_payload
  poll_payload-Ended src l k owner left valid =
      read_into-Ended src l k owner left (upgrade r l.entries (lookup r l.socket_map owner)) valid
        (upgrade-Live r l.entries (lookup r l.socket_map owner))
