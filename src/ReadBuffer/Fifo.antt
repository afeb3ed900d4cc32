-- ===== src/ReadBuffer/Fifo.antt =====
-- src/read/read_buffer.rs: the buffer as a queue of bytes.
use vt_muxer.Common.{
  ℕ, ◌+◌, ◌-◌, min, ◌≡◌, ◌≤◌, refl, sym, ap, ◌∙◌, ◌⊎◌, ◌<◌, inl, inr, true, false, Option, none,
  some, List, [], ◌∷◌, ◌++◌, ◌==◌, leb, ◌^◌, length, take, drop, arith, length-take, length-drop,
  length-append, drop-append_le, drop_all, take-append_length, append-nil, append_assoc, drop-drop,
  Bool-cases, zero, suc, take-nil,
}
use vt_muxer.Common.Poll.{Poll, ready, pending, IoResult, ok, err, ErrorKind}
use vt_muxer.ReadBuffer.{
  ReadBuffer, IsBuffer, new, bytes, Window, Filled, window, store, after_read, fill_buffer, ReadBuf,
  IsReadBuf, advance, read,
}

pub length-bytes : {b : ReadBuffer} → IsBuffer b → length (bytes b) ≡ b.filled - b.pos
unfolding bytes
length-bytes {b} v =
    omega (arith, length-take (b.filled - b.pos) (drop b.pos b.cells), length-drop b.pos b.cells)

length-store :
    (cells : List ℕ) (at : ℕ) (got : List ℕ)
    → at + length got ≤ length cells
    → length (store cells at got) ≡ length cells
unfolding store
length-store cells at got h = omega (
  arith,
  length-append (take at cells) (got ++ drop (at + length got) cells),
  length-append got (drop (at + length got) cells),
  length-take at cells,
  length-drop (at + length got) cells,
)

-- The unread bytes are those up to `filled`, from `pos` on.
take-drop : (i n : ℕ) (xs : List ℕ) → i ≤ n → take (n - i) (drop i xs) ≡ drop i (take n xs)
take-drop zero n xs h = ap (λ k. take k xs) (omega arith)
take-drop (suc i) zero xs h = absurd (omega arith)
take-drop (suc i) (suc n) [] h = take-nil (suc n - suc i)
take-drop (suc i) (suc n) (x ∷ xs) h =
    ap (λ k. take k (drop i xs)) {x = suc n - suc i} {y = n - i} (omega arith)
    ∙ take-drop i n xs (omega arith)

take-store :
    (cells : List ℕ) (at : ℕ) (got : List ℕ)
    → at + length got ≤ length cells
    → take (at + length got) (store cells at got) ≡ take at cells ++ got
unfolding store
take-store cells at got h =
    ap (take (at + length got)) (sym (append_assoc (take at cells) got _))
    ∙ take-append_length (at + length got) (take at cells ++ got) (drop (at + length got) cells)
        (omega (arith, length-append (take at cells) got, length-take at cells))

bytes-store :
    (b : ReadBuffer) (got : List ℕ) (i : ℕ)
    → IsBuffer b
    → b.filled + length got ≤ b.capacity
    → bytes (record b {
      cells = store b.cells b.filled got;
      filled = b.filled + length got;
      initialized = i;
    })
      ≡ bytes b ++ got
unfolding bytes
bytes-store b got i v h =
    take-drop b.pos (b.filled + length got) (store b.cells b.filled got) (omega (arith, v.pos_in))
    ∙ ap (drop b.pos) (take-store b.cells b.filled got (omega (arith, v.allocated)))
    ∙ drop-append_le b.pos (take b.filled b.cells) got (
        omega (
          arith,
          length-take b.filled b.cells,
          v.allocated,
          v.pos_in,
          v.filled_in,
          v.initialized_in,
        ))
    ∙ ap (λ xs. xs ++ got) (sym (take-drop b.pos b.filled b.cells v.pos_in))

module _ {R : Type 0} (poll : R → Window → Poll (IoResult Filled) × R) (stream : R → List ℕ) where
  -- The contract of `AsyncRead`, where `stream` is what the reader has yet to give: a reader that
  -- succeeds gives the next bytes of it, no more than there is room for, and has initialized what it
  -- filled; one that fails or waits gives nothing.
  pub record IsReader : Type 0 where
    pub in_room :
        (s : R) (w : Window) (f : Filled) (s' : R)
        → (w.filled ≤ w.initialized) × (w.initialized ≤ w.capacity)
        → poll s w ≡ (ready (ok f), s')
        → (w.filled + length f.got ≤ f.initialized) × (f.initialized ≤ w.capacity)
    pub gives :
        (s : R) (w : Window) (f : Filled) (s' : R)
        → poll s w ≡ (ready (ok f), s')
        → stream s ≡ f.got ++ stream s'
    pub fails :
        (s : R) (w : Window) (e : ErrorKind) (s' : R)
        → poll s w ≡ (ready (err e), s')
        → stream s' ≡ stream s
    pub waits : (s : R) (w : Window) (s' : R) → poll s w ≡ (pending, s') → stream s' ≡ stream s

  -- What `fill_buffer` may do.
  abbrev pub FillEnded : ReadBuffer → R → Poll (IoResult (Option ℕ)) → ReadBuffer → R → Type 0
  FillEnded b s (ready (ok (some n))) b' s' =
      (got : List ℕ) × (length got ≡ n)
      × (stream s ≡ got ++ stream s')
      × (bytes b' ≡ bytes b ++ got)
      × IsBuffer b'
  FillEnded b s (ready (ok none)) b' s' = (b' ≡ b) × (s' ≡ s) × (b.filled ≡ b.capacity)
  FillEnded b s (ready (err e)) b' s' = (b' ≡ b) × (stream s' ≡ stream s)
  FillEnded b s pending b' s' = (b' ≡ b) × (stream s' ≡ stream s)

  after_read-FillEnded :
      IsReader
      → (b : ReadBuffer) (s : R) → IsBuffer b
      → (polled : Poll (IoResult Filled) × R) → poll s (window b) ≡ polled
      → let (o, b', s') = after_read b polled in FillEnded b s o b' s'
  unfolding after_read window
  after_read-FillEnded honest b s v (ready (ok f), s') e =
      let (some_room, in_memory) =
        honest.in_room s (window b) f s' (v.filled_in, v.initialized_in) e in
      (
        f.got,
        omega arith,
        honest.gives s (window b) f s' e,
        bytes-store b f.got f.initialized v (omega arith),
        record {
          allocated =
              length-store b.cells b.filled f.got (omega (arith, v.allocated)) ∙ v.allocated;
          pos_in = omega (arith, v.pos_in);
          filled_in = some_room;
          initialized_in = in_memory;
        },
      )
  after_read-FillEnded honest b s v (ready (err k), s') e = (refl, honest.fails s (window b) k s' e)
  after_read-FillEnded honest b s v (pending, s') e = (refl, honest.waits s (window b) s' e)

  -- `fill_buffer` on a valid buffer, over a reader that keeps its contract: with a number `n` it has
  -- appended the next `n` bytes of the reader to the unread ones, and the buffer is valid; it answers
  -- that there is no room only if `filled` is the capacity, and then, or if the reader fails or
  -- waits, the buffer has not changed and no byte of the reader is lost.
  pub fill_buffer-FillEnded :
      IsReader
      → (b : ReadBuffer) (s : R) → IsBuffer b
      → let (o, b', s') = fill_buffer poll b s in FillEnded b s o b' s'
  unfolding fill_buffer
  fill_buffer-FillEnded honest b s v = elim (Bool-cases (b.capacity - b.filled == 0)) [
    | inl full ↦
        rw (full, fill_buffer)
          (refl, refl, omega (arith, v.filled_in, v.initialized_in, no_room full))
    | inr room ↦ rw (room, fill_buffer) (after_read-FillEnded honest b s v (poll s (window b)) refl)
  ]
    where
      no_room : (b.capacity - b.filled == 0) ≡ true → b.capacity - b.filled ≡ 0
      no_room h = ground arith

advance-IsBuffer :
    (b : ReadBuffer) (len : ℕ)
    → IsBuffer b
    → b.pos + len ≤ b.filled
    → IsBuffer (advance b len) × (bytes (advance b len) ≡ drop len (bytes b))
unfolding advance bytes
advance-IsBuffer b len v h = elim (Bool-cases (b.pos + len == b.filled)) [
  | inl all ↦
      rw (all, advance)
        (
          record {
            allocated = v.allocated;
            pos_in = omega arith;
            filled_in = omega arith;
            initialized_in = v.initialized_in;
          },
          sym (drop_all len (bytes b) (omega (arith, length-bytes v, at_end all))),
        )
  | inr part ↦
      rw (part, advance)
        (
          record {
            allocated = v.allocated;
            pos_in = h;
            filled_in = v.filled_in;
            initialized_in = v.initialized_in;
          },
          rest,
        )
]
  where
    at_end : (b.pos + len == b.filled) ≡ true → b.pos + len ≡ b.filled
    at_end e = ground arith

    rest : bytes (record b { pos = b.pos + len }) ≡ drop len (bytes b)
    rest =
        take-drop (b.pos + len) b.filled b.cells h
        ∙ sym (drop-drop b.pos len (take b.filled b.cells))
        ∙ ap (drop len) (sym (take-drop b.pos b.filled b.cells v.pos_in))

-- What `read` does when it moves `n` bytes.
pub record Moved (t : ReadBuf) (b : ReadBuffer) (o : t.Buf) (n : ℕ) (b' : ReadBuffer) (o' : t.Buf)
    : Type 0 where
  pub valid : IsBuffer b'
  pub delivered : t.contents o' ≡ t.contents o ++ take n (bytes b)
  pub kept : bytes b' ≡ drop n (bytes b)
  pub room : t.remaining o' + n ≡ t.remaining o

-- `read` on a valid buffer moves as many unread bytes as there are, or as the caller has room for if
-- that is less: they are appended to what the caller holds, in order, they are no longer unread, the
-- rest still is, and the buffer is valid.
pub read-Moved :
    (t : ReadBuf)
    → IsReadBuf t
    → (b : ReadBuffer) (o : t.Buf) → IsBuffer b
    → let (b', o') = read t b o in Moved t b o (min (t.remaining o) (length (bytes b))) b' o'
unfolding read
read-Moved t laws b o v = elim (Bool-cases (min (t.remaining o) (length (bytes b)) == 0)) [
  | inl nothing ↦ rw (nothing, read) (still (zero_len nothing))
  | inr some_len ↦ rw (some_len, read) moved
]
  where
    len : ℕ
    len = min (t.remaining o) (length (bytes b))

    zero_len : (min (t.remaining o) (length (bytes b)) == 0) ≡ true → len ≡ 0
    zero_len e = ground arith

    still : len ≡ 0 → Moved t b o len b o
    still e = record {
      valid = v;
      delivered = sym (ap (λ n. t.contents o ++ take n (bytes b)) e ∙ append-nil (t.contents o));
      kept = sym (ap (λ n. drop n (bytes b)) e);
      room = omega (arith, e);
    }

    size : length (take len (bytes b)) ≡ len
    size = omega (arith, length-take len (bytes b))

    moved : Moved t b o len (advance b len) (t.put o (take len (bytes b)))
    moved =
        let (valid, kept) = advance-IsBuffer b len v (omega (arith, length-bytes v, v.pos_in)) in
        record {
          valid = valid;
          delivered = laws.put_contents o (take len (bytes b)) (omega (arith, size));
          kept = kept;
          room =
              omega (arith, size, laws.put_remaining o (take len (bytes b)) (omega (arith, size)));
        }

-- How `new` ends, by what the allocator answers.
abbrev pub NewAnswered : ℕ → Option (List ℕ) → IoResult ReadBuffer → Type 0
NewAnswered capacity alloc (ok b) =
    IsBuffer b
    × (bytes b ≡ [])
    × (b.capacity ≡ capacity)
    × (capacity ≤ 2 ^ 63 - 1)
    × (alloc ≡ some b.cells)
NewAnswered capacity alloc (err e) =
    (e ≡ ErrorKind.out_of_memory) × ((alloc ≡ none) ⊎ (2 ^ 63 - 1 < capacity))

-- What `new` may answer.
abbrev pub NewEnded : IoResult ReadBuffer → Type 0
NewEnded (ok b) = IsBuffer b × (bytes b ≡ [])
NewEnded (err e) = e ≡ ErrorKind.out_of_memory

-- `new`, if an allocation has `capacity` cells, succeeds exactly if there is an allocation and the
-- capacity is at most `isize::MAX`: with a valid buffer of that capacity, over that allocation, with
-- nothing unread. Else it answers that there is no memory.
pub new-NewAnswered :
    (capacity : ℕ) (alloc : Option (List ℕ))
    → ((cells : List ℕ) → alloc ≡ some cells → length cells ≡ capacity)
    → NewAnswered capacity alloc (new capacity alloc)
unfolding new bytes
new-NewAnswered capacity none gives = (refl, inl refl)
new-NewAnswered capacity (some cells) gives = elim (Bool-cases (leb capacity (2 ^ 63 - 1))) [
  | inl fits ↦
      rw (fits, new)
        (
          record {
            allocated = gives cells refl;
            pos_in = omega arith;
            filled_in = omega arith;
            initialized_in = omega arith;
          },
          refl,
          refl,
          within fits,
          refl,
        )
  | inr large ↦ rw (large, new) (refl, inr (above large))
]
  where
    within : leb capacity (2 ^ 63 - 1) ≡ true → capacity ≤ 2 ^ 63 - 1
    within h = ground arith

    above : leb capacity (2 ^ 63 - 1) ≡ false → 2 ^ 63 - 1 < capacity
    above h = ground arith

NewAnswered-NewEnded :
    (capacity : ℕ) (alloc : Option (List ℕ)) (o : IoResult ReadBuffer)
    → NewAnswered capacity alloc o
    → NewEnded o
NewAnswered-NewEnded capacity alloc (ok b) h = (h.0, h.1)
NewAnswered-NewEnded capacity alloc (err e) h = h.0

pub new-NewEnded :
    (capacity : ℕ) (alloc : Option (List ℕ))
    → ((cells : List ℕ) → alloc ≡ some cells → length cells ≡ capacity)
    → NewEnded (new capacity alloc)
new-NewEnded capacity alloc gives =
    NewAnswered-NewEnded capacity alloc (new capacity alloc) (new-NewAnswered capacity alloc gives)
