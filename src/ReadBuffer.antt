-- ===== src/ReadBuffer.antt =====
-- src/read/read_buffer.rs: the bytes that have arrived for one connection and were not read yet, in a
-- fixed allocation with three cursors.
pub mod Fifo
pub mod Limit
pub mod Steps
mod Tests
use vt_muxer.Common.{
  ℕ, ◌+◌, ◌-◌, ◌^◌, min, ◌≡◌, ◌≤◌, ◌<◌, Bool, true, false, Option, none, some, List, [], ◌∷◌, ◌++◌,
  ◌==◌, leb, if◌then◌else◌, length, take, drop,
}
use vt_muxer.Common.Poll.{Poll, ready, pending, IoResult, ok, err, ErrorKind}

-- `cells` is the allocation behind `ptr`; what was never written holds any bytes.
pub record ReadBuffer : Type 0 where
  pub cells : List ℕ
  pub capacity : ℕ
  pub pos : ℕ
  pub filled : ℕ
  pub initialized : ℕ

-- The order of the cursors that the comments of the struct ask for.
pub record IsBuffer (b : ReadBuffer) : Type 0 where
  pub allocated : length b.cells ≡ b.capacity
  pub pos_in : b.pos ≤ b.filled
  pub filled_in : b.filled ≤ b.initialized
  pub initialized_in : b.initialized ≤ b.capacity

-- `alloc` is what the allocator answers. `Layout::array` fails above `isize::MAX`.
unfoldable pub new : ℕ → Option (List ℕ) → IoResult ReadBuffer
new capacity none = err ErrorKind.out_of_memory
new capacity (some cells) =
    if leb capacity (2 ^ 63 - 1)
    then ok (record { cells = cells; capacity = capacity; pos = 0; filled = 0; initialized = 0 })
    else err ErrorKind.out_of_memory

unfoldable pub bytes : ReadBuffer → List ℕ
bytes b = take (b.filled - b.pos) (drop b.pos b.cells)

-- The cursors of the `ReadBuf` that `fill_buffer` hands to the reader, over the whole allocation.
pub record Window : Type 0 where
  pub filled : ℕ
  pub initialized : ℕ
  pub capacity : ℕ

-- What a reader that is done has added behind `filled`, and how far the memory is initialized then.
pub record Filled : Type 0 where
  pub got : List ℕ
  pub initialized : ℕ

unfoldable pub window : ReadBuffer → Window
window b = record { filled = b.filled; initialized = b.initialized; capacity = b.capacity }

-- The bytes that a reader adds, written at `filled`.
unfoldable pub store : List ℕ → ℕ → List ℕ → List ℕ
store cells at got = take at cells ++ (got ++ drop (at + length got) cells)

module _ {R : Type 0} where
  -- The `match` on what the reader answered. The number is `filled - old_filled`.
  unfoldable pub after_read :
      ReadBuffer → Poll (IoResult Filled) × R → Poll (IoResult (Option ℕ)) × ReadBuffer × R
  unfolding store
  after_read b (ready (ok f), s) =
      let filled = b.filled + length f.got in
      (
        ready (ok (some (filled - b.filled))),
        record b {
          cells = store b.cells b.filled f.got;
          filled = filled;
          initialized = f.initialized;
        },
        s,
      )
  after_read b (ready (err e), s) = (ready (err e), b, s)
  after_read b (pending, s) = (pending, b, s)

  -- `poll` is `R::poll_read` under the context; `none` says that the buffer is full.
  unfoldable pub fill_buffer :
      (R → Window → Poll (IoResult Filled) × R)
      → ReadBuffer
      → R
      → Poll (IoResult (Option ℕ)) × ReadBuffer × R
  unfolding after_read window
  fill_buffer poll b s =
      if b.capacity - b.filled == 0
      then (ready (ok none), b, s)
      else after_read b (poll s (window b))

-- The `ReadBuf` of the caller: what it holds, the room behind that, and a copy into the room that is
-- declared initialized and filled.
pub record ReadBuf : Type 1 where
  pub Buf : Type 0
  pub contents : Buf → List ℕ
  pub remaining : Buf → ℕ
  pub put : Buf → List ℕ → Buf

-- A copy that fits the room is appended, and takes its length from the room.
pub record IsReadBuf (t : ReadBuf) : Type 0 where
  pub put_contents :
      (o : t.Buf) (bs : List ℕ)
      → length bs ≤ t.remaining o
      → t.contents (t.put o bs) ≡ t.contents o ++ bs
  pub put_remaining :
      (o : t.Buf) (bs : List ℕ)
      → length bs ≤ t.remaining o
      → t.remaining (t.put o bs) + length bs ≡ t.remaining o

-- The cursors behind a copy of `len` bytes; an empty buffer starts over.
unfoldable pub advance : ReadBuffer → ℕ → ReadBuffer
advance b len =
    if b.pos + len == b.filled
    then record b { pos = 0; filled = 0 }
    else record b { pos = b.pos + len }

module _ (t : ReadBuf) where
  unfoldable pub read : ReadBuffer → t.Buf → ReadBuffer × t.Buf
  unfolding advance bytes
  read b o =
      let len = min (t.remaining o) (length (bytes b)) in
      if len == 0 then (b, o) else (advance b len, t.put o (take len (bytes b)))
