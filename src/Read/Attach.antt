-- ===== src/Read/Attach.antt =====
-- src/read.rs: `SharedReader::new` and `add_connection`.
use vt_muxer.Common.{
  ℕ, suc, ◌≡◌, refl, ap, ◌⊎◌, inl, inr, true, false, Option, none, some, List, [], ◌∷◌, ◌==◌, arith,
}
use vt_muxer.Common.Poll.{IoResult, ok, err, ErrorKind}
use vt_muxer.ThinAddr.{SocketAddr}
use vt_muxer.ReadBuffer
use vt_muxer.ReadBuffer.{ReadBuffer, bytes}
use vt_muxer.ReadBuffer.Fifo.{NewEnded, new-NewEnded}
use vt_muxer.Read.Shared.{
  Source, ReaderEntry, LockedReaderState, default_buffer_capacity, new_packet, new, lookup,
  put_entry, fill_slot, insert_at, insert, add_connection,
}
use vt_muxer.Read.Map.{lookup-cons_same, lookup-cons_other}
use vt_muxer.Read.Entries.{IsSource, put_entry-ValidAt}
use vt_muxer.Read.Dispatch.{table, Kept, Remapped}
use vt_muxer.Read.Valid.{IsShared, remapped-IsTable}

module _ (r : Source) (stream : r.World → List ℕ) where
  open r use {World, Waker, noop, alloc}

  -- A new shared reader.
  pub new-IsShared : (w : World) → IsShared r stream (new r w)
  unfolding new new_packet lookup
  new-IsShared w = record {
    buffers = λ j. tt;
    known = λ b j h. absurd (grind (arith, h));
    state_valid = (omega arith, omega arith);
  }

  -- The entry `i` was made for `sock`: it has its own buffer, with nothing unread.
  pub record Added (l : LockedReaderState r) (sock : SocketAddr) (i : ℕ) (l' : LockedReaderState r)
      : Type 0 where
    pub is_fresh : i ≡ l.fresh
    pub vacant : lookup r l.socket_map sock ≡ none
    pub mapped : Remapped r stream (table r stream l) sock (some i) l'
    pub made : (e : ReaderEntry r) × (l'.entries i ≡ some e) × (bytes e.buffer ≡ [])
    pub others : (j : ℕ) → (j == i) ≡ false → l'.entries j ≡ l.entries j
    pub grown : l'.fresh ≡ suc l.fresh

  -- How `add_connection` may end.
  abbrev pub AddEnded : LockedReaderState r → SocketAddr → IoResult ℕ → LockedReaderState r → Type 0
  AddEnded l sock (ok i) l' = Added l sock i l'
  AddEnded l sock (err e) l' =
      (l'.socket_map ≡ l.socket_map)
      × Kept r stream (table r stream l) l'
      × ((e ≡ ErrorKind.addr_in_use) × ((j : ℕ) × (lookup r l.socket_map sock ≡ some j))
          ⊎ (e ≡ ErrorKind.out_of_memory) × (lookup r l.socket_map sock ≡ none))

  abbrev pub Attached : LockedReaderState r → SocketAddr → IoResult ℕ → LockedReaderState r → Type 0
  Attached l sock o l' =
      AddEnded l sock o l'
      × IsShared r stream l'
      × (l'.state ≡ l.state)
      × (stream l'.world ≡ stream l.world)

  fill_slot-Attached :
      (l : LockedReaderState r) (w : World) (sock : SocketAddr) (k : Waker)
      (o : IoResult ReadBuffer)
      → IsShared r stream l
      → stream w ≡ stream l.world
      → NewEnded o
      → lookup r l.socket_map sock ≡ none
      → let (p, l') = fill_slot r (record l { world = w }) sock k o in Attached l sock p l'
  unfolding fill_slot put_entry
  fill_slot-Attached l w sock k (err e) v quiet kind vacant = (
    (refl, record { same_entries = refl; same_fresh = refl }, inr (kind, vacant)),
    record { buffers = v.buffers; known = v.known; state_valid = v.state_valid },
    refl,
    quiet,
  )
  fill_slot-Attached l w sock k (ok b) v quiet (vb, empty) vacant = (
    record {
      is_fresh = refl;
      vacant = vacant;
      mapped = added;
      made = (entry, rw (same l.fresh) refl, empty);
      others = λ j h. rw (h) refl;
      grown = refl;
    },
    record {
      buffers = put_entry-ValidAt r l.entries l.fresh entry v.buffers vb;
      known =
          remapped-IsTable r stream l l' sock (some l.fresh) added (omega arith)
            (λ j h. omega (arith, ap number h)) v.known;
      state_valid = v.state_valid;
    },
    refl,
    quiet,
  )
    where
      same : (j : ℕ) → (j == j) ≡ true
      same j = ground arith

      number : Option ℕ → ℕ
      number none = 0
      number (some j) = j

      entry : ReaderEntry r
      entry = record { reader_pipe_waker = noop; waiting_waker = k; buffer = b }

      l' : LockedReaderState r
      l' = record l {
        socket_map = (sock, l.fresh) ∷ l.socket_map;
        entries = put_entry r l.entries l.fresh (some entry);
        fresh = suc l.fresh;
        world = w;
      }

      added : Remapped r stream (table r stream l) sock (some l.fresh) l'
      added = record {
        here = lookup-cons_same r l.socket_map sock l.fresh;
        elsewhere = λ b' h. lookup-cons_other r l.socket_map sock b' l.fresh h;
      }

  insert_at-Attached :
      IsSource r stream
      → (l : LockedReaderState r) (sock : SocketAddr) (k : Waker) (o : Option ℕ)
      → IsShared r stream l
      → lookup r l.socket_map sock ≡ o
      → let (p, l') = insert_at r l sock k o in Attached l sock p l'
  unfolding insert_at
  insert_at-Attached src l sock k (some j) v e =
      ((refl, record { same_entries = refl; same_fresh = refl }, inl (refl, (j, e))), v, refl, refl)
  insert_at-Attached src l sock k none v e =
      let (cells, w) = alloc default_buffer_capacity l.world in
      fill_slot-Attached l w sock k (ReadBuffer.new default_buffer_capacity cells) v
        (src.alloc_quiet default_buffer_capacity l.world)
        (new-NewEnded default_buffer_capacity cells
          (λ xs h. src.alloc_size default_buffer_capacity l.world xs h))
        e

  -- `add_connection` on a valid shared reader, whatever the state of the loop: it refuses an address
  -- that is in use, or fails for want of memory, and the map and the entries are as they were; else
  -- the address was free and has a new entry of its own, with nothing unread, and no other address
  -- or entry has changed. In each case the shared reader is valid, its state is the same, and nothing
  -- is taken from the stream.
  pub add_connection-Attached :
      IsSource r stream
      → (l : LockedReaderState r) (sock : SocketAddr) → IsShared r stream l
      → let (o, l') = add_connection r l sock in Attached l sock o l'
  unfolding add_connection insert
  add_connection-Attached src l sock v =
      insert_at-Attached src l sock noop (lookup r l.socket_map sock) v refl
