-- ===== src/Read/Dispatch.antt =====
-- src/read.rs: what a whole header does to the socket map and the entries.
use vt_muxer.Common.{
  ℕ, zero, suc, ◌≡◌, refl, ap, ◌∙◌, ◌⊎◌, inl, inr, true, false, Option, none, some, List, [], ◌==◌,
  length, Bool-cases, arith,
}
use vt_muxer.Common.Poll.{Poll, ready, IoResult, ok, err, ErrorKind}
use vt_muxer.ThinAddr
use vt_muxer.ThinAddr.{SocketAddr}
use vt_muxer.ReadBuffer
use vt_muxer.ReadBuffer.{ReadBuffer, IsBuffer, bytes, Window, Filled}
use vt_muxer.ReadBuffer.Fifo.{NewEnded, new-NewEnded}
use vt_muxer.Read.Shared.{
  Source, ReaderEntry, SharedReaderState, LockedReaderState, default_buffer_capacity, new_packet,
  lookup, put_entry, fill_slot, insert_at, insert, wake_pipe, upgrade, remove,
}
use vt_muxer.Read.Poll.{open_socket, take_empty, take_header}
use vt_muxer.Read.Map.{lookup-forget, lookup-forget_other, lookup-cons_same, lookup-cons_other}
use vt_muxer.Read.Entries.{IsSource, unread, is_alive, ValidAt}

module _ (r : Source) (stream : r.World → List ℕ) where
  open r use {World, Waker, SendFut, wake, poll_read, alloc, is_disconnected, into_send_async}

  -- The map and the entries of a state.
  pub record Table : Type 0 where
    pub socket_map : List (SocketAddr × ℕ)
    pub entries : ℕ → Option (ReaderEntry r)
    pub fresh : ℕ

  abbrev pub table : LockedReaderState r → Table
  table l = record { socket_map = l.socket_map; entries = l.entries; fresh = l.fresh }

  -- The entries of `l'` are those of `l`.
  pub record Kept (l : Table) (l' : LockedReaderState r) : Type 0 where
    pub same_entries : l'.entries ≡ l.entries
    pub same_fresh : l'.fresh ≡ l.fresh

  -- The map of `l'` is that of `l`, but for `addr`, where it has `o`.
  pub record Remapped (l : Table) (addr : SocketAddr) (o : Option ℕ) (l' : LockedReaderState r)
      : Type 0 where
    pub here : lookup r l'.socket_map addr ≡ o
    pub elsewhere :
        (b : SocketAddr)
        → ThinAddr.eq b addr ≡ false
        → lookup r l'.socket_map b ≡ lookup r l.socket_map b

  -- A connection was opened for `addr`: it has an entry of its own, with nothing unread.
  pub record Opened (l : Table) (addr : SocketAddr) (l' : LockedReaderState r) : Type 0 where
    pub future : SendFut
    pub sending : l'.state ≡ SharedReaderState.send_socket future
    pub carried : r.carries future ≡ l.fresh
    pub grown : l'.fresh ≡ suc l.fresh
    pub mapped : Remapped l addr (some l.fresh) l'
    pub alive : is_alive r (l'.entries l.fresh) ≡ true
    pub nothing_unread : unread r (l'.entries l.fresh) ≡ []
    pub valid : ValidAt r (l'.entries l.fresh)
    pub others : (j : ℕ) → (j == l.fresh) ≡ false → l'.entries j ≡ l.entries j

  -- What a whole header for `addr` with the length `len` does, by what is known of `addr`. If there
  -- is no memory, the state is `s`.
  abbrev pub Dispatched :
      Table
      → SharedReaderState r
      → SocketAddr
      → ℕ
      → Option ℕ
      → Poll (IoResult (Unit {0}))
      → LockedReaderState r
      → Type 0
  Dispatched l s addr (suc n) known o l' =
      (o ≡ ready (ok tt))
      × (l'.state ≡ SharedReaderState.read addr (suc n))
      × (l'.socket_map ≡ l.socket_map)
      × Kept l l'
  Dispatched l s addr zero (some i) o l' =
      (o ≡ ready (ok tt)) × (l'.state ≡ new_packet r) × Remapped l addr none l' × Kept l l'
  Dispatched l s addr zero none o l' =
      (o ≡ ready (ok tt)) × (l'.state ≡ new_packet r) × (l'.socket_map ≡ l.socket_map) × Kept l l'
      ⊎ ((o ≡ ready (ok tt)) × Opened l addr l'
          ⊎ (o ≡ ready (err ErrorKind.out_of_memory))
            × (l'.state ≡ s)
            × (l'.socket_map ≡ l.socket_map)
            × Kept l l')

  insert-cases :
      IsSource r stream
      → (l : LockedReaderState r) (w : World) (addr : SocketAddr) (k : Waker)
        (o : IoResult ReadBuffer)
      → NewEnded o
      → lookup r l.socket_map addr ≡ none
      → let (p, l') = open_socket r addr (fill_slot r (record l { world = w }) addr k o) in
        ((p ≡ ready (ok tt)) × Opened (table l) addr l')
        ⊎ (p ≡ ready (err ErrorKind.out_of_memory))
          × (l'.state ≡ l.state)
          × (l'.socket_map ≡ l.socket_map)
          × Kept (table l) l'
  unfolding fill_slot open_socket put_entry
  insert-cases src l w addr k (err e) kind vacant =
      inr (
        ap (λ x. ready (err x)) kind,
        refl,
        refl,
        record { same_entries = refl; same_fresh = refl },
      )
  insert-cases src l w addr k (ok b) (v, empty) vacant = inl (
    refl,
    record {
      future = (into_send_async addr l.fresh w).0;
      sending = refl;
      carried = src.send_carries addr l.fresh w;
      grown = refl;
      mapped = record {
        here = lookup-cons_same r l.socket_map addr l.fresh;
        elsewhere = λ b' h. lookup-cons_other r l.socket_map addr b' l.fresh h;
      };
      alive = rw (same l.fresh) refl;
      nothing_unread = rw (same l.fresh) empty;
      valid = rw (same l.fresh) v;
      others = λ j h. rw (h) refl;
    },
  )
    where
      same : (j : ℕ) → (j == j) ≡ true
      same j = ground arith

  wake_pipe-stream :
      IsSource r stream
      → (o : Option (ℕ × ReaderEntry r)) (w : World) → stream (wake_pipe r o w) ≡ stream w
  unfolding wake_pipe
  wake_pipe-stream src none w = refl
  wake_pipe-stream src (some (i, e)) w = src.wake_quiet e.reader_pipe_waker w

  fill_slot-stream :
      IsSource r stream
      → (l : LockedReaderState r) (addr : SocketAddr) (k : Waker) (o : IoResult ReadBuffer)
      → stream (open_socket r addr (fill_slot r l addr k o)).1.world ≡ stream l.world
  unfolding fill_slot open_socket
  fill_slot-stream src l addr k (err e) = refl
  fill_slot-stream src l addr k (ok b) = src.send_quiet addr l.fresh l.world

  take_empty-Dispatched :
      IsSource r stream
      → (l : LockedReaderState r) (k : Waker) (addr : SocketAddr) (known : Option ℕ)
      → lookup r l.socket_map addr ≡ known
      → let (o, l') = take_empty r l k addr known in
        Dispatched (table l) l.state addr zero known o l' × (stream l'.world ≡ stream l.world)
  unfolding take_empty insert insert_at remove
  take_empty-Dispatched src l k addr (some i) e = (
    (
      refl,
      refl,
      record {
        here = lookup-forget r l.socket_map addr;
        elsewhere = λ b h. lookup-forget_other r l.socket_map addr b h;
      },
      record { same_entries = refl; same_fresh = refl },
    ),
    wake_pipe-stream src (upgrade r l.entries (lookup r l.socket_map addr)) l.world,
  )
  take_empty-Dispatched src l k addr none e = elim (Bool-cases (is_disconnected l.world)) [
    | inl gone ↦
        rw (gone, take_empty)
          (inl (refl, refl, refl, record { same_entries = refl; same_fresh = refl }), refl)
    | inr here ↦
        rw (here, take_empty, e)
          (
            inr (
                insert-cases src l l'.world addr k made
                  (new-NewEnded default_buffer_capacity cells size) e),
            fill_slot-stream src l' addr k made ∙ src.alloc_quiet default_buffer_capacity l.world,
          )
  ]
    where
      cells : Option (List ℕ)
      cells = (alloc default_buffer_capacity l.world).0

      l' : LockedReaderState r
      l' = record l { world = (alloc default_buffer_capacity l.world).1 }

      made : IoResult ReadBuffer
      made = ReadBuffer.new default_buffer_capacity cells

      size : (xs : List ℕ) → cells ≡ some xs → length xs ≡ default_buffer_capacity
      size xs h = src.alloc_size default_buffer_capacity l.world xs h

  pub take_header-Dispatched :
      IsSource r stream
      → (l : LockedReaderState r) (k : Waker) (addr : SocketAddr) (len : ℕ)
      → let (o, l') = take_header r l k addr len in
        Dispatched (table l) l.state addr len (lookup r l.socket_map addr) o l'
        × (stream l'.world ≡ stream l.world)
  unfolding take_header
  take_header-Dispatched src l k addr (suc n) =
      ((refl, refl, refl, record { same_entries = refl; same_fresh = refl }), refl)
  take_header-Dispatched src l k addr zero =
      take_empty-Dispatched src l k addr (lookup r l.socket_map addr) refl
