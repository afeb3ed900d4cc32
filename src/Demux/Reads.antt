-- ===== src/Demux/Reads.antt =====
-- src/read.rs: `poll_read` of one connection, and what it and the others are owed.
use vt_muxer.Common.{
  ℕ, min, ◌≡◌, ◌≢◌, ◌<◌, refl, sym, ap, ap₂, ◌∙◌, ◌⊎◌, inl, inr, Bool, true, false, Option, none,
  some, List, [], ◌∷◌, ◌++◌, ◌==◌, length, take, drop, append-nil, append_assoc, take-append-drop,
  Bool-cases, subst, arith, ==_iff,
}
use vt_muxer.Common.Poll.{Poll, ready, pending, IoResult, err, ErrorKind}
use vt_muxer.ThinAddr
use vt_muxer.ThinAddr.{SocketAddr}
use vt_muxer.ReadBuffer
use vt_muxer.ReadBuffer.{ReadBuffer, IsBuffer, bytes, ReadBuf, IsReadBuf}
use vt_muxer.ReadBuffer.Fifo.{read-Moved}
use vt_muxer.Read.Shared.{Source, ReaderEntry, LockedReaderState, lookup, put_entry}
use vt_muxer.Read.Inner.{weak_count, from_shared, with_buffer, after_copy, poll_read}
use vt_muxer.Read.Entries.{IsSource, ValidAt, unread}
use vt_muxer.Read.Valid.{IsShared}
use vt_muxer.Read.Delivery.{with_buffer-IsShared}
use vt_muxer.Demux.{mapped, Due, Tracked}
use vt_muxer.Demux.Shares.{mapped_some}
use vt_muxer.Demux.Move.{moved-TrackedAt}
use vt_muxer.Demux.Loop.{quiet-Tracked, Followed, poll-Followed}

module _ (r : Source) (stream : r.World → List ℕ) (t : ReadBuf) where
  open r use {World, Waker, wake}

  self_eq : (i : ℕ) → (i == i) ≡ true
  self_eq i = ground arith

  -- Bytes were taken out of the connection's own entry.
  own_buffer :
      {a : SocketAddr} {i : ℕ} {total : List ℕ} {l : LockedReaderState r}
      (T : Tracked r stream a i total l) (e' : ReaderEntry r)
      → Tracked r stream a i (bytes e'.buffer ++ T.due) (with_buffer r t l i e')
  unfolding with_buffer put_entry
  own_buffer {i = i} T e' = record {
    frames = T.frames;
    frames_valid = T.frames_valid;
    rest = T.rest;
    ahead = T.ahead;
    old = T.old;
    alone = T.alone;
    alive = rw (self_eq i) refl;
    held = T.held;
    due = T.due;
    owing = T.owing;
    balance = rw (self_eq i) refl;
  }

  -- Another connection's entry has changed.
  other_buffer :
      {a : SocketAddr} {i : ℕ} {total : List ℕ} {l : LockedReaderState r}
      (T : Tracked r stream a i total l) (j : ℕ) (e' : ReaderEntry r)
      → j ≢ i
      → Tracked r stream a i total (with_buffer r t l j e')
  unfolding with_buffer put_entry
  other_buffer {i = i} {l = l} T j e' other =
      moved-TrackedAt r stream T _ l.state T.frames T.rest T.frames_valid T.ahead T.old T.alone
        (rw (not_same) refl) T.held T.owing
    where
      not_same : (i == j) ≡ false
      not_same = elim (Bool-cases (i == j)) [
        | inl same ↦ absurd (other (sym ((==_iff i j).0 same)))
        | inr h ↦ h
      ]

  -- How a read may end when the connection of `a` is owed `total'` behind it.
  abbrev pub ReadFollowed :
      SocketAddr → ℕ → List ℕ → Option (Poll (IoResult (Unit {0}))) → LockedReaderState r → Type 0
  ReadFollowed a i total' o l' =
      (o ≡ some (ready (err ErrorKind.out_of_memory)))
      ⊎ IsShared r stream l' × Tracked r stream a i total' l'

  from_shared-Followed :
      (a : SocketAddr) (i : ℕ) (total : List ℕ) (o : t.Buf)
      (p : Option (Poll ErrorKind) × LockedReaderState r)
      → Followed r stream a i total p
      → let (ans, l', o') = from_shared r t o p in
        (t.contents o' ≡ t.contents o) × ReadFollowed a i total ans l'
  unfolding from_shared
  from_shared-Followed a i total o (some (ready e), l) (inl lost) = (refl, inl (ap answer lost))
    where
      answer : Option (Poll ErrorKind) → Option (Poll (IoResult (Unit {0})))
      answer (some (ready x)) = some (ready (err x))
      answer _ = none
  from_shared-Followed a i total o (some (ready e), l) (inr f) = (refl, inr f)
  from_shared-Followed a i total o (some pending, l) (inl lost) =
      absurd (omega (arith, ap wait_of lost))
    where
      wait_of : Option (Poll ErrorKind) → ℕ
      wait_of (some pending) = 1
      wait_of _ = 0
  from_shared-Followed a i total o (some pending, l) (inr f) = (refl, inr f)
  from_shared-Followed a i total o (none, l) (inl lost) = absurd (omega (arith, ap some_of lost))
    where
      some_of : Option (Poll ErrorKind) → ℕ
      some_of none = 1
      some_of _ = 0
  from_shared-Followed a i total o (none, l) (inr f) = (refl, inr f)

  after_copy-Followed :
      IsSource r stream
      → (a : SocketAddr) (i : ℕ) (total' : List ℕ) (fuel : ℕ) (l : LockedReaderState r) (k : Waker)
        (j : ℕ) (e : ReaderEntry r) (start : ℕ) (b : ReadBuffer) (o' : t.Buf)
      → IsShared r stream l
      → IsBuffer b
      → ((e' : ReaderEntry r)
          → e'.buffer ≡ b
          → Tracked r stream a i total' (with_buffer r t l j e'))
      → let (ans, l', p) = after_copy r t fuel l k j e start (b, o') in
        (t.contents p ≡ t.contents o') × ReadFollowed a i total' ans l'
  unfolding after_copy
  after_copy-Followed src a i total' fuel l k j e start b o' v vb T =
      elim (Bool-cases (start == t.remaining o')) [
        | inr moved ↦ rw (moved, after_copy) (refl, inr (woken_valid, woken))
        | inl still ↦ elim (Bool-cases (weak_count l.socket_map j == 0)) [
          | inl gone ↦
              rw (still, gone, after_copy)
                (refl, inr (with_buffer-IsShared r stream t l j same_e v vb, T same_e refl))
          | inr known ↦
              rw (still, known, after_copy)
                (from_shared-Followed a i total' o' _ (
                  poll-Followed r stream src a i total' fuel (with_buffer r t l j wait_e) k
                    (with_buffer-IsShared r stream t l j wait_e v vb) (T wait_e refl)))
        ]
      ]
    where
      same_e : ReaderEntry r
      same_e = record e { buffer = b }

      wait_e : ReaderEntry r
      wait_e = record e { reader_pipe_waker = k; buffer = b }

      woken :
          Tracked r stream a i total'
            (record (with_buffer r t l j same_e) { world = wake e.waiting_waker l.world })
      woken = quiet-Tracked r stream (T same_e refl) (wake e.waiting_waker l.world) (quiet_wake)
        where
          quiet_wake : stream (wake e.waiting_waker l.world) ≡ stream l.world
          quiet_wake = src.wake_quiet e.waiting_waker l.world

      woken_valid :
          IsShared r stream
            (record (with_buffer r t l j same_e) { world = wake e.waiting_waker l.world })
      woken_valid =
          let x = with_buffer-IsShared r stream t l j same_e v vb in
          record { buffers = x.buffers; known = x.known; state_valid = x.state_valid }

  -- A read of the connection itself: what it hands over is what it was owed first.
  pub poll_read_own :
      IsSource r stream
      → IsReadBuf t
      → (a : SocketAddr) (i : ℕ) (total : List ℕ) (fuel : ℕ) (l : LockedReaderState r) (k : Waker)
        (e : ReaderEntry r) (o : t.Buf)
      → IsShared r stream l
      → l.entries i ≡ some e
      → Tracked r stream a i total l
      → let (ans, l', p) = poll_read r t fuel l k i e o in
        (got : List ℕ) × (total' : List ℕ) × (t.contents p ≡ t.contents o ++ got)
        × (total ≡ got ++ total')
        × ReadFollowed a i total' ans l'
  unfolding poll_read
  poll_read_own src laws a i total fuel l k e o v live T = elim (Bool-cases (t.remaining o == 0)) [
    | inl full ↦ rw (full, poll_read) ([], total, sym (append-nil (t.contents o)), refl, inr (v, T))
    | inr room ↦
        rw (room, poll_read)
          (let (b, o') = ReadBuffer.read t e.buffer o in
            let m = read-Moved t laws e.buffer o vb in
            let n = min (t.remaining o) (length (bytes e.buffer)) in
            let (same, followed) =
              after_copy-Followed src a i (bytes b ++ T.due) fuel l k i e (t.remaining o) b o' v
                m.valid
                (λ e' h.
                  subst (λ xs. Tracked r stream a i (xs ++ T.due) (with_buffer r t l i e'))
                    (ap bytes h) (own_buffer T e')) in
            (
              take n (bytes e.buffer),
              bytes b ++ T.due,
              same ∙ m.delivered,
              T.balance
                  ∙ ap (λ x. unread r x ++ T.due) live
                  ∙ ap (λ xs. xs ++ T.due) (sym (take-append-drop n (bytes e.buffer)))
                  ∙ append_assoc (take n (bytes e.buffer)) (drop n (bytes e.buffer)) T.due
                  ∙ ap (λ xs. take n (bytes e.buffer) ++ (xs ++ T.due)) (sym m.kept),
              followed,
            ))
  ]
    where
      vb : IsBuffer e.buffer
      vb = subst (ValidAt r) live (v.buffers i)

  -- A read of another connection.
  pub poll_read_other :
      IsSource r stream
      → IsReadBuf t
      → (a : SocketAddr) (i : ℕ) (total : List ℕ) (fuel : ℕ) (l : LockedReaderState r) (k : Waker)
        (j : ℕ) (e : ReaderEntry r) (o : t.Buf)
      → IsShared r stream l
      → l.entries j ≡ some e
      → j ≢ i
      → Tracked r stream a i total l
      → let (ans, l', p) = poll_read r t fuel l k j e o in ReadFollowed a i total ans l'
  unfolding poll_read
  poll_read_other src laws a i total fuel l k j e o v live other T =
      elim (Bool-cases (t.remaining o == 0)) [
        | inl full ↦ rw (full, poll_read) (inr (v, T))
        | inr room ↦
            rw (room, poll_read)
              (let (b, o') = ReadBuffer.read t e.buffer o in
                let m = read-Moved t laws e.buffer o (subst (ValidAt r) live (v.buffers j)) in
                (after_copy-Followed src a i total fuel l k j e (t.remaining o) b o' v m.valid
                  (λ e' h. other_buffer T j e' other)).1)
      ]

  weak_count-pos :
      (m : List (SocketAddr × ℕ)) (a : SocketAddr) (i : ℕ)
      → lookup r m a ≡ some i
      → 0 < weak_count m i
  unfolding lookup weak_count
  weak_count-pos [] a i h = absurd (grind (arith, h))
  weak_count-pos ((b, j) ∷ m) a i h = elim (Bool-cases (ThinAddr.eq a b)) [
    | inl here ↦ rw (this (rw (here) at h)) (omega arith)
    | inr other ↦ elim (Bool-cases (j == i)) [
      | inl same ↦ rw (same) (omega arith)
      | inr not_same ↦ rw (not_same) (weak_count-pos m a i (rw (other) at h))
    ]
  ]
    where
      number : Option ℕ → ℕ
      number none = 0
      number (some n) = n

      this : some j ≡ some i → (j == i) ≡ true
      this e = (==_iff j i).1 (ap number e)

  -- A connection that the map has no address for, with nothing unread, has received everything.
  pub at_end :
      {a : SocketAddr} {i : ℕ} {total : List ℕ} {l : LockedReaderState r}
      (T : Tracked r stream a i total l)
      → weak_count l.socket_map i ≡ 0
      → unread r (l.entries i) ≡ []
      → total ≡ []
  at_end {a = a} {i = i} {total = total} {l = l} T gone empty =
      T.balance
      ∙ ap₂ (λ xs ys. xs ++ ys) empty
          (closed (mapped r stream (lookup r l.socket_map a) i) refl T.owing)
    where
      closed :
          (m : Bool)
          → mapped r stream (lookup r l.socket_map a) i ≡ m
          → Due r stream a l.state m T.rest T.frames T.due
          → T.due ≡ []
      closed false e d = d
      closed true e d = absurd (
          omega (
            arith,
            gone,
            weak_count-pos l.socket_map a i (mapped_some r stream (lookup r l.socket_map a) i e),
          ))
