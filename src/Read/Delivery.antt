-- ===== src/Read/Delivery.antt =====
-- src/read.rs: `poll_read` of a connection, over its entry and the shared reader.
use vt_muxer.Common.{
  ℕ, min, ◌≡◌, ◌<◌, refl, sym, ap, ◌∙◌, ◌⊎◌, inl, inr, true, false, Option, none, some, List, ◌++◌,
  ◌==◌, length, take, drop, append-nil, Bool-cases, subst, arith,
}
use vt_muxer.Common.Poll.{Poll, ready, pending, IoResult, ok, err, ErrorKind}
use vt_muxer.ReadBuffer
use vt_muxer.ReadBuffer.{ReadBuffer, IsBuffer, bytes, ReadBuf, IsReadBuf}
use vt_muxer.ReadBuffer.Fifo.{Moved, read-Moved}
use vt_muxer.Read.Shared.{Source, ReaderEntry, LockedReaderState, put_entry}
use vt_muxer.Read.Poll.{poll}
use vt_muxer.Read.Inner.{weak_count, from_shared, with_buffer, after_copy, poll_read}
use vt_muxer.Read.Entries.{IsSource, ValidAt, put_entry-ValidAt}
use vt_muxer.Read.Valid.{IsShared, work}
use vt_muxer.Read.Loop.{Returned, poll-Returned}

module _ (r : Source) (stream : r.World → List ℕ) (t : ReadBuf) where
  open r use {World, Waker, wake}

  -- An answer that gives the caller nothing yet.
  abbrev pub IsWaiting : Option (Poll (IoResult (Unit {0}))) → Type 0
  IsWaiting (some pending) = Unit {0}
  IsWaiting (some (ready (err e))) = Unit {0}
  IsWaiting (some (ready (ok _))) = ⊥
  IsWaiting none = ⊥

  -- How `poll_read` may end when it can copy `n` bytes.
  pub record ReadEnded (l : LockedReaderState r) (i : ℕ) (e : ReaderEntry r) (o : t.Buf) (n : ℕ)
      (a : Option (Poll (IoResult (Unit {0})))) (l' : LockedReaderState r) (o' : t.Buf)
      : Type 0 where
    pub shared_valid : IsShared r stream l'
    pub copied : t.contents o' ≡ t.contents o ++ take n (bytes e.buffer)
    pub ending :
        ((0 < n)
          × (a ≡ some (ready (ok tt)))
          × ((e' : ReaderEntry r) × (l'.entries i ≡ some e')
              × (bytes e'.buffer ≡ drop n (bytes e.buffer)))
          × (stream l'.world ≡ stream l.world))
        ⊎ ((n ≡ 0)
              × (a ≡ some (ready (ok tt)))
              × ((t.remaining o ≡ 0) ⊎ (weak_count l.socket_map i ≡ 0))
            ⊎ (n ≡ 0) × (0 < t.remaining o) × (0 < weak_count l.socket_map i) × IsWaiting a)

  self_eq : (i : ℕ) → (i == i) ≡ true
  self_eq i = ground arith

  pub with_buffer-IsShared :
      (l : LockedReaderState r) (i : ℕ) (e : ReaderEntry r)
      → IsShared r stream l
      → IsBuffer e.buffer
      → IsShared r stream (with_buffer r t l i e)
  unfolding with_buffer
  with_buffer-IsShared l i e v b = record {
    buffers = put_entry-ValidAt r l.entries i e v.buffers b;
    known = v.known;
    state_valid = v.state_valid;
  }

  from_shared-IsWaiting :
      (o : t.Buf) (p : Option (Poll ErrorKind) × LockedReaderState r)
      → Returned r stream p
      → let (a, l', o') = from_shared r t o p in
        IsWaiting a × IsShared r stream l' × (t.contents o' ≡ t.contents o)
  unfolding from_shared
  from_shared-IsWaiting o (some (ready e), l) v = (tt, v, refl)
  from_shared-IsWaiting o (some pending, l) v = (tt, v, refl)
  from_shared-IsWaiting o (none, l) v = absurd v

  after_copy-Ended :
      IsSource r stream
      → (fuel : ℕ) (l : LockedReaderState r) (k : Waker) (i : ℕ) (e : ReaderEntry r) (o : t.Buf)
      → IsShared r stream l
      → work r stream l < fuel
      → (0 < t.remaining o)
      → (b : ReadBuffer) (o' : t.Buf) (n : ℕ) → Moved t e.buffer o n b o'
      → let (a, l', p) = after_copy r t fuel l k i e (t.remaining o) (b, o') in
        ReadEnded l i e o n a l' p
  unfolding after_copy with_buffer put_entry
  after_copy-Ended src fuel l k i e o v enough room b o' n m =
      elim (Bool-cases (t.remaining o == t.remaining o')) [
        | inr moved ↦
            rw (moved, after_copy)
              (record {
                shared_valid = record {
                  buffers = (with_buffer-IsShared l i (record e { buffer = b }) v m.valid).buffers;
                  known = v.known;
                  state_valid = v.state_valid;
                };
                copied = m.delivered;
                ending = inl (
                  some_bytes moved,
                  refl,
                  (record e { buffer = b }, rw (self_eq i) refl, m.kept),
                  src.wake_quiet e.waiting_waker l.world,
                );
              })
        | inl still ↦ elim (Bool-cases (weak_count l.socket_map i == 0)) [
          | inl gone ↦
              rw (still, gone, after_copy)
                (record {
                  shared_valid = with_buffer-IsShared l i (record e { buffer = b }) v m.valid;
                  copied = m.delivered;
                  ending = inr (inl (no_bytes still, refl, inr (no_weak gone)));
                })
          | inr known ↦
              rw (still, known, after_copy)
                (record {
                  shared_valid = waited.1;
                  copied = waited.2 ∙ m.delivered;
                  ending = inr (inr (no_bytes still, room, some_weak known, waited.0));
                })
        ]
      ]
    where
      some_bytes : (t.remaining o == t.remaining o') ≡ false → 0 < n
      some_bytes h = ground (arith, m.room)

      no_bytes : (t.remaining o == t.remaining o') ≡ true → n ≡ 0
      no_bytes h = ground (arith, m.room)

      no_weak : (weak_count l.socket_map i == 0) ≡ true → weak_count l.socket_map i ≡ 0
      no_weak h = ground arith

      some_weak : (weak_count l.socket_map i == 0) ≡ false → 0 < weak_count l.socket_map i
      some_weak h = ground arith

      kept : LockedReaderState r
      kept = with_buffer r t l i (record e { reader_pipe_waker = k; buffer = b })

      waited :
          let (a, l', p) = from_shared r t o' (poll r fuel kept k) in
          IsWaiting a × IsShared r stream l' × (t.contents p ≡ t.contents o')
      waited = from_shared-IsWaiting o' (poll r fuel kept k) (
          poll-Returned r stream src fuel kept k
            (with_buffer-IsShared l i (record e { reader_pipe_waker = k; buffer = b }) v m.valid)
            enough)

  -- `poll_read` of a connection whose entry is `e`, over a stream and a `ReadBuf` that keep their
  -- contracts, with rounds enough for the shared reader. It hands over the unread bytes of the
  -- entry, in order, as many as there are or fit; if there are some, it succeeds, they are no longer
  -- unread, and nothing is taken from the stream. It succeeds without a byte only if there is no
  -- room, or nothing is unread and the map has no address for the entry, which is the end of the
  -- stream; else it fails or waits. It always returns, and the shared state is valid then.
  pub poll_read-Ended :
      IsSource r stream
      → IsReadBuf t
      → (fuel : ℕ) (l : LockedReaderState r) (k : Waker) (i : ℕ) (e : ReaderEntry r) (o : t.Buf)
      → IsShared r stream l
      → l.entries i ≡ some e
      → work r stream l < fuel
      → let (a, l', o') = poll_read r t fuel l k i e o in
        ReadEnded l i e o (min (t.remaining o) (length (bytes e.buffer))) a l' o'
  unfolding poll_read
  poll_read-Ended src laws fuel l k i e o v live enough = elim (Bool-cases (t.remaining o == 0)) [
    | inl full ↦
        rw (full, poll_read)
          (record {
            shared_valid = v;
            copied = sym (
                ap (λ n. t.contents o ++ take n (bytes e.buffer)) (none_fit full)
                ∙ append-nil (t.contents o));
            ending = inr (inl (none_fit full, refl, inl (no_room full)));
          })
    | inr room ↦
        rw (room, poll_read)
          (let (b, o') = ReadBuffer.read t e.buffer o in
            after_copy-Ended src fuel l k i e o v enough (some_room room) b o' _
              (read-Moved t laws e.buffer o (subst (ValidAt r) live (v.buffers i))))
  ]
    where
      no_room : (t.remaining o == 0) ≡ true → t.remaining o ≡ 0
      no_room h = ground arith

      some_room : (t.remaining o == 0) ≡ false → 0 < t.remaining o
      some_room h = ground arith

      none_fit : (t.remaining o == 0) ≡ true → min (t.remaining o) (length (bytes e.buffer)) ≡ 0
      none_fit h = omega (arith, no_room h)
