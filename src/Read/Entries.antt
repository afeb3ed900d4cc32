-- ===== src/Read/Entries.antt =====
-- src/read.rs: what the reader takes from the stream, and what the entries of the connections hold.
use vt_muxer.Common.{
  ℕ, ◌≡◌, ◌≤◌, refl, sym, ap, ◌∙◌, inl, inr, Bool, true, false, Option, none, some, List, [], ◌++◌,
  ◌==◌, if◌then◌else◌, length, append-nil, Bool-cases, arith,
}
use vt_muxer.Common.Poll.{ready, ok}
use vt_muxer.ThinAddr.{SocketAddr}
use vt_muxer.ReadBuffer.{IsBuffer, bytes, Window, Filled}
use vt_muxer.ReadBuffer.Fifo.{IsReader}
use vt_muxer.Read.Shared.{Source, ReaderEntry, LockedReaderState, upgrade, put_entry}

module _ (r : Source) where
  open r use {
    World, Waker, SendFut, wake, poll_read, poll_take, alloc, into_send_async, poll_send,
    poll_budget, carries,
  }

  -- Both ways to read keep the contract of `AsyncRead`, `take` gives no more than its limit, an
  -- allocation has the size that was asked for, nothing else takes bytes from the stream, and a send
  -- that fails gives back what it carried.
  pub record IsSource (stream : World → List ℕ) : Type 0 where
    pub read_reader : (k : Waker) → IsReader (λ w win. poll_read k w win) stream
    pub take_reader : (limit : ℕ) (k : Waker) → IsReader (λ w win. poll_take limit k w win) stream
    pub take_limit :
        (limit : ℕ) (k : Waker) (w : World) (win : Window) (f : Filled) (w' : World)
        → poll_take limit k w win ≡ (ready (ok f), w')
        → length f.got ≤ limit
    pub wake_quiet : (k : Waker) (w : World) → stream (wake k w) ≡ stream w
    pub alloc_quiet : (n : ℕ) (w : World) → stream (alloc n w).1 ≡ stream w
    pub alloc_size :
        (n : ℕ) (w : World) (cells : List ℕ) → (alloc n w).0 ≡ some cells → length cells ≡ n
    pub send_quiet :
        (a : SocketAddr) (i : ℕ) (w : World) → stream (into_send_async a i w).1 ≡ stream w
    pub future_quiet : (f : SendFut) (k : Waker) (w : World) → stream (poll_send f k w).2 ≡ stream w
    pub send_carries : (a : SocketAddr) (i : ℕ) (w : World) → carries (into_send_async a i w).0 ≡ i
    pub future_carries :
        (f : SendFut) (k : Waker) (w : World) → carries (poll_send f k w).1 ≡ carries f
    pub future_back :
        (f : SendFut) (k : Waker) (w : World) (i : ℕ)
        → (poll_send f k w).0 ≡ ready (some i)
        → i ≡ carries f
    pub budget_quiet : (k : Waker) (w : World) → stream (poll_budget k w).1 ≡ stream w

  abbrev pub unread : Option (ReaderEntry r) → List ℕ
  unread none = []
  unread (some e) = bytes e.buffer

  abbrev pub is_alive : Option (ReaderEntry r) → Bool
  is_alive none = false
  is_alive (some e) = true

  abbrev pub ValidAt : Option (ReaderEntry r) → Type 0
  ValidAt none = Unit {0}
  ValidAt (some e) = IsBuffer e.buffer

  -- The part of `got` that the entry `j` gets, if it is the target.
  abbrev pub share : Option (ℕ × ReaderEntry r) → ℕ → List ℕ → List ℕ
  share none j got = []
  share (some (i, e)) j got = if j == i then got else []

  abbrev pub Live : (ℕ → Option (ReaderEntry r)) → Option (ℕ × ReaderEntry r) → Type 0
  Live entries none = Unit {0}
  Live entries (some (i, e)) = entries i ≡ some e

  pub upgrade-Live :
      (entries : ℕ → Option (ReaderEntry r)) (o : Option ℕ) → Live entries (upgrade r entries o)
  unfolding upgrade
  upgrade-Live entries none = tt
  upgrade-Live entries (some i) = at (entries i) refl
    where
      at : (o : Option (ReaderEntry r)) → entries i ≡ o → Live entries (upgrade r entries (some i))
      at none e = rw (e, upgrade) tt
      at (some x) e = rw (e, upgrade) e

  -- From `l` to `l'`, `got` was taken from the stream and appended to the target's unread bytes;
  -- the other entries and the socket map are as they were.
  pub record Taken (stream : World → List ℕ) (l : LockedReaderState r)
      (target : Option (ℕ × ReaderEntry r)) (got : List ℕ) (l' : LockedReaderState r) : Type 0 where
    pub from_stream : stream l.world ≡ got ++ stream l'.world
    pub shared : (j : ℕ) → unread (l'.entries j) ≡ unread (l.entries j) ++ share target j got
    pub valid : (j : ℕ) → ValidAt (l'.entries j)
    pub same_alive : (j : ℕ) → is_alive (l'.entries j) ≡ is_alive (l.entries j)
    pub same_map : l'.socket_map ≡ l.socket_map
    pub same_fresh : l'.fresh ≡ l.fresh

  eq_of : (i j : ℕ) → (j == i) ≡ true → j ≡ i
  eq_of i j h = ground arith

  pub put_entry-shared :
      (entries : ℕ → Option (ReaderEntry r)) (i : ℕ) (e e' : ReaderEntry r) (got : List ℕ)
      → entries i ≡ some e
      → bytes e'.buffer ≡ bytes e.buffer ++ got
      → (j : ℕ)
      → unread (put_entry r entries i (some e') j) ≡ unread (entries j) ++ share (some (i, e)) j got
  unfolding put_entry
  put_entry-shared entries i e e' got live more j = elim (Bool-cases (j == i)) [
    | inl this ↦
        rw (this, put_entry)
          (more ∙ ap (λ o. unread o ++ got) (sym (ap entries (eq_of i j this) ∙ live)))
    | inr other ↦ rw (other, put_entry) (sym (append-nil (unread (entries j))))
  ]

  pub put_entry-ValidAt :
      (entries : ℕ → Option (ReaderEntry r)) (i : ℕ) (e' : ReaderEntry r)
      → ((j : ℕ) → ValidAt (entries j))
      → IsBuffer e'.buffer
      → (j : ℕ) → ValidAt (put_entry r entries i (some e') j)
  unfolding put_entry
  put_entry-ValidAt entries i e' valid v j = elim (Bool-cases (j == i)) [
    | inl this ↦ rw (this, put_entry) v
    | inr other ↦ rw (other, put_entry) (valid j)
  ]

  pub put_entry-is_alive :
      (entries : ℕ → Option (ReaderEntry r)) (i : ℕ) (e e' : ReaderEntry r)
      → entries i ≡ some e
      → (j : ℕ) → is_alive (put_entry r entries i (some e') j) ≡ is_alive (entries j)
  unfolding put_entry
  put_entry-is_alive entries i e e' live j = elim (Bool-cases (j == i)) [
    | inl this ↦ rw (this, put_entry) (sym (ap is_alive (ap entries (eq_of i j this) ∙ live)))
    | inr other ↦ rw (other, put_entry) refl
  ]
