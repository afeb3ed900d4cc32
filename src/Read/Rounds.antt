-- ===== src/Read/Rounds.antt =====
-- src/read.rs: one round of the shared reader, `poll_once`, and the state it leaves.
use vt_muxer.Common.{
  ℕ, zero, suc, ◌-◌, ◌≡◌, ◌≤◌, ◌<◌, refl, sym, ap, inl, inr, true, Option, none, some, List, ◌++◌,
  ◌==◌, length, length-append, length-take, take, Bool-cases, subst, arith,
}
use vt_muxer.Common.Poll.{Poll, ready, pending, IoResult, ok, err, ErrorKind}
use vt_muxer.ThinAddr.{SocketAddr}
use vt_muxer.Protocol
use vt_muxer.Read.Shared.{
  Source, ReaderEntry, SharedReaderState, LockedReaderState, new_packet, lookup, put_entry,
}
use vt_muxer.Read.Poll.{drop_reader, after_send, poll_state, poll_payload, poll_next_packet}
use vt_muxer.Read.Entries.{IsSource, ValidAt}
use vt_muxer.Read.Payload.{PayloadEnded, poll_payload-Ended}
use vt_muxer.Read.Dispatch.{table, Dispatched}
use vt_muxer.Read.Header.{HeaderEnded, poll_next_packet-Ended}
use vt_muxer.Read.Valid.{
  IsState, IsTable, IsShared, sends, Rounded, new_packet-IsState, new_packet-sends,
  after_payload-valid, same-IsTable, remapped-IsTable, ok_of, idle,
}

module _ (r : Source) (stream : r.World → List ℕ) where
  open r use {World, Waker, SendFut, poll_send}

  payload-Rounded :
      (l : LockedReaderState r) (target : Option (ℕ × ReaderEntry r)) (owner : SocketAddr)
      (left : ℕ)
      → IsShared r stream l
      → (o : Poll (IoResult (Unit {0}))) (l' : LockedReaderState r)
      → PayloadEnded r stream l target owner left o l'
      → Rounded r stream l o l'
  payload-Rounded l target owner left v (ready (ok _)) l' (got, some_got, fits, t, next) =
      let (valid, quiet) = after_payload-valid r stream owner (left - length got) in
      (
        record {
          buffers = t.valid;
          known = same-IsTable r stream l l' t.same_map t.same_fresh v.known;
          state_valid = subst (IsState r stream) (sym next) valid;
        },
        λ e. omega (
          arith,
          some_got,
          ap length t.from_stream,
          length-append got (stream l'.world),
          ap (sends r stream) next,
          quiet,
        ),
      )
  payload-Rounded l target owner left v (ready (err e)) l' (t, inl same) =
      idle r stream l l' (ready (err e)) t.valid
        (same-IsTable r stream l l' t.same_map t.same_fresh v.known)
        (subst (IsState r stream) (sym same) v.state_valid) refl
  payload-Rounded l target owner left v (ready (err e)) l' (t, inr (broken, eof)) =
      idle r stream l l' (ready (err e)) t.valid
        (same-IsTable r stream l l' t.same_map t.same_fresh v.known)
        (subst (IsState r stream) (sym broken) tt) refl
  payload-Rounded l target owner left v pending l' (t, same) =
      idle r stream l l' pending t.valid
        (same-IsTable r stream l l' t.same_map t.same_fresh v.known)
        (subst (IsState r stream) (sym same) v.state_valid) refl

  -- A whole header has taken a byte at least.
  took_byte :
      (l l' : LockedReaderState r) (o : Poll (IoResult (Unit {0}))) (got : List ℕ)
      (s : SharedReaderState r)
      → stream l.world ≡ got ++ stream l'.world
      → 0 < length got
      → l'.state ≡ s
      → IsState r stream s
      → sends r stream s ≤ 1
      → ((j : ℕ) → ValidAt r (l'.entries j))
      → IsTable r stream l'
      → Rounded r stream l o l'
  took_byte l l' o got s gave some_got e v few buffers known = (
    record { buffers = buffers; known = known; state_valid = subst (IsState r stream) (sym e) v },
    λ succeeded. omega (
      arith,
      some_got,
      ap length gave,
      length-append got (stream l'.world),
      ap (sends r stream) e,
      few,
    ),
  )

  Dispatched-Rounded :
      (l l' : LockedReaderState r) (addr : SocketAddr) (len : ℕ) (known : Option ℕ)
      (s : SharedReaderState r) (o : Poll (IoResult (Unit {0}))) (got : List ℕ)
      → IsShared r stream l
      → IsState r stream s
      → stream l.world ≡ got ++ stream l'.world
      → 0 < length got
      → Dispatched r stream (table r stream l) s addr len known o l'
      → Rounded r stream l o l'
  Dispatched-Rounded l l' addr (suc n) known s o got v sv gave some_got (done, e, m, same) =
      took_byte l l' o got _ gave some_got e (omega arith) (omega arith)
        (λ j. subst (ValidAt r) (sym (ap (λ f. f j) same.same_entries)) (v.buffers j))
        (same-IsTable r stream l l' m same.same_fresh v.known)
  Dispatched-Rounded l l' addr zero (some i) s o got v sv gave some_got (done, e, m, same) =
      took_byte l l' o got (new_packet r) gave some_got e (new_packet-IsState r stream)
        (omega (arith, new_packet-sends r stream))
        (λ j. subst (ValidAt r) (sym (ap (λ f. f j) same.same_entries)) (v.buffers j))
        (remapped-IsTable r stream l l' addr none m (omega (arith, same.same_fresh))
          (λ k h. absurd (grind (arith, h))) v.known)
  Dispatched-Rounded l l' addr zero none s o got v sv gave some_got (inl (done, e, m, same)) =
      took_byte l l' o got (new_packet r) gave some_got e (new_packet-IsState r stream)
        (omega (arith, new_packet-sends r stream))
        (λ j. subst (ValidAt r) (sym (ap (λ f. f j) same.same_entries)) (v.buffers j))
        (same-IsTable r stream l l' m same.same_fresh v.known)
  Dispatched-Rounded l l' addr zero none s o got v sv gave some_got (inr (inl (done, opened))) =
      took_byte l l' o got (SharedReaderState.send_socket opened.future) gave some_got
        opened.sending tt (omega arith) buffers
        (remapped-IsTable r stream l l' addr (some l.fresh) opened.mapped
          (omega (arith, opened.grown)) (λ k h. omega (arith, opened.grown, ap number h)) v.known)
    where
      number : Option ℕ → ℕ
      number none = 0
      number (some k) = k

      at_fresh : (j : ℕ) → (j == l.fresh) ≡ true → l.fresh ≡ j
      at_fresh j h = ground arith

      buffers : (j : ℕ) → ValidAt r (l'.entries j)
      buffers j = elim (Bool-cases (j == l.fresh)) [
        | inl this ↦ subst (λ i. ValidAt r (l'.entries i)) (at_fresh j this) opened.valid
        | inr other ↦ subst (ValidAt r) (sym (opened.others j other)) (v.buffers j)
      ]
  Dispatched-Rounded l l' addr zero none s o got v sv gave some_got
        (inr (inr (failed, e, m, same))) =
      idle r stream l l' o
        (λ j. subst (ValidAt r) (sym (ap (λ f. f j) same.same_entries)) (v.buffers j))
        (same-IsTable r stream l l' m same.same_fresh v.known) (subst (IsState r stream) (sym e) sv)
        (ap (ok_of r stream) failed)

  header-Rounded :
      (l l' : LockedReaderState r) (header : List ℕ) (filled : ℕ) (o : Poll (IoResult (Unit {0})))
      → IsShared r stream l
      → filled < Protocol.header_size
      → filled ≤ length header
      → HeaderEnded r stream l header filled o l'
      → Rounded r stream l o l'
  header-Rounded l l' header filled o v part there
        (got, gave, inl (short, m, same, inl (some_got, waits, e))) =
      idle r stream l l' o
        (λ j. subst (ValidAt r) (sym (ap (λ f. f j) same.same_entries)) (v.buffers j))
        (same-IsTable r stream l l' m same.same_fresh v.known)
        (subst (IsState r stream) (sym e) (
          short,
          omega (arith, there, length-append (take filled header) got, length-take filled header),
        ))
        (ap (ok_of r stream) waits)
  header-Rounded l l' header filled o v part there
        (got, gave, inl (short, m, same, inr (none_got, fails, inl e))) =
      (
        record {
          buffers = λ j. subst (ValidAt r) (sym (ap (λ f. f j) same.same_entries)) (v.buffers j);
          known = same-IsTable r stream l l' m same.same_fresh v.known;
          state_valid = subst (IsState r stream) (sym e) v.state_valid;
        },
        λ done. absurd (fails done),
      )
  header-Rounded l l' header filled o v part there
        (got, gave, inl (short, m, same, inr (none_got, fails, inr (e, eof)))) =
      idle r stream l l' o
        (λ j. subst (ValidAt r) (sym (ap (λ f. f j) same.same_entries)) (v.buffers j))
        (same-IsTable r stream l l' m same.same_fresh v.known) (subst (IsState r stream) (sym e) tt)
        (ap (ok_of r stream) eof)
  header-Rounded l l' header filled o v part there (got, gave, inr (whole, d)) =
      let h = Protocol.header_of_bytes (take filled header ++ got) in
      Dispatched-Rounded l l' (Protocol.addr h) (Protocol.len h)
        (lookup r l.socket_map (Protocol.addr h))
        (SharedReaderState.next_packet (take filled header ++ got) filled) o got v
        (
          part,
          omega (
            arith,
            part,
            there,
            length-append (take filled header) got,
            length-take filled header,
          ),
        )
        gave (omega (arith, part, whole)) d

  drop_reader-ValidAt :
      (l : LockedReaderState r) (back : Option ℕ)
      → ((j : ℕ) → ValidAt r (l.entries j))
      → (j : ℕ) → ValidAt r ((drop_reader r l back).entries j)
  unfolding drop_reader put_entry
  drop_reader-ValidAt l none v j = v j
  drop_reader-ValidAt l (some i) v j = elim (Bool-cases (j == i)) [
    | inl this ↦ rw (this, put_entry) tt
    | inr other ↦ rw (other, put_entry) (v j)
  ]

  drop_known :
      (l : LockedReaderState r) (back : Option ℕ)
      → IsTable r stream l
      → IsTable r stream (drop_reader r l back)
  unfolding drop_reader
  drop_known l none v = v
  drop_known l (some i) v = v

  send-Rounded :
      (l : LockedReaderState r) (f : SendFut) (polled : Poll (Option ℕ) × SendFut × World)
      → IsShared r stream l
      → l.state ≡ SharedReaderState.send_socket f
      → stream polled.2 ≡ stream l.world
      → let (o, l') = after_send r l polled in Rounded r stream l o l'
  unfolding after_send
  send-Rounded l f (ready back, f', w) v e quiet = (
    record {
      buffers = drop_reader-ValidAt l back v.buffers;
      known = drop_known l back v.known;
      state_valid = new_packet-IsState r stream;
    },
    λ done. omega (arith, ap length quiet, ap (sends r stream) e, new_packet-sends r stream),
  )
  send-Rounded l f (pending, f', w) v e quiet = idle r stream l _ pending v.buffers v.known tt refl

  pub poll_state-Rounded :
      IsSource r stream
      → (l : LockedReaderState r) (k : Waker) (s : SharedReaderState r) → IsShared r stream l
      → l.state ≡ s
      → let (o, l') = poll_state r l k s in Rounded r stream l o l'
  unfolding poll_state
  poll_state-Rounded src l k (SharedReaderState.read owner left) v e =
      let (o, l') = poll_payload r l k owner left in
      payload-Rounded l _ owner left v o l'
        (poll_payload-Ended r stream src l k owner left v.buffers)
  poll_state-Rounded src l k (SharedReaderState.next_packet header filled) v e =
      let (o, l') = poll_next_packet r l k header filled in
      let (part, there) = subst (IsState r stream) e v.state_valid in
      header-Rounded l l' header filled o v part there
        (poll_next_packet-Ended r stream src l k header filled part there)
  poll_state-Rounded src l k (SharedReaderState.send_socket f) v e =
      send-Rounded l f (poll_send f k l.world) v e (src.future_quiet f k l.world)
  poll_state-Rounded src l k SharedReaderState.error v e =
      idle r stream l l (ready (err ErrorKind.broken_pipe)) v.buffers v.known v.state_valid refl
