-- ===== src/Demux/Loop.antt =====
-- src/read.rs: the loop of the shared reader, and what every connection is owed.
use vt_muxer.Common.{
  ℕ, zero, suc, ◌≡◌, ◌≢◌, refl, sym, ap, ◌∙◌, ◌⊎◌, inl, inr, Bool, true, false, Option, none, some,
  List, ◌==◌, Bool-cases, subst, arith, ==_iff,
}
use vt_muxer.Common.Poll.{Poll, ready, pending, IoResult, ok, err, ErrorKind}
use vt_muxer.ThinAddr.{SocketAddr}
use vt_muxer.Wire.{encode}
use vt_muxer.Read.Shared.{
  Source, SharedReaderState, LockedReaderState, new_packet, lookup, put_entry,
}
use vt_muxer.Read.Poll.{
  drop_reader, after_send, poll_state, poll_once, after_budget, after_once, poll, poll_payload,
  poll_next_packet,
}
use vt_muxer.Read.Entries.{IsSource}
use vt_muxer.Read.Payload.{poll_payload-Ended}
use vt_muxer.Read.Header.{poll_next_packet-Ended}
use vt_muxer.Read.Valid.{IsState, IsShared}
use vt_muxer.Read.Rounds.{poll_state-Rounded}
use vt_muxer.Demux.{Ahead, Held, mapped, Due, TrackedAt, Tracked}
use vt_muxer.Demux.Payload.{payload-Tracked}
use vt_muxer.Demux.Move.{moved-TrackedAt}
use vt_muxer.Demux.Dispatch.{IsLost}
use vt_muxer.Demux.Header.{header-Tracked}

module _ (r : Source) (stream : r.World → List ℕ) where
  open r use {World, Waker, SendFut, poll_send, poll_budget, carries}

  -- The world has changed, but not the stream.
  pub quiet-Tracked :
      {a : SocketAddr} {i : ℕ} {total : List ℕ} {s : SharedReaderState r} {l : LockedReaderState r}
      (T : TrackedAt r stream a i total s l) (w : World)
      → stream w ≡ stream l.world
      → TrackedAt r stream a i total s (record l { world = w })
  quiet-Tracked {i = i} {s = s} T w quiet =
      moved-TrackedAt r stream T _ s T.frames T.rest T.frames_valid
        (subst (λ xs. Ahead r stream s xs T.rest T.frames) (sym quiet) T.ahead) T.old T.alone refl
        T.held T.owing

  kept-drop :
      (l : LockedReaderState r) (back : Option ℕ) (i : ℕ)
      → ((j : ℕ) → back ≡ some j → j ≢ i)
      → (drop_reader r l back).entries i ≡ l.entries i
  unfolding drop_reader put_entry
  kept-drop l none i other = refl
  kept-drop l (some j) i other = elim (Bool-cases (i == j)) [
    | inl same ↦ absurd (other j refl (sym ((==_iff i j).0 same)))
    | inr not_same ↦ rw (not_same, put_entry) refl
  ]

  module _ {a : SocketAddr} {i : ℕ} {total : List ℕ} {l : LockedReaderState r} {f : SendFut}
      (T : TrackedAt r stream a i total (SharedReaderState.send_socket f) l) where
    as_new :
        (m : Bool)
        → Due r stream a (SharedReaderState.send_socket f) m T.rest T.frames T.due
        → Due r stream a (new_packet r) m T.rest T.frames T.due
    unfolding new_packet
    as_new false e = e
    as_new true e = e

    as_send :
        (f' : SendFut) (m : Bool)
        → Due r stream a (SharedReaderState.send_socket f) m T.rest T.frames T.due
        → Due r stream a (SharedReaderState.send_socket f') m T.rest T.frames T.due
    as_send f' false e = e
    as_send f' true e = e

    new-Ahead :
        (bytes : List ℕ)
        → bytes ≡ encode T.frames
        → Ahead r stream (new_packet r) bytes T.rest T.frames
    unfolding new_packet
    new-Ahead bytes e = e

    new-Held : Held r stream (new_packet r) i
    unfolding new_packet
    new-Held = tt

    still-Held :
        (f' : SendFut)
        → carries f' ≡ carries f
        → Held r stream (SharedReaderState.send_socket f) i
        → Held r stream (SharedReaderState.send_socket f') i
    still-Held f' same (inl other) = inl (λ h. other (sym same ∙ h))
    still-Held f' same (inr sure) = inr sure

    not_back :
        IsSource r stream
        → Held r stream (SharedReaderState.send_socket f) i
        → (k : Waker) (w : World) (j : ℕ) → (poll_send f k w).0 ≡ ready (some j)
        → j ≢ i
    not_back src (inl other) k w j h e = other (sym (src.future_back f k w j h) ∙ e)
    not_back src (inr sure) k w j h e = sure f k w j h

    after_send-Tracked :
        (polled : Poll (Option ℕ) × SendFut × World)
        → stream polled.2 ≡ stream l.world
        → carries polled.1 ≡ carries f
        → ((j : ℕ) → polled.0 ≡ ready (some j) → j ≢ i)
        → Tracked r stream a i total (after_send r l polled).1
    unfolding after_send drop_reader
    after_send-Tracked (ready none, f', w) quiet same back =
        moved-TrackedAt r stream T _ (new_packet r) T.frames T.rest T.frames_valid
          (new-Ahead (stream w) (quiet ∙ T.ahead)) T.old T.alone refl new-Held
          (as_new (mapped r stream (lookup r l.socket_map a) i) T.owing)
    after_send-Tracked (ready (some j), f', w) quiet same back =
        moved-TrackedAt r stream T _ (new_packet r) T.frames T.rest T.frames_valid
          (new-Ahead (stream w) (quiet ∙ T.ahead)) T.old T.alone
          (kept-drop l (some j) i (λ n e. back n (ap ready e))) new-Held
          (as_new (mapped r stream (lookup r l.socket_map a) i) T.owing)
    after_send-Tracked (pending, f', w) quiet same back =
        moved-TrackedAt r stream T _ (SharedReaderState.send_socket f') T.frames T.rest
          T.frames_valid (quiet ∙ T.ahead) T.old T.alone refl (still-Held f' same T.held)
          (as_send f' (mapped r stream (lookup r l.socket_map a) i) T.owing)

  poll_state-Tracked :
      IsSource r stream
      → (a : SocketAddr) (i : ℕ) (total : List ℕ) (l : LockedReaderState r) (k : Waker)
        (s : SharedReaderState r)
      → IsShared r stream l
      → l.state ≡ s
      → TrackedAt r stream a i total s l
      → let (o, l') = poll_state r l k s in IsLost r stream o ⊎ Tracked r stream a i total l'
  unfolding poll_state
  poll_state-Tracked src a i total l k (SharedReaderState.read owner left) v e T =
      let (o, l') = poll_payload r l k owner left in
      inr (
        payload-Tracked r stream a i total l owner left T e o l'
          (poll_payload-Ended r stream src l k owner left v.buffers))
  poll_state-Tracked src a i total l k (SharedReaderState.next_packet header filled) v e T =
      let (o, l') = poll_next_packet r l k header filled in
      let (part, there) = subst (IsState r stream) e v.state_valid in
      header-Tracked r stream a i total l header filled T part there e o l'
        (poll_next_packet-Ended r stream src l k header filled part there)
  poll_state-Tracked src a i total l k (SharedReaderState.send_socket f) v e T = inr (
      after_send-Tracked T (poll_send f k l.world) (src.future_quiet f k l.world)
        (src.future_carries f k l.world) (λ j h. not_back T src T.held k l.world j h))
  poll_state-Tracked src a i total l k SharedReaderState.error v e T =
      inr (subst (λ s. TrackedAt r stream a i total s l) (sym e) T)

  -- A poll of the reader that may have lost a header for want of memory, or keeps a valid state and
  -- what the connection is owed.
  abbrev pub Followed :
      SocketAddr → ℕ → List ℕ → Option (Poll ErrorKind) × LockedReaderState r → Type 0
  Followed a i total (o, l') =
      (o ≡ some (ready ErrorKind.out_of_memory))
      ⊎ IsShared r stream l' × Tracked r stream a i total l'

  module _ (a : SocketAddr) (i : ℕ) (total : List ℕ)
      (again : LockedReaderState r → Option (Poll ErrorKind) × LockedReaderState r)
      (goes_on : (l' : LockedReaderState r)
        → IsShared r stream l'
        → Tracked r stream a i total l'
        → Followed a i total (again l')) where
    after_budget-Followed :
        (l' : LockedReaderState r) (p : Poll (Unit {0}) × World)
        → IsShared r stream l'
        → Tracked r stream a i total l'
        → stream p.1 ≡ stream l'.world
        → Followed a i total (after_budget r again l' p)
    unfolding after_budget
    after_budget-Followed l' (ready _, w) v T quiet =
        goes_on (record l' { world = w })
          (record { buffers = v.buffers; known = v.known; state_valid = v.state_valid })
          (quiet-Tracked T w quiet)
    after_budget-Followed l' (pending, w) v T quiet = inr (
      record { buffers = v.buffers; known = v.known; state_valid = v.state_valid },
      quiet-Tracked T w quiet,
    )

    after_once-Followed :
        IsSource r stream
        → (k : Waker) (p : Poll (IoResult (Unit {0})) × LockedReaderState r) → IsShared r stream p.1
        → IsLost r stream p.0 ⊎ Tracked r stream a i total p.1
        → Followed a i total (after_once r again k p)
    unfolding after_once
    after_once-Followed src k (ready (ok _), l') v (inl lost) =
        absurd (omega (arith, ap ok_of lost))
      where
        ok_of : Poll (IoResult (Unit {0})) → ℕ
        ok_of (ready (ok _)) = 1
        ok_of _ = 0
    after_once-Followed src k (ready (ok _), l') v (inr T) =
        after_budget-Followed l' (poll_budget k l'.world) v T (src.budget_quiet k l'.world)
    after_once-Followed src k (ready (err e), l') v (inl lost) = inl (ap kind_of lost)
      where
        kind_of : Poll (IoResult (Unit {0})) → Option (Poll ErrorKind)
        kind_of (ready (err x)) = some (ready x)
        kind_of _ = none
    after_once-Followed src k (ready (err e), l') v (inr T) = inr (v, T)
    after_once-Followed src k (pending, l') v (inl lost) = absurd (omega (arith, ap wait_of lost))
      where
        wait_of : Poll (IoResult (Unit {0})) → ℕ
        wait_of pending = 1
        wait_of _ = 0
    after_once-Followed src k (pending, l') v (inr T) = inr (v, T)

  pub poll-Followed :
      IsSource r stream
      → (a : SocketAddr) (i : ℕ) (total : List ℕ) (fuel : ℕ) (l : LockedReaderState r) (k : Waker)
      → IsShared r stream l
      → Tracked r stream a i total l
      → Followed a i total (poll r fuel l k)
  unfolding poll poll_once
  poll-Followed src a i total zero l k v T = inr (v, T)
  poll-Followed src a i total (suc fuel) l k v T =
      after_once-Followed a i total (λ l'. poll r fuel l' k)
        (λ l' v' T'. poll-Followed src a i total fuel l' k v' T') src k (poll_state r l k l.state)
        (poll_state-Rounded r stream src l k l.state v refl).0
        (poll_state-Tracked src a i total l k l.state v refl T)
