-- ===== src/Demux/Header.antt =====
-- src/read.rs: a round of `poll_next_packet`, and what every connection is owed.
use vt_muxer.Common.{
  ℕ, ◌+◌, ◌≡◌, ◌≤◌, ◌<◌, refl, sym, ap, ◌∙◌, ◌⊎◌, inl, inr, Bool, true, false, List, [], ◌∷◌, ◌++◌,
  length, take, length-append, length-take, take_all, append_assoc, subst, arith,
}
use vt_muxer.Common.Poll.{Poll, IoResult}
use vt_muxer.ThinAddr.{SocketAddr}
use vt_muxer.Protocol
use vt_muxer.Protocol.Layout.{header_of_bytes-header_bytes}
use vt_muxer.Wire.{
  Frame, AreFrames, encode, header_of, header_of-IsHeader, len-header_of, encode-cut, encode-nil,
}
use vt_muxer.Read.Shared.{Source, SharedReaderState, LockedReaderState, lookup}
use vt_muxer.Read.Dispatch.{table, Dispatched}
use vt_muxer.Read.Header.{HeaderEnded}
use vt_muxer.Demux.{mapped, Due, TrackedAt, Tracked}
use vt_muxer.Demux.Move.{Kept-TrackedAt}
use vt_muxer.Demux.Dispatch.{IsLost, Dispatched-Tracked}

module _ (r : Source) (stream : r.World → List ℕ) where
  module _ {a : SocketAddr} {i : ℕ} {total : List ℕ} {l : LockedReaderState r} {header : List ℕ}
      {filled : ℕ}
      (T : TrackedAt r stream a i total (SharedReaderState.next_packet header filled) l) where
    any_due :
        (header' : List ℕ) (filled' : ℕ) (m : Bool)
        → Due r stream a (SharedReaderState.next_packet header filled) m T.rest T.frames T.due
        → Due r stream a (SharedReaderState.next_packet header' filled') m T.rest T.frames T.due
    any_due header' filled' false e = e
    any_due header' filled' true e = e

    broken_due :
        (m : Bool)
        → Due r stream a (SharedReaderState.next_packet header filled) m T.rest T.frames T.due
        → Due r stream a SharedReaderState.error m T.rest T.frames T.due
    broken_due false e = e
    broken_due true e = tt

  -- The header of the frame that is next, once it is whole.
  whole-Tracked :
      {a : SocketAddr} {i : ℕ} {total : List ℕ} {l : LockedReaderState r} {header : List ℕ}
      {filled : ℕ}
      (T : TrackedAt r stream a i total (SharedReaderState.next_packet header filled) l)
      (xs : List ℕ) (o : Poll (IoResult (Unit {0}))) (l' : LockedReaderState r)
      (s : SharedReaderState r) (fs : List Frame)
      → AreFrames fs
      → length xs ≡ Protocol.header_size
      → xs ++ stream l'.world ≡ encode fs
      → Due r stream a
          (SharedReaderState.next_packet header filled)
          (mapped r stream (lookup r l.socket_map a) i)
          T.rest
          fs
          T.due
      → Dispatched r stream
          (table r stream l)
          s
          (Protocol.addr (Protocol.header_of_bytes xs))
          (Protocol.len (Protocol.header_of_bytes xs))
          (lookup r l.socket_map (Protocol.addr (Protocol.header_of_bytes xs)))
          o
          l'
      → IsLost r stream o ⊎ Tracked r stream a i total l'
  unfolding Protocol.addr
  whole-Tracked T xs o l' s [] v size e owing d = absurd (encode-nil xs (stream l'.world) size e)
  whole-Tracked {l = l} T xs o l' s (f ∷ fs) v size e owing d =
      let (front, back) = encode-cut xs (stream l'.world) f fs v.0 size e in
      let head =
        ap Protocol.header_of_bytes front
        ∙ header_of_bytes-header_bytes (header_of f) (header_of-IsHeader f v.0) in
      let d1 =
        subst
          (λ h.
            Dispatched r stream (table r stream l) s (Protocol.addr h) (Protocol.len h)
              (lookup r l.socket_map (Protocol.addr h)) o l')
          head d in
      let d2 =
        subst
          (λ n.
            Dispatched r stream (table r stream l) s f.socket n (lookup r l.socket_map f.socket) o
              l')
          (len-header_of f v.0) d1 in
      Dispatched-Tracked r stream T f.socket fs v.1 o l' f.payload (lookup r l.socket_map f.socket)
        s refl back owing d2

  -- `poll_next_packet` in the state `next_packet header filled`.
  pub header-Tracked :
      (a : SocketAddr) (i : ℕ) (total : List ℕ) (l : LockedReaderState r) (header : List ℕ)
      (filled : ℕ)
      → TrackedAt r stream a i total (SharedReaderState.next_packet header filled) l
      → filled < Protocol.header_size
      → filled ≤ length header
      → l.state ≡ SharedReaderState.next_packet header filled
      → (o : Poll (IoResult (Unit {0}))) (l' : LockedReaderState r)
      → HeaderEnded r stream l header filled o l'
      → IsLost r stream o ⊎ Tracked r stream a i total l'
  header-Tracked a i total l header filled T part there e o l'
        (got, gave, inl (short, same, k, inl (some_got, waits, next))) =
      inr (
        subst (λ z. TrackedAt r stream a i total z l') (sym next)
          (Kept-TrackedAt r stream T l' _ T.frames T.rest T.frames_valid
            (ap (λ xs. xs ++ stream l'.world)
                (take_all (filled + length got) (take filled header ++ got) (
                  omega (arith, length-append (take filled header) got, length-take filled header)))
              ∙ append_assoc (take filled header) got (stream l'.world)
              ∙ ap (λ xs. take filled header ++ xs) (sym gave)
              ∙ T.ahead)
            same k tt
            (any_due T (take filled header ++ got) (filled + length got)
              (mapped r stream (lookup r l.socket_map a) i) T.owing)))
  header-Tracked a i total l header filled T part there e o l'
        (got, gave, inl (short, same, k, inr (none_got, fails, inl stays))) =
      inr (
        subst (λ z. TrackedAt r stream a i total z l') (sym (stays ∙ e))
          (Kept-TrackedAt r stream T l' _ T.frames T.rest T.frames_valid
            (ap (λ xs. take filled header ++ xs)
                (sym (gave ∙ ap (λ xs. xs ++ stream l'.world) none_got))
              ∙ T.ahead)
            same k tt T.owing))
  header-Tracked a i total l header filled T part there e o l'
        (got, gave, inl (short, same, k, inr (none_got, fails, inr (broken, eof)))) =
      inr (
        subst (λ z. TrackedAt r stream a i total z l') (sym broken)
          (Kept-TrackedAt r stream T l' SharedReaderState.error T.frames T.rest T.frames_valid tt
            same k tt (broken_due T (mapped r stream (lookup r l.socket_map a) i) T.owing)))
  header-Tracked a i total l header filled T part there e o l' (got, gave, inr (whole, d)) =
      let xs = take filled header ++ got in
      whole-Tracked T xs o l' _ T.frames T.frames_valid
        (omega
          (arith, whole, there, length-append (take filled header) got, length-take filled header))
        (append_assoc (take filled header) got (stream l'.world)
          ∙ ap (λ ys. take filled header ++ ys) (sym gave)
          ∙ T.ahead)
        T.owing d
