-- ===== src/Demux/Incoming.antt =====
-- src/read.rs: a connection that the peer opens, and the frames behind the one that opens it.
use vt_muxer.Common.{
  ℕ, ◌≡◌, ◌≤◌, ◌<◌, refl, sym, ap, ◌∙◌, inl, inr, true, none, some, List, [], ◌∷◌, ◌++◌, ◌==◌,
  length, take, length-append, length-take, append_assoc, Bool-cases, subst, arith,
}
use vt_muxer.Common.Poll.{Poll, IoResult}
use vt_muxer.ThinAddr
use vt_muxer.ThinAddr.{SocketAddr}
use vt_muxer.ThinAddr.Order.{socket_eq_iff}
use vt_muxer.Protocol
use vt_muxer.Protocol.{MuxFrameHeader}
use vt_muxer.Protocol.Layout.{header_of_bytes-header_bytes}
use vt_muxer.Wire.{
  Frame, IsFrame, AreFrames, encode, owed, header_of, header_of-IsHeader, len-header_of, encode-cut,
}
use vt_muxer.Read.Shared.{Source, SharedReaderState, LockedReaderState, new_packet, lookup}
use vt_muxer.Read.Poll.{poll_state, poll_once, poll_next_packet}
use vt_muxer.Read.Entries.{IsSource}
use vt_muxer.Read.Dispatch.{table, Opened, Dispatched}
use vt_muxer.Read.Header.{HeaderEnded, poll_next_packet-Ended}
use vt_muxer.Read.Valid.{IsState, IsShared, sends}
use vt_muxer.Read.Rounds.{poll_state-Rounded}
use vt_muxer.Demux.{IsListening, mapped, Due, TrackedAt, Tracked}

module _ (r : Source) (stream : r.World → List ℕ) where
  open r use {World, Waker, SendFut}

  -- The frame that opens the connection of `a`.
  abbrev pub opening : SocketAddr → Frame
  opening a = record { socket = a; payload = [] }

  module _ (l : LockedReaderState r) (a : SocketAddr) (fs : List Frame) (v : IsShared r stream l)
      (sure : IsListening r stream) (valid : AreFrames fs) where
    Opened-Tracked :
        (l' : LockedReaderState r)
        → Opened r stream (table r stream l) a l'
        → stream l'.world ≡ encode fs
        → Tracked r stream a l.fresh (owed a fs) l'
    Opened-Tracked l' opened bytes =
        subst (λ s. TrackedAt r stream a l.fresh (owed a fs) s l') (sym opened.sending)
          (record {
            frames = fs;
            frames_valid = valid;
            rest = [];
            ahead = bytes;
            old = omega (arith, opened.grown);
            alone = alone;
            alive = opened.alive;
            held = inr sure;
            due = owed a fs;
            owing =
                subst
                  (λ m.
                    Due r stream a (SharedReaderState.send_socket opened.future) m [] fs
                      (owed a fs))
                  (sym here) refl;
            balance = ap (λ xs. xs ++ owed a fs) (sym opened.nothing_unread);
          })
      where
        alone : (b : SocketAddr) → lookup r l'.socket_map b ≡ some l.fresh → b ≡ a
        alone b h = elim (Bool-cases (ThinAddr.eq b a)) [
          | inl this ↦ (socket_eq_iff b a).0 this
          | inr other ↦
              absurd (omega (arith, v.known b l.fresh (sym (opened.mapped.elsewhere b other) ∙ h)))
        ]

        self_eq : (i : ℕ) → (i == i) ≡ true
        self_eq i = ground arith

        here : mapped r stream (lookup r l'.socket_map a) l.fresh ≡ true
        here = ap (λ o. mapped r stream o l.fresh) opened.mapped.here ∙ self_eq l.fresh

    new_packet-sends : sends r stream (new_packet r) ≡ 0
    unfolding new_packet
    new_packet-sends = refl

    -- The whole header of the opening frame, when the answer goes to the listener.
    Dispatched-Opened :
        (s : SharedReaderState r) (o : Poll (IoResult (Unit {0}))) (l' : LockedReaderState r)
        → sends r stream s ≡ 0
        → sends r stream l'.state ≡ 1
        → Dispatched r stream (table r stream l) s a 0 none o l'
        → Opened r stream (table r stream l) a l'
    Dispatched-Opened s o l' idle opens (inl (done, next, same, k)) =
        absurd (omega (arith, opens, ap (sends r stream) next, new_packet-sends))
    Dispatched-Opened s o l' idle opens (inr (inl (done, opened))) = opened
    Dispatched-Opened s o l' idle opens (inr (inr (failed, stays, same, k))) =
        absurd (omega (arith, opens, ap (sends r stream) stays, idle))

    -- The header is that of the opening frame.
    as_opening :
        IsFrame (opening a)
        → lookup r l.socket_map a ≡ none
        → (h : MuxFrameHeader) → h ≡ header_of (opening a)
        → (o : Poll (IoResult (Unit {0}))) (l' : LockedReaderState r) (s : SharedReaderState r)
        → Dispatched r stream
            (table r stream l)
            s
            (Protocol.addr h)
            (Protocol.len h)
            (lookup r l.socket_map (Protocol.addr h))
            o
            l'
        → Dispatched r stream (table r stream l) s a 0 none o l'
    unfolding Protocol.addr
    as_opening ok_frame vacant h head o l' s d =
        let at_header =
          subst
            (λ h.
              Dispatched r stream (table r stream l) s (Protocol.addr h) (Protocol.len h)
                (lookup r l.socket_map (Protocol.addr h)) o l')
            head d in
        let with_len =
          subst (λ n. Dispatched r stream (table r stream l) s a n (lookup r l.socket_map a) o l')
            (len-header_of (opening a) ok_frame) at_header in
        subst (λ m. Dispatched r stream (table r stream l) s a 0 m o l') vacant with_len

    header-Opened :
        (header : List ℕ) (filled : ℕ)
        → AreFrames (opening a ∷ [])
        → filled < Protocol.header_size
        → filled ≤ length header
        → l.state ≡ SharedReaderState.next_packet header filled
        → take filled header ++ stream l.world ≡ encode (opening a ∷ fs)
        → lookup r l.socket_map a ≡ none
        → (o : Poll (IoResult (Unit {0}))) (l' : LockedReaderState r) → sends r stream l'.state ≡ 1
        → HeaderEnded r stream l header filled o l'
        → Tracked r stream a l.fresh (owed a fs) l'
    header-Opened header filled ok_frame part there e ahead vacant o l' opens
          (got, gave, inl (short, same, k, inl (some_got, waits, next))) =
        absurd (omega (arith, opens, ap (sends r stream) next))
    header-Opened header filled ok_frame part there e ahead vacant o l' opens
          (got, gave, inl (short, same, k, inr (none_got, fails, inl stays))) =
        absurd (omega (arith, opens, ap (sends r stream) (stays ∙ e)))
    header-Opened header filled ok_frame part there e ahead vacant o l' opens
          (got, gave, inl (short, same, k, inr (none_got, fails, inr (broken, eof)))) =
        absurd (omega (arith, opens, ap (sends r stream) broken))
    header-Opened header filled ok_frame part there e ahead vacant o l' opens
          (got, gave, inr (whole, d)) =
        let xs = take filled header ++ got in
        let f = opening a in
        let (front, back) =
          encode-cut xs (stream l'.world) f fs ok_frame.0
            (omega (
              arith,
              whole,
              there,
              length-append (take filled header) got,
              length-take filled header,
            ))
            (append_assoc (take filled header) got (stream l'.world)
              ∙ ap (λ ys. take filled header ++ ys) (sym gave)
              ∙ ahead) in
        let head =
          ap Protocol.header_of_bytes front
          ∙ header_of_bytes-header_bytes (header_of f) (header_of-IsHeader f ok_frame.0) in
        Opened-Tracked l'
          (Dispatched-Opened _ o l' refl opens
            (as_opening ok_frame.0 vacant (Protocol.header_of_bytes xs) head o l' _ d))
          back

  -- A round of the shared reader that opens a connection for the peer: the whole header of the opening
  -- frame has come, and the connection goes to the listener.
  pub poll_once-Opened :
      IsSource r stream
      → IsListening r stream
      → (l : LockedReaderState r) (a : SocketAddr) (fs : List Frame) (header : List ℕ) (filled : ℕ)
        (k : Waker) (o : Poll (IoResult (Unit {0}))) (l' : LockedReaderState r)
      → IsShared r stream l
      → AreFrames (opening a ∷ fs)
      → l.state ≡ SharedReaderState.next_packet header filled
      → take filled header ++ stream l.world ≡ encode (opening a ∷ fs)
      → lookup r l.socket_map a ≡ none
      → poll_once r l k ≡ (o, l')
      → sends r stream l'.state ≡ 1
      → IsShared r stream l' × Tracked r stream a l.fresh (owed a fs) l'
  unfolding poll_once poll_state
  poll_once-Opened src sure l a fs header filled k o l' v valid e ahead vacant p opens =
      let (part, there) = subst (IsState r stream) e v.state_valid in
      let at_header : poll_next_packet r l k header filled ≡ (o, l') =
        subst (λ s. poll_state r l k s ≡ (o, l')) e p in
      (
        subst (λ (q : Poll (IoResult (Unit {0})) × LockedReaderState r). IsShared r stream q.1) p
            (poll_state-Rounded r stream src l k l.state v refl).0,
        header-Opened l a fs v sure valid.1 header filled (valid.0, tt) part there e ahead vacant o
            l' opens
            (subst
              (λ (q : Poll (IoResult (Unit {0})) × LockedReaderState r).
                HeaderEnded r stream l header filled q.0 q.1)
              at_header (poll_next_packet-Ended r stream src l k header filled part there)),
      )
