-- ===== src/Demux/Dispatch.antt =====
-- src/read.rs: what connections are owed behind a whole header.
use vt_muxer.Common.{
  ℕ, suc, ◌≡◌, ◌≢◌, ◌<◌, refl, sym, ap, ◌∙◌, ◌⊎◌, inl, inr, Bool, true, false, Option, none, some,
  List, [], ◌∷◌, ◌++◌, ◌==◌, length, Bool-cases, subst, arith,
}
use vt_muxer.Common.Poll.{Poll, ready, IoResult, err, ErrorKind}
use vt_muxer.ThinAddr
use vt_muxer.ThinAddr.{SocketAddr}
use vt_muxer.ThinAddr.Order.{socket_eq_iff}
use vt_muxer.Wire.{Frame, AreFrames, encode, until_close, owed}
use vt_muxer.Read.Shared.{Source, SharedReaderState, LockedReaderState, new_packet, lookup}
use vt_muxer.Read.Dispatch.{table, Remapped, Dispatched}
use vt_muxer.Demux.{Ahead, Held, mapped, Due, TrackedAt, Tracked}
use vt_muxer.Demux.Shares.{mapped_some}
use vt_muxer.Demux.Move.{moved-TrackedAt, Kept-TrackedAt}

module _ (r : Source) (stream : r.World → List ℕ) where
  -- A frame of another connection, or one that closes this one.
  other_frame :
      (a x : SocketAddr) (p rest rest' : List ℕ) (fs : List Frame) (m : Bool) (d : List ℕ)
      (h h' : List ℕ) (n n' : ℕ)
      → ThinAddr.eq a x ≡ false
      → Due r stream a
          (SharedReaderState.next_packet h n)
          m
          rest
          (record { socket = x; payload = p } ∷ fs)
          d
      → Due r stream a (SharedReaderState.next_packet h' n') m rest' fs d
  unfolding owed
  other_frame a x p rest rest' fs false d h h' n n' other e = e
  other_frame a x p rest rest' fs true d h h' n n' other e = e ∙ rw (other) refl

  closing_frame :
      (a x : SocketAddr) (rest : List ℕ) (fs : List Frame) (m : Bool) (d : List ℕ) (h : List ℕ)
      (n : ℕ)
      → ThinAddr.eq a x ≡ true
      → Due r stream a
          (SharedReaderState.next_packet h n)
          m
          rest
          (record { socket = x; payload = [] } ∷ fs)
          d
      → d ≡ []
  unfolding owed until_close
  closing_frame a x rest fs false d h n mine e = e
  closing_frame a x rest fs true d h n mine e = e ∙ rw (mine) refl

  data_frame :
      (a x : SocketAddr) (y : ℕ) (ys rest : List ℕ) (fs : List Frame) (m : Bool) (d : List ℕ)
      (h : List ℕ) (n left : ℕ)
      → Due r stream a
          (SharedReaderState.next_packet h n)
          m
          rest
          (record { socket = x; payload = y ∷ ys } ∷ fs)
          d
      → Due r stream a (SharedReaderState.read x left) m (y ∷ ys) fs d
  unfolding owed until_close
  data_frame a x y ys rest fs false d h n left e = e
  data_frame a x y ys rest fs true d h n left e = e

  -- The answer of a connection that could not be opened.
  abbrev pub IsLost : Poll (IoResult (Unit {0})) → Type 0
  IsLost o = o ≡ ready (err ErrorKind.out_of_memory)

  module _ {a : SocketAddr} {i : ℕ} {total : List ℕ} {l : LockedReaderState r} {header : List ℕ}
      {filled : ℕ}
      (T : TrackedAt r stream a i total (SharedReaderState.next_packet header filled) l)
      (x : SocketAddr) (fs : List Frame) (valid : AreFrames fs) (o : Poll (IoResult (Unit {0})))
      (l' : LockedReaderState r) where
    abbrev is_mapped : Bool
    is_mapped = mapped r stream (lookup r l.socket_map a) i

    -- The map has changed for the frame's address alone, which was not the connection's, or is closed.
    remapped-Tracked :
        (known : Option ℕ)
        → known ≢ some i
        → Remapped r stream (table r stream l) x known l'
        → (s' : SharedReaderState r) → Ahead r stream s' (stream l'.world) [] fs
        → Held r stream s' i
        → ((m : Bool)
            → Due r stream a (SharedReaderState.next_packet header filled) m [] fs T.due
            → Due r stream a s' m [] fs T.due)
        → i < l'.fresh
        → l'.entries i ≡ l.entries i
        → Due r stream a
            (SharedReaderState.next_packet header filled)
            is_mapped
            T.rest
            (record { socket = x; payload = [] } ∷ fs)
            T.due
        → TrackedAt r stream a i total s' l'
    remapped-Tracked known free re s' ahead held weaken old same owing =
        moved-TrackedAt r stream T l' s' fs [] valid ahead old alone same held (weaken _ due)
      where
        free_here : lookup r l'.socket_map x ≢ some i
        free_here e = free (sym re.here ∙ e)

        alone : (b : SocketAddr) → lookup r l'.socket_map b ≡ some i → b ≡ a
        alone b h = elim (Bool-cases (ThinAddr.eq b x)) [
          | inl this ↦
              absurd
                (free_here (ap (lookup r l'.socket_map) (sym ((socket_eq_iff b x).0 this)) ∙ h))
          | inr other ↦ T.alone b (sym (re.elsewhere b other) ∙ h)
        ]

        not_mapped : (k : Option ℕ) → k ≢ some i → mapped r stream k i ≡ false
        not_mapped k n = elim (Bool-cases (mapped r stream k i)) [
          | inl m ↦ absurd (n (mapped_some r stream k i m))
          | inr m ↦ m
        ]

        due :
            Due r stream a
              (SharedReaderState.next_packet header filled)
              (mapped r stream (lookup r l'.socket_map a) i)
              []
              fs
              T.due
        due = elim (Bool-cases (ThinAddr.eq a x)) [
          | inl mine ↦
              let here = ap (lookup r l'.socket_map) ((socket_eq_iff a x).0 mine) in
              rw (not_mapped (lookup r l'.socket_map a) (λ e. free_here (sym here ∙ e)))
                (closing_frame a x T.rest fs is_mapped T.due header filled mine owing)
          | inr other ↦ rw (re.elsewhere a other) (
              other_frame a x [] T.rest [] fs is_mapped T.due header header filled filled other
                owing)
        ]

    as_new :
        (m : Bool)
        → Due r stream a (SharedReaderState.next_packet header filled) m [] fs T.due
        → Due r stream a (new_packet r) m [] fs T.due
    unfolding new_packet
    as_new false e = e
    as_new true e = e

    as_send :
        (f : r.SendFut) (m : Bool)
        → Due r stream a (SharedReaderState.next_packet header filled) m [] fs T.due
        → Due r stream a (SharedReaderState.send_socket f) m [] fs T.due
    as_send f false e = e
    as_send f true e = e

    abbrev AtNew : List ℕ → Type 0
    AtNew bytes = bytes ≡ encode fs → Ahead r stream (new_packet r) bytes [] fs

    new-Ahead : (bytes : List ℕ) → AtNew bytes
    unfolding new_packet
    new-Ahead bytes e = e

    new-Held : Held r stream (new_packet r) i
    unfolding new_packet
    new-Held = tt

    -- A whole header, by its payload and by what the map has for its address.
    pub Dispatched-Tracked :
        (p : List ℕ) (known : Option ℕ) (s : SharedReaderState r)
        → lookup r l.socket_map x ≡ known
        → stream l'.world ≡ p ++ encode fs
        → Due r stream a
            (SharedReaderState.next_packet header filled)
            is_mapped
            T.rest
            (record { socket = x; payload = p } ∷ fs)
            T.due
        → Dispatched r stream (table r stream l) s x (length p) known o l'
        → IsLost o ⊎ Tracked r stream a i total l'
    Dispatched-Tracked (y ∷ ys) known s e bytes owing (done, next, same, k) = inr (
        subst (λ z. TrackedAt r stream a i total z l') (sym next)
          (Kept-TrackedAt r stream T l' (SharedReaderState.read x (suc (length ys))) fs (y ∷ ys)
            valid (refl, bytes) same k tt
            (data_frame a x y ys T.rest fs is_mapped T.due header filled (suc (length ys)) owing)))
    Dispatched-Tracked [] (some j) s e bytes owing (done, next, re, k) = inr (
        subst (λ z. TrackedAt r stream a i total z l') (sym next)
          (remapped-Tracked none (λ h. absurd (grind (arith, h))) re (new_packet r)
            (new-Ahead (stream l'.world) bytes) new-Held as_new (omega (arith, T.old, k.same_fresh))
            (ap (λ f. f i) k.same_entries) owing))
    Dispatched-Tracked [] none s e bytes owing (inl (done, next, same, k)) = inr (
        subst (λ z. TrackedAt r stream a i total z l') (sym next)
          (remapped-Tracked none (λ h. absurd (grind (arith, h)))
            (record {
              here = ap (λ m. lookup r m x) same ∙ e;
              elsewhere = λ b h. ap (λ m. lookup r m b) same;
            })
            (new_packet r) (new-Ahead (stream l'.world) bytes) new-Held as_new
            (omega (arith, T.old, k.same_fresh)) (ap (λ f. f i) k.same_entries) owing))
    Dispatched-Tracked [] none s e bytes owing (inr (inl (done, opened))) = inr (
        subst (λ z. TrackedAt r stream a i total z l') (sym opened.sending)
          (remapped-Tracked (some l.fresh) (λ h. absurd (omega (arith, T.old, some_inj h)))
            opened.mapped (SharedReaderState.send_socket opened.future) bytes
            (inl (λ h. omega (arith, T.old, opened.carried, h))) (as_send opened.future)
            (omega (arith, T.old, opened.grown)) (opened.others i not_fresh) owing))
      where
        number : Option ℕ → ℕ
        number none = 0
        number (some j) = j

        some_inj : some l.fresh ≡ some i → l.fresh ≡ i
        some_inj h = ap number h

        not_fresh : (i == l.fresh) ≡ false
        not_fresh = let old = T.old in ground arith
    Dispatched-Tracked [] none s e bytes owing (inr (inr (failed, stays, same, k))) = inl failed
