-- ===== src/Write/Ended.antt =====
-- src/write.rs: how one round of `poll_write` may end, and the flush that it makes.
use vt_muxer.Common.{
  ℕ, ◌+◌, ◌<◌, ◌≤◌, ◌≡◌, refl, sym, ap, ◌∙◌, ◌⊎◌, inl, inr, true, List, [], ◌++◌, arith, length,
  take, drop, length-drop, append_assoc, append-nil, take-take_add, Bool-cases, ◌==◌, subst,
}
use vt_muxer.Common.Poll.{ready, pending, ok, err}
use vt_muxer.Integers.RoundTrip.{get-new}
use vt_muxer.ThinAddr.{SocketAddr}
use vt_muxer.PacketBuffer
use vt_muxer.PacketBuffer.{PacketBuffer, IsPacket}
use vt_muxer.Runtime.{Runtime, IsRuntime}
use vt_muxer.Write.State.{Outcome, returns, panicked, exhausted, WriteState}
use vt_muxer.Write.Step.{Pipe, after_flush}
use vt_muxer.Write.Progress.{Flushed}
use vt_muxer.Write.Stream.{Streams, sent-Streams, clear-Streams, frames}

module _ (r : Runtime) where
  open r use {World, Guard, Waker, sent}

  -- How many bytes of the packet a state has sent; a flush is only ever under way for a packet that
  -- holds payload.
  abbrev pub count : WriteState r → ℕ
  count WriteState.buffering = 0
  count (WriteState.flushing g n) = n

  abbrev pub Busy : WriteState r → PacketBuffer → Type 0
  Busy WriteState.buffering b = Unit {0}
  Busy (WriteState.flushing g n) b = 0 < PacketBuffer.packet_size b

  pub record Sound (base accepted : List ℕ) (a : SocketAddr) (p : Pipe r) : Type 0 where
    pub streams : Streams base accepted a p.buffer (count p.state) (sent p.world)
    pub busy : Busy p.state p.buffer

  -- A `Pending` of a flush has accepted nothing, in this call; a `Pending` of the lock may have.
  abbrev pub Waits : ℕ → ℕ → Pipe r → Type 0
  Waits wrote m p =
      ((wrote ≡ 0) × (m ≡ 0))
      ⊎ ((p.state ≡ WriteState.buffering) × (PacketBuffer.is_full p.buffer ≡ true))

  -- The first `m` bytes of the slice are accepted, on top of `wrote` before.
  abbrev pub WriteEnded : List ℕ → List ℕ → SocketAddr → List ℕ → ℕ → Outcome ℕ → Pipe r → Type 0
  WriteEnded base accepted a buf wrote (returns (ready (ok n))) p =
      (m : ℕ) × (m ≤ length buf)
      × (n ≡ wrote + m)
      × (n ≡ 0 → buf ≡ [])
      × Sound base (accepted ++ take m buf) a p
  WriteEnded base accepted a buf wrote (returns (ready (err e))) p = p.state ≡ WriteState.buffering
  WriteEnded base accepted a buf wrote (returns pending) p =
      (m : ℕ) × (m ≤ length buf) × Waits wrote m p × Sound base (accepted ++ take m buf) a p
  WriteEnded base accepted a buf wrote panicked p = ⊥
  WriteEnded base accepted a buf wrote exhausted p = ⊥

  -- What was accepted before goes in front.
  regroup :
      (accepted buf : List ℕ) (i j : ℕ)
      → (accepted ++ take i buf) ++ take j (drop i buf) ≡ accepted ++ take (i + j) buf
  regroup accepted buf i j =
      append_assoc accepted (take i buf) (take j (drop i buf))
      ∙ ap (◌++◌ accepted) (take-take_add i j buf)

  pub shift :
      (base accepted : List ℕ) (a : SocketAddr) (buf : List ℕ) (wrote i : ℕ) (o : Outcome ℕ)
      (p : Pipe r)
      → i ≤ length buf
      → WriteEnded base (accepted ++ take i buf) a (drop i buf) (wrote + i) o p
      → WriteEnded base accepted a buf wrote o p
  shift base accepted a buf wrote i (returns (ready (ok n))) p h (m, le, e, z, s) = (
    i + m,
    omega (arith, length-drop i buf),
    omega arith,
    nothing_left,
    subst (λ l. Sound base l a p) (regroup accepted buf i m) s,
  )
    where
      nothing_left : n ≡ 0 → buf ≡ []
      nothing_left none_accepted =
          let zero_taken : 0 ≡ i = omega arith in
          subst (λ j. drop j buf ≡ []) (sym zero_taken) (z none_accepted)
  shift base accepted a buf wrote i (returns (ready (err e))) p h s = s
  shift base accepted a buf wrote i (returns pending) p h (m, le, waits, s) = (
    i + m,
    omega (arith, length-drop i buf),
    still waits,
    subst (λ l. Sound base l a p) (regroup accepted buf i m) s,
  )
    where
      still : Waits (wrote + i) m p → Waits wrote (i + m) p
      still (inl (x, y)) = inl (omega arith, omega arith)
      still (inr locked) = inr locked
  shift base accepted a buf wrote i panicked p h s = s
  shift base accepted a buf wrote i exhausted p h s = s

  pub packet_size-clear : (b : PacketBuffer) → PacketBuffer.packet_size (PacketBuffer.clear b) ≡ 0
  unfolding PacketBuffer.packet_size PacketBuffer.clear
  packet_size-clear b = get-new 0 (omega arith)

  module _ (laws : IsRuntime r) (base accepted : List ℕ) (a : SocketAddr) (buf : List ℕ)
      (wrote : ℕ) where
    -- What the loop promises of the round that follows a flush: the packet is empty then.
    abbrev pub AfterFlush : (Pipe r → Outcome ℕ × Pipe r) → Type 0
    AfterFlush again =
        (p : Pipe r)
        → p.state ≡ WriteState.buffering
        → PacketBuffer.packet_size p.buffer ≡ 0
        → Sound base accepted a p
        → WriteEnded base accepted a buf wrote (again p).0 (again p).1

    module _ (again : Pipe r → Outcome ℕ × Pipe r) (next : AfterFlush again) (p : Pipe r)
        (g : Guard) (n : ℕ) (out : List ℕ) (s : Streams base accepted a p.buffer n out)
        (some_bytes : 0 < PacketBuffer.packet_size p.buffer) where
      pub after_flush-Ended :
          (o : Outcome (Unit {0})) (b' : PacketBuffer) (n' : ℕ) (w' : World)
          → Flushed r laws p.buffer
              (base ++ frames a s.chunks)
              n
              (record { outcome = o; buffer = b'; written = n'; world = w' })
          → let (o', p') =
              after_flush r again p g wrote
                (record { outcome = o; buffer = b'; written = n'; world = w' }) in
            WriteEnded base accepted a buf wrote o' p'
      unfolding after_flush
      after_flush-Ended (returns (ready (ok _))) b' n' w' f =
          let (all_out, cleared) = f.ended in
          let wire : sent (r.unlock g w')
              ≡ (base ++ frames a s.chunks)
                ++ take (length (PacketBuffer.bytes p.buffer)) (PacketBuffer.bytes p.buffer) =
            laws.unlock_quiet g w'
            ∙ f.on_wire
            ∙ ap (λ j. (base ++ frames a s.chunks) ++ take j (PacketBuffer.bytes p.buffer))
                all_out in
          next _ refl (ap PacketBuffer.packet_size cleared ∙ packet_size-clear p.buffer) (record {
            streams =
                subst (λ b. Streams base accepted a b 0 (sent (r.unlock g w'))) (sym cleared)
                  (clear-Streams s (sent (r.unlock g w')) some_bytes wire);
            busy = tt;
          })
      after_flush-Ended (returns (ready (err e))) b' n' w' f = refl
      after_flush-Ended (returns pending) b' n' w' f = elim (Bool-cases (wrote == 0)) [
        | inl none_before ↦ rw none_before (0, omega arith, inl (ground arith, refl), kept)
        | inr some_before ↦
            rw some_before (0, omega arith, omega arith, λ z. absurd (ground arith), kept)
      ]
        where
          kept_streams : Streams base accepted a b' n' (sent w')
          kept_streams =
              subst (λ b. Streams base accepted a b n' (sent w')) (sym f.ended)
                (sent-Streams s n' (sent w') f.within f.on_wire)

          kept_busy : 0 < PacketBuffer.packet_size b'
          kept_busy = subst (λ b. 0 < PacketBuffer.packet_size b) (sym f.ended) some_bytes

          kept :
              Sound base
                (accepted ++ take 0 buf)
                a
                (record p { state = WriteState.flushing g n'; buffer = b'; world = w' })
          kept =
              subst
                (λ l.
                  Sound base l a
                    (record p { state = WriteState.flushing g n'; buffer = b'; world = w' }))
                (sym (append-nil accepted)) (record { streams = kept_streams; busy = kept_busy })
      after_flush-Ended panicked b' n' w' f = f.ended
      after_flush-Ended exhausted b' n' w' f = f.ended
