-- ===== src/Write/Accept.antt =====
-- src/write.rs: what `poll_write` accepts, and that the stream holds exactly that.
use vt_muxer.Common.{
  ℕ, zero, suc, ◌+◌, ◌*◌, ◌<◌, ◌≤◌, ◌≡◌, ◌≢◌, refl, sym, ◌∙◌, inl, inr, true, false, List, [], ◌∷◌,
  ◌++◌, arith, length, take, drop, length-drop, append-nil, Bool-cases, subst,
}
use vt_muxer.Common.Bytes.{AreBytes, AreBytes-drop}
use vt_muxer.Common.Poll.{Poll, ready, pending}
use vt_muxer.ThinAddr.{SocketAddr}
use vt_muxer.PacketBuffer
use vt_muxer.PacketBuffer.{PacketBuffer, IsPacket}
use vt_muxer.PacketBuffer.Content.{length-bytes, packet_size-le}
use vt_muxer.PacketBuffer.Push.{push-Pushed, must_flush_iff}
use vt_muxer.Runtime.{Runtime, IsRuntime}
use vt_muxer.PollMutex
use vt_muxer.PollMutex.{PollMutex}
use vt_muxer.PollMutex.Queue.{poll_lock_quiet}
use vt_muxer.Write.State.{Outcome, WriteState}
use vt_muxer.Write.Flush.{flush_buf, u32_limit}
use vt_muxer.Write.Step.{Pipe, after_flush, push_then, lock_then_flush, write_round, write_loop}
use vt_muxer.Write.Progress.{flush_buf-Flushed}
use vt_muxer.Write.Stream.{Streams, push-Streams, frames}
use vt_muxer.Write.Ended.{count, Busy, Sound, WriteEnded, AfterFlush, shift, after_flush-Ended}

-- A buffering packet that is not full takes a byte at least; so does a packet that need not be
-- flushed first.
push_some :
    {b : PacketBuffer} (x : ℕ) (xs : List ℕ) (n : ℕ)
    → IsPacket b
    → PacketBuffer.must_flush_for b n ≡ false
    → 0 < (PacketBuffer.push b (x ∷ xs) n).1
push_some {b} x xs n v e =
    let same = must_flush_iff (x ∷ xs) n v (λ z. cc) in
    let taken : (PacketBuffer.push b (x ∷ xs) n).1 ≢ 0 = λ z. cc (same.1 z, e) in omega arith

must_flush_for-zero : (b : PacketBuffer) → PacketBuffer.must_flush_for b 0 ≡ PacketBuffer.is_full b
unfolding PacketBuffer.must_flush_for
must_flush_for-zero b = refl

is_full-false : (b : PacketBuffer) → PacketBuffer.packet_size b ≡ 0 → PacketBuffer.is_full b ≡ false
unfolding PacketBuffer.is_full
is_full-false b e = rw e

module _ (r : Runtime) (laws : IsRuntime r) (base : List ℕ) (a : SocketAddr) where
  open r use {World, Guard, Waker, sent}

  -- The rounds that a state may add to those that take a byte.
  abbrev pub tick : WriteState r → ℕ
  tick WriteState.buffering = 0
  tick (WriteState.flushing g n) = 1

  at_phase :
      {accepted : List ℕ} {p : Pipe r} (s : WriteState r)
      → p.state ≡ s
      → Streams base accepted a p.buffer (count r s) (sent p.world)
      → Busy r s p.buffer
      → Sound r base accepted a p
  at_phase {p = p} s e str busy = record { streams = rw e str; busy = rw e busy }

  push_then-Ended :
      (rest : List ℕ → ℕ → Pipe r → Outcome ℕ × Pipe r) (p : Pipe r) (accepted buf : List ℕ)
      (wrote n : ℕ)
      → IsPacket p.buffer
      → AreBytes buf
      → (let (b', m) = PacketBuffer.push p.buffer buf n in
          let (o, p') = rest (drop m buf) (wrote + m) (record p { buffer = b' }) in
          WriteEnded r base (accepted ++ take m buf) a (drop m buf) (wrote + m) o p')
      → let (o, p') = push_then r rest p buf wrote n in WriteEnded r base accepted a buf wrote o p'
  unfolding push_then
  push_then-Ended rest p accepted buf wrote n v hs h =
      let pushed = push-Pushed buf n v hs in
      shift r base accepted a buf wrote (PacketBuffer.push p.buffer buf n).1 _ _ pushed.within h

  -- What the loop promises with fuel for the rest of the slice.
  abbrev pub LoopEnds : (List ℕ → ℕ → Pipe r → Outcome ℕ × Pipe r) → ℕ → Type 0
  LoopEnds again fuel =
      (accepted buf : List ℕ) (wrote : ℕ) (p : Pipe r)
      → Sound r base accepted a p
      → AreBytes buf
      → 2 * length buf + tick p.state < fuel
      → let (o, p') = again buf wrote p in WriteEnded r base accepted a buf wrote o p'

  module _ (again : List ℕ → ℕ → Pipe r → Outcome ℕ × Pipe r) (fuel : ℕ) (ih : LoopEnds again fuel)
      (k : Waker) where
    flush-Ended :
        (accepted buf : List ℕ) (wrote : ℕ) (p : Pipe r) (g : Guard) (n : ℕ) (w : World)
        (next : Pipe r → Outcome ℕ × Pipe r)
        → AfterFlush r laws base accepted a buf wrote next
        → Streams base accepted a p.buffer n (sent w)
        → 0 < PacketBuffer.packet_size p.buffer
        → let (o, p') = after_flush r next p g wrote (flush_buf r k p.buffer g (u32_limit r) n w) in
          WriteEnded r base accepted a buf wrote o p'
    flush-Ended accepted buf wrote p g n w next go s some_bytes =
        let small : length (PacketBuffer.bytes p.buffer) < 4294967296 =
          omega (arith, length-bytes s.valid, packet_size-le s.valid) in
        let f =
          flush_buf-Flushed r laws p.buffer (base ++ frames a s.chunks) k g (u32_limit r) n w s.mark
            small s.on_wire in
        let out = flush_buf r k p.buffer g (u32_limit r) n w in
        after_flush-Ended r laws base accepted a buf wrote next go p g n (sent w) s some_bytes
          out.outcome out.buffer out.written out.world f

    push_buffering-Ended :
        (accepted : List ℕ) (x : ℕ) (xs : List ℕ) (wrote : ℕ) (p : Pipe r)
        → p.state ≡ WriteState.buffering
        → PacketBuffer.is_full p.buffer ≡ false
        → Streams base accepted a p.buffer 0 (sent p.world)
        → AreBytes (x ∷ xs)
        → 2 * length (x ∷ xs) ≤ fuel
        → let (o, p') = push_then r again p (x ∷ xs) wrote 0 in
          WriteEnded r base accepted a (x ∷ xs) wrote o p'
    push_buffering-Ended accepted x xs wrote p e not_full s hs enough =
        let more = push_some x xs 0 s.valid (must_flush_for-zero p.buffer ∙ not_full) in
        let m : ℕ = (PacketBuffer.push p.buffer (x ∷ xs) 0).1 in
        push_then-Ended again p accepted (x ∷ xs) wrote 0 s.valid hs (
          ih _ _ _ _ (at_phase WriteState.buffering e (push-Streams s (x ∷ xs) hs) tt)
            (AreBytes-drop m (x ∷ xs) hs) (rw e (omega (arith, length-drop m (x ∷ xs)))))

    lock_then_flush-Ended :
        (accepted : List ℕ) (x : ℕ) (xs : List ℕ) (wrote : ℕ) (p : Pipe r)
        → p.state ≡ WriteState.buffering
        → PacketBuffer.is_full p.buffer ≡ true
        → Streams base accepted a p.buffer 0 (sent p.world)
        → AreBytes (x ∷ xs)
        → 2 * length (x ∷ xs) ≤ fuel
        → (polled : Poll Guard × PollMutex r × World) → sent polled.2 ≡ sent p.world
        → let (o, p') =
            lock_then_flush r (λ p'. push_then r again p' (x ∷ xs) wrote 0) k p wrote polled in
          WriteEnded r base accepted a (x ∷ xs) wrote o p'
    unfolding lock_then_flush
    lock_then_flush-Ended accepted x xs wrote p e full s hs enough (ready g, m, w) quiet =
        flush-Ended accepted (x ∷ xs) wrote (record p { write_lock = m }) g 0 w _
          (λ p' e' none_left sound.
            push_buffering-Ended accepted x xs wrote p' e' (is_full-false p'.buffer none_left)
              (subst (λ j. Streams base accepted a p'.buffer (count r j) (sent p'.world)) e'
                sound.streams)
              hs enough)
          (subst (Streams base accepted a p.buffer 0) (sym quiet) s) (full_some p.buffer full)
      where
        full_some :
            (b : PacketBuffer) → PacketBuffer.is_full b ≡ true → 0 < PacketBuffer.packet_size b
        full_some b h = unfold PacketBuffer.is_full in ground arith
    lock_then_flush-Ended accepted x xs wrote p e full s hs enough (pending, m, w) quiet = (
      0,
      omega arith,
      inr (e, full),
      at_phase WriteState.buffering e
          (subst (λ l. Streams base l a p.buffer 0 (sent w)) (sym (append-nil accepted))
            (subst (Streams base accepted a p.buffer 0) (sym quiet) s))
          tt,
    )

    flushing-Ended :
        (accepted buf : List ℕ) (wrote : ℕ) (p : Pipe r) (g : Guard) (n : ℕ)
        → Streams base accepted a p.buffer n (sent p.world)
        → 0 < PacketBuffer.packet_size p.buffer
        → AreBytes buf
        → 2 * length buf < fuel
        → let (o, p') =
            after_flush r
              (again buf wrote)
              p
              g
              wrote
              (flush_buf r k p.buffer g (u32_limit r) n p.world) in
          WriteEnded r base accepted a buf wrote o p'
    flushing-Ended accepted buf wrote p g n s some_bytes hs enough =
        flush-Ended accepted buf wrote p g n p.world (again buf wrote)
          (λ p' e' none_left sound. ih accepted buf wrote p' sound hs (rw e' (omega arith))) s
          some_bytes

    write_round-Ended :
        (accepted : List ℕ) (x : ℕ) (xs : List ℕ) (wrote : ℕ) (p : Pipe r) (s : WriteState r)
        → p.state ≡ s
        → Streams base accepted a p.buffer (count r s) (sent p.world)
        → Busy r s p.buffer
        → AreBytes (x ∷ xs)
        → 2 * length (x ∷ xs) + tick s < suc fuel
        → let (o, p') = write_round r again k p s (x ∷ xs) wrote in
          WriteEnded r base accepted a (x ∷ xs) wrote o p'
    unfolding write_round
    write_round-Ended accepted x xs wrote p WriteState.buffering e s busy hs enough =
        elim (Bool-cases (PacketBuffer.is_full p.buffer)) [
          | inl full ↦
              rw (full, write_round)
                (lock_then_flush-Ended accepted x xs wrote p e full s hs (omega arith)
                  (PollMutex.poll_lock r p.write_lock k p.world)
                  (poll_lock_quiet r laws p.write_lock k p.world))
          | inr room ↦
              rw (room, write_round)
                (push_buffering-Ended accepted x xs wrote p e room s hs (omega arith))
        ]
    write_round-Ended accepted x xs wrote p (WriteState.flushing g n) e s busy hs enough =
        elim (Bool-cases (PacketBuffer.must_flush_for p.buffer n)) [
          | inl must ↦
              rw (must, write_round)
                (flushing-Ended accepted (x ∷ xs) wrote p g n s busy hs (omega arith))
          | inr room ↦
              let m : ℕ = (PacketBuffer.push p.buffer (x ∷ xs) n).1 in
              let pushed = push-Pushed (x ∷ xs) n s.valid hs in
              rw (room, write_round)
                (push_then-Ended
                  (λ rest c p'.
                    after_flush r (again rest c) p' g c
                      (flush_buf r k p'.buffer g (u32_limit r) n p'.world))
                  p accepted (x ∷ xs) wrote n s.valid hs
                  (flushing-Ended _ (drop m (x ∷ xs)) (wrote + m)
                    (record p { buffer = (PacketBuffer.push p.buffer (x ∷ xs) n).0 }) g n
                    (push-Streams s (x ∷ xs) hs) (omega (arith, pushed.counted))
                    (AreBytes-drop m (x ∷ xs) hs) (omega (arith, length-drop m (x ∷ xs)))))
        ]

  pub write_loop-Ended :
      (fuel : ℕ) (k : Waker) → LoopEnds (λ buf wrote p. write_loop r fuel k buf wrote p) fuel
  unfolding write_loop
  write_loop-Ended zero k accepted buf wrote p s hs enough = absurd (omega arith)
  write_loop-Ended (suc fuel) k accepted [] wrote p s hs enough = (
    0,
    omega arith,
    omega arith,
    λ z. refl,
    subst (λ l. Sound r base l a p) (sym (append-nil accepted)) s,
  )
  write_loop-Ended (suc fuel) k accepted (x ∷ xs) wrote p s hs enough =
      write_round-Ended (λ buf count p'. write_loop r fuel k buf count p') fuel
        (write_loop-Ended fuel k) k accepted x xs wrote p p.state refl s.streams s.busy hs enough
