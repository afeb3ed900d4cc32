-- ===== src/Write/Retry.antt =====
-- src/write.rs: `poll_write` when the packet fills up and another connection holds the writer.
use vt_muxer.Common.{
  ℕ, suc, ◌+◌, ◌-◌, ◌*◌, ◌<◌, ◌≡◌, refl, ap, ◌∙◌, true, false, inl, inr, List, [], ◌∷◌, ◌++◌, arith,
  length, take, subst, drop, length-drop,
}
use vt_muxer.Common.Bytes.{AreBytes}
use vt_muxer.Common.Poll.{pending}
use vt_muxer.PacketBuffer
use vt_muxer.PacketBuffer.{PacketBuffer, IsPacket}
use vt_muxer.PacketBuffer.Content.{payload, packet_size-le}
use vt_muxer.PacketBuffer.Push.{push-Pushed, push-Takes}
use vt_muxer.Runtime.{Runtime}
use vt_muxer.PollMutex
use vt_muxer.PollMutex.{PollMutex}
use vt_muxer.Write.State.{returns, WriteState, WritePipeState, WriteInner}
use vt_muxer.Write.Step.{Pipe, lock_then_flush, push_then, write_round, write_loop}
use vt_muxer.Write.Poll.{leave, while_writing, poll_write}

-- The payload that still fits a packet of which nothing has been sent.
abbrev pub spare : PacketBuffer → ℕ
spare b = 65535 - PacketBuffer.packet_size b

module _ {b : PacketBuffer} (buf : List ℕ) (v : IsPacket b) (hs : AreBytes buf)
    (longer : spare b < length buf) where
  push-spare : (PacketBuffer.push b buf 0).1 ≡ spare b
  push-spare = elim (push-Takes buf 0 v) [
    | inl (before, n) ↦ omega (arith, n, longer)
    | inr (inl (here, n)) ↦ absurd (omega (arith, here))
    | inr (inr (behind, n)) ↦ absurd (omega (arith, behind))
  ]

  push_fills : PacketBuffer.is_full (PacketBuffer.push b buf 0).0 ≡ true
  push_fills =
      let pushed = push-Pushed buf 0 v hs in
      filled (omega (arith, pushed.counted, push-spare, packet_size-le v))
    where
      filled :
          PacketBuffer.packet_size (PacketBuffer.push b buf 0).0 ≡ 65535
          → PacketBuffer.is_full (PacketBuffer.push b buf 0).0 ≡ true
      filled h = unfold PacketBuffer.is_full in rw h

module _ (r : Runtime) where
  open r use {World, Guard, Waker, sent}

  -- A buffering connection, as the loop of `poll_write` sees it.
  abbrev pub buffering_pipe : PollMutex r → PacketBuffer → World → Pipe r
  buffering_pipe l b w = record {
    write_lock = l;
    state = WriteState.buffering;
    buffer = b;
    world = w;
  }

  module _ (k : Waker) (l m : PollMutex r) (w w' : World)
      (held : PollMutex.poll_lock r l k w ≡ (pending, m, w')) where
    wait_when_full :
        (fuel : ℕ) (rest : List ℕ) (wrote : ℕ) (b : PacketBuffer)
        → 0 < length rest
        → PacketBuffer.is_full b ≡ true
        → write_loop r (suc fuel) k rest wrote (buffering_pipe l b w)
          ≡ (returns pending, buffering_pipe m b w')
    unfolding write_loop write_round lock_then_flush
    wait_when_full fuel [] wrote b some_left full = absurd (omega arith)
    wait_when_full fuel (y ∷ ys) wrote b some_left full =
        rw (full, write_round) (rw (held, lock_then_flush))

    fill_then_wait :
        (fuel : ℕ) (x : ℕ) (xs : List ℕ) (b : PacketBuffer)
        → IsPacket b
        → AreBytes (x ∷ xs)
        → spare b < length (x ∷ xs)
        → PacketBuffer.is_full b ≡ false
        → write_loop r (suc (suc fuel)) k (x ∷ xs) 0 (buffering_pipe l b w)
          ≡ (returns pending, buffering_pipe m (PacketBuffer.push b (x ∷ xs) 0).0 w')
    unfolding write_loop write_round push_then
    fill_then_wait fuel x xs b v hs longer room =
        let taken = push-spare (x ∷ xs) v hs longer in
        rw (room, write_round)
          (wait_when_full fuel (drop (PacketBuffer.push b (x ∷ xs) 0).1 (x ∷ xs)) _
            (PacketBuffer.push b (x ∷ xs) 0).0
            (omega (arith, length-drop (PacketBuffer.push b (x ∷ xs) 0).1 (x ∷ xs)))
            (push_fills (x ∷ xs) v hs longer))

  -- A buffering connection whose packet has room, but not for the whole slice, answers `Pending`
  -- while another connection holds the writer, and has by then appended as many bytes of the slice
  -- as fit to its packet.
  pub poll_write_keeps_pending :
      (i : WriteInner r) (old k : Waker) (x : ℕ) (xs : List ℕ) (m : PollMutex r) (w w' : World)
      → i.state ≡ WritePipeState.writing old WriteState.buffering
      → IsPacket i.buffer
      → AreBytes (x ∷ xs)
      → 0 < spare i.buffer
      → spare i.buffer < length (x ∷ xs)
      → PollMutex.poll_lock r i.write_lock k w ≡ (pending, m, w')
      → let (o, i', w'') = poll_write r i k (x ∷ xs) w in
        (o ≡ returns pending)
        × (payload i'.buffer ≡ payload i.buffer ++ take (spare i.buffer) (x ∷ xs))
  unfolding poll_write while_writing leave
  poll_write_keeps_pending i old k x xs m w w' e v hs room longer held =
      let run : write_loop r (2 * length (x ∷ xs) + 2) k (x ∷ xs) 0
            (buffering_pipe i.write_lock i.buffer w)
          ≡ (returns pending, buffering_pipe m (PacketBuffer.push i.buffer (x ∷ xs) 0).0 w') =
        subst
          (λ f.
            write_loop r f k (x ∷ xs) 0 (buffering_pipe i.write_lock i.buffer w)
            ≡ (returns pending, buffering_pipe m (PacketBuffer.push i.buffer (x ∷ xs) 0).0 w'))
          fuel_shape
          (fill_then_wait k i.write_lock m w w' held (2 * length (x ∷ xs)) x xs i.buffer v hs longer
            not_full) in
      let pushed = push-Pushed (x ∷ xs) 0 v hs in
      rw (e, poll_write)
        (rw (run, leave)
          (
            refl,
            pushed.appended
                ∙ ap (λ n. payload i.buffer ++ take n (x ∷ xs)) (push-spare (x ∷ xs) v hs longer),
          ))
    where
      fuel_shape : suc (suc (2 * length (x ∷ xs))) ≡ 2 * length (x ∷ xs) + 2
      fuel_shape = omega arith

      not_full : PacketBuffer.is_full i.buffer ≡ false
      not_full = unfold PacketBuffer.is_full in ground arith
