-- ===== src/Write/Settled.antt =====
-- src/write.rs: `poll_flush` of a connection, on every branch.
use vt_muxer.Common.{
  ℕ, ◌<◌, ◌≡◌, ◌≢◌, refl, sym, ap, ◌∙◌, inl, inr, false, List, ◌++◌, arith, length, take, subst,
  Bool-cases,
}
use vt_muxer.Common.Poll.{Poll, ready, pending, IoResult, ok, err}
use vt_muxer.ThinAddr.{SocketAddr}
use vt_muxer.PacketBuffer
use vt_muxer.PacketBuffer.{PacketBuffer, IsPacket}
use vt_muxer.PacketBuffer.Content.{empty-size, some-size, length-bytes, packet_size-le}
use vt_muxer.Runtime.{Runtime, IsRuntime}
use vt_muxer.PollMutex
use vt_muxer.PollMutex.{PollMutex}
use vt_muxer.PollMutex.Queue.{poll_lock_quiet}
use vt_muxer.Write.State.{Outcome, returns, panicked, exhausted, WriteState}
use vt_muxer.Write.Flush.{flush_buf, u32_limit}
use vt_muxer.Write.Step.{Pipe}
use vt_muxer.Write.Poll.{
  new_flush, locked_state, poll_locked, flush_writer, flush_end, after_buffer, flush_buffer,
  flush_pipe,
}
use vt_muxer.Write.Progress.{Flushed, flush_buf-Flushed}
use vt_muxer.Write.Stream.{Streams, sent-Streams, clear-Streams, frames}
use vt_muxer.Write.Ended.{count, Busy, Sound, packet_size-clear}

module _ (r : Runtime) where
  open r use {World, Guard, Waker, sent, unlock, poll_flush}

  -- The writer's own `poll_flush` always has a result at once, as that of a TCP stream does.
  abbrev pub IsPrompt : Type 0
  IsPrompt = (g : Guard) (k : Waker) (w : World) → (poll_flush g k w).0 ≢ pending

  abbrev pub PipeFlushed : List ℕ → List ℕ → SocketAddr → Outcome (Unit {0}) → Pipe r → Type 0
  PipeFlushed base accepted a (returns (ready (ok _))) p =
      (p.state ≡ WriteState.buffering)
      × (PacketBuffer.packet_size p.buffer ≡ 0)
      × Streams base accepted a p.buffer 0 (sent p.world)
  PipeFlushed base accepted a (returns (ready (err e))) p = p.state ≡ WriteState.buffering
  PipeFlushed base accepted a (returns pending) p = Sound r base accepted a p
  PipeFlushed base accepted a panicked p = ⊥
  PipeFlushed base accepted a exhausted p = ⊥

  module _ (laws : IsRuntime r) (prompt : IsPrompt) (base accepted : List ℕ) (a : SocketAddr) where
    flush_writer-Flushed :
        (p : Pipe r) (g : Guard) (polled : Poll (IoResult (Unit {0})) × World)
        → polled.0 ≢ pending
        → PacketBuffer.packet_size p.buffer ≡ 0
        → Streams base accepted a p.buffer 0 (sent polled.1)
        → let (o, p') = flush_writer r p g polled in PipeFlushed base accepted a o p'
    unfolding flush_writer
    flush_writer-Flushed p g (ready (ok _), w) h none_left s = (
      refl,
      none_left,
      subst (Streams base accepted a p.buffer 0) (sym (laws.unlock_quiet g w)) s,
    )
    flush_writer-Flushed p g (ready (err e), w) h none_left s = refl
    flush_writer-Flushed p g (pending, w) h none_left s = absurd (h refl)

    -- `poll_flush` of the writer, with nothing left in the packet.
    drained :
        (k : Waker) (p : Pipe r) (g : Guard)
        → PacketBuffer.packet_size p.buffer ≡ 0
        → Streams base accepted a p.buffer 0 (sent p.world)
        → let (o, p') = flush_writer r p g (poll_flush g k p.world) in
          PipeFlushed base accepted a o p'
    drained k p g none_left s =
        flush_writer-Flushed p g (poll_flush g k p.world) (prompt g k p.world) none_left
          (subst (Streams base accepted a p.buffer 0) (sym (laws.flush_quiet g k p.world)) s)

    after_buffer-Flushed :
        (k : Waker) (p : Pipe r) (g : Guard) (n : ℕ)
        (s : Streams base accepted a p.buffer n (sent p.world))
        → 0 < PacketBuffer.packet_size p.buffer
        → (o : Outcome (Unit {0})) (b' : PacketBuffer) (n' : ℕ) (w' : World)
        → Flushed r laws p.buffer
            (base ++ frames a s.chunks)
            n
            (record { outcome = o; buffer = b'; written = n'; world = w' })
        → let (o', p') =
            after_buffer r k p g (record { outcome = o; buffer = b'; written = n'; world = w' }) in
          PipeFlushed base accepted a o' p'
    unfolding after_buffer flush_end poll_locked locked_state
    after_buffer-Flushed k p g n s some_bytes (returns (ready (ok _))) b' n' w' f =
        let (all_out, cleared) = f.ended in
        let wire =
          f.on_wire
          ∙ ap (λ j. (base ++ frames a s.chunks) ++ take j (PacketBuffer.bytes p.buffer)) all_out in
        drained k (record p { state = WriteState.flushing g n'; buffer = b'; world = w' }) g
          (ap PacketBuffer.packet_size cleared ∙ packet_size-clear r p.buffer)
          (subst (λ b. Streams base accepted a b 0 (sent w')) (sym cleared)
            (clear-Streams s (sent w') some_bytes wire))
    after_buffer-Flushed k p g n s some_bytes (returns (ready (err e))) b' n' w' f = refl
    after_buffer-Flushed k p g n s some_bytes (returns pending) b' n' w' f = record {
      streams =
          subst (λ b. Streams base accepted a b n' (sent w')) (sym f.ended)
            (sent-Streams s n' (sent w') f.within f.on_wire);
      busy = subst (λ b. 0 < PacketBuffer.packet_size b) (sym f.ended) some_bytes;
    }
    after_buffer-Flushed k p g n s some_bytes panicked b' n' w' f = f.ended
    after_buffer-Flushed k p g n s some_bytes exhausted b' n' w' f = f.ended

    -- With payload in the packet and the lock at hand.
    with_lock :
        (k : Waker) (p : Pipe r) (g : Guard) (n : ℕ)
        → Streams base accepted a p.buffer n (sent p.world)
        → 0 < PacketBuffer.packet_size p.buffer
        → let (o, p') = flush_buffer r k (ready (g, n), p) in PipeFlushed base accepted a o p'
    unfolding flush_buffer
    with_lock k p g n s some_bytes =
        let small : length (PacketBuffer.bytes p.buffer) < 4294967296 =
          omega (arith, length-bytes s.valid, packet_size-le s.valid) in
        let f =
          flush_buf-Flushed r laws p.buffer (base ++ frames a s.chunks) k g (u32_limit r) n p.world
            s.mark small s.on_wire in
        let out = flush_buf r k p.buffer g (u32_limit r) n p.world in
        after_buffer-Flushed k p g n s some_bytes out.outcome out.buffer out.written out.world f

    -- The two ways to the lock from the buffering state.
    new_lock_full :
        (k : Waker) (p : Pipe r)
        → p.state ≡ WriteState.buffering
        → 0 < PacketBuffer.packet_size p.buffer
        → (polled : Poll Guard × PollMutex r × World)
        → Streams base accepted a p.buffer 0 (sent polled.2)
        → let (o, p') = flush_buffer r k (new_flush r p polled) in PipeFlushed base accepted a o p'
    unfolding new_flush
    new_lock_full k p e some_bytes (ready g, m, w) s =
        with_lock k
          (record { write_lock = m; state = WriteState.flushing g 0; buffer = p.buffer; world = w })
          g 0 s some_bytes
    new_lock_full k p e some_bytes (pending, m, w) s =
        unfold flush_buffer in
        record {
          streams = subst (λ j. Streams base accepted a p.buffer (count r j) (sent w)) (sym e) s;
          busy = subst (λ j. Busy r j p.buffer) (sym e) tt;
        }

    new_lock_empty :
        (k : Waker) (p : Pipe r)
        → p.state ≡ WriteState.buffering
        → PacketBuffer.packet_size p.buffer ≡ 0
        → (polled : Poll Guard × PollMutex r × World)
        → Streams base accepted a p.buffer 0 (sent polled.2)
        → let (o, p') = flush_end r k (new_flush r p polled) in PipeFlushed base accepted a o p'
    unfolding new_flush flush_end
    new_lock_empty k p e none_left (ready g, m, w) s =
        drained k
          (record { write_lock = m; state = WriteState.flushing g 0; buffer = p.buffer; world = w })
          g none_left s
    new_lock_empty k p e none_left (pending, m, w) s = record {
      streams = subst (λ j. Streams base accepted a p.buffer (count r j) (sent w)) (sym e) s;
      busy = subst (λ j. Busy r j p.buffer) (sym e) tt;
    }

    pub flush_pipe-Flushed :
        (k : Waker) (p : Pipe r) (s : WriteState r)
        → p.state ≡ s
        → Streams base accepted a p.buffer (count r s) (sent p.world)
        → Busy r s p.buffer
        → let (o, p') = flush_pipe r k p in PipeFlushed base accepted a o p'
    unfolding flush_pipe poll_locked locked_state
    flush_pipe-Flushed k p WriteState.buffering e s busy =
        let quiet =
          subst (Streams base accepted a p.buffer 0)
            (sym (poll_lock_quiet r laws p.write_lock k p.world)) s in
        elim (Bool-cases (PacketBuffer.is_empty p.buffer)) [
          | inl none_left ↦
              rw (none_left, flush_pipe)
                (subst
                  (λ j.
                    let (o, p') = flush_end r k (locked_state r k p j) in
                    PipeFlushed base accepted a o p')
                  (sym e)
                  (new_lock_empty k p e (empty-size p.buffer none_left)
                    (PollMutex.poll_lock r p.write_lock k p.world) quiet))
          | inr some_left ↦
              rw (some_left, flush_pipe)
                (subst
                  (λ j.
                    let (o, p') = flush_buffer r k (locked_state r k p j) in
                    PipeFlushed base accepted a o p')
                  (sym e)
                  (new_lock_full k p e (some-size p.buffer some_left)
                    (PollMutex.poll_lock r p.write_lock k p.world) quiet))
        ]
    flush_pipe-Flushed k p (WriteState.flushing g n) e s busy =
        rw (not_empty p.buffer busy, flush_pipe)
          (subst
            (λ j.
              let (o, p') = flush_buffer r k (locked_state r k p j) in
              PipeFlushed base accepted a o p')
            (sym e) (with_lock k p g n s busy))
      where
        not_empty :
            (b : PacketBuffer) → 0 < PacketBuffer.packet_size b → PacketBuffer.is_empty b ≡ false
        not_empty b h = unfold PacketBuffer.is_empty in ground arith
