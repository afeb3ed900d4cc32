-- ===== src/Write/Closed.antt =====
-- src/write.rs: one round of `poll_shutdown`, from each state that it may find.
use vt_muxer.Common.{
  ℕ, zero, suc, ◌<◌, ◌≤◌, ◌≡◌, refl, sym, ap, ◌∙◌, inl, inr, List, ◌++◌, arith, length, take, subst,
  append-nil, take_all, Bool-cases,
}
use vt_muxer.Common.Poll.{Poll, ready, pending, ok, err}
use vt_muxer.ThinAddr.{SocketAddr}
use vt_muxer.Protocol
use vt_muxer.PacketBuffer
use vt_muxer.PacketBuffer.{PacketBuffer, IsPacket}
use vt_muxer.PacketBuffer.Content.{
  payload, length-payload, length-bytes, packet_size-le, empty-size, some-size,
}
use vt_muxer.Runtime.{Runtime, IsRuntime}
use vt_muxer.PollMutex
use vt_muxer.PollMutex.{PollMutex}
use vt_muxer.PollMutex.Queue.{poll_lock_quiet}
use vt_muxer.Write.State.{Outcome, returns, panicked, exhausted, ShutDownState}
use vt_muxer.Write.Flush.{flush_buf, u32_limit, u8_limit}
use vt_muxer.Write.Shutdown.{Closing, guarded, lock_closing, shutdown_round, shutdown_loop}
use vt_muxer.Write.Progress.{Flushed, flush_buf-Flushed}
use vt_muxer.Write.Stream.{
  Streams, sent-Streams, clear-Streams, frames, frame, joined, AreChunks, bytes-frame,
}
use vt_muxer.Write.Ended.{packet_size-clear}
use vt_muxer.Write.Drained.{all_carried, nil_of_length}

-- After `base`, everything accepted is on the wire in whole frames, and then the empty header of the
-- connection's address.
pub record ClosedOut (base accepted : List ℕ) (a : SocketAddr) (out : List ℕ) : Type 0 where
  pub chunks : List (List ℕ)
  pub chunks_valid : AreChunks chunks
  pub on_wire : out ≡ (base ++ frames a chunks) ++ Protocol.header_bytes (Protocol.empty a)
  pub carried : accepted ≡ joined chunks

-- The bytes of a packet with no payload are the empty header.
pub bytes_empty :
    {b : PacketBuffer}
    → IsPacket b
    → PacketBuffer.packet_size b ≡ 0
    → PacketBuffer.bytes b ≡ Protocol.header_bytes (Protocol.empty b.socket_addr)
unfolding frame Protocol.empty
bytes_empty {b} v none_left =
    bytes-frame v
    ∙ ap (frame b.socket_addr) (nil_of_length (payload b) (omega (arith, length-payload v)))
    ∙ append-nil _

module _ (r : Runtime) where
  open r use {World, Guard, Waker, sent}

  -- What holds in each state of the shutdown, for the packet and the bytes on the wire.
  abbrev pub InShutdown :
      List ℕ → List ℕ → SocketAddr → ShutDownState r → PacketBuffer → List ℕ → Type 0
  InShutdown base accepted a ShutDownState.waiting_lock b out = Streams base accepted a b 0 out
  InShutdown base accepted a (ShutDownState.flushing g n) b out =
      Streams base accepted a b n out × (PacketBuffer.packet_size b ≡ 0 → n ≡ 0)
  InShutdown base accepted a (ShutDownState.writing g n) b out =
      Streams base accepted a b n out × (PacketBuffer.packet_size b ≡ 0)
  InShutdown base accepted a ShutDownState.done b out = ClosedOut base accepted a out
  InShutdown base accepted a ShutDownState.error b out = Unit {0}

  abbrev pub ShutEnded : List ℕ → List ℕ → SocketAddr → Outcome (Unit {0}) → Closing r → Type 0
  ShutEnded base accepted a (returns (ready (ok _))) c =
      (c.state ≡ ShutDownState.done) × ClosedOut base accepted a (sent c.world)
  ShutEnded base accepted a (returns (ready (err e))) c = c.state ≡ ShutDownState.error
  ShutEnded base accepted a (returns pending) c =
      InShutdown base accepted a c.state c.buffer (sent c.world)
  ShutEnded base accepted a panicked c = ⊥
  ShutEnded base accepted a exhausted c = ⊥

  module _ (laws : IsRuntime r) (base accepted : List ℕ) (a : SocketAddr) where
    -- `guarded_flush!`, from what it owes if the flush is done and if it waits.
    guarded-Ended :
        (next : Closing r → Outcome (Unit {0}) × Closing r) (keep : ℕ → ShutDownState r)
        (c : Closing r) (g : Guard) (n : ℕ) (before : List ℕ)
        → ((n' : ℕ) (b' : PacketBuffer) (w' : World)
            → b' ≡ PacketBuffer.clear c.buffer
            → sent w'
              ≡ before ++ take (length (PacketBuffer.bytes c.buffer)) (PacketBuffer.bytes c.buffer)
            → let (o, c') = next (record c { state = keep n'; buffer = b'; world = w' }) in
              ShutEnded base accepted a o c')
        → ((n' : ℕ) (w' : World)
            → n ≤ n'
            → n' ≤ length (PacketBuffer.bytes c.buffer)
            → sent w' ≡ before ++ take n' (PacketBuffer.bytes c.buffer)
            → InShutdown base accepted a (keep n') c.buffer (sent w'))
        → (o : Outcome (Unit {0})) (b' : PacketBuffer) (n' : ℕ) (w' : World)
        → Flushed r laws c.buffer before n
            (record { outcome = o; buffer = b'; written = n'; world = w' })
        → let (o', c') =
            guarded r next keep c g
              (record { outcome = o; buffer = b'; written = n'; world = w' }) in
          ShutEnded base accepted a o' c'
    unfolding guarded
    guarded-Ended next keep c g n before finish wait (returns (ready (ok _))) b' n' w' f =
        let (all_out, cleared) = f.ended in
        finish n' b' w' cleared
          (f.on_wire ∙ ap (λ j. before ++ take j (PacketBuffer.bytes c.buffer)) all_out)
    guarded-Ended next keep c g n before finish wait (returns (ready (err e))) b' n' w' f = refl
    guarded-Ended next keep c g n before finish wait (returns pending) b' n' w' f =
        subst (λ b. InShutdown base accepted a (keep n') b (sent w')) (sym f.ended)
          (wait n' w' f.forward f.within f.on_wire)
    guarded-Ended next keep c g n before finish wait panicked b' n' w' f = f.ended
    guarded-Ended next keep c g n before finish wait exhausted b' n' w' f = f.ended

    -- The rounds that are left, the one that answers included.
    abbrev pub rounds : ShutDownState r → ℕ
    rounds ShutDownState.waiting_lock = 4
    rounds (ShutDownState.flushing g n) = 3
    rounds (ShutDownState.writing g n) = 2
    rounds ShutDownState.done = 1
    rounds ShutDownState.error = 1

    positive : (s : ShutDownState r) → ¬ (rounds s ≤ 0)
    positive ShutDownState.waiting_lock h = omega arith
    positive (ShutDownState.flushing g n) h = omega arith
    positive (ShutDownState.writing g n) h = omega arith
    positive ShutDownState.done h = omega arith
    positive ShutDownState.error h = omega arith

    abbrev pub LoopShuts : (Closing r → Outcome (Unit {0}) × Closing r) → ℕ → Type 0
    LoopShuts again fuel =
        (c : Closing r) (s : ShutDownState r)
        → c.state ≡ s
        → rounds s ≤ fuel
        → InShutdown base accepted a s c.buffer (sent c.world)
        → let (o, c') = again c in ShutEnded base accepted a o c'

    module _ (again : Closing r → Outcome (Unit {0}) × Closing r) (fuel : ℕ)
        (ih : LoopShuts again fuel) (k : Waker) where
      lock_closing-Ended :
          (c : Closing r)
          → c.state ≡ ShutDownState.waiting_lock
          → 3 ≤ fuel
          → (polled : Poll Guard × PollMutex r × World)
          → Streams base accepted a c.buffer 0 (sent polled.2)
          → let (o, c') = lock_closing r again c polled in ShutEnded base accepted a o c'
      unfolding lock_closing
      lock_closing-Ended c e enough (ready g, m, w) s =
          ih _ (ShutDownState.flushing g 0) refl enough (s, λ z. refl)
      lock_closing-Ended c e enough (pending, m, w) s =
          subst (λ j. InShutdown base accepted a j c.buffer (sent w)) (sym e) s

      packet_out :
          (c : Closing r) (g : Guard) (n : ℕ)
          → 2 ≤ fuel
          → Streams base accepted a c.buffer n (sent c.world)
          → 0 < PacketBuffer.packet_size c.buffer
          → let (o, c') =
              guarded r
                (λ c'. again (record c' { state = ShutDownState.writing g 0 }))
                (ShutDownState.flushing g)
                c
                g
                (flush_buf r k c.buffer g (u32_limit r) n c.world) in
            ShutEnded base accepted a o c'
      packet_out c g n enough s some_bytes =
          let small : length (PacketBuffer.bytes c.buffer) < 4294967296 =
            omega (arith, length-bytes s.valid, packet_size-le s.valid) in
          let before = base ++ frames a s.chunks in
          let out = flush_buf r k c.buffer g (u32_limit r) n c.world in
          guarded-Ended _ (ShutDownState.flushing g) c g n before
            (λ n' b' w' cleared wire. ih _ (ShutDownState.writing g 0) refl enough (
              subst (λ b. Streams base accepted a b 0 (sent w')) (sym cleared)
                  (clear-Streams s (sent w') some_bytes wire),
              ap PacketBuffer.packet_size cleared ∙ packet_size-clear r c.buffer,
            ))
            (λ n' w' forward within wire.
              (sent-Streams s n' (sent w') within wire, λ z. absurd (omega arith)))
            out.outcome out.buffer out.written out.world
            (flush_buf-Flushed r laws c.buffer before k g (u32_limit r) n c.world s.mark small
              s.on_wire)

      header_out :
          (c : Closing r) (g : Guard) (n : ℕ)
          → 1 ≤ fuel
          → Streams base accepted a c.buffer n (sent c.world)
          → PacketBuffer.packet_size c.buffer ≡ 0
          → let (o, c') =
              guarded r
                (λ c'.
                  again (record c' { state = ShutDownState.done; world = r.unlock g c'.world }))
                (ShutDownState.writing g)
                c
                g
                (flush_buf r k c.buffer g (u8_limit r) n c.world) in
            ShutEnded base accepted a o c'
      header_out c g n enough s none_left =
          let small : length (PacketBuffer.bytes c.buffer) < 256 =
            omega (arith, length-bytes s.valid) in
          let before = base ++ frames a s.chunks in
          let out = flush_buf r k c.buffer g (u8_limit r) n c.world in
          guarded-Ended _ (ShutDownState.writing g) c g n before
            (λ n' b' w' cleared wire. ih _ ShutDownState.done refl enough (record {
              chunks = s.chunks;
              chunks_valid = s.chunks_valid;
              on_wire =
                  laws.unlock_quiet g w'
                  ∙ wire
                  ∙ ap (◌++◌ before) (
                      take_all (length (PacketBuffer.bytes c.buffer)) (PacketBuffer.bytes c.buffer)
                        (omega arith)
                      ∙ bytes_empty s.valid none_left
                      ∙ ap (λ x. Protocol.header_bytes (Protocol.empty x)) s.addr);
              carried = all_carried s.chunks s.valid none_left s.carried;
            }))
            (λ n' w' forward within wire. (sent-Streams s n' (sent w') within wire, none_left))
            out.outcome out.buffer out.written out.world
            (flush_buf-Flushed r laws c.buffer before k g (u8_limit r) n c.world s.mark small
              s.on_wire)

      shutdown_round-Ended :
          (c : Closing r) (s : ShutDownState r)
          → c.state ≡ s
          → rounds s ≤ suc fuel
          → InShutdown base accepted a s c.buffer (sent c.world)
          → let (o, c') = shutdown_round r again k c s in ShutEnded base accepted a o c'
      unfolding shutdown_round
      shutdown_round-Ended c ShutDownState.waiting_lock e enough s =
          lock_closing-Ended c e (omega arith) (PollMutex.poll_lock r c.write_lock k c.world) (
            subst (Streams base accepted a c.buffer 0)
              (sym (poll_lock_quiet r laws c.write_lock k c.world)) s)
      shutdown_round-Ended c (ShutDownState.flushing g n) e enough (s, fresh) =
          elim (Bool-cases (PacketBuffer.is_empty c.buffer)) [
            | inl none_left ↦
                let nothing = empty-size c.buffer none_left in
                rw (none_left, shutdown_round)
                  (ih _ (ShutDownState.writing g 0) refl (omega arith) (
                    subst (λ j. Streams base accepted a c.buffer j (sent c.world)) (fresh nothing)
                        s,
                    nothing,
                  ))
            | inr some_left ↦
                rw (some_left, shutdown_round)
                  (packet_out c g n (omega arith) s (some-size c.buffer some_left))
          ]
      shutdown_round-Ended c (ShutDownState.writing g n) e enough (s, none_left) =
          header_out c g n (omega arith) s none_left
      shutdown_round-Ended c ShutDownState.done e enough s = (e, s)
      shutdown_round-Ended c ShutDownState.error e enough s = e

  pub shutdown_loop-Ended :
      (laws : IsRuntime r) (base accepted : List ℕ) (a : SocketAddr) (fuel : ℕ) (k : Waker)
      → LoopShuts laws base accepted a (λ c. shutdown_loop r fuel k c) fuel
  unfolding shutdown_loop
  shutdown_loop-Ended laws base accepted a zero k c s e enough inv =
      absurd (positive laws base accepted a s enough)
  shutdown_loop-Ended laws base accepted a (suc fuel) k c s e enough inv =
      subst
        (λ j.
          let (o, c') = shutdown_round r (λ c'. shutdown_loop r fuel k c') k c j in
          ShutEnded base accepted a o c')
        (sym e)
        (shutdown_round-Ended laws base accepted a (λ c'. shutdown_loop r fuel k c') fuel
          (shutdown_loop-Ended laws base accepted a fuel k) k c s e enough inv)
