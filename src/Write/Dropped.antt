-- ===== src/Write/Dropped.antt =====
-- src/write.rs: what the task of a dropped connection puts on the wire.
use vt_muxer.Common.{
  ℕ, zero, suc, ◌<◌, ◌≡◌, refl, sym, ap, ◌∙◌, List, [], ◌++◌, arith, length, take, drop, subst,
  append-nil, append_assoc, take-append-drop, take_all,
}
use vt_muxer.Common.Poll.{ok}
use vt_muxer.ThinAddr.{SocketAddr}
use vt_muxer.Protocol
use vt_muxer.PacketBuffer
use vt_muxer.PacketBuffer.{PacketBuffer}
use vt_muxer.PacketBuffer.Content.{payload}
use vt_muxer.Runtime.{Runtime, IsRuntime}
use vt_muxer.PollMutex
use vt_muxer.PollMutex.Queue.{lock_quiet}
use vt_muxer.Write.State.{WriteState, WritePipeState, WriteInner}
use vt_muxer.Write.Drop.{drop_job, send_eof, after_rest, run_job, drop_inner}
use vt_muxer.Write.Progress.{bytes_from-eq}
use vt_muxer.Write.Stream.{Streams, clear-Streams, frames, joined}
use vt_muxer.Write.Ended.{count, Busy, packet_size-clear}
use vt_muxer.Write.Written.{IsWriting}
use vt_muxer.Write.Drained.{all_carried}
use vt_muxer.Write.Closed.{ClosedOut}

module _ (r : Runtime) where
  open r use {World, Guard, sent, write_all}

  -- The stream takes all that is written to it.
  abbrev pub IsReliable : Type 0
  IsReliable = (g : Guard) (bs : List ℕ) (w : World) → (write_all g bs w).0 ≡ ok tt

  -- What the peer gets of what was accepted: all but the payload of a packet of which nothing had
  -- been sent.
  pub record DropOut (base accepted : List ℕ) (a : SocketAddr) (s : WriteState r) (b : PacketBuffer)
      (out : List ℕ) : Type 0 where
    pub kept : List ℕ
    pub lost : List ℕ
    pub parts : accepted ≡ kept ++ lost
    pub lost_if_unsent : count r s ≡ 0 → lost ≡ payload b
    pub none_if_sent : 0 < count r s → lost ≡ []
    pub closed : ClosedOut base kept a out

  module _ (laws : IsRuntime r) (reliable : IsReliable) (a : SocketAddr) where
    eof : List ℕ
    eof = Protocol.header_bytes (Protocol.empty a)

    send_eof-sent : (g : Guard) (w : World) → sent (send_eof r a g w) ≡ sent w ++ eof
    unfolding send_eof eof
    send_eof-sent g w =
        laws.unlock_quiet g (write_all g (Protocol.header_bytes (Protocol.empty a)) w).1
        ∙ laws.write_all_ok g (Protocol.header_bytes (Protocol.empty a)) w _ (λ i. (
          reliable g (Protocol.header_bytes (Protocol.empty a)) w i,
          (write_all g (Protocol.header_bytes (Protocol.empty a)) w).1,
        ))

    after_rest-sent :
        (g : Guard) (bs : List ℕ) (w : World)
        → sent (after_rest r a g (write_all g bs w)) ≡ (sent w ++ bs) ++ eof
    unfolding after_rest
    after_rest-sent g bs w =
        let done : write_all g bs w ≡ (ok tt, (write_all g bs w).1) =
          λ i. (reliable g bs w i, (write_all g bs w).1) in
        ap (λ res. sent (after_rest r a g res)) done
        ∙ send_eof-sent g (write_all g bs w).1
        ∙ ap (λ s. s ++ eof) (laws.write_all_ok g bs w _ done)

    close :
        {base accepted : List ℕ} {b : PacketBuffer} {out : List ℕ}
        → (s : Streams base accepted a b 0 out) → ClosedOut base (joined s.chunks) a (out ++ eof)
    unfolding eof
    close {base} s = record {
      chunks = s.chunks;
      chunks_valid = s.chunks_valid;
      on_wire =
          ap (λ o. o ++ Protocol.header_bytes (Protocol.empty a))
            (s.on_wire ∙ append-nil (base ++ frames a s.chunks));
      carried = refl;
    }

    -- Nothing of the packet is out: its payload is lost.
    drop_unsent :
        {base accepted : List ℕ} (s : WriteState r) (b : PacketBuffer) (w : World) (out : List ℕ)
        → count r s ≡ 0
        → out ≡ sent w ++ eof
        → Streams base accepted a b 0 (sent w)
        → DropOut base accepted a s b out
    drop_unsent {base} s b w out none_out e str = record {
      kept = joined str.chunks;
      lost = payload b;
      parts = str.carried;
      lost_if_unsent = λ z. refl;
      none_if_sent = λ z. absurd (omega arith);
      closed = subst (ClosedOut base (joined str.chunks) a) (sym e) (close str);
    }

    -- Some of it is out, and the task sends the rest.
    drop_sent :
        {base accepted : List ℕ} (s : WriteState r) (b : PacketBuffer) (w : World) (n : ℕ)
        (out : List ℕ)
        → 0 < count r s
        → 0 < PacketBuffer.packet_size b
        → out ≡ (sent w ++ drop n (PacketBuffer.bytes b)) ++ eof
        → Streams base accepted a b n (sent w)
        → DropOut base accepted a s b out
    drop_sent {base} {accepted} s b w n out some_out some_bytes e str =
        let before = base ++ frames a str.chunks in
        let whole : sent w ++ drop n (PacketBuffer.bytes b)
            ≡ before ++ take (length (PacketBuffer.bytes b)) (PacketBuffer.bytes b) =
          ap (λ o. o ++ drop n (PacketBuffer.bytes b)) str.on_wire
          ∙ append_assoc before (take n (PacketBuffer.bytes b)) (drop n (PacketBuffer.bytes b))
          ∙ ap (◌++◌ before) (
              take-append-drop n (PacketBuffer.bytes b)
              ∙ sym (
                  take_all (length (PacketBuffer.bytes b)) (PacketBuffer.bytes b) (omega arith))) in
        let cleared =
          clear-Streams str (sent w ++ drop n (PacketBuffer.bytes b)) some_bytes whole in
        record {
          kept = joined cleared.chunks;
          lost = [];
          parts =
              all_carried cleared.chunks cleared.valid (packet_size-clear r b) cleared.carried
              ∙ sym (append-nil (joined cleared.chunks));
          lost_if_unsent = λ z. absurd (omega arith);
          none_if_sent = λ z. refl;
          closed = subst (ClosedOut base (joined cleared.chunks) a) (sym e) (close cleared);
        }

    module _ {base accepted : List ℕ} (i : WriteInner r) (k : r.Waker) (w : World) where
      drop_phase :
          (s : WriteState r)
          → Streams base accepted a i.buffer (count r s) (sent w)
          → Busy r s i.buffer
          → DropOut base accepted a s i.buffer
              (sent (run_job r a (drop_job r i (WritePipeState.writing k s)) w))
      unfolding run_job drop_job
      drop_phase WriteState.buffering str busy =
          let token = (PollMutex.take_token r i.write_lock).1 in
          let locked = PollMutex.lock r token w in
          drop_unsent WriteState.buffering i.buffer w _ refl
            (send_eof-sent (PollMutex.deref r locked.0) locked.2
              ∙ ap (λ o. o ++ eof) (lock_quiet r laws token w))
            str
      drop_phase (WriteState.flushing g zero) str busy =
          drop_unsent (WriteState.flushing g zero) i.buffer w _ refl (send_eof-sent g w) str
      drop_phase (WriteState.flushing g (suc n)) str busy =
          rw (bytes_from-eq i.buffer (suc n) str.mark) (
            drop_sent (WriteState.flushing g (suc n)) i.buffer w (suc n) _ (omega arith) busy
              (after_rest-sent g (drop (suc n) (PacketBuffer.bytes i.buffer)) w) str)

  -- A connection that is dropped while it is writing, over a stream that takes all that is written,
  -- closes itself: whole frames, none of them empty, and behind them one empty header. If some of its
  -- packet had been sent, the rest follows and all that was accepted reaches the peer; if nothing
  -- had been, the payload of that packet, and only that, does not.
  pub drop_inner-DropOut :
      IsRuntime r
      → IsReliable
      → (base accepted : List ℕ) (a : SocketAddr) (i : WriteInner r) (w : World)
        (v : IsWriting r base accepted a i w)
      → DropOut base accepted a v.phase i.buffer (sent (drop_inner r i w))
  unfolding drop_inner PacketBuffer.addr
  drop_inner-DropOut laws reliable base accepted a i w v =
      subst
        (λ x.
          DropOut base accepted a v.phase i.buffer (sent (run_job r x (drop_job r i i.state) w)))
        (sym v.streams.addr)
        (subst
          (λ j. DropOut base accepted a v.phase i.buffer (sent (run_job r a (drop_job r i j) w)))
          (sym v.is_writing) (drop_phase laws reliable a i v.waker w v.phase v.streams v.busy))
