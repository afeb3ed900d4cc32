-- ===== src/Write/Progress.antt =====
-- src/write.rs: how far `flush_buf` gets, and what it has put on the wire when it stops.
use vt_muxer.Common.{
  ℕ, zero, suc, ◌+◌, ◌%◌, ◌<◌, ◌≤◌, ◌≡◌, refl, ap, ◌∙◌, subst, inl, inr, some, List, [], ◌∷◌, ◌++◌,
  arith, length, take, drop, length-drop, take-take_add, append_assoc, append-nil, Bool-cases, ◌==◌,
}
use vt_muxer.Common.Poll.{Poll, ready, pending, IoResult, ok, err, ErrorKind}
use vt_muxer.PacketBuffer
use vt_muxer.PacketBuffer.{PacketBuffer}
use vt_muxer.Runtime.{Runtime, IsRuntime}
use vt_muxer.Write.State.{Outcome, returns, panicked, exhausted}
use vt_muxer.Write.Flush.{Flush, add_count, flush_step, flush_round, flush_loop, flush_buf}

-- How a flush may end: done, with all bytes out and the packet cleared; or failed or waiting, with
-- the packet as it was. It neither panics nor runs on.
abbrev pub Ended : PacketBuffer → ℕ → PacketBuffer → Outcome (Unit {0}) → Type 0
Ended b n b' (returns (ready (ok _))) =
    (n ≡ length (PacketBuffer.bytes b)) × (b' ≡ PacketBuffer.clear b)
Ended b n b' (returns (ready (err e))) = b' ≡ b
Ended b n b' (returns pending) = b' ≡ b
Ended b n b' panicked = ⊥
Ended b n b' exhausted = ⊥

pub bytes_from-eq :
    (b : PacketBuffer) (n : ℕ)
    → n ≤ length (PacketBuffer.bytes b)
    → PacketBuffer.bytes_from b n ≡ some (drop n (PacketBuffer.bytes b))
unfolding PacketBuffer.bytes_from
bytes_from-eq b n h = ground arith

add_count-eq : (limit n amt : ℕ) → n + amt < limit → add_count limit n amt ≡ some (n + amt)
unfolding add_count
add_count-eq limit n amt h = let small : amt % limit ≡ amt = grind arith in rw small (ground arith)

module _ (r : Runtime) (laws : IsRuntime r) (b : PacketBuffer) (before : List ℕ) where
  open r use {World, Guard, Waker, poll_write, sent}

  abbrev total : ℕ
  total = length (PacketBuffer.bytes b)

  -- With `before` on the wire ahead of the packet, the wire holds the first `written` bytes of it.
  pub record Flushed (n : ℕ) (out : Flush r) : Type 0 where
    pub forward : n ≤ out.written
    pub within : out.written ≤ length (PacketBuffer.bytes b)
    pub on_wire : sent out.world ≡ before ++ take out.written (PacketBuffer.bytes b)
    pub ended : Ended b out.written out.buffer out.outcome

  module _ (k : Waker) (g : Guard) (limit n : ℕ) (w : World)
      (mark : n ≤ length (PacketBuffer.bytes b)) (fits : length (PacketBuffer.bytes b) < limit)
      (wire : sent w ≡ before ++ take n (PacketBuffer.bytes b)) where
    stopped :
        (o : Outcome (Unit {0})) (w' : World)
        → sent w' ≡ sent w
        → Ended b n b o
        → Flushed n (record { outcome = o; buffer = b; written = n; world = w' })
    stopped o w' quiet end = record {
      forward = omega arith;
      within = mark;
      on_wire = quiet ∙ wire;
      ended = end;
    }

    grown :
        (amt : ℕ) (w' : World)
        → sent w' ≡ sent w ++ take amt (drop n (PacketBuffer.bytes b))
        → sent w' ≡ before ++ take (n + amt) (PacketBuffer.bytes b)
    grown amt w' e =
        e
        ∙ ap (λ s. s ++ take amt (drop n (PacketBuffer.bytes b))) wire
        ∙ append_assoc before (take n (PacketBuffer.bytes b))
            (take amt (drop n (PacketBuffer.bytes b)))
        ∙ ap (◌++◌ before) (take-take_add n amt (PacketBuffer.bytes b))

    flush_step-Flushed :
        (again : ℕ → World → Flush r)
        → ((n' : ℕ) (w' : World)
            → n < n'
            → n' ≤ length (PacketBuffer.bytes b)
            → sent w' ≡ before ++ take n' (PacketBuffer.bytes b)
            → Flushed n' (again n' w'))
        → (polled : Poll (IoResult ℕ) × World)
        → poll_write g k (drop n (PacketBuffer.bytes b)) w ≡ polled
        → Flushed n (flush_step r again b limit n polled)
    unfolding flush_step
    flush_step-Flushed again step (ready (ok amt), w') e =
        let (few, wrote) = laws.write_ok g k (drop n (PacketBuffer.bytes b)) w amt w' e in
        let room = length-drop n (PacketBuffer.bytes b) in
        elim (Bool-cases (amt == 0)) [
          | inl none_written ↦
              let nothing : amt ≡ 0 = ground arith in
              let same =
                wrote
                ∙ ap (λ j. sent w ++ take j (drop n (PacketBuffer.bytes b))) nothing
                ∙ append-nil (sent w) in
              rw none_written (stopped (returns (ready (err ErrorKind.write_zero))) w' same refl)
          | inr some_written ↦
              let rest = step (n + amt) w' (ground arith) (omega arith) (grown amt w' wrote) in
              rw (some_written, add_count-eq limit n amt (omega arith))
                (record {
                  forward = omega (arith, rest.forward);
                  within = rest.within;
                  on_wire = rest.on_wire;
                  ended = rest.ended;
                })
        ]
    flush_step-Flushed again step (ready (err e'), w') e =
        stopped (returns (ready (err e'))) w'
          (laws.write_err g k (drop n (PacketBuffer.bytes b)) w e' w' e) refl
    flush_step-Flushed again step (pending, w') e =
        stopped (returns pending) w' (laws.write_pending g k (drop n (PacketBuffer.bytes b)) w w' e)
          refl

    flush_round-Flushed :
        (again : ℕ → World → Flush r)
        → ((n' : ℕ) (w' : World)
            → n < n'
            → n' ≤ length (PacketBuffer.bytes b)
            → sent w' ≡ before ++ take n' (PacketBuffer.bytes b)
            → Flushed n' (again n' w'))
        → (rest : List ℕ) → drop n (PacketBuffer.bytes b) ≡ rest
        → Flushed n (flush_round r again k b g limit n w (some rest))
    unfolding flush_round
    flush_round-Flushed again step [] e = record {
      forward = omega arith;
      within = mark;
      on_wire = wire;
      ended = (omega (arith, ap length e, length-drop n (PacketBuffer.bytes b)), refl);
    }
    flush_round-Flushed again step (x ∷ xs) e =
        subst (λ rest. Flushed n (flush_step r again b limit n (poll_write g k rest w))) e
          (flush_step-Flushed again step (poll_write g k (drop n (PacketBuffer.bytes b)) w) refl)

  flush_loop-Flushed :
      (fuel : ℕ) (k : Waker) (g : Guard) (limit n : ℕ) (w : World)
      → length (PacketBuffer.bytes b) < n + fuel
      → n ≤ length (PacketBuffer.bytes b)
      → length (PacketBuffer.bytes b) < limit
      → sent w ≡ before ++ take n (PacketBuffer.bytes b)
      → Flushed n (flush_loop r fuel k b g limit n w)
  unfolding flush_loop
  flush_loop-Flushed zero k g limit n w enough mark fits wire = absurd (omega arith)
  flush_loop-Flushed (suc fuel) k g limit n w enough mark fits wire = rw (bytes_from-eq b n mark) (
      flush_round-Flushed k g limit n w mark fits wire
        (λ n' w'. flush_loop r fuel k b g limit n' w')
        (λ n' w' more mark' wire'.
          flush_loop-Flushed fuel k g limit n' w' (omega arith) mark' fits wire')
        (drop n (PacketBuffer.bytes b)) refl)

  -- `flush_buf` ends after finitely many rounds and does not panic, if the count stands within the
  -- packet and the counter's type holds the packet's size. With the first `n` bytes of the packet on
  -- the wire when it starts, the first `written` are there when it stops; all of them if it succeeds,
  -- and then the packet is cleared, and the packet is as it was if it fails or waits.
  pub flush_buf-Flushed :
      (k : Waker) (g : Guard) (limit n : ℕ) (w : World)
      → n ≤ length (PacketBuffer.bytes b)
      → length (PacketBuffer.bytes b) < limit
      → sent w ≡ before ++ take n (PacketBuffer.bytes b)
      → Flushed n (flush_buf r k b g limit n w)
  unfolding flush_buf
  flush_buf-Flushed k g limit n w mark fits wire =
      flush_loop-Flushed (length (PacketBuffer.bytes b) + 1) k g limit n w (omega arith) mark fits
        wire
