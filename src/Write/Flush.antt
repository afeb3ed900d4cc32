-- ===== src/Write/Flush.antt =====
-- src/write.rs: `flush_buf`, which puts the rest of a packet on the wire.
use vt_muxer.Common.{
  ℕ, zero, suc, ◌+◌, ◌%◌, ◌==◌, ltb, if◌then◌else◌, Option, none, some, List, [], ◌∷◌, length,
}
use vt_muxer.Common.Poll.{Poll, ready, pending, IoResult, ok, err, ErrorKind}
use vt_muxer.PacketBuffer
use vt_muxer.PacketBuffer.{PacketBuffer}
use vt_muxer.Runtime.{Runtime}
use vt_muxer.Write.State.{Outcome, returns, panicked, exhausted}

-- `WriteCounter::add` on a counter below `limit`: the cast of `amt`, and the checked sum.
unfoldable pub add_count : ℕ → ℕ → ℕ → Option ℕ
add_count limit count amt =
    let total = count + amt % limit in if ltb total limit then some total else none

module _ (r : Runtime) where
  open r use {World, Guard, Waker, poll_write}

  -- The result, the packet, the counter and the world that `flush_buf` leaves.
  pub record Flush : Type 0 where
    pub outcome : Outcome (Unit {0})
    pub buffer : PacketBuffer
    pub written : ℕ
    pub world : World

  -- The body of the loop behind the write, with the loop as `again`.
  unfoldable pub flush_step :
      (ℕ → World → Flush) → PacketBuffer → ℕ → ℕ → Poll (IoResult ℕ) × World → Flush
  flush_step again b limit written (ready (ok amt), w) =
      let next : Flush = elim (add_count limit written amt) [
        | some total ↦ again total w
        | none ↦ record { outcome = panicked; buffer = b; written = written; world = w }
      ] in
      let stop : Flush = record {
        outcome = returns (ready (err ErrorKind.write_zero));
        buffer = b;
        written = written;
        world = w;
      } in
      if amt == 0 then stop else next
  flush_step again b limit written (ready (err e), w) = record {
    outcome = returns (ready (err e));
    buffer = b;
    written = written;
    world = w;
  }
  flush_step again b limit written (pending, w) = record {
    outcome = returns pending;
    buffer = b;
    written = written;
    world = w;
  }

  -- One round, on the bytes that are left; `none` is the slice out of range.
  unfoldable pub flush_round :
      (ℕ → World → Flush) → Waker → PacketBuffer → Guard → ℕ → ℕ → World → Option (List ℕ) → Flush
  unfolding flush_step
  flush_round again k b g limit written w none = record {
    outcome = panicked;
    buffer = b;
    written = written;
    world = w;
  }
  flush_round again k b g limit written w (some []) = record {
    outcome = returns (ready (ok tt));
    buffer = PacketBuffer.clear b;
    written = written;
    world = w;
  }
  flush_round again k b g limit written w (some (x ∷ xs)) =
      flush_step again b limit written (poll_write g k (x ∷ xs) w)

  unfoldable pub flush_loop : ℕ → Waker → PacketBuffer → Guard → ℕ → ℕ → World → Flush
  unfolding flush_round
  flush_loop zero k b g limit written w = record {
    outcome = exhausted;
    buffer = b;
    written = written;
    world = w;
  }
  flush_loop (suc fuel) k b g limit written w =
      flush_round (λ n w'. flush_loop fuel k b g limit n w') k b g limit written w
        (PacketBuffer.bytes_from b written)

  -- Each round that goes on sends a byte at least, so the bytes of the packet bound the rounds.
  unfoldable pub flush_buf : Waker → PacketBuffer → Guard → ℕ → ℕ → World → Flush
  unfolding flush_loop
  flush_buf k b g limit written w =
      flush_loop (length (PacketBuffer.bytes b) + 1) k b g limit written w

  -- The two counters of the program: `u32` in a packet, `u8` in the closing header.
  abbrev pub u32_limit : ℕ
  u32_limit = 4294967296

  abbrev pub u8_limit : ℕ
  u8_limit = 256
