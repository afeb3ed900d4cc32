-- ===== src/ReadBuffer/Limit.antt =====
-- src/read/read_buffer.rs: how much `fill_buffer` takes at once.
use vt_muxer.Common.{
  ℕ, ◌-◌, ◌≡◌, ◌≤◌, refl, inl, inr, Option, some, ◌==◌, length, arith, Bool-cases,
}
use vt_muxer.Common.Poll.{Poll, ready, pending, IoResult, ok, err}
use vt_muxer.ReadBuffer.{ReadBuffer, Window, Filled, window, after_read, fill_buffer}

-- A number that `fill_buffer` answers is no more than what the reader gives at once.
abbrev pub Within : ℕ → Poll (IoResult (Option ℕ)) → Type 0
Within m (ready (ok (some n))) = n ≤ m
Within m _ = Unit {0}

module _ {R : Type 0} (poll : R → Window → Poll (IoResult Filled) × R) (m : ℕ) where
  after_read-Within :
      (b : ReadBuffer) (polled : Poll (IoResult Filled) × R)
      → ((f : Filled) (s' : R) → polled ≡ (ready (ok f), s') → length f.got ≤ m)
      → Within m (after_read b polled).0
  unfolding after_read
  after_read-Within b (ready (ok f), s') h = omega (arith, h f s' refl)
  after_read-Within b (ready (err e), s') h = tt
  after_read-Within b (pending, s') h = tt

  pub fill_buffer-Within :
      (b : ReadBuffer) (s : R)
      → ((w : Window) (f : Filled) (s' : R) → poll s w ≡ (ready (ok f), s') → length f.got ≤ m)
      → Within m (fill_buffer poll b s).0
  unfolding fill_buffer window
  fill_buffer-Within b s h = elim (Bool-cases (b.capacity - b.filled == 0)) [
    | inl full ↦ rw (full, fill_buffer) tt
    | inr room ↦
        rw (room, fill_buffer)
          (after_read-Within b (poll s (window b)) (λ f s' e. h (window b) f s' e))
  ]
