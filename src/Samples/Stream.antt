-- ===== src/Samples/Stream.antt =====
-- A byte stream for the tests of the reading side.
use vt_muxer.Common.{
  ℕ, suc, ◌-◌, ◌≤◌, min, ◌≡◌, refl, sym, ap, ◌∙◌, List, [], ◌++◌, length, take, drop, arith,
  length-take, take-append-drop,
}
use vt_muxer.Common.Poll.{Poll, ready, pending, IoResult, ok, err}
use vt_muxer.ReadBuffer.{Window, Filled, ReadBuf, IsReadBuf}
use vt_muxer.ReadBuffer.Fifo.{IsReader}

-- A reader that gives up to `m` bytes at a time.
abbrev pub giving : ℕ → List ℕ → Window → Poll (IoResult Filled) × List ℕ
giving m s w = (
  ready (ok (record { got = take (min m (w.capacity - w.filled)) s; initialized = w.capacity })),
  drop (min m (w.capacity - w.filled)) s,
)

abbrev pub stream : List ℕ → List ℕ
stream s = s

abbrev pub got_of : Poll (IoResult Filled) × List ℕ → List ℕ
got_of (ready (ok f), s) = f.got
got_of (ready (err e), s) = []
got_of (pending, s) = []

abbrev pub init_of : Poll (IoResult Filled) × List ℕ → ℕ
init_of (ready (ok f), s) = suc f.initialized
init_of (ready (err e), s) = 0
init_of (pending, s) = 0

pub giving-IsReader : (m : ℕ) → IsReader (giving m) stream
giving-IsReader m = record {
  in_room = λ s w f s' h e. (
    omega (
      arith,
      h.0,
      h.1,
      ap (λ p. length (got_of p)) e,
      ap init_of e,
      length-take (min m (w.capacity - w.filled)) s,
    ),
    omega (arith, ap init_of e),
  );
  gives = λ s w f s' e.
      sym (take-append-drop (min m (w.capacity - w.filled)) s) ∙ ap (λ p. got_of p ++ p.1) e;
  fails = λ s w k s' e. absurd (omega (arith, ap init_of e));
  waits = λ s w s' e. absurd (omega (arith, ap init_of e));
}

pub giving-limit :
    (m : ℕ) (s : List ℕ) (w : Window) (f : Filled) (s' : List ℕ)
    → giving m s w ≡ (ready (ok f), s')
    → length f.got ≤ m
giving-limit m s w f s' e =
    omega (arith, ap (λ p. length (got_of p)) e, length-take (min m (w.capacity - w.filled)) s)

-- A `ReadBuf` as the list of its bytes and its room.
abbrev pub list_buf : ReadBuf
list_buf = record {
  Buf = List ℕ × ℕ;
  contents = λ o. o.0;
  remaining = λ o. o.1;
  put = λ o bs. (o.0 ++ bs, o.1 - length bs);
}

pub list_buf-IsReadBuf : IsReadBuf list_buf
list_buf-IsReadBuf = record {
  put_contents = λ o bs h. refl;
  put_remaining = λ o bs h. omega (arith, h);
}
