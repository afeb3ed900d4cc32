-- ===== src/Samples/Source.antt =====
-- The parameters of src/read.rs over a stream of bytes in memory.
use vt_muxer.Common.{
  ℕ, refl, sym, ap, ◌∙◌, false, Option, none, some, List, length, replicate, length-replicate,
  arith,
}
use vt_muxer.Common.Poll.{Poll, ready}
use vt_muxer.Samples.Stream.{giving, stream, giving-IsReader, giving-limit}
use vt_muxer.Read.Shared.{Source}
use vt_muxer.Read.Entries.{IsSource}

abbrev pub source : Source
source = record {
  World = List ℕ;
  Waker = ℕ;
  SendFut = ℕ;
  noop = 0;
  wake = λ k w. w;
  poll_read = λ k w win. giving 4096 w win;
  poll_take = λ limit k w win. giving limit w win;
  alloc = λ n w. (some (replicate n 0), w);
  is_disconnected = λ w. false;
  into_send_async = λ a i w. (i, w);
  poll_send = λ f k w. (ready none, f, w);
  carries = λ f. f;
  poll_budget = λ k w. (ready tt, w);
}

pub source-IsSource : IsSource source stream
source-IsSource = record {
  read_reader = λ k. giving-IsReader 4096;
  take_reader = λ limit k. giving-IsReader limit;
  take_limit = λ limit k w win f w' e. giving-limit limit w win f w' e;
  wake_quiet = λ k w. refl;
  alloc_quiet = λ n w. refl;
  alloc_size = λ n w cells e. sym (ap size e) ∙ length-replicate n 0;
  send_quiet = λ a i w. refl;
  future_quiet = λ f k w. refl;
  send_carries = λ a i w. refl;
  future_carries = λ f k w. refl;
  future_back = λ f k w i e. absurd (omega (arith, ap back e));
  budget_quiet = λ k w. refl;
}
  where
    size : Option (List ℕ) → ℕ
    size none = 0
    size (some xs) = length xs

    back : Poll (Option ℕ) → ℕ
    back (ready (some i)) = 1
    back _ = 0
