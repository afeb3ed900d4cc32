-- ===== src/Read/Loop.antt =====
-- src/read.rs: the rounds of the shared reader, and the state between them.
use vt_muxer.Common.{ℕ, zero, suc, ◌≡◌, ◌<◌, refl, ap, Option, none, some, List, length, arith}
use vt_muxer.Common.Poll.{Poll, ready, pending, IoResult, ok, err, ErrorKind}
use vt_muxer.Read.Shared.{Source, LockedReaderState}
use vt_muxer.Read.Poll.{poll_state, poll_once, after_budget, after_once, poll}
use vt_muxer.Read.Entries.{IsSource}
use vt_muxer.Read.Valid.{IsShared, work, Rounded}
use vt_muxer.Read.Rounds.{poll_state-Rounded}

module _ (r : Source) (stream : r.World → List ℕ) where
  open r use {World, Waker, SendFut, poll_send, poll_budget}

  -- How a poll of the reader ends.
  abbrev pub Returned : Option (Poll ErrorKind) × LockedReaderState r → Type 0
  Returned (some answer, l') = IsShared r stream l'
  Returned (none, l') = ⊥

  module _ (l : LockedReaderState r)
      (again : LockedReaderState r → Option (Poll ErrorKind) × LockedReaderState r)
      (goes_on : (l' : LockedReaderState r)
        → IsShared r stream l'
        → work r stream l' < work r stream l
        → Returned (again l')) where
    after_budget-Returned :
        (l' : LockedReaderState r) (p : Poll (Unit {0}) × World)
        → IsShared r stream l'
        → work r stream l' < work r stream l
        → stream p.1 ≡ stream l'.world
        → Returned (after_budget r again l' p)
    unfolding after_budget
    after_budget-Returned l' (ready _, w) v less quiet =
        goes_on (record l' { world = w })
          (record { buffers = v.buffers; known = v.known; state_valid = v.state_valid })
          (omega (arith, less, ap length quiet))
    after_budget-Returned l' (pending, w) v less quiet = record {
      buffers = v.buffers;
      known = v.known;
      state_valid = v.state_valid;
    }

    after_once-Returned :
        IsSource r stream
        → (k : Waker) (p : Poll (IoResult (Unit {0})) × LockedReaderState r)
        → Rounded r stream l p.0 p.1
        → Returned (after_once r again k p)
    unfolding after_once
    after_once-Returned src k (ready (ok _), l') (v, less) =
        after_budget-Returned l' (poll_budget k l'.world) v (less refl)
          (src.budget_quiet k l'.world)
    after_once-Returned src k (ready (err e), l') (v, less) = v
    after_once-Returned src k (pending, l') (v, less) = v

  -- `poll` on a valid state, over a stream that keeps its contract, returns when it has more rounds
  -- than twice the bytes of the stream, and one if a new connection is on its way to the listener;
  -- the state is valid then: all buffers are, a payload under way is not over, and a header under way
  -- is not whole.
  pub poll-Returned :
      IsSource r stream
      → (fuel : ℕ) (l : LockedReaderState r) (k : Waker) → IsShared r stream l
      → work r stream l < fuel
      → Returned (poll r fuel l k)
  unfolding poll poll_once
  poll-Returned src zero l k v enough = absurd (omega (arith, enough))
  poll-Returned src (suc fuel) l k v enough =
      after_once-Returned l (λ l'. poll r fuel l' k)
        (λ l' v' less. poll-Returned src fuel l' k v' (omega (arith, less, enough))) src k
        (poll_state r l k l.state) (poll_state-Rounded r stream src l k l.state v refl)
