-- ===== src/Samples/Net.antt =====
-- A scripted network: the writer answers from a list and then takes everything, and the mutex is held
-- by another connection or free. It meets what src/write.rs relies on.
use vt_muxer.Common.{
  ℕ, ◌≤◌, ◌≡◌, refl, sym, ap, Bool, true, false, Option, none, some, List, [], ◌∷◌, ◌++◌, arith,
  length, take, min, take_all,
}
use vt_muxer.Common.Poll.{Poll, ready, pending, ErrorKind, IoResult, ok, err}
use vt_muxer.Runtime.{Runtime, IsRuntime}
use vt_muxer.Write.Settled.{IsPrompt}

pub record Net : Type 0 where
  pub answers : List (Poll (IoResult ℕ))
  pub held : Bool
  pub log : List ℕ

abbrev pub answer : List (Poll (IoResult ℕ)) → List ℕ → Net → Poll (IoResult ℕ) × Net
answer [] bs w = (ready (ok (length bs)), record w { log = w.log ++ bs })
answer (ready (ok n) ∷ rest) bs w = (
  ready (ok (min n (length bs))),
  record { answers = rest; held = w.held; log = w.log ++ take (min n (length bs)) bs },
)
answer (ready (err e) ∷ rest) bs w = (ready (err e), record w { answers = rest })
answer (pending ∷ rest) bs w = (pending, record w { answers = rest })

abbrev pub try_net : Bool → Net → Option (Unit {0}) × Net
try_net true w = (none, w)
try_net false w = (some tt, w)

abbrev pub poll_net : Bool → Net → Poll (Unit {0}) × Unit {0} × Net
poll_net true w = (pending, tt, w)
poll_net false w = (ready tt, tt, w)

abbrev pub net : Runtime
net = record {
  World = Net;
  Mutex = Unit {0};
  Guard = Unit {0};
  LockFuture = Unit {0};
  Waker = ℕ;
  noop = 0;
  wake = λ k w. w;
  ptr_eq = λ m n. true;
  try_lock_owned = λ m w. try_net w.held w;
  lock_owned = λ m w. (tt, w);
  poll_future = λ f k w. poll_net w.held w;
  await_future = λ f w. (tt, w);
  await_lock = λ m w. (tt, w);
  unlock = λ g w. w;
  poll_write = λ g k bs w. answer w.answers bs w;
  poll_flush = λ g k w. (ready (ok tt), w);
  write_all = λ g bs w. (ok tt, record w { log = w.log ++ bs });
  sent = λ w. w.log;
}

answer_ok :
    (l : List (Poll (IoResult ℕ))) (bs : List ℕ) (w : Net) (n : ℕ) (w' : Net)
    → answer l bs w ≡ (ready (ok n), w')
    → (n ≤ length bs) × (w'.log ≡ w.log ++ take n bs)
answer_ok [] bs w n w' e =
    let size : n ≡ length bs = ground arith in
    (
      omega arith,
      rw (size, take_all (length bs) bs (omega arith))
          (sym (ap (λ (p : Poll (IoResult ℕ) × Net). p.1.log) e)),
    )
answer_ok (ready (ok m) ∷ rest) bs w n w' e =
    let size : n ≡ min m (length bs) = ground arith in
    (omega arith, rw size (sym (ap (λ (p : Poll (IoResult ℕ) × Net). p.1.log) e)))
answer_ok (ready (err e') ∷ rest) bs w n w' e = absurd (cc)
answer_ok (pending ∷ rest) bs w n w' e = absurd (cc)

answer_err :
    (l : List (Poll (IoResult ℕ))) (bs : List ℕ) (w : Net) (e' : ErrorKind) (w' : Net)
    → answer l bs w ≡ (ready (err e'), w')
    → w'.log ≡ w.log
answer_err [] bs w e' w' e = absurd (cc)
answer_err (ready (ok m) ∷ rest) bs w e' w' e = absurd (cc)
answer_err (ready (err e'') ∷ rest) bs w e' w' e =
    sym (ap (λ (p : Poll (IoResult ℕ) × Net). p.1.log) e)
answer_err (pending ∷ rest) bs w e' w' e = absurd (cc)

answer_pending :
    (l : List (Poll (IoResult ℕ))) (bs : List ℕ) (w w' : Net)
    → answer l bs w ≡ (pending, w')
    → w'.log ≡ w.log
answer_pending [] bs w w' e = absurd (cc)
answer_pending (ready (ok m) ∷ rest) bs w w' e = absurd (cc)
answer_pending (ready (err e'') ∷ rest) bs w w' e = absurd (cc)
answer_pending (pending ∷ rest) bs w w' e = sym (ap (λ (p : Poll (IoResult ℕ) × Net). p.1.log) e)

try_net_log : (b : Bool) (w : Net) → (try_net b w).1.log ≡ w.log
try_net_log true w = refl
try_net_log false w = refl

poll_net_log : (b : Bool) (w : Net) → (poll_net b w).2.log ≡ w.log
poll_net_log true w = refl
poll_net_log false w = refl

pub net-IsRuntime : IsRuntime net
net-IsRuntime = record {
  ptr_eq_sound = λ m n h. refl;
  wake_quiet = λ k w. refl;
  try_quiet = λ m w. try_net_log w.held w;
  lock_quiet = λ m w. refl;
  future_quiet = λ f k w. poll_net_log w.held w;
  await_future_quiet = λ f w. refl;
  await_lock_quiet = λ m w. refl;
  unlock_quiet = λ g w. refl;
  write_ok = λ g k bs w n w' e. answer_ok w.answers bs w n w' e;
  write_err = λ g k bs w e' w' e. answer_err w.answers bs w e' w' e;
  write_pending = λ g k bs w w' e. answer_pending w.answers bs w w' e;
  flush_quiet = λ g k w. refl;
  write_all_ok = λ g bs w w' e. sym (ap (λ (p : IoResult (Unit {0}) × Net). p.1.log) e);
}

pub net-IsPrompt : IsPrompt net
net-IsPrompt g k w e = cc

-- The same network when it takes all it is given, and nobody keeps the lock.
abbrev pub eager_net : Runtime
eager_net = record net {
  try_lock_owned = λ m w. (some tt, w);
  poll_future = λ f k w. (ready tt, tt, w);
  poll_write = λ g k bs w. answer [] bs w;
}

pub eager_net-IsRuntime : IsRuntime eager_net
eager_net-IsRuntime = record {
  ptr_eq_sound = λ m n h. refl;
  wake_quiet = λ k w. refl;
  try_quiet = λ m w. refl;
  lock_quiet = λ m w. refl;
  future_quiet = λ f k w. refl;
  await_future_quiet = λ f w. refl;
  await_lock_quiet = λ m w. refl;
  unlock_quiet = λ g w. refl;
  write_ok = λ g k bs w n w' e. answer_ok [] bs w n w' e;
  write_err = λ g k bs w e' w' e. answer_err [] bs w e' w' e;
  write_pending = λ g k bs w w' e. answer_pending [] bs w w' e;
  flush_quiet = λ g k w. refl;
  write_all_ok = λ g bs w w' e. sym (ap (λ (p : IoResult (Unit {0}) × Net). p.1.log) e);
}
