-- ===== src/PollMutex/Tests.antt =====
-- src/poll_mutex.rs over a mutex that another connection holds.
use vt_muxer.Common.{◌≡◌, refl, true, some, []}
use vt_muxer.Samples.Net.{Net, net, net-IsRuntime}
use vt_muxer.PollMutex.{PollMutex, poll_lock, take_token, lock, deref, clone, clone_from, new}
use vt_muxer.PollMutex.Queue.{Polled, poll_lock-Polled, Settled, Tried, queue_kept, clones}

abbrev contended : Net
contended = record { answers = []; held = true; log = [] }

abbrev queued : PollMutex net
queued = record { mutex = tt; fut = some tt }

poll_lock-Polled_example : Polled net queued (poll_lock net queued 3 contended)
poll_lock-Polled_example = poll_lock-Polled net queued 3 contended

queue_kept_example :
    let (left, token) = take_token net queued in
    Settled net queued (net.poll_future tt 3 contended) (poll_lock net queued 3 contended)
    × (token.fut ≡ some tt)
    × (token.mutex ≡ tt)
    × (deref net (lock net token contended).0 ≡ (net.await_future tt contended).0)
    × Tried net queued 3 (net.try_lock_owned tt contended) (poll_lock net left 3 contended)
queue_kept_example = queue_kept net queued tt 3 contended refl

clones_example :
    ((lock net queued contended).1 ≡ clone net queued)
    × (clone_from net queued queued ≡ clone net queued)
    × (clone net queued ≡ new net tt)
clones_example = clones net net-IsRuntime queued queued contended
