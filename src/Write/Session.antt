-- ===== src/Write/Session.antt =====
-- src/write.rs: a connection that writes and flushes, in any order, and then shuts down.
use vt_muxer.Common.{
  ℕ, ◌≤◌, ◌≡◌, ◌⊎◌, refl, sym, true, inl, inr, List, [], ◌++◌, length, take, subst, append-nil,
}
use vt_muxer.Common.Bytes.{AreBytes}
use vt_muxer.Common.Poll.{ready, pending, ok}
use vt_muxer.ThinAddr.{SocketAddr}
use vt_muxer.PacketBuffer
use vt_muxer.Runtime.{Runtime, IsRuntime}
use vt_muxer.Write.State.{Outcome, returns, WriteInner}
use vt_muxer.Write.Poll.{poll_write, flush}
use vt_muxer.Write.Shutdown.{poll_shutdown}
use vt_muxer.Write.Settled.{IsPrompt}
use vt_muxer.Write.Written.{IsWriting, Written, poll_write-Written}
use vt_muxer.Write.Drained.{FlushEnded, flush-FlushEnded}
use vt_muxer.Write.Closed.{ClosedOut}
use vt_muxer.Write.Finish.{Shut, IsShutting, poll_shutdown-Shut}

module _ (r : Runtime) where
  open r use {World, Waker, sent}

  pub record Writer : Type 0 where
    pub inner : WriteInner r
    pub world : World

  -- A call of the connection that does not fail.
  pub data Act (y : Writer) (z : Writer) : Type 0 where
    writes :
        (k : Waker) (buf : List ℕ) (n : ℕ)
        → AreBytes buf
        → poll_write r y.inner k buf y.world ≡ (returns (ready (ok n)), z.inner, z.world)
        → Act y z
    write_waits :
        (k : Waker) (buf : List ℕ)
        → AreBytes buf
        → poll_write r y.inner k buf y.world ≡ (returns pending, z.inner, z.world)
        → Act y z
    flushes :
        (k : Waker)
        → flush r y.inner k y.world ≡ (returns (ready (ok tt)), z.inner, z.world)
        → Act y z
    flush_waits :
        (k : Waker) → flush r y.inner k y.world ≡ (returns pending, z.inner, z.world) → Act y z

  pub data Session (y : Writer) : Writer → Type 0 where
    here : Session y y
    next : {z v : Writer} → Session y z → Act z v → Session y v

  -- A shutdown, polled until it succeeds and leaves `z`.
  pub data Closing (z : Writer) : Writer → Type 0 where
    closes :
        {y : Writer} (k : Waker)
        → poll_shutdown r y.inner k y.world ≡ (returns (ready (ok tt)), z.inner, z.world)
        → Closing z y
    close_waits :
        {y v : Writer} (k : Waker)
        → poll_shutdown r y.inner k y.world ≡ (returns pending, v.inner, v.world)
        → Closing z v
        → Closing z y

  -- What a call has taken: the bytes that a write counts; of one that waits, none, or what has
  -- filled the packet.
  abbrev pub ActTook : {y z : Writer} → Act y z → List ℕ → Type 0
  ActTook (writes k buf n hs e) got = got ≡ take n buf
  ActTook {z = z} (write_waits k buf hs e) got =
      (m : ℕ) × (m ≤ length buf)
      × ((m ≡ 0) ⊎ (PacketBuffer.is_full z.inner.buffer ≡ true))
      × (got ≡ take m buf)
  ActTook (flushes k e) got = got ≡ []
  ActTook (flush_waits k e) got = got ≡ []

  abbrev pub Took : {y z : Writer} → Session y z → List ℕ → Type 0
  Took here taken = taken ≡ []
  Took (next run act) taken =
      (before : List ℕ) × (got : List ℕ) × Took run before
      × ActTook act got
      × (taken ≡ before ++ got)

  abbrev IsOpen : List ℕ → List ℕ → SocketAddr → Writer → Type 0
  IsOpen base taken a y = IsWriting r base taken a y.inner y.world

  module _ (laws : IsRuntime r) (prompt : IsPrompt r) (base : List ℕ) (a : SocketAddr) where
    Act-IsOpen :
        {y z : Writer} (act : Act y z) (taken : List ℕ)
        → IsOpen base taken a y
        → (got : List ℕ) × ActTook act got × IsOpen base (taken ++ got) a z
    Act-IsOpen {y = y} (writes k buf n hs e) taken v =
        let (le, z, v') =
          subst (λ (q : Outcome ℕ × WriteInner r × World). Written r base taken a buf q.0 q.1 q.2) e
            (poll_write-Written r laws base taken a buf y.inner k y.world v hs) in
        (take n buf, refl, v')
    Act-IsOpen {y = y} (write_waits k buf hs e) taken v =
        let (m, le, why, v') =
          subst (λ (q : Outcome ℕ × WriteInner r × World). Written r base taken a buf q.0 q.1 q.2) e
            (poll_write-Written r laws base taken a buf y.inner k y.world v hs) in
        (take m buf, (m, le, why, refl), v')
    Act-IsOpen {y = y} {z = z} (flushes k e) taken v =
        let (settled, v', out) =
          subst
            (λ (q : Outcome (Unit {0}) × WriteInner r × World).
              FlushEnded r base taken a q.0 q.1 q.2)
            e (flush-FlushEnded r laws prompt base taken a y.inner k y.world v) in
        ([], refl, subst (λ xs. IsOpen base xs a z) (sym (append-nil taken)) v')
    Act-IsOpen {y = y} {z = z} (flush_waits k e) taken v =
        let v' =
          subst
            (λ (q : Outcome (Unit {0}) × WriteInner r × World).
              FlushEnded r base taken a q.0 q.1 q.2)
            e (flush-FlushEnded r laws prompt base taken a y.inner k y.world v) in
        ([], refl, subst (λ xs. IsOpen base xs a z) (sym (append-nil taken)) v')

    -- What the connection holds and has sent behind a session is what the session has taken.
    pub Session-IsOpen :
        {y z : Writer} (run : Session y z)
        → IsOpen base [] a y
        → (taken : List ℕ) × Took run taken × IsOpen base taken a z
    Session-IsOpen here v = ([], refl, v)
    Session-IsOpen (next run act) v =
        let (before, took, v') = Session-IsOpen run v in
        let (got, took', v'') = Act-IsOpen act before v' in
        (before ++ got, (before, got, took, took', refl), v'')

    -- A shutdown that ends has sent all that was taken, and closed the connection.
    pub Closing-ClosedOut :
        {z : Writer} (taken : List ℕ) {y : Writer}
        → Closing z y
        → IsWriting r base taken a y.inner y.world ⊎ IsShutting r base taken a y.inner y.world
        → ClosedOut base taken a (sent z.world)
    Closing-ClosedOut taken {y = y} (closes k e) v =
        (subst (λ (q : Outcome (Unit {0}) × WriteInner r × World). Shut r base taken a q.0 q.1 q.2)
          e (poll_shutdown-Shut r laws base taken a y.inner k y.world v)).1
    Closing-ClosedOut taken {y = y} (close_waits k e rest) v = Closing-ClosedOut taken rest (
        inr (
          subst (λ (q : Outcome (Unit {0}) × WriteInner r × World). Shut r base taken a q.0 q.1 q.2)
            e (poll_shutdown-Shut r laws base taken a y.inner k y.world v)))

    -- A session of a connection that has taken nothing yet, and then a shutdown, over a writer whose
    -- own flush has its result at once: the bytes that the calls have taken are on the wire, in whole
    -- frames, none of them empty, and behind them the empty header that closes the connection.
    pub Session-ClosedOut :
        {x y z : Writer} (run : Session x y)
        → IsWriting r base [] a x.inner x.world
        → Closing z y
        → (taken : List ℕ) × Took run taken × ClosedOut base taken a (sent z.world)
    Session-ClosedOut run v close =
        let (taken, took, v') = Session-IsOpen run v in
        (taken, took, Closing-ClosedOut taken close (inl v'))
