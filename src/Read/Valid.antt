-- ===== src/Read/Valid.antt =====
-- src/read.rs: when a shared reader is valid, and how much work its loop has left.
use vt_muxer.Common.{
  ℕ, ◌+◌, ◌*◌, ◌≡◌, ◌≤◌, ◌<◌, refl, sym, ap, ◌∙◌, inl, inr, false, Option, some, List, ◌==◌, length,
  Bool-cases, arith,
}
use vt_muxer.Common.Poll.{Poll, ready, IoResult, ok}
use vt_muxer.ThinAddr
use vt_muxer.ThinAddr.{SocketAddr}
use vt_muxer.ThinAddr.Order.{socket_eq_iff}
use vt_muxer.Protocol
use vt_muxer.Read.Shared.{Source, SharedReaderState, LockedReaderState, new_packet, lookup}
use vt_muxer.Read.Entries.{ValidAt}
use vt_muxer.Read.Payload.{after_payload}
use vt_muxer.Read.Dispatch.{table, Remapped}

module _ (r : Source) (stream : r.World → List ℕ) where
  open r use {World, Waker, SendFut, poll_send, poll_budget}

  -- A payload under way is not over, and a header under way is not whole.
  abbrev pub IsState : SharedReaderState r → Type 0
  IsState (SharedReaderState.read owner left) = 0 < left
  IsState (SharedReaderState.next_packet header filled) =
      (filled < Protocol.header_size) × (filled ≤ length header)
  IsState (SharedReaderState.send_socket f) = Unit {0}
  IsState SharedReaderState.error = Unit {0}

  -- The map only knows entries that were made.
  abbrev pub IsTable : LockedReaderState r → Type 0
  IsTable l = (b : SocketAddr) (j : ℕ) → lookup r l.socket_map b ≡ some j → j < l.fresh

  pub record IsShared (l : LockedReaderState r) : Type 0 where
    pub buffers : (j : ℕ) → ValidAt r (l.entries j)
    pub known : IsTable l
    pub state_valid : IsState l.state

  abbrev pub sends : SharedReaderState r → ℕ
  sends (SharedReaderState.send_socket f) = 1
  sends _ = 0

  -- Each round of the loop that goes on makes this less.
  abbrev pub work : LockedReaderState r → ℕ
  work l = 2 * length (stream l.world) + sends l.state

  -- After a round: a valid state, and less work if the round succeeded.
  abbrev pub Rounded :
      LockedReaderState r → Poll (IoResult (Unit {0})) → LockedReaderState r → Type 0
  Rounded l o l' = IsShared l' × (o ≡ ready (ok tt) → work l' < work l)

  pub new_packet-IsState : IsState (new_packet r)
  unfolding new_packet
  new_packet-IsState = (omega arith, omega arith)

  pub new_packet-sends : sends (new_packet r) ≡ 0
  unfolding new_packet
  new_packet-sends = refl

  pub after_payload-valid :
      (owner : SocketAddr) (left : ℕ)
      → IsState (after_payload r stream owner left)
        × (sends (after_payload r stream owner left) ≡ 0)
  after_payload-valid owner left = elim (Bool-cases (left == 0)) [
    | inl over ↦ rw (over) (new_packet-IsState, new_packet-sends)
    | inr more ↦ rw (more) (positive more, refl)
  ]
    where
      positive : (left == 0) ≡ false → 0 < left
      positive h = ground arith

  pub same-IsTable :
      (l l' : LockedReaderState r)
      → l'.socket_map ≡ l.socket_map
      → l'.fresh ≡ l.fresh
      → IsTable l
      → IsTable l'
  same-IsTable l l' same fresh v b j h =
      omega (arith, fresh, v b j (ap (λ m. lookup r m b) (sym same) ∙ h))

  pub remapped-IsTable :
      (l l' : LockedReaderState r) (addr : SocketAddr) (o : Option ℕ)
      → Remapped r stream (table r stream l) addr o l'
      → l.fresh ≤ l'.fresh
      → ((j : ℕ) → o ≡ some j → j < l'.fresh)
      → IsTable l
      → IsTable l'
  remapped-IsTable l l' addr o re more made v b j h = elim (Bool-cases (ThinAddr.eq b addr)) [
    | inl this ↦
        made j (sym re.here ∙ ap (lookup r l'.socket_map) (sym ((socket_eq_iff b addr).0 this)) ∙ h)
    | inr other ↦ omega (arith, more, v b j (sym (re.elsewhere b other) ∙ h))
  ]

  abbrev pub ok_of : Poll (IoResult (Unit {0})) → ℕ
  ok_of (ready (ok _)) = 1
  ok_of _ = 0

  -- A round that does not succeed has no work to show.
  pub idle :
      (l l' : LockedReaderState r) (o : Poll (IoResult (Unit {0})))
      → ((j : ℕ) → ValidAt r (l'.entries j))
      → IsTable l'
      → IsState l'.state
      → ok_of o ≡ 0
      → Rounded l o l'
  idle l l' o buffers known v fails = (
    record { buffers = buffers; known = known; state_valid = v },
    λ e. absurd (omega (arith, fails, ap ok_of e)),
  )
