-- ===== src/Demux/Payload.antt =====
-- src/read.rs: a round of `poll_read` of the shared reader, and what every connection is owed.
use vt_muxer.Demux.Shares.{
  upgrade-some, upgrade-other, mapped_some, after_payload-Ahead, after_payload-Held, owing_of,
  part_of, after_payload-Due, owing_of-split,
}
use vt_muxer.Common.{
  ℕ, ◌-◌, ◌≡◌, ◌≤◌, refl, sym, ap, ◌∙◌, inl, inr, Bool, true, false, Option, List, [], ◌++◌, length,
  take, drop, length-drop, take-append_le, drop-append_le, take-append-drop, take-append_length,
  drop-append_length, append_assoc, Bool-cases, subst, arith,
}
use mathlib.Core.Bool.{true≢false}
use vt_muxer.Common.Poll.{Poll, ready, pending, IoResult, ok, err}
use vt_muxer.ThinAddr
use vt_muxer.ThinAddr.{SocketAddr}
use vt_muxer.ThinAddr.Order.{socket_eq_iff}
use vt_muxer.Wire.{encode, owed}
use vt_muxer.Read.Shared.{Source, SharedReaderState, LockedReaderState, lookup, upgrade}
use vt_muxer.Read.Entries.{unread, share, Taken}
use vt_muxer.Read.Payload.{after_payload, PayloadEnded}
use vt_muxer.Demux.{Ahead, Held, mapped, Due, TrackedAt, Tracked}

-- A cut inside the first of two joined lists, seen from the other cut.
rest-append :
    (got s' rest e : List ℕ)
    → got ++ s' ≡ rest ++ e
    → length got ≤ length rest
    → (rest ≡ got ++ drop (length got) rest) × (s' ≡ drop (length got) rest ++ e)
rest-append got s' rest e same fits =
    let n = length got in
    let front =
      sym (take-append_length n got s' refl) ∙ ap (take n) same ∙ take-append_le n rest e fits in
    (
      sym (ap (λ xs. xs ++ drop n rest) front ∙ take-append-drop n rest),
      sym (drop-append_length n got s' refl) ∙ ap (drop n) same ∙ drop-append_le n rest e fits,
    )

module _ (r : Source) (stream : r.World → List ℕ) where
  module _ {a : SocketAddr} {i : ℕ} {total : List ℕ} {s : SharedReaderState r}
      {l : LockedReaderState r} (T : TrackedAt r stream a i total s l) where
    abbrev is_mapped : Bool
    is_mapped = mapped r stream (lookup r l.socket_map a) i

    -- The target of the payload for `owner` is the connection's entry, or another.
    share-part_of :
        (owner : SocketAddr) (got : List ℕ)
        → share r (upgrade r l.entries (lookup r l.socket_map owner)) i got
          ≡ part_of r stream (ThinAddr.eq a owner) is_mapped got
    share-part_of owner got = elim (Bool-cases (ThinAddr.eq a owner)) [
      | inl mine ↦ rw (mine) (
          ap (λ x. share r (upgrade r l.entries (lookup r l.socket_map x)) i got)
            (sym ((socket_eq_iff a owner).0 mine))
          ∙ own (lookup r l.socket_map a))
      | inr other ↦
          rw (other)
            (upgrade-other r stream l.entries (lookup r l.socket_map owner) i got (alien other))
    ]
      where
        own :
            (o : Option ℕ)
            → share r (upgrade r l.entries o) i got
              ≡ part_of r stream true (mapped r stream o i) got
        own o = elim (Bool-cases (mapped r stream o i)) [
          | inl same ↦ rw (same) (
              ap (λ x. share r (upgrade r l.entries x) i got) (mapped_some r stream o i same)
              ∙ upgrade-some r stream l.entries i got T.alive)
          | inr not_same ↦ rw (not_same) (upgrade-other r stream l.entries o i got not_same)
        ]

        differ : ThinAddr.eq a owner ≡ false → owner ≡ a → ⊥
        differ other e = true≢false (sym ((socket_eq_iff a owner).1 (sym e)) ∙ other)

        alien :
            ThinAddr.eq a owner ≡ false → mapped r stream (lookup r l.socket_map owner) i ≡ false
        alien other = elim (Bool-cases (mapped r stream (lookup r l.socket_map owner) i)) [
          | inl same ↦ absurd (
              differ other
                (T.alone owner (mapped_some r stream (lookup r l.socket_map owner) i same)))
          | inr not_same ↦ not_same
        ]

    -- The same connection after bytes were taken for `owner`.
    Taken-TrackedAt :
        (owner : SocketAddr) (got : List ℕ) (l' : LockedReaderState r) (s' : SharedReaderState r)
        (rest' due' : List ℕ)
        → Taken r stream l (upgrade r l.entries (lookup r l.socket_map owner)) got l'
        → Ahead r stream s' (stream l'.world) rest' T.frames
        → Held r stream s' i
        → Due r stream a s' is_mapped rest' T.frames due'
        → T.due ≡ part_of r stream (ThinAddr.eq a owner) is_mapped got ++ due'
        → TrackedAt r stream a i total s' l'
    Taken-TrackedAt owner got l' s' rest' due' t ahead held owing e = record {
      frames = T.frames;
      frames_valid = T.frames_valid;
      rest = rest';
      ahead = ahead;
      old = omega (arith, T.old, t.same_fresh);
      alone = λ b h. T.alone b (ap (λ m. lookup r m b) (sym t.same_map) ∙ h);
      alive = t.same_alive i ∙ T.alive;
      held = held;
      due = due';
      owing =
          subst (λ m. Due r stream a s' (mapped r stream (lookup r m a) i) rest' T.frames due')
            (sym t.same_map) owing;
      balance =
          T.balance
          ∙ ap (λ xs. unread r (l.entries i) ++ xs) e
          ∙ sym (append_assoc (unread r (l.entries i)) _ due')
          ∙ ap (λ xs. xs ++ due')
              (sym
                (t.shared i ∙ ap (λ xs. unread r (l.entries i) ++ xs) (share-part_of owner got)));
    }

  module _ {a : SocketAddr} {i : ℕ} {total : List ℕ} {l : LockedReaderState r} {owner : SocketAddr}
      {left : ℕ} (T : TrackedAt r stream a i total (SharedReaderState.read owner left) l) where
    due_of : T.due ≡ owing_of r stream (ThinAddr.eq a owner) (is_mapped T) T.rest (owed a T.frames)
    due_of = by_map (is_mapped T) T.owing
      where
        by_map :
            (m : Bool)
            → Due r stream a (SharedReaderState.read owner left) m T.rest T.frames T.due
            → T.due ≡ owing_of r stream (ThinAddr.eq a owner) m T.rest (owed a T.frames)
        by_map false d = d
        by_map true d = elim (Bool-cases (ThinAddr.eq a owner)) [
          | inl mine ↦ rw (mine) (d ∙ rw (mine) refl)
          | inr other ↦ rw (other) (d ∙ rw (other) refl)
        ]

    nothing : T.due ≡ part_of r stream (ThinAddr.eq a owner) (is_mapped T) [] ++ T.due
    nothing = by_both (ThinAddr.eq a owner) (is_mapped T)
      where
        by_both : (own m : Bool) → T.due ≡ part_of r stream own m [] ++ T.due
        by_both true true = refl
        by_both false true = refl
        by_both true false = refl
        by_both false false = refl

    broken_due : Due r stream a SharedReaderState.error (is_mapped T) T.rest T.frames T.due
    broken_due = by_map (is_mapped T) T.owing
      where
        by_map :
            (m : Bool)
            → Due r stream a (SharedReaderState.read owner left) m T.rest T.frames T.due
            → Due r stream a SharedReaderState.error m T.rest T.frames T.due
        by_map false d = d
        by_map true d = tt

    idle :
        l.state ≡ SharedReaderState.read owner left
        → (l' : LockedReaderState r)
        → Taken r stream l (upgrade r l.entries (lookup r l.socket_map owner)) [] l'
        → l'.state ≡ l.state
        → Tracked r stream a i total l'
    idle e l' t same =
        subst (λ s. TrackedAt r stream a i total s l') (sym (same ∙ e))
          (Taken-TrackedAt T owner [] l' (SharedReaderState.read owner left) T.rest T.due t
            (T.ahead.0, sym t.from_stream ∙ T.ahead.1) tt T.owing nothing)

  -- `poll_read` of the shared reader in the state `read owner left`.
  pub payload-Tracked :
      (a : SocketAddr) (i : ℕ) (total : List ℕ) (l : LockedReaderState r) (owner : SocketAddr)
      (left : ℕ)
      → TrackedAt r stream a i total (SharedReaderState.read owner left) l
      → l.state ≡ SharedReaderState.read owner left
      → (o : Poll (IoResult (Unit {0}))) (l' : LockedReaderState r)
      → PayloadEnded r stream l (upgrade r l.entries (lookup r l.socket_map owner)) owner left o l'
      → Tracked r stream a i total l'
  payload-Tracked a i total l owner left T e (ready (ok _)) l' (got, some_got, fits, t, next) =
      let n = length got in
      let rest' = drop n T.rest in
      let (front, back) =
        rest-append got (stream l'.world) T.rest (encode T.frames) (sym t.from_stream ∙ T.ahead.1)
          (omega (arith, fits, T.ahead.0)) in
      let size : length rest' ≡ left - n = omega (arith, length-drop n T.rest, T.ahead.0) in
      let m = is_mapped T in
      subst (λ s. TrackedAt r stream a i total s l') (sym next)
        (Taken-TrackedAt T owner got l' (after_payload r stream owner (left - n)) rest'
          (owing_of r stream (ThinAddr.eq a owner) m rest' (owed a T.frames)) t
          (after_payload-Ahead r stream owner (left - n) (stream l'.world) rest' T.frames size back)
          (after_payload-Held r stream owner (left - n) i)
          (after_payload-Due r stream a owner (left - n) m rest' T.frames size)
          (due_of T
            ∙ ap (λ xs. owing_of r stream (ThinAddr.eq a owner) m xs (owed a T.frames)) front
            ∙ owing_of-split r stream (ThinAddr.eq a owner) m got rest' (owed a T.frames)))
  payload-Tracked a i total l owner left T e (ready (err x)) l' (t, inl same) = idle T e l' t same
  payload-Tracked a i total l owner left T e (ready (err x)) l' (t, inr (broken, eof)) =
      subst (λ s. TrackedAt r stream a i total s l') (sym broken)
        (Taken-TrackedAt T owner [] l' SharedReaderState.error T.rest T.due t tt tt (broken_due T)
          (nothing T))
  payload-Tracked a i total l owner left T e pending l' (t, same) = idle T e l' t same
