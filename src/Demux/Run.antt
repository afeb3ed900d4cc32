-- ===== src/Demux/Run.antt =====
-- src/read.rs: everything that may happen to the shared reader while one connection reads.
use vt_muxer.Common.{
  ℕ, ◌≡◌, ◌≢◌, refl, sym, ap, ◌∙◌, inl, inr, false, Option, none, some, List, ◌++◌, ◌==◌, length,
  drop, append_assoc, drop-append_length, Bool-cases, subst, ==_iff,
}
use vt_muxer.Common.Poll.{Poll, ready, IoResult, err, ErrorKind}
use vt_muxer.ThinAddr.{SocketAddr}
use vt_muxer.ReadBuffer.{ReadBuf, IsReadBuf}
use vt_muxer.Read.Shared.{Source, ReaderEntry, LockedReaderState, put_entry, add_connection}
use vt_muxer.Read.Poll.{poll}
use vt_muxer.Read.Inner.{poll_read}
use vt_muxer.Read.Entries.{IsSource, ValidAt}
use vt_muxer.Read.Valid.{IsShared}
use vt_muxer.Read.Attach.{Attached, add_connection-Attached}
use vt_muxer.Demux.{Tracked}
use vt_muxer.Demux.Move.{moved-TrackedAt}
use vt_muxer.Demux.Loop.{quiet-Tracked, Followed, poll-Followed}
use vt_muxer.Demux.Reads.{ReadFollowed, poll_read_own, poll_read_other}
use vt_muxer.Demux.Open.{other_added-Tracked}

module _ (r : Source) (stream : r.World → List ℕ) (t : ReadBuf) where
  open r use {World, Waker}

  -- The shared reader, and what the connection has read.
  pub record Seen : Type 0 where
    pub shared : LockedReaderState r
    pub out : List ℕ

  -- One step, seen by the connection with the entry `i`: a poll of the shared reader, a read of its
  -- own, a read of another connection, a connection that is added, or one that is dropped, or
  -- something else that takes nothing from the stream, such as a listener that receives. No step runs
  -- out of memory.
  pub data Step (i : ℕ) (y : Seen) (z : Seen) : Type 0 where
    polls :
        (fuel : ℕ) (k : Waker) (o : Option (Poll ErrorKind))
        → poll r fuel y.shared k ≡ (o, z.shared)
        → o ≢ some (ready ErrorKind.out_of_memory)
        → z.out ≡ y.out
        → Step i y z
    reads :
        (fuel : ℕ) (k : Waker) (e : ReaderEntry r) (b b' : t.Buf) (got : List ℕ)
        (o : Option (Poll (IoResult (Unit {0}))))
        → y.shared.entries i ≡ some e
        → poll_read r t fuel y.shared k i e b ≡ (o, z.shared, b')
        → o ≢ some (ready (err ErrorKind.out_of_memory))
        → t.contents b' ≡ t.contents b ++ got
        → z.out ≡ y.out ++ got
        → Step i y z
    another_reads :
        (fuel : ℕ) (k : Waker) (j : ℕ) (e : ReaderEntry r) (b b' : t.Buf)
        (o : Option (Poll (IoResult (Unit {0}))))
        → j ≢ i
        → y.shared.entries j ≡ some e
        → poll_read r t fuel y.shared k j e b ≡ (o, z.shared, b')
        → o ≢ some (ready (err ErrorKind.out_of_memory))
        → z.out ≡ y.out
        → Step i y z
    adds :
        (sock : SocketAddr) (o : IoResult ℕ)
        → add_connection r y.shared sock ≡ (o, z.shared)
        → z.out ≡ y.out
        → Step i y z
    another_drops :
        (j : ℕ)
        → j ≢ i
        → z.shared ≡ record y.shared { entries = put_entry r y.shared.entries j none }
        → z.out ≡ y.out
        → Step i y z
    world_acts :
        (w : World)
        → stream w ≡ stream y.shared.world
        → z.shared ≡ record y.shared { world = w }
        → z.out ≡ y.out
        → Step i y z

  pub data Reach (i : ℕ) (y : Seen) : Seen → Type 0 where
    here : Reach i y y
    next : {z w : Seen} → Reach i y z → Step i z w → Reach i y w

  -- What the connection has read and what it is owed make `total`, and the shared reader is valid.
  pub record Owes (a : SocketAddr) (i : ℕ) (total : List ℕ) (y : Seen) : Type 0 where
    pub valid : IsShared r stream y.shared
    pub rest : List ℕ
    pub tracked : Tracked r stream a i rest y.shared
    pub whole : total ≡ y.out ++ rest

  module _ {a : SocketAddr} {i : ℕ} {total : List ℕ} {y z : Seen} (w : Owes a i total y) where
    same_out :
        z.out ≡ y.out
        → IsShared r stream z.shared
        → Tracked r stream a i w.rest z.shared
        → Owes a i total z
    same_out e v T = record {
      valid = v;
      rest = w.rest;
      tracked = T;
      whole = w.whole ∙ ap (λ xs. xs ++ w.rest) (sym e);
    }

    pub polls-Owes :
        IsSource r stream
        → (fuel : ℕ) (k : Waker) (o : Option (Poll ErrorKind))
        → poll r fuel y.shared k ≡ (o, z.shared)
        → o ≢ some (ready ErrorKind.out_of_memory)
        → z.out ≡ y.out
        → Owes a i total z
    polls-Owes src fuel k o e fine same =
        elim (subst (Followed r stream a i w.rest) e
          (poll-Followed r stream src a i w.rest fuel y.shared k w.valid w.tracked)) [
            | inl lost ↦ absurd (fine lost)
            | inr kept ↦ same_out same kept.0 kept.1
          ]

    pub reads-Owes :
        IsSource r stream
        → IsReadBuf t
        → (fuel : ℕ) (k : Waker) (e : ReaderEntry r) (b b' : t.Buf) (got : List ℕ)
          (o : Option (Poll (IoResult (Unit {0}))))
        → y.shared.entries i ≡ some e
        → poll_read r t fuel y.shared k i e b ≡ (o, z.shared, b')
        → o ≢ some (ready (err ErrorKind.out_of_memory))
        → t.contents b' ≡ t.contents b ++ got
        → z.out ≡ y.out ++ got
        → Owes a i total z
    reads-Owes src laws fuel k e b b' got o live p fine held more = finish (
        subst
          (λ (q : Option (Poll (IoResult (Unit {0}))) × LockedReaderState r × t.Buf).
            (got : List ℕ) × (total' : List ℕ) × (t.contents q.2 ≡ t.contents b ++ got)
            × (w.rest ≡ got ++ total')
            × ReadFollowed r stream t a i total' q.0 q.1)
          p
          (poll_read_own r stream t src laws a i w.rest fuel y.shared k e b w.valid live w.tracked))
      where
        cancel : (got' : List ℕ) → t.contents b' ≡ t.contents b ++ got' → got' ≡ got
        cancel got' h =
            let n = length (t.contents b) in
            sym (drop-append_length n (t.contents b) got' refl)
            ∙ ap (drop n) (sym h ∙ held)
            ∙ drop-append_length n (t.contents b) got refl

        finish :
            ((got : List ℕ) × (total' : List ℕ) × (t.contents b' ≡ t.contents b ++ got)
              × (w.rest ≡ got ++ total')
              × ReadFollowed r stream t a i total' o z.shared)
            → Owes a i total z
        finish (got', total', has, parts, inl lost) = absurd (fine lost)
        finish (got', total', has, parts, inr (v, T)) = record {
          valid = v;
          rest = total';
          tracked = T;
          whole =
              w.whole
              ∙ ap (λ xs. y.out ++ xs) (parts ∙ ap (λ xs. xs ++ total') (cancel got' has))
              ∙ sym (append_assoc y.out got total')
              ∙ ap (λ xs. xs ++ total') (sym more);
        }

    pub another_reads-Owes :
        IsSource r stream
        → IsReadBuf t
        → (fuel : ℕ) (k : Waker) (j : ℕ) (e : ReaderEntry r) (b b' : t.Buf)
          (o : Option (Poll (IoResult (Unit {0}))))
        → j ≢ i
        → y.shared.entries j ≡ some e
        → poll_read r t fuel y.shared k j e b ≡ (o, z.shared, b')
        → o ≢ some (ready (err ErrorKind.out_of_memory))
        → z.out ≡ y.out
        → Owes a i total z
    another_reads-Owes src laws fuel k j e b b' o other live p fine same =
        elim (subst
          (λ (q : Option (Poll (IoResult (Unit {0}))) × LockedReaderState r × t.Buf).
            ReadFollowed r stream t a i w.rest q.0 q.1)
          p
          (poll_read_other r stream t src laws a i w.rest fuel y.shared k j e b w.valid live other
            w.tracked)) [ inl lost ↦ absurd (fine lost) | inr kept ↦ same_out same kept.0 kept.1 ]

    pub adds-Owes :
        IsSource r stream
        → (sock : SocketAddr) (o : IoResult ℕ) → add_connection r y.shared sock ≡ (o, z.shared)
        → z.out ≡ y.out
        → Owes a i total z
    adds-Owes src sock o e same =
        let added : Attached r stream y.shared sock o z.shared =
          subst (λ (q : IoResult ℕ × LockedReaderState r). Attached r stream y.shared sock q.0 q.1)
            e (add_connection-Attached r stream src y.shared sock w.valid) in
        same_out same added.1
          (other_added-Tracked r stream y.shared z.shared sock o a i w.rest w.tracked added)

    pub world_acts-Owes :
        (x : World)
        → stream x ≡ stream y.shared.world
        → z.shared ≡ record y.shared { world = x }
        → z.out ≡ y.out
        → Owes a i total z
    world_acts-Owes x quiet e same =
        same_out same
          (subst (IsShared r stream) (sym e) (record {
            buffers = w.valid.buffers;
            known = w.valid.known;
            state_valid = w.valid.state_valid;
          }))
          (subst (Tracked r stream a i w.rest) (sym e) (quiet-Tracked r stream w.tracked x quiet))

    pub another_drops-Owes :
        (j : ℕ)
        → j ≢ i
        → z.shared ≡ record y.shared { entries = put_entry r y.shared.entries j none }
        → z.out ≡ y.out
        → Owes a i total z
    unfolding put_entry
    another_drops-Owes j other e same =
        same_out same (subst (IsShared r stream) (sym e) still_valid)
          (subst (Tracked r stream a i w.rest) (sym e) still_tracked)
      where
        dropped : LockedReaderState r
        dropped = record y.shared { entries = put_entry r y.shared.entries j none }

        valid_at : (k : ℕ) → ValidAt r (dropped.entries k)
        valid_at k = elim (Bool-cases (k == j)) [
          | inl this ↦ rw (this) tt
          | inr h ↦ rw (h) (w.valid.buffers k)
        ]

        still_valid : IsShared r stream dropped
        still_valid = record {
          buffers = valid_at;
          known = w.valid.known;
          state_valid = w.valid.state_valid;
        }

        not_same : (i == j) ≡ false
        not_same = elim (Bool-cases (i == j)) [
          | inl this ↦ absurd (other (sym ((==_iff i j).0 this)))
          | inr h ↦ h
        ]

        still_tracked : Tracked r stream a i w.rest dropped
        still_tracked =
            let T = w.tracked in
            moved-TrackedAt r stream T dropped y.shared.state T.frames T.rest T.frames_valid T.ahead
              T.old T.alone (rw (not_same) refl) T.held T.owing
