-- ===== src/Demux/Move.antt =====
-- src/read.rs: what a connection is owed when its entry stays as it is.
use vt_muxer.Common.{ℕ, ◌≡◌, ◌<◌, sym, ap, ◌∙◌, some, List, ◌++◌, subst, arith}
use vt_muxer.ThinAddr.{SocketAddr}
use vt_muxer.Wire.{Frame, AreFrames}
use vt_muxer.Read.Shared.{Source, SharedReaderState, LockedReaderState, lookup}
use vt_muxer.Read.Entries.{unread, is_alive}
use vt_muxer.Read.Dispatch.{table, Kept}
use vt_muxer.Demux.{Ahead, Held, mapped, Due, TrackedAt}

module _ (r : Source) (stream : r.World → List ℕ) where
  module _ {a : SocketAddr} {i : ℕ} {total : List ℕ} {s : SharedReaderState r}
      {l : LockedReaderState r} (T : TrackedAt r stream a i total s l) where
    -- The connection's entry is the same, and what it is owed is seen in another way.
    pub moved-TrackedAt :
        (l' : LockedReaderState r) (s' : SharedReaderState r) (fs : List Frame) (rest : List ℕ)
        → AreFrames fs
        → Ahead r stream s' (stream l'.world) rest fs
        → i < l'.fresh
        → ((b : SocketAddr) → lookup r l'.socket_map b ≡ some i → b ≡ a)
        → l'.entries i ≡ l.entries i
        → Held r stream s' i
        → Due r stream a s' (mapped r stream (lookup r l'.socket_map a) i) rest fs T.due
        → TrackedAt r stream a i total s' l'
    moved-TrackedAt l' s' fs rest valid ahead old alone same held owing = record {
      frames = fs;
      frames_valid = valid;
      rest = rest;
      ahead = ahead;
      old = old;
      alone = alone;
      alive = ap (is_alive r) same ∙ T.alive;
      held = held;
      due = T.due;
      owing = owing;
      balance = T.balance ∙ ap (λ e. unread r e ++ T.due) (sym same);
    }

    -- The map is the same too.
    pub Kept-TrackedAt :
        (l' : LockedReaderState r) (s' : SharedReaderState r) (fs : List Frame) (rest : List ℕ)
        → AreFrames fs
        → Ahead r stream s' (stream l'.world) rest fs
        → l'.socket_map ≡ l.socket_map
        → Kept r stream (table r stream l) l'
        → Held r stream s' i
        → Due r stream a s' (mapped r stream (lookup r l.socket_map a) i) rest fs T.due
        → TrackedAt r stream a i total s' l'
    Kept-TrackedAt l' s' fs rest valid ahead same k held owing =
        moved-TrackedAt l' s' fs rest valid ahead (omega (arith, T.old, k.same_fresh))
          (λ b h. T.alone b (ap (λ m. lookup r m b) (sym same) ∙ h)) (ap (λ f. f i) k.same_entries)
          held
          (subst (λ m. Due r stream a s' (mapped r stream (lookup r m a) i) rest fs T.due)
            (sym same) owing)
