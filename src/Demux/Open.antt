-- ===== src/Demux/Open.antt =====
-- src/read.rs: what a connection that is added is owed, and what the others are owed then.
use vt_muxer.Common.{
  ℕ, ◌≡◌, ◌≢◌, refl, sym, ap, ◌∙◌, inl, inr, true, false, Option, none, some, List, ◌++◌, ◌==◌,
  if◌then◌else◌, Bool-cases, subst, arith,
}
use vt_muxer.Common.Poll.{IoResult, ok, err}
use vt_muxer.ThinAddr
use vt_muxer.ThinAddr.{SocketAddr}
use vt_muxer.ThinAddr.Order.{socket_eq_iff}
use vt_muxer.Wire.{Frame, AreFrames, owed}
use vt_muxer.Read.Shared.{Source, SharedReaderState, LockedReaderState, lookup}
use vt_muxer.Read.Entries.{unread, is_alive}
use vt_muxer.Read.Valid.{IsShared}
use vt_muxer.Read.Attach.{Added, Attached}
use vt_muxer.Demux.{Ahead, Held, mapped, Due, TrackedAt, Tracked}
use vt_muxer.Demux.Move.{moved-TrackedAt, Kept-TrackedAt}

module _ (r : Source) (stream : r.World → List ℕ) where
  -- What a connection that is opened for `a` in the state `s` is owed.
  abbrev pub coming : SocketAddr → SharedReaderState r → List ℕ → List Frame → List ℕ
  coming a (SharedReaderState.read owner left) rest fs =
      if ThinAddr.eq a owner then rest ++ owed a fs else owed a fs
  coming a _ rest fs = owed a fs

  coming-Due :
      (a : SocketAddr) (s : SharedReaderState r) (rest : List ℕ) (fs : List Frame)
      → Due r stream a s true rest fs (coming a s rest fs)
  coming-Due a (SharedReaderState.read owner left) rest fs = refl
  coming-Due a (SharedReaderState.next_packet header filled) rest fs = refl
  coming-Due a (SharedReaderState.send_socket f) rest fs = refl
  coming-Due a SharedReaderState.error rest fs = tt

  pub Added-Tracked :
      (l l' : LockedReaderState r) (sock : SocketAddr) (i : ℕ) (fs : List Frame) (rest : List ℕ)
      → IsShared r stream l
      → AreFrames fs
      → Ahead r stream l.state (stream l.world) rest fs
      → Held r stream l.state l.fresh
      → Added r stream l sock i l'
      → l'.state ≡ l.state
      → stream l'.world ≡ stream l.world
      → Tracked r stream sock i (coming sock l.state rest fs) l'
  Added-Tracked l l' sock i fs rest v valid ahead held added state quiet =
      subst (λ s. TrackedAt r stream sock i (coming sock l.state rest fs) s l') (sym state)
        (record {
          frames = fs;
          frames_valid = valid;
          rest = rest;
          ahead = subst (λ xs. Ahead r stream l.state xs rest fs) (sym quiet) ahead;
          old = omega (arith, added.is_fresh, added.grown);
          alone = alone;
          alive = ap (is_alive r) added.made.1;
          held = subst (Held r stream l.state) (sym added.is_fresh) held;
          due = coming sock l.state rest fs;
          owing =
              subst (λ m. Due r stream sock l.state m rest fs (coming sock l.state rest fs))
                (sym here) (coming-Due sock l.state rest fs);
          balance =
              ap (λ xs. xs ++ coming sock l.state rest fs)
                (sym (ap (unread r) added.made.1 ∙ added.made.2));
        })
    where
      number : Option ℕ → ℕ
      number none = 0
      number (some j) = j

      alone : (b : SocketAddr) → lookup r l'.socket_map b ≡ some i → b ≡ sock
      alone b h = elim (Bool-cases (ThinAddr.eq b sock)) [
        | inl this ↦ (socket_eq_iff b sock).0 this
        | inr other ↦
            absurd (
              omega (arith, added.is_fresh, v.known b i (sym (added.mapped.elsewhere b other) ∙ h)))
      ]

      self_eq : (i == i) ≡ true
      self_eq = ground arith

      here : mapped r stream (lookup r l'.socket_map sock) i ≡ true
      here = ap (λ o. mapped r stream o i) added.mapped.here ∙ self_eq

  pub other_added-Tracked :
      (l l' : LockedReaderState r) (sock : SocketAddr) (o : IoResult ℕ) (a : SocketAddr) (i : ℕ)
      (total : List ℕ)
      → Tracked r stream a i total l
      → Attached r stream l sock o l'
      → Tracked r stream a i total l'
  other_added-Tracked l l' sock (err e) a i total T ((same, k, why), v, state, quiet) =
      subst (λ s. TrackedAt r stream a i total s l') (sym state)
        (Kept-TrackedAt r stream T l' l.state T.frames T.rest T.frames_valid
          (subst (λ xs. Ahead r stream l.state xs T.rest T.frames) (sym quiet) T.ahead) same k
          T.held T.owing)
  other_added-Tracked l l' sock (ok j) a i total T (added, v, state, quiet) =
      subst (λ s. TrackedAt r stream a i total s l') (sym state)
        (moved-TrackedAt r stream T l' l.state T.frames T.rest T.frames_valid
          (subst (λ xs. Ahead r stream l.state xs T.rest T.frames) (sym quiet) T.ahead)
          (omega (arith, T.old, added.grown)) alone (added.others i not_same) T.held owing)
    where
      number : Option ℕ → ℕ
      number none = 0
      number (some n) = n

      not_same : (i == j) ≡ false
      not_same = let old = T.old in let new = added.is_fresh in ground arith

      fresh_other : lookup r l'.socket_map sock ≢ some i
      fresh_other h = omega (arith, T.old, added.is_fresh, ap number (sym added.mapped.here ∙ h))

      alone : (b : SocketAddr) → lookup r l'.socket_map b ≡ some i → b ≡ a
      alone b h = elim (Bool-cases (ThinAddr.eq b sock)) [
        | inl this ↦
            absurd
              (fresh_other (ap (lookup r l'.socket_map) (sym ((socket_eq_iff b sock).0 this)) ∙ h))
        | inr other ↦ T.alone b (sym (added.mapped.elsewhere b other) ∙ h)
      ]

      j_not_i : (j == i) ≡ false
      j_not_i = let old = T.old in let new = added.is_fresh in ground arith

      owing :
          Due r stream a l.state
            (mapped r stream (lookup r l'.socket_map a) i)
            T.rest
            T.frames
            T.due
      owing = elim (Bool-cases (ThinAddr.eq a sock)) [
        | inl mine ↦
            let before =
              ap (lookup r l.socket_map) ((socket_eq_iff a sock).0 mine) ∙ added.vacant in
            let after =
              ap (lookup r l'.socket_map) ((socket_eq_iff a sock).0 mine) ∙ added.mapped.here in
            subst (λ m. Due r stream a l.state m T.rest T.frames T.due)
              (ap (λ o. mapped r stream o i) before
                ∙ sym (ap (λ o. mapped r stream o i) after ∙ j_not_i))
              T.owing
        | inr other ↦
            subst (λ o. Due r stream a l.state (mapped r stream o i) T.rest T.frames T.due)
              (sym (added.mapped.elsewhere a other)) T.owing
      ]
