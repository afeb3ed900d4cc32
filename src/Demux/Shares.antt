-- ===== src/Demux/Shares.antt =====
-- src/read.rs: the part of a payload that an entry gets, and what is owed of the rest.
use vt_muxer.Common.{
  ℕ, ◌≡◌, refl, ap, ◌∙◌, inl, inr, Bool, true, false, Option, none, some, List, [], ◌∷◌, ◌++◌, ◌==◌,
  if◌then◌else◌, length, append_assoc, Bool-cases, arith, ==_iff,
}
use vt_muxer.ThinAddr
use vt_muxer.ThinAddr.{SocketAddr}
use vt_muxer.Wire.{Frame, encode, owed}
use vt_muxer.Read.Shared.{Source, ReaderEntry, new_packet, upgrade}
use vt_muxer.Read.Entries.{is_alive, share}
use vt_muxer.Read.Payload.{after_payload}
use vt_muxer.Demux.{Ahead, Held, mapped, Due}

module _ (r : Source) (stream : r.World → List ℕ) where
  -- Whether the entry `i` is the target of what comes in for `owner`.
  abbrev pub aimed : Bool → Bool → Bool
  aimed true m = m
  aimed false m = false

  pub upgrade-some :
      (entries : ℕ → Option (ReaderEntry r)) (i : ℕ) (got : List ℕ)
      → is_alive r (entries i) ≡ true
      → share r (upgrade r entries (some i)) i got ≡ got
  unfolding upgrade
  upgrade-some entries i got alive = at (entries i) refl alive
    where
      self_eq : (i == i) ≡ true
      self_eq = ground arith

      at :
          (o : Option (ReaderEntry r))
          → entries i ≡ o
          → is_alive r o ≡ true
          → share r (upgrade r entries (some i)) i got ≡ got
      at none e h = absurd (grind (arith))
      at (some x) e h = rw (e, upgrade, self_eq) refl

  pub upgrade-other :
      (entries : ℕ → Option (ReaderEntry r)) (o : Option ℕ) (i : ℕ) (got : List ℕ)
      → mapped r stream o i ≡ false
      → share r (upgrade r entries o) i got ≡ []
  unfolding upgrade
  upgrade-other entries none i got h = refl
  upgrade-other entries (some j) i got h = at (entries j) refl
    where
      not_eq : (i == j) ≡ false
      not_eq = ground arith

      at :
          (o : Option (ReaderEntry r))
          → entries j ≡ o
          → share r (upgrade r entries (some j)) i got ≡ []
      at none e = rw (e, upgrade) refl
      at (some x) e = rw (e, upgrade, not_eq) refl

  pub mapped_some : (o : Option ℕ) (i : ℕ) → mapped r stream o i ≡ true → o ≡ some i
  mapped_some none i h = absurd (grind (arith))
  mapped_some (some j) i h = ap some ((==_iff j i).0 h)

  pub share_nothing : (t : Option (ℕ × ReaderEntry r)) (j : ℕ) → share r t j [] ≡ []
  share_nothing none j = refl
  share_nothing (some (i, e)) j = elim (Bool-cases (j == i)) [
    | inl same ↦ rw (same) refl
    | inr other ↦ rw (other) refl
  ]

  pub after_payload-Ahead :
      (owner : SocketAddr) (left : ℕ) (bytes rest : List ℕ) (fs : List Frame)
      → length rest ≡ left
      → bytes ≡ rest ++ encode fs
      → Ahead r stream (after_payload r stream owner left) bytes rest fs
  unfolding new_packet
  after_payload-Ahead owner left bytes rest fs size e = elim (Bool-cases (left == 0)) [
    | inl over ↦ rw (over) (nothing rest (size ∙ (==_iff left 0).0 over) e)
    | inr more ↦ rw (more) (size, e)
  ]
    where
      nothing : (xs : List ℕ) → length xs ≡ 0 → bytes ≡ xs ++ encode fs → bytes ≡ encode fs
      nothing [] h p = p
      nothing (x ∷ xs) h p = absurd (omega (arith, h))

  pub after_payload-Held :
      (owner : SocketAddr) (left i : ℕ) → Held r stream (after_payload r stream owner left) i
  unfolding new_packet
  after_payload-Held owner left i = elim (Bool-cases (left == 0)) [
    | inl over ↦ rw (over) tt
    | inr more ↦ rw (more) tt
  ]

  -- What is owed when `own` says whose payload is under way, and `o` is owed from the frames.
  abbrev pub owing_of : Bool → Bool → List ℕ → List ℕ → List ℕ
  owing_of own false rest o = []
  owing_of true true rest o = rest ++ o
  owing_of false true rest o = o

  abbrev pub part_of : Bool → Bool → List ℕ → List ℕ
  part_of true true got = got
  part_of own m got = []

  pub after_payload-Due :
      (a owner : SocketAddr) (left : ℕ) (m : Bool) (rest : List ℕ) (fs : List Frame)
      → length rest ≡ left
      → Due r stream a
          (after_payload r stream owner left)
          m
          rest
          fs
          (owing_of (ThinAddr.eq a owner) m rest (owed a fs))
  unfolding new_packet
  after_payload-Due a owner left false rest fs size = refl
  after_payload-Due a owner left true rest fs size = elim (Bool-cases (left == 0)) [
    | inl over ↦ rw (over) (nothing rest (size ∙ (==_iff left 0).0 over))
    | inr more ↦ rw (more) by_owner
  ]
    where
      by_owner :
          owing_of (ThinAddr.eq a owner) true rest (owed a fs)
          ≡ (if ThinAddr.eq a owner then rest ++ owed a fs else owed a fs)
      by_owner = elim (Bool-cases (ThinAddr.eq a owner)) [
        | inl mine ↦ rw (mine) refl
        | inr other ↦ rw (other) refl
      ]

      nothing :
          (xs : List ℕ)
          → length xs ≡ 0
          → owing_of (ThinAddr.eq a owner) true xs (owed a fs) ≡ owed a fs
      nothing [] h = elim (Bool-cases (ThinAddr.eq a owner)) [
        | inl mine ↦ rw (mine) refl
        | inr other ↦ rw (other) refl
      ]
      nothing (x ∷ xs) h = absurd (omega (arith, h))

  -- What the target's entry gets is taken off what it is owed.
  pub owing_of-split :
      (own m : Bool) (got rest o : List ℕ)
      → owing_of own m (got ++ rest) o ≡ part_of own m got ++ owing_of own m rest o
  owing_of-split true true got rest o = append_assoc got rest o
  owing_of-split false true got rest o = refl
  owing_of-split true false got rest o = refl
  owing_of-split false false got rest o = refl
