-- ===== src/Wire/Merge.antt =====
-- What one connection has written, among the frames of all connections.
use vt_muxer.Common.{
  ℕ, ◌≡◌, ◌<◌, refl, ap, ◌∙◌, inl, inr, List, [], ◌∷◌, ◌++◌, if◌then◌else◌, length, Bool-cases,
  arith,
}
use vt_muxer.ThinAddr
use vt_muxer.ThinAddr.{SocketAddr}
use vt_muxer.Wire.{Frame, encode, until_close, owed}
use vt_muxer.Write.Stream.{frame, frames, joined, AreChunks}

-- The frames of the chunks of one connection.
abbrev pub frames_of : SocketAddr → List (List ℕ) → List Frame
frames_of a [] = []
frames_of a (p ∷ ps) = record { socket = a; payload = p } ∷ frames_of a ps

pub encode-frames_of : (a : SocketAddr) (ps : List (List ℕ)) → encode (frames_of a ps) ≡ frames a ps
unfolding encode frames
encode-frames_of a [] = refl
encode-frames_of a (p ∷ ps) = ap (λ xs. frame a p ++ xs) (encode-frames_of a ps)

-- The payloads of one connection, in the order of their frames.
unfoldable pub payloads : SocketAddr → List Frame → List (List ℕ)
payloads a [] = []
payloads a (f ∷ fs) =
    let rest = payloads a fs in if ThinAddr.eq a f.socket then f.payload ∷ rest else rest

head_of : List (List ℕ) → List ℕ
head_of [] = []
head_of (p ∷ ps) = p

tail_of : List (List ℕ) → List (List ℕ)
tail_of [] = []
tail_of (p ∷ ps) = ps

size_of : List (List ℕ) → ℕ
size_of [] = 0
size_of (p ∷ ps) = 1

-- What is owed to a connection is what its peer has written, when its frames among the others are
-- those of the chunks and then the one that closes it.
pub owed-joined :
    (a : SocketAddr) (fs : List Frame) (chunks later : List (List ℕ))
    → AreChunks chunks
    → payloads a fs ≡ chunks ++ ([] ∷ later)
    → owed a fs ≡ joined chunks
unfolding payloads owed until_close joined head_of tail_of size_of
owed-joined a [] [] later v e = refl
owed-joined a [] (c ∷ cs) later v e = absurd (omega (arith, ap size_of e))
owed-joined a (f ∷ fs) [] later v e = elim (Bool-cases (ThinAddr.eq a f.socket)) [
  | inl mine ↦ rw (mine) (ap (λ p. until_close p (owed a fs)) (ap head_of (rw mine at e)))
  | inr other ↦ rw (other) (owed-joined a fs [] later v (rw other at e))
]
owed-joined a (f ∷ fs) (c ∷ cs) later v e = elim (Bool-cases (ThinAddr.eq a f.socket)) [
  | inl mine ↦ rw (mine) (
      ap (λ p. until_close p (owed a fs)) (ap head_of (rw mine at e))
      ∙ data_chunk c v.0.0
      ∙ ap (λ xs. c ++ xs) (owed-joined a fs cs later v.1 (ap tail_of (rw mine at e))))
  | inr other ↦ rw (other) (owed-joined a fs (c ∷ cs) later v (rw other at e))
]
  where
    data_chunk : (p : List ℕ) → 0 < length p → until_close p (owed a fs) ≡ p ++ owed a fs
    data_chunk [] h = absurd (omega (arith, h))
    data_chunk (x ∷ xs) h = refl
