-- ===== src/Wire/Unique.antt =====
-- The bytes of frames, compared with those of other frames.
use vt_muxer.Common.{
  ℕ, ◌≡◌, refl, sym, ap, ap₂, ◌∙◌, inl, inr, List, [], ◌∷◌, ◌++◌, length, Bool-cases, arith, take,
  drop, take-append_length, drop-append_length, append_assoc, append-nil,
}
use vt_muxer.ThinAddr
use vt_muxer.ThinAddr.{SocketAddr, IsSocket}
use vt_muxer.Integers
use vt_muxer.Protocol
use vt_muxer.Protocol.Layout.{length-header_bytes, header_of_bytes-header_bytes}
use vt_muxer.Wire.{
  Frame, IsFrame, AreFrames, header_of, header_of-IsHeader, len-header_of, encode, encode-cut,
  encode-nil,
}
use vt_muxer.Wire.Merge.{frames_of, encode-frames_of, payloads}
use vt_muxer.Write.Stream.{frame, frames, frames-append_one, AreChunks}

encode-cons :
    (f : Frame) (fs : List Frame)
    → encode (f ∷ fs) ≡ Protocol.header_bytes (header_of f) ++ (f.payload ++ encode fs)
unfolding encode frame
encode-cons f fs = append_assoc (Protocol.header_bytes (header_of f)) f.payload (encode fs)

length-header_of :
    (f : Frame) → IsFrame f → length (Protocol.header_bytes (header_of f)) ≡ Protocol.header_size
length-header_of f v = length-header_bytes (header_of f) (header_of-IsHeader f v)

-- Lists of valid frames with the same bytes are the same.
pub encode-injective :
    (fs gs : List Frame) → AreFrames fs → AreFrames gs → encode fs ≡ encode gs → fs ≡ gs
encode-injective [] [] v w e = refl
encode-injective [] (g ∷ gs) v w e = absurd (
    encode-nil (Protocol.header_bytes (header_of g)) (g.payload ++ encode gs)
      (length-header_of g w.0) (sym (e ∙ encode-cons g gs)))
encode-injective (f ∷ fs) [] v w e = absurd (
    encode-nil (Protocol.header_bytes (header_of f)) (f.payload ++ encode fs)
      (length-header_of f v.0) (sym (encode-cons f fs) ∙ e))
encode-injective (f ∷ fs) (g ∷ gs) v w e =
    let (front, back) =
      encode-cut (Protocol.header_bytes (header_of f)) (f.payload ++ encode fs) g gs w.0
        (length-header_of f v.0) (sym (encode-cons f fs) ∙ e) in
    let head =
      sym (header_of_bytes-header_bytes (header_of f) (header_of-IsHeader f v.0))
      ∙ ap Protocol.header_of_bytes front
      ∙ header_of_bytes-header_bytes (header_of g) (header_of-IsHeader g w.0) in
    let n = length f.payload in
    let size : n ≡ length g.payload =
      sym (len-header_of f v.0) ∙ ap Protocol.len head ∙ len-header_of g w.0 in
    let payload =
      sym (take-append_length n f.payload (encode fs) refl)
      ∙ ap (take n) back
      ∙ take-append_length n g.payload (encode gs) size in
    let rest =
      sym (drop-append_length n f.payload (encode fs) refl)
      ∙ ap (drop n) back
      ∙ drop-append_length n g.payload (encode gs) size in
    ap₂ ◌∷◌ (ap₂ (λ s p. record { socket = s; payload = p }) (ap (λ h. h.socket) head) payload)
      (encode-injective fs gs v.1 w.1 rest)

payloads_of : List Frame → List (List ℕ)
payloads_of [] = []
payloads_of (f ∷ fs) = f.payload ∷ payloads_of fs

payloads_of-frames_of : (a : SocketAddr) (ps : List (List ℕ)) → payloads_of (frames_of a ps) ≡ ps
unfolding payloads_of
payloads_of-frames_of a [] = refl
payloads_of-frames_of a (p ∷ ps) = ap (◌∷◌ p) (payloads_of-frames_of a ps)

-- The frames of one connection have its payloads in their order.
pub payloads-injective :
    (a : SocketAddr) (ps qs : List (List ℕ))
    → AreFrames (frames_of a ps)
    → AreFrames (frames_of a qs)
    → encode (frames_of a ps) ≡ encode (frames_of a qs)
    → ps ≡ qs
payloads-injective a ps qs v w e =
    sym (payloads_of-frames_of a ps)
    ∙ ap payloads_of (encode-injective (frames_of a ps) (frames_of a qs) v w e)
    ∙ payloads_of-frames_of a qs

pub payloads-AreFrames :
    (a : SocketAddr) (fs : List Frame)
    → IsSocket a
    → AreFrames fs
    → AreFrames (frames_of a (payloads a fs))
unfolding payloads
payloads-AreFrames a [] valid v = tt
payloads-AreFrames a (f ∷ fs) valid v = elim (Bool-cases (ThinAddr.eq a f.socket)) [
  | inl mine ↦
      rw (mine)
        (record { socket_valid = valid; short = v.0.short }, payloads-AreFrames a fs valid v.1)
  | inr other ↦ rw (other) (payloads-AreFrames a fs valid v.1)
]

-- What a connection sends from its handshake to its shutdown: an empty payload, chunks, and an empty
-- payload.
abbrev pub session_payloads : List (List ℕ) → List (List ℕ)
session_payloads chunks = [] ∷ (chunks ++ ([] ∷ []))

pub session_payloads-AreFrames :
    (a : SocketAddr) (chunks : List (List ℕ))
    → IsSocket a
    → AreChunks chunks
    → AreFrames (frames_of a (session_payloads chunks))
session_payloads-AreFrames a chunks valid v =
    (record { socket_valid = valid; short = omega arith }, closed chunks v)
  where
    closed :
        (chunks : List (List ℕ)) → AreChunks chunks → AreFrames (frames_of a (chunks ++ ([] ∷ [])))
    closed [] v = (record { socket_valid = valid; short = omega arith }, tt)
    closed (c ∷ cs) v = (record { socket_valid = valid; short = v.0.1 }, closed cs v.1)

frame_nil : (a : SocketAddr) → frame a [] ≡ Protocol.header_bytes (Protocol.empty a)
unfolding frame Protocol.empty
frame_nil a = append-nil (Protocol.header_bytes (record { socket = a; len = Integers.new 0 }))

-- The bytes of a whole session.
pub encode-session :
    (a : SocketAddr) (chunks : List (List ℕ))
    → let hdr = Protocol.header_bytes (Protocol.empty a) in
      encode (frames_of a (session_payloads chunks)) ≡ (hdr ++ frames a chunks) ++ hdr
unfolding frames
encode-session a chunks =
    encode-frames_of a (session_payloads chunks)
    ∙ ap₂ ◌++◌ (frame_nil a)
        (frames-append_one a chunks [] ∙ ap (◌++◌ (frames a chunks)) (frame_nil a))
    ∙ sym (
        append_assoc (Protocol.header_bytes (Protocol.empty a)) (frames a chunks)
          (Protocol.header_bytes (Protocol.empty a)))
