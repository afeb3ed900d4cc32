-- ===== src/Wire.antt =====
-- What travels over the TCP stream, whichever connections wrote it: the abstract view that both sides,
-- src/write.rs and src/read.rs, have to agree on.
pub mod Merge
pub mod Unique
use vt_muxer.Common.{
  ℕ, zero, suc, ◌+◌, ◌≡◌, ◌≢◌, ◌≤◌, ◌<◌, refl, sym, ap, ◌∙◌, inl, inr, true, false, List, [], ◌∷◌,
  ◌++◌, if◌then◌else◌, length, length-append, Bool-cases, arith, take, drop, take-append_length,
  drop-append_length, append_assoc,
}
use vt_muxer.Integers
use vt_muxer.Integers.RoundTrip.{get-new, new-IsU16}
use vt_muxer.ThinAddr
use vt_muxer.ThinAddr.{SocketAddr, IsSocket}
use vt_muxer.Protocol
use vt_muxer.Protocol.{MuxFrameHeader, IsHeader}
use vt_muxer.Protocol.Layout.{length-header_bytes}
use vt_muxer.Write.Stream.{frame}

pub record Frame : Type 0 where
  pub socket : SocketAddr
  pub payload : List ℕ

pub record IsFrame (f : Frame) : Type 0 where
  pub socket_valid : IsSocket f.socket
  pub short : length f.payload ≤ 65535

abbrev pub AreFrames : List Frame → Type 0
AreFrames [] = Unit {0}
AreFrames (f ∷ fs) = IsFrame f × AreFrames fs

abbrev pub header_of : Frame → MuxFrameHeader
header_of f = record { socket = f.socket; len = Integers.new (length f.payload) }

unfoldable pub encode : List Frame → List ℕ
encode [] = []
encode (f ∷ fs) = frame f.socket f.payload ++ encode fs

-- What the connection of `a`, while it is open, is to receive from the frames: its payloads, up to
-- the frame without payload that closes it.
unfoldable pub until_close : List ℕ → List ℕ → List ℕ
until_close [] rest = []
until_close (x ∷ xs) rest = (x ∷ xs) ++ rest

unfoldable pub owed : SocketAddr → List Frame → List ℕ
unfolding until_close
owed a [] = []
owed a (f ∷ fs) =
    let rest = owed a fs in if ThinAddr.eq a f.socket then until_close f.payload rest else rest

pub header_of-IsHeader : (f : Frame) → IsFrame f → IsHeader (header_of f)
header_of-IsHeader f v = record { socket_valid = v.socket_valid; len_valid = new-IsU16 _ }

pub len-header_of : (f : Frame) → IsFrame f → Protocol.len (header_of f) ≡ length f.payload
unfolding Protocol.len
len-header_of f v = get-new (length f.payload) (omega (arith, v.short))

-- The first 20 bytes and the others.
pub encode-cut :
    (xs ys : List ℕ) (f : Frame) (fs : List Frame)
    → IsFrame f
    → length xs ≡ Protocol.header_size
    → xs ++ ys ≡ encode (f ∷ fs)
    → (xs ≡ Protocol.header_bytes (header_of f)) × (ys ≡ f.payload ++ encode fs)
unfolding encode frame
encode-cut xs ys f fs v size e =
    let whole = e ∙ append_assoc (Protocol.header_bytes (header_of f)) f.payload (encode fs) in
    let twenty = size ∙ sym (length-header_bytes (header_of f) (header_of-IsHeader f v)) in
    (
      sym (take-append_length (length xs) xs ys refl)
          ∙ ap (take (length xs)) whole
          ∙ take-append_length (length xs) (Protocol.header_bytes (header_of f))
              (f.payload ++ encode fs) twenty,
      sym (drop-append_length (length xs) xs ys refl)
          ∙ ap (drop (length xs)) whole
          ∙ drop-append_length (length xs) (Protocol.header_bytes (header_of f))
              (f.payload ++ encode fs) twenty,
    )

-- A whole header stands before a frame.
pub encode-nil : (xs ys : List ℕ) → length xs ≡ Protocol.header_size → xs ++ ys ≢ encode []
unfolding encode
encode-nil xs ys size e = absurd (omega (arith, size, ap length e, length-append xs ys))
