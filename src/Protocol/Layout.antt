-- ===== src/Protocol/Layout.antt =====
-- src/protocol.rs: the 20 bytes of a header, and what is read back from them.
use vt_muxer.Common.{
  ◌≡◌, refl, sym, [], ◌∷◌, arith, length, length-append, take-append_length, drop-append_length,
}
use vt_muxer.Common.Bytes.{AreBytes, AreBytes-append}
use vt_muxer.Integers.RoundTrip.{new-IsU16, get-new}
use vt_muxer.ThinAddr
use vt_muxer.ThinAddr.{SocketAddr, IsSocket}
use vt_muxer.ThinAddr.Bytes.{length-bytes_of, bytes_of-AreBytes, of_bytes-bytes_of}
use vt_muxer.Protocol.{
  MuxFrameHeader, IsHeader, header_bytes, header_of_bytes, header_size, empty, addr, len,
}

pub length-header_bytes : (h : MuxFrameHeader) → IsHeader h → length (header_bytes h) ≡ header_size
unfolding header_bytes
length-header_bytes h v = omega (
  arith,
  length-bytes_of h.socket v.socket_valid,
  length-append (ThinAddr.bytes_of h.socket) (h.len.first ∷ h.len.second ∷ []),
)

pub header_bytes-AreBytes : (h : MuxFrameHeader) → IsHeader h → AreBytes (header_bytes h)
unfolding header_bytes
header_bytes-AreBytes h v =
    AreBytes-append (ThinAddr.bytes_of h.socket) (h.len.first ∷ h.len.second ∷ [])
      (bytes_of-AreBytes h.socket v.socket_valid)
      (v.len_valid.first_byte, (v.len_valid.second_byte, tt))

-- A valid header is read back from its own bytes.
pub header_of_bytes-header_bytes :
    (h : MuxFrameHeader) → IsHeader h → header_of_bytes (header_bytes h) ≡ h
unfolding header_of_bytes header_bytes
header_of_bytes-header_bytes h v =
    let tail = h.len.first ∷ h.len.second ∷ [] in
    let eighteen = sym (length-bytes_of h.socket v.socket_valid) in
    let front = take-append_length 18 (ThinAddr.bytes_of h.socket) tail eighteen in
    let back = drop-append_length 18 (ThinAddr.bytes_of h.socket) tail eighteen in
    rw (front, back, of_bytes-bytes_of h.socket v.socket_valid)

pub empty-IsHeader : (s : SocketAddr) → IsSocket s → IsHeader (empty s)
unfolding empty
empty-IsHeader s v = record { socket_valid = v; len_valid = new-IsU16 0 }

-- What the peer reads from the bytes of the empty header of an address: that address, and a
-- length of 0, in 20 bytes.
empty_read :
    (s : SocketAddr)
    → IsSocket s
    → let seen = header_of_bytes (header_bytes (empty s)) in
      (addr seen ≡ s) × (len seen ≡ 0) × (length (header_bytes (empty s)) ≡ header_size)
empty_read s v =
    let valid = empty-IsHeader s v in
    rw (header_of_bytes-header_bytes (empty s) valid) (
      unfold addr empty in refl,
      unfold len empty in get-new 0 (omega arith),
      length-header_bytes (empty s) valid,
    )
