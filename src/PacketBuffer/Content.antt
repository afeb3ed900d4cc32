-- ===== src/PacketBuffer/Content.antt =====
-- src/packet_buffer.rs: the bytes of a packet are a header and a payload.
use vt_muxer.Common.{
  ℕ, ◌+◌, ◌≤◌, ◌≡◌, List, ◌∷◌, arith, true, false, ◌<◌, length, length-append, take, length-take,
}
use vt_muxer.Common.Bytes.{AreBytes, AreBytes-append, AreBytes-take}
use vt_muxer.Integers
use vt_muxer.Integers.RoundTrip.{get-lt}
use vt_muxer.ThinAddr
use vt_muxer.ThinAddr.Bytes.{length-bytes_of, bytes_of-AreBytes}
use vt_muxer.PacketBuffer.{PacketBuffer, IsPacket, packet_size, is_empty, bytes}

-- The bytes of the array that belong to the frame.
abbrev pub payload : PacketBuffer → List ℕ
payload b = take (Integers.get b.len) b.array

pub packet_size-le : {b : PacketBuffer} → IsPacket b → packet_size b ≤ 65535
unfolding packet_size
packet_size-le {b} v = omega (arith, get-lt b.len v.len_valid)

pub length-payload : {b : PacketBuffer} → IsPacket b → length (payload b) ≡ packet_size b
unfolding packet_size
length-payload {b} v =
    omega (arith, length-take (Integers.get b.len) b.array, v.array_size, get-lt b.len v.len_valid)

pub length-bytes : {b : PacketBuffer} → IsPacket b → length (bytes b) ≡ 20 + packet_size b
unfolding bytes
length-bytes {b} v = omega (
  arith,
  length-append (ThinAddr.bytes_of b.socket_addr) (b.len.first ∷ b.len.second ∷ payload b),
  length-bytes_of b.socket_addr v.addr_valid,
  length-payload v,
)

pub bytes-AreBytes : {b : PacketBuffer} → IsPacket b → AreBytes (bytes b)
unfolding bytes
bytes-AreBytes {b} v =
    AreBytes-append (ThinAddr.bytes_of b.socket_addr) (b.len.first ∷ b.len.second ∷ payload b)
      (bytes_of-AreBytes b.socket_addr v.addr_valid)
      (
        v.len_valid.first_byte,
        (v.len_valid.second_byte, AreBytes-take (Integers.get b.len) b.array v.array_bytes),
      )

-- The test `is_empty`, as the size of the payload.
pub empty-size : (b : PacketBuffer) → is_empty b ≡ true → packet_size b ≡ 0
unfolding is_empty
empty-size b h = ground arith

pub some-size : (b : PacketBuffer) → is_empty b ≡ false → 0 < packet_size b
unfolding is_empty
some-size b h = ground arith
