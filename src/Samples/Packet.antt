-- ===== src/Samples/Packet.antt =====
-- A packet with a payload of three bytes, for 127.0.0.1 at port 8080.
use vt_muxer.Common.{ℕ, zero, suc, ◌<◌, [], ◌∷◌, arith, replicate, length-replicate}
use vt_muxer.Common.Bytes.{AreBytes}
use vt_muxer.ThinAddr.{SocketAddr}
use vt_muxer.PacketBuffer.{PacketBuffer, IsPacket}

abbrev pub peer : SocketAddr
peer = record {
  ip = record { octets = 0 ∷ 0 ∷ 0 ∷ 0 ∷ 0 ∷ 0 ∷ 0 ∷ 0 ∷ 0 ∷ 0 ∷ 255 ∷ 255 ∷ 127 ∷ 0 ∷ 0 ∷ 1 ∷ [] };
  port = record { first = 31; second = 144 };
}

abbrev pub three : PacketBuffer
three = record {
  socket_addr = peer;
  len = record { first = 0; second = 3 };
  array = 1 ∷ 2 ∷ 3 ∷ replicate 65532 0;
}

pub replicate-AreBytes : (n x : ℕ) → x < 256 → AreBytes (replicate n x)
unfolding replicate
replicate-AreBytes zero x h = tt
replicate-AreBytes (suc n) x h = (h, replicate-AreBytes n x h)

pub three-IsPacket : IsPacket three
three-IsPacket = record {
  addr_valid = omega arith;
  len_valid = omega arith;
  array_size = omega (arith, length-replicate 65532 (let z : ℕ = 0 in z));
  array_bytes =
      (omega arith, (omega arith, (omega arith, replicate-AreBytes 65532 0 (omega arith))));
}
