-- ===== src/ThinAddr/Bytes.antt =====
-- src/thin_addr.rs: the packed bytes of a `SocketAddr`.
use vt_muxer.Common.{
  ℕ, ◌≡◌, sym, ap, ◌∙◌, List, [], ◌∷◌, arith, length, length-append, take, drop, take-append_length,
  drop-append_length,
}
use vt_muxer.Common.Bytes.{AreBytes, AreBytes-append}
use vt_muxer.Integers.{NetworkOrderU16}
use vt_muxer.ThinAddr.{SocketAddr, IsSocket, bytes_of}

pub length-bytes_of : (s : SocketAddr) → IsSocket s → length (bytes_of s) ≡ 18
unfolding bytes_of
length-bytes_of s v =
    omega (arith, v.ip_valid.sixteen, length-append s.ip.octets (s.port.first ∷ s.port.second ∷ []))

pub bytes_of-AreBytes : (s : SocketAddr) → IsSocket s → AreBytes (bytes_of s)
unfolding bytes_of
bytes_of-AreBytes s v =
    AreBytes-append s.ip.octets (s.port.first ∷ s.port.second ∷ []) v.ip_valid.bytes
      (v.port_valid.first_byte, (v.port_valid.second_byte, tt))

-- The number stored in two bytes.
abbrev pub port_of_bytes : List ℕ → NetworkOrderU16
port_of_bytes (x ∷ y ∷ []) = record { first = x; second = y }
port_of_bytes _ = record { first = 0; second = 0 }

-- `bytemuck` the other way: 18 bytes seen as a `SocketAddr`.
unfoldable pub of_bytes : List ℕ → SocketAddr
of_bytes xs = record { ip = record { octets = take 16 xs }; port = port_of_bytes (drop 16 xs) }

pub of_bytes-bytes_of : (s : SocketAddr) → IsSocket s → of_bytes (bytes_of s) ≡ s
unfolding of_bytes bytes_of
of_bytes-bytes_of s v =
    let tail = s.port.first ∷ s.port.second ∷ [] in
    let front = take-append_length 16 s.ip.octets tail (sym v.ip_valid.sixteen) in
    let back = drop-append_length 16 s.ip.octets tail (sym v.ip_valid.sixteen) in rw (front, back)

-- Two valid addresses that write the same bytes are one address.
pub bytes_of-injective :
    (a b : SocketAddr) → IsSocket a → IsSocket b → bytes_of a ≡ bytes_of b → a ≡ b
bytes_of-injective a b va vb e =
    sym (of_bytes-bytes_of a va) ∙ ap of_bytes e ∙ of_bytes-bytes_of b vb
