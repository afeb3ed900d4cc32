-- ===== src/ThinAddr.antt =====
-- src/thin_addr.rs: addresses as 16 octets, IPv4 mapped into IPv6, and a port in network order.
pub mod Std
pub mod RoundTrip
pub mod Order
pub mod Bytes
pub mod Text
mod Tests
use vt_muxer.Common.{
  ℕ, ◌+◌, ◌≡◌, Bool, true, false, Option, none, some, List, [], ◌∷◌, ◌++◌, compare, Ordering, ◌==◌,
  ◌&&◌, length,
}
use vt_muxer.Common.Bytes.{AreBytes, from_be_bytes}
use vt_muxer.Integers
use vt_muxer.Integers.{NetworkOrderU16, IsU16}
use Std.{
  StdIp, StdSocket, from_bits, to_canonical, to_ipv6_mapped, socket_new, socket_ip, socket_port,
}

-- The array `[u8; 16]`.
pub record IpAddr : Type 0 where
  pub octets : List ℕ

pub record SocketAddr : Type 0 where
  pub ip : IpAddr
  pub port : NetworkOrderU16

-- The octets are an array of 16 bytes.
pub record IsIp (a : IpAddr) : Type 0 where
  pub sixteen : length a.octets ≡ 16
  pub bytes : AreBytes a.octets

pub record IsSocket (a : SocketAddr) : Type 0 where
  pub ip_valid : IsIp a.ip
  pub port_valid : IsU16 a.port

-- `to_std` and `from_std` of `IpAddr`, then of `SocketAddr`.
unfoldable pub ip_to_std : IpAddr → StdIp
ip_to_std a = to_canonical (from_bits (from_be_bytes a.octets))

unfoldable pub ip_from_std : StdIp → IpAddr
ip_from_std (StdIp.v4 a b c d) = record { octets = to_ipv6_mapped a b c d }
ip_from_std (StdIp.v6 octets) = record { octets = octets }

unfoldable pub to_std : SocketAddr → StdSocket
to_std s = socket_new (ip_to_std s.ip) (Integers.get s.port)

unfoldable pub from_std : StdSocket → SocketAddr
from_std s = record { ip = ip_from_std (socket_ip s); port = Integers.new (socket_port s) }

-- The accessors `ip` and `port`.
unfoldable pub ip_of : SocketAddr → IpAddr
ip_of s = s.ip

unfoldable pub port_of : SocketAddr → ℕ
port_of s = Integers.get s.port

-- The order of `[u8]`: lexicographic, and a proper prefix comes first.
unfoldable pub cmp_bytes : List ℕ → List ℕ → Ordering
cmp_bytes [] [] = Ordering.eq
cmp_bytes [] (y ∷ ys) = Ordering.lt
cmp_bytes (x ∷ xs) [] = Ordering.gt
cmp_bytes (x ∷ xs) (y ∷ ys) = elim (compare x y) [
  | Ordering.lt ↦ Ordering.lt
  | Ordering.eq ↦ cmp_bytes xs ys
  | Ordering.gt ↦ Ordering.gt
]

unfoldable pub eq_bytes : List ℕ → List ℕ → Bool
eq_bytes [] [] = true
eq_bytes [] (y ∷ ys) = false
eq_bytes (x ∷ xs) [] = false
eq_bytes (x ∷ xs) (y ∷ ys) = x == y && eq_bytes xs ys

-- `#[derive(PartialEq, Ord, PartialOrd)]` on `SocketAddr`: field by field, and each trait through
-- the same trait of the fields.
unfoldable pub eq : SocketAddr → SocketAddr → Bool
eq a b = eq_bytes a.ip.octets b.ip.octets && Integers.eq a.port b.port

pub cmp : SocketAddr → SocketAddr → Ordering
cmp a b = elim (cmp_bytes a.ip.octets b.ip.octets) [
  | Ordering.lt ↦ Ordering.lt
  | Ordering.eq ↦ Integers.cmp a.port b.port
  | Ordering.gt ↦ Ordering.gt
]

pub partial_cmp : SocketAddr → SocketAddr → Option Ordering
partial_cmp a b = elim (cmp_bytes a.ip.octets b.ip.octets) [
  | Ordering.lt ↦ some Ordering.lt
  | Ordering.eq ↦ Integers.partial_cmp a.port b.port
  | Ordering.gt ↦ some Ordering.gt
]

-- `bytemuck::bytes_of`: the packed layout, which `Hash` feeds to the hasher as it stands.
unfoldable pub bytes_of : SocketAddr → List ℕ
bytes_of s = s.ip.octets ++ (s.port.first ∷ s.port.second ∷ [])

-- `bytemuck::cast_slice`: one address behind the other.
unfoldable pub ip_bytes_of_slice : List IpAddr → List ℕ
ip_bytes_of_slice [] = []
ip_bytes_of_slice (a ∷ l) = a.octets ++ ip_bytes_of_slice l

unfoldable pub bytes_of_slice : List SocketAddr → List ℕ
unfolding bytes_of
bytes_of_slice [] = []
bytes_of_slice (s ∷ l) = bytes_of s ++ bytes_of_slice l

-- `Hash::hash` and `Hash::hash_slice`, first of `IpAddr`: `write` is the hasher's. A slice is written
-- at once.
module _ {ℓ} {H : Type ℓ} (write : H → List ℕ → H) where
  unfoldable pub ip_hash : IpAddr → H → H
  ip_hash a state = write state a.octets

  unfoldable pub ip_hash_slice : List IpAddr → H → H
  unfolding ip_bytes_of_slice
  ip_hash_slice l state = write state (ip_bytes_of_slice l)

  unfoldable pub hash : SocketAddr → H → H
  unfolding bytes_of
  hash s state = write state (bytes_of s)

  unfoldable pub hash_slice : List SocketAddr → H → H
  unfolding bytes_of_slice
  hash_slice l state = write state (bytes_of_slice l)
