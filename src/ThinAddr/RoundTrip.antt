-- ===== src/ThinAddr/RoundTrip.antt =====
-- src/thin_addr.rs: conversion to the addresses of `std::net` and back.
use vt_muxer.Common.{
  ℕ, zero, suc, ◌<◌, ◌≡◌, refl, sym, ap, ap₂, ◌∙◌, ◌⊎◌, inl, inr, List, [], ◌∷◌, arith, length,
  ◌==◌, Bool-cases, ◌&&◌, subst,
}
use vt_muxer.Common.Bytes.{AreBytes, to_be_bytes-from_be_bytes}
use vt_muxer.Integers.RoundTrip.{get-new, new-get, new-IsU16}
use vt_muxer.ThinAddr.Std.{
  StdIp, StdSocket, to_canonical, to_ipv6_mapped, unmapped, after_zeros, socket_new, socket_ip,
  socket_port,
}
use vt_muxer.ThinAddr.{
  IpAddr, SocketAddr, IsIp, IsSocket, ip_to_std, ip_from_std, to_std, from_std, ip_of, port_of,
}

-- The octets of an address of `std::net` are bytes, and there are as many as there should be.
abbrev pub IsStdIp : StdIp → Type 0
IsStdIp (StdIp.v4 a b c d) = (a < 256) × (b < 256) × (c < 256) × (d < 256)
IsStdIp (StdIp.v6 octets) = (length octets ≡ 16) × AreBytes octets

abbrev zeros : ℕ → List ℕ → List ℕ
zeros zero xs = xs
zeros (suc n) xs = 0 ∷ zeros n xs

-- What `to_canonical` can answer.
abbrev Canonical : ℕ → List ℕ → StdIp → StdIp → Type 0
Canonical n xs whole r =
    (r ≡ whole)
    ⊎ ((a : ℕ) × (b : ℕ) × (c : ℕ) × (d : ℕ) × (r ≡ StdIp.v4 a b c d)
        × (xs ≡ zeros n (255 ∷ 255 ∷ a ∷ b ∷ c ∷ d ∷ [])))

unmapped-Canonical : (xs : List ℕ) (whole : StdIp) → Canonical 0 xs whole (unmapped xs whole)
unfolding unmapped
unmapped-Canonical (f ∷ g ∷ a ∷ b ∷ c ∷ d ∷ []) whole = elim (Bool-cases (f == 255 && g == 255)) [
  | inl e ↦ rw e (inr (a, b, c, d, refl, ground arith))
  | inr e ↦ rw e (inl refl)
]
unmapped-Canonical _ whole = inl refl

after_zeros-Canonical :
    (n : ℕ) (xs : List ℕ) (whole : StdIp) → Canonical n xs whole (after_zeros n xs whole)
unfolding after_zeros
after_zeros-Canonical zero xs whole = unmapped-Canonical xs whole
after_zeros-Canonical (suc n) [] whole = inl refl
after_zeros-Canonical (suc n) (x ∷ xs) whole = elim (Bool-cases (x == 0)) [
  | inl e ↦ rw e (elim (after_zeros-Canonical n xs whole) [
    | inl same ↦ inl same
    | inr (a, b, c, d, r, m) ↦ inr (a, b, c, d, r, ground arith)
  ])
  | inr e ↦ rw e (inl refl)
]

-- No octet is lost in `to_canonical`.
ip_from_std-to_canonical : (xs : List ℕ) → ip_from_std (to_canonical xs) ≡ record { octets = xs }
unfolding ip_from_std to_canonical
ip_from_std-to_canonical xs = elim (after_zeros-Canonical 10 xs (StdIp.v6 xs)) [
  | inl same ↦ ap ip_from_std same
  | inr (a, b, c, d, r, m) ↦ ap ip_from_std r ∙ ap (λ ys. record { octets = ys }) (sym m)
]

ip_to_std-canonical : (a : IpAddr) → IsIp a → ip_to_std a ≡ to_canonical a.octets
unfolding ip_to_std
ip_to_std-canonical a v =
    ap to_canonical (to_be_bytes-from_be_bytes 16 a.octets (sym v.sixteen) v.bytes)

to_canonical-IsStdIp : (xs : List ℕ) → length xs ≡ 16 → AreBytes xs → IsStdIp (to_canonical xs)
unfolding to_canonical
to_canonical-IsStdIp xs size bytes = elim (after_zeros-Canonical 10 xs (StdIp.v6 xs)) [
  | inl same ↦ subst IsStdIp (sym same) (size, bytes)
  | inr (a, b, c, d, r, m) ↦ subst IsStdIp (sym r) (four a b c d (subst AreBytes m bytes))
]
  where
    four :
        (a b c d : ℕ)
        → AreBytes (zeros 10 (255 ∷ 255 ∷ a ∷ b ∷ c ∷ d ∷ []))
        → IsStdIp (StdIp.v4 a b c d)
    four a b c d h = omega (arith, h)

pub ip_to_std-IsStdIp : (a : IpAddr) → IsIp a → IsStdIp (ip_to_std a)
ip_to_std-IsStdIp a v =
    subst IsStdIp (sym (ip_to_std-canonical a v)) (to_canonical-IsStdIp a.octets v.sixteen v.bytes)

-- Every address of the library survives the trip through `std::net::IpAddr`.
pub ip_from_std-ip_to_std : (a : IpAddr) → IsIp a → ip_from_std (ip_to_std a) ≡ a
ip_from_std-ip_to_std a v = rw (ip_to_std-canonical a v) (ip_from_std-to_canonical a.octets)

pub ip_from_std-IsIp : (i : StdIp) → IsStdIp i → IsIp (ip_from_std i)
unfolding ip_from_std
ip_from_std-IsIp (StdIp.v4 a b c d) h = omega arith
ip_from_std-IsIp (StdIp.v6 octets) h = record { sixteen = h.0; bytes = h.1 }

-- The address that stands for `i`: a mapped IPv6 address is the IPv4 address that it maps.
abbrev pub canonical : StdIp → StdIp
canonical (StdIp.v4 a b c d) = StdIp.v4 a b c d
canonical (StdIp.v6 octets) = to_canonical octets

to_canonical-mapped : (a b c d : ℕ) → to_canonical (to_ipv6_mapped a b c d) ≡ StdIp.v4 a b c d
unfolding to_canonical
to_canonical-mapped a b c d = refl

ip_to_std-ip_from_std : (i : StdIp) → IsStdIp i → ip_to_std (ip_from_std i) ≡ canonical i
ip_to_std-ip_from_std i h = ip_to_std-canonical (ip_from_std i) (ip_from_std-IsIp i h) ∙ mapped i
  where
    mapped : (j : StdIp) → to_canonical (ip_from_std j).octets ≡ canonical j
    mapped (StdIp.v4 a b c d) = unfold ip_from_std in to_canonical-mapped a b c d
    mapped (StdIp.v6 octets) = unfold ip_from_std in refl

socket_ip-socket_new : (i : StdIp) (port : ℕ) → socket_ip (socket_new i port) ≡ i
socket_ip-socket_new (StdIp.v4 a b c d) port = refl
socket_ip-socket_new (StdIp.v6 octets) port = refl

socket_port-socket_new : (i : StdIp) (port : ℕ) → socket_port (socket_new i port) ≡ port
socket_port-socket_new (StdIp.v4 a b c d) port = refl
socket_port-socket_new (StdIp.v6 octets) port = refl

-- Every socket address of the library survives the trip through `std::net::SocketAddr`.
pub from_std-to_std : (s : SocketAddr) → IsSocket s → from_std (to_std s) ≡ s
unfolding from_std to_std
from_std-to_std s v = simp (
  socket_ip-socket_new,
  socket_port-socket_new,
  ip_from_std-ip_to_std s.ip v.ip_valid,
  new-get s.port v.port_valid,
)

abbrev pub IsStdSocket : StdSocket → Type 0
IsStdSocket s = IsStdIp (socket_ip s) × (socket_port s < 65536)

pub from_std-IsSocket : (s : StdSocket) → IsStdSocket s → IsSocket (from_std s)
unfolding from_std
from_std-IsSocket s h = record {
  ip_valid = ip_from_std-IsIp (socket_ip s) h.0;
  port_valid = new-IsU16 (socket_port s);
}

-- A socket address of `std::net` that is stored and read back has the same port, and the address
-- that stands for its own: an IPv4 address is kept, a mapped IPv6 address becomes the IPv4 address
-- that it maps, and the flow information and the scope id are 0.
pub to_std-from_std :
    (s : StdSocket)
    → IsStdSocket s
    → to_std (from_std s) ≡ socket_new (canonical (socket_ip s)) (socket_port s)
unfolding from_std to_std
to_std-from_std s h =
    ap₂ socket_new (ip_to_std-ip_from_std (socket_ip s) h.0) (get-new (socket_port s) h.1)

-- The accessors of a stored address.
accessors-from_std :
    (s : StdSocket)
    → IsStdSocket s
    → (port_of (from_std s) ≡ socket_port s)
      × (ip_to_std (ip_of (from_std s)) ≡ canonical (socket_ip s))
unfolding port_of ip_of from_std
accessors-from_std s h = (get-new (socket_port s) h.1, ip_to_std-ip_from_std (socket_ip s) h.0)
