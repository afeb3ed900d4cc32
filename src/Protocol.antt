-- ===== src/Protocol.antt =====
-- src/protocol.rs: the header of a frame, an address and a length, both in network order.
pub mod Layout
mod Tests
use vt_muxer.Common.{ℕ, List, [], ◌∷◌, ◌++◌, take, drop}
use vt_muxer.Integers
use vt_muxer.Integers.{NetworkOrderU16, IsU16}
use vt_muxer.ThinAddr
use vt_muxer.ThinAddr.{SocketAddr, IsSocket}
use vt_muxer.ThinAddr.Bytes.{of_bytes, port_of_bytes}

pub record MuxFrameHeader : Type 0 where
  pub socket : SocketAddr
  pub len : NetworkOrderU16

pub record IsHeader (h : MuxFrameHeader) : Type 0 where
  pub socket_valid : IsSocket h.socket
  pub len_valid : IsU16 h.len

unfoldable pub empty : SocketAddr → MuxFrameHeader
empty socket = record { socket = socket; len = Integers.new 0 }

unfoldable pub addr : MuxFrameHeader → SocketAddr
addr h = h.socket

unfoldable pub len : MuxFrameHeader → ℕ
len h = Integers.get h.len

-- `size_of::<MuxFrameHeader>()`.
abbrev pub header_size : ℕ
header_size = 20

-- `bytemuck::bytes_of` of a header: the packed layout.
unfoldable pub header_bytes : MuxFrameHeader → List ℕ
header_bytes h = ThinAddr.bytes_of h.socket ++ (h.len.first ∷ h.len.second ∷ [])

-- `uninit_bytes`, read back: the header whose bytes were filled in.
unfoldable pub header_of_bytes : List ℕ → MuxFrameHeader
header_of_bytes xs = record { socket = of_bytes (take 18 xs); len = port_of_bytes (drop 18 xs) }
