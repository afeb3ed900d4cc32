-- ===== src/Protocol/Tests.antt =====
-- src/protocol.rs at a concrete address.
use vt_muxer.Common.{◌≡◌, arith}
use vt_muxer.Samples.Packet.{peer}
use vt_muxer.Protocol.{MuxFrameHeader, header_bytes, header_of_bytes}
use vt_muxer.Protocol.Layout.{header_of_bytes-header_bytes}

abbrev five : MuxFrameHeader
five = record { socket = peer; len = record { first = 0; second = 5 } }

header_of_bytes-header_bytes_example : header_of_bytes (header_bytes five) ≡ five
header_of_bytes-header_bytes_example = header_of_bytes-header_bytes five (omega arith)
