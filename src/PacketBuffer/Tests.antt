-- ===== src/PacketBuffer/Tests.antt =====
-- src/packet_buffer.rs on a packet of three bytes.
use vt_muxer.Common.{◌≡◌, ◌↔◌, true, [], ◌∷◌, arith, take, drop}
use vt_muxer.Protocol.{header_of_bytes, header_size}
use vt_muxer.Samples.Packet.{three, three-IsPacket}
use vt_muxer.PacketBuffer.{must_flush_for, push, bytes}
use vt_muxer.PacketBuffer.Content.{payload}
use vt_muxer.PacketBuffer.Push.{Pushed, push-Pushed, Takes, push-Takes, must_flush_iff}
use vt_muxer.PacketBuffer.Frame.{header, bytes_read, push_keeps_sent}

push-Pushed_example : let (b, n) = push three (7 ∷ 8 ∷ []) 19 in Pushed three (7 ∷ 8 ∷ []) b n
push-Pushed_example = push-Pushed (7 ∷ 8 ∷ []) 19 three-IsPacket (omega arith)

push-Takes_example : Takes three (7 ∷ 8 ∷ []) 19 (push three (7 ∷ 8 ∷ []) 19).1
push-Takes_example = push-Takes (7 ∷ 8 ∷ []) 19 three-IsPacket

must_flush_iff_example : (must_flush_for three 20 ≡ true) ↔ ((push three (7 ∷ 8 ∷ []) 20).1 ≡ 0)
must_flush_iff_example = must_flush_iff (7 ∷ 8 ∷ []) 20 three-IsPacket (λ e. cc)

bytes_read_example :
    (header_of_bytes (take header_size (bytes three)) ≡ header three)
    × (drop header_size (bytes three) ≡ payload three)
bytes_read_example = bytes_read three-IsPacket

push_keeps_sent_example : take 19 (bytes (push three (7 ∷ 8 ∷ []) 19).0) ≡ take 19 (bytes three)
push_keeps_sent_example = push_keeps_sent (7 ∷ 8 ∷ []) 19 three-IsPacket (omega arith)
