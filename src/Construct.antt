-- ===== src/Construct.antt =====
-- src/constructor.rs: values that are built in place, in memory that holds anything.
use vt_muxer.Common.{ℕ, List}
use vt_muxer.ThinAddr.{SocketAddr}
use vt_muxer.PacketBuffer
use vt_muxer.PacketBuffer.{PacketBuffer}
use vt_muxer.Runtime.{Runtime}
use vt_muxer.PollMutex.{PollMutex}
use vt_muxer.Write.State
use vt_muxer.Write.State.{WriteInner}

-- The trait. `Uninit` is what `init` finds in the memory, as far as it leaves it there.
pub record Construct : Type 1 where
  pub This : Type 0
  pub Uninit : Type 0
  pub Data : Type 0
  pub init : Uninit → Data → This

-- `Box::new_uninit`, `init` and `assume_init`.
unfoldable pub box_new : (c : Construct) → c.Uninit → c.Data → c.This
box_new c this parts = c.init this parts

-- The two implementations: both leave the array of a packet as it is.
abbrev pub packet_construct : Construct
packet_construct = record {
  This = PacketBuffer;
  Uninit = List ℕ;
  Data = SocketAddr;
  init = λ array socket. PacketBuffer.init array socket;
}

abbrev pub write_construct : Runtime → Construct
write_construct r = record {
  This = WriteInner r;
  Uninit = List ℕ;
  Data = SocketAddr × PollMutex r;
  init = λ array parts. State.init r array parts.0 parts.1;
}
