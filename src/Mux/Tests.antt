-- ===== src/Mux/Tests.antt =====
-- src/lib.rs over a writer in memory, a stream in memory, and a channel that has one connection or none.
use vt_muxer.Common.{
  ℕ, false, true, refl, Option, none, some, List, [], ◌∷◌, replicate, length-replicate, arith,
}
use vt_muxer.Common.Poll.{Poll, ready, pending}
use vt_muxer.ThinAddr.{SocketAddr}
use vt_muxer.Samples.Packet.{peer, replicate-AreBytes}
use vt_muxer.Samples.Net.{net, net-IsRuntime}
use vt_muxer.Samples.Stream.{stream}
use vt_muxer.Samples.Source.{source, source-IsSource}
use vt_muxer.Read.Shared
use vt_muxer.Read.Attach.{new-IsShared}
use vt_muxer.Mux.{Split, Link, MuxPipe, add_connection}
use vt_muxer.Mux.Connect.{Connected, Sound, add_connection-Connected}
use vt_muxer.Mux.Listen.{MuxListener, poll_accept}
use vt_muxer.Mux.Accept.{IsSplit, Polled, poll_accept-Polled}

abbrev Slot : Type 0
Slot = Option (SocketAddr × ℕ)

abbrev received : Slot → Poll Slot
received none = pending
received (some c) = ready (some c)

abbrev channel : Split net source
channel = record {
  TcpStream = List ℕ;
  Receiver = Slot;
  RecvFut = Slot;
  into_split = λ bytes. (bytes, tt, record { answers = []; held = false; log = [] });
  bounded = λ n x. (none, x);
  drop_receiver = λ c x. ([], x);
  recv_async = λ c x. (c, x);
  poll_recv = λ f k x. (received f, f, x);
  drop_future = λ f x. x;
}

channel-IsSplit : IsSplit net source channel stream
channel-IsSplit = record {
  recv_quiet = λ c x. refl;
  poll_quiet = λ f k x. refl;
  drop_quiet = λ f x. refl;
}

abbrev link : Link net source
link = record {
  shared = Shared.new source (1 ∷ 2 ∷ 3 ∷ []);
  wire = record { answers = []; held = true; log = 7 ∷ [] };
}

abbrev only_pipe : MuxPipe net source
only_pipe = record { write = tt }

add_connection-Connected_example :
    let (o, n') = add_connection net source only_pipe (replicate 65535 0) peer link in
    Connected net source stream link peer o n' × Sound net source stream link n'
add_connection-Connected_example =
    add_connection-Connected net source stream net-IsRuntime only_pipe (replicate 65535 0) peer
      (length-replicate 65535 (let z : ℕ = 0 in z)) (replicate-AreBytes 65535 0 (omega arith))
      (omega arith) source-IsSource link (new-IsShared source stream (1 ∷ 2 ∷ 3 ∷ []))

abbrev listener : MuxListener net source channel
listener = record { pipe = only_pipe; receiver = none }

poll_accept-Polled_example :
    Polled net source channel stream link pending
      (poll_accept net source channel listener (replicate 65535 0) 60 9 none link)
unfolding Shared.new
poll_accept-Polled_example =
    poll_accept-Polled net source channel stream channel-IsSplit source-IsSource listener
      (replicate 65535 0) 60 9 link (new-IsShared source stream (1 ∷ 2 ∷ 3 ∷ [])) (omega arith) none
