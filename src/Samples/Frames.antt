-- ===== src/Samples/Frames.antt =====
-- The frames of a writer that sends three bytes and closes, and what to look at in an answer.
use vt_muxer.Common.{ℕ, Option, none, some, List, [], ◌∷◌, ◌++◌}
use vt_muxer.Common.Poll.{Poll, ready, IoResult, err, ErrorKind}
use vt_muxer.Wire.{Frame}
use vt_muxer.Wire.Merge.{frames_of}
use vt_muxer.Samples.Packet.{peer}
use vt_muxer.Samples.Source.{source}
use vt_muxer.Read.Shared.{ReaderEntry}

abbrev pub chunks : List (List ℕ)
chunks = (1 ∷ 2 ∷ 3 ∷ []) ∷ []

abbrev pub sent_frames : List Frame
sent_frames = frames_of peer (chunks ++ ([] ∷ []))

abbrev pub spare : ReaderEntry source
spare = record {
  reader_pipe_waker = 0;
  waiting_waker = 0;
  buffer = record { cells = []; capacity = 0; pos = 0; filled = 0; initialized = 0 };
}

abbrev pub entry_of : Option (ReaderEntry source) → ReaderEntry source
entry_of (some e) = e
entry_of none = spare

-- One, if memory has run out; and one, for any failure.
abbrev pub lost_of : Option (Poll ErrorKind) → ℕ
lost_of (some (ready ErrorKind.out_of_memory)) = 1
lost_of _ = 0

abbrev pub answer_of : Option (Poll (IoResult (Unit {0}))) → ℕ
answer_of (some (ready (err e))) = 1
answer_of _ = 0
