-- ===== src/Socket/Tests.antt =====
-- Runs of the socket events, and the theorems about them at concrete transfers and frames.
use localsoftware.Common.{ℕ, ◌∷◌, ◌++◌, ◌≡◌, refl, true, false, List, [], some, arith, map}
use localsoftware.Common.Int.{pos}
use localsoftware.Runtime.Types.{ok}
use localsoftware.Socket.Bytes.{Bytes, recv, id_read, read, feed}
use localsoftware.Socket.Bytes.Transfer.{read_all_lem}
use localsoftware.Socket.Frame.{frame, frame_header}
use localsoftware.Socket.Frame.Parse.{parse, parse-frame}

abbrev socket : Bytes
socket = record {
  fd = 7;
  sticky_read = false;
  read_buffer = 0;
  read_bytes_left = 0;
  read_total_processed = 0;
  write_buffer = 0;
  write_bytes_left = 0;
  write_total_processed = 0;
}

read_all_lem_example :
    (s' : Bytes) × (feed (read socket 1000 60 true).0 id_read (map pos (10 ∷ 20 ∷ 30 ∷ []))
      ≡ ok (s', recv 7 1010 50 ∷ recv 7 1030 30 ∷ [], some (false, pos 60)))
unfolding read
read_all_lem_example =
    read_all_lem socket 1000 10 (20 ∷ 30 ∷ []) (omega arith, (omega arith, (omega arith, tt)))
      (omega arith)

abbrev hello : List ℕ
hello = 104 ∷ 105 ∷ []

parse-frame_example : parse (frame hello ++ 1 ∷ []) ≡ some (hello, 1 ∷ [])
parse-frame_example = parse-frame hello (1 ∷ []) (omega arith)

frame-hello : frame hello ≡ 130 ∷ 2 ∷ 104 ∷ 105 ∷ []
unfolding frame frame_header
frame-hello = refl
