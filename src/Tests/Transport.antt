-- ===== src/Tests/Transport.antt =====
-- The connections of a device with two interfaces, and requests on them.
use ipp_usb.Base.{
  ◌≡◌, ◌<◌, inl, refl, true, false, some, List, [], ◌∷◌, Bytes, codes, bytes_eq, take, length, pos,
  arith,
}
use ipp_usb.Base.Dict.{lookup}
use ipp_usb.UsbTransport.Pool.{
  System, in_hand, initial, filled, received, tracked, untracked, conn_in_use, get, track, untrack,
  shut, wait, Reach, start, later, waiting, stopped, new_usb_conn_state,
}
use ipp_usb.UsbTransport.Pool.Counting.{occurrences, erase, indices}
use ipp_usb.UsbTransport.Pool.Ownership.{Owned, Reach-Owned, put_never_blocks}
use ipp_usb.UsbTransport.Pool.Waiting.{Pending, no_lost_wakeup, shut_down_leaks}
use ipp_usb.UsbTransport.Conn.{Io, Transfer, deadline_exceeded, read}
use ipp_usb.UsbTransport.Conn.Reading.{empties, ReadsTo, read-ReadsTo}
use ipp_usb.UsbTransport.Request.{Header, HttpRequest, prepare_header, prepare, ready}
use ipp_usb.UsbTransport.Request.Headers.{
  Distinct, sent_values, prepare_header-sent_values, prepare_announced,
}

-- Of two connections one is received, but not yet counted, and one is on its way back.
abbrev received_one : System
received_one = record (initial 2) { pool = received (filled 2) (1 ∷ []); entering = 0 ∷ [] }

received_one-Reach : Reach 2 received_one
unfolding initial filled indices received
received_one-Reach = later start (get 0 (1 ∷ []) refl)

is_there : 0 < occurrences 0 (0 ∷ [])
unfolding occurrences
is_there = omega arith

abbrev handed_out : System
handed_out = record (initial 2) { pool = tracked (received (filled 2) (1 ∷ [])) 0; held = 0 ∷ [] }

handed_out-Reach : Reach 2 handed_out
unfolding initial filled indices received tracked erase
handed_out-Reach = later received_one-Reach (track 0 is_there)

abbrev coming_back : System
coming_back = record (initial 2) {
  pool = untracked (tracked (received (filled 2) (1 ∷ [])) 0) 0;
  leaving = 0 ∷ [];
}

coming_back-Reach : Reach 2 coming_back
unfolding initial filled indices received tracked untracked erase
coming_back-Reach = later handed_out-Reach (untrack 0 is_there)

-- One connection is handed out, and `Shutdown` waits for it.
abbrev shutting_down : System
shutting_down = record handed_out {
  pool = record (tracked (received (filled 2) (1 ∷ [])) 0) { closed = true };
  closer = waiting;
}

shutting_down-Reach : Reach 2 shutting_down
unfolding initial filled indices received tracked
shutting_down-Reach = later (later handed_out-Reach (shut (inl refl))) (wait refl (omega arith))

Reach-Owned_example : Owned 2 shutting_down
Reach-Owned_example = Reach-Owned shutting_down-Reach

no_lost_wakeup_example : Pending shutting_down
no_lost_wakeup_example = no_lost_wakeup shutting_down-Reach refl

put_never_blocks_example :
    (length coming_back.pool.idle < coming_back.pool.capacity)
    × (conn_in_use coming_back.pool ≡ in_hand coming_back)
put_never_blocks_example = put_never_blocks 0 coming_back-Reach is_there

shut_down_leaks_example :
    (s : System) × Reach 2 s × (s.closer ≡ stopped) × (s.pool.closed ≡ true) × (s.held ≡ 0 ∷ [])
shut_down_leaks_example = shut_down_leaks 1

abbrev io : Io
io = record {
  conn = record {
    index = 0;
    delay_until = 0;
    delay_interval = 0;
    cnt_recv = 0;
    cnt_sent = 0;
    eof_seen = false;
  };
  connstate = new_usb_conn_state 2;
  timeout_expired = false;
}

abbrev timed_out : Transfer
timed_out = record { count = 0; error = some deadline_exceeded }

read-ReadsTo_example : ReadsTo true 2 io timed_out (read true io (empties 2 (timed_out ∷ [])))
read-ReadsTo_example = read-ReadsTo true 2 io timed_out [] refl

abbrev header_quirks : List (Bytes × Bytes)
header_quirks = (codes "Connection", []) ∷ (codes "Accept", codes "a") ∷ []

abbrev header : Header
header = (codes "Expect", codes "100-continue" ∷ []) ∷ (codes "Connection", codes "close" ∷ []) ∷ []

header_quirks-Distinct : Distinct header_quirks
unfolding lookup bytes_eq
header_quirks-Distinct = (refl, (refl, tt))

prepare_header-sent_values_example :
    lookup (codes "Accept") (prepare_header header_quirks header)
    ≡ sent_values header_quirks header (codes "Accept")
prepare_header-sent_values_example =
    prepare_header-sent_values header_quirks header (codes "Accept") header_quirks-Distinct

abbrev request : HttpRequest
request = record { header = header; content_length = pos 3; body = codes "abcde" }

abbrev sent : HttpRequest
sent = record {
  header = prepare_header header_quirks header;
  content_length = pos 3;
  body = codes "abc";
}

request_prepared : prepare header_quirks request ≡ ready sent
unfolding prepare
request_prepared = refl

prepare_announced_example : (codes "abc" ≡ take 3 (codes "abcde")) × (length (codes "abc") ≡ 3)
prepare_announced_example = prepare_announced header_quirks request sent 2 request_prepared refl
