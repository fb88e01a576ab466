-- ===== src/UsbTransport/Conn.antt =====
-- `usbConn` of usbtransport.go: reading from and writing to one connection. What libusb answers to
-- each `Recv` and `Send` is a parameter. Logging is left out, and a pause is its length, in
-- nanoseconds.
-- Children: Conn/Reading (what a read returns) and Conn/Delay (the pause between requests).
pub mod Reading
pub mod Delay
use ipp_usb.Base.{
  ℕ, zero, suc, ◌+◌, ◌-◌, ◌*◌, ◌/◌, Bool, true, false, ◌&&◌, ◌||◌, leb, ltb, ◌==◌, if◌then◌else◌,
  Option, none, some, List, [], ◌∷◌,
}
use ipp_usb.UsbTransport.Pool.{UsbConnState, begin_read, done_read, begin_write, done_write}

pub record UsbConn : Type 0 where
  pub index : ℕ
  pub delay_until : ℕ
  pub delay_interval : ℕ
  pub cnt_recv : ℕ
  pub cnt_sent : ℕ
  pub eof_seen : Bool

-- The connection with what it changes in its transport.
pub record Io : Type 0 where
  pub conn : UsbConn
  pub connstate : UsbConnState
  pub timeout_expired : Bool

-- context.DeadlineExceeded, or another error.
pub data IoError : Type 0 where
  deadline_exceeded other : IoError

-- What `Recv` or `Send` returns: a number of bytes, and an error, if any.
pub record Transfer : Type 0 where
  pub count : ℕ
  pub error : Option IoError

pub data ReadError : Type 0 where
  eof : ReadError
  failed : IoError → ReadError

-- What `Read` returns, the state that it leaves, and the pauses that it made.
pub record Read : Type 0 where
  pub count : ℕ
  pub error : Option ReadError
  pub io : Io
  pub pauses : List ℕ

-- The part of the buffer that is read into: a multiple of 1024, unless the buffer is smaller.
unfoldable pub aligned : ℕ → ℕ
aligned n = if leb 1024 n then n / 1024 * 1024 else n

abbrev pub millisecond : ℕ
millisecond = 1000000

-- `backoff += backoff / 4`, at most a second.
unfoldable pub next_backoff : ℕ → ℕ
next_backoff backoff =
    let longer = backoff + backoff / 4 in
    if ltb (millisecond * 1000) longer then millisecond * 1000 else longer

abbrev pub paused : ℕ → Read → Read
paused backoff r = record r { pauses = backoff ∷ r.pauses }

abbrev pub paused_first : ℕ → Option Read → Option Read
paused_first backoff none = none
paused_first backoff (some r) = some (paused backoff r)

abbrev pub add_recv : Io → ℕ → Io
add_recv io n = record io { conn = record (io.conn) { cnt_recv = io.conn.cnt_recv + n } }

-- The end of a round of `Read` that received bytes or an error.
abbrev pub answer : Bool → Bool → Io → ℕ → Option IoError → Read
answer hack zlp io n none = record { count = n; error = none; io = io; pauses = [] }
answer hack zlp io n (some other) = record {
  count = n;
  error = some (failed other);
  io = io;
  pauses = [];
}
answer hack zlp io n (some deadline_exceeded) =
    if hack && zlp
    then record {
      count = 0;
      error = some eof;
      io = record io { conn = record (io.conn) { eof_seen = true } };
      pauses = [];
    }
    else record {
      count = n;
      error = some (failed deadline_exceeded);
      io = record io { timeout_expired = true };
      pauses = [];
    }

abbrev pub is_empty_transfer : Transfer → Bool
is_empty_transfer t = elim (t.error) [ none ↦ t.count == 0 | some e ↦ false ]

-- The loop of `Read` over the answers of `Recv`; `none` is a `Recv` that has not returned.
unfoldable pub read_loop : Bool → Bool → ℕ → Io → List Transfer → Option Read
read_loop hack zlp backoff io [] = none
read_loop hack zlp backoff io (t ∷ transfers) =
    let io' = add_recv io t.count in
    let again = paused_first backoff (read_loop hack true (next_backoff backoff) io' transfers) in
    if is_empty_transfer t then again else some (answer hack zlp io' t.count t.error)

abbrev pub finish_read : Read → Read
finish_read r = record r {
  io = record (r.io) { connstate = done_read r.io.connstate r.io.conn.index };
}

abbrev pub finished : Option Read → Option Read
finished none = none
finished (some r) = some (finish_read r)

-- `Read`, under the quirk `zlp-recv-hack` or not.
unfoldable pub read : Bool → Io → List Transfer → Option Read
unfolding read_loop next_backoff begin_read done_read
read hack io transfers = finished (
    read_loop hack false (10 * millisecond)
      (record io {
        conn = record (io.conn) { eof_seen = false };
        connstate = begin_read io.connstate io.conn.index;
      })
      transfers)

-- What `Write` returns, and the state that it leaves.
pub record Written : Type 0 where
  pub count : ℕ
  pub error : Option IoError
  pub io : Io

abbrev pub is_deadline : Option IoError → Bool
is_deadline none = false
is_deadline (some deadline_exceeded) = true
is_deadline (some other) = false

-- `Write`
unfoldable pub write : Io → Transfer → Written
unfolding begin_write done_write
write io t = record {
  count = t.count;
  error = t.error;
  io = record io {
    conn = record (io.conn) { cnt_sent = io.conn.cnt_sent + t.count };
    connstate = done_write (begin_write io.connstate io.conn.index) io.conn.index;
    timeout_expired = io.timeout_expired || is_deadline t.error;
  };
}

-- `put` of usbConn, up to the tracker, at the time `now`. The buffered reader is reset too.
unfoldable pub reset_conn : UsbConn → ℕ → UsbConn
reset_conn conn now = record conn {
  delay_until = now + conn.delay_interval;
  cnt_recv = 0;
  cnt_sent = 0;
}

-- The pause of `RoundTripWithSession` before it sends a request, at the time `now`.
unfoldable pub delay_before : UsbConn → ℕ → ℕ
delay_before conn now = conn.delay_until - now
