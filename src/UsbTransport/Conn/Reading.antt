-- ===== src/UsbTransport/Conn/Reading.antt =====
-- What `Read` of a `usbConn` returns, with no loop.
use ipp_usb.Base.{
  ℕ, zero, suc, ◌+◌, ◌*◌, ◌%◌, ◌≡◌, ◌<◌, ◌≤◌, ◌⊎◌, inl, inr, refl, ap, sym, Bool, true, false, ◌||◌,
  Option, none, some, List, [], ◌∷◌, All, length, ℤ, pos, negsuc, arith,
}
use ipp_usb.UsbTransport.Pool.{adjust, increased, decreased, UsbConnState, begin_read, done_read}
use ipp_usb.UsbTransport.Conn.{
  Io, IoError, deadline_exceeded, other, Transfer, eof, failed, Read, aligned, millisecond,
  next_backoff, add_recv, answer, is_empty_transfer, read_loop, finish_read, read,
}

-- A buffer of 1024 bytes or more is cut to a multiple of 1024, by less than 1024 bytes and never to
-- nothing; a smaller one is left alone.
pub aligned-Bounds :
    (n : ℕ)
    → (aligned n ≤ n)
      × (n < aligned n + 1024)
      × ((n < 1024) ⊎ ((0 < aligned n) × (aligned n % 1024 ≡ 0)))
      × ((aligned n ≡ n) ⊎ (1024 ≤ n))
unfolding aligned
aligned-Bounds n = ground arith

-- `k` transfers of no bytes.
abbrev pub empties : ℕ → List Transfer → List Transfer
empties zero rest = rest
empties (suc k) rest = record { count = 0; error = none } ∷ empties k rest

-- Pauses from `backoff` on.
abbrev pub backoffs : ℕ → ℕ → List ℕ
backoffs backoff zero = []
backoffs backoff (suc k) = backoff ∷ backoffs (next_backoff backoff) k

answer_pauses :
    (hack zlp : Bool) (io : Io) (n : ℕ) (e : Option IoError) → (answer hack zlp io n e).pauses ≡ []
answer_pauses hack zlp io n none = refl
answer_pauses hack zlp io n (some other) = refl
answer_pauses hack zlp io n (some deadline_exceeded) = ground arith

abbrev with_pauses : List ℕ → Read → Read
with_pauses pauses r = record r { pauses = pauses }

with_no_pauses : (r : Read) → r.pauses ≡ [] → with_pauses [] r ≡ r
with_no_pauses r e = ap (λ x. with_pauses x r) (sym e)

add_recv_zero : (io : Io) → add_recv io 0 ≡ io
add_recv_zero io =
    let e : io.conn.cnt_recv + 0 ≡ io.conn.cnt_recv = omega arith in
    ap (λ n. record io { conn = record (io.conn) { cnt_recv = n } }) e

abbrev some_empty : ℕ → Bool
some_empty zero = false
some_empty (suc k) = true

read_loop-empties :
    (hack zlp : Bool) (k backoff : ℕ) (io : Io) (t : Transfer) (rest : List Transfer)
    → is_empty_transfer t ≡ false
    → read_loop hack zlp backoff io (empties k (t ∷ rest))
      ≡ some (
          with_pauses
            (backoffs backoff k)
            (answer hack (zlp || some_empty k) (add_recv io t.count) t.count t.error))
unfolding read_loop
read_loop-empties hack false zero backoff io t rest h = rw h (
    ap some
      (sym (with_no_pauses _ (answer_pauses hack false (add_recv io t.count) t.count t.error))))
read_loop-empties hack true zero backoff io t rest h = rw h (
    ap some
      (sym (with_no_pauses _ (answer_pauses hack true (add_recv io t.count) t.count t.error))))
read_loop-empties hack false (suc k) backoff io t rest h =
    rw (add_recv_zero io, read_loop-empties hack true k (next_backoff backoff) io t rest h) refl
read_loop-empties hack true (suc k) backoff io t rest h =
    rw (add_recv_zero io, read_loop-empties hack true k (next_backoff backoff) io t rest h) refl

backoffs-Bounded :
    (k backoff : ℕ)
    → 10 * millisecond ≤ backoff
    → backoff ≤ 1000 * millisecond
    → All (λ p. (10 * millisecond ≤ p) × (p ≤ 1000 * millisecond)) (backoffs backoff k)
unfolding next_backoff
backoffs-Bounded zero backoff a b = tt
backoffs-Bounded (suc k) backoff a b =
    ((a, b), backoffs-Bounded k (next_backoff backoff) (ground arith) (ground arith))

length-backoffs : (k backoff : ℕ) → length (backoffs backoff k) ≡ k
length-backoffs zero backoff = refl
length-backoffs (suc k) backoff = ap suc (length-backoffs k (next_backoff backoff))

adjust_back :
    (counters : List ℤ) (i : ℕ) → adjust decreased (adjust increased counters i) i ≡ counters
unfolding adjust
adjust_back [] i = refl
adjust_back (x ∷ counters) zero = ap (λ y. y ∷ counters) (same x)
  where
    same : (x : ℤ) → decreased (increased x) ≡ x
    same (pos n) = refl
    same (negsuc zero) = refl
    same (negsuc (suc n)) = refl
adjust_back (x ∷ counters) (suc i) = ap (λ y. x ∷ y) (adjust_back counters i)

-- The count, the error, whether the end of the body was seen, and whether a timeout was noted.
abbrev pub Ends : Bool → ℕ → Bool → Transfer → Read → Type 0
Ends hack k timed_out t r = EndsWith t.error
  where
    EndsWith : Option IoError → Type 0
    EndsWith none =
        (r.count ≡ t.count)
        × (r.error ≡ none)
        × (r.io.conn.eof_seen ≡ false)
        × (r.io.timeout_expired ≡ timed_out)
    EndsWith (some other) =
        (r.count ≡ t.count)
        × (r.error ≡ some (failed other))
        × (r.io.conn.eof_seen ≡ false)
        × (r.io.timeout_expired ≡ timed_out)
    EndsWith (some deadline_exceeded) =
        ((hack ≡ true)
          × (0 < k)
          × (r.count ≡ 0)
          × (r.error ≡ some eof)
          × (r.io.conn.eof_seen ≡ true)
          × (r.io.timeout_expired ≡ timed_out))
        ⊎ (((hack ≡ false) ⊎ (k ≡ 0))
            × (r.count ≡ t.count)
            × (r.error ≡ some (failed deadline_exceeded))
            × (r.io.conn.eof_seen ≡ false)
            × (r.io.timeout_expired ≡ true))

-- `Read` returned so, having counted the bytes and left the tracker as it was, after `k` pauses of
-- 10 milliseconds to a second.
abbrev pub ReadsTo : Bool → ℕ → Io → Transfer → Option Read → Type 0
ReadsTo hack k io t none = ⊥
ReadsTo hack k io t (some r) =
    Ends hack k io.timeout_expired t r
    × (r.io.conn.cnt_recv ≡ io.conn.cnt_recv + t.count)
    × (r.io.connstate ≡ io.connstate)
    × (length r.pauses ≡ k)
    × All (λ p. (10 * millisecond ≤ p) × (p ≤ 1000 * millisecond)) r.pauses

-- The state at the head of the loop of `Read`.
abbrev begun : Io → Io
begun io = record io {
  conn = record (io.conn) { eof_seen = false };
  connstate = begin_read io.connstate io.conn.index;
}

tracker_same : (state : UsbConnState) (i : ℕ) → done_read (begin_read state i) i ≡ state
unfolding begin_read done_read
tracker_same state i = ap (λ x. record state { read = x }) (adjust_back state.read i)

answer-ReadsTo :
    (hack : Bool) (k : ℕ) (io : Io) (n : ℕ) (e : Option IoError)
    → ReadsTo hack k io
        (record { count = n; error = e })
        (some (
          finish_read (
            with_pauses
              (backoffs (10 * millisecond) k)
              (answer hack (some_empty k) (add_recv (begun io) n) n e))))
answer-ReadsTo hack k io n none = (
  (refl, refl, refl, refl),
  refl,
  tracker_same io.connstate io.conn.index,
  length-backoffs k (10 * millisecond),
  backoffs-Bounded k (10 * millisecond) (omega arith) (omega arith),
)
answer-ReadsTo hack k io n (some other) = (
  (refl, refl, refl, refl),
  refl,
  tracker_same io.connstate io.conn.index,
  length-backoffs k (10 * millisecond),
  backoffs-Bounded k (10 * millisecond) (omega arith) (omega arith),
)
answer-ReadsTo true (suc k) io n (some deadline_exceeded) = (
  inl (refl, omega arith, refl, refl, refl, refl),
  refl,
  tracker_same io.connstate io.conn.index,
  length-backoffs (suc k) (10 * millisecond),
  backoffs-Bounded (suc k) (10 * millisecond) (omega arith) (omega arith),
)
answer-ReadsTo true zero io n (some deadline_exceeded) = (
  inr (inr refl, refl, refl, refl, refl),
  refl,
  tracker_same io.connstate io.conn.index,
  refl,
  tt,
)
answer-ReadsTo false k io n (some deadline_exceeded) = (
  inr (inl refl, refl, refl, refl, refl),
  refl,
  tracker_same io.connstate io.conn.index,
  length-backoffs k (10 * millisecond),
  backoffs-Bounded k (10 * millisecond) (omega arith) (omega arith),
)

-- `Read` returns with the first transfer that brings bytes or an error, after a pause of 10
-- milliseconds to a second for each of the `k` empty ones before. It returns what the transfer
-- brought, and notes a timeout exactly if the error is the deadline; but under `zlp-recv-hack` a
-- deadline behind an empty transfer is the end of the body, and no timeout.
pub read-ReadsTo :
    (hack : Bool) (k : ℕ) (io : Io) (t : Transfer) (rest : List Transfer)
    → is_empty_transfer t ≡ false
    → ReadsTo hack k io t (read hack io (empties k (t ∷ rest)))
unfolding read
read-ReadsTo hack k io t rest h =
    rw (read_loop-empties hack false k (10 * millisecond) (begun io) t rest h)
      (answer-ReadsTo hack k io t.count t.error)
