-- ===== src/UsbTransport/Pool/Ownership.antt =====
-- Which request has which connection: an invariant of the pool.
use ipp_usb.Base.{
  ℕ, zero, suc, ◌+◌, ◌≡◌, ◌<◌, refl, ap, List, [], ◌∷◌, length, ltb, ◌==◌, if◌then◌else◌, arith,
  Option, none, some, get_elem?, ℤ, pos, length-append,
}
use ipp_usb.UsbTransport.Pool.Counting.{
  occurrences, erase, occurrences-append, occurrences-erase, length-erase, occurrences-indices,
  length-indices, occurrences_pos_length,
}
use ipp_usb.UsbTransport.Pool.{
  System, in_hand, Step, refuse, get, track, untrack, put, signal, shut, finish, wait, wake, expire,
  Reach, start, later, initial, filled, received, tracked, untracked, sent_back, got_conn, put_conn,
  new_usb_conn_state, adjust, increased, decreased, zeros, conn_in_use,
}

abbrev mapped : (ℤ → ℤ) → Option ℤ → Option ℤ
mapped f none = none
mapped f (some v) = some (f v)

get_elem?-adjust :
    (f : ℤ → ℤ) (counters : List ℤ) (i j : ℕ)
    → get_elem? (adjust f counters i) j
      ≡ (if i == j then mapped f (get_elem? counters j) else get_elem? counters j)
unfolding adjust
get_elem?-adjust f [] i j = ground arith
get_elem?-adjust f (x ∷ counters) zero zero = refl
get_elem?-adjust f (x ∷ counters) zero (suc j) = ground arith
get_elem?-adjust f (x ∷ counters) (suc i) zero = ground arith
get_elem?-adjust f (x ∷ counters) (suc i) (suc j) = ground (arith, get_elem?-adjust f counters i j)

get_elem?-zeros : (n c : ℕ) → get_elem? (zeros n) c ≡ (if ltb c n then some (pos 0) else none)
get_elem?-zeros zero c = ground arith
get_elem?-zeros (suc n) zero = ground arith
get_elem?-zeros (suc n) (suc c) = ground (arith, get_elem?-zeros n c)

-- Of `n` connections each is in the pool once, or with one goroutine, and nowhere else. The
-- tracker's counter of a connection is 1 if a request holds it and 0 if not.
pub record Owned (n : ℕ) (s : System) : Type 0 where
  pub once :
      (c : ℕ)
      → occurrences c s.pool.idle
          + occurrences c s.entering
          + occurrences c s.held
          + occurrences c s.leaving
        ≡ (if ltb c n then 1 else 0)
  pub all : length s.pool.idle + in_hand s ≡ n
  pub room : s.pool.capacity ≡ n
  pub counts :
      (c : ℕ)
      → get_elem? s.pool.connstate.alloc c
        ≡ (if ltb c n then some (pos (occurrences c s.held)) else none)

initial-Owned : (n : ℕ) → Owned n (initial n)
unfolding initial filled new_usb_conn_state occurrences
initial-Owned n = record {
  once = λ c. ground (arith, occurrences-indices c n);
  all = omega (arith, length-indices n);
  room = refl;
  counts = λ c. get_elem?-zeros n c;
}

module _ (n : ℕ) (s : System) (o : Owned n s) where
  get-Owned :
      (conn : ℕ) (rest : List ℕ)
      → s.pool.idle ≡ conn ∷ rest
      → Owned n (record s { pool = received s.pool rest; entering = conn ∷ s.entering })
  unfolding received occurrences
  get-Owned conn rest e = record {
    once = λ c. ground (arith, o.once c, ap (occurrences c) e);
    all = ground (arith, o.all, ap length e);
    room = o.room;
    counts = o.counts;
  }

  track-Owned :
      (conn : ℕ)
      → 0 < occurrences conn s.entering
      → Owned n (record s {
        pool = tracked s.pool conn;
        entering = erase conn s.entering;
        held = conn ∷ s.held;
      })
  unfolding tracked got_conn occurrences
  track-Owned conn h = record {
    once = λ c. ground (arith, o.once c, occurrences-erase c conn s.entering h);
    all = omega (arith, o.all, length-erase conn s.entering h);
    room = o.room;
    counts =
        λ c. ground (arith, get_elem?-adjust increased s.pool.connstate.alloc conn c, o.counts c);
  }

  untrack-Owned :
      (conn : ℕ)
      → 0 < occurrences conn s.held
      → Owned n (record s {
        pool = untracked s.pool conn;
        held = erase conn s.held;
        leaving = conn ∷ s.leaving;
      })
  unfolding untracked put_conn occurrences
  untrack-Owned conn h = record {
    once = λ c. ground (arith, o.once c, occurrences-erase c conn s.held h);
    all = omega (arith, o.all, length-erase conn s.held h);
    room = o.room;
    counts = λ c. ground (
      arith,
      get_elem?-adjust decreased s.pool.connstate.alloc conn c,
      o.counts c,
      occurrences-erase c conn s.held h,
    );
  }

  put-Owned :
      (conn : ℕ)
      → 0 < occurrences conn s.leaving
      → Owned n (record s {
        pool = sent_back s.pool conn;
        leaving = erase conn s.leaving;
        signalling = suc s.signalling;
      })
  unfolding sent_back occurrences
  put-Owned conn h = record {
    once = λ c. ground (
      arith,
      o.once c,
      occurrences-append c s.pool.idle (conn ∷ []),
      occurrences-erase c conn s.leaving h,
    );
    all =
        omega (arith, o.all, length-append s.pool.idle (conn ∷ []), length-erase conn s.leaving h);
    room = o.room;
    counts = o.counts;
  }

Step-Owned : {n : ℕ} {s t : System} → Step s t → Owned n s → Owned n t
Step-Owned {n} {s} refuse o = o
Step-Owned {n} {s} (get conn rest e) o = get-Owned n s o conn rest e
Step-Owned {n} {s} (track conn h) o = track-Owned n s o conn h
Step-Owned {n} {s} (untrack conn h) o = untrack-Owned n s o conn h
Step-Owned {n} {s} (put conn h l) o = put-Owned n s o conn h
Step-Owned {n} {s} (signal m e) o = record {
  once = o.once;
  all = o.all;
  room = o.room;
  counts = o.counts;
}
Step-Owned {n} {s} (shut h) o = record {
  once = o.once;
  all = o.all;
  room = o.room;
  counts = o.counts;
}
Step-Owned {n} {s} (finish h e) o = record {
  once = o.once;
  all = o.all;
  room = o.room;
  counts = o.counts;
}
Step-Owned {n} {s} (wait h e) o = record {
  once = o.once;
  all = o.all;
  room = o.room;
  counts = o.counts;
}
Step-Owned {n} {s} (wake h e) o = record {
  once = o.once;
  all = o.all;
  room = o.room;
  counts = o.counts;
}
Step-Owned {n} {s} (expire h) o = record {
  once = o.once;
  all = o.all;
  room = o.room;
  counts = o.counts;
}

-- However requests and `Shutdown` interleave, step by step: each of the `n` connections stays in the
-- pool once or with one goroutine, the capacity of the pool stays `n`, and the tracker's counter of
-- a connection is 1 as long as a request has it, from `gotConn` to `putConn`, and else 0.
pub Reach-Owned : {n : ℕ} {s : System} → Reach n s → Owned n s
Reach-Owned {n} start = initial-Owned n
Reach-Owned (later r st) = Step-Owned st (Reach-Owned r)

-- However requests and `Shutdown` interleave: the send of `put` never blocks, as there is room in
-- the pool for every connection on its way back; and `connInUse` is the number of the connections
-- that goroutines have, from the receive of `usbConnGet` to the send of `put`.
pub put_never_blocks :
    {n : ℕ} {s : System} (conn : ℕ)
    → Reach n s
    → 0 < occurrences conn s.leaving
    → (length s.pool.idle < s.pool.capacity) × (conn_in_use s.pool ≡ in_hand s)
put_never_blocks {n} {s} conn r h =
    let o : Owned n s = Reach-Owned r in
    (
      omega (arith, o.all, o.room, occurrences_pos_length conn s.leaving h),
      omega (arith, o.all, o.room),
    )
