-- ===== src/UsbTransport/Pool.antt =====
-- The pool of connections of usbtransport.go: `usbConnGet`, `put`, `Shutdown` and the state tracker,
-- as atomic actions of the goroutines that share the transport. A connection is its index.
-- Children: Pool/Counting (lists of connections), Pool/Ownership (who has a connection) and
-- Pool/Waiting (`Shutdown`).
pub mod Counting
pub mod Ownership
pub mod Waiting
use ipp_usb.Base.{
  ℕ, zero, suc, ◌+◌, ◌-◌, ◌≡◌, ◌<◌, Bool, true, false, List, [], ◌∷◌, ◌++◌, length, ℤ, pos, negsuc,
  ◌⊎◌,
}
use ipp_usb.UsbTransport.Pool.Counting.{occurrences, erase, indices}

-- The per-connection flags of `usbConnState`, each a counter.
pub record UsbConnState : Type 0 where
  pub alloc : List ℤ
  pub read : List ℤ
  pub write : List ℤ

abbrev pub zeros : ℕ → List ℤ
zeros zero = []
zeros (suc n) = pos 0 ∷ zeros n

unfoldable pub new_usb_conn_state : ℕ → UsbConnState
new_usb_conn_state cnt = record { alloc = zeros cnt; read = zeros cnt; write = zeros cnt }

-- atomic.AddInt32 of 1 and of -1. The counters stay far below the bounds of an int32.
abbrev pub increased : ℤ → ℤ
increased (pos n) = pos (suc n)
increased (negsuc zero) = pos 0
increased (negsuc (suc n)) = negsuc n

abbrev pub decreased : ℤ → ℤ
decreased (pos zero) = negsuc 0
decreased (pos (suc n)) = pos n
decreased (negsuc n) = negsuc (suc n)

unfoldable pub adjust : (ℤ → ℤ) → List ℤ → ℕ → List ℤ
adjust f [] i = []
adjust f (x ∷ counters) zero = f x ∷ counters
adjust f (x ∷ counters) (suc i) = x ∷ adjust f counters i

unfoldable pub got_conn : UsbConnState → ℕ → UsbConnState
unfolding adjust
got_conn state conn = record state { alloc = adjust increased state.alloc conn }

unfoldable pub put_conn : UsbConnState → ℕ → UsbConnState
unfolding adjust
put_conn state conn = record state { alloc = adjust decreased state.alloc conn }

unfoldable pub begin_read : UsbConnState → ℕ → UsbConnState
unfolding adjust
begin_read state conn = record state { read = adjust increased state.read conn }

unfoldable pub done_read : UsbConnState → ℕ → UsbConnState
unfolding adjust
done_read state conn = record state { read = adjust decreased state.read conn }

unfoldable pub begin_write : UsbConnState → ℕ → UsbConnState
unfolding adjust
begin_write state conn = record state { write = adjust increased state.write conn }

unfoldable pub done_write : UsbConnState → ℕ → UsbConnState
unfolding adjust
done_write state conn = record state { write = adjust decreased state.write conn }

-- The channels and the tracker of `UsbTransport`. `idle` is what `connPool` holds, the next to be
-- received in front, `released` tells if `connReleased` holds its one signal, and `closed` if
-- `shutdown` is closed.
pub record ConnPool : Type 0 where
  pub capacity : ℕ
  pub idle : List ℕ
  pub released : Bool
  pub closed : Bool
  pub connstate : UsbConnState

-- The pool that `NewUsbTransport` fills with the connections in their order.
unfoldable pub filled : ℕ → ConnPool
unfolding new_usb_conn_state indices
filled n = record {
  capacity = n;
  idle = indices n;
  released = false;
  closed = false;
  connstate = new_usb_conn_state n;
}

-- `connInUse`
abbrev pub conn_in_use : ConnPool → ℕ
conn_in_use p = p.capacity - length p.idle

-- The third case of the select in `usbConnGet`: the pool without the connection that was received.
unfoldable pub received : ConnPool → List ℕ → ConnPool
received p rest = record p { idle = rest }

-- `gotConn` of `usbConnGet`.
unfoldable pub tracked : ConnPool → ℕ → ConnPool
unfolding got_conn
tracked p conn = record p { connstate = got_conn p.connstate conn }

-- `putConn` of `put`.
unfoldable pub untracked : ConnPool → ℕ → ConnPool
unfolding put_conn
untracked p conn = record p { connstate = put_conn p.connstate conn }

-- The send of `put` on `connPool`.
unfoldable pub sent_back : ConnPool → ℕ → ConnPool
sent_back p conn = record p { idle = p.idle ++ conn ∷ [] }

-- What `Shutdown` is at: nothing, the test at the head of its loop, the select behind it, or its
-- end, with or without the error of an expired context.
pub data Closer : Type 0 where
  running checking waiting stopped expired : Closer

-- All goroutines together. A connection that is not idle is with a goroutine of `usbConnGet` that
-- stands between the receive and `gotConn` (`entering`), with a request (`held`), or with a
-- goroutine of `put` that stands between `putConn` and the send (`leaving`). `signalling` is the
-- number of goroutines between the send of `put` and its signal.
pub record System : Type 0 where
  pub pool : ConnPool
  pub entering : List ℕ
  pub held : List ℕ
  pub leaving : List ℕ
  pub signalling : ℕ
  pub closer : Closer

-- How many connections goroutines have.
abbrev pub in_hand : System → ℕ
in_hand s = length s.entering + length s.held + length s.leaving

unfoldable pub initial : ℕ → System
unfolding filled
initial n = record {
  pool = filled n;
  entering = [];
  held = [];
  leaving = [];
  signalling = 0;
  closer = running;
}

-- One atomic action. Where several cases of a select are ready, Go takes any of them: a connection
-- may be received whether or not the pool is closed. `refuse` is `usbConnGet` with an error, `get`
-- and `track` are its receive and its `gotConn`; `untrack`, `put` and `signal` are the `putConn` of
-- `put`, its send and its signal.
pub data Step (s : System) : System → Type 0 where
  refuse : Step s s
  get :
      (conn : ℕ) (rest : List ℕ)
      → s.pool.idle ≡ conn ∷ rest
      → Step s (record s { pool = received s.pool rest; entering = conn ∷ s.entering })
  track :
      (conn : ℕ)
      → 0 < occurrences conn s.entering
      → Step s (record s {
        pool = tracked s.pool conn;
        entering = erase conn s.entering;
        held = conn ∷ s.held;
      })
  untrack :
      (conn : ℕ)
      → 0 < occurrences conn s.held
      → Step s (record s {
        pool = untracked s.pool conn;
        held = erase conn s.held;
        leaving = conn ∷ s.leaving;
      })
  put :
      (conn : ℕ)
      → 0 < occurrences conn s.leaving
      → length s.pool.idle < s.pool.capacity
      → Step s (record s {
        pool = sent_back s.pool conn;
        leaving = erase conn s.leaving;
        signalling = suc s.signalling;
      })
  signal :
      (n : ℕ)
      → s.signalling ≡ suc n
      → Step s (record s { pool = record (s.pool) { released = true }; signalling = n })
  shut :
      (s.closer ≡ running) ⊎ ((s.closer ≡ stopped) ⊎ (s.closer ≡ expired))
      → Step s (record s { pool = record (s.pool) { closed = true }; closer = checking })
  finish : s.closer ≡ checking → conn_in_use s.pool ≡ 0 → Step s (record s { closer = stopped })
  wait : s.closer ≡ checking → 0 < conn_in_use s.pool → Step s (record s { closer = waiting })
  wake :
      s.closer ≡ waiting
      → s.pool.released ≡ true
      → Step s (record s { pool = record (s.pool) { released = false }; closer = checking })
  expire : s.closer ≡ waiting → Step s (record s { closer = expired })

-- What the transport can get to, with `n` connections.
pub data Reach (n : ℕ) : System → Type 0 where
  start : Reach n (initial n)
  later : {s t : System} → Reach n s → Step s t → Reach n t
