-- ===== src/UsbTransport/Pool/Waiting.antt =====
-- `Shutdown` of the transport: what it waits for, and what it leaves.
use ipp_usb.Base.{ℕ, suc, ◌≡◌, ◌<◌, ◌⊎◌, inl, inr, refl, subst, true, [], ◌∷◌, arith}
use ipp_usb.UsbTransport.Pool.Counting.{occurrences, erase, indices, length-indices}
use ipp_usb.UsbTransport.Pool.{
  System, in_hand, Step, refuse, get, track, untrack, put, signal, shut, finish, wait, wake, expire,
  Reach, start, later, Closer, running, checking, waiting, stopped, expired, initial, filled,
  received, tracked, untracked, sent_back,
}
use ipp_usb.UsbTransport.Pool.Ownership.{Owned, Reach-Owned}

-- Something will wake `Shutdown` up: a connection that a goroutine has, a signal on its way, or a signal.
abbrev pub Pending : System → Type 0
Pending s = (0 < in_hand s) ⊎ ((0 < s.signalling) ⊎ (s.pool.released ≡ true))

abbrev WaitsFor : System → Closer → Type 0
WaitsFor s waiting = Pending s
WaitsFor s _ = Unit

waits : (s : System) (c : Closer) → Pending s → WaitsFor s c
waits s waiting p = p
waits s running p = tt
waits s checking p = tt
waits s stopped p = tt
waits s expired p = tt

Step-WaitsFor :
    {n : ℕ} {s t : System} → Owned n s → Step s t → WaitsFor s s.closer → WaitsFor t t.closer
Step-WaitsFor o refuse w = w
Step-WaitsFor {n} {s} o (get conn rest e) w =
    waits (record s { pool = received s.pool rest; entering = conn ∷ s.entering }) s.closer
      (inl (omega arith))
Step-WaitsFor {n} {s} o (track conn h) w =
    waits
      (record s {
        pool = tracked s.pool conn;
        entering = erase conn s.entering;
        held = conn ∷ s.held;
      })
      s.closer (inl (omega arith))
Step-WaitsFor {n} {s} o (untrack conn h) w =
    waits
      (record s {
        pool = untracked s.pool conn;
        held = erase conn s.held;
        leaving = conn ∷ s.leaving;
      })
      s.closer (inl (omega arith))
Step-WaitsFor {n} {s} o (put conn h l) w =
    waits
      (record s {
        pool = sent_back s.pool conn;
        leaving = erase conn s.leaving;
        signalling = suc s.signalling;
      })
      s.closer (inr (inl (omega arith)))
Step-WaitsFor {n} {s} o (signal m e) w =
    waits (record s { pool = record (s.pool) { released = true }; signalling = m }) s.closer
      (inr (inr refl))
Step-WaitsFor o (shut h) w = tt
Step-WaitsFor o (finish h e) w = tt
Step-WaitsFor o (wait h e) w = inl (omega (arith, o.all, o.room))
Step-WaitsFor o (wake h e) w = tt
Step-WaitsFor o (expire h) w = tt

Reach-WaitsFor : {n : ℕ} {s : System} → Reach n s → WaitsFor s s.closer
unfolding initial
Reach-WaitsFor start = tt
Reach-WaitsFor (later r st) = Step-WaitsFor (Reach-Owned r) st (Reach-WaitsFor r)

-- No wakeup is lost: as long as `Shutdown` waits in its select, some connection is with a
-- goroutine, from the receive of `usbConnGet` to the send of `put`, or `connReleased` holds a signal, or a goroutine in `put` is about to send one.
pub no_lost_wakeup : {n : ℕ} {s : System} → Reach n s → s.closer ≡ waiting → Pending s
no_lost_wakeup {n} {s} r e = subst (WaitsFor s) e (Reach-WaitsFor r)

-- The transport after `Shutdown` has returned with no error.
abbrev shut_down : ℕ → System
shut_down n = record (initial n) { pool = record (filled n) { closed = true }; closer = stopped }

shut_down-Reach : (n : ℕ) → Reach n (shut_down n)
unfolding initial filled
shut_down-Reach n =
    later (later start (shut (inl refl))) (finish refl (omega (arith, length-indices n)))

-- A connection can be handed out even after `Shutdown` has closed its channel, found nothing in
-- use and returned: with any number of connections but zero, such a state can be reached.
pub shut_down_leaks :
    (n : ℕ)
    → (s : System) × Reach (suc n) s
      × (s.closer ≡ stopped)
      × (s.pool.closed ≡ true)
      × (s.held ≡ 0 ∷ [])
unfolding filled indices received initial tracked occurrences erase
shut_down_leaks n = (
  _,
  later (later (shut_down-Reach (suc n)) (get 0 _ refl)) (track 0 (omega arith)),
  refl,
  refl,
  refl,
)
