-- ===== src/UsbIo/Transfer/Freed.antt =====
-- How transfers end: what is left of them, and what is returned.
use ipp_usb.Base.{
  ℕ, ◌≡◌, ◌≤◌, refl, Bool, false, not, ◌&&◌, ltb, ◌==◌, if◌then◌else◌, if_cases, Option, none, some,
  List, [], ◌∷◌, ◌++◌, append_assoc, ap, ◌∙◌, All, codes, arith,
}
use Prim.Native.Nat.{bit_or}
use ipp_usb.UsbIo.{UsbErrCode, usb_enomem}
use ipp_usb.UsbIo.Transfer.{
  CtxError, ctx, failure, TransferStatus, completed, cancelled, timed_out, stall, overflow,
  no_device, transfer_error, unknown, Count, status_decode, cancelled_by, Event, alloc_transfer,
  put_channel, submit, interrupt, cancel, wait, delete_channel, free_transfer, sleep, Bulk,
  Transferred, allocated, waiting, send_delay, submitted, filled, begun, send, limited, recv,
}

-- A transfer: there is none, it is there without its channel or with it, it is under way, and it
-- has ended; or it was treated in a wrong order.
pub data Phase : Type 0 where
  absent bare ready under_way ended deregistered wrong : Phase

abbrev pub advance : Phase → Event → Phase
advance absent alloc_transfer = bare
advance bare put_channel = ready
advance ready (submit endpoint len zlp) = under_way
advance ready delete_channel = deregistered
advance under_way interrupt = under_way
advance under_way cancel = under_way
advance under_way wait = ended
advance under_way delete_channel = deregistered
advance ended (sleep delay) = ended
advance ended delete_channel = deregistered
advance deregistered free_transfer = absent
advance _ _ = wrong

abbrev pub advance_all : Phase → List Event → Phase
advance_all p [] = p
advance_all p (e ∷ events) = advance_all (advance p e) events

-- A count of bytes comes from a transfer that was completed; an error comes with no bytes; the code
-- panics for an empty buffer only.
abbrev pub Counted : Bulk → ℕ → Option Count → Type 0
Counted b len none = len ≡ 0
Counted b len (some (n, none)) = (b.status ≡ completed) × (n ≡ b.actual_length)
Counted b len (some (n, some e)) = n ≡ 0

-- What is asked of libusb is at most `max` bytes.
abbrev pub Asks : ℕ → Event → Type 0
Asks max (submit endpoint len zlp) = len ≤ max
Asks max _ = Unit

abbrev pub Freed : Bulk → ℕ → ℕ → Transferred → Type 0
Freed b len max t =
    (advance_all absent t.events ≡ absent) × All (Asks max) t.events × Counted b len t.result

cancelled_by-Counted :
    (b : Bulk) (len : ℕ) (e : Option CtxError) → Counted b len (some (cancelled_by e))
cancelled_by-Counted b len none = refl
cancelled_by-Counted b len (some e) = refl

status_decode-Counted :
    (b : Bulk) (len : ℕ) (status : TransferStatus)
    → b.status ≡ status
    → Counted b len (some (status_decode b.ctx_err_at_end status b.actual_length))
unfolding status_decode
status_decode-Counted b len completed e = (e, refl)
status_decode-Counted b len cancelled e = cancelled_by-Counted b len b.ctx_err_at_end
status_decode-Counted b len timed_out e = refl
status_decode-Counted b len stall e = refl
status_decode-Counted b len overflow e = refl
status_decode-Counted b len no_device e = refl
status_decode-Counted b len transfer_error e = refl
status_decode-Counted b len unknown e = refl

-- What may be done in a phase that it does not leave.
abbrev Idle : Phase → List Event → Type 0
Idle p events = (rest : List Event) → advance_all p (events ++ rest) ≡ advance_all p rest

module _ (b : Bulk) (len max : ℕ) (endpoint asked : ℕ) (zlp : Bool) (soon : List Event)
    (last : ℕ → List Event) (fits : asked ≤ max) (soon_idle : Idle under_way soon)
    (last_idle : (n : ℕ) → Idle ended (last n)) (soon_asks : All (Asks max) soon)
    (last_asks : (n : ℕ) → All (Asks max) (last n)) where
  All-join :
      (xs ys : List Event) → All (Asks max) xs → All (Asks max) ys → All (Asks max) (xs ++ ys)
  All-join [] ys h k = k
  All-join (x ∷ xs) ys h k = (h.0, All-join xs ys h.1 k)

  waiting_end :
      (rest : List Event) → advance_all under_way (waiting b ++ rest) ≡ advance_all ended rest
  waiting_end rest =
      if_cases (λ (es : List Event). advance_all under_way (es ++ rest) ≡ advance_all ended rest)
        b.ctx_done (cancel ∷ wait ∷ []) (wait ∷ []) (λ e. refl) (λ e. refl)

  waiting-Asks : All (Asks max) (waiting b)
  waiting-Asks =
      if_cases (All (Asks max)) b.ctx_done (cancel ∷ wait ∷ []) (wait ∷ []) (λ e. (tt, (tt, tt)))
        (λ e. (tt, tt))

  submitted-Freed :
      (o : Option UsbErrCode)
      → b.submit_error ≡ o
      → Freed b len max (submitted b (submit endpoint asked zlp) soon last)
  submitted-Freed (some code) e = rw e (refl, (tt, (tt, (fits, (tt, (tt, tt))))), refl)
  submitted-Freed none e = rw e (
    ap (advance_all under_way) (append_assoc soon (waiting b ++ last n) freeing)
        ∙ soon_idle ((waiting b ++ last n) ++ freeing)
        ∙ ap (advance_all under_way) (append_assoc (waiting b) (last n) freeing)
        ∙ waiting_end (last n ++ freeing)
        ∙ last_idle n freeing,
    (
      tt,
      (
        tt,
        (
          fits,
          All-join (soon ++ (waiting b ++ last n)) freeing
              (All-join soon (waiting b ++ last n) soon_asks
                (All-join (waiting b) (last n) waiting-Asks (last_asks n)))
              (tt, (tt, tt)),
        ),
      ),
    ),
    status_decode-Counted b len b.status refl,
  )
    where
      n : ℕ
      n = (status_decode b.ctx_err_at_end b.status b.actual_length).0

      freeing : List Event
      freeing = delete_channel ∷ free_transfer ∷ []

  begun-Freed :
      (asked ≡ 0 → len ≡ 0) → Freed b len max (begun b asked (submit endpoint asked zlp) soon last)
  begun-Freed h = by_ctx b.ctx_err
    where
      by_len : Freed b len max (filled b asked (submit endpoint asked zlp) soon last)
      by_len =
          if_cases (Freed b len max) (asked == 0) (record { result = none; events = allocated [] })
            (submitted b (submit endpoint asked zlp) soon last)
            (λ e. (refl, (tt, (tt, (tt, (tt, tt)))), h (ground (arith, e))))
            (λ e. submitted-Freed b.submit_error refl)

      by_ctx :
          (o : Option CtxError)
          → Freed b len max (elim o [
            | some e ↦ record { result = some (0, some (ctx e)); events = [] }
            | none ↦
                if b.allocates
                then filled b asked (submit endpoint asked zlp) soon last
                else record {
                  result = some (failure (codes "libusb_alloc_transfer") usb_enomem);
                  events = [];
                }
          ])
      by_ctx (some e) = (refl, tt, refl)
      by_ctx none =
          if_cases (Freed b len max) b.allocates
            (filled b asked (submit endpoint asked zlp) soon last) _ (λ e. by_len)
            (λ e. (refl, tt, refl))

send_delay-Idle : (delay threshold n : ℕ) → Idle ended (send_delay delay threshold n)
send_delay-Idle delay threshold n rest =
    if_cases (λ (es : List Event). advance_all ended (es ++ rest) ≡ advance_all ended rest)
      (not (delay == 0) && ltb threshold n) (sleep delay ∷ []) [] (λ e. refl) (λ e. refl)

send_delay-Asks : (max delay threshold n : ℕ) → All (Asks max) (send_delay delay threshold n)
send_delay-Asks max delay threshold n =
    if_cases (All (Asks max)) (not (delay == 0) && ltb threshold n) (sleep delay ∷ []) []
      (λ e. (tt, tt)) (λ e. tt)

-- `Send` asks libusb for no more than its data, and `Recv` for no more than its buffer and than 16384
-- bytes. Both take their transfer out of the map and free it once it has ended, on every path, that
-- of a panic included, and leave none; they panic, if at all, for an empty buffer. A count of bytes
-- that is returned without an error is that of a completed transfer, and an error comes with none.
pub send-recv-Freed :
    (zlp_send : Bool) (delay threshold endpoint : ℕ) (b : Bulk) (len : ℕ)
    → Freed b len len (send zlp_send delay threshold endpoint b len)
      × (Freed b len len (recv endpoint b len) × Freed b len 16384 (recv endpoint b len))
unfolding send recv
send-recv-Freed zlp_send delay threshold endpoint b len = (
  begun-Freed b len len endpoint len zlp_send [] _ (omega arith) (λ rest. refl)
      (send_delay-Idle delay threshold) tt (send_delay-Asks len delay threshold) (λ e. e),
  (
    begun-Freed b len len (bit_or endpoint 0x80) (limited len) false (interrupt ∷ []) (λ n. [])
        (ground arith) (λ rest. refl) (λ n rest. refl) (tt, tt) (λ n. tt) (λ e. ground (arith, e)),
    begun-Freed b len 16384 (bit_or endpoint 0x80) (limited len) false (interrupt ∷ []) (λ n. [])
        (ground arith) (λ rest. refl) (λ n rest. refl) (tt, tt) (λ n. tt) (λ e. ground (arith, e)),
  ),
)
