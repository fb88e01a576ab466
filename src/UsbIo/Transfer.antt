-- ===== src/UsbIo/Transfer.antt =====
-- usbio_libusb.go: `libusbTransferStatusDecode`, `Send` and `Recv`, with `libusbTransferAlloc` and
-- `libusbTransferFree`. A transfer is told as the sequence of what is done.
-- Child: Transfer/Freed (how transfers end).
pub mod Freed
use Prim.Native.Nat.{bit_or}
use ipp_usb.Base.{
  ℕ, Bool, true, false, not, ◌&&◌, ltb, ◌==◌, if◌then◌else◌, Option, none, some, List, [], ◌∷◌,
  ◌++◌, Bytes, codes,
}
use ipp_usb.UsbIo.{
  UsbErrCode, usb_eio, usb_epipe, usb_eoverflow, usb_eno_dev, usb_eother, usb_enomem, UsbError,
}

-- `ctx.Err()`
pub data CtxError : Type 0 where
  canceled deadline_exceeded : CtxError

pub data TransferError : Type 0 where
  ctx : CtxError → TransferError
  usb : UsbError → TransferError

-- The status of a transfer that has ended.
pub data TransferStatus : Type 0 where
  completed cancelled timed_out stall overflow no_device transfer_error unknown : TransferStatus

-- A number of bytes, and an error, if any.
abbrev pub Count : Type 0
Count = ℕ × Option TransferError

abbrev pub failure : Bytes → UsbErrCode → Count
failure func code = (0, some (usb (record { func = func; code = code })))

abbrev pub failed_transfer : UsbErrCode → Count
failed_transfer code = failure (codes "libusb_submit_transfer") code

abbrev pub cancelled_by : Option CtxError → Count
cancelled_by none = failed_transfer usb_eio
cancelled_by (some e) = (0, some (ctx e))

-- `libusbTransferStatusDecode`
unfoldable pub status_decode : Option CtxError → TransferStatus → ℕ → Count
status_decode ctx_err completed actual_length = (actual_length, none)
status_decode ctx_err cancelled actual_length = cancelled_by ctx_err
status_decode ctx_err timed_out actual_length = (0, some (ctx deadline_exceeded))
status_decode ctx_err stall actual_length = failed_transfer usb_epipe
status_decode ctx_err overflow actual_length = failed_transfer usb_eoverflow
status_decode ctx_err no_device actual_length = failed_transfer usb_eno_dev
status_decode ctx_err transfer_error actual_length = failed_transfer usb_eio
status_decode ctx_err unknown actual_length = failed_transfer usb_eother

-- What is done: a transfer is allocated and put in the map of channels, submitted to an endpoint
-- with a length and with the flag for a zero packet, cancelled, waited for, taken out of the map
-- and freed.
pub data Event : Type 0 where
  alloc_transfer put_channel : Event
  submit : ℕ → ℕ → Bool → Event
  interrupt cancel wait : Event
  delete_channel free_transfer : Event
  sleep : ℕ → Event

-- What the context and libusb answer: `ctx.Err()` at the start and at the end, whether a transfer is
-- allocated, the error of its submission, if any, whether the context is done before the transfer,
-- and how that ends.
pub record Bulk : Type 0 where
  pub ctx_err : Option CtxError
  pub allocates : Bool
  pub submit_error : Option UsbErrCode
  pub ctx_done : Bool
  pub ctx_err_at_end : Option CtxError
  pub status : TransferStatus
  pub actual_length : ℕ

-- What is returned, or none where the code panics, and what was done.
pub record Transferred : Type 0 where
  pub result : Option Count
  pub events : List Event

abbrev pub allocated : List Event → List Event
allocated events = alloc_transfer ∷ put_channel ∷ (events ++ delete_channel ∷ free_transfer ∷ [])

abbrev pub waiting : Bulk → List Event
waiting b = if b.ctx_done then cancel ∷ wait ∷ [] else wait ∷ []

-- The pause of `Send` after `n` bytes.
abbrev pub send_delay : ℕ → ℕ → ℕ → List Event
send_delay delay threshold n = if not (delay == 0) && ltb threshold n then sleep delay ∷ [] else []

-- From the submission on, with what is done after it at once and at the end.
abbrev pub submitted : Bulk → Event → List Event → (ℕ → List Event) → Transferred
submitted b event soon last = elim b.submit_error [
  | some code ↦ record { result = some (failed_transfer code); events = allocated (event ∷ []) }
  | none ↦
      let count = status_decode b.ctx_err_at_end b.status b.actual_length in
      record {
        result = some count;
        events = allocated (event ∷ (soon ++ (waiting b ++ last count.0)));
      }
]

-- `&data[0]` panics where there is no data.
abbrev pub filled : Bulk → ℕ → Event → List Event → (ℕ → List Event) → Transferred
filled b len event soon last =
    if len == 0
    then record { result = none; events = allocated [] }
    else submitted b event soon last

abbrev pub begun : Bulk → ℕ → Event → List Event → (ℕ → List Event) → Transferred
begun b len event soon last = elim b.ctx_err [
  | some e ↦ record { result = some (0, some (ctx e)); events = [] }
  | none ↦ if b.allocates then filled b len event soon last else record {
    result = some (failure (codes "libusb_alloc_transfer") usb_enomem);
    events = [];
  }
]

-- `Send` of `len` bytes to the endpoint `output`, with the quirks `zlp-send`, `usb-send-delay` and
-- `usb-send-delay-threshold`.
unfoldable pub send : Bool → ℕ → ℕ → ℕ → Bulk → ℕ → Transferred
unfolding status_decode
send zlp_send delay threshold output b len =
    begun b len (submit output len zlp_send) [] (send_delay delay threshold)

abbrev pub max_bulk_read : ℕ
max_bulk_read = 16384

abbrev pub limited : ℕ → ℕ
limited len = if ltb max_bulk_read len then max_bulk_read else len

-- `Recv` into `len` bytes from the endpoint `input`.
unfoldable pub recv : ℕ → Bulk → ℕ → Transferred
unfolding status_decode
recv input b len =
    begun b (limited len) (submit (bit_or input 0x80) (limited len) false) (interrupt ∷ [])
      (λ n. [])
