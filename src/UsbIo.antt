-- ===== src/UsbIo.antt =====
-- usbio_libusb.go: the layer over libusb. What libusb answers is a parameter of the model: a function
-- of it fails with a code, or gives what it is called for. Logging is left out.
-- Children: UsbIo/Descriptor (the devices that are found) and UsbIo/Transfer (`Send` and `Recv`).
pub mod Descriptor
pub mod Transfer
use ipp_usb.Base.{ℕ, Bool, true, false, Option, none, some, Bytes}

-- The codes of libusb's errors.
pub data UsbErrCode : Type 0 where
  usb_eio usb_einval usb_eaccess usb_eno_dev usb_enot_found usb_ebusy : UsbErrCode
  usb_etimeout usb_eoverflow usb_epipe usb_eintr usb_enomem usb_enot_supported : UsbErrCode
  usb_eother : UsbErrCode
  usb_code : ℕ → UsbErrCode

-- The function that failed, and its code.
pub record UsbError : Type 0 where
  pub func : Bytes
  pub code : UsbErrCode

-- What `IsDeviceDisconnect` looks for: an error of libusb with the code of a device that is gone.
unfoldable pub is_device_disconnect : Option UsbError → Bool
is_device_disconnect none = false
is_device_disconnect (some err) = elim err.code [ usb_eno_dev ↦ true | _ ↦ false ]
