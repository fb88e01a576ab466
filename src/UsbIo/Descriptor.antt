-- ===== src/UsbIo/Descriptor.antt =====
-- usbio_libusb.go: `UsbGetIppOverUsbDeviceDescs` and `libusbBuildUsbDeviceDesc`. What libusb tells of
-- a device is a `UsbDevice`; a `none` in it is an error of libusb. A C array is the list of its
-- elements.
-- Child: Descriptor/Consistent (what a descriptor says).
pub mod Consistent
use Prim.Native.Nat.{bit_and}
use ipp_usb.Base.{
  ℕ, suc, ◌+◌, Bool, true, false, not, ◌&&◌, ◌||◌, leb, ◌==◌, if◌then◌else◌, Option, none, some,
  List, [], ◌∷◌, ◌++◌, length, ℤ, pos, negsuc, minus_one,
}
use ipp_usb.UsbCommon.{UsbAddr, same, UsbIfDesc, is_ipp_over_usb}
use ipp_usb.UsbTransport.Opening.{UsbIfAddr, UsbDeviceDesc}

-- An alternate setting of an interface, with the addresses of its endpoints.
pub record AltSetting : Type 0 where
  pub interface_number : ℕ
  pub alternate_setting : ℕ
  pub interface_class : ℕ
  pub interface_sub_class : ℕ
  pub interface_protocol : ℕ
  pub endpoints : List ℕ

pub record Config : Type 0 where
  pub configuration_value : ℕ
  pub interfaces : List (List AltSetting)

pub record UsbDevice : Type 0 where
  pub addr : UsbAddr
  pub descriptor : Option (ℕ × ℕ)
  pub configs : List (Option Config)

abbrev pub is_unset : ℤ → Bool
is_unset (pos n) = false
is_unset (negsuc n) = true

abbrev pub or_set : ℤ → ℕ → ℤ
or_set old num = if is_unset old then pos num else old

-- The loop over the endpoints: `in` and `out`.
unfoldable pub find_endpoints : ℤ → ℤ → List ℕ → ℤ × ℤ
find_endpoints input output [] = (input, output)
find_endpoints input output (ep ∷ endpoints) =
    let num = bit_and ep 0xf in
    if bit_and ep 0x80 == 0x80
    then find_endpoints (or_set input num) output endpoints
    else find_endpoints input (or_set output num) endpoints

abbrev pub interface_of : ℕ → ℕ → Config → AltSetting → UsbIfDesc
interface_of vendor product conf alt = record {
  vendor = vendor;
  product = product;
  config = conf.configuration_value;
  if_num = alt.interface_number;
  alt = alt.alternate_setting;
  class = alt.interface_class;
  sub_class = alt.interface_sub_class;
  proto = alt.interface_protocol;
}

-- The interface is added if it has endpoints of both directions.
abbrev pub add_interface : Config → AltSetting → UsbDeviceDesc → ℤ × ℤ → UsbDeviceDesc
add_interface conf alt desc (pos input, pos output) = record desc {
  config = pos conf.configuration_value;
  if_addrs =
      desc.if_addrs
      ++ record {
        addr = desc.addr;
        num = alt.interface_number;
        alt = alt.alternate_setting;
        input = input;
        output = output;
      }
        ∷ [];
}
add_interface conf alt desc _ = desc

unfoldable pub add_alt : Config → AltSetting → UsbDeviceDesc → UsbDeviceDesc
unfolding is_ipp_over_usb find_endpoints
add_alt conf alt desc =
    let ifdesc = interface_of desc.vendor desc.product conf alt in
    let described = record desc { if_descs = desc.if_descs ++ ifdesc ∷ [] } in
    if is_ipp_over_usb ifdesc
    then add_interface conf alt described (find_endpoints minus_one minus_one alt.endpoints)
    else described

unfoldable pub add_alts : Config → List AltSetting → UsbDeviceDesc → UsbDeviceDesc
unfolding add_alt
add_alts conf [] desc = desc
add_alts conf (alt ∷ alts) desc = add_alts conf alts (add_alt conf alt desc)

unfoldable pub add_interfaces : Config → List (List AltSetting) → UsbDeviceDesc → UsbDeviceDesc
unfolding add_alts
add_interfaces conf [] desc = desc
add_interfaces conf (alts ∷ ifaces) desc = add_interfaces conf ifaces (add_alts conf alts desc)

-- Whether another configuration is in use already.
abbrev pub other_config : ℤ → Config → Bool
other_config (negsuc n) conf = false
other_config (pos n) conf = not (n == conf.configuration_value)

-- The loop over the configurations, with the number of their descriptors that are not freed.
unfoldable pub add_configs : List (Option Config) → UsbDeviceDesc → ℕ → UsbDeviceDesc × ℕ
unfolding add_interfaces
add_configs [] desc held = (desc, held)
add_configs (none ∷ configs) desc held = add_configs configs desc held
add_configs (some conf ∷ configs) desc held =
    if other_config desc.config conf
    then add_configs configs desc (suc held)
    else add_configs configs (add_interfaces conf conf.interfaces desc) held

abbrev pub empty_desc : UsbAddr → ℕ × ℕ → UsbDeviceDesc
empty_desc addr (vendor, product) = record {
  addr = addr;
  vendor = vendor;
  product = product;
  config = minus_one;
  if_addrs = [];
  if_descs = [];
}

-- `libusbBuildUsbDeviceDesc`, where the device's descriptor can be read.
abbrev pub build_from : UsbDevice → Option (ℕ × ℕ) → Option (UsbDeviceDesc × ℕ)
build_from dev none = none
build_from dev (some ids) = some (add_configs dev.configs (empty_desc dev.addr ids) 0)

unfoldable pub build_usb_device_desc : UsbDevice → Option (UsbDeviceDesc × ℕ)
unfolding add_configs
build_usb_device_desc dev = build_from dev dev.descriptor

-- `descs[desc.UsbAddr] = desc`
unfoldable pub put_desc : UsbDeviceDesc → List UsbDeviceDesc → List UsbDeviceDesc
unfolding same
put_desc desc [] = desc ∷ []
put_desc desc (d ∷ descs) = if same d.addr desc.addr then desc ∷ descs else d ∷ put_desc desc descs

abbrev pub put_if_printer : Option (UsbDeviceDesc × ℕ) → List UsbDeviceDesc → List UsbDeviceDesc
put_if_printer none descs = descs
put_if_printer (some (desc, held)) descs =
    if leb 2 (length desc.if_addrs) then put_desc desc descs else descs

unfoldable pub collect : List UsbDevice → List UsbDeviceDesc → List UsbDeviceDesc
unfolding build_usb_device_desc put_desc
collect [] descs = descs
collect (dev ∷ devs) descs = collect devs (put_if_printer (build_usb_device_desc dev) descs)

-- `UsbGetIppOverUsbDeviceDescs`, of the list of devices, if libusb gives one.
unfoldable pub get_ipp_over_usb_device_descs : Option (List UsbDevice) → Option (List UsbDeviceDesc)
unfolding collect
get_ipp_over_usb_device_descs none = none
get_ipp_over_usb_device_descs (some devs) = some (collect devs [])
