-- ===== src/UsbCommon/DeviceUuid.antt =====
-- usbcommon.go: `UUID` of UsbDeviceInfo. `sha1` is `crypto/sha1`, of which the code relies on 20
-- bytes. `%.2x` is a byte's two hexadecimal digits.
use Prim.Native.Nat.{bit_and, bit_or}
use ipp_usb.Base.{
  ℕ, suc, ◌+◌, ◌/◌, ◌%◌, ltb, if◌then◌else◌, Option, none, some, [], ◌∷◌, ◌++◌, Bytes, codes,
  get_elem?, set,
}
use ipp_usb.UsbCommon.{UsbDeviceInfo, ident}

abbrev pub hex_digit : ℕ → ℕ
hex_digit d = if ltb d 10 then d + b'0' else d + 87

unfoldable pub hex_bytes : Bytes → Bytes
hex_bytes [] = []
hex_bytes (b ∷ bs) = hex_digit (b / 16 % 16) ∷ hex_digit (b % 16) ∷ hex_bytes bs

abbrev masked : ℕ → ℕ → Option ℕ → ℕ
masked keep fill none = 0
masked keep fill (some b) = bit_or (bit_and b keep) fill

-- The two assignments to a byte of the hash.
abbrev pub with_bits : ℕ → ℕ → ℕ → Bytes → Bytes
with_bits i keep fill hash = set hash i (masked keep fill (get_elem? hash i))

-- `n` bytes of the hash from the byte `i` on; the code panics where there are fewer.
unfoldable pub segment : ℕ → ℕ → Bytes → Bytes
segment i ℕ.zero hash = []
segment i (suc n) hash = elim (get_elem? hash i) [
  | none ↦ []
  | some b ↦ hex_bytes (b ∷ []) ++ segment (suc i) n hash
]

unfoldable pub formatted : Bytes → Bytes
unfolding segment hex_bytes
formatted hash =
    let node = b'-' ∷ segment 10 6 hash in
    let clock = b'-' ∷ (segment 8 2 hash ++ node) in
    let version = b'-' ∷ (segment 6 2 hash ++ clock) in
    segment 0 4 hash ++ b'-' ∷ (segment 4 2 hash ++ version)

unfoldable pub device_uuid : (Bytes → Bytes) → (ℕ → Bytes) → UsbDeviceInfo → Bytes
unfolding formatted ident
device_uuid sha1 hex4 info =
    let name = codes "fe678de6-f422-467e-9f83-2354e26c3b41" ++ ident hex4 info in
    formatted (with_bits 8 0x3f 0x80 (with_bits 6 0x0f 0x5f (sha1 name)))
