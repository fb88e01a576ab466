-- ===== src/UsbCommon/Identity.antt =====
-- `Ident` of usbcommon.go.
use ipp_usb.Base.{ℕ, zero, suc, ◌≡◌, Bool, true, ◌||◌, ◌==◌, [], ◌∷◌, Bytes, within, All, arith}
use ipp_usb.UsbCommon.{UsbDeviceInfo, ident_byte, map_runes, ident}

-- Letters, digits, dashes and underscores.
abbrev pub is_ident_byte : ℕ → Bool
is_ident_byte c =
    within b'0' b'9' c || within b'a' b'z' c || within b'A' b'Z' c || c == b'-' || c == b'_'

ident_byte-is_ident_byte : (c : ℕ) → is_ident_byte (ident_byte c) ≡ true
unfolding ident_byte
ident_byte-is_ident_byte c = ground arith

map_runes-All : (n : ℕ) (s : Bytes) → All (λ c. is_ident_byte c ≡ true) (map_runes n s)
unfolding map_runes
map_runes-All n [] = tt
map_runes-All zero (c ∷ s) = (ident_byte-is_ident_byte c, map_runes-All _ s)
map_runes-All (suc n) (c ∷ s) = map_runes-All n s

-- Whatever texts a device reports, its identification holds only letters, digits, dashes and
-- underscores.
pub ident-All :
    (hex4 : ℕ → Bytes) (info : UsbDeviceInfo) → All (λ c. is_ident_byte c ≡ true) (ident hex4 info)
unfolding ident
ident-All hex4 info = map_runes-All 0 _
