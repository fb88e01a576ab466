-- ===== src/UsbCommon.antt =====
-- usbcommon.go: USB addresses and sorted lists of them, interface and device descriptors, and the
-- texts that identify a device. Bus and address numbers are Go `int`s that are not negative here.
-- Children: UsbCommon/Search (`sort.Search`), UsbCommon/Lookup (`Find`), UsbCommon/Insertion
-- (`Add`), UsbCommon/Difference (`Diff`), UsbCommon/Identity (`Ident`) and UsbCommon/DeviceUuid (`UUID`).
pub mod Order
pub mod Search
pub mod Lookup
pub mod Insertion
pub mod Difference
pub mod Identity
pub mod DeviceUuid
use ipp_usb.Base.{
  ℕ, ◌+◌, ◌≡◌, Bool, true, false, not, ◌&&◌, ◌||◌, ltb, ◌==◌, if◌then◌else◌, Option, none, some,
  List, [], ◌∷◌, ◌++◌, length, get_elem?, set, ℤ, pos, minus_one, Bytes, codes, bytes_eq,
  has_prefix, trim_space, within, map, zero, suc,
}
use ipp_usb.UsbCommon.Search.{search}

pub record UsbAddr : Type 0 where
  pub bus : ℕ
  pub address : ℕ

unfoldable pub less : UsbAddr → UsbAddr → Bool
less addr addr2 =
    ltb addr.bus addr2.bus || (addr.bus == addr2.bus && ltb addr.address addr2.address)

-- Go's `==` on the struct.
unfoldable pub same : UsbAddr → UsbAddr → Bool
same addr addr2 = addr.bus == addr2.bus && addr.address == addr2.address

-- The test that `Add` and `Find` hand to `sort.Search`. It is asked inside the list only.
unfoldable pub not_less_at : List UsbAddr → UsbAddr → ℕ → Bool
unfolding less
not_less_at list addr n = elim (get_elem? list n) [ none ↦ true | some a ↦ not (less a addr) ]

-- The smallest index of an item that is not less than the address.
abbrev pub lower_bound : List UsbAddr → UsbAddr → ℕ
lower_bound list addr = search (length list) (not_less_at list addr)

abbrev pub holds : Option UsbAddr → UsbAddr → Bool
holds none addr = false
holds (some a) addr = same a addr

-- `Add` behind its search, at the item of index `i`: at the end of the list the address is
-- appended; an equal item is left alone; and any other item moves to the end of the list and
-- leaves its place to the address.
unfoldable pub insert_at : List UsbAddr → UsbAddr → ℕ → Option UsbAddr → List UsbAddr
unfolding same
insert_at list addr i none = list ++ addr ∷ []
insert_at list addr i (some a) = if same a addr then list else set (list ++ a ∷ []) i addr

unfoldable pub add : List UsbAddr → UsbAddr → List UsbAddr
unfolding insert_at not_less_at search
add list addr = let i = lower_bound list addr in insert_at list addr i (get_elem? list i)

unfoldable pub find : List UsbAddr → UsbAddr → ℤ
unfolding not_less_at search same
find list addr =
    let i = lower_bound list addr in if holds (get_elem? list i) addr then pos i else minus_one

abbrev pub is_negative : ℤ → Bool
is_negative (pos n) = false
is_negative (ℤ.negsuc n) = true

-- One of the two loops of `Diff`: adds the addresses of `from` that `list` lacks.
unfoldable pub add_missing : List UsbAddr → List UsbAddr → List UsbAddr → List UsbAddr
unfolding find add
add_missing list out [] = out
add_missing list out (a ∷ from) =
    add_missing list (if is_negative (find list a) then add out a else out) from

-- `Diff`: the addresses to be added, and those to be removed.
unfoldable pub diff : List UsbAddr → List UsbAddr → List UsbAddr × List UsbAddr
unfolding add_missing
diff list list2 = (add_missing list [] list2, add_missing list2 [] list)

pub record UsbIfDesc : Type 0 where
  pub vendor : ℕ
  pub product : ℕ
  pub config : ℕ
  pub if_num : ℕ
  pub alt : ℕ
  pub class : ℕ
  pub sub_class : ℕ
  pub proto : ℕ

unfoldable pub is_ipp_over_usb : UsbIfDesc → Bool
is_ipp_over_usb d =
    if d.class == 7 && d.sub_class == 1 && d.proto == 4
    then true
    else if d.vendor == 0x03f0 && d.class == 255 && d.sub_class == 9 && d.proto == 1
    then true
    else false

pub record UsbDeviceInfo : Type 0 where
  pub vendor : ℕ
  pub product : ℕ
  pub serial_number : Bytes
  pub manufacturer : Bytes
  pub product_name : Bytes
  pub port_num : ℕ
  pub basic_caps : ℕ

abbrev pub is_empty : Bytes → Bool
is_empty [] = true
is_empty (c ∷ s) = false

-- `CheckMissed`: the first text that is missing, or `none`.
pub data Missed : Type 0 where
  manufacturer product_name serial_number : Missed

unfoldable pub check_missed : UsbDeviceInfo → Option Missed
check_missed info =
    if is_empty info.manufacturer
    then some manufacturer
    else if is_empty info.product_name
    then some product_name
    else if is_empty info.serial_number
    then some serial_number
    else none

unfoldable pub make_and_model : UsbDeviceInfo → Bytes
unfolding trim_space has_prefix
make_and_model info =
    let mfg = trim_space info.manufacturer in
    let prod = trim_space info.product_name in
    if not (is_empty mfg) && not (has_prefix prod mfg) then mfg ++ b' ' ∷ prod else prod

-- The runes that `Ident` keeps; any other becomes a dash.
unfoldable pub ident_byte : ℕ → ℕ
ident_byte c =
    if within b'0' b'9' c
    then c
    else if within b'a' b'z' c
    then c
    else if within b'A' b'Z' c
    then c
    else if c == b'-' || c == b'_'
    then c
    else b'-'

-- A byte behind the first of a rune, in UTF-8.
abbrev continues : ℕ → Bool
continues = within 0x80 0xBF

-- What the second byte must be, for each first byte of a rune of three or four bytes.
abbrev second_of_three : ℕ → ℕ → Bool
second_of_three c d =
    if c == 0xE0 then within 0xA0 0xBF d else if c == 0xED then within 0x80 0x9F d else continues d

abbrev second_of_four : ℕ → ℕ → Bool
second_of_four c d =
    if c == 0xF0 then within 0x90 0xBF d else if c == 0xF4 then within 0x80 0x8F d else continues d

-- How many bytes follow the first one in the first rune of a text; a byte that begins
-- no rune stands alone.
abbrev following : ℕ → Bytes → ℕ
following c [] = 0
following c (d ∷ []) = if within 0xC2 0xDF c && continues d then 1 else 0
following c (d ∷ e ∷ []) =
    if within 0xC2 0xDF c && continues d
    then 1
    else if within 0xE0 0xEF c && second_of_three c d && continues e
    then 2
    else 0
following c (d ∷ e ∷ f ∷ s) =
    if within 0xC2 0xDF c && continues d
    then 1
    else if within 0xE0 0xEF c && second_of_three c d && continues e
    then 2
    else if within 0xF0 0xF4 c && second_of_four c d && continues e && continues f
    then 3
    else 0

-- strings.Map of `ident_byte`, behind `n` more bytes of a rune: a rune of several bytes, and a byte
-- that begins no rune, become one dash.
unfoldable pub map_runes : ℕ → Bytes → Bytes
unfolding ident_byte
map_runes n [] = []
map_runes zero (c ∷ s) = ident_byte c ∷ map_runes (following c s) s
map_runes (suc n) (c ∷ s) = map_runes n s

-- `Ident`. `hex4` is the `%4.4x` of fmt.Sprintf.
unfoldable pub ident : (ℕ → Bytes) → UsbDeviceInfo → Bytes
unfolding make_and_model map_runes
ident hex4 info =
    let id = hex4 info.vendor ++ b'-' ∷ hex4 info.product in
    let with_serial =
      if not (is_empty info.serial_number) then id ++ b'-' ∷ info.serial_number else id in
    let model = make_and_model info in
    map_runes 0 (if not (is_empty model) then with_serial ++ b'-' ∷ model else with_serial)

unfoldable pub comment : UsbDeviceInfo → Bytes
unfolding make_and_model
comment info = make_and_model info ++ codes " serial=" ++ info.serial_number
