-- ===== src/Uuid.antt =====
-- uuid.go: UUIDNormalize. Of the runes that `bytes.ToLower` changes, only the letters A to Z matter:
-- no other becomes a hexadecimal digit or a part of a prefix.
-- Child: Uuid/Canonical (its results).
pub mod Canonical
use ipp_usb.Base.{
  ℕ, zero, suc, ◌+◌, Bool, true, false, ◌&&◌, ◌||◌, leb, ◌==◌, if◌then◌else◌, Option, none, some,
  List, [], ◌∷◌, ◌++◌, map, Bytes, codes, to_lower_byte, has_prefix, take, drop, within,
}

-- '0' to '9', or 'a' to 'f'.
abbrev pub is_digit : ℕ → Bool
is_digit c = (leb 48 c && leb c 57) || (leb 97 c && leb c 102)

abbrev pub noted : ℕ → Option Bytes → Option Bytes
noted c none = none
noted c (some digits) = some (c ∷ digits)

-- The loop, with `cnt` digits in the buffer: the digits that are added to it, or `none` where the
-- code returns an empty string.
unfoldable pub collect : ℕ → Bytes → Option Bytes
collect cnt [] = if cnt == 32 then some [] else none
collect cnt (c ∷ input) =
    let more = noted c (collect (suc cnt) input) in
    let rest = collect cnt input in if is_digit c then if cnt == 32 then none else more else rest

abbrev pub formatted : Option Bytes → Bytes
formatted none = []
formatted (some buf) =
    let node = 45 ∷ drop 20 buf in
    let clock = 45 ∷ (take 4 (drop 16 buf) ++ node) in
    let version = 45 ∷ (take 4 (drop 12 buf) ++ clock) in
    take 8 buf ++ 45 ∷ (take 4 (drop 8 buf) ++ version)

abbrev pub without_prefix : Bytes → ℕ → Bytes → Bytes
without_prefix prefix n input = if has_prefix input prefix then drop n input else input

abbrev pub stripped : Bytes → Bytes
stripped input = without_prefix (codes "uuid:") 5 (without_prefix (codes "urn:") 4 input)

unfoldable pub uuid_normalize : Bytes → Bytes
unfolding collect has_prefix to_lower_byte
uuid_normalize uuid = formatted (collect 0 (stripped (map to_lower_byte uuid)))
