-- ===== src/Hwid.antt =====
-- hwid.go: patterns that match USB devices by vendor and product ID.
-- Child: Hwid/Parsing (what the parser accepts, and that it reads back printed patterns).
pub mod Parsing
use ipp_usb.Base.{
  ℕ, ◌≡◌, Bool, true, false, not, ◌&&◌, ◌||◌, Option, none, some, ◌∷◌, [], Bytes, codes, ◌==◌,
  if◌then◌else◌, length, get_elem?, take, drop, bytes_eq, parse_uint, ℤ, pos, minus_one,
}

-- Vendor and product IDs are Go `uint16`s.
pub record HwidPattern : Type 0 where
  pub vid : ℕ
  pub pid : ℕ
  pub anypid : Bool

abbrev pub is_colon : Option ℕ → Bool
is_colon none = false
is_colon (some c) = c == b':'

-- The part behind the colon: the product ID, or any if it is a star.
unfoldable pub parse_pid : ℕ → Bytes → Option HwidPattern
unfolding bytes_eq parse_uint
parse_pid vid str_pid =
    if bytes_eq str_pid (codes "*")
    then some (record { vid = vid; pid = 0; anypid = true })
    else elim (parse_uint str_pid 16 16) [
      | none ↦ none
      | some pid ↦ some (record { vid = vid; pid = pid; anypid = false })
    ]

unfoldable pub parse_hwid_pattern : Bytes → Option HwidPattern
unfolding parse_pid
parse_hwid_pattern pattern =
    if not (length pattern == 6) && not (length pattern == 9)
    then none
    else if not (is_colon (get_elem? pattern 4))
    then none
    else elim (parse_uint (take 4 pattern) 16 16) [
      | none ↦ none
      | some vid ↦ parse_pid vid (drop 5 pattern)
    ]

-- `Match`: the weight of the match, or -1.
unfoldable pub match_hwid : HwidPattern → ℕ → ℕ → ℤ
match_hwid p vid pid =
    let ok = vid == p.vid && (p.anypid || pid == p.pid) in
    if not ok then minus_one else if p.anypid then pos 1 else pos 1000
