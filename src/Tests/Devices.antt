-- ===== src/Tests/Devices.antt =====
-- Devices on the bus, their names, and the quirks of a small data base.
use ipp_usb.Base.{
  ℕ, ◌+◌, ◌≡◌, ◌≢◌, ◌⊎◌, ◌↔◌, inl, inr, refl, ap, true, false, ◌==◌, if◌then◌else◌, Option, none,
  some, List, [], ◌∷◌, ◌++◌, Bytes, codes, bytes_eq, All, Occurs, ℤ, pos, arith, length, ◌≤◌,
}
use mathlib.Core.List.{Perm}
use ipp_usb.Glob.{glob_match}
use ipp_usb.Glob.Items.{items, Matches, literals}
use ipp_usb.Glob.Matching.{glob_match-Decided}
use ipp_usb.Glob.Matching.Stars.{Decided}
use ipp_usb.Hwid.{HwidPattern, parse_hwid_pattern, match_hwid}
use ipp_usb.Hwid.Parsing.{format, parse-format}
use ipp_usb.Paper
use ipp_usb.Paper.{
  PaperSize, paper_a4, paper_legal, classify, less_trans, classify_mono, classify-below_iff,
  below_legal_a4,
}
use ipp_usb.UsbCommon.{UsbAddr, less, add, find, diff, UsbDeviceInfo, map_runes, ident}
use ipp_usb.UsbCommon.Order.{IsSorted, rank}
use ipp_usb.UsbCommon.Lookup.{Located, find-Located}
use ipp_usb.UsbCommon.Insertion.{add-Perm, add-IsSorted_iff, add_greatest}
use ipp_usb.UsbCommon.Difference.{without, diff-without}
use ipp_usb.UsbCommon.Identity.{is_ident_byte, ident-All}
use ipp_usb.Quirks.Parsing.{Quirk, str, default, quirk_parse}
use ipp_usb.Quirks.{Quirks, new_quirks, pull_by_hwid, pull_by_model_name}
use ipp_usb.Quirks.Selection.Saving.{Best, slot}
use ipp_usb.Quirks.Selection.{hwid_matching, model_matching, pull-Best}
use ipp_usb.Quirks.Typing.{AllTyped, getters_never_panic}
use ipp_usb.Quirks.Files.{read_file}
use ipp_usb.Quirks.Loaded.{FileTyped, read_file-Typed}
use ipp_usb.Quirks.Getters.{
  get_blacklist, get_buggy_ipp_rsp, get_disable_fax, get_ignore_ipp_status, get_init_delay,
  get_init_retry_partial, get_init_reset, get_init_timeout, get_mfg, get_model, get_request_delay,
  get_usb_max_interfaces, get_usb_send_delay_threshold, get_usb_send_delay, get_zlp_recv_hack,
  get_zlp_send,
}

glob_match-Decided_example :
    Decided
      (Matches (items (codes "HP*4?")) (codes "HP Laser 40"))
      (literals (items (codes "HP*4?")))
      (glob_match (codes "HP Laser 40") (codes "HP*4?"))
glob_match-Decided_example = glob_match-Decided (codes "HP Laser 40") (codes "HP*4?")

abbrev pattern : HwidPattern
pattern = record { vid = 0x03f0; pid = 0x2b17; anypid = false }

parse-format_example : parse_hwid_pattern (format pattern) ≡ some pattern
parse-format_example = parse-format pattern (omega arith) (omega arith) (λ e. cc e)

pattern_weighs : match_hwid pattern 0x03f0 0x2b17 ≡ pos 1000
unfolding match_hwid
pattern_weighs = refl

abbrev paper_a5 : PaperSize
paper_a5 = record { width = 14800; height = 21000 }

a5-less : Paper.less paper_a5 paper_a4 ≡ true
unfolding Paper.less
a5-less = refl

a4-less : Paper.less paper_a4 paper_legal ≡ true
unfolding Paper.less
a4-less = refl

abbrev at : ℕ → ℕ → UsbAddr
at bus address = record { bus = bus; address = address }

abbrev listed : List UsbAddr
listed = at 1 2 ∷ at 1 5 ∷ at 2 1 ∷ []

listed-IsSorted : IsSorted listed
unfolding less
listed-IsSorted = ((refl, (refl, tt)), ((refl, tt), (tt, tt)))

find-Located_example : Located listed (at 1 5) (find listed (at 1 5))
find-Located_example = find-Located listed (at 1 5) listed-IsSorted

add-Perm_example :
    ((add listed (at 1 3) ≡ listed) × Occurs (at 1 3) listed)
    ⊎ Perm (add listed (at 1 3)) (at 1 3 ∷ listed)
add-Perm_example = add-Perm listed (at 1 3)

not_listed : ¬ Occurs (at 1 3) listed
not_listed (inl e) = absurd (omega (arith, ap (λ (a : UsbAddr). a.address) e))
not_listed (inr (inl e)) = absurd (omega (arith, ap (λ (a : UsbAddr). a.address) e))
not_listed (inr (inr (inl e))) = absurd (omega (arith, ap (λ (a : UsbAddr). a.address) e))
not_listed (inr (inr (inr x))) = absurd x

add-IsSorted_iff_example :
    IsSorted (add listed (at 1 3)) ↔ (length listed ≤ rank listed (at 1 3) + 1)
add-IsSorted_iff_example = add-IsSorted_iff listed (at 1 3) listed-IsSorted not_listed

add_greatest_example : add listed (at 3 1) ≡ listed ++ at 3 1 ∷ []
unfolding less
add_greatest_example = add_greatest listed (at 3 1) (refl, (refl, (refl, tt)))

abbrev now_listed : List UsbAddr
now_listed = at 1 2 ∷ at 2 1 ∷ at 2 4 ∷ []

now_listed-IsSorted : IsSorted now_listed
unfolding less
now_listed-IsSorted = ((refl, (refl, tt)), ((refl, tt), (tt, tt)))

diff-without_example :
    diff listed now_listed ≡ (without listed now_listed, without now_listed listed)
diff-without_example = diff-without listed now_listed listed-IsSorted now_listed-IsSorted

abbrev device : UsbDeviceInfo
device = record {
  vendor = 0x03f0;
  product = 0x2b17;
  serial_number = codes "A/1";
  manufacturer = codes "HP";
  product_name = codes "HP Laser";
  port_num = 1;
  basic_caps = 0;
}

abbrev hex4 : ℕ → Bytes
hex4 n = if n == 0x03f0 then codes "03f0" else codes "2b17"

ident-All_example : All (λ c. is_ident_byte c ≡ true) (ident hex4 device)
ident-All_example = ident-All hex4 device

-- A rune of two bytes becomes one dash.
ident_umlaut : map_runes 0 (codes "K" ++ 0xC3 ∷ 0xB6 ∷ codes "ln") ≡ codes "K-ln"
unfolding map_runes
ident_umlaut = refl

ident_device : ident hex4 device ≡ codes "03f0-2b17-A-1-HP-Laser"
unfolding ident
ident_device = refl

-- Go's canonical form matters to header names only.
abbrev canonical : Bytes → Bytes
canonical name = name

-- time.ParseDuration, on the one duration that is used here.
abbrev duration_text : Bytes → Option ℤ
duration_text s = if bytes_eq s (codes "5s") then some (pos 5000000000) else none

abbrev quirk : Bytes → Bytes → ℕ → Quirk
quirk match value order = record {
  origin = default;
  match = match;
  match_hwid = none;
  name = codes "mfg";
  raw_value = value;
  parsed = str value;
  load_order = order;
}

-- Two sections: one for all devices, and one for those of a maker.
abbrev everywhere : Quirk
everywhere = quirk (codes "*") (codes "Any") 1

abbrev hp_only : Quirk
hp_only = quirk (codes "HP*") (codes "Hewlett") 0

abbrev qdb : List Quirks
qdb =
    record new_quirks { by_name = (codes "mfg", hp_only) ∷ [] }
    ∷ record new_quirks { by_name = (codes "mfg", everywhere) ∷ [] }
    ∷ []

qdb-AllTyped : All AllTyped qdb
unfolding quirk_parse bytes_eq
qdb-AllTyped = (((refl, tt), tt), (((refl, tt), tt), tt))

pull-Best_example :
    Best (codes "mfg") (hwid_matching 1 2 qdb ++ model_matching (codes "HP Laser") qdb) (
      slot (codes "mfg") (
        pull_by_model_name canonical
          (pull_by_hwid canonical new_quirks qdb 1 2)
          qdb
          (codes "HP Laser")))
pull-Best_example = pull-Best canonical qdb 1 2 (codes "HP Laser") (codes "mfg")

-- The lines of a quirks file.
abbrev quirks_file : Bytes
quirks_file = codes "[HP*]\nmfg = Hewlett\nhttp-connection = close\n"

read_file-Typed_example :
    FileTyped canonical duration_text
      (read_file canonical duration_text (codes "q.conf") quirks_file [])
read_file-Typed_example =
    read_file-Typed canonical duration_text (codes "q.conf") quirks_file [] refl tt

five_seconds : duration_text (codes "5s") ≡ some (pos 5000000000)
unfolding bytes_eq
five_seconds = refl

abbrev hp_quirks : Quirks
hp_quirks = record new_quirks { by_name = (codes "mfg", hp_only) ∷ [] }

hp_quirks-AllTyped : AllTyped hp_quirks
hp_quirks-AllTyped = qdb-AllTyped.0

getters_never_panic_example :
    (get_blacklist duration_text hp_quirks ≢ none)
    × (get_buggy_ipp_rsp duration_text hp_quirks ≢ none)
    × (get_disable_fax duration_text hp_quirks ≢ none)
    × (get_ignore_ipp_status duration_text hp_quirks ≢ none)
    × (get_init_delay duration_text hp_quirks ≢ none)
    × (get_init_retry_partial duration_text hp_quirks ≢ none)
    × (get_init_reset duration_text hp_quirks ≢ none)
    × (get_init_timeout duration_text hp_quirks ≢ none)
    × (get_mfg duration_text hp_quirks ≢ none)
    × (get_model duration_text hp_quirks ≢ none)
    × (get_request_delay duration_text hp_quirks ≢ none)
    × (get_usb_max_interfaces duration_text hp_quirks ≢ none)
    × (get_usb_send_delay_threshold duration_text hp_quirks ≢ none)
    × (get_usb_send_delay duration_text hp_quirks ≢ none)
    × (get_zlp_recv_hack duration_text hp_quirks ≢ none)
    × (get_zlp_send duration_text hp_quirks ≢ none)
getters_never_panic_example =
    getters_never_panic duration_text hp_quirks hp_quirks-AllTyped 5000000000 five_seconds
