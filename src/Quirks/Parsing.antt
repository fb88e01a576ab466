-- ===== src/Quirks/Parsing.antt =====
-- Quirks, the types of their values, and the parsers (quirks.go).
use ipp_usb.Base.{
  ℕ, ◌*◌, Bool, true, false, ◌||◌, if◌then◌else◌, Option, none, some, List, [], ◌∷◌, Bytes, codes,
  bytes_eq, has_prefix, parse_uint, ℤ, pos, negsuc,
}
use ipp_usb.Hwid.{HwidPattern}

pub data ResetMethod : Type 0 where
  reset_none reset_soft reset_hard : ResetMethod

pub data BuggyIppRsp : Type 0 where
  rsp_reject rsp_allow rsp_sanitize : BuggyIppRsp

-- `Quirk.Parsed`, an interface{}: nothing yet, or a value of one of the types.
pub data Parsed : Type 0 where
  unparsed : Parsed
  str : Bytes → Parsed
  bool : Bool → Parsed
  uint : ℕ → Parsed
  duration : ℕ → Parsed
  reset : ResetMethod → Parsed
  buggy_rsp : BuggyIppRsp → Parsed

-- Where a quirk comes from: "default", or a line of a file.
pub data Origin : Type 0 where
  default : Origin
  defined_at : Bytes → ℕ → Origin

pub record Quirk : Type 0 where
  pub origin : Origin
  pub match : Bytes
  pub match_hwid : Option HwidPattern
  pub name : Bytes
  pub raw_value : Bytes
  pub parsed : Parsed
  pub load_order : ℕ

abbrev pub is_http : Bytes → Bool
is_http name = has_prefix name (codes "http-")

abbrev pub is_hwid : Quirk → Bool
is_hwid q = elim (q.match_hwid) [ none ↦ false | some pattern ↦ true ]

-- The parsing methods.
pub data Kind : Type 0 where
  of_bool of_string of_uint of_duration of_buggy_rsp of_reset : Kind

abbrev pub named_kinds : List (Bytes × Kind)
named_kinds =
    (codes "blacklist", of_bool)
    ∷ (codes "buggy-ipp-responses", of_buggy_rsp)
    ∷ (codes "disable-fax", of_bool)
    ∷ (codes "ignore-ipp-status", of_bool)
    ∷ (codes "init-delay", of_duration)
    ∷ (codes "init-reset", of_reset)
    ∷ (codes "init-retry-partial", of_bool)
    ∷ (codes "init-timeout", of_duration)
    ∷ (codes "mfg", of_string)
    ∷ (codes "model", of_string)
    ∷ (codes "request-delay", of_duration)
    ∷ (codes "usb-max-interfaces", of_uint)
    ∷ (codes "usb-send-delay", of_duration)
    ∷ (codes "usb-send-delay-threshold", of_uint)
    ∷ (codes "zlp-recv-hack", of_bool)
    ∷ (codes "zlp-send", of_bool)
    ∷ []

unfoldable pub find_kind : Bytes → List (Bytes × Kind) → Option Kind
find_kind name [] = none
find_kind name ((n, k) ∷ kinds) = if bytes_eq n name then some k else find_kind name kinds

-- `quirkParse`
unfoldable pub quirk_parse : Bytes → Option Kind
unfolding find_kind bytes_eq
quirk_parse name = find_kind name named_kinds

abbrev parse_bool : Quirk → Option Parsed
parse_bool q =
    if bytes_eq q.raw_value (codes "true")
    then some (bool true)
    else if bytes_eq q.raw_value (codes "false")
    then some (bool false)
    else none

abbrev uint_of : Option ℕ → Option Parsed
uint_of none = none
uint_of (some v) = some (uint v)

abbrev positive : Option ℤ → Option Parsed
positive (some (pos v)) = some (duration v)
positive (some (negsuc v)) = none
positive none = none

-- `text` is time.ParseDuration, in nanoseconds; `none` is an error.
abbrev parse_duration : (Bytes → Option ℤ) → Bytes → Option ℕ → Option Parsed
parse_duration text raw_value (some ms) = some (duration (1000000 * ms))
parse_duration text raw_value none =
    if has_prefix raw_value (codes "+") || has_prefix raw_value (codes "-")
    then none
    else positive (text raw_value)

abbrev parse_buggy_rsp : Quirk → Option Parsed
parse_buggy_rsp q =
    if bytes_eq q.raw_value (codes "allow")
    then some (buggy_rsp rsp_allow)
    else if bytes_eq q.raw_value (codes "reject")
    then some (buggy_rsp rsp_reject)
    else if bytes_eq q.raw_value (codes "sanitize")
    then some (buggy_rsp rsp_sanitize)
    else none

abbrev parse_reset : Quirk → Option Parsed
parse_reset q =
    if bytes_eq q.raw_value (codes "none")
    then some (reset reset_none)
    else if bytes_eq q.raw_value (codes "soft")
    then if is_hwid q then none else some (reset reset_soft)
    else if bytes_eq q.raw_value (codes "hard")
    then some (reset reset_hard)
    else none

-- What a parsing method saves; `none` is an error.
unfoldable pub parse : (Bytes → Option ℤ) → Kind → Quirk → Option Parsed
unfolding bytes_eq has_prefix parse_uint
parse text of_string q = some (str q.raw_value)
parse text of_bool q = parse_bool q
parse text of_uint q = uint_of (parse_uint q.raw_value 10 32)
parse text of_duration q = parse_duration text q.raw_value (parse_uint q.raw_value 10 32)
parse text of_buggy_rsp q = parse_buggy_rsp q
parse text of_reset q = parse_reset q

-- `quirkDefaultStrings`; `DevInitTimeout.String()` is "5s".
abbrev pub quirk_default_strings : List (Bytes × Bytes)
quirk_default_strings =
    (codes "blacklist", codes "false")
    ∷ (codes "buggy-ipp-responses", codes "reject")
    ∷ (codes "disable-fax", codes "false")
    ∷ (codes "ignore-ipp-status", codes "false")
    ∷ (codes "init-delay", codes "0")
    ∷ (codes "init-reset", codes "none")
    ∷ (codes "init-retry-partial", codes "false")
    ∷ (codes "init-timeout", codes "5s")
    ∷ (codes "mfg", [])
    ∷ (codes "model", [])
    ∷ (codes "request-delay", codes "0")
    ∷ (codes "usb-max-interfaces", codes "0")
    ∷ (codes "usb-send-delay", codes "0")
    ∷ (codes "usb-send-delay-threshold", codes "0")
    ∷ (codes "zlp-recv-hack", codes "false")
    ∷ (codes "zlp-send", codes "false")
    ∷ []

unfoldable pub find_default : Bytes → List (Bytes × Bytes) → Option Bytes
find_default name [] = none
find_default name ((n, v) ∷ values) = if bytes_eq n name then some v else find_default name values

-- The quirk of a default before it is parsed; its load order is math.MaxInt32.
abbrev pub default_quirk : Bytes → Bytes → Quirk
default_quirk name value = record {
  origin = default;
  match = codes "*";
  match_hwid = none;
  name = name;
  raw_value = value;
  parsed = unparsed;
  load_order = 2147483647;
}

abbrev parsed_default : (Bytes → Option ℤ) → Bytes → Option Bytes → Option Kind → Option Quirk
parsed_default text name (some value) (some kind) =
    elim (parse text kind (default_quirk name value)) [
      | none ↦ none
      | some p ↦ some (record (default_quirk name value) { parsed = p })
    ]
parsed_default text name _ _ = none

-- `quirkDefault[name]`, as `init` fills it; a value that does not parse would be a panic there, and
-- is `none` here as a missing name is.
unfoldable pub quirk_default : (Bytes → Option ℤ) → Bytes → Option Quirk
unfolding find_default quirk_parse parse bytes_eq
quirk_default text name =
    parsed_default text name (find_default name quirk_default_strings) (quirk_parse name)
