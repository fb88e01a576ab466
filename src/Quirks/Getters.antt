-- ===== src/Quirks/Getters.antt =====
-- `Get` and the effective parameters (quirks.go). A type assertion that fails is a panic in Go, and
-- `none` here.
use ipp_usb.Base.{ℕ, Bool, Option, none, some, Bytes, codes, ℤ}
use ipp_usb.Base.Dict.{lookup}
use ipp_usb.Quirks.Parsing.{
  ResetMethod, BuggyIppRsp, Parsed, str, bool, uint, duration, reset, buggy_rsp, Quirk,
  quirk_default,
}
use ipp_usb.Quirks.{Quirks}

abbrev pub or_default : Option Quirk → Option Quirk → Option Quirk
or_default (some q) d = some q
or_default none d = d

abbrev pub value_of : Option Quirk → Option Parsed
value_of none = none
value_of (some q) = some q.parsed

-- The type assertions.
abbrev pub as_bool : Option Parsed → Option Bool
as_bool (some (bool b)) = some b
as_bool _ = none

abbrev pub as_string : Option Parsed → Option Bytes
as_string (some (str s)) = some s
as_string _ = none

abbrev pub as_uint : Option Parsed → Option ℕ
as_uint (some (uint n)) = some n
as_uint _ = none

abbrev pub as_duration : Option Parsed → Option ℕ
as_duration (some (duration n)) = some n
as_duration _ = none

abbrev pub as_reset : Option Parsed → Option ResetMethod
as_reset (some (reset m)) = some m
as_reset _ = none

abbrev pub as_buggy_rsp : Option Parsed → Option BuggyIppRsp
as_buggy_rsp (some (buggy_rsp m)) = some m
as_buggy_rsp _ = none

-- `text` is time.ParseDuration, by which the defaults are parsed.
module _ (text : Bytes → Option ℤ) (quirks : Quirks) where
  unfoldable pub get : Bytes → Option Quirk
  unfolding lookup quirk_default
  get name = or_default (lookup name quirks.by_name) (quirk_default text name)

  unfoldable pub get_blacklist : Option Bool
  unfolding get
  get_blacklist = as_bool (value_of (get (codes "blacklist")))

  unfoldable pub get_buggy_ipp_rsp : Option BuggyIppRsp
  unfolding get
  get_buggy_ipp_rsp = as_buggy_rsp (value_of (get (codes "buggy-ipp-responses")))

  unfoldable pub get_disable_fax : Option Bool
  unfolding get
  get_disable_fax = as_bool (value_of (get (codes "disable-fax")))

  unfoldable pub get_ignore_ipp_status : Option Bool
  unfolding get
  get_ignore_ipp_status = as_bool (value_of (get (codes "ignore-ipp-status")))

  unfoldable pub get_init_delay : Option ℕ
  unfolding get
  get_init_delay = as_duration (value_of (get (codes "init-delay")))

  unfoldable pub get_init_retry_partial : Option Bool
  unfolding get
  get_init_retry_partial = as_bool (value_of (get (codes "init-retry-partial")))

  unfoldable pub get_init_reset : Option ResetMethod
  unfolding get
  get_init_reset = as_reset (value_of (get (codes "init-reset")))

  unfoldable pub get_init_timeout : Option ℕ
  unfolding get
  get_init_timeout = as_duration (value_of (get (codes "init-timeout")))

  unfoldable pub get_mfg : Option Bytes
  unfolding get
  get_mfg = as_string (value_of (get (codes "mfg")))

  unfoldable pub get_model : Option Bytes
  unfolding get
  get_model = as_string (value_of (get (codes "model")))

  unfoldable pub get_request_delay : Option ℕ
  unfolding get
  get_request_delay = as_duration (value_of (get (codes "request-delay")))

  unfoldable pub get_usb_max_interfaces : Option ℕ
  unfolding get
  get_usb_max_interfaces = as_uint (value_of (get (codes "usb-max-interfaces")))

  unfoldable pub get_usb_send_delay_threshold : Option ℕ
  unfolding get
  get_usb_send_delay_threshold = as_uint (value_of (get (codes "usb-send-delay-threshold")))

  unfoldable pub get_usb_send_delay : Option ℕ
  unfolding get
  get_usb_send_delay = as_duration (value_of (get (codes "usb-send-delay")))

  unfoldable pub get_zlp_recv_hack : Option Bool
  unfolding get
  get_zlp_recv_hack = as_bool (value_of (get (codes "zlp-recv-hack")))

  unfoldable pub get_zlp_send : Option Bool
  unfolding get
  get_zlp_send = as_bool (value_of (get (codes "zlp-send")))
