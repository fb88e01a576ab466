-- ===== src/IniFile/Values.antt =====
-- The `Load` methods of an `IniRecord` in inifile.go. Each takes the destination's old value and
-- answers the new one and an error, if any. The values are ASCII texts.
use ipp_usb.Base.{
  ℕ, ◌*◌, ◌/◌, ◌%◌, ◌-◌, ◌^◌, Bool, true, false, ◌||◌, ltb, ◌==◌, if◌then◌else◌, Option, none, some,
  List, [], ◌∷◌, ◌++◌, Bytes, codes, bytes_eq, trim_space, split, parse_uint, ℤ, pos, negsuc,
  length, take, get_elem?,
}
use ipp_usb.IniFile.Records.{IniRecord}
use ipp_usb.Auth.Rules.{AuthOps, ops_all, ops_none, is_none, AuthUidRule}

-- `errBadValue` carries the record's file, line and key; here it is its message.
pub data BadValue : Type 0 where
  not_a_number out_of_range not_a_name invalid_log_level invalid_size size_too_large : BadValue
  invalid_number invalid_operation : BadValue

abbrev pub Loaded : Type 0 → Type 0
Loaded A = A × Option BadValue

abbrev negate : Option ℕ → Option ℤ
negate none = none
negate (some n) =
    if ltb (2 ^ 63) n then none else if n == 0 then some (pos 0) else some (negsuc (n - 1))

abbrev non_negative : Option ℕ → Option ℤ
non_negative none = none
non_negative (some n) = some (pos n)

-- strconv.Atoi: an optional sign and decimal digits. Values that do not fit a 64-bit `int` are
-- refused.
unfoldable pub atoi : Bytes → Option ℤ
unfolding parse_uint
atoi [] = none
atoi (c ∷ s) =
    if c == b'-'
    then negate (parse_uint s 10 64)
    else if c == b'+'
    then non_negative (parse_uint s 10 63)
    else non_negative (parse_uint (c ∷ s) 10 63)

abbrev pub port_of : ℕ → Option ℤ → Loaded ℕ
port_of out none = (out, some not_a_number)
port_of out (some (negsuc n)) = (out, some out_of_range)
port_of out (some (pos port)) =
    if ltb port 1 || ltb 65535 port then (out, some out_of_range) else (port, none)

-- `LoadIPPort`
unfoldable pub load_ip_port : IniRecord → ℕ → Loaded ℕ
unfolding atoi
load_ip_port rec out = port_of out (atoi rec.value)

-- `LoadNamedBool`
unfoldable pub load_named_bool : IniRecord → Bool → Bytes → Bytes → Loaded Bool
unfolding bytes_eq
load_named_bool rec out v_false v_true =
    if bytes_eq rec.value v_false
    then (false, none)
    else if bytes_eq rec.value v_true
    then (true, none)
    else (out, some not_a_name)

-- `LoadBool`
unfoldable pub load_bool : IniRecord → Bool → Loaded Bool
unfolding load_named_bool
load_bool rec out = load_named_bool rec out (codes "false") (codes "true")

abbrev uint_of : ℕ → Option ℕ → Loaded ℕ
uint_of out none = (out, some invalid_number)
uint_of out (some n) = (n, none)

-- `LoadUint`, for a 64-bit `uint`
unfoldable pub load_uint : IniRecord → ℕ → Loaded ℕ
unfolding parse_uint
load_uint rec out = uint_of out (parse_uint rec.value 10 64)

abbrev in_bounds : ℕ → ℕ → ℕ → Loaded ℕ → Loaded ℕ
in_bounds out min max (val, some e) = (out, some e)
in_bounds out min max (val, none) =
    if ltb val min || ltb max val then (out, some out_of_range) else (val, none)

-- `LoadUintRange`
unfoldable pub load_uint_range : IniRecord → ℕ → ℕ → ℕ → Loaded ℕ
unfolding load_uint
load_uint_range rec out min max = in_bounds out min max (load_uint rec 0)

abbrev milliseconds : ℕ → Loaded ℕ → Loaded ℕ
milliseconds out (ms, some e) = (out, some e)
milliseconds out (ms, none) = ((1000000 * ms) % 2 ^ 64, none)

-- `LoadDuration`, in nanoseconds: the 64-bit pattern of Go's `time.Duration`, wrapped around.
unfoldable pub load_duration : IniRecord → ℕ → Loaded ℕ
unfolding load_uint
load_duration rec out = milliseconds out (load_uint rec 0)

-- The units of `LoadSize` by the last byte, and the digits in front of it.
abbrev pub size_units : Option ℕ → ℕ
size_units none = 1
size_units (some c) =
    if c == b'k' || c == b'K' then 1024 else if c == b'm' || c == b'M' then 1024 * 1024 else 1

abbrev pub last_byte : Bytes → Option ℕ
last_byte value = get_elem? value (length value - 1)

abbrev pub size_of : ℕ → ℕ → Option ℕ → Loaded ℕ
size_of out units none = (out, some invalid_size)
size_of out units (some sz) =
    if ltb ((2 ^ 63 - 1) / units) sz
    then (out, some size_too_large)
    else ((sz * units) % 2 ^ 64, none)

-- `LoadSize`. It also takes the unit off the record's value: the record is a result too.
unfoldable pub load_size : IniRecord → ℕ → IniRecord × Loaded ℕ
unfolding parse_uint
load_size rec out =
    let units = size_units (last_byte rec.value) in
    let digits = if units == 1 then rec.value else take (length rec.value - 1) rec.value in
    (record rec { value = digits }, size_of out units (parse_uint digits 10 64))

-- `LogLevel` of logger.go: its bits.
pub record LogLevel : Type 0 where
  pub error : Bool
  pub info : Bool
  pub debug : Bool
  pub trace_ipp : Bool
  pub trace_escl : Bool
  pub trace_http : Bool
  pub trace_usb : Bool

abbrev pub log_none : LogLevel
log_none = record {
  error = false;
  info = false;
  debug = false;
  trace_ipp = false;
  trace_escl = false;
  trace_http = false;
  trace_usb = false;
}

-- `mask |= LogInfo | LogError`, and so with the levels in front of it for the others.
abbrev pub with_info : LogLevel → LogLevel
with_info m = record m { error = true; info = true }

abbrev pub with_debug : LogLevel → LogLevel
with_debug m = record m { error = true; info = true; debug = true }

-- The cases of the switch on one word.
unfoldable pub add_log_level : LogLevel → Bytes → Option LogLevel
unfolding bytes_eq
add_log_level m s =
    if bytes_eq s []
    then some m
    else if bytes_eq s (codes "error")
    then some (record m { error = true })
    else if bytes_eq s (codes "info")
    then some (with_info m)
    else if bytes_eq s (codes "debug")
    then some (with_debug m)
    else if bytes_eq s (codes "trace-ipp")
    then some (record (with_debug m) { trace_ipp = true })
    else if bytes_eq s (codes "trace-escl")
    then some (record (with_debug m) { trace_escl = true })
    else if bytes_eq s (codes "trace-http")
    then some (record (with_debug m) { trace_http = true })
    else if bytes_eq s (codes "trace-usb")
    then some (record (with_debug m) { trace_usb = true })
    else if bytes_eq s (codes "all") || bytes_eq s (codes "trace-all")
    then some (record (with_debug m) { trace_ipp = true; trace_escl = true; trace_http = true })
    else none

unfoldable pub add_log_levels : LogLevel → List Bytes → Option LogLevel
unfolding add_log_level trim_space
add_log_levels m [] = some m
add_log_levels m (s ∷ words) = elim (add_log_level m (trim_space s)) [
  | none ↦ none
  | some m' ↦ add_log_levels m' words
]

abbrev pub level_of : LogLevel → Option LogLevel → Loaded LogLevel
level_of out none = (out, some invalid_log_level)
level_of out (some m) = (m, none)

-- `LoadLogLevel`
unfoldable pub load_log_level : IniRecord → LogLevel → Loaded LogLevel
unfolding add_log_levels split
load_log_level rec out = level_of out (add_log_levels log_none (split rec.value b','))

-- The operations of the record's key.
unfoldable pub parse_ops : AuthOps → List Bytes → Option AuthOps
unfolding trim_space bytes_eq
parse_ops allowed [] = some allowed
parse_ops allowed (s ∷ words) =
    let word = trim_space s in
    let all = parse_ops ops_all words in
    let config = parse_ops (record allowed { config = true }) words in
    let fax = parse_ops (record allowed { fax = true }) words in
    let print = parse_ops (record allowed { print = true }) words in
    let scan = parse_ops (record allowed { scan = true }) words in
    if bytes_eq word (codes "all")
    then all
    else if bytes_eq word (codes "config")
    then config
    else if bytes_eq word (codes "fax")
    then fax
    else if bytes_eq word (codes "print")
    then print
    else if bytes_eq word (codes "scan")
    then scan
    else none

abbrev pub listed : Bytes → List Bytes → Bool
listed s [] = false
listed s (x ∷ seen) = if bytes_eq s x then true else listed s seen

-- The users and groups of the record's value, each once; `seen` are those that stood in front.
unfoldable pub parse_users : AuthOps → List Bytes → List Bytes → List AuthUidRule
unfolding trim_space bytes_eq is_none
parse_users allowed seen [] = []
parse_users allowed seen (s ∷ words) =
    let name = trim_space s in
    let skipped = parse_users allowed seen words in
    let others = parse_users allowed (name ∷ seen) words in
    if bytes_eq name [] || bytes_eq name (codes "@")
    then skipped
    else if listed name seen
    then skipped
    else if is_none allowed
    then others
    else record { name = name; allowed = allowed } ∷ others

abbrev pub rules_of : List AuthUidRule → List Bytes → Option AuthOps → Loaded (List AuthUidRule)
rules_of out users none = (out, some invalid_operation)
rules_of out users (some allowed) = (out ++ parse_users allowed [] users, none)

-- `LoadAuthUIDRules`
unfoldable pub load_auth_uid_rules : IniRecord → List AuthUidRule → Loaded (List AuthUidRule)
unfolding parse_ops parse_users split
load_auth_uid_rules rec out =
    rules_of out (split rec.value b',') (parse_ops ops_none (split rec.key b','))
