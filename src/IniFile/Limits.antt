-- ===== src/IniFile/Limits.antt =====
-- The ranges of the values that the `Load` methods of inifile.go set.
use ipp_usb.Base.{
  ℕ, ◌*◌, ◌/◌, ◌-◌, ◌^◌, ◌≤◌, ◌<◌, ◌≡◌, ◌⊎◌, inl, inr, refl, Bool, true, if_cases, ltb, ◌||◌, ◌&&◌,
  ◌==◌, not, if◌then◌else◌, Option, none, some, List, [], ◌∷◌, Bytes, codes, length, take, bytes_eq,
  trim_space, split, parse_uint, ℤ, pos, negsuc, arith,
}
use ipp_usb.IniFile.Records.{IniRecord}
use ipp_usb.IniFile.Values.{
  Loaded, atoi, port_of, load_ip_port, size_units, last_byte, size_of, load_size, LogLevel,
  log_none, add_log_level, add_log_levels, level_of, load_log_level,
}

-- A TCP port.
abbrev pub IsPort : ℕ → Type 0
IsPort port = (1 ≤ port) × (port ≤ 65535)

-- A port was loaded, or the destination is as it was.
abbrev pub PortLoaded : ℕ → Loaded ℕ → Type 0
PortLoaded out (port, none) = IsPort port
PortLoaded out (port, some e) = port ≡ out

port_of-PortLoaded : (out : ℕ) (o : Option ℤ) → PortLoaded out (port_of out o)
port_of-PortLoaded out none = refl
port_of-PortLoaded out (some (negsuc n)) = refl
port_of-PortLoaded out (some (pos port)) =
    if_cases (PortLoaded out) (ltb port 1 || ltb 65535 port) _ _ (λ _. refl) (λ h. ground arith)

-- `LoadIPPort` sets a port from 1 to 65535, or returns an error and leaves the destination alone.
pub load_ip_port-PortLoaded : (rec : IniRecord) (out : ℕ) → PortLoaded out (load_ip_port rec out)
unfolding load_ip_port
load_ip_port-PortLoaded rec out = port_of-PortLoaded out (atoi rec.value)

-- The number `n` of units, in bytes, was loaded.
abbrev pub SizeLoaded : ℕ → ℕ → Option ℕ → Loaded ℕ → Type 0
SizeLoaded out units (some n) (size, none) = (size ≡ n * units) × (size < 2 ^ 63)
SizeLoaded out units none (size, none) = ⊥
SizeLoaded out units o (size, some e) = size ≡ out

size_of-SizeLoaded :
    (out units : ℕ) (o : Option ℕ)
    → (units ≡ 1) ⊎ ((units ≡ 1024) ⊎ (units ≡ 1024 * 1024))
    → SizeLoaded out units o (size_of out units o)
size_of-SizeLoaded out units none h = refl
size_of-SizeLoaded out units (some n) h =
    if_cases (SizeLoaded out units (some n)) (ltb ((2 ^ 63 - 1) / units) n) _ _ (λ _. refl)
      (λ k. elim h [
        | inl e ↦ ground arith
        | inr (inl e) ↦ ground arith
        | inr (inr e) ↦ ground arith
      ])

size_units-cases :
    (o : Option ℕ) → (size_units o ≡ 1) ⊎ ((size_units o ≡ 1024) ⊎ (size_units o ≡ 1024 * 1024))
size_units-cases none = inl refl
size_units-cases (some c) = ground arith

-- The digits of a size, without the unit.
abbrev pub size_digits : Bytes → Bytes
size_digits value =
    if size_units (last_byte value) == 1 then value else take (length value - 1) value

-- `LoadSize` sets the number in front of the unit times the unit, without overflow of an int64, or
-- returns an error and leaves the destination alone. Where there is no number, it is an error.
pub load_size-SizeLoaded :
    (rec : IniRecord) (out : ℕ)
    → SizeLoaded out
        (size_units (last_byte rec.value))
        (parse_uint (size_digits rec.value) 10 64)
        (load_size rec out).1
unfolding load_size
load_size-SizeLoaded rec out =
    size_of-SizeLoaded out (size_units (last_byte rec.value)) _
      (size_units-cases (last_byte rec.value))

-- Messages of a level are on where those of a higher level are: error, info, debug, traces.
abbrev pub is_closed : LogLevel → Bool
is_closed m =
    (not m.info || m.error)
    && (not m.debug || m.info)
    && (not m.trace_ipp || m.debug)
    && (not m.trace_escl || m.debug)
    && (not m.trace_http || m.debug)
    && (not m.trace_usb || m.debug)

abbrev OptionClosed : Option LogLevel → Type 0
OptionClosed none = Unit
OptionClosed (some m) = is_closed m ≡ true

add_log_level-OptionClosed :
    (m : LogLevel) (s : Bytes) → is_closed m ≡ true → OptionClosed (add_log_level m s)
unfolding add_log_level
add_log_level-OptionClosed m s h =
    if_cases OptionClosed (bytes_eq s []) _ _ (λ _. h)
      (λ _.
        if_cases OptionClosed (bytes_eq s (codes "error")) _ _ (λ _. ground arith)
          (λ _.
            if_cases OptionClosed (bytes_eq s (codes "info")) _ _ (λ _. ground arith)
              (λ _.
                if_cases OptionClosed (bytes_eq s (codes "debug")) _ _ (λ _. ground arith)
                  (λ _.
                    if_cases OptionClosed (bytes_eq s (codes "trace-ipp")) _ _ (λ _. ground arith)
                      (λ _.
                        if_cases OptionClosed (bytes_eq s (codes "trace-escl")) _ _
                          (λ _. ground arith)
                          (λ _.
                            if_cases OptionClosed (bytes_eq s (codes "trace-http")) _ _
                              (λ _. ground arith)
                              (λ _.
                                if_cases OptionClosed (bytes_eq s (codes "trace-usb")) _ _
                                  (λ _. ground arith)
                                  (λ _.
                                    if_cases OptionClosed
                                      (bytes_eq s (codes "all") || bytes_eq s (codes "trace-all")) _
                                      _ (λ _. ground arith) (λ _. tt)))))))))

add_log_levels-OptionClosed :
    (m : LogLevel) (words : List Bytes) → is_closed m ≡ true → OptionClosed (add_log_levels m words)
unfolding add_log_levels
add_log_levels-OptionClosed m [] h = h
add_log_levels-OptionClosed m (s ∷ words) h =
    after (add_log_level m (trim_space s)) (add_log_level-OptionClosed m (trim_space s) h)
      (λ m'. add_log_levels-OptionClosed m' words)
  where
    after :
        (o : Option LogLevel)
        → OptionClosed o
        → ((m' : LogLevel) → is_closed m' ≡ true → OptionClosed (add_log_levels m' words))
        → OptionClosed (elim o [ none ↦ none | some m' ↦ add_log_levels m' words ])
    after none k ih = tt
    after (some m') k ih = ih m' k

level_of-closed :
    (out : LogLevel) (o : Option LogLevel)
    → is_closed out ≡ true
    → OptionClosed o
    → is_closed (level_of out o).0 ≡ true
level_of-closed out none h k = h
level_of-closed out (some m) h k = k

-- The level behind `LoadLogLevel` is closed where the destination's was: a level that is on has
-- those in front of it on, with an error as without.
pub load_log_level-closed :
    (rec : IniRecord) (out : LogLevel)
    → is_closed out ≡ true
    → is_closed (load_log_level rec out).0 ≡ true
unfolding load_log_level
load_log_level-closed rec out h =
    level_of-closed out _ h (add_log_levels-OptionClosed log_none (split rec.value b',') refl)
