-- ===== src/Hwid/Parsing.antt =====
-- What hwid.go's parser accepts. `hex4` is `%4.4x` of a 16-bit number, which the program prints in
-- `Ident` (usbcommon.go).
use ipp_usb.Base.{
  ℕ, ◌+◌, ◌-◌, ◌*◌, ◌/◌, ◌%◌, ◌<◌, ◌≡◌, ◌⊎◌, inl, inr, refl, true, false, not, ◌&&◌, Option, none,
  some, ◌∷◌, [], ◌++◌, Bytes, ltb, ltb_iff, ◌==◌, Bool-cases, if◌then◌else◌, length, get_elem?,
  take, drop, bytes_eq, digit_value, push_digit, in_range, parse_digits, parse_uint, ap, ◌∙◌, arith,
}
use ipp_usb.Hwid.{HwidPattern, is_colon, parse_pid, parse_hwid_pattern}

pub hex_digit : ℕ → ℕ
hex_digit d = if ltb d 10 then d + b'0' else d + (b'a' - 10)

unfoldable pub hex4 : ℕ → Bytes
unfolding hex_digit
hex4 n =
    hex_digit (n / 4096 % 16)
    ∷ hex_digit (n / 256 % 16)
    ∷ hex_digit (n / 16 % 16)
    ∷ hex_digit (n % 16)
    ∷ []

digit_value-hex_digit : (d : ℕ) → d < 16 → digit_value (hex_digit d) ≡ some d
unfolding digit_value hex_digit
digit_value-hex_digit d h = ground arith

push_digit-hex_digit :
    (acc d : ℕ) → d < 16 → push_digit 16 acc (digit_value (hex_digit d)) ≡ some (acc * 16 + d)
push_digit-hex_digit acc d h = rw (digit_value-hex_digit d h) (ground arith)

parse_digits-hex_digit :
    (acc d : ℕ) (s : Bytes)
    → d < 16
    → parse_digits 16 acc (hex_digit d ∷ s) ≡ parse_digits 16 (acc * 16 + d) s
unfolding parse_digits
parse_digits-hex_digit acc d s h = rw (push_digit-hex_digit acc d h, parse_digits)

parse_digits-hex4 : (n : ℕ) → n < 65536 → parse_digits 16 0 (hex4 n) ≡ some n
unfolding hex4
parse_digits-hex4 n h =
    parse_digits-hex_digit 0 (n / 4096 % 16) _ (omega arith)
    ∙ parse_digits-hex_digit _ (n / 256 % 16) _ (omega arith)
    ∙ parse_digits-hex_digit _ (n / 16 % 16) _ (omega arith)
    ∙ parse_digits-hex_digit _ (n % 16) _ (omega arith)
    ∙ unfold parse_digits in ap some (omega arith)

parse_uint-hex4 : (n : ℕ) → n < 65536 → parse_uint (hex4 n) 16 16 ≡ some n
unfolding parse_uint hex4
parse_uint-hex4 n h = ap (in_range 16) (parse_digits-hex4 n h) ∙ rw ((ltb_iff n 65536).1 h)

-- `%4.4x:%4.4x`, and `%4.4x:*` for any product
unfoldable pub format : HwidPattern → Bytes
unfolding hex4
format p = hex4 p.vid ++ b':' ∷ (if p.anypid then b'*' ∷ [] else hex4 p.pid)

hex4-not_star : (n : ℕ) → bytes_eq (hex4 n) (b'*' ∷ []) ≡ false
unfolding hex4 bytes_eq
hex4-not_star n = ground arith

parse_pid-hex4 :
    (vid pid : ℕ)
    → pid < 65536
    → parse_pid vid (hex4 pid) ≡ some (record { vid = vid; pid = pid; anypid = false })
unfolding parse_pid
parse_pid-hex4 vid pid h = rw (hex4-not_star pid, parse_uint-hex4 pid h)

parse_vid-hex4 :
    (vid : ℕ) (str_pid : Bytes)
    → vid < 65536
    → (length str_pid ≡ 1) ⊎ (length str_pid ≡ 4)
    → parse_hwid_pattern (hex4 vid ++ b':' ∷ str_pid) ≡ parse_pid vid str_pid
unfolding parse_hwid_pattern hex4
parse_vid-hex4 vid str_pid h (inl e) = rw (e, parse_uint-hex4 vid h)
parse_vid-hex4 vid str_pid h (inr e) = rw (e, parse_uint-hex4 vid h)

-- A pattern over 16-bit IDs that is printed as the documented syntax says is parsed back to
-- itself; a pattern for any product has product ID 0.
pub parse-format :
    (p : HwidPattern)
    → p.vid < 65536
    → p.pid < 65536
    → (p.anypid ≡ true → p.pid ≡ 0)
    → parse_hwid_pattern (format p) ≡ some p
unfolding format parse_pid bytes_eq
parse-format p h k z = elim (Bool-cases p.anypid) [
  | inl e ↦ rw e (parse_vid-hex4 p.vid (b'*' ∷ []) h (inl refl) ∙ ground (arith, z e))
  | inr e ↦
      rw e (
        parse_vid-hex4 p.vid (hex4 p.pid) h (inr refl)
        ∙ parse_pid-hex4 p.vid p.pid k
        ∙ ground arith)
]

abbrev Is16Bit : Option ℕ → Type 0
Is16Bit none = Unit
Is16Bit (some n) = n < 65536

parse_uint-Is16Bit : (s : Bytes) (base : ℕ) → Is16Bit (parse_uint s base 16)
unfolding parse_uint
parse_uint-Is16Bit [] base = tt
parse_uint-Is16Bit (c ∷ s) base = ground arith

abbrev Has : ℕ → Option HwidPattern → Type 0
Has vid none = Unit
Has vid (some p) = (p.vid ≡ vid) × (p.pid < 65536)

parse_pid-Has : (vid : ℕ) (s : Bytes) → Has vid (parse_pid vid s)
unfolding parse_pid
parse_pid-Has vid s = ground (arith, parse_uint-Is16Bit s 16)

-- What holds of a pattern that the parser accepts.
abbrev pub Shaped : Bytes → Option HwidPattern → Type 0
Shaped pattern none = Unit
Shaped pattern (some p) =
    ((length pattern ≡ 6) ⊎ (length pattern ≡ 9))
    × (get_elem? pattern 4 ≡ some b':')
    × (p.vid < 65536)
    × (p.pid < 65536)

is_colon-some : (o : Option ℕ) → not (is_colon o) ≡ false → o ≡ some b':'
is_colon-some none h = cc
is_colon-some (some c) h = ground arith

tail-Shaped :
    (pattern s : Bytes) (o : Option ℕ)
    → (length pattern ≡ 6) ⊎ (length pattern ≡ 9)
    → get_elem? pattern 4 ≡ some b':'
    → Is16Bit o
    → Shaped pattern (elim o [ none ↦ none | some vid ↦ parse_pid vid s ])
tail-Shaped pattern s none l c b = tt
tail-Shaped pattern s (some vid) l c b = ground (arith, parse_pid-Has vid s)

-- For every text: what the parser accepts has 6 or 9 bytes, a colon at index 4, and IDs that fit
-- 16 bits.
pub parse-Shaped : (pattern : Bytes) → Shaped pattern (parse_hwid_pattern pattern)
unfolding parse_hwid_pattern
parse-Shaped pattern = elim (Bool-cases (not (length pattern == 6) && not (length pattern == 9))) [
  | inl e ↦ rw e tt
  | inr e ↦ elim (Bool-cases (not (is_colon (get_elem? pattern 4)))) [
    | inl k ↦ rw (e, k) tt
    | inr k ↦
        rw (e, k)
          (tail-Shaped pattern (drop 5 pattern) (parse_uint (take 4 pattern) 16 16) (ground arith)
            (is_colon-some (get_elem? pattern 4) k) (parse_uint-Is16Bit (take 4 pattern) 16))
  ]
]
