-- ===== src/Base/Text.antt =====
-- Go strings as lists of bytes, and the functions of `strings` and `strconv` that the program
-- calls.
use Prim.Native.Nat.{ℕ, zero, suc, ◌+◌, ◌-◌, ◌*◌, ◌/◌, ◌%◌, ◌^◌}
use Prim.Native.Char.{code}
use Prim.Native.String.{String}
use mathlib.Core.Path.{◌≡◌, refl}
use mathlib.Core.Bool.{Bool, true, false, ◌&&◌, ◌||◌}
use mathlib.Core.List.{List, [], ◌∷◌}
use mathlib.Core.Logic.{◌↔◌}
use mathlib.Core.Option.{Option, none, some}
use native.Mathlib.Omega.{arith}
use ipp_usb.Base.Tests.{ltb, ◌==◌, if◌then◌else◌, within}

abbrev pub Bytes : Type 0
Bytes = List ℕ

-- The code points of a literal: its bytes, as every literal here is ASCII.
abbrev pub codes : String → Bytes
codes String.[] = []
codes (String.◌∷◌ c s) = code c ∷ codes s

unfoldable pub bytes_eq : Bytes → Bytes → Bool
bytes_eq [] [] = true
bytes_eq (x ∷ xs) (y ∷ ys) = x == y && bytes_eq xs ys
bytes_eq _ _ = false

pub bytes_eq_iff : (a b : Bytes) → (bytes_eq a b ≡ true) ↔ (a ≡ b)
unfolding bytes_eq
bytes_eq_iff (x ∷ a) (y ∷ b) = ground (arith, bytes_eq_iff a b)
bytes_eq_iff _ _ = ground arith

pub bytes_eq_refl : (a : Bytes) → bytes_eq a a ≡ true
bytes_eq_refl a = (bytes_eq_iff a a).1 refl

-- Whether a text is in the list.
abbrev pub is_among : Bytes → List Bytes → Bool
is_among name [] = false
is_among name (n ∷ names) = bytes_eq n name || is_among name names

-- strings.HasPrefix(s, prefix)
unfoldable pub has_prefix : Bytes → Bytes → Bool
has_prefix s [] = true
has_prefix [] (p ∷ prefix) = false
has_prefix (c ∷ s) (p ∷ prefix) = c == p && has_prefix s prefix

-- The ASCII blanks.
unfoldable pub is_space : ℕ → Bool
is_space c = within 9 13 c || c == b' '

-- The UTF-8 text of one blank of unicode.IsSpace: an ASCII blank, U+0085 or U+00A0, or U+1680,
-- U+2000 to U+200A, U+2028, U+2029, U+202F, U+205F or U+3000.
abbrev pub wide_blank : ℕ → ℕ → Bool
wide_blank b c = b == 0xC2 && (c == 0x85 || c == 0xA0)

abbrev pub wider_blank : ℕ → ℕ → ℕ → Bool
wider_blank a b c =
    (a == 0xE1 && b == 0x9A && c == 0x80)
    || (a == 0xE2 && b == 0x80 && (within 0x80 0x8A c || c == 0xA8 || c == 0xA9 || c == 0xAF))
    || (a == 0xE2 && b == 0x81 && c == 0x9F)
    || (a == 0xE3 && b == 0x80 && c == 0x80)

abbrev pub is_blank : Bytes → Bool
is_blank (c ∷ []) = is_space c
is_blank (b ∷ c ∷ []) = wide_blank b c
is_blank (a ∷ b ∷ c ∷ []) = wider_blank a b c
is_blank _ = false

unfoldable pub trim_left : Bytes → Bytes
unfolding is_space
trim_left [] = []
trim_left (a ∷ []) = if is_space a then [] else a ∷ []
trim_left (a ∷ b ∷ []) =
    let rest = trim_left (b ∷ []) in
    if is_space a then rest else if wide_blank a b then [] else a ∷ b ∷ []
trim_left (a ∷ b ∷ c ∷ s) =
    let after_one = trim_left (b ∷ c ∷ s) in
    let after_two = trim_left (c ∷ s) in
    let after_three = trim_left s in
    if is_space a
    then after_one
    else if wide_blank a b
    then after_two
    else if wider_blank a b c
    then after_three
    else a ∷ b ∷ c ∷ s

abbrev pub unless_blank : Bytes → Bytes
unless_blank s = if is_blank s then [] else s

-- From the end on, what is left of the text is dropped where it is one blank.
unfoldable pub trim_right : Bytes → Bytes
unfolding is_space
trim_right [] = []
trim_right (c ∷ s) = unless_blank (c ∷ trim_right s)

-- strings.TrimSpace
unfoldable pub trim_space : Bytes → Bytes
unfolding trim_left trim_right
trim_space s = trim_right (trim_left s)

-- Puts a byte in front of the first piece.
abbrev onto_first : ℕ → List Bytes → List Bytes
onto_first c [] = (c ∷ []) ∷ []
onto_first c (piece ∷ pieces) = (c ∷ piece) ∷ pieces

-- strings.Split(s, sep) for a separator of one byte.
unfoldable pub split : Bytes → ℕ → List Bytes
split [] sep = [] ∷ []
split (c ∷ s) sep =
    let pieces = split s sep in if c == sep then [] ∷ pieces else onto_first c pieces

-- strings.ToLower, and the letters that it changes, for ASCII text.
unfoldable pub to_lower_byte : ℕ → ℕ
to_lower_byte c = if within b'A' b'Z' c then c + 32 else c

-- The digit that a byte stands for, in the bases up to 36.
unfoldable pub digit_value : ℕ → Option ℕ
digit_value c =
    if within b'0' b'9' c
    then some (c - b'0')
    else if within b'a' b'z' c
    then some (c - b'a' + 10)
    else if within b'A' b'Z' c
    then some (c - b'A' + 10)
    else none

abbrev pub push_digit : ℕ → ℕ → Option ℕ → Option ℕ
push_digit base acc none = none
push_digit base acc (some d) = if ltb d base then some (acc * base + d) else none

unfoldable pub parse_digits : ℕ → ℕ → Bytes → Option ℕ
unfolding digit_value
parse_digits base acc [] = some acc
parse_digits base acc (c ∷ s) = elim (push_digit base acc (digit_value c)) [
  | none ↦ none
  | some acc' ↦ parse_digits base acc' s
]

abbrev pub in_range : ℕ → Option ℕ → Option ℕ
in_range bits none = none
in_range bits (some n) = if ltb n (2 ^ bits) then some n else none

-- strconv.ParseUint(s, base, bits); `none` stands for both of its errors.
unfoldable pub parse_uint : Bytes → ℕ → ℕ → Option ℕ
unfolding parse_digits
parse_uint [] base bits = none
parse_uint (c ∷ s) base bits = in_range bits (parse_digits base 0 (c ∷ s))

-- strconv.Itoa of a number that is not negative: the digits, the last first, put in front of
-- `acc`. A number has no more digits than its own value plus one.
itoa_onto : ℕ → ℕ → Bytes → Bytes
itoa_onto zero n acc = acc
itoa_onto (suc fuel) n acc =
    let acc' = (n % 10 + b'0') ∷ acc in
    let rest = itoa_onto fuel (n / 10) acc' in if ltb n 10 then acc' else rest

unfoldable pub itoa : ℕ → Bytes
unfolding itoa_onto
itoa n = itoa_onto (n + 1) n []
