-- ===== src/Glob.antt =====
-- glob.go: `GlobMatch`, which tells how many literal characters of a model name a glob-style
-- pattern matched, or -1 if it did not match. `loop` is `globMatchInternal`; its fuel bounds the
-- length of the pattern, of which every round drops at least one byte.
-- Children: Glob/Items (what a pattern means) and Glob/Matching (the matcher's correctness).
pub mod Items
pub mod Matching
use ipp_usb.Base.{
  ℕ, zero, suc, ◌+◌, ◌≡◌, Bool, Option, none, some, List, [], ◌∷◌, Bytes, ◌==◌, if◌then◌else◌, ℤ,
  pos, negsuc, minus_one,
}

pub skip_stars : Bytes → Bytes
skip_stars [] = []
skip_stars (c ∷ pattern) = if c == b'*' then skip_stars pattern else c ∷ pattern

-- `for i := 0; i < len(str); i++` of the star: the first suffix of `str` that is not empty and
-- on which the rest of the pattern matches.
pub try_suffixes : (Bytes → ℤ) → Bytes → Option ℕ
try_suffixes match [] = none
try_suffixes match (c ∷ str) =
    let later = try_suffixes match str in
    elim (match (c ∷ str)) [ pos n ↦ some n | negsuc _ ↦ later ]

-- What follows the loop: trailing stars are dropped, and both texts have to be at their end.
pub finish : Bytes → Bytes → ℕ → ℤ
finish [] [] count = pos count
finish _ _ count = minus_one

-- A star with `pattern` behind it, its own run of stars dropped. `again` is the recursive call,
-- and the round of the loop that goes on where no suffix matched.
pub star_case : (Bytes → ℤ) → Bytes → Bytes → ℕ → ℤ
unfolding try_suffixes
star_case again [] str count = pos count
star_case again (p ∷ pattern) str count = elim (try_suffixes again str) [
  | some n ↦ pos n
  | none ↦ again str
]

-- `default`: the byte `p` of the pattern against the first byte of the text.
pub literal_case : (ℕ → ℤ) → ℕ → ℕ → ℕ → ℤ
literal_case again p c count = if c == p then again (count + 1) else minus_one

-- A backslash: the byte behind it is a literal.
pub escape_case : (Bytes → ℕ → ℤ) → Bytes → ℕ → ℕ → ℤ
unfolding literal_case
escape_case again [] c count = minus_one
escape_case again (p ∷ pattern) c count = literal_case (again pattern) p c count

pub loop : ℕ → Bytes → Bytes → ℕ → ℤ
unfolding finish star_case escape_case literal_case
loop zero str pattern count = minus_one
loop (suc f) [] pattern count = finish [] (skip_stars pattern) count
loop (suc f) (c ∷ str) [] count = finish (c ∷ str) [] count
loop (suc f) (c ∷ str) (p ∷ pattern) count =
    let star =
      star_case (λ s. loop f s (skip_stars pattern) count) (skip_stars pattern) (c ∷ str) count in
    let any = loop f str pattern count in
    let escape = escape_case (λ rest n. loop f str rest n) pattern c count in
    let literal = literal_case (λ n. loop f str pattern n) p c count in
    if p == b'*' then star else if p == b'?' then any else if p == b'\\' then escape else literal

abbrev pattern_length : Bytes → ℕ
pattern_length [] = 0
pattern_length (c ∷ pattern) = suc (pattern_length pattern)

unfoldable pub glob_match : Bytes → Bytes → ℤ
unfolding loop skip_stars
glob_match str pattern = loop (pattern_length pattern + 1) str pattern 0
