-- ===== src/Conf/Names.antt =====
-- Which names `confMatchName` of conf.go takes for one another.
-- Child: Conf/Names/Blanks (trimming).
mod Blanks
use ipp_usb.Base.{
  ℕ, zero, suc, ◌+◌, ◌<◌, ◌≤◌, ◌≡◌, inl, inr, refl, sym, ap, Bool, true, false, ◌||◌, ◌==◌,
  Bool-cases, if_cases, if◌then◌else◌, Option, some, [], ◌∷◌, Bytes, All, is_space, trim_left,
  trim_right, is_blank, unless_blank, trim_space, has_prefix, length, arith,
}
use ipp_usb.Conf.Names.Blanks.{
  IsAscii, trim_left-IsAscii, length-trim_left, EndsWell, EndsWell-tail, trim_left-EndsWell,
  trim_left_cons, trim_space_blank, trim_space-EndsWell, trim_space-IsAscii, length-trim_space,
  length-trim_space_blank,
}
use ipp_usb.Conf.{is_space_rune, match_loop, match_name}

-- Each run of blanks becomes one space, and none where `skip` tells that a blank stands in front.
unfoldable pub squeeze : Bool → Bytes → Bytes
unfolding is_space
squeeze skip [] = []
squeeze skip (c ∷ s) =
    let behind = squeeze true s in
    let onward = squeeze false s in
    if is_space c then if skip then behind else b' ' ∷ behind else c ∷ onward

-- A text without the blanks around it, and with one space for each run of blanks in it.
abbrev pub squeezed : Bytes → Bytes
squeezed s = squeeze false (trim_space s)

-- One of the texts begins with the other.
abbrev pub either_prefix : Bytes → Bytes → Bool
either_prefix a b = has_prefix a b || has_prefix b a

squeeze-trim_left : (s : Bytes) → IsAscii s → squeeze true s ≡ squeeze false (trim_left s)
unfolding squeeze trim_left
squeeze-trim_left [] h = refl
squeeze-trim_left (c ∷ s) h = elim (Bool-cases (is_space c)) [
  | inl b ↦ rw (trim_left_cons c s h, b) (squeeze-trim_left s h.1)
  | inr b ↦ rw (trim_left_cons c s h, b) (rw b refl)
]

is_space_rune_ascii : (c : ℕ) → c < 128 → is_space_rune c ≡ is_space c
unfolding is_space_rune
is_space_rune_ascii c h = ground arith

-- The two texts that a round compares, by their first bytes.
either_prefix_cons :
    (c d : ℕ) (a b : Bytes)
    → either_prefix (c ∷ a) (d ∷ b) ≡ (if c == d then either_prefix a b else false)
unfolding has_prefix
either_prefix_cons c d a b = ground arith

either_prefix_nil : (a : Bytes) → either_prefix a [] ≡ true
unfolding has_prefix
either_prefix_nil a = refl

nil_either_prefix : (a : Bytes) → either_prefix [] a ≡ true
unfolding has_prefix
nil_either_prefix [] = refl
nil_either_prefix (c ∷ a) = refl

space_differs : (d : ℕ) → is_space d ≡ false → (b' ' == d) ≡ false
unfolding is_space
space_differs d b = ground arith

differs_space : (c : ℕ) → is_space c ≡ false → (c == b' ') ≡ false
unfolding is_space
differs_space c b = ground arith

blank_differs : (c d : ℕ) → is_space c ≡ false → is_space d ≡ true → (c == d) ≡ false
unfolding is_space
blank_differs c d b b' = ground arith

same_heads :
    {x : Option Bool} {y : Bool} (t : Bool)
    → x ≡ some y
    → (if t then x else some false) ≡ some (if t then y else false)
same_heads true h = h
same_heads false h = refl

match_loop-squeeze :
    (f : ℕ) (name pattern : Bytes)
    → IsAscii name
    → IsAscii pattern
    → EndsWell name
    → EndsWell pattern
    → length pattern < f
    → match_loop f name pattern ≡ some (either_prefix (squeeze false name) (squeeze false pattern))
unfolding match_loop squeeze
match_loop-squeeze zero name pattern h k e g l = absurd (omega arith)
match_loop-squeeze (suc f) [] pattern h k e g l = ap some (sym (nil_either_prefix _))
match_loop-squeeze (suc f) (c ∷ name) [] h k e g l = ap some (sym (either_prefix_nil _))
match_loop-squeeze (suc f) (c ∷ name) (d ∷ pattern) h k e g l =
    let onward =
      match_loop-squeeze f name pattern h.1 k.1 (EndsWell-tail c name e) (EndsWell-tail d pattern g)
        (omega arith) in
    let trimmed =
      match_loop-squeeze f (trim_left name) (trim_left pattern) (trim_left-IsAscii name h.1)
        (trim_left-IsAscii pattern k.1) (trim_left-EndsWell name h.1 (EndsWell-tail c name e))
        (trim_left-EndsWell pattern k.1 (EndsWell-tail d pattern g))
        (omega (arith, length-trim_left pattern k.1)) in
    elim (Bool-cases (is_space c)) [
      | inl b ↦ elim (Bool-cases (is_space d)) [
        | inl b' ↦
            rw
              (
                is_space_rune_ascii c h.0,
                is_space_rune_ascii d k.0,
                b,
                b',
                trim_space_blank c name h e b,
                trim_space_blank d pattern k g b',
                either_prefix_cons,
                squeeze-trim_left name h.1,
                squeeze-trim_left pattern k.1,
              )
              trimmed
        | inr b' ↦
            rw
              (
                is_space_rune_ascii c h.0,
                is_space_rune_ascii d k.0,
                b,
                b',
                either_prefix_cons,
                space_differs d b',
              )
              refl
      ]
      | inr b ↦ elim (Bool-cases (is_space d)) [
        | inl b' ↦
            rw
              (
                is_space_rune_ascii c h.0,
                b,
                b',
                either_prefix_cons,
                differs_space c b,
                blank_differs c d b b',
              )
              refl
        | inr b' ↦
            rw (is_space_rune_ascii c h.0, b, b', either_prefix_cons) (same_heads (c == d) onward)
      ]
    ]

-- `confMatchName` returns on a name and a pattern in ASCII, and they match exactly if one of the
-- two begins with the other, once the blanks around them are removed and each run of blanks in them
-- is one space: the shorter text, an empty one too, matches.
pub match_name-either_prefix :
    (name pattern : Bytes)
    → IsAscii name
    → IsAscii pattern
    → match_name name pattern ≡ some (either_prefix (squeezed name) (squeezed pattern))
unfolding match_name
match_name-either_prefix name pattern h k =
    match_loop-squeeze (length pattern + 1) (trim_space name) (trim_space pattern)
      (trim_space-IsAscii name h) (trim_space-IsAscii pattern k) (trim_space-EndsWell name)
      (trim_space-EndsWell pattern) (omega (arith, length-trim_space pattern k))

-- The loop ends for every name, as a pattern in ASCII becomes shorter with each round.
match_loop-ne-none :
    (f : ℕ) (name pattern : Bytes)
    → IsAscii pattern
    → length pattern < f
    → (b : Bool) × (match_loop f name pattern ≡ some b)
unfolding match_loop
match_loop-ne-none zero name pattern k l = absurd (omega arith)
match_loop-ne-none (suc f) [] pattern k l = (true, refl)
match_loop-ne-none (suc f) (c ∷ name) [] k l = (true, refl)
match_loop-ne-none (suc f) (c ∷ name) (d ∷ pattern) k l =
    let onward = match_loop-ne-none f name pattern k.1 (omega arith) in
    elim (Bool-cases (is_space_rune c)) [
      | inl b ↦ elim (Bool-cases (is_space d)) [
        | inl b' ↦
            let trimmed =
              match_loop-ne-none f (trim_space (c ∷ name)) (trim_space (d ∷ pattern))
                (trim_space-IsAscii (d ∷ pattern) k)
                (omega (arith, length-trim_space_blank d pattern k b')) in
            (trimmed.0, rw (b, is_space_rune_ascii d k.0, b') trimmed.1)
        | inr b' ↦ (false, rw (b, is_space_rune_ascii d k.0, b') refl)
      ]
      | inr b ↦ elim (Bool-cases (c == d)) [
        | inl e ↦ (onward.0, rw (b, e) onward.1)
        | inr e ↦ (false, rw (b, e) refl)
      ]
    ]

-- `confMatchName` returns for every name, where the pattern is in ASCII.
pub match_name_returns :
    (name pattern : Bytes) → IsAscii pattern → (b : Bool) × (match_name name pattern ≡ some b)
unfolding match_name
match_name_returns name pattern k =
    match_loop-ne-none (length pattern + 1) (trim_space name) (trim_space pattern)
      (trim_space-IsAscii pattern k) (omega (arith, length-trim_space pattern k))
