-- ===== src/Glob/Matching.antt =====
-- The matcher of glob.go decides `Matches`, and its weight is the pattern's literal characters.
mod Reading
pub mod Stars
use native.Mathlib.Nat.{zero-add}
use ipp_usb.Base.{
  ℕ, zero, suc, ◌+◌, ◌<◌, ◌≤◌, ◌≡◌, refl, true, false, [], ◌∷◌, inl, inr, Bytes, ◌==◌, Bool-cases,
  ==_iff, ℤ, arith,
}
use ipp_usb.Glob.{skip_stars, finish, literal_case, escape_case, loop, pattern_length, glob_match}
use ipp_usb.Glob.Items.{items, Matches, one, same, literals, literal, any}
use Reading.{items-star, items-any, items-dangling, items-escape, items-literal, dangling-never}
use Stars.{
  Decided, Decided-map, Decided-skip_stars, skip_stars-le, NoStar-skip_stars, skip_stars-Matches,
  literals-skip_stars, star_case-Decided,
}

literal_case-Decided :
    (again : ℕ → ℤ) (p c count : ℕ) (pattern str : Bytes)
    → Decided
        (Matches (items pattern) str)
        (count + 1 + literals (items pattern))
        (again (count + 1))
    → Decided
        (Matches (literal p ∷ items pattern) (c ∷ str))
        (count + suc (literals (items pattern)))
        (literal_case again p c count)
unfolding literal_case
literal_case-Decided again p c count pattern str h = elim (Bool-cases (c == p)) [
  | inl e ↦
      rw e (
        Decided-map (same ((==_iff c p).0 e)) (λ m. same_inv m) (omega arith) (again (count + 1)) h)
  | inr e ↦ rw e (λ m. differs e m)
]
  where
    same_inv : Matches (literal p ∷ items pattern) (c ∷ str) → Matches (items pattern) str
    same_inv (same _ m) = m

    differs : (c == p) ≡ false → ¬ Matches (literal p ∷ items pattern) (c ∷ str)
    differs e (same q _) = ground (arith, q)

any-Decided :
    (n c : ℕ) (pattern str : Bytes) (r : ℤ)
    → Decided (Matches (items pattern) str) n r
    → Decided (Matches (any ∷ items pattern) (c ∷ str)) n r
any-Decided n c pattern str r h = Decided-map one any_inv refl r h
  where
    any_inv : Matches (any ∷ items pattern) (c ∷ str) → Matches (items pattern) str
    any_inv (one m) = m

-- The recursive call, on texts and patterns that are shorter than the fuel.
abbrev Right : ℕ → Type 0
Right f =
    (str pattern : Bytes) (count : ℕ)
    → pattern_length pattern < f
    → Decided (Matches (items pattern) str) (count + literals (items pattern))
        (loop f str pattern count)

escape_case-Decided :
    (f p c count : ℕ) (pattern str : Bytes)
    → Right f
    → (p == b'*') ≡ false
    → (p == b'?') ≡ false
    → (p == b'\\') ≡ true
    → pattern_length pattern < f
    → Decided
        (Matches (items (p ∷ pattern)) (c ∷ str))
        (count + literals (items (p ∷ pattern)))
        (escape_case (λ rest n. loop f str rest n) pattern c count)
unfolding escape_case literals
escape_case-Decided f p c count [] str ih h k l fits =
    rw (items-dangling p h k l) (λ m. dangling-never m)
escape_case-Decided f p c count (d ∷ pattern) str ih h k l fits =
    rw (items-escape p d pattern h k l) (
      literal_case-Decided (λ n. loop f str pattern n) d c count pattern str
        (ih str pattern (count + 1) (omega arith)))

star-Decided :
    (f p c count : ℕ) (pattern str : Bytes)
    → Right f
    → (p == b'*') ≡ true
    → pattern_length pattern < f
    → Decided
        (Matches (items (p ∷ pattern)) (c ∷ str))
        (count + literals (items (p ∷ pattern)))
        (unfold loop in loop (suc f) (c ∷ str) (p ∷ pattern) count)
unfolding loop literals
star-Decided f p c count pattern str ih h fits =
    let shorter = skip_stars-le pattern in
    rw (h, items-star p pattern h)
      (Decided-map (skip_stars-Matches pattern).0 (skip_stars-Matches pattern).1
        (omega (arith, literals-skip_stars pattern)) _
        (star_case-Decided (λ s. loop f s (skip_stars pattern) count) (skip_stars pattern) (c ∷ str)
          count (NoStar-skip_stars pattern) (λ s. ih s (skip_stars pattern) count (omega arith))))

loop-Decided : (f : ℕ) → Right f
unfolding loop items literals
loop-Decided zero str pattern count fits = elim fits [ ]
loop-Decided (suc f) [] pattern count fits = Decided-skip_stars pattern count
loop-Decided (suc f) (c ∷ str) [] count fits = λ m. elim m [ ]
loop-Decided (suc f) (c ∷ str) (p ∷ pattern) count fits = elim (Bool-cases (p == b'*')) [
  | inl h ↦ star-Decided f p c count pattern str (loop-Decided f) h (omega arith)
  | inr h ↦ elim (Bool-cases (p == b'?')) [
    | inl k ↦
        rw (h, k, items-any p pattern h k)
          (any-Decided _ c pattern str _ (loop-Decided f str pattern count (omega arith)))
    | inr k ↦ elim (Bool-cases (p == b'\\')) [
      | inl l ↦
          rw (h, k, l)
            (escape_case-Decided f p c count pattern str (loop-Decided f) h k l (omega arith))
      | inr l ↦
          rw (h, k, l, items-literal p pattern h k l)
            (literal_case-Decided (λ n. loop f str pattern n) p c count pattern str
              (loop-Decided f str pattern (count + 1) (omega arith)))
    ]
  ]
]

-- For every text and every pattern: `GlobMatch` answers the number of the pattern's literal
-- characters if the pattern matches the text, and -1 if it does not.
pub glob_match-Decided :
    (str pattern : Bytes)
    → Decided (Matches (items pattern) str) (literals (items pattern)) (glob_match str pattern)
unfolding glob_match
glob_match-Decided str pattern =
    rw zero-add at (loop-Decided (pattern_length pattern + 1) str pattern 0 (omega arith))
