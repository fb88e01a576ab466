-- ===== src/Conf/Names/Blanks.antt =====
-- Trimming of ASCII texts.
use ipp_usb.Base.{
  ℕ, ◌<◌, ◌≤◌, ◌≡◌, inl, inr, refl, true, Bool-cases, if_cases, if◌then◌else◌, [], ◌∷◌, Bytes, All,
  suc, is_space, trim_left, trim_right, is_blank, unless_blank, trim_space, length, arith,
}

abbrev pub IsAscii : Bytes → Type 0
IsAscii = All (λ c. c < 128)

pub trim_left_cons :
    (c : ℕ) (s : Bytes)
    → IsAscii (c ∷ s)
    → trim_left (c ∷ s) ≡ (if is_space c then trim_left s else c ∷ s)
unfolding trim_left
trim_left_cons c [] h = refl
trim_left_cons c (d ∷ []) h = ground arith
trim_left_cons c (d ∷ e ∷ s) h = ground arith

pub trim_left-IsAscii : (s : Bytes) → IsAscii s → IsAscii (trim_left s)
unfolding trim_left
trim_left-IsAscii [] h = tt
trim_left-IsAscii (c ∷ s) h = elim (Bool-cases (is_space c)) [
  | inl e ↦ rw (trim_left_cons c s h, e) (trim_left-IsAscii s h.1)
  | inr e ↦ rw (trim_left_cons c s h, e) h
]

pub length-trim_left : (s : Bytes) → IsAscii s → length (trim_left s) ≤ length s
unfolding trim_left
length-trim_left [] h = omega arith
length-trim_left (c ∷ s) h = elim (Bool-cases (is_space c)) [
  | inl e ↦ rw (trim_left_cons c s h, e) (omega (arith, length-trim_left s h.1))
  | inr e ↦ rw (trim_left_cons c s h, e) (omega arith)
]

pub length-trim_right : (s : Bytes) → length (trim_right s) ≤ length s
unfolding trim_right
length-trim_right [] = omega arith
length-trim_right (c ∷ s) =
    unless_blank_length (c ∷ trim_right s) (suc (length s)) (omega (arith, length-trim_right s))
  where
    unless_blank_length : (t : Bytes) (n : ℕ) → length t ≤ n → length (unless_blank t) ≤ n
    unless_blank_length t n h = ground arith

pub trim_right_idempotent : (s : Bytes) → trim_right (trim_right s) ≡ trim_right s
unfolding trim_right
trim_right_idempotent [] = refl
trim_right_idempotent (c ∷ s) = ground (arith, trim_right_idempotent s)

-- A text with no blank at its end.
abbrev pub EndsWell : Bytes → Type 0
EndsWell s = trim_right s ≡ s

pub EndsWell-tail : (c : ℕ) (s : Bytes) → EndsWell (c ∷ s) → EndsWell s
unfolding trim_right
EndsWell-tail c s h = tail_same (trim_right s) h
  where
    tail_same : (t : Bytes) → unless_blank (c ∷ t) ≡ c ∷ s → t ≡ s
    tail_same t k = ground arith

pub trim_left-EndsWell : (s : Bytes) → IsAscii s → EndsWell s → EndsWell (trim_left s)
unfolding trim_left
trim_left-EndsWell [] h e = e
trim_left-EndsWell (c ∷ s) h e = elim (Bool-cases (is_space c)) [
  | inl b ↦ rw (trim_left_cons c s h, b) (trim_left-EndsWell s h.1 (EndsWell-tail c s e))
  | inr b ↦ rw (trim_left_cons c s h, b) e
]

pub trim_right-IsAscii : (s : Bytes) → IsAscii s → IsAscii (trim_right s)
unfolding trim_right
trim_right-IsAscii [] h = tt
trim_right-IsAscii (c ∷ s) h =
    unless_blank-IsAscii (c ∷ trim_right s) (h.0, trim_right-IsAscii s h.1)
  where
    unless_blank-IsAscii : (t : Bytes) → IsAscii t → IsAscii (unless_blank t)
    unless_blank-IsAscii t k = if_cases IsAscii (is_blank t) [] t (λ _. tt) (λ _. k)

-- A blank and what is left behind it, in the middle of a text that ends well.
pub trim_space_blank :
    (c : ℕ) (s : Bytes)
    → IsAscii (c ∷ s)
    → EndsWell (c ∷ s)
    → is_space c ≡ true
    → trim_space (c ∷ s) ≡ trim_left s
unfolding trim_space
trim_space_blank c s h e b =
    rw (trim_left_cons c s h, b) (trim_left-EndsWell s h.1 (EndsWell-tail c s e))

pub trim_space-EndsWell : (s : Bytes) → EndsWell (trim_space s)
unfolding trim_space
trim_space-EndsWell s = trim_right_idempotent (trim_left s)

pub trim_space-IsAscii : (s : Bytes) → IsAscii s → IsAscii (trim_space s)
unfolding trim_space
trim_space-IsAscii s h = trim_right-IsAscii (trim_left s) (trim_left-IsAscii s h)

pub length-trim_space : (s : Bytes) → IsAscii s → length (trim_space s) ≤ length s
unfolding trim_space
length-trim_space s h = omega (arith, length-trim_left s h, length-trim_right (trim_left s))

pub length-trim_space_blank :
    (c : ℕ) (s : Bytes)
    → IsAscii (c ∷ s)
    → is_space c ≡ true
    → length (trim_space (c ∷ s)) ≤ length s
unfolding trim_space
length-trim_space_blank c s h b =
    rw (trim_left_cons c s h, b)
      (omega (arith, length-trim_left s h.1, length-trim_right (trim_left s)))
