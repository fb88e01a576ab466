-- ===== src/Uuid/Canonical.antt =====
-- What `UUIDNormalize` answers.
use ipp_usb.Base.{
  ℕ, suc, ◌+◌, ◌≡◌, inl, inr, refl, ap, ◌∙◌, Bool, true, false, Bool-cases, if_cases, ◌==◌,
  if◌then◌else◌, Option, none, some, [], ◌∷◌, map, Bytes, to_lower_byte, length, arith,
}
use ipp_usb.Uuid.{is_digit, noted, collect, formatted, stripped, uuid_normalize}

-- The digits of a text.
abbrev pub digits : Bytes → Bytes
digits [] = []
digits (c ∷ text) = if is_digit c then c ∷ digits text else digits text

abbrev exactly : ℕ → Bytes → Option Bytes
exactly n text = if n + length text == 32 then some text else none

noted-exactly : (n c : ℕ) (text : Bytes) → noted c (exactly (suc n) text) ≡ exactly n (c ∷ text)
noted-exactly n c text =
    let e : suc n + length text ≡ n + suc (length text) = omega arith in
    rw e (elim (Bool-cases (n + suc (length text) == 32)) [ inl h ↦ rw h refl | inr h ↦ rw h refl ])

full-exactly : (c : ℕ) (text : Bytes) → none ≡ exactly 32 (c ∷ text)
full-exactly c text = ground arith

collect-exactly : (cnt : ℕ) (text : Bytes) → collect cnt text ≡ exactly cnt (digits text)
unfolding collect
collect-exactly cnt [] = let e : cnt + 0 ≡ cnt = omega arith in rw e refl
collect-exactly cnt (c ∷ text) =
    by_digit (is_digit c) (collect-exactly cnt text)
      (ap (noted c) (collect-exactly (suc cnt) text) ∙ noted-exactly cnt c (digits text))
  where
    by_digit :
        (b : Bool)
        → collect cnt text ≡ exactly cnt (digits text)
        → noted c (collect (suc cnt) text) ≡ exactly cnt (c ∷ digits text)
        → (if b
            then if cnt == 32 then none else noted c (collect (suc cnt) text)
            else collect cnt text)
          ≡ exactly cnt (if b then c ∷ digits text else digits text)
    by_digit false rest more = rest
    by_digit true rest more =
        if_cases (λ o. o ≡ exactly cnt (c ∷ digits text)) (cnt == 32) none _
          (λ e. ground (arith, e)) (λ e. more)

-- The digits that a text has behind its prefixes, in small letters.
abbrev pub uuid_digits : Bytes → Bytes
uuid_digits uuid = digits (stripped (map to_lower_byte uuid))

-- `UUIDNormalize` answers the hexadecimal digits of the text, behind its prefixes, in the groups of
-- the standard form, if there are just 32 of them, and otherwise an empty text.
pub uuid_normalize-uuid_digits :
    (uuid : Bytes)
    → uuid_normalize uuid
      ≡ (if length (uuid_digits uuid) == 32 then formatted (some (uuid_digits uuid)) else [])
unfolding uuid_normalize
uuid_normalize-uuid_digits uuid =
    ap formatted (collect-exactly 0 (stripped (map to_lower_byte uuid)))
    ∙ formatted-exactly (uuid_digits uuid)
  where
    formatted-exactly :
        (ds : Bytes)
        → formatted (exactly 0 ds) ≡ (if length ds == 32 then formatted (some ds) else [])
    formatted-exactly ds =
        let e : 0 + length ds ≡ length ds = omega arith in
        rw e (elim (Bool-cases (length ds == 32)) [ inl h ↦ rw h refl | inr h ↦ rw h refl ])
