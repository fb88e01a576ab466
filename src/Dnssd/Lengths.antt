-- ===== src/Dnssd/Lengths.antt =====
-- The limits of DNS-SD: 255 bytes for an item of a TXT record, 63 for a service instance's name.
use ipp_usb.Base.{
  ℕ, zero, suc, ◌+◌, ◌-◌, ◌≤◌, ◌≡◌, ◌⊎◌, inl, inr, refl, ap, ◌∙◌, false, not, ◌&&◌, if_cases, leb,
  ltb, ◌==◌, if◌then◌else◌, Option, none, some, [], ◌∷◌, ◌++◌, Bytes, codes, bytes_eq, take, length,
  length-append, append_assoc, itoa, arith,
}
use ipp_usb.DevState.{DevState}
use ipp_usb.Dnssd.{TxtRecord, add, before_last, add_front, add_pdl, named, fitted, instance_of}

length-take_le :
    (n : ℕ) (value : Bytes) → (length (take n value) ≤ n) × (length (take n value) ≤ length value)
length-take_le zero value = (omega arith, omega arith)
length-take_le (suc n) [] = (omega arith, omega arith)
length-take_le (suc n) (x ∷ value) =
    let h = length-take_le n value in (omega (arith, h.0), omega (arith, h.1))

-- `front` is `value` up to one of its bytes `c`.
abbrev pub CutAt : ℕ → Bytes → Bytes → Type 0
CutAt c value front = (rest : Bytes) × (value ≡ front ++ c ∷ rest)

abbrev CutLast : ℕ → Bytes → Option Bytes → Type 0
CutLast c value none = Unit
CutLast c value (some front) = CutAt c value front

before_last-CutLast : (c : ℕ) (value : Bytes) → CutLast c value (before_last c value)
unfolding before_last
before_last-CutLast c [] = tt
before_last-CutLast c (x ∷ value) = by_rest (before_last c value) (before_last-CutLast c value)
  where
    by_rest :
        (o : Option Bytes)
        → CutLast c value o
        → CutLast c
            (x ∷ value)
            (elim o [ some front ↦ some (x ∷ front) | none ↦ if x == c then some [] else none ])
    by_rest (some front) h = (h.0, ap (λ v. x ∷ v) h.1)
    by_rest none h =
        if_cases (CutLast c (x ∷ value)) (x == c) _ _
          (λ e. (value, ap (λ y. y ∷ value) (ground (arith, e)))) (λ e. tt)

take-append : (n : ℕ) (value : Bytes) → (rest : Bytes) × (value ≡ take n value ++ rest)
take-append zero value = (value, refl)
take-append (suc n) [] = ([], refl)
take-append (suc n) (x ∷ value) = let h = take-append n value in (h.0, ap (λ v. x ∷ v) h.1)

-- The item that `AddPDL` adds, if any.
abbrev pub Fits : TxtRecord → Bytes → Bytes → TxtRecord → Type 0
Fits txt key value after =
    (after ≡ txt)
    ⊎ ((shown : Bytes) × ((after ≡ txt ++ record { key = key; value = shown; url = false } ∷ [])
          × (length key + 1 + length shown ≤ 255)
          × ((shown ≡ value) ⊎ CutAt 44 value shown)))

add_front-Fits :
    (txt : TxtRecord) (key value : Bytes) (o : Option Bytes)
    → length key + 1 ≤ 255
    → CutLast 44 (take (255 - (length key + 1) + 1) value) o
    → Fits txt key value (add_front txt key o)
unfolding add
add_front-Fits txt key value none h c = inl refl
add_front-Fits txt key value (some front) h c =
    let kept = 255 - (length key + 1) + 1 in
    let more = take-append kept value in
    let short : length front + suc (length c.0) ≤ kept = omega (
      arith,
      (length-take_le kept value).0,
      ap (λ (v : Bytes). length v) c.1,
      length-append front (44 ∷ c.0),
    ) in
    inr (
      front,
      (
        refl,
        omega (arith, short, h),
        inr (
          c.0 ++ more.0,
          more.1 ∙ ap (λ v. v ++ more.0) c.1 ∙ append_assoc front (44 ∷ c.0) more.0,
        ),
      ),
    )

-- `AddPDL` adds nothing, or one item: with its `=`, it has at most 255 bytes, and its value is the
-- whole list of formats, or a part of it that ends where a comma stands.
pub add_pdl-Fits :
    (txt : TxtRecord) (key value : Bytes) → Fits txt key value (add_pdl txt key value)
unfolding add_pdl add
add_pdl-Fits txt key value =
    if_cases (Fits txt key value) (leb (length key + 1) 255 && leb (length value) max)
      (add txt key value)
      (if max == 0 then txt else add_front txt key (before_last 44 (take (max + 1) value)))
      (λ h. inr (value, (refl, ground (arith, h), inl refl)))
      (λ h.
        if_cases (Fits txt key value) (max == 0) txt
          (add_front txt key (before_last 44 (take (max + 1) value))) (λ k. inl refl)
          (λ k.
            add_front-Fits txt key value (before_last 44 (take (max + 1) value)) (ground (arith, k))
              (before_last-CutLast 44 (take (max + 1) value))))
  where
    max : ℕ
    max = 255 - (length key + 1)

length-fitted : (name suffix : Bytes) → length suffix ≤ 63 → length (fitted (name, suffix)) ≤ 63
length-fitted name suffix h =
    if_cases (λ (b : Bytes). length b ≤ 63) (ltb 63 (length name + length suffix)) _ _
      (λ e. omega (
        arith,
        h,
        (length-take_le (63 - length suffix) name).0,
        length-append (take (63 - length suffix) name) suffix,
      ))
      (λ e. ground (arith, e, length-append name suffix))

-- The instance name of a service has at most 63 bytes, at any suffix of at most 56 digits.
pub length-instance_of :
    (state : DevState) (suffix : ℕ)
    → length (itoa suffix) ≤ 56
    → length (instance_of state suffix) ≤ 63
unfolding instance_of
length-instance_of state suffix h = length-fitted (named state suffix).0 (named state suffix).1 (
    if_cases (λ (n : Bytes × Bytes). length n.1 ≤ 63) (not (suffix == 0)) _ _
      (λ e. omega (arith, h, length-append (itoa suffix) (codes ")")))
      (λ e.
        if_cases (λ (n : Bytes × Bytes). length n.1 ≤ 63)
          (bytes_eq state.dns_sd_name state.dns_sd_override) _ _ (λ k. omega arith)
          (λ k. omega arith)))
