-- ===== src/UsbTransport/Pool/Counting.antt =====
-- Lists of connections, by how often each occurs.
use ipp_usb.Base.{
  ℕ, zero, suc, ◌+◌, ◌≡◌, ◌<◌, refl, ◌∙◌, List, [], ◌∷◌, ◌++◌, length, ltb, ◌==◌, if◌then◌else◌,
  arith,
}

unfoldable pub occurrences : ℕ → List ℕ → ℕ
occurrences c [] = 0
occurrences c (x ∷ xs) = (if x == c then 1 else 0) + occurrences c xs

-- The first occurrence is taken out.
unfoldable pub erase : ℕ → List ℕ → List ℕ
erase c [] = []
erase c (x ∷ xs) = if x == c then xs else x ∷ erase c xs

-- from, from + 1, ...: `n` of them.
unfoldable pub indices_from : ℕ → ℕ → List ℕ
indices_from from zero = []
indices_from from (suc n) = from ∷ indices_from (suc from) n

unfoldable pub indices : ℕ → List ℕ
unfolding indices_from
indices = indices_from 0

pub occurrences-append :
    (c : ℕ) (xs ys : List ℕ) → occurrences c (xs ++ ys) ≡ occurrences c xs + occurrences c ys
unfolding occurrences
occurrences-append c [] ys = omega arith
occurrences-append c (x ∷ xs) ys = omega (arith, occurrences-append c xs ys)

pub occurrences-erase :
    (c d : ℕ) (xs : List ℕ)
    → 0 < occurrences d xs
    → occurrences c (erase d xs) + (if d == c then 1 else 0) ≡ occurrences c xs
unfolding occurrences erase
occurrences-erase c d [] h = absurd (omega arith)
occurrences-erase c d (x ∷ xs) h = ground (arith, occurrences-erase c d xs)

pub length-erase :
    (d : ℕ) (xs : List ℕ) → 0 < occurrences d xs → suc (length (erase d xs)) ≡ length xs
unfolding occurrences erase
length-erase d [] h = absurd (omega arith)
length-erase d (x ∷ xs) h = ground (arith, length-erase d xs)

occurrences-indices_from :
    (c from n : ℕ)
    → occurrences c (indices_from from n)
      ≡ (if ltb c from then 0 else if ltb c (from + n) then 1 else 0)
unfolding occurrences indices_from
occurrences-indices_from c from zero = ground arith
occurrences-indices_from c from (suc n) = ground (arith, occurrences-indices_from c (suc from) n)

pub occurrences-indices : (c n : ℕ) → occurrences c (indices n) ≡ (if ltb c n then 1 else 0)
unfolding indices
occurrences-indices c n = occurrences-indices_from c 0 n ∙ ground arith

length-indices_from : (from n : ℕ) → length (indices_from from n) ≡ n
unfolding indices_from
length-indices_from from zero = refl
length-indices_from from (suc n) = ground (arith, length-indices_from (suc from) n)

pub length-indices : (n : ℕ) → length (indices n) ≡ n
unfolding indices
length-indices n = length-indices_from 0 n

pub occurrences_pos_length : (c : ℕ) (xs : List ℕ) → 0 < occurrences c xs → 0 < length xs
unfolding occurrences
occurrences_pos_length c [] h = h
occurrences_pos_length c (x ∷ xs) h = omega arith
