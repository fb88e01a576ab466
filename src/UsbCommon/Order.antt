-- ===== src/UsbCommon/Order.antt =====
-- The order of USB addresses, sorted lists of them, and where an address belongs in one.
use ipp_usb.Base.{
  ℕ, zero, suc, ◌≤◌, ◌<◌, ◌≡◌, ◌↔◌, inl, inr, refl, true, false, if◌then◌else◌, some, List, [], ◌∷◌,
  length, get_elem?, All, Occurs, arith,
}
use ipp_usb.UsbCommon.{UsbAddr, less, same, not_less_at, lower_bound}
use ipp_usb.UsbCommon.Search.{search-Turns}

pub less_trans : (a b c : UsbAddr) → less a b ≡ true → less b c ≡ true → less a c ≡ true
unfolding less
less_trans a b c h k = ground arith

pub less_irrefl : (a : UsbAddr) → less a a ≡ false
unfolding less
less_irrefl a = ground arith

pub less-asymm : (a b : UsbAddr) → less a b ≡ true → less b a ≡ false
unfolding less
less-asymm a b h = ground arith

pub less-total : (a b : UsbAddr) → less a b ≡ false → same a b ≡ false → less b a ≡ true
unfolding less same
less-total a b h k = ground arith

pub same_iff : (a b : UsbAddr) → (same a b ≡ true) ↔ (a ≡ b)
unfolding same
same_iff a b = ground arith

-- Every item is less than all items behind it.
abbrev pub IsSorted : List UsbAddr → Type 0
IsSorted [] = Unit
IsSorted (a ∷ list) = All (λ b. less a b ≡ true) list × IsSorted list

-- The number of items in front of the first item that is not less than the address.
unfoldable pub rank : List UsbAddr → UsbAddr → ℕ
rank [] a = 0
rank (x ∷ list) a = if less x a then suc (rank list a) else 0

rank-le-length : (list : List UsbAddr) (a : UsbAddr) → rank list a ≤ length list
unfolding rank
rank-le-length [] a = omega arith
rank-le-length (x ∷ list) a = ground (arith, rank-le-length list a)

not_less_at-below :
    (list : List UsbAddr) (a : UsbAddr) (m : ℕ) → m < rank list a → not_less_at list a m ≡ false
unfolding rank not_less_at
not_less_at-below [] a m h = absurd (omega arith)
not_less_at-below (x ∷ list) a zero h = ground arith
not_less_at-below (x ∷ list) a (suc m) h = ground (arith, not_less_at-below list a m)

-- Where an item is not less than `a`, no greater item is.
not_less_at-greater :
    (x : UsbAddr) (list : List UsbAddr) (a : UsbAddr) (m : ℕ)
    → less x a ≡ false
    → All (λ b. less x b ≡ true) list
    → not_less_at list a m ≡ true
unfolding not_less_at
not_less_at-greater x [] a m h k = refl
not_less_at-greater x (y ∷ list) a zero h k = ground (arith, less_trans x y a)
not_less_at-greater x (y ∷ list) a (suc m) h k = not_less_at-greater x list a m h k.1

not_less_at-above :
    (list : List UsbAddr) (a : UsbAddr) (m : ℕ)
    → IsSorted list
    → rank list a ≤ m
    → not_less_at list a m ≡ true
unfolding rank not_less_at
not_less_at-above [] a m s h = refl
not_less_at-above (x ∷ list) a zero s h = ground arith
not_less_at-above (x ∷ list) a (suc m) s h =
    ground (arith, not_less_at-above list a m s.1, not_less_at-greater x list a m)

-- In a sorted list the search stops at the rank.
pub lower_bound-rank :
    (list : List UsbAddr) (a : UsbAddr) → IsSorted list → lower_bound list a ≡ rank list a
lower_bound-rank list a s = search-Turns (length list) (not_less_at list a) (rank list a) (record {
  inside = rank-le-length list a;
  below = not_less_at-below list a;
  above = λ m h _. not_less_at-above list a m s h;
})

rank_greatest :
    (list : List UsbAddr) (a : UsbAddr)
    → All (λ b. less b a ≡ true) list
    → rank list a ≡ length list
unfolding rank
rank_greatest [] a h = refl
rank_greatest (x ∷ list) a h = ground (arith, rank_greatest list a h.1)

-- Where all items are less than the address, the search stops at the end, sorted or not.
pub lower_bound_greatest :
    (list : List UsbAddr) (a : UsbAddr)
    → All (λ b. less b a ≡ true) list
    → lower_bound list a ≡ length list
lower_bound_greatest list a h =
    search-Turns (length list) (not_less_at list a) (length list) (record {
      inside = omega arith;
      below = λ m k. not_less_at-below list a m (omega (arith, rank_greatest list a h));
      above = λ m k l. absurd (omega arith);
    })

-- An item that occurs in a sorted list stands at its rank.
pub get_elem?-rank :
    (list : List UsbAddr) (a : UsbAddr)
    → IsSorted list
    → Occurs a list
    → get_elem? list (rank list a) ≡ some a
unfolding rank
get_elem?-rank [] a s o = elim o [ ]
get_elem?-rank (x ∷ list) a s (inl e) = rw e (rw less_irrefl)
get_elem?-rank (x ∷ list) a s (inr o) = rw (All-Occurs list s.0 o) (get_elem?-rank list a s.1 o)
  where
    All-Occurs : (l : List UsbAddr) → All (λ b. less x b ≡ true) l → Occurs a l → less x a ≡ true
    All-Occurs [] h o' = elim o' [ ]
    All-Occurs (y ∷ l) h (inl e) = rw e h.0
    All-Occurs (y ∷ l) h (inr o) = All-Occurs l h.1 o

pub get_elem?-Occurs :
    (list : List UsbAddr) (i : ℕ) (a : UsbAddr) → get_elem? list i ≡ some a → Occurs a list
get_elem?-Occurs [] i a h = cc
get_elem?-Occurs (x ∷ list) zero a h = inl cc
get_elem?-Occurs (x ∷ list) (suc i) a h = inr (get_elem?-Occurs list i a h)
