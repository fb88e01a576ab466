-- ===== src/Pnp/Changes.antt =====
-- The lists of added and of removed addresses, as plain differences of sorted lists.
use ipp_usb.Base.{
  ◌≡◌, refl, ap, ◌∙◌, inl, inr, Bool, true, false, not, ◌&&◌, ◌||◌, arith, Bool-cases, List, [],
  ◌∷◌, All,
}
use ipp_usb.UsbCommon.{UsbAddr, less, same}
use ipp_usb.UsbCommon.Order.{IsSorted, same_iff, less_irrefl}
use ipp_usb.UsbCommon.Difference.{member, without}

pub member-without :
    (list from : List UsbAddr) (a : UsbAddr)
    → member (without list from) a ≡ (member from a && not (member list a))
member-without list [] a = refl
member-without list (x ∷ from) a = elim (Bool-cases (same x a)) [
  | inl s ↦ rw s (here ((same_iff x a).0 s) s (member-without list from a))
  | inr s ↦ rw s (elim (Bool-cases (member list x)) [
    | inl m ↦ rw m (member-without list from a)
    | inr m ↦ rw (m, s) (member-without list from a)
  ])
]
  where
    here :
        x ≡ a
        → same x a ≡ true
        → member (without list from) a ≡ (member from a && not (member list a))
        → member (without list (x ∷ from)) a ≡ not (member list a)
    here e s h = elim (Bool-cases (member list a)) [
      | inl m ↦ rw (ap (member list) e ∙ m, m, h) (ground (arith, m))
      | inr m ↦ rw (ap (member list) e ∙ m, s, m) refl
    ]

All-without :
    (P : UsbAddr → Type 0) (list from : List UsbAddr) → All P from → All P (without list from)
All-without P list [] h = tt
All-without P list (x ∷ from) h = elim (Bool-cases (member list x)) [
  | inl m ↦ rw m (All-without P list from h.1)
  | inr m ↦ rw m (h.0, All-without P list from h.1)
]

pub without-IsSorted : (list from : List UsbAddr) → IsSorted from → IsSorted (without list from)
without-IsSorted list [] s = tt
without-IsSorted list (x ∷ from) s = elim (Bool-cases (member list x)) [
  | inl m ↦ rw m (without-IsSorted list from s.1)
  | inr m ↦ rw m (All-without (λ b. less x b ≡ true) list from s.0, without-IsSorted list from s.1)
]

pub without_lacks :
    (list from : List UsbAddr) → All (λ a. member list a ≡ false) (without list from)
without_lacks list [] = tt
without_lacks list (x ∷ from) = elim (Bool-cases (member list x)) [
  | inl m ↦ rw m (without_lacks list from)
  | inr m ↦ rw m (m, without_lacks list from)
]

less-differs : (a b : UsbAddr) → less a b ≡ true → same a b ≡ false
less-differs a b l = elim (Bool-cases (same a b)) [
  | inl s ↦ absurd (ground (arith, less_irrefl b, rw ((same_iff a b).0 s) at l))
  | inr s ↦ s
]

pub fresh_rest :
    (known : UsbAddr → Bool) (addr : UsbAddr) (added : List UsbAddr)
    → All (λ b. less addr b ≡ true) added
    → All (λ a. known a ≡ false) added
    → All (λ a. (known a || same addr a) ≡ false) added
fresh_rest known addr [] l n = tt
fresh_rest known addr (x ∷ added) l n =
    (rw (n.0, less-differs addr x l.0) refl, fresh_rest known addr added l.1 n.1)
