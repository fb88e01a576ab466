-- ===== src/UsbCommon/Lookup.antt =====
-- `Find` of usbcommon.go in sorted lists.
use ipp_usb.Base.{
  zero, suc, ◌≡◌, ◌↔◌, inl, inr, Bool, true, false, Bool-cases, Option, none, some, List, get_elem?,
  Occurs, ℤ, pos, negsuc,
}
use ipp_usb.UsbCommon.{UsbAddr, holds, find}
use ipp_usb.UsbCommon.Order.{IsSorted, rank, same_iff, lower_bound-rank, get_elem?-rank}

-- An index at which the address stands, or -1 if it does not occur.
abbrev pub Located : List UsbAddr → UsbAddr → ℤ → Type 0
Located list a (pos i) = get_elem? list i ≡ some a
Located list a (negsuc zero) = ¬ Occurs a list
Located list a (negsuc (suc n)) = ⊥

holds_iff : (o : Option UsbAddr) (a : UsbAddr) → (holds o a ≡ true) ↔ (o ≡ some a)
holds_iff none a = (λ h. cc, λ h. cc)
holds_iff (some x) a = (λ h. rw ((same_iff x a).0 h), λ h. (same_iff x a).1 cc)

missed : {b : Bool} → b ≡ false → b ≡ true → ⊥
missed h k = cc

-- In a sorted list, Find answers an index of the address if it occurs, and -1 if it does not.
pub find-Located :
    (list : List UsbAddr) (a : UsbAddr) → IsSorted list → Located list a (find list a)
unfolding find
find-Located list a s =
    rw (lower_bound-rank list a s) (elim (Bool-cases (holds (get_elem? list (rank list a)) a)) [
      | inl h ↦ rw h ((holds_iff _ a).0 h)
      | inr h ↦ rw h (λ o. missed h ((holds_iff _ a).1 (get_elem?-rank list a s o)))
    ])
