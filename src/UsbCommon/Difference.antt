-- ===== src/UsbCommon/Difference.antt =====
-- `Diff` of usbcommon.go over sorted lists.
use ipp_usb.Base.{
  All-append, zero, suc, ◌≡◌, inl, inr, sym, ◌∙◌, Bool, true, false, Bool-cases, List, [], ◌∷◌,
  ◌++◌, append-nil, append_assoc, All, Occurs, if◌then◌else◌, ℤ, pos, negsuc, arith,
}
use ipp_usb.UsbCommon.{UsbAddr, less, same, find, is_negative, add_missing, diff}
use ipp_usb.UsbCommon.Order.{IsSorted, same_iff, get_elem?-Occurs}
use ipp_usb.UsbCommon.Lookup.{Located, find-Located}
use ipp_usb.UsbCommon.Insertion.{add_greatest}

-- Plain membership, with no search.
abbrev pub member : List UsbAddr → UsbAddr → Bool
member [] a = false
member (x ∷ list) a = if same x a then true else member list a

-- The items of a list that another one lacks, in their order.
abbrev pub without : List UsbAddr → List UsbAddr → List UsbAddr
without list [] = []
without list (a ∷ from) = if member list a then without list from else a ∷ without list from

member-Occurs : (list : List UsbAddr) (a : UsbAddr) → member list a ≡ true → Occurs a list
member-Occurs [] a h = absurd (cc h)
member-Occurs (x ∷ list) a h = elim (Bool-cases (same x a)) [
  | inl e ↦ inl (sym ((same_iff x a).0 e))
  | inr e ↦ inr (member-Occurs list a (rw e at h))
]

Occurs-member : (list : List UsbAddr) (a : UsbAddr) → Occurs a list → member list a ≡ true
Occurs-member [] a o = elim o [ ]
Occurs-member (x ∷ list) a (inl e) = rw ((same_iff x a).1 (sym e))
Occurs-member (x ∷ list) a (inr o) = ground (arith, Occurs-member list a o)

Located-member :
    (list : List UsbAddr) (a : UsbAddr) (r : ℤ)
    → Located list a r
    → (if is_negative r then false else true) ≡ member list a
Located-member list a (pos i) h = sym (Occurs-member list a (get_elem?-Occurs list i a h))
Located-member list a (negsuc zero) h = elim (Bool-cases (member list a)) [
  | inl e ↦ absurd (h (member-Occurs list a e))
  | inr e ↦ sym e
]
Located-member list a (negsuc (suc n)) h = absurd h

-- All of `out` is less than all of `from`.
abbrev Precedes : List UsbAddr → List UsbAddr → Type 0
Precedes out [] = Unit
Precedes out (a ∷ from) = All (λ b. less b a ≡ true) out × Precedes out from

Precedes-append :
    (out from : List UsbAddr) (a : UsbAddr)
    → Precedes out from
    → All (λ b. less a b ≡ true) from
    → Precedes (out ++ a ∷ []) from
Precedes-append out [] a h k = tt
Precedes-append out (b ∷ from) a h k =
    (All-append (λ c. less c b ≡ true) out a h.0 k.0, Precedes-append out from a h.1 k.1)

add_missing-without :
    (list out from : List UsbAddr)
    → IsSorted list
    → IsSorted from
    → Precedes out from
    → add_missing list out from ≡ out ++ without list from
unfolding add_missing
add_missing-without list out [] s t p = sym (append-nil out)
add_missing-without list out (a ∷ from) s t p =
    let here = Located-member list a (find list a) (find-Located list a s) in
    elim (Bool-cases (is_negative (find list a))) [
      | inl e ↦
          let lacks = sym (rw e at here) in
          rw (e, lacks, add_greatest out a p.0)
            (add_missing-without list (out ++ a ∷ []) from s t.1
                (Precedes-append out from a p.1 t.0)
              ∙ append_assoc out (a ∷ []) (without list from))
      | inr e ↦
          let has = sym (rw e at here) in rw (e, has) (add_missing-without list out from s t.1 p.1)
    ]

Precedes-nil : (from : List UsbAddr) → Precedes [] from
Precedes-nil [] = tt
Precedes-nil (a ∷ from) = (tt, Precedes-nil from)

-- Over two sorted lists, Diff answers exactly the items of the second list that the first lacks,
-- and the items of the first that the second lacks, each in their order.
pub diff-without :
    (list list2 : List UsbAddr)
    → IsSorted list
    → IsSorted list2
    → diff list list2 ≡ (without list list2, without list2 list)
unfolding diff
diff-without list list2 s t = rw (
  add_missing-without list [] list2 s t (Precedes-nil list2),
  add_missing-without list2 [] list t s (Precedes-nil list),
)
