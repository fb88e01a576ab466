-- ===== src/UsbCommon/Insertion.antt =====
-- `Add` of usbcommon.go.
use mathlib.Core.List.{Perm, perm_append_singleton}
use mathlib.Core.List.Perm
use native.Mathlib.Decide.{dec_le}
use ipp_usb.Base.{
  All-append, ℕ, zero, suc, ◌+◌, ◌≤◌, ◌<◌, ◌≡◌, ◌≢◌, ◌↔◌, ◌⊎◌, inl, inr, refl, true, false,
  Bool-cases, Option, none, some, List, [], ◌∷◌, ◌++◌, length, get_elem?, set, All, Occurs, subst,
  arith,
}
use ipp_usb.UsbCommon.{UsbAddr, less, same, lower_bound, insert_at, add}
use ipp_usb.UsbCommon.Order.{
  IsSorted, rank, same_iff, less-asymm, less-total, lower_bound-rank, lower_bound_greatest,
  get_elem?-Occurs,
}

head-some : {a b : UsbAddr} → some a ≡ some b → a ≡ b
head-some h = ground arith

set-Perm :
    (list : List UsbAddr) (i : ℕ) (a x : UsbAddr)
    → get_elem? list i ≡ some x
    → Perm (set (list ++ x ∷ []) i a) (a ∷ list)
set-Perm [] i a x h = cc
set-Perm (y ∷ list) zero a x h = Perm.cons a (rw (head-some h) (perm_append_singleton x list))
set-Perm (y ∷ list) (suc i) a x h =
    Perm.trans (Perm.cons y (set-Perm list i a x h)) (Perm.swap a y list)

insert_at-Perm :
    (list : List UsbAddr) (a : UsbAddr) (i : ℕ) (o : Option UsbAddr)
    → get_elem? list i ≡ o
    → ((insert_at list a i o ≡ list) × Occurs a list) ⊎ Perm (insert_at list a i o) (a ∷ list)
unfolding insert_at
insert_at-Perm list a i none h = inr (perm_append_singleton a list)
insert_at-Perm list a i (some x) h = elim (Bool-cases (same x a)) [
  | inl e ↦ rw e (inl (refl, rw (← (same_iff x a).0 e) (get_elem?-Occurs list i x h)))
  | inr e ↦ rw e (inr (set-Perm list i a x h))
]

-- For every list, sorted or not: Add keeps all items and adds the address, or leaves alone a list
-- that holds the address.
pub add-Perm :
    (list : List UsbAddr) (a : UsbAddr)
    → ((add list a ≡ list) × Occurs a list) ⊎ Perm (add list a) (a ∷ list)
unfolding add
add-Perm list a = insert_at-Perm list a (lower_bound list a) _ refl

module _ (P : UsbAddr → Type 0) where
  All_last : (list : List UsbAddr) (x : UsbAddr) → All P (list ++ x ∷ []) → P x
  All_last [] x h = h.0
  All_last (y ∷ list) x h = All_last list x h.1

  All-set : (list : List UsbAddr) (i : ℕ) (a : UsbAddr) → All P list → P a → All P (set list i a)
  All-set [] i a h k = tt
  All-set (y ∷ list) zero a h k = (k, h.1)
  All-set (y ∷ list) (suc i) a h k = (h.0, All-set list i a h.1 k)

  All-get_elem? :
      (list : List UsbAddr) (i : ℕ) (x : UsbAddr) → All P list → get_elem? list i ≡ some x → P x
  All-get_elem? [] i x h e = absurd (cc e)
  All-get_elem? (y ∷ list) zero x h e = subst P (head-some e) h.0
  All-get_elem? (y ∷ list) (suc i) x h e = All-get_elem? list i x h.1 e

set-unsorted :
    (list : List UsbAddr) (i : ℕ) (a x : UsbAddr)
    → get_elem? list i ≡ some x
    → suc i < length list
    → IsSorted list
    → ¬ IsSorted (set (list ++ x ∷ []) i a)
set-unsorted [] i a x h k s t = omega arith
set-unsorted (z ∷ []) zero a x h k s t = omega arith
set-unsorted (z ∷ y ∷ list) zero a x h k s t =
    let back = All_last (λ b. less y b ≡ true) list x t.1.0 in
    cc (less-asymm z y s.0.0, back, head-some h)
set-unsorted (z ∷ list) (suc i) a x h k s t = set-unsorted list i a x h (omega arith) s.1 t.1

-- Where the address has the last rank, all items are less than it.
rank-greatest :
    (list : List UsbAddr) (a : UsbAddr)
    → length list ≤ rank list a
    → All (λ b. less b a ≡ true) list
unfolding rank
rank-greatest [] a h = tt
rank-greatest (x ∷ list) a h = elim (Bool-cases (less x a)) [
  | inl e ↦ (e, rank-greatest list a (omega (arith, rw e at h)))
  | inr e ↦ absurd (omega (arith, rw e at h))
]

append-IsSorted :
    (list : List UsbAddr) (a : UsbAddr)
    → IsSorted list
    → All (λ b. less b a ≡ true) list
    → IsSorted (list ++ a ∷ [])
append-IsSorted [] a s h = (tt, tt)
append-IsSorted (x ∷ list) a s h =
    (All-append (λ b. less x b ≡ true) list a s.0 h.0, append-IsSorted list a s.1 h.1)

set_last-IsSorted :
    (list : List UsbAddr) (a x : UsbAddr)
    → IsSorted list
    → get_elem? list (rank list a) ≡ some x
    → length list ≡ suc (rank list a)
    → less a x ≡ true
    → IsSorted (set (list ++ x ∷ []) (rank list a) a)
unfolding rank
set_last-IsSorted [] a x s h l k = cc
set_last-IsSorted (z ∷ list) a x s h l k = elim (Bool-cases (less z a)) [
  | inl e ↦
      rw e (
        later (λ g m. set_last-IsSorted list a x s.1 g m k) (rw e at h) (omega (arith, rw e at l))
          e)
  | inr e ↦ rw e (only list (rw e at h) (omega (arith, rw e at l)))
]
  where
    Rest : Type 0
    Rest = IsSorted (set (list ++ x ∷ []) (rank list a) a)

    later :
        (get_elem? list (rank list a) ≡ some x → length list ≡ suc (rank list a) → Rest)
        → get_elem? list (rank list a) ≡ some x
        → length list ≡ suc (rank list a)
        → less z a ≡ true
        → IsSorted (z ∷ set (list ++ x ∷ []) (rank list a) a)
    later ih g m e =
        let front = λ (b : UsbAddr). less z b ≡ true in
        let kept = All-append front list x s.0 (All-get_elem? front list _ x s.0 g) in
        (All-set front (list ++ x ∷ []) (rank list a) a kept e, ih g m)

    only : (l : List UsbAddr) → some z ≡ some x → length l ≡ 0 → IsSorted (a ∷ (l ++ x ∷ []))
    only [] g m = ((k, tt), (tt, tt))
    only (y ∷ l) g m = absurd (omega arith)

-- Where the rank is an index of the list, its item is not less than the address.
rank-not_less :
    (list : List UsbAddr) (a x : UsbAddr) → get_elem? list (rank list a) ≡ some x → less x a ≡ false
unfolding rank
rank-not_less [] a x h = cc
rank-not_less (z ∷ list) a x h = elim (Bool-cases (less z a)) [
  | inl e ↦ rank-not_less list a x (rw e at h)
  | inr e ↦ subst (λ y. less y a ≡ false) (head-some (rw e at h)) e
]

get_elem?-length : (list : List UsbAddr) (i : ℕ) → i < length list → get_elem? list i ≢ none
get_elem?-length [] i h k = omega arith
get_elem?-length (x ∷ list) zero h k = cc
get_elem?-length (x ∷ list) (suc i) h k = get_elem?-length list i (omega arith) k

get_elem?-some-lt :
    (list : List UsbAddr) (i : ℕ) (x : UsbAddr) → get_elem? list i ≡ some x → i < length list
get_elem?-some-lt [] i x h = absurd (cc h)
get_elem?-some-lt (y ∷ list) zero x h = omega arith
get_elem?-some-lt (y ∷ list) (suc i) x h = omega (arith, get_elem?-some-lt list i x h)

insert_at-IsSorted_iff :
    (list : List UsbAddr) (a : UsbAddr) (o : Option UsbAddr)
    → IsSorted list
    → ¬ Occurs a list
    → get_elem? list (rank list a) ≡ o
    → IsSorted (insert_at list a (rank list a) o) ↔ (length list ≤ rank list a + 1)
unfolding insert_at
insert_at-IsSorted_iff list a none s n h =
    let past = λ (k : rank list a < length list). get_elem?-length list (rank list a) k h in
    (λ _. omega arith, λ _. append-IsSorted list a s (rank-greatest list a (omega arith)))
insert_at-IsSorted_iff list a (some x) s n h =
    let inside = get_elem?-some-lt list (rank list a) x h in
    let other = differs n h in
    rw other (
      (
        λ t. elim (dec_le (length list) (rank list a + 1)) [
          | yes l ↦ l
          | no l ↦ absurd (set-unsorted list (rank list a) a x h (omega arith) s t)
        ],
        λ l.
            set_last-IsSorted list a x s h (omega arith)
              (less-total x a (rank-not_less list a x h) other),
      ))
  where
    differs : ¬ Occurs a list → get_elem? list (rank list a) ≡ some x → same x a ≡ false
    differs n' h' = elim (Bool-cases (same x a)) [
      | inl e ↦
          absurd
            (n' (subst (λ y. Occurs y list) ((same_iff x a).0 e) (get_elem?-Occurs list _ x h')))
      | inr e ↦ e
    ]

-- Adding an address that a sorted list lacks keeps the list sorted exactly if at most one item of
-- the list is greater: with two or more, the displaced item lands behind greater ones.
pub add-IsSorted_iff :
    (list : List UsbAddr) (a : UsbAddr)
    → IsSorted list
    → ¬ Occurs a list
    → IsSorted (add list a) ↔ (length list ≤ rank list a + 1)
unfolding add
add-IsSorted_iff list a s n =
    rw (lower_bound-rank list a s) (insert_at-IsSorted_iff list a _ s n refl)

-- An address greater than all items is appended.
pub add_greatest :
    (list : List UsbAddr) (a : UsbAddr)
    → All (λ b. less b a ≡ true) list
    → add list a ≡ list ++ a ∷ []
unfolding add insert_at
add_greatest list a h = rw (lower_bound_greatest list a h, get_elem?_end list)
  where
    get_elem?_end : (l : List UsbAddr) → get_elem? l (length l) ≡ none
    get_elem?_end [] = refl
    get_elem?_end (x ∷ l) = get_elem?_end l
