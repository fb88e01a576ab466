-- ===== src/Pnp/Tables.antt =====
-- Go maps with USB addresses as keys, as association lists with one entry for each key.
use ipp_usb.Base.{◌≡◌, refl, arith, if◌then◌else◌, Option, none, some, List, [], ◌∷◌}
use ipp_usb.UsbCommon.{UsbAddr, same}
use ipp_usb.UsbCommon.Order.{same_iff}

module _ {V : Type 0} where
  unfoldable pub find : UsbAddr → List (UsbAddr × V) → Option V
  find a [] = none
  find a ((b, v) ∷ m) = if same b a then some v else find a m

  unfoldable pub insert : UsbAddr → V → List (UsbAddr × V) → List (UsbAddr × V)
  insert a v [] = (a, v) ∷ []
  insert a v ((b, w) ∷ m) = if same b a then (a, v) ∷ m else (b, w) ∷ insert a v m

  unfoldable pub delete : UsbAddr → List (UsbAddr × V) → List (UsbAddr × V)
  delete a [] = []
  delete a ((b, v) ∷ m) = let rest = delete a m in if same b a then rest else (b, v) ∷ rest

  pub find-insert :
      (a b : UsbAddr) (v : V) (m : List (UsbAddr × V))
      → find b (insert a v m) ≡ (if same a b then some v else find b m)
  unfolding find insert
  find-insert a b v [] = refl
  find-insert a b v ((c, w) ∷ m) =
      ground (arith, same_iff a b, same_iff c a, same_iff c b, find-insert a b v m)

  pub find-delete :
      (a b : UsbAddr) (m : List (UsbAddr × V))
      → find b (delete a m) ≡ (if same a b then none else find b m)
  unfolding find delete
  find-delete a b [] = ground arith
  find-delete a b ((c, w) ∷ m) =
      ground (arith, same_iff a b, same_iff c a, same_iff c b, find-delete a b m)
