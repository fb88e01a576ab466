-- ===== src/Glob/Items.antt =====
-- What a pattern of `GlobMatch` means, with no search order in it: the comment above the
-- function (glob.go), read as a relation.
use ipp_usb.Base.{ℕ, suc, ◌≡◌, List, [], ◌∷◌, Bytes, ◌==◌, if◌then◌else◌}

-- `dangling` is a backslash that ends the pattern: it matches nothing.
pub data Item : Type 0 where
  star any dangling : Item
  literal : ℕ → Item

unfoldable pub items : Bytes → List Item
items [] = []
items (c ∷ []) =
    (if c == b'*'
      then star
      else if c == b'?'
      then any
      else if c == b'\\'
      then dangling
      else literal c)
    ∷ []
items (c ∷ d ∷ pattern) =
    let escaped = literal d ∷ items pattern in
    let onward = items (d ∷ pattern) in
    if c == b'*'
    then star ∷ onward
    else if c == b'?'
    then any ∷ onward
    else if c == b'\\'
    then escaped
    else literal c ∷ onward

pub data Matches : List Item → Bytes → Type 0 where
  empty : Matches [] []
  one : {c : ℕ} {p : List Item} {s : Bytes} → Matches p s → Matches (any ∷ p) (c ∷ s)
  same :
      {c d : ℕ} {p : List Item} {s : Bytes} → c ≡ d → Matches p s → Matches (literal d ∷ p) (c ∷ s)
  leave : {p : List Item} {s : Bytes} → Matches p s → Matches (star ∷ p) s
  take : {c : ℕ} {p : List Item} {s : Bytes} → Matches (star ∷ p) s → Matches (star ∷ p) (c ∷ s)

-- The characters of the pattern that are not wildcards.
unfoldable pub literals : List Item → ℕ
literals [] = 0
literals (literal _ ∷ p) = suc (literals p)
literals (_ ∷ p) = literals p
