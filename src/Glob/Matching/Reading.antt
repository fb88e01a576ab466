-- ===== src/Glob/Matching/Reading.antt =====
-- How `items` reads the first byte of a pattern.
use ipp_usb.Base.{ℕ, ◌≡◌, true, false, List, [], ◌∷◌, Bytes, ◌==◌}
use ipp_usb.Glob.Items.{Item, star, any, dangling, literal, items, Matches}

module _ (p : ℕ) where
  pub items-star :
      (pattern : Bytes) → (p == b'*') ≡ true → items (p ∷ pattern) ≡ star ∷ items pattern
  unfolding items
  items-star [] h = rw h
  items-star (d ∷ pattern) h = rw h

  pub items-any :
      (pattern : Bytes)
      → (p == b'*') ≡ false
      → (p == b'?') ≡ true
      → items (p ∷ pattern) ≡ any ∷ items pattern
  unfolding items
  items-any [] h k = rw (h, k)
  items-any (d ∷ pattern) h k = rw (h, k)

  pub items-dangling :
      (p == b'*') ≡ false
      → (p == b'?') ≡ false
      → (p == b'\\') ≡ true
      → items (p ∷ []) ≡ dangling ∷ []
  unfolding items
  items-dangling h k l = rw (h, k, l)

  pub items-escape :
      (d : ℕ) (pattern : Bytes)
      → (p == b'*') ≡ false
      → (p == b'?') ≡ false
      → (p == b'\\') ≡ true
      → items (p ∷ d ∷ pattern) ≡ literal d ∷ items pattern
  unfolding items
  items-escape d pattern h k l = rw (h, k, l)

  pub items-literal :
      (pattern : Bytes)
      → (p == b'*') ≡ false
      → (p == b'?') ≡ false
      → (p == b'\\') ≡ false
      → items (p ∷ pattern) ≡ literal p ∷ items pattern
  unfolding items
  items-literal [] h k l = rw (h, k, l)
  items-literal (d ∷ pattern) h k l = rw (h, k, l)

pub dangling-never : {p : List Item} {s : Bytes} → ¬ Matches (dangling ∷ p) s
dangling-never m = elim m [ ]
