-- ===== src/UsbCommon/Search.antt =====
-- sort.Search, which usbcommon.go calls: binary search for the smallest index at which a test holds.
use ipp_usb.Base.{
  ℕ, zero, suc, ◌+◌, ◌/◌, ◌≤◌, ◌<◌, ◌≡◌, Bool, true, false, ltb, if◌then◌else◌, arith,
}

-- The loop over `i` and `j`. The interval shrinks in every round, so its length is fuel enough.
pub search_loop : ℕ → (ℕ → Bool) → ℕ → ℕ → ℕ
search_loop zero f i j = i
search_loop (suc fuel) f i j =
    let h = (i + j) / 2 in
    let right = search_loop fuel f (h + 1) j in
    let left = search_loop fuel f i h in
    let narrowed = if f h then left else right in if ltb i j then narrowed else i

unfoldable pub search : ℕ → (ℕ → Bool) → ℕ
unfolding search_loop
search n f = search_loop n f 0 n

-- The test fails below `k` and holds from `k` on, as far as `n`.
pub record Turns (f : ℕ → Bool) (n k : ℕ) : Type 0 where
  pub inside : k ≤ n
  pub below : (m : ℕ) → m < k → f m ≡ false
  pub above : (m : ℕ) → k ≤ m → m < n → f m ≡ true

search_loop-Turns :
    (fuel : ℕ) (f : ℕ → Bool) (n k i j : ℕ)
    → Turns f n k
    → i ≤ k
    → k ≤ j
    → j ≤ n
    → j ≤ i + fuel
    → search_loop fuel f i j ≡ k
unfolding search_loop
search_loop-Turns zero f n k i j t a b c d = omega arith
search_loop-Turns (suc fuel) f n k i j t a b c d =
    let h = (i + j) / 2 in
    ground (
      arith,
      t.below h,
      t.above h,
      search_loop-Turns fuel f n k i h t,
      search_loop-Turns fuel f n k (h + 1) j t,
    )

-- Wherever the test turns from false to true, there the search stops.
pub search-Turns : (n : ℕ) (f : ℕ → Bool) (k : ℕ) → Turns f n k → search n f ≡ k
unfolding search
search-Turns n f k t =
    search_loop-Turns n f n k 0 n t (omega arith) t.inside (omega arith) (omega arith)
