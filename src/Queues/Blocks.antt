-- ===== src/Queues/Blocks.antt =====
-- The array `blks` of both queues. A block is addressed by its index modulo the number of blocks.
use native.Mathlib.Nat.{mod-add-mod, mod-eq_of_lt, mod-eq-sub-mod, mod-lt}
use native.Mathlib.Decide.{dec_lt}
use sample.Base.{
  ℕ, zero, suc, ◌+◌, ◌-◌, ◌%◌, ◌≤◌, ◌<◌, List, [], ◌∷◌, ◌∷ʳ◌, ◌≡◌, ◌≢◌, refl, ap, ap₂, ◌∙◌,
  if◌then◌else◌, arith, ◌==◌, ==_iff, length,
}

-- The contents of the blocks, by their place in the array.
abbrev pub Blocks : Type 0 → Type 0
Blocks T = ℕ → T

module _ {T : Type 0} where
  abbrev pub put : ℕ → T → Blocks T → Blocks T
  put i v blks j = if j == i then v else blks j

  pub put_here : (blks : Blocks T) (v : T) (i : ℕ) → put i v blks i ≡ v
  put_here blks v i = rw ((==_iff i i).1 refl) refl

-- Two indices that lie less than `size` apart have different places.
pub mod_ne : (a d size : ℕ) → 0 < d → d < size → (a + d) % size ≢ a % size
mod_ne a d size pos less same = elim (dec_lt (a % size + d) size) [
  | yes inside ↦
      omega (arith, mod-add-mod a size d, mod-eq_of_lt {n = a % size + d} {m = size} inside)
  | no over ↦ omega (
    arith,
    mod-add-mod a size d,
    mod-lt a {m = size} (omega arith),
    mod-eq-sub-mod {n = a % size + d} {m = size} (omega arith),
    mod-eq_of_lt {n = a % size + d - size} {m = size}
        (omega (arith, mod-lt a {m = size} (omega arith))),
  )
]

module _ {T : Type 0} (size : ℕ) where
  -- The blocks of the `n` indices after `r`.
  abbrev pub window : Blocks T → (r n : ℕ) → List T
  window blks r zero = []
  window blks r (suc n) = blks ((r + 1) % size) ∷ window blks (r + 1) n

  pub window-suc :
      (blks : Blocks T) (r n : ℕ)
      → window blks r (suc n) ≡ window blks r n ∷ʳ blks ((r + n + 1) % size)
  window-suc blks r zero = ap (λ (i : ℕ). blks (i % size) ∷ []) (omega arith)
  window-suc blks r (suc n) =
      ap (λ l. blks ((r + 1) % size) ∷ l)
        (window-suc blks (r + 1) n
          ∙ ap (λ (i : ℕ). window blks (r + 1) n ∷ʳ blks (i % size)) (omega arith))

  pub put_elsewhere :
      (blks : Blocks T) (v : T) (i j : ℕ)
      → i < j
      → j < i + size
      → put (j % size) v blks (i % size) ≡ blks (i % size)
  put_elsewhere blks v i j below near =
      ground
        (arith, mod_ne i (j - i) size (omega arith) (omega arith), ap (λ (k : ℕ). k % size) far)
    where
      far : i + (j - i) ≡ j
      far = omega arith

  -- A write outside a window of less than `size` blocks leaves it as it was.
  pub window-put :
      (blks : Blocks T) (v : T) (r n w : ℕ)
      → r + n < w
      → w ≤ r + size
      → window (put (w % size) v blks) r n ≡ window blks r n
  window-put blks v r zero w after near = refl
  window-put blks v r (suc n) w after near =
      ap₂ ◌∷◌ (put_elsewhere blks v (r + 1) w (omega arith) (omega arith))
        (window-put blks v (r + 1) n w (omega arith) (omega arith))

  pub length-window : (blks : Blocks T) (r n : ℕ) → length (window blks r n) ≡ n
  length-window blks r zero = refl
  length-window blks r (suc n) = ap suc (length-window blks (r + 1) n)
