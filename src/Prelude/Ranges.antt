-- ===== src/Prelude/Ranges.antt =====
-- Loops over a range that push what each round makes.
use Prim.Native.Nat.{ℕ, zero, suc, ◌+◌, ◌≤◌, ◌<◌}
use mathlib.Core.Path.{◌≡◌}
use mathlib.Core.Logic.{◌⊎◌, inl, inr}
use mathlib.Core.List.{List, [], ◌++◌, Mem, mem-append_left, mem-append_right}
use native.Mathlib.Omega.{arith}
use minecraft_os.Prelude.Lists.{All, All-append}

-- `for i in start..start + n`, with what each round pushes.
unfoldable pub pushed {ℓ} : {A : Type ℓ} → (ℕ → List A) → ℕ → ℕ → List A
pushed f start zero = []
pushed f start (suc n) = f start ++ pushed f (start + 1) n

pub Mem-pushed {ℓ} :
    {A : Type ℓ} (a : A) (f : ℕ → List A) (n start i : ℕ)
    → start ≤ i
    → i < start + n
    → Mem a (f i)
    → Mem a (pushed f start n)
unfolding pushed
Mem-pushed a f zero start i lo hi h = absurd (omega arith)
Mem-pushed a f (suc n) start i lo hi h = elim (first start i) [
  | inl e ↦ mem-append_left (pushed f (start + 1) n) (rw (← e) h)
  | inr m ↦
      mem-append_right (f start) (Mem-pushed a f n (start + 1) i (omega arith) (omega arith) h)
]
  where
    first : (s j : ℕ) → (j ≡ s) ⊎ ((s + 1 ≤ j) ⊎ (j < s))
    first s j = ground arith

pub All-pushed {ℓ κ} :
    {A : Type ℓ} (P : A → Type κ) (f : ℕ → List A) (n start : ℕ)
    → ((i : ℕ) → start ≤ i → i < start + n → All P (f i))
    → All P (pushed f start n)
unfolding pushed
All-pushed P f zero start h = _
All-pushed P f (suc n) start h =
    All-append P (f start) (pushed f (start + 1) n) (h start (omega arith) (omega arith))
      (All-pushed P f n (start + 1) (λ i lo hi. h i (omega arith) (omega arith)))
