-- ===== src/Ps2/Config/Settings.antt =====
-- The bits of the configuration byte are independent of each other. There are 256 bytes, so a
-- statement about all of them is decided by computing it.
use minecraft_os.Prelude.{
  ℕ, zero, suc, ◌^◌, ◌/◌, ◌%◌, ◌<◌, ◌≡◌, refl, arith, Bool, true, false, not, ◌&&◌, ◌==◌, ◌⊎◌, inl,
  inr, if◌then◌else◌,
}
use minecraft_os.Ps2.Config.{get_bit, set_bit}

abbrev pub all_below : ℕ → (ℕ → Bool) → Bool
all_below zero p = true
all_below (suc n) p = p n && all_below n p

pub and-true : (a b : Bool) → (a && b) ≡ true → (a ≡ true) × (b ≡ true)
and-true true b f = (refl, f)
and-true false b f = absurd (cc f)

pub all_below-true : (n : ℕ) (p : ℕ → Bool) → all_below n p ≡ true → (k : ℕ) → k < n → p k ≡ true
all_below-true zero p e k h = absurd (omega arith)
all_below-true (suc n) p e k h = elim (top_or_below n k h) [
  | inl same ↦ rw same (and-true (p n) (all_below n p) e).0
  | inr below ↦ all_below-true n p (and-true (p n) (all_below n p) e).1 k below
]
  where
    top_or_below : (n k : ℕ) → k < suc n → (k ≡ n) ⊎ (k < n)
    top_or_below n k h = ground arith

abbrev pub same : Bool → Bool → Bool
same true b = b
same false b = not b

pub same→≡ : (a b : Bool) → same a b ≡ true → a ≡ b
same→≡ true true e = refl
same→≡ true false e = absurd (cc e)
same→≡ false true e = absurd (cc e)
same→≡ false false e = refl

abbrev pub bit_of : ℕ → ℕ → Bool
bit_of j c = not (c / 2 ^ j % 2 == 0)

-- Setting bit `k` is seen in bit `k` alone.
abbrev is_set : ℕ → Bool → ℕ → ℕ → Bool
is_set k enabled j c =
    same (bit_of j (set_bit (2 ^ k) c enabled)) (if j == k then enabled else bit_of j c)

all_set :
    (enabled : Bool)
    → all_below 8 (λ k. all_below 8 (λ j. all_below 256 (is_set k enabled j))) ≡ true
unfolding set_bit
all_set true = refl
all_set false = refl

-- In a byte, a setter of bit `k` is seen by bit `k`, and no other bit changes.
pub set_bit-bit_of :
    (k j c : ℕ) (enabled : Bool)
    → k < 8
    → j < 8
    → c < 256
    → bit_of j (set_bit (2 ^ k) c enabled) ≡ (if j == k then enabled else bit_of j c)
set_bit-bit_of k j c enabled hk hj hc =
    let at_k =
      all_below-true 8 (λ k. all_below 8 (λ j. all_below 256 (is_set k enabled j)))
        (all_set enabled) k hk in
    let at_j = all_below-true 8 (λ j. all_below 256 (is_set k enabled j)) at_k j hj in
    same→≡ _ _ (all_below-true 256 (is_set k enabled j) at_j c hc)

abbrev is_got : ℕ → ℕ → Bool
is_got k c = same (get_bit (2 ^ k) c) (bit_of k c)

all_got : all_below 8 (λ k. all_below 256 (is_got k)) ≡ true
unfolding get_bit
all_got = refl

pub get_bit-bit_of : (k c : ℕ) → k < 8 → c < 256 → get_bit (2 ^ k) c ≡ bit_of k c
get_bit-bit_of k c hk hc =
    let at_k = all_below-true 8 (λ k. all_below 256 (is_got k)) all_got k hk in
    same→≡ _ _ (all_below-true 256 (is_got k) at_k c hc)
