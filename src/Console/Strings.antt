-- ===== src/Console/Strings.antt =====
-- Inserting into and removing from an ASCII string at a cursor.
use minecraft_os.Prelude.{
  ℕ, zero, suc, ◌+◌, ◌<◌, ◌≡◌, refl, ap, arith, true, some, List, [], ◌∷◌, ◌++◌, ltb, length,
  get_or, take, drop, All,
}
use minecraft_os.Console.{is_char_boundary, string_insert, string_remove, char_width, utf8}

-- The characters before the cursor, the nearest first, and those behind it.
abbrev pub around {ℓ} : {A : Type ℓ} → List A → List A → List A
around [] after = after
around (x ∷ before) after = around before (x ∷ after)

pub length-around {ℓ} :
    {A : Type ℓ} (before after : List A)
    → length (around before after) ≡ length before + length after
length-around [] after = omega arith
length-around (x ∷ before) after = omega (arith, length-around before (x ∷ after))

-- What stands at and behind the cursor, and before it.
drop-around {ℓ} :
    {A : Type ℓ} (before after : List A) (k n : ℕ)
    → n ≡ length before + k
    → drop n (around before after) ≡ drop k after
drop-around [] after k n e = ap (λ t. drop t after) (omega arith)
drop-around (x ∷ before) after k n e = drop-around before (x ∷ after) (suc k) n (omega arith)

take-around {ℓ} :
    {A : Type ℓ} (before after : List A) (k n : ℕ)
    → n ≡ length before + k
    → take n (around before after) ≡ around before (take k after)
take-around [] after k n e = ap (λ t. take t after) (omega arith)
take-around (x ∷ before) after k n e = take-around before (x ∷ after) (suc k) n (omega arith)

get_or-around {ℓ} :
    {A : Type ℓ} (before after : List A) (d : A) (k n : ℕ)
    → n ≡ length before + k
    → get_or (around before after) n d ≡ get_or after k d
get_or-around [] after d k n e = ap (λ t. get_or after t d) (omega arith)
get_or-around (x ∷ before) after d k n e =
    get_or-around before (x ∷ after) d (suc k) n (omega arith)

around-append {ℓ} :
    {A : Type ℓ} (before xs ys : List A) → around before xs ++ ys ≡ around before (xs ++ ys)
around-append [] xs ys = refl
around-append (x ∷ before) xs ys = around-append before (x ∷ xs) ys

abbrev pub IsAscii : List ℕ → Type 0
IsAscii s = All (λ b. b < 0x80) s

get_or-IsAscii : (s : List ℕ) (i : ℕ) → IsAscii s → get_or s i 0 < 0x80
get_or-IsAscii [] i h = omega arith
get_or-IsAscii (b ∷ s) zero h = h.0
get_or-IsAscii (b ∷ s) (suc i) h = get_or-IsAscii s i h.1

boundary-around :
    (before after : List ℕ)
    → IsAscii after
    → is_char_boundary (length before) (around before after) ≡ true
unfolding is_char_boundary
boundary-around before after h = ground (
  arith,
  length-around before after,
  get_or-around before after 0 0 (length before),
  get_or-IsAscii after 0 h,
)

-- A character is inserted at the cursor.
pub string_insert-around :
    (before after : List ℕ) (ch : ℕ)
    → IsAscii after
    → ch < 0x80
    → string_insert (around before after) (length before) ch ≡ some (around (ch ∷ before) after)
unfolding string_insert
string_insert-around before after ch h c =
    let one : utf8 ch ≡ ch ∷ [] = single ch c in
    rw
      (
        string_insert,
        boundary-around before after h,
        one,
        take-around before after 0 (length before) (omega arith),
        drop-around before after 0 (length before) (omega arith),
      )
      (ap some (around-append before [] (ch ∷ after)))
  where
    single : (k : ℕ) → k < 0x80 → utf8 k ≡ k ∷ []
    single k e = unfold utf8 in ground arith

-- The character before the cursor is removed.
pub string_remove-around :
    (before after : List ℕ) (x : ℕ)
    → IsAscii (x ∷ after)
    → string_remove (around (x ∷ before) after) (length before) ≡ some (around before after)
unfolding string_remove
string_remove-around before after x h =
    let s = around before (x ∷ after) in
    let here : get_or s (length before) 0 ≡ x =
      get_or-around before (x ∷ after) 0 0 (length before) (omega arith) in
    let width : char_width (get_or s (length before) 0) ≡ 1 = rw here (narrow x h.0) in
    let within : ltb (length before) (length s) ≡ true =
      ground (arith, length-around before (x ∷ after)) in
    rw
      (
        string_remove,
        boundary-around before (x ∷ after) h,
        within,
        width,
        take-around before (x ∷ after) 0 (length before) (omega arith),
        drop-around before (x ∷ after) 1 (length before + 1) (omega arith),
      )
      (ap some (around-append before [] after))
  where
    narrow : (k : ℕ) → k < 0x80 → char_width k ≡ 1
    narrow k e = unfold char_width in ground arith
