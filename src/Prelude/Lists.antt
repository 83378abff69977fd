-- ===== src/Prelude/Lists.antt =====
-- Slices and arrays as lists with native indices, and the writes at an offset that the byte
-- buffers of the kernel are filled with.
use Prim.Native.Nat.{ℕ, zero, suc, ◌+◌, ◌-◌, ◌≤◌, ◌<◌, min}
use mathlib.Core.Path.{◌≡◌, refl, sym, ap, ap₂, ◌∙◌}
use mathlib.Core.Logic.{◌≢◌, ◌⊎◌, inl, inr}
use mathlib.Core.List.{List, [], ◌∷◌, ◌++◌, map}
use mathlib.Core.Option.{Option, none, some}
use native.Mathlib.Omega.{arith}
use native.Mathlib.Nat.{add-zero}
use native.Mathlib.Numerals.{towards_suc}

module _ {ℓ} {A : Type ℓ} where
  abbrev pub length : List A → ℕ
  length [] = 0
  length (x ∷ xs) = suc (length xs)

  abbrev pub get_elem? : List A → ℕ → Option A
  get_elem? [] i = none
  get_elem? (x ∷ xs) zero = some x
  get_elem? (x ∷ xs) (suc i) = get_elem? xs i

  abbrev pub get_or : List A → ℕ → A → A
  get_or [] i d = d
  get_or (x ∷ xs) zero d = x
  get_or (x ∷ xs) (suc i) d = get_or xs i d

  -- A write out of bounds changes nothing.
  abbrev pub set : List A → ℕ → A → List A
  set [] i v = []
  set (x ∷ xs) zero v = v ∷ xs
  set (x ∷ xs) (suc i) v = x ∷ set xs i v

  abbrev pub take : ℕ → List A → List A
  take zero xs = []
  take (suc n) [] = []
  take (suc n) (x ∷ xs) = x ∷ take n xs

  abbrev pub drop : ℕ → List A → List A
  drop zero xs = xs
  drop (suc n) [] = []
  drop (suc n) (x ∷ xs) = drop n xs

  abbrev pub replicate : ℕ → A → List A
  replicate zero a = []
  replicate (suc n) a = a ∷ replicate n a

  -- The source's bytes replace the first ones of the buffer.
  abbrev pub overwrite : List A → List A → List A
  overwrite [] buf = buf
  overwrite (s ∷ src) [] = []
  overwrite (s ∷ src) (b ∷ buf) = s ∷ overwrite src buf

  -- `buf[i..i + src.len()].copy_from_slice(src)`
  abbrev pub write_at : ℕ → List A → List A → List A
  write_at zero src buf = overwrite src buf
  write_at (suc i) src [] = []
  write_at (suc i) src (b ∷ buf) = b ∷ write_at i src buf

  -- Every element satisfies the predicate.
  abbrev pub All {κ} : (A → Type κ) → List A → Type κ
  All P [] = Unit {κ}
  All P (x ∷ xs) = P x × All P xs

module _ {ℓ} {A : Type ℓ} where
  pub length-append : (xs ys : List A) → length (xs ++ ys) ≡ length xs + length ys
  length-append [] ys = omega arith
  length-append (x ∷ xs) ys = omega (arith, length-append xs ys)

  pub length-replicate : (n : ℕ) (a : A) → length (replicate n a) ≡ n
  length-replicate zero a = refl
  length-replicate (suc n) a = ap suc (length-replicate n a)

  pub length-set : (xs : List A) (i : ℕ) (v : A) → length (set xs i v) ≡ length xs
  length-set [] i v = refl
  length-set (x ∷ xs) zero v = refl
  length-set (x ∷ xs) (suc i) v = ap suc (length-set xs i v)

  pub length-map {κ} : {B : Type κ} (xs : List A) (f : A → B) → length (map f xs) ≡ length xs
  length-map [] f = refl
  length-map (x ∷ xs) f = ap suc (length-map xs f)

  pub length-take : (n : ℕ) (xs : List A) → length (take n xs) ≡ min n (length xs)
  length-take zero xs = omega arith
  length-take (suc n) [] = omega arith
  length-take (suc n) (x ∷ xs) = omega (arith, length-take n xs)

  pub length-drop : (n : ℕ) (xs : List A) → length (drop n xs) ≡ length xs - n
  length-drop zero xs = omega arith
  length-drop (suc n) [] = omega arith
  length-drop (suc n) (x ∷ xs) = omega (arith, length-drop n xs)

  pub length-overwrite : (src buf : List A) → length (overwrite src buf) ≡ length buf
  length-overwrite [] buf = refl
  length-overwrite (s ∷ src) [] = refl
  length-overwrite (s ∷ src) (b ∷ buf) = ap suc (length-overwrite src buf)

  pub length-write_at : (i : ℕ) (src buf : List A) → length (write_at i src buf) ≡ length buf
  length-write_at zero src buf = length-overwrite src buf
  length-write_at (suc i) src [] = refl
  length-write_at (suc i) src (b ∷ buf) = ap suc (length-write_at i src buf)

  write_at-nil : (i : ℕ) (src : List A) → write_at i src [] ≡ []
  write_at-nil zero [] = refl
  write_at-nil zero (s ∷ src) = refl
  write_at-nil (suc i) src = refl

  pub write_at_nothing : (i : ℕ) (buf : List A) → write_at i [] buf ≡ buf
  write_at_nothing zero buf = refl
  write_at_nothing (suc i) [] = refl
  write_at_nothing (suc i) (b ∷ buf) = ap (λ (l : List A). b ∷ l) (write_at_nothing i buf)

  pub get_elem?-eq-get_or :
      (xs : List A) (i : ℕ) (d : A) → i < length xs → get_elem? xs i ≡ some (get_or xs i d)
  get_elem?-eq-get_or [] i d h = absurd (omega arith)
  get_elem?-eq-get_or (x ∷ xs) zero d h = refl
  get_elem?-eq-get_or (x ∷ xs) (suc i) d h = get_elem?-eq-get_or xs i d (omega arith)

  pub get_or-set_self :
      (xs : List A) (i : ℕ) (v d : A) → i < length xs → get_or (set xs i v) i d ≡ v
  get_or-set_self [] i v d h = absurd (omega arith)
  get_or-set_self (x ∷ xs) zero v d h = refl
  get_or-set_self (x ∷ xs) (suc i) v d h = get_or-set_self xs i v d (omega arith)

  pub get_or-set_ne :
      (xs : List A) (i j : ℕ) (v d : A) → i ≢ j → get_or (set xs i v) j d ≡ get_or xs j d
  get_or-set_ne [] i j v d h = refl
  get_or-set_ne (x ∷ xs) zero zero v d h = absurd (h refl)
  get_or-set_ne (x ∷ xs) zero (suc j) v d h = refl
  get_or-set_ne (x ∷ xs) (suc i) zero v d h = refl
  get_or-set_ne (x ∷ xs) (suc i) (suc j) v d h = get_or-set_ne xs i j v d (λ e. h (ap suc e))

  pub write_at-cons :
      (i : ℕ) (s : A) (src buf : List A)
      → write_at i (s ∷ src) buf ≡ write_at (i + 1) src (set buf i s)
  write_at-cons zero s src [] = rw (write_at-nil 1 src)
  write_at-cons zero s [] (b ∷ buf) = refl
  write_at-cons zero s (t ∷ src) (b ∷ buf) = refl
  write_at-cons (suc i) s src [] = rw (write_at-nil (suc i + 1) src)
  write_at-cons (suc i) s src (b ∷ buf) =
      simp towards_suc (ap (λ (l : List A). b ∷ l) (write_at-cons i s src buf ∙ simp towards_suc))

  pub write_at-append :
      (i : ℕ) (xs ys buf : List A)
      → write_at i (xs ++ ys) buf ≡ write_at (i + length xs) ys (write_at i xs buf)
  write_at-append i [] ys buf = rw (write_at_nothing i buf) (rw add-zero)
  write_at-append i (x ∷ xs) ys buf =
      write_at-cons i x (xs ++ ys) buf
      ∙ write_at-append (i + 1) xs ys (set buf i x)
      ∙ ap₂ (λ n b. write_at n ys b) (omega arith) (sym (write_at-cons i x xs buf))

  overwrite-eq-append :
      (src buf : List A)
      → length src ≤ length buf
      → overwrite src buf ≡ src ++ drop (length src) buf
  overwrite-eq-append [] buf h = refl
  overwrite-eq-append (s ∷ src) [] h = absurd (omega arith)
  overwrite-eq-append (s ∷ src) (b ∷ buf) h =
      ap (λ (l : List A). s ∷ l) (overwrite-eq-append src buf (omega arith))

  -- What stands before the write, the bytes written, and what stands behind them.
  pub write_at-eq-append :
      (i : ℕ) (src buf : List A)
      → i + length src ≤ length buf
      → write_at i src buf ≡ take i buf ++ (src ++ drop (i + length src) buf)
  write_at-eq-append zero src buf h =
      let e : 0 + length src ≡ length src = omega arith in
      rw e (overwrite-eq-append src buf (omega arith))
  write_at-eq-append (suc i) src [] h = absurd (omega arith)
  write_at-eq-append (suc i) src (b ∷ buf) h =
      let e : suc i + length src ≡ suc (i + length src) = omega arith in
      rw e (ap (λ (l : List A). b ∷ l) (write_at-eq-append i src buf (omega arith)))

  -- The element at an offset, and what follows it, from what stands there.
  pub get_or-drop_cons :
      (i : ℕ) (buf : List A) {x : A} {rest : List A} (d : A)
      → drop i buf ≡ x ∷ rest
      → get_or buf i d ≡ x
  get_or-drop_cons zero [] d e = absurd (cc e)
  get_or-drop_cons zero (b ∷ buf) d e = cc e
  get_or-drop_cons (suc i) [] d e = absurd (cc e)
  get_or-drop_cons (suc i) (b ∷ buf) d e = get_or-drop_cons i buf d e

  drop-suc :
      (i : ℕ) (buf : List A) {x : A} {rest : List A}
      → drop i buf ≡ x ∷ rest
      → drop (suc i) buf ≡ rest
  drop-suc zero [] e = absurd (cc e)
  drop-suc zero (b ∷ buf) e = cc e
  drop-suc (suc i) [] e = absurd (cc e)
  drop-suc (suc i) (b ∷ buf) e = drop-suc i buf e

  pub drop_next :
      (i : ℕ) (buf : List A) {x : A} {rest : List A}
      → drop i buf ≡ x ∷ rest
      → drop (i + 1) buf ≡ rest
  drop_next i buf e = simp towards_suc (drop-suc i buf e)

  pub All-append {κ} : (P : A → Type κ) (xs ys : List A) → All P xs → All P ys → All P (xs ++ ys)
  All-append P [] ys h k = k
  All-append P (x ∷ xs) ys h k = (h.0, All-append P xs ys h.1 k)

  pub All-map {κ κ'} :
      (P : A → Type κ) (Q : A → Type κ') (xs : List A) → ((x : A) → P x → Q x) → All P xs → All Q xs
  All-map P Q [] f h = _
  All-map P Q (x ∷ xs) f h = (f x h.0, All-map P Q xs f h.1)

  pub take_all : (n : ℕ) (xs : List A) → length xs ≡ n → take n xs ≡ xs
  take_all zero [] e = refl
  take_all zero (x ∷ xs) e = absurd (omega arith)
  take_all (suc n) [] e = refl
  take_all (suc n) (x ∷ xs) e = ap (λ (l : List A). x ∷ l) (take_all n xs (omega arith))

  pub take-append : (n : ℕ) (xs ys : List A) → length xs ≡ n → take n (xs ++ ys) ≡ xs
  take-append zero [] ys e = refl
  take-append zero (x ∷ xs) ys e = absurd (omega arith)
  take-append (suc n) [] ys e = absurd (omega arith)
  take-append (suc n) (x ∷ xs) ys e = ap (λ (l : List A). x ∷ l) (take-append n xs ys (omega arith))

  pub drop_all : (n : ℕ) (xs : List A) → length xs ≡ n → drop n xs ≡ []
  drop_all zero [] e = refl
  drop_all zero (x ∷ xs) e = absurd (omega arith)
  drop_all (suc n) [] e = refl
  drop_all (suc n) (x ∷ xs) e = drop_all n xs (omega arith)

  overwrite-inside :
      (src buf : List A) (k : ℕ) (d : A)
      → k < length src
      → length src ≤ length buf
      → get_or (overwrite src buf) k d ≡ get_or src k d
  overwrite-inside [] buf k d h g = absurd (omega arith)
  overwrite-inside (s ∷ src) [] k d h g = absurd (omega arith)
  overwrite-inside (s ∷ src) (b ∷ buf) zero d h g = refl
  overwrite-inside (s ∷ src) (b ∷ buf) (suc k) d h g =
      overwrite-inside src buf k d (omega arith) (omega arith)

  overwrite-behind :
      (src buf : List A) (k : ℕ) (d : A)
      → length src ≤ k
      → get_or (overwrite src buf) k d ≡ get_or buf k d
  overwrite-behind [] buf k d h = refl
  overwrite-behind (s ∷ src) [] k d h = refl
  overwrite-behind (s ∷ src) (b ∷ buf) zero d h = absurd (omega arith)
  overwrite-behind (s ∷ src) (b ∷ buf) (suc k) d h = overwrite-behind src buf k d (omega arith)

  -- What a write at an offset does to the bytes that it covers and to the others.
  pub get_or-write_at_inside :
      (i : ℕ) (src buf : List A) (k : ℕ) (d : A)
      → k < length src
      → i + length src ≤ length buf
      → get_or (write_at i src buf) (i + k) d ≡ get_or src k d
  get_or-write_at_inside zero src buf k d h g =
      let e : 0 + k ≡ k = omega arith in rw e (overwrite-inside src buf k d h (omega arith))
  get_or-write_at_inside (suc i) src [] k d h g = absurd (omega arith)
  get_or-write_at_inside (suc i) src (b ∷ buf) k d h g =
      let e : suc i + k ≡ suc (i + k) = omega arith in
      rw e (get_or-write_at_inside i src buf k d h (omega arith))

  pub get_or-write_at_outside :
      (i : ℕ) (src buf : List A) (j : ℕ) (d : A)
      → (j < i) ⊎ (i + length src ≤ j)
      → get_or (write_at i src buf) j d ≡ get_or buf j d
  get_or-write_at_outside zero src buf j d (inl h) = absurd (omega arith)
  get_or-write_at_outside zero src buf j d (inr h) = overwrite-behind src buf j d (omega arith)
  get_or-write_at_outside (suc i) src [] j d h = refl
  get_or-write_at_outside (suc i) src (b ∷ buf) zero d h = refl
  get_or-write_at_outside (suc i) src (b ∷ buf) (suc j) d (inl h) =
      get_or-write_at_outside i src buf j d (inl (omega arith))
  get_or-write_at_outside (suc i) src (b ∷ buf) (suc j) d (inr h) =
      get_or-write_at_outside i src buf j d (inr (omega arith))
