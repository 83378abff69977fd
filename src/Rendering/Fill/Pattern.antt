-- ===== src/Rendering/Fill/Pattern.antt =====
-- The bytes that `fill_slice_48` leaves.
use minecraft_os.Prelude.{
  ℕ, zero, suc, ◌+◌, ◌*◌, ◌/◌, ◌%◌, ◌≤◌, ◌<◌, ◌≡◌, refl, sym, ap, ◌∙◌, arith, false, List, [], ◌∷◌,
  ◌++◌, ◌==◌, length, take, drop, get_or, write_at, write_at-append, write_at-eq-append,
  write_at_nothing,
}
use minecraft_os.Rendering.Fill.{fill_chunks, fill_slice_48}
use mathlib.Core.Path.{ap₂}

-- `n` bytes of the pattern, which starts over every 48 bytes, from byte `i` on.
abbrev pub cycle : ℕ → ℕ → List ℕ → List ℕ
cycle i zero pattern = []
cycle i (suc n) pattern = get_or pattern (i % 48) 0 ∷ cycle (i + 1) n pattern

pub length-cycle : (i n : ℕ) (p : List ℕ) → length (cycle i n p) ≡ n
length-cycle i zero p = refl
length-cycle i (suc n) p = ap suc (length-cycle (i + 1) n p)

cycle-add : (a i b : ℕ) (p : List ℕ) → cycle i (a + b) p ≡ cycle i a p ++ cycle (i + a) b p
cycle-add zero i b p =
    let e : 0 + b ≡ b = omega arith in
    let f : i ≡ i + 0 = omega arith in ap (λ n. cycle i n p) e ∙ ap (λ k. cycle k b p) f
cycle-add (suc a) i b p =
    let e : suc a + b ≡ suc (a + b) = omega arith in
    let f : i + 1 + a ≡ i + suc a = omega arith in
    ap (λ n. cycle i n p) e
    ∙ ap (λ l. get_or p (i % 48) 0 ∷ l)
        (cycle-add a (i + 1) b p ∙ ap (λ k. cycle (i + 1) a p ++ cycle k b p) f)

cycle-period : (n i : ℕ) (p : List ℕ) → cycle (i + 48) n p ≡ cycle i n p
cycle-period zero i p = refl
cycle-period (suc n) i p =
    let e : (i + 48) % 48 ≡ i % 48 = omega arith in
    let f : i + 48 + 1 ≡ i + 1 + 48 = omega arith in
    rw e (ap (λ l. get_or p (i % 48) 0 ∷ l) (ap (λ k. cycle k n p) f ∙ cycle-period n (i + 1) p))

cycle-chunks : (n k : ℕ) (p : List ℕ) → cycle (n * 48) k p ≡ cycle 0 k p
cycle-chunks zero k p = refl
cycle-chunks (suc n) k p =
    let e : suc n * 48 ≡ n * 48 + 48 = omega arith in
    ap (λ i. cycle i k p) e ∙ cycle-period k (n * 48) p ∙ cycle-chunks n k p

drop-cons : (i : ℕ) (p : List ℕ) → i < length p → drop i p ≡ get_or p i 0 ∷ drop (i + 1) p
drop-cons i [] h = absurd (omega arith)
drop-cons zero (x ∷ p) h = refl
drop-cons (suc i) (x ∷ p) h =
    let e : suc i + 1 ≡ suc (i + 1) = omega arith in
    drop-cons i p (omega arith) ∙ ap (λ k. get_or p i 0 ∷ drop k (x ∷ p)) (sym e)

cycle-eq-take :
    (n i : ℕ) (p : List ℕ) → length p ≡ 48 → i + n ≤ 48 → cycle i n p ≡ take n (drop i p)
cycle-eq-take zero i p e h = refl
cycle-eq-take (suc n) i p e h =
    let small : i % 48 ≡ i = omega arith in
    rw (small, drop-cons i p (omega arith))
      (ap (λ l. get_or p i 0 ∷ l) (cycle-eq-take n (i + 1) p e (omega arith)))

take_48 : (p : List ℕ) (n : ℕ) → length p ≡ n → take n p ≡ p
take_48 [] zero e = refl
take_48 [] (suc n) e = refl
take_48 (x ∷ p) zero e = absurd (omega arith)
take_48 (x ∷ p) (suc n) e = ap (λ l. x ∷ l) (take_48 p n (omega arith))

fill_chunks-cycle :
    (n dst chunk : ℕ) (p buf : List ℕ)
    → length p ≡ 48
    → fill_chunks dst chunk n p buf ≡ write_at (dst + chunk * 48) (cycle 0 (n * 48) p) buf
unfolding fill_chunks
fill_chunks-cycle zero dst chunk p buf e = sym (write_at_nothing (dst + chunk * 48) buf)
fill_chunks-cycle (suc n) dst chunk p buf e =
    let count : suc n * 48 ≡ 48 + n * 48 = omega arith in
    let next : dst + (chunk + 1) * 48 ≡ dst + chunk * 48 + length p = omega (arith, e) in
    let front : cycle 0 48 p ≡ p = cycle-eq-take 48 0 p e (omega arith) ∙ take_48 p 48 e in
    let all : cycle 0 (suc n * 48) p ≡ p ++ cycle 0 (n * 48) p =
      ap (λ k. cycle 0 k p) count
      ∙ cycle-add 48 0 (n * 48) p
      ∙ ap₂ (λ l m. l ++ m) front (cycle-period (n * 48) 0 p) in
    fill_chunks-cycle n dst (chunk + 1) p (write_at (dst + chunk * 48) p buf) e
    ∙ ap (λ k. write_at k (cycle 0 (n * 48) p) (write_at (dst + chunk * 48) p buf)) next
    ∙ sym (write_at-append (dst + chunk * 48) p (cycle 0 (n * 48) p) buf)
    ∙ ap (λ l. write_at (dst + chunk * 48) l buf) (sym all)

remainder :
    (dst len : ℕ) (p buf : List ℕ)
    → length p ≡ 48
    → write_at (dst + len / 48 * 48) (take (len % 48) p) (fill_chunks dst 0 (len / 48) p buf)
      ≡ write_at dst (cycle 0 len p) buf
remainder dst len p buf e =
    let whole = len / 48 * 48 in
    let rest = cycle 0 (len % 48) p in
    let start : dst + 0 * 48 ≡ dst = omega arith in
    let sum : len ≡ whole + len % 48 = omega arith in
    let chunks = fill_chunks-cycle (len / 48) dst 0 p buf e in
    let tail : take (len % 48) p ≡ cycle whole (len % 48) p =
      sym (cycle-eq-take (len % 48) 0 p e (omega arith))
      ∙ sym (cycle-chunks (len / 48) (len % 48) p) in
    let all : cycle 0 len p ≡ cycle 0 whole p ++ cycle whole (len % 48) p =
      ap (λ k. cycle 0 k p) sum
      ∙ cycle-add whole 0 (len % 48) p
      ∙ ap (λ k. cycle 0 whole p ++ cycle k (len % 48) p) (omega arith) in
    let behind : dst + whole ≡ dst + length (cycle 0 whole p) =
      omega (arith, length-cycle 0 whole p) in
    ap₂ (λ t b. write_at (dst + whole) t b) tail
      (chunks ∙ ap (λ k. write_at k (cycle 0 whole p) buf) start)
    ∙ ap (λ k. write_at k (cycle whole (len % 48) p) (write_at dst (cycle 0 whole p) buf)) behind
    ∙ sym (write_at-append dst (cycle 0 whole p) (cycle whole (len % 48) p) buf)
    ∙ ap (λ l. write_at dst l buf) (sym all)

pub fill_slice_48-write_at :
    (dst len : ℕ) (p buf : List ℕ)
    → length p ≡ 48
    → fill_slice_48 dst len p buf ≡ write_at dst (cycle 0 len p) buf
unfolding fill_slice_48
fill_slice_48-write_at dst zero p buf e = sym (write_at_nothing dst buf)
fill_slice_48-write_at dst (suc len) p buf e =
    let some_bytes : (suc len == 0) ≡ false = ground arith in
    rw (fill_slice_48, some_bytes) (remainder dst (suc len) p buf e)

-- A pattern of 48 bytes is laid out again and again over just the `len` bytes from `dst` on: byte
-- `i` of them is byte `i` modulo 48 of the pattern, and every other byte of the frame buffer is as
-- it was.
pub fill_slice_48_lem :
    (dst len : ℕ) (p buf : List ℕ)
    → length p ≡ 48
    → dst + len ≤ length buf
    → fill_slice_48 dst len p buf ≡ take dst buf ++ (cycle 0 len p ++ drop (dst + len) buf)
fill_slice_48_lem dst len p buf e h =
    let size = length-cycle 0 len p in
    fill_slice_48-write_at dst len p buf e
    ∙ write_at-eq-append dst (cycle 0 len p) buf (omega (arith, size))
    ∙ ap (λ k. take dst buf ++ (cycle 0 len p ++ drop (dst + k) buf)) size
