-- ===== src/Play/Words.antt =====
-- `str::trim`, `strip_prefix` and `parse::<u64>` as the main loop uses them, on the UTF-8 bytes.
use minecraft_os.Prelude.{
  ℕ, zero, suc, ◌+◌, ◌-◌, ◌*◌, ◌^◌, ◌&&◌, ◌||◌, Option, none, some, List, [], ◌∷◌, ltb, leb, ◌==◌,
  if◌then◌else◌, length, drop,
}

-- The bytes of the white space that the text begins with: 0 if it begins with something else.
unfoldable pub space_width : List ℕ → ℕ
space_width (b ∷ []) = if leb 9 b && leb b 13 || b == 32 then 1 else 0
space_width (b ∷ c ∷ []) =
    if leb 9 b && leb b 13 || b == 32
    then 1
    else if b == 0xC2 && (c == 0x85 || c == 0xA0)
    then 2
    else 0
space_width (b ∷ c ∷ d ∷ bs) =
    if leb 9 b && leb b 13 || b == 32
    then 1
    else if b == 0xC2 && (c == 0x85 || c == 0xA0)
    then 2
    else if b == 0xE1 && c == 0x9A && d == 0x80
        || b == 0xE2
          && c == 0x80
          && (leb 0x80 d && leb d 0x8A || d == 0xA8 || d == 0xA9 || d == 0xAF)
        || b == 0xE2 && c == 0x81 && d == 0x9F
        || b == 0xE3 && c == 0x80 && d == 0x80
    then 3
    else 0
space_width [] = 0

-- No more characters than bytes are dropped.
unfoldable pub trim_start : ℕ → List ℕ → List ℕ
trim_start zero s = s
trim_start (suc fuel) s =
    let rest = trim_start fuel (drop (space_width s) s) in if space_width s == 0 then s else rest

-- The text up to its last byte that is no part of trailing white space.
unfoldable pub trim_end : List ℕ → List ℕ
trim_end [] = []
trim_end (b ∷ s) =
    let rest = trim_end s in
    let trimmed = trim_start (length (b ∷ s)) (b ∷ s) in
    elim trimmed [ [] ↦ [] | ◌∷◌ c cs ↦ b ∷ rest ]

unfoldable pub trim : List ℕ → List ℕ
trim s = trim_end (trim_start (length s) s)

unfoldable pub strip_prefix : List ℕ → List ℕ → Option (List ℕ)
strip_prefix [] s = some s
strip_prefix (p ∷ prefix) [] = none
strip_prefix (p ∷ prefix) (b ∷ s) =
    let rest = strip_prefix prefix s in if p == b then rest else none

-- The checked arithmetic of `u64::from_str_radix(_, 10)`.
unfoldable pub decimal : ℕ → List ℕ → Option ℕ
decimal value [] = some value
decimal value (b ∷ bs) =
    let next = value * 10 + (b - b'0') in
    let rest = decimal next bs in
    if leb b'0' b && leb b b'9' && ltb next (2 ^ 64) then rest else none

-- An empty text, or a sign alone, is an error; a `+` before digits is allowed.
unfoldable pub parse_u64 : List ℕ → Option ℕ
parse_u64 [] = none
parse_u64 (b ∷ []) = decimal 0 (b ∷ [])
parse_u64 (b ∷ c ∷ bs) = if b == b'+' then decimal 0 (c ∷ bs) else decimal 0 (b ∷ c ∷ bs)
