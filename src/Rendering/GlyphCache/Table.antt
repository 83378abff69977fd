-- ===== src/Rendering/GlyphCache/Table.antt =====
-- A map and a deque that satisfy what is assumed of the libraries'.
use minecraft_os.Prelude.{
  ◌+◌, ◌≡◌, ◌≢◌, refl, sym, ap, ◌∙◌, arith, Bool, true, false, Bool-cases, ◌==◌, ◌&&◌, inl, inr,
  Option, none, some, List, [], ◌∷◌, ◌++◌, length, if◌then◌else◌,
}
use mathlib.Core.Path.{subst}
use minecraft_os.Rendering.GlyphCache.{Key, Raster, HashMap, Deque}
use minecraft_os.Rendering.GlyphCache.Sound.{Key-discrete}

abbrev same : Key → Key → Bool
same k j = k.0 == j.0 && (k.1 == j.1)

same→≡ : (k j : Key) → same k j ≡ true → k ≡ j
same→≡ k j e = ground arith

same_self : (k : Key) → same k k ≡ true
same_self k = ground arith

≢→same : (k j : Key) → k ≢ j → same k j ≡ false
≢→same k j ne = elim (Bool-cases (same k j)) [ inl e ↦ absurd (ne (same→≡ k j e)) | inr e ↦ e ]

abbrev Entries : Type 0
Entries = List (Key × Raster)

find : Key → Entries → Option Raster
find k [] = none
find k ((j, v) ∷ l) = if same k j then some v else find k l

erase : Key → Entries → Entries
erase k [] = []
erase k ((j, v) ∷ l) = if same k j then erase k l else (j, v) ∷ erase k l

IsAbsent : Key → Entries → Type 0
IsAbsent k [] = Unit
IsAbsent k ((j, v) ∷ l) = (same k j ≡ false) × IsAbsent k l

IsTable : Entries → Type 0
IsTable [] = Unit
IsTable ((j, v) ∷ l) = IsAbsent j l × IsTable l

find-erase_self : (k : Key) (l : Entries) → find k (erase k l) ≡ none
unfolding find erase
find-erase_self k [] = refl
find-erase_self k ((j, v) ∷ l) = elim (Bool-cases (same k j)) [
  | inl e ↦ rw e (find-erase_self k l)
  | inr e ↦ rw e (rw (find, e) (find-erase_self k l))
]

find-erase_ne : (k j : Key) (l : Entries) → j ≢ k → find j (erase k l) ≡ find j l
unfolding find erase
find-erase_ne k j [] ne = refl
find-erase_ne k j ((i, v) ∷ l) ne = elim (Bool-cases (same k i)) [
  | inl e ↦
      rw (erase, e)
        (find-erase_ne k j l ne
          ∙ sym (rw (find, subst (λ i. same j i ≡ false) (same→≡ k i e) (≢→same j k ne)) refl))
  | inr e ↦ rw (erase, e) (ap (λ r. if same j i then some v else r) (find-erase_ne k j l ne))
]

erase-IsAbsent : (k j : Key) (l : Entries) → IsAbsent j l → IsAbsent j (erase k l)
unfolding erase IsAbsent
erase-IsAbsent k j [] h = tt
erase-IsAbsent k j ((i, v) ∷ l) h = elim (Bool-cases (same k i)) [
  | inl e ↦ rw (erase, e) (erase-IsAbsent k j l h.1)
  | inr e ↦ rw (erase, e) (h.0, erase-IsAbsent k j l h.1)
]

erase_self-IsAbsent : (k : Key) (l : Entries) → IsAbsent k (erase k l)
unfolding erase IsAbsent
erase_self-IsAbsent k [] = tt
erase_self-IsAbsent k ((i, v) ∷ l) = elim (Bool-cases (same k i)) [
  | inl e ↦ rw (erase, e) (erase_self-IsAbsent k l)
  | inr e ↦ rw (erase, e) (e, erase_self-IsAbsent k l)
]

erase-IsTable : (k : Key) (l : Entries) → IsTable l → IsTable (erase k l)
unfolding erase IsTable
erase-IsTable k [] h = tt
erase-IsTable k ((i, v) ∷ l) h = elim (Bool-cases (same k i)) [
  | inl e ↦ rw (erase, e) (erase-IsTable k l h.1)
  | inr e ↦ rw (erase, e) (erase-IsAbsent k i l h.0, erase-IsTable k l h.1)
]

erase_absent : (k : Key) (l : Entries) → IsAbsent k l → erase k l ≡ l
unfolding erase IsAbsent
erase_absent k [] h = refl
erase_absent k ((i, v) ∷ l) h = rw (erase, h.0) (ap (λ m. (i, v) ∷ m) (erase_absent k l h.1))

find-none : (k : Key) (l : Entries) → find k l ≡ none → IsAbsent k l
unfolding find IsAbsent
find-none k [] e = tt
find-none k ((i, v) ∷ l) e = elim (Bool-cases (same k i)) [
  | inl s ↦ absurd (ground (arith, s))
  | inr s ↦ (s, find-none k l (ground (arith, s)))
]

length-erase :
    (k : Key) (l : Entries) (v : Raster)
    → IsTable l
    → find k l ≡ some v
    → length (erase k l) + 1 ≡ length l
unfolding find erase IsTable
length-erase k [] v h e = absurd (cc e)
length-erase k ((i, w) ∷ l) v h e = elim (Bool-cases (same k i)) [
  | inl s ↦
      let absent : IsAbsent k l = subst (λ j. IsAbsent j l) (sym (same→≡ k i s)) h.0 in
      rw (erase, s) (omega (arith, ap length (erase_absent k l absent)))
  | inr s ↦ let r = length-erase k l v h.1 (ground (arith, s)) in rw (erase, s) (omega (arith, r))
]

-- Entries with distinct keys.
abbrev Table : Type 0
Table = (l : Entries) × IsTable l

find_nothing : (k : Key) → find k [] ≡ none
unfolding find
find_nothing k = refl

put : Table → Key → Raster → Table
unfolding IsTable
put m k v = ((k, v) ∷ erase k m.0, (erase_self-IsAbsent k m.0, erase-IsTable k m.0 m.1))

find-put_self : (l : Entries) (k : Key) (v : Raster) → find k ((k, v) ∷ l) ≡ some v
unfolding find
find-put_self l k v = rw (same_self k) refl

find-put_ne :
    (l : Entries) (k j : Key) (v : Raster) → j ≢ k → find j ((k, v) ∷ erase k l) ≡ find j l
unfolding find
find-put_ne l k j v ne = rw (≢→same j k ne) (find-erase_ne k j l ne)

find-erase-some :
    (l : Entries) (k j : Key) (v : Raster) → find j (erase k l) ≡ some v → find j l ≡ some v
find-erase-some l k j v e = elim (Key-discrete j k) [
  | yes s ↦ absurd (cc (ap (λ i. find i (erase k l)) s, find-erase_self k l, e))
  | no ne ↦ sym (find-erase_ne k j l ne) ∙ e
]

length-put :
    (l : Entries) (k : Key) (v : Raster)
    → find k l ≡ none
    → length ((k, v) ∷ erase k l) ≡ length l + 1
length-put l k v e = omega (arith, ap length (erase_absent k l (find-none k l e)))

pub table_map : HashMap
unfolding IsTable put
table_map = record {
  Map = Table;
  empty = ([], tt);
  get = λ m k. find k m.0;
  len = λ m. length m.0;
  insert = put;
  remove = λ m k. (erase k m.0, erase-IsTable k m.0 m.1);
  get-empty = λ k. find_nothing k;
  len-empty = refl;
  get-insert_self = λ m k v. find-put_self (erase k m.0) k v;
  get-insert_ne = λ m k j v ne. find-put_ne m.0 k j v ne;
  len-insert_new = λ m k v e. length-put m.0 k v e;
  get-remove_ne = λ m k j ne. find-erase_ne k j m.0 ne;
  get-remove_some = λ m k j v e. find-erase-some m.0 k j v e;
  len-remove = λ m k v e. length-erase k m.0 v m.1 e;
}

front : List Key → List Key × Option Key
front [] = ([], none)
front (k ∷ ks) = (ks, some k)

front-cons :
    (q : List Key) (k : Key) (ks : List Key)
    → q ≡ k ∷ ks
    → ((front q).1 ≡ some k) × ((front q).0 ≡ ks)
unfolding front
front-cons q k ks e = (ap (λ l. (front l).1) e, ap (λ l. (front l).0) e)

front_nil : (q : List Key) → q ≡ [] → ((front q).1 ≡ none) × ((front q).0 ≡ [])
unfolding front
front_nil q e = (ap (λ l. (front l).1) e, ap (λ l. (front l).0) e)

pub list_deque : Deque
list_deque = record {
  Queue = List Key;
  empty = [];
  contents = λ q. q;
  pop_front = front;
  push_back_unchecked = λ q k. q ++ (k ∷ []);
  contents-empty = refl;
  pop_front_nil = front_nil;
  pop_front_cons = front-cons;
  push_back_unchecked-contents = λ q k h. refl;
}
