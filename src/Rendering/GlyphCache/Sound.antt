-- ===== src/Rendering/GlyphCache/Sound.antt =====
-- The cache gives what the font gives, and never pushes to a full deque.
use minecraft_os.Prelude.{
  suc, ◌≤◌, ◌<◌, ◌≡◌, ◌≢◌, refl, sym, ap, ◌∙◌, arith, Bool-cases, Option-cases, inl, inr, Option,
  none, some, List, [], ◌∷◌, ◌++◌, map, length, length-append, leb, All,
}
use mathlib.Core.Path.{subst, ap₂}
use native.Mathlib.Decide.{ℕ_discrete}
use minecraft_os.Rendering.GlyphCache.{
  Key, Raster, HashMap, Deque, Cache, new_cache, remove_oldest, evict, add_entry, get_raster,
  max_cache_entries,
}

pub Key-discrete : Discrete Key
Key-discrete = hlevel ℕ_discrete

abbrev pub Distinct : List Key → Type 0
Distinct [] = Unit
Distinct (k ∷ ks) = All (λ j. j ≢ k) ks × Distinct ks

pub All-map {ℓ} :
    {A : Type 0} (P Q : A → Type ℓ) (xs : List A) → ((a : A) → P a → Q a) → All P xs → All Q xs
All-map P Q [] f h = h
All-map P Q (x ∷ xs) f h = (f x h.0, All-map P Q xs f h.1)

All-both {ℓ} :
    {A : Type 0} (P Q R : A → Type ℓ) (xs : List A)
    → ((a : A) → P a → Q a → R a)
    → All P xs
    → All Q xs
    → All R xs
All-both P Q R [] f h g = h
All-both P Q R (x ∷ xs) f h g = (f x h.0 g.0, All-both P Q R xs f h.1 g.1)

All-snoc {ℓ} :
    {A : Type 0} (P : A → Type ℓ) (xs : List A) (a : A) → All P xs → P a → All P (xs ++ (a ∷ []))
All-snoc P [] a h p = (p, h)
All-snoc P (x ∷ xs) a h p = (h.0, All-snoc P xs a h.1 p)

Distinct-snoc :
    (ks : List Key) (k : Key) → Distinct ks → All (λ j. j ≢ k) ks → Distinct (ks ++ (k ∷ []))
Distinct-snoc [] k d h = (tt, tt)
Distinct-snoc (j ∷ ks) k d h =
    (All-snoc (λ i. i ≢ j) ks k d.0 (λ e. h.0 (sym e)), Distinct-snoc ks k d.1 h.1)

module _ (hm : HashMap) (dq : Deque) (rasterize : Key → Raster) where
  abbrev Present : hm.Map → Key → Type 0
  Present m k = (v : Raster) × (hm.get m k ≡ some v)

  -- The map holds the keys of the deque, which are distinct, with what the font gives for them.
  pub record IsSound (c : Cache hm dq rasterize) : Type 0 where
    pub right : (k : Key) (v : Raster) → hm.get c.map k ≡ some v → v ≡ rasterize k
    pub present : All (Present c.map) (dq.contents c.order)
    pub distinct : Distinct (dq.contents c.order)
    pub sized : hm.len c.map ≡ length (dq.contents c.order)
    pub within : length (dq.contents c.order) ≤ max_cache_entries

  new_cache-IsSound : IsSound (new_cache hm dq rasterize)
  unfolding new_cache
  new_cache-IsSound = record {
    right = λ k v e. absurd (cc (hm.get-empty k, e));
    present = rw dq.contents-empty tt;
    distinct = rw dq.contents-empty tt;
    sized = rw (dq.contents-empty, hm.len-empty) refl;
    within = rw dq.contents-empty (omega arith);
  }

  abbrev HasRoom : Cache hm dq rasterize → Type 0
  HasRoom c = length (dq.contents c.order) < max_cache_entries

  -- Without the oldest key.
  removed-IsSound :
      (c : Cache hm dq rasterize) (q : dq.Queue) (k : Key) (ks : List Key)
      → IsSound c
      → dq.contents c.order ≡ k ∷ ks
      → dq.contents q ≡ ks
      → let c' : Cache hm dq rasterize = record { map = hm.remove c.map k; order = q } in
        IsSound c' × HasRoom c'
  removed-IsSound c q k ks v e f =
      let p : All (Present c.map) (k ∷ ks) = subst (All (Present c.map)) e v.present in
      let d : Distinct (k ∷ ks) = subst Distinct e v.distinct in
      let n : length (dq.contents c.order) ≡ suc (length ks) = ap length e in
      let m : length (dq.contents q) ≡ length ks = ap length f in
      let l = hm.len-remove c.map k p.0.0 p.0.1 in
      let present : All (Present (hm.remove c.map k)) ks =
        All-both (λ j. j ≢ k) (Present c.map) (Present (hm.remove c.map k)) ks
          (λ j ne h. (h.0, hm.get-remove_ne c.map k j ne ∙ h.1)) d.0 p.1 in
      (
        record {
          right = λ j w h. v.right j w (hm.get-remove_some c.map k j w h);
          present = subst (All (Present (hm.remove c.map k))) (sym f) present;
          distinct = subst Distinct (sym f) d.1;
          sized = omega (arith, l, v.sized, n, m);
          within = omega (arith, v.within, n, m);
        },
        omega (arith, v.within, n, m),
      )

  remove_oldest-IsSound :
      (c : Cache hm dq rasterize) (r : dq.Queue × Option Key) (k : Key) (ks : List Key)
      → IsSound c
      → dq.contents c.order ≡ k ∷ ks
      → r.1 ≡ some k
      → dq.contents r.0 ≡ ks
      → let c' = remove_oldest hm dq rasterize c.map r in IsSound c' × HasRoom c'
  remove_oldest-IsSound c (q, none) k ks v e g f = absurd (cc g)
  remove_oldest-IsSound c (q, some j) k ks v e g f =
      let same : k ≡ j = cc g in
      subst
        (λ i.
          let c' : Cache hm dq rasterize = record { map = hm.remove c.map i; order = q } in
          IsSound c' × HasRoom c')
        same (removed-IsSound c q k ks v e f)

  evict-IsSound :
      (c : Cache hm dq rasterize)
      → IsSound c
      → IsSound (evict hm dq rasterize c) × HasRoom (evict hm dq rasterize c)
  unfolding evict
  evict-IsSound c v = elim (Bool-cases (leb max_cache_entries (hm.len c.map))) [
    | inr e ↦ rw e (v, ground (arith, v.sized))
    | inl e ↦ rw e (oldest (dq.contents c.order) refl (ground (arith, v.sized)))
  ]
    where
      oldest :
          (ks : List Key)
          → dq.contents c.order ≡ ks
          → 0 < length (dq.contents c.order)
          → let c' = remove_oldest hm dq rasterize c.map (dq.pop_front c.order) in
            IsSound c' × HasRoom c'
      oldest [] e h = absurd (omega (arith, ap length e))
      oldest (k ∷ ks) e h =
          let (g, f) = dq.pop_front_cons c.order k ks e in
          remove_oldest-IsSound c (dq.pop_front c.order) k ks v e g f

  remove_oldest_miss :
      (m : hm.Map) (r : dq.Queue × Option Key) (k : Key)
      → hm.get m k ≡ none
      → hm.get (remove_oldest hm dq rasterize m r).map k ≡ none
  remove_oldest_miss m (q, none) k e = e
  remove_oldest_miss m (q, some j) k e = elim (Option-cases (hm.get (hm.remove m j) k)) [
    | inl miss ↦ miss
    | inr (w, h) ↦ absurd (cc (hm.get-remove_some m j k w h, e))
  ]

  evict_miss :
      (c : Cache hm dq rasterize) (k : Key)
      → IsSound c
      → hm.get c.map k ≡ none
      → hm.get (evict hm dq rasterize c).map k ≡ none
  unfolding evict
  evict_miss c k v e = elim (Bool-cases (leb max_cache_entries (hm.len c.map))) [
    | inr f ↦ rw f e
    | inl f ↦ rw f (remove_oldest_miss c.map (dq.pop_front c.order) k e)
  ]

  add_entry-IsSound :
      (c : Cache hm dq rasterize) (k : Key)
      → IsSound c
      → HasRoom c
      → hm.get c.map k ≡ none
      → IsSound (add_entry hm dq rasterize c k)
  unfolding add_entry
  add_entry-IsSound c k v room miss =
      let pushed = dq.push_back_unchecked-contents c.order k room in
      let other : All (λ j. j ≢ k) (dq.contents c.order) =
        All-map (Present c.map) (λ j. j ≢ k) (dq.contents c.order)
          (λ j h e. cc (h.1, miss, ap (hm.get c.map) e)) v.present in
      let old =
        All-both (λ j. j ≢ k) (Present c.map) (Present (hm.insert c.map k (rasterize k)))
          (dq.contents c.order) (λ j ne h. (h.0, hm.get-insert_ne c.map k j (rasterize k) ne ∙ h.1))
          other v.present in
      let new = hm.get-insert_self c.map k (rasterize k) in
      let n = length-append (dq.contents c.order) (k ∷ []) in
      record {
        right = λ j w h. elim (Key-discrete j k) [
          | yes e ↦
              let h' : hm.get (hm.insert c.map k (rasterize k)) k ≡ some w =
                ap (hm.get (hm.insert c.map k (rasterize k))) (sym e) ∙ h in
              let same : w ≡ rasterize k = cc (h', new) in same ∙ ap rasterize (sym e)
          | no ne ↦ v.right j w (sym (hm.get-insert_ne c.map k j (rasterize k) ne) ∙ h)
        ];
        present =
            subst (All (Present (hm.insert c.map k (rasterize k)))) (sym pushed)
              (All-snoc _ (dq.contents c.order) k old (rasterize k, new));
        distinct =
            subst Distinct (sym pushed) (Distinct-snoc (dq.contents c.order) k v.distinct other);
        sized =
            hm.len-insert_new c.map k (rasterize k) miss
            ∙ (omega (arith, v.sized, n, ap length pushed));
        within = omega (arith, room, n, ap length pushed);
      }

  get_raster-IsSound :
      (c : Cache hm dq rasterize) (k : Key)
      → IsSound c
      → IsSound (get_raster hm dq rasterize c k).0
        × ((get_raster hm dq rasterize c k).1 ≡ rasterize k)
  unfolding get_raster
  get_raster-IsSound c k v = elim (Option-cases (hm.get c.map k)) [
    | inr (entry, e) ↦ rw (get_raster, e) (v, v.right k entry e)
    | inl e ↦
        let (v', room) = evict-IsSound c v in
        rw (get_raster, e) (add_entry-IsSound _ k v' room (evict_miss c k v e), refl)
  ]

  -- The calls for a run of glyphs.
  abbrev pub get_all : Cache hm dq rasterize → List Key → Cache hm dq rasterize × List Raster
  get_all c [] = (c, [])
  get_all c (k ∷ ks) =
      let (c', r) = get_raster hm dq rasterize c k in let (c'', rs) = get_all c' ks in (c'', r ∷ rs)

  get_all-IsSound :
      (c : Cache hm dq rasterize) (ks : List Key)
      → IsSound c
      → IsSound (get_all c ks).0 × ((get_all c ks).1 ≡ map rasterize ks)
  get_all-IsSound c [] v = (v, refl)
  get_all-IsSound c (k ∷ ks) v =
      let (v', e) = get_raster-IsSound c k v in
      let (w, es) = get_all-IsSound (get_raster hm dq rasterize c k).0 ks v' in
      (w, ap₂ (λ r rs. r ∷ rs) e es)

  -- For any run of calls on the empty cache: what they return is what the font gives for the glyphs;
  -- the cache then holds at most 256 entries; and once room has been made there is room in the deque,
  -- so that `push_back_unchecked` is called within its contract.
  pub get_all_lem :
      (ks : List Key)
      → let c = (get_all (new_cache hm dq rasterize) ks).0 in
        ((get_all (new_cache hm dq rasterize) ks).1 ≡ map rasterize ks)
        × (hm.len c.map ≤ 256)
        × (length (dq.contents (evict hm dq rasterize c).order) < 256)
  get_all_lem ks =
      let (v, e) = get_all-IsSound (new_cache hm dq rasterize) ks new_cache-IsSound in
      (e, omega (arith, v.sized, v.within), (evict-IsSound _ v).1)
