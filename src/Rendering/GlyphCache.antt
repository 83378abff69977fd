-- ===== src/Rendering/GlyphCache.antt =====
-- `get_raster` of kernel-core/src/rendering/text_box.rs: the cache of rasterised glyphs. The hash map,
-- the bounded deque and the font are parameters.
pub mod Sound
pub mod Table
mod Tests
use package.minecraft_os.Prelude.{
  ℕ, suc, ◌+◌, ◌<◌, ◌≡◌, ◌≢◌, Option, none, some, List, [], ◌∷◌, ◌++◌, length, leb, if◌then◌else◌,
}
use package.minecraft_os.Prelude.Int.{ℤ}

-- A character and a size.
abbrev pub Key : Type 0
Key = ℕ × ℕ

-- A glyph's metrics and bitmap, its advance width as the rounded `i32`.
pub record Raster : Type 0 where
  pub xmin : ℤ
  pub ymin : ℤ
  pub width : ℕ
  pub height : ℕ
  pub advance : ℤ
  pub bitmap : List ℕ

abbrev pub max_cache_entries : ℕ
max_cache_entries = 256

-- `hashbrown::HashMap`
pub record HashMap : Type 1 where
  pub Map : Type 0
  pub empty : Map
  pub get : Map → Key → Option Raster
  pub len : Map → ℕ
  pub insert : Map → Key → Raster → Map
  pub remove : Map → Key → Map
  pub get-empty : (k : Key) → get empty k ≡ none
  pub len-empty : len empty ≡ 0
  pub get-insert_self : (m : Map) (k : Key) (v : Raster) → get (insert m k v) k ≡ some v
  pub get-insert_ne : (m : Map) (k j : Key) (v : Raster) → j ≢ k → get (insert m k v) j ≡ get m j
  pub len-insert_new :
      (m : Map) (k : Key) (v : Raster) → get m k ≡ none → len (insert m k v) ≡ len m + 1
  pub get-remove_ne : (m : Map) (k j : Key) → j ≢ k → get (remove m k) j ≡ get m j
  pub get-remove_some :
      (m : Map) (k j : Key) (v : Raster) → get (remove m k) j ≡ some v → get m j ≡ some v
  pub len-remove :
      (m : Map) (k : Key) (v : Raster) → get m k ≡ some v → len (remove m k) + 1 ≡ len m

-- `heapless::Deque` of that capacity; what `push_back_unchecked` does to a full deque is undefined.
pub record Deque : Type 1 where
  pub Queue : Type 0
  pub empty : Queue
  pub contents : Queue → List Key
  pub pop_front : Queue → Queue × Option Key
  pub push_back_unchecked : Queue → Key → Queue
  pub contents-empty : contents empty ≡ []
  pub pop_front_nil :
      (q : Queue) → contents q ≡ [] → ((pop_front q).1 ≡ none) × (contents (pop_front q).0 ≡ [])
  pub pop_front_cons :
      (q : Queue) (k : Key) (ks : List Key)
      → contents q ≡ k ∷ ks
      → ((pop_front q).1 ≡ some k) × (contents (pop_front q).0 ≡ ks)
  pub push_back_unchecked-contents :
      (q : Queue) (k : Key)
      → length (contents q) < max_cache_entries
      → contents (push_back_unchecked q k) ≡ contents q ++ (k ∷ [])

module _ (hm : HashMap) (dq : Deque) (rasterize : Key → Raster) where
  open hm use {Map}
  open dq use {Queue}

  -- `GLYPH_CACHE` and `CACHE_ORDER`
  pub record Cache : Type 0 where
    pub map : Map
    pub order : Queue

  unfoldable pub new_cache : Cache
  new_cache = record { map = hm.empty; order = dq.empty }

  abbrev pub remove_oldest : Map → Queue × Option Key → Cache
  remove_oldest m (order, none) = record { map = m; order = order }
  remove_oldest m (order, some oldest) = record { map = hm.remove m oldest; order = order }

  -- Room for one more entry.
  unfoldable pub evict : Cache → Cache
  evict c =
      if leb max_cache_entries (hm.len c.map) then remove_oldest c.map (dq.pop_front c.order) else c

  -- `push_back_unchecked` and `insert`
  unfoldable pub add_entry : Cache → Key → Cache
  add_entry c k = record {
    map = hm.insert c.map k (rasterize k);
    order = dq.push_back_unchecked c.order k;
  }

  unfoldable pub get_raster : Cache → Key → Cache × Raster
  get_raster c k = elim (hm.get c.map k) [
    | some entry ↦ (c, entry)
    | none ↦ (add_entry (evict c) k, rasterize k)
  ]
