-- ===== src/Rendering/GlyphCache/Tests.antt =====
-- Three calls on an empty cache, with a font of square glyphs.
use minecraft_os.Prelude.{◌*◌, ◌≤◌, ◌<◌, ◌≡◌, List, [], ◌∷◌, map, length, replicate}
use minecraft_os.Prelude.Int.{pos}
use minecraft_os.Rendering.GlyphCache.{Key, Raster, new_cache, evict}
use minecraft_os.Rendering.GlyphCache.Sound.{get_all, get_all_lem}
use minecraft_os.Rendering.GlyphCache.Table.{table_map, list_deque}

abbrev square : Key → Raster
square k = record {
  xmin = pos 0;
  ymin = pos 0;
  width = k.1;
  height = k.1;
  advance = pos k.1;
  bitmap = replicate (k.1 * k.1) 255;
}

abbrev calls : List Key
calls = (b'a', 14) ∷ (b'b', 14) ∷ (b'a', 14) ∷ []

get_all_example :
    let c = (get_all table_map list_deque square (new_cache table_map list_deque square) calls).0 in
    ((get_all table_map list_deque square (new_cache table_map list_deque square) calls).1
      ≡ map square calls)
    × (table_map.len c.map ≤ 256)
    × (length (list_deque.contents (evict table_map list_deque square c).order) < 256)
get_all_example = get_all_lem table_map list_deque square calls
