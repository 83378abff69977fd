-- ===== src/Rendering/Fill.antt =====
-- `fill_slice_48` of kernel-core/src/rendering/renderer.rs. The frame buffer is a list of bytes, and
-- `dst` the offset of the pointer in it.
pub mod Pattern
use package.minecraft_os.Prelude.{
  ℕ, zero, suc, ◌+◌, ◌*◌, ◌/◌, ◌%◌, List, [], ◌∷◌, ◌==◌, if◌then◌else◌, take, write_at,
}

-- `for chunk in 0..num_chunks`, from `chunk` on.
unfoldable pub fill_chunks : ℕ → ℕ → ℕ → List ℕ → List ℕ → List ℕ
fill_chunks dst chunk zero pattern buf = buf
fill_chunks dst chunk (suc n) pattern buf =
    fill_chunks dst (chunk + 1) n pattern (write_at (dst + chunk * 48) pattern buf)

unfoldable pub fill_slice_48 : ℕ → ℕ → List ℕ → List ℕ → List ℕ
fill_slice_48 dst len pattern buf =
    let num_chunks = len / 48 in
    let remainder = len % 48 in
    let filled = fill_chunks dst 0 num_chunks pattern buf in
    if len == 0 then buf else write_at (dst + num_chunks * 48) (take remainder pattern) filled
