-- ===== src/Ps2/Init/Tests.antt =====
-- A controller with a keyboard and a mouse.
use minecraft_os.Prelude.{◌≡◌, arith, true, false, not, ◌&&◌, ◌||◌, ◌==◌, some, [], ◌∷◌}
use minecraft_os.Ps2.Mouse.{default_mouse}
use minecraft_os.Ps2.Config.{
  irq1_enabled, irq12_enabled, first_port_clock_enabled, second_port_clock_enabled,
  translation_enabled,
}
use minecraft_os.Ps2.Config.Settings.{bit_of}
use minecraft_os.Ps2.Init.{configure, quiet, quiet_second, enable}
use minecraft_os.Ps2.Init.Sequence.{bus_with, answers, expected, configure_lem}
use minecraft_os.Ps2.Init.Bits.{left, final, final_bits}

configure_example :
    let dual = irq12_enabled (quiet 0x47) in
    let works2 = dual && (0 == 0) in
    configure (bus_with default_mouse 0 (answers (0x1c ∷ []) 0x47 0x55 0 0 []) [])
    ≡ some (
      record {
        config = enable (0 == 0) works2 (quiet_second dual (quiet 0x47));
        port1_works = 0 == 0;
        port2_works = works2;
      },
      bus_with default_mouse 0 [] (expected dual (0 == 0) works2 (quiet 0x47)),
    )
configure_example = configure_lem default_mouse 0 (0x1c ∷ []) 0x47 0x55 0 0 []

final_bits_example :
    let f = final true true 0x47 in
    (irq1_enabled f ≡ true)
    × (irq12_enabled f ≡ (bit_of 1 0x47 && true))
    × ((not (bit_of 1 0x47 && true) || second_port_clock_enabled f) ≡ true)
    × (first_port_clock_enabled f ≡ true)
    × (translation_enabled (left true true 0x47) ≡ false)
    × (translation_enabled f ≡ true)
    × (bit_of 2 f ≡ bit_of 2 0x47)
    × (bit_of 3 f ≡ bit_of 3 0x47)
    × (bit_of 7 f ≡ bit_of 7 0x47)
final_bits_example = final_bits true true 0x47 (omega arith)
