-- ===== src/Ps2/Init/Bits.antt =====
-- The bits of the configuration that the initialisation leaves.
use minecraft_os.Prelude.{ℕ, ◌<◌, ◌≡◌, refl, Bool, true, false, not, ◌&&◌, ◌||◌}
use minecraft_os.Ps2.Config.{
  Ps2Config, irq1_enabled, irq12_enabled, first_port_clock_enabled, second_port_clock_enabled,
  translation_enabled, get_bit, set_bit, get_inverted, set_inverted, set_translation,
}
use minecraft_os.Ps2.Config.Settings.{all_below, all_below-true, same, same→≡, and-true, bit_of}
use minecraft_os.Ps2.Init.{quiet, quiet_second, enable}

-- The configuration that `configure` returns, by the firmware's and the tests of the two ports.
abbrev pub left : Bool → Bool → Ps2Config → Ps2Config
left works1 works2 c =
    let dual = irq12_enabled (quiet c) in
    enable works1 (dual && works2) (quiet_second dual (quiet c))

abbrev pub final : Bool → Bool → Ps2Config → Ps2Config
final works1 works2 c = set_translation (left works1 works2 c) true

abbrev Query : Type 0
Query = Bool → Bool → Ps2Config → Bool

abbrev agree : Query → Query → Bool → Bool → Bool
agree p q w1 w2 = all_below 256 (λ c. same (p w1 w2 c) (q w1 w2 c))

-- Two queries that agree on all bytes, whichever ports work.
decided :
    (p q : Query)
    → (agree p q true true && agree p q true false) ≡ true
    → (agree p q false true && agree p q false false) ≡ true
    → (w1 w2 : Bool) (c : ℕ) → c < 256
    → p w1 w2 c ≡ q w1 w2 c
decided p q e f w1 w2 c h =
    same→≡ (p w1 w2 c) (q w1 w2 c)
      (all_below-true 256 (λ x. same (p w1 w2 x) (q w1 w2 x)) (by_ports w1 w2) c h)
  where
    by_ports : (v1 v2 : Bool) → agree p q v1 v2 ≡ true
    by_ports true true = (and-true _ _ e).0
    by_ports true false = (and-true _ _ e).1
    by_ports false true = (and-true _ _ f).0
    by_ports false false = (and-true _ _ f).1

-- For every configuration byte of the firmware and every outcome of the port tests, the first
-- port's interrupt is enabled at the end just if the first port works, the second port's just if
-- the firmware had it enabled and the port works, and the second port's clock runs then; the first
-- port's clock runs; translation is off while the devices are set up and on at the end; and the
-- system flag and the two reserved bits are the firmware's.
pub final_bits :
    (works1 works2 : Bool) (c : Ps2Config)
    → c < 256
    → let f = final works1 works2 c in
      (irq1_enabled f ≡ works1)
      × (irq12_enabled f ≡ (bit_of 1 c && works2))
      × ((not (bit_of 1 c && works2) || second_port_clock_enabled f) ≡ true)
      × (first_port_clock_enabled f ≡ true)
      × (translation_enabled (left works1 works2 c) ≡ false)
      × (translation_enabled f ≡ true)
      × (bit_of 2 f ≡ bit_of 2 c)
      × (bit_of 3 f ≡ bit_of 3 c)
      × (bit_of 7 f ≡ bit_of 7 c)
unfolding get_bit set_bit get_inverted set_inverted
final_bits works1 works2 c h = (
  decided (λ v w c. irq1_enabled (final v w c)) (λ v w c. v) refl refl works1 works2 c h,
  decided (λ v w c. irq12_enabled (final v w c)) (λ v w c. bit_of 1 c && w) refl refl works1 works2
      c h,
  decided (λ v w c. not (bit_of 1 c && w) || second_port_clock_enabled (final v w c))
      (λ v w c. true) refl refl works1 works2 c h,
  decided (λ v w c. first_port_clock_enabled (final v w c)) (λ v w c. true) refl refl works1 works2
      c h,
  decided (λ v w c. translation_enabled (left v w c)) (λ v w c. false) refl refl works1 works2 c h,
  decided (λ v w c. translation_enabled (final v w c)) (λ v w c. true) refl refl works1 works2 c h,
  decided (λ v w c. bit_of 2 (final v w c)) (λ v w c. bit_of 2 c) refl refl works1 works2 c h,
  decided (λ v w c. bit_of 3 (final v w c)) (λ v w c. bit_of 3 c) refl refl works1 works2 c h,
  decided (λ v w c. bit_of 7 (final v w c)) (λ v w c. bit_of 7 c) refl refl works1 works2 c h,
)
