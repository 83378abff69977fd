-- ===== src/Ps2/Init/Sequence.antt =====
-- What `configure` writes to a controller that answers, and the configuration it leaves.
use minecraft_os.Prelude.{
  ℕ, ◌≡◌, refl, ap, ◌∙◌, Bool, true, false, ◌&&◌, ◌==◌, Option, none, some, List, [], ◌∷◌, ◌++◌,
  map,
}
use minecraft_os.Ps2.Config.{Ps2Config, irq12_enabled}
use minecraft_os.Ps2.Mouse.{Ps2Mouse}
use minecraft_os.Ps2.Controller.{
  Bus, Write, cmd_write, data_write, drain, send_command, write_data, read_data, flush_buffer,
  read_config, write_config,
}
use minecraft_os.Ps2.Init.{quiet, quiet_second, enable, configure, settle, test_ports, enable_ports}

-- The writes of the test and of the set-up of the second port, the last one first.
abbrev pub second_writes : Bool → Ps2Config → List Write
second_writes true config = data_write config ∷ cmd_write 0x60 ∷ []
second_writes false config = []

abbrev pub only_if : Bool → ℕ → List Write
only_if true cmd = cmd_write cmd ∷ []
only_if false cmd = []

abbrev pub second_reply : Bool → ℕ → List (Option ℕ) → List (Option ℕ)
second_reply true p2 rest = some p2 ∷ rest
second_reply false p2 rest = rest

-- What `configure` writes, the last write first.
abbrev pub expected : Bool → Bool → Bool → Ps2Config → List Write
expected dual works1 works2 config =
    data_write (enable works1 works2 (quiet_second dual config))
    ∷ cmd_write 0x60
    ∷ (only_if works2 0xA8
        ++ (only_if works1 0xAE
            ++ (only_if dual 0xA9
                ++ (cmd_write 0xAB
                    ∷ (second_writes dual (quiet_second dual config)
                        ++ (cmd_write 0xA7
                            ∷ cmd_write 0xA8
                            ∷ data_write config
                            ∷ cmd_write 0x60
                            ∷ cmd_write 0xAA
                            ∷ data_write config
                            ∷ cmd_write 0x60
                            ∷ cmd_write 0x20
                            ∷ cmd_write 0xA7
                            ∷ cmd_write 0xAD
                            ∷ []))))))

drain-stale :
    (stale : List ℕ) (replies : List (Option ℕ))
    → drain (map some stale ++ (none ∷ replies)) ≡ replies
drain-stale [] replies = refl
drain-stale (b ∷ stale) replies = drain-stale stale replies

-- The result by what the controller answers.
abbrev pub answers : List ℕ → ℕ → ℕ → ℕ → ℕ → List (Option ℕ) → List (Option ℕ)
answers stale c t p1 p2 rest =
    map some stale
    ++ (none ∷ some c ∷ some t ∷ some p1 ∷ second_reply (irq12_enabled (quiet c)) p2 rest)

module _ (mouse : Ps2Mouse) (resets : ℕ) where
  abbrev pub bus_with : List (Option ℕ) → List Write → Bus
  bus_with replies writes = record {
    replies = replies;
    writes = writes;
    mouse = mouse;
    keyboard_resets = resets;
  }

  enable_ports_lem :
      (works1 works2 : Bool) (config : Ps2Config) (rest : List (Option ℕ)) (writes : List Write)
      → enable_ports works1 works2 config (bus_with rest writes)
        ≡ some (
          record {
            config = enable works1 works2 config;
            port1_works = works1;
            port2_works = works2;
          },
          bus_with rest (
              data_write (enable works1 works2 config)
              ∷ cmd_write 0x60
              ∷ (only_if works2 0xA8 ++ (only_if works1 0xAE ++ writes))),
        )
  unfolding enable_ports send_command write_data write_config
  enable_ports_lem true true config rest writes = refl
  enable_ports_lem true false config rest writes = refl
  enable_ports_lem false true config rest writes = refl
  enable_ports_lem false false config rest writes = refl

  test_ports_lem :
      (dual : Bool) (config : Ps2Config) (p1 p2 : ℕ) (rest : List (Option ℕ)) (writes : List Write)
      → test_ports dual config (bus_with (some p1 ∷ second_reply dual p2 rest) writes)
        ≡ enable_ports (p1 == 0) (dual && (p2 == 0)) (quiet_second dual config) (
            bus_with rest (
              only_if dual 0xA9
              ++ (cmd_write 0xAB ∷ (second_writes dual (quiet_second dual config) ++ writes))))
  unfolding test_ports send_command write_data read_data write_config
  test_ports_lem true config p1 p2 rest writes = refl
  test_ports_lem false config p1 p2 rest writes = refl

  -- Whatever is left in the output buffer, a controller that answers the configuration, the self
  -- test and the tests of its ports gets just these writes, and `configure` returns which ports
  -- work and the configuration that was written last. A second port is only tested if the
  -- firmware's configuration has its interrupt enabled.
  pub configure_lem :
      (stale : List ℕ) (c t p1 p2 : ℕ) (rest : List (Option ℕ))
      → let dual = irq12_enabled (quiet c) in
        let works2 = dual && (p2 == 0) in
        configure (bus_with (answers stale c t p1 p2 rest) [])
        ≡ some (
          record {
            config = enable (p1 == 0) works2 (quiet_second dual (quiet c));
            port1_works = p1 == 0;
            port2_works = works2;
          },
          bus_with rest (expected dual (p1 == 0) works2 (quiet c)),
        )
  unfolding configure settle send_command write_data read_data flush_buffer read_config write_config
  configure_lem stale c t p1 p2 rest =
      let dual = irq12_enabled (quiet c) in
      let tail = some c ∷ some t ∷ some p1 ∷ second_reply dual p2 rest in
      ap (λ r. settle (bus_with r (cmd_write 0xA7 ∷ cmd_write 0xAD ∷ []))) (drain-stale stale tail)
      ∙ test_ports_lem dual (quiet c) p1 p2 rest _
      ∙ enable_ports_lem (p1 == 0) (dual && (p2 == 0)) (quiet_second dual (quiet c)) rest _
