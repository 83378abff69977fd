-- ===== src/Ahci/Engine.antt =====
-- Starting and stopping a port's command engine: `wait_cr`, `stop_port` and `start_port` of
-- kernel/src/ahci/mod.rs. `cmd t` is what read number `t` of `PxCMD` returns; a function takes the
-- number of the next read and returns it with its writes.
use minecraft_os.Prelude.{
  ℕ, zero, suc, ◌+◌, ◌-◌, ◌^◌, List, [], ◌∷◌, ◌==◌, if◌then◌else◌, bit_and, bit_or,
}
use minecraft_os.Ahci.Hba.{port_cmd_st, port_cmd_fre, port_cmd_cr}

-- Volatile writes to a port's registers and to `GHC`.
pub data Effect : Type 0 where
  write_cmd write_clb write_clbu write_fb write_fbu write_serr write_ghc : ℕ → Effect

unfoldable pub wait_cr_rounds : ℕ → ℕ → (ℕ → ℕ) → ℕ
wait_cr_rounds zero t cmd = t
wait_cr_rounds (suc rounds) t cmd =
    let rest = wait_cr_rounds rounds (t + 1) cmd in
    if bit_and (cmd t) port_cmd_cr == 0 then t + 1 else rest

unfoldable pub wait_cr : ℕ → (ℕ → ℕ) → ℕ
wait_cr t cmd = wait_cr_rounds 1_000_000 t cmd

-- `cmd & !bits` on a `u32`
abbrev pub without : ℕ → ℕ → ℕ
without cmd bits = bit_and cmd (2 ^ 32 - 1 - bits)

unfoldable pub stop_port : ℕ → (ℕ → ℕ) → ℕ × List Effect
stop_port t cmd =
    let stopped = wait_cr (t + 1) cmd in
    let end = wait_cr (stopped + 1) cmd in
    if bit_and (cmd t) (bit_or port_cmd_st port_cmd_fre) == 0 then (t + 1, []) else (
      end,
      write_cmd (without (cmd t) port_cmd_st) ∷ write_cmd (without (cmd stopped) port_cmd_fre) ∷ [],
    )

unfoldable pub start_port : ℕ → (ℕ → ℕ) → ℕ × List Effect
start_port t cmd =
    let ready = wait_cr t cmd in
    (ready + 1, write_cmd (bit_or (bit_or (cmd ready) port_cmd_fre) port_cmd_st) ∷ [])
