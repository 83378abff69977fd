-- ===== src/Ahci/Port.antt =====
-- One command on slot 0 of a port: kernel/src/ahci/port.rs. What the registers read in each round
-- of the two polling loops is an argument, `Answer`.
pub mod Issue
pub mod Requests
use package.minecraft_os.Prelude.{
  ℕ, zero, suc, ◌+◌, ◌-◌, ◌*◌, ◌/◌, ◌%◌, ◌^◌, Bool, true, false, not, List, [], ◌∷◌,
}
use package.minecraft_os.Prelude.{◌==◌, if◌then◌else◌, length, replicate, write_at, bit_and, bit_or}
use package.minecraft_os.Ahci.Hba.{
  HbaCommandHeader, FisRegH2d, default_fis, HbaPrdt, HbaCommandTable, tfd_bsy, tfd_drq, tfd_err,
  ata_cmd_identify, ata_cmd_read_dma_ext, ata_cmd_write_dma_ext,
}

pub data AhciError : Type 0 where
  timeout : AhciError
  task_file_error : ℕ → AhciError
  buffer_too_small : AhciError
  no_device : AhciError

pub data Status : Type 0 where
  ok : Status
  err : AhciError → Status

-- What the port's registers read: the task file before the command is issued, `PxCI` and the task
-- file while it runs, and the task file once it has completed.
pub record Answer : Type 0 where
  pub idle_tfd : ℕ → ℕ
  pub ci : ℕ → ℕ
  pub tfd : ℕ → ℕ
  pub final_tfd : ℕ

-- Whether a volatile write of 1 to `PxCI` happened.
pub data Issued : Type 0 where
  untouched issued : Issued

abbrev pub is_busy : ℕ → Bool
is_busy tfd = not (bit_and tfd (bit_or tfd_bsy tfd_drq) == 0)

abbrev pub has_error : ℕ → Bool
has_error tfd = not (bit_and tfd tfd_err == 0)

abbrev pub is_pending : ℕ → Bool
is_pending ci = not (bit_and ci 1 == 0)

-- The first loop reads the task file once more than its bound. `true` once the port is not busy.
abbrev pub busy_reads : ℕ
busy_reads = 1_000_001

unfoldable pub wait_not_busy : ℕ → ℕ → (ℕ → ℕ) → Bool
wait_not_busy zero t tfd = false
wait_not_busy (suc reads) t tfd =
    let rest = wait_not_busy reads (t + 1) tfd in if is_busy (tfd t) then rest else true

abbrev pub poll_reads : ℕ
poll_reads = 50_000_001

abbrev pub error_check : ℕ → Status
error_check tfd = if has_error tfd then err (task_file_error tfd) else ok

-- The second loop, with the error check that follows it.
unfoldable pub poll_completion : ℕ → ℕ → Answer → Status
poll_completion zero t answer = err timeout
poll_completion (suc reads) t answer =
    let rest = poll_completion reads (t + 1) answer in
    if not (is_pending (answer.ci t))
    then error_check answer.final_tfd
    else if has_error (answer.tfd t)
    then err (task_file_error (answer.tfd t))
    else rest

unfoldable pub issue_command : Answer → Issued × Status
issue_command answer =
    if wait_not_busy busy_reads 0 answer.idle_tfd
    then (issued, poll_completion poll_reads 0 answer)
    else (untouched, err timeout)

-- `virt_to_phys` with the offset of the direct mapping; the `u64` difference wraps as in a release
-- build.
unfoldable pub virt_to_phys : ℕ → ℕ → ℕ
virt_to_phys offset virt = (virt + 2 ^ 64 - offset) % 2 ^ 64

-- `header` and `table` are what slot 0 holds afterwards.
pub record Slot : Type 0 where
  pub header : HbaCommandHeader
  pub table : HbaCommandTable

unfoldable pub header_flags : ℕ → Bool → ℕ
header_flags cfis_len write =
    let flags = bit_or (bit_and cfis_len 0x1F) (2 ^ 16) in
    if write then bit_or flags (2 ^ 6) else flags

-- `dbc` wraps as the `u32` subtraction does in a release build.
unfoldable pub setup_command : ℕ → ℕ → List ℕ → ℕ → ℕ → Bool → Slot
setup_command offset cmd_table_virt cfis buffer_phys byte_count write =
    let cmd_table_phys = virt_to_phys offset cmd_table_virt in
    record {
      header = record {
        flags = header_flags (length cfis / 4) write;
        prdbc = 0;
        ctba = cmd_table_phys % 2 ^ 32;
        ctbau = cmd_table_phys / 2 ^ 32 % 2 ^ 32;
      };
      table = record {
        cfis = write_at 0 cfis (replicate 64 0);
        prdt = record {
          dba = buffer_phys % 2 ^ 32;
          dbau = buffer_phys / 2 ^ 32 % 2 ^ 32;
          dbc = (byte_count + 2 ^ 32 - 1) % 2 ^ 32;
        };
      };
    }

-- The 20 bytes of the packed structure, in the order of its fields.
unfoldable pub fis_bytes : FisRegH2d → List ℕ
fis_bytes fis =
    fis.fis_type ∷ fis.pm_and_c ∷ fis.command ∷ fis.featurel ∷ fis.lba0 ∷ fis.lba1 ∷ fis.lba2
    ∷ fis.device ∷ fis.lba3 ∷ fis.lba4 ∷ fis.lba5 ∷ fis.features ∷ fis.countl ∷ fis.counth ∷ fis.icc
    ∷ fis.control ∷ 0 ∷ 0 ∷ 0 ∷ 0 ∷ []

unfoldable pub build_h2d_fis : ℕ → ℕ → ℕ → List ℕ
build_h2d_fis command lba count =
    let fis = record default_fis {
      fis_type = 0x27;
      pm_and_c = 0x80;
      command = command;
      device = 2 ^ 6;
      lba0 = lba % 256;
      lba1 = lba / 2 ^ 8 % 256;
      lba2 = lba / 2 ^ 16 % 256;
      lba3 = lba / 2 ^ 24 % 256;
      lba4 = lba / 2 ^ 32 % 256;
      lba5 = lba / 2 ^ 40 % 256;
      countl = count % 256;
      counth = count / 2 ^ 8 % 256;
    } in
    fis_bytes fis

-- The slot as it stands when `PxCI` is written, and what `issue_command` returns.
abbrev pub Run : Type 0
Run = Slot × Issued × Status

unfoldable pub read_sectors : ℕ → ℕ → Answer → ℕ → ℕ → ℕ → Run
read_sectors offset cmd_table_virt answer lba count dma_buf_phys =
    let fis = build_h2d_fis ata_cmd_read_dma_ext lba count in
    let (ci_write, status) = issue_command answer in
    (setup_command offset cmd_table_virt fis dma_buf_phys (count * 512) false, ci_write, status)

unfoldable pub write_sectors : ℕ → ℕ → Answer → ℕ → ℕ → ℕ → Run
write_sectors offset cmd_table_virt answer lba count dma_buf_phys =
    let fis = build_h2d_fis ata_cmd_write_dma_ext lba count in
    let (ci_write, status) = issue_command answer in
    (setup_command offset cmd_table_virt fis dma_buf_phys (count * 512) true, ci_write, status)

unfoldable pub identify : ℕ → ℕ → Answer → ℕ → Run
identify offset cmd_table_virt answer dma_buf_phys =
    let fis = build_h2d_fis ata_cmd_identify 0 0 in
    let (ci_write, status) = issue_command answer in
    (setup_command offset cmd_table_virt fis dma_buf_phys 512 false, ci_write, status)
