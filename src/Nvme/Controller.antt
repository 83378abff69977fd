-- ===== src/Nvme/Controller.antt =====
-- `NvmeController::read_sectors` and `write_sectors` of kernel/src/nvme/mod.rs. The controller's
-- answer is an argument: the completion memory as each round of `wait` reads it, and the bytes that
-- it leaves in the bounce buffer.
pub mod Requests
use package.minecraft_os.Prelude.{
  ℕ, ◌+◌, ◌-◌, ◌*◌, ◌/◌, ◌%◌, ◌^◌, Bool, ◌||◌, not, List, [], ◌∷◌, ◌++◌,
}
use package.minecraft_os.Prelude.{ltb, ◌==◌, if◌then◌else◌, length, take, write_at}
use package.minecraft_os.Nvme.Regs.{NvmeSqe, NvmeCqe, default_sqe, set_opcode, status_code}
use package.minecraft_os.Nvme.Regs.{io_cmd_read, io_cmd_write}
use package.minecraft_os.Nvme.Queue
use package.minecraft_os.Nvme.Queue.{
  Effect, SubmissionQueue, CompletionQueue, Memory, Waited, submit, wait,
}

pub data NvmeError : Type 0 where
  timeout : NvmeError
  command_error : ℕ → NvmeError
  buffer_too_small : NvmeError
  no_device : NvmeError

pub data Status : Type 0 where
  ok : Status
  err : NvmeError → Status

pub record NvmeController : Type 0 where
  pub io_sq : SubmissionQueue
  pub io_cq : CompletionQueue
  pub dma_buf : List ℕ
  pub dma_buf_phys : ℕ

-- What the device does while the driver waits.
pub record Answer : Type 0 where
  pub memories : ℕ → Memory
  pub dma : List ℕ

pub record Outcome : Type 0 where
  pub controller : NvmeController
  pub buffer : List ℕ
  pub status : Status
  pub effects : List Effect

-- `(count - 1) as u32`, with the `u16` subtraction as it wraps in a release build.
abbrev pub zero_based : ℕ → ℕ
zero_based count = (count + 2 ^ 16 - 1) % 2 ^ 16

unfoldable pub io_command : ℕ → NvmeController → ℕ → ℕ → NvmeSqe
io_command opcode c lba count =
    let cmd = set_opcode default_sqe opcode in
    record cmd {
      nsid = 1;
      prp1 = c.dma_buf_phys;
      cdw10 = lba % 2 ^ 32;
      cdw11 = lba / 2 ^ 32 % 2 ^ 32;
      cdw12 = zero_based count;
    }

-- The tests of `CommandError` and of the timeout, after the wait.
unfoldable pub check_status : Waited → Status
check_status Queue.timeout = err timeout
check_status (Queue.ok cqe) =
    if not (status_code cqe == 0) then err (command_error (status_code cqe)) else ok

-- Submit the command and wait for its completion, which leaves `dma` in the bounce buffer.
unfoldable pub run_command :
    NvmeController → (ℕ → Memory) → List ℕ → NvmeSqe → NvmeController × Status × List Effect
run_command c memories dma cmd =
    let (io_sq, cid, submitted) = submit c.io_sq cmd in
    let (io_cq, waited, completed) = wait memories c.io_cq in
    (
      record c { io_sq = io_sq; io_cq = io_cq; dma_buf = dma },
      check_status waited,
      submitted ++ completed,
    )

abbrev pub too_small : List ℕ → ℕ → Bool
too_small buffer byte_count = ltb (length buffer) byte_count || ltb 4096 byte_count

abbrev pub copy_out : Status → ℕ → List ℕ → List ℕ → List ℕ
copy_out ok byte_count dma buffer = write_at 0 (take byte_count dma) buffer
copy_out (err e) byte_count dma buffer = buffer

unfoldable pub read_sectors : NvmeController → Answer → ℕ → ℕ → List ℕ → Outcome
read_sectors c answer lba count buffer =
    let byte_count = count * 512 in
    let (c', status, effects) =
      run_command c answer.memories answer.dma (io_command io_cmd_read c lba count) in
    if too_small buffer byte_count
    then record { controller = c; buffer = buffer; status = err buffer_too_small; effects = [] }
    else record {
      controller = c';
      buffer = copy_out status byte_count c'.dma_buf buffer;
      status = status;
      effects = effects;
    }

unfoldable pub write_sectors : NvmeController → Answer → ℕ → ℕ → List ℕ → Outcome
write_sectors c answer lba count buffer =
    let byte_count = count * 512 in
    let filled : NvmeController = record c {
      dma_buf = write_at 0 (take byte_count buffer) c.dma_buf;
    } in
    let (c', status, effects) =
      run_command filled answer.memories filled.dma_buf
        (io_command io_cmd_write filled lba count) in
    if too_small buffer byte_count
    then record { controller = c; buffer = buffer; status = err buffer_too_small; effects = [] }
    else record { controller = c'; buffer = buffer; status = status; effects = effects }
