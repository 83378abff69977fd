-- ===== src/Nvme/Queue.antt =====
-- The submission and completion queues of kernel/src/nvme/queue.rs. A volatile write is an `Effect`
-- that a method returns, in program order; a volatile read takes what the memory holds then.
pub mod Submit
pub mod Fifo
pub mod Wait
use package.minecraft_os.Prelude.{ℕ, zero, suc, ◌+◌, ◌*◌, ◌%◌, ◌^◌, Bool, true, false, not}
use package.minecraft_os.Prelude.{
  Option, none, some, List, [], ◌∷◌, ◌++◌, leb, if◌then◌else◌, ◌&&◌, ◌||◌,
}
use package.minecraft_os.Nvme.Regs.{NvmeSqe, NvmeCqe, set_cid, phase}

pub data Effect : Type 0 where
  write_sqe : ℕ → NvmeSqe → Effect
  write_doorbell : ℕ → ℕ → Effect

-- `tail`, `size` and `cid_counter` are `u16`, addresses `u64`.
pub record SubmissionQueue : Type 0 where
  pub base_virt : ℕ
  pub base_phys : ℕ
  pub tail : ℕ
  pub size : ℕ
  pub doorbell : ℕ
  pub cid_counter : ℕ

unfoldable pub new_sq : ℕ → ℕ → ℕ → ℕ → SubmissionQueue
new_sq base_virt base_phys size doorbell = record {
  base_virt = base_virt;
  base_phys = base_phys;
  tail = 0;
  size = size;
  doorbell = doorbell;
  cid_counter = 0;
}

-- The queue, the id given to the command, and the two volatile writes.
unfoldable pub submit : SubmissionQueue → NvmeSqe → SubmissionQueue × ℕ × List Effect
submit q cmd =
    let cid = q.cid_counter in
    let tail = (q.tail + 1) % 2 ^ 16 % q.size in
    (
      record q { cid_counter = (cid + 1) % 2 ^ 16; tail = tail },
      cid,
      write_sqe (q.base_virt + q.tail * 64) (set_cid cmd cid) ∷ write_doorbell q.doorbell tail ∷ [],
    )

pub record CompletionQueue : Type 0 where
  pub base_virt : ℕ
  pub base_phys : ℕ
  pub head : ℕ
  pub size : ℕ
  pub phase : Bool
  pub doorbell : ℕ

unfoldable pub new_cq : ℕ → ℕ → ℕ → ℕ → CompletionQueue
new_cq base_virt base_phys size doorbell = record {
  base_virt = base_virt;
  base_phys = base_phys;
  head = 0;
  size = size;
  phase = true;
  doorbell = doorbell;
}

-- Completion entries by address.
abbrev pub Memory : Type 0
Memory = ℕ → NvmeCqe

abbrev pub same : Bool → Bool → Bool
same true b = b
same false b = not b

unfoldable pub poll : CompletionQueue → Memory → CompletionQueue × Option NvmeCqe × List Effect
poll q memory =
    let entry = memory (q.base_virt + q.head * 16) in
    let next = (q.head + 1) % 2 ^ 16 in
    let wrapped = leb q.size next in
    let head = if wrapped then 0 else next in
    let flipped = if wrapped then not q.phase else q.phase in
    if not (same (phase entry) q.phase) then (q, none, []) else (
      record q { head = head; phase = flipped },
      some entry,
      write_doorbell q.doorbell head ∷ [],
    )

pub data Waited : Type 0 where
  ok : NvmeCqe → Waited
  timeout : Waited

-- `for _ in 0..rounds`; the device changes the memory, `memories t` is what round `t` reads.
unfoldable pub wait_loop :
    ℕ → (ℕ → Memory) → ℕ → CompletionQueue → CompletionQueue × Waited × List Effect
wait_loop zero memories t q = (q, timeout, [])
wait_loop (suc rounds) memories t q =
    let (q', found, effects) = poll q (memories t) in
    elim found [ some cqe ↦ (q', ok cqe, effects) | none ↦ wait_loop rounds memories (t + 1) q' ]

abbrev pub wait_rounds : ℕ
wait_rounds = 500_000_000

unfoldable pub wait : (ℕ → Memory) → CompletionQueue → CompletionQueue × Waited × List Effect
wait memories q = wait_loop wait_rounds memories 0 q
