-- ===== src/Nvme/Init/Completes.antt =====
-- A prompt controller is brought up.
use minecraft_os.Prelude.{ℕ, ◌+◌, ◌≤◌, ◌≡◌, true, List, [], ◌∷◌, ◌++◌, bit_and, length}
use minecraft_os.Memory.{BootInfoFrameAllocator, usable_frames}
use minecraft_os.Nvme.Regs.{NvmeSqe, phase, status_code, csts_rdy}
use minecraft_os.Nvme.Queue
use minecraft_os.Nvme.Queue.{Effect, Waited, CompletionQueue, Memory, new_sq, submit, same}
use minecraft_os.Nvme.Init.{Init, ok, ◌>>◌, guard, Registers, Admin, succeeded}

-- There is a result, and it has the property.
abbrev pub Yields {ℓ κ} : {A : Type ℓ} → (A → Type κ) → Init A → Type (ℓ ⊔ κ)
Yields {A} P m = (a : A) × (m ≡ ok a) × P a

-- A memory in which every entry is of the first lap and reports success.
abbrev pub IsWilling : (ℕ → Memory) → Type 0
IsWilling memories =
    (address : ℕ) → (phase (memories 0 address) ≡ true) × (status_code (memories 0 address) ≡ 0)

record IsExpecting (h : ℕ) (q : CompletionQueue) : Type 0 where
  at : q.head ≡ h
  size : q.size ≡ 16
  first_lap : q.phase ≡ true

-- The rest of `admin_step`, behind the wait.
abbrev step_with : Admin → NvmeSqe → CompletionQueue × Waited × List Effect → Init Admin
step_with admin cmd w =
    guard (succeeded w.1)
    >> ok (record {
      sq = (submit admin.sq cmd).0;
      cq = w.0;
      commands = admin.commands ++ (cmd ∷ []);
      effects = admin.effects ++ ((submit admin.sq cmd).2 ++ w.2);
    })

-- At least `n` usable frames are left.
abbrev pub Has : ℕ → BootInfoFrameAllocator → Type 0
Has n frames = frames.next + n ≤ length (usable_frames frames.memory_map)

-- A controller that is ready and answers at the first look.
pub record IsPrompt (regs : Registers) : Type 0 where
  pub disables : bit_and (regs.disabling 0) csts_rdy ≡ 0
  pub enables : bit_and (regs.enabling 0) csts_rdy ≡ csts_rdy
  pub identifies : IsWilling regs.identified
  pub creates_cq : IsWilling regs.cq_created
  pub creates_sq : IsWilling regs.sq_created
