-- ===== src/Nvme/Init/Handshake.antt =====
-- What the controller was told agrees with the queues that the driver goes on with.
use minecraft_os.Prelude.{
  ℕ, ◌+◌, ◌*◌, ◌/◌, ◌%◌, ◌^◌, ◌≡◌, refl, ap, ◌∙◌, arith, Bool, true, false, List, [], ◌∷◌, ◌++◌,
}
use minecraft_os.Memory.{BootInfoFrameAllocator, translate_addr}
use minecraft_os.Pci.{Space, PciDevice, read_bar_address}
use minecraft_os.Nvme.Regs.{NvmeSqe, set_opcode, default_sqe, cap_dstrd}
use minecraft_os.Nvme.Queue.{Memory, new_sq, new_cq, wait}
use minecraft_os.Nvme.Init.{
  Init, ok, failed, panicked, ◌>>=◌, ◌>>◌, guard, Registers, RegisterWrite, alloc, Admin,
  admin_step, succeeded, Setup, new_admin, new_controller, bring_up, init_device, identify_command,
  create_cq_command, create_sq_command, doorbell_stride, disable, wait_ready,
}

-- What holds of a result, if there is one.
abbrev pub Post {ℓ κ} : {A : Type ℓ} → (A → Type κ) → Init A → Type κ
Post P (ok a) = P a
Post P failed = Unit
Post P panicked = Unit

Post-then {ℓ κ μ ν} :
    {A : Type ℓ} {B : Type κ} (Q : A → Type μ) (P : B → Type ν) (m : Init A) (f : A → Init B)
    → Post Q m
    → ((a : A) → Q a → Post P (f a))
    → Post P (m >>= f)
Post-then Q P (ok a) f h k = k a h
Post-then Q P failed f h k = _
Post-then Q P panicked f h k = _

Post-any {ℓ κ ν} :
    {A : Type ℓ} {B : Type κ} (P : B → Type ν) (m : Init A) (f : A → Init B)
    → ((a : A) → Post P (f a))
    → Post P (m >>= f)
Post-any P (ok a) f k = k a
Post-any P failed f k = _
Post-any P panicked f k = _

-- The fields of a command that creates a queue.
abbrev pub Creation : Type 0
Creation = record { opcode : ℕ; qid : ℕ; entries : ℕ; base : ℕ; contiguous : ℕ; completes_to : ℕ }

abbrev pub creation_of : NvmeSqe → Creation
creation_of sqe = record {
  opcode = sqe.cdw0 % 256;
  qid = sqe.cdw10 % 2 ^ 16;
  entries = sqe.cdw10 / 2 ^ 16 + 1;
  base = sqe.prp1;
  contiguous = sqe.cdw11 % 2;
  completes_to = sqe.cdw11 / 2 ^ 16;
}

-- The doorbell that the specification gives a queue: of its tail with 0, of its head with 1.
abbrev pub doorbell : ℕ → ℕ → ℕ → ℕ → ℕ
doorbell regs_virt cap qid head = regs_virt + 0x1000 + (2 * qid + head) * (4 * 2 ^ cap_dstrd cap)

pub record IsAgreed (regs_virt : ℕ) (regs : Registers) (s : Setup) : Type 0 where
  pub identify : NvmeSqe
  pub create_cq : NvmeSqe
  pub create_sq : NvmeSqe
  pub told : s.admin.commands ≡ identify ∷ create_cq ∷ create_sq ∷ []
  pub cq : creation_of create_cq ≡ record {
    opcode = 0x05;
    qid = 1;
    entries = s.controller.io_cq.size;
    base = s.controller.io_cq.base_phys;
    contiguous = 1;
    completes_to = 0;
  }
  pub sq : creation_of create_sq ≡ record {
    opcode = 0x01;
    qid = 1;
    entries = s.controller.io_sq.size;
    base = s.controller.io_sq.base_phys;
    contiguous = 1;
    completes_to = 1;
  }
  pub sq_doorbell : s.controller.io_sq.doorbell ≡ doorbell regs_virt regs.cap 1 0
  pub cq_doorbell : s.controller.io_cq.doorbell ≡ doorbell regs_virt regs.cap 1 1
  pub empty : (s.controller.io_sq.tail ≡ 0) × (s.controller.io_cq.head ≡ 0)
  pub fresh_phase : s.controller.io_cq.phase ≡ true

guarded :
    (b : Bool) (a : Admin) (commands : List NvmeSqe)
    → a.commands ≡ commands
    → Post (λ x. x.commands ≡ commands) (guard b >> ok a)
guarded true a commands e = e
guarded false a commands e = _

admin_step-commands :
    (admin : Admin) (memories : ℕ → Memory) (cmd : NvmeSqe)
    → Post (λ a. a.commands ≡ admin.commands ++ (cmd ∷ [])) (admin_step admin memories cmd)
unfolding admin_step
admin_step-commands admin memories cmd = guarded (succeeded (wait memories admin.cq).1) _ _ refl

create_cq-creation :
    (base : ℕ)
    → creation_of (create_cq_command base) ≡ record {
      opcode = 0x05;
      qid = 1;
      entries = 16;
      base = base;
      contiguous = 1;
      completes_to = 0;
    }
unfolding create_cq_command set_opcode default_sqe
create_cq-creation base = refl

create_sq-creation :
    (base : ℕ)
    → creation_of (create_sq_command base) ≡ record {
      opcode = 0x01;
      qid = 1;
      entries = 16;
      base = base;
      contiguous = 1;
      completes_to = 1;
    }
unfolding create_sq_command set_opcode default_sqe
create_sq-creation base = refl

agreed :
    (regs_virt : ℕ) (regs : Registers) (a b c : Admin) (io_cq io_sq dma_buf : ℕ × ℕ) (i : ℕ)
    (writes : List RegisterWrite)
    → a.commands ≡ identify_command i ∷ []
    → b.commands ≡ a.commands ++ (create_cq_command io_cq.1 ∷ [])
    → c.commands ≡ b.commands ++ (create_sq_command io_sq.1 ∷ [])
    → IsAgreed regs_virt regs (record {
      controller = new_controller regs_virt (doorbell_stride regs.cap) io_cq io_sq dma_buf;
      admin = c;
      register_writes = writes;
    })
unfolding new_controller new_sq new_cq doorbell_stride
agreed regs_virt regs a b c io_cq io_sq dma_buf i writes ea eb ec = record {
  identify = identify_command i;
  create_cq = create_cq_command io_cq.1;
  create_sq = create_sq_command io_sq.1;
  told =
      ec
      ∙ ap (λ l. l ++ (create_sq_command io_sq.1 ∷ []))
          (eb ∙ ap (λ l. l ++ (create_cq_command io_cq.1 ∷ [])) ea);
  cq = create_cq-creation io_cq.1;
  sq = create_sq-creation io_sq.1;
  sq_doorbell = omega arith;
  cq_doorbell = omega arith;
  empty = (refl, refl);
  fresh_phase = refl;
}

bring_up-IsAgreed :
    (offset : ℕ) (frames : BootInfoFrameAllocator) (regs_virt : ℕ) (regs : Registers)
    → Post (IsAgreed regs_virt regs) (bring_up offset frames regs_virt regs)
unfolding bring_up new_admin
bring_up-IsAgreed offset frames regs_virt regs =
    let P = IsAgreed regs_virt regs in
    Post-any P (guard (disable regs).1) _ (λ u. Post-any P (alloc offset frames) _ (λ admin_sq.
      Post-any P (alloc offset admin_sq.left) _ (λ admin_cq.
        Post-any P (guard (wait_ready regs.enabling true)) _ (λ v.
          Post-any P (alloc offset admin_cq.left) _ (λ i.
            Post-then _ P (admin_step _ regs.identified (identify_command i.addresses.1)) _
              (admin_step-commands _ regs.identified _)
              (λ a ea. Post-any P (alloc offset i.left) _ (λ io_cq.
                Post-then _ P (admin_step a regs.cq_created _) _
                  (admin_step-commands a regs.cq_created _)
                  (λ b eb. Post-any P (alloc offset io_cq.left) _ (λ io_sq.
                    Post-then _ P (admin_step b regs.sq_created _) _
                      (admin_step-commands b regs.sq_created _)
                      (λ c ec. Post-any P (alloc offset io_sq.left) _ (λ dma_buf.
                        agreed regs_virt regs a b c io_cq.addresses io_sq.addresses
                          dma_buf.addresses i.addresses.1 _ ea eb ec)))))))))))

-- Whatever the registers and the memory read: if `init_inner` gets to its end with a device, whose
-- registers are where BAR0 says, then the driver submitted three admin commands, of which the second
-- and third create a completion and a submission queue with id 1 and in one piece, of just the size
-- and at just the address of the two queues that the driver goes on with; these have the doorbells
-- that the specification gives to queue 1, and are empty, with the phase that the first lap has.
pub init_device-IsAgreed :
    (offset : ℕ) (space : Space) (frames : BootInfoFrameAllocator) (regs : ℕ → Registers)
    (dev : PciDevice)
    → let regs_virt = translate_addr offset (read_bar_address dev 0) in
      Post (IsAgreed regs_virt (regs regs_virt)) (init_device offset space frames regs dev).1
unfolding init_device
init_device-IsAgreed offset space frames regs dev =
    let regs_virt = translate_addr offset (read_bar_address dev 0) in
    Post-any (IsAgreed regs_virt (regs regs_virt)) (guard _) _
      (λ u. bring_up-IsAgreed offset frames regs_virt (regs regs_virt))
