-- ===== src/Nvme/Regs/Fields.antt =====
-- The bit fields in plain arithmetic.
use minecraft_os.Prelude.{ℕ, ◌+◌, ◌*◌, ◌/◌, ◌%◌, ◌^◌, ◌<◌, ◌≡◌, ◌==◌, arith}
use minecraft_os.Prelude.Bits.{bit_and_mask, bit_or_sum_low, zero-bit_or}
use minecraft_os.Nvme.Regs.{NvmeSqe, NvmeCqe, default_sqe, set_opcode, set_cid, phase, status_code}

pub set_cid-cdw0 :
    (sqe : NvmeSqe) (cid : ℕ)
    → cid < 2 ^ 16
    → (set_cid sqe cid).cdw0 ≡ cid * 2 ^ 16 + sqe.cdw0 % 2 ^ 16
unfolding set_cid
set_cid-cdw0 sqe cid h =
    ground (arith, bit_and_mask 16 sqe.cdw0, bit_or_sum_low 16 cid (sqe.cdw0 % 2 ^ 16))

pub set_opcode-default : (opcode : ℕ) → opcode < 256 → (set_opcode default_sqe opcode).cdw0 ≡ opcode
unfolding set_opcode default_sqe
set_opcode-default opcode h = zero-bit_or opcode

pub phase-eq_test : (cqe : NvmeCqe) → phase cqe ≡ (cqe.status % 2 == 1)
unfolding phase
phase-eq_test cqe = ground (arith, bit_and_mask 1 cqe.status)

pub status_code-eq : (cqe : NvmeCqe) → status_code cqe ≡ cqe.status / 2 % 2048
unfolding status_code
status_code-eq cqe = bit_and_mask 11 (cqe.status / 2)
