-- ===== src/Nvme/Regs.antt =====
-- The registers and queue entries of kernel/src/nvme/regs.rs, with their bit fields.
pub mod Fields
use package.minecraft_os.Prelude.{ℕ, ◌+◌, ◌-◌, ◌*◌, ◌/◌, ◌%◌, ◌^◌, Bool, not, ◌==◌, bit_and, bit_or}

abbrev pub cc_en : ℕ
cc_en = 2 ^ 0

abbrev pub cc_css_nvm : ℕ
cc_css_nvm = 0 * 2 ^ 4

abbrev pub cc_mps_4k : ℕ
cc_mps_4k = 0 * 2 ^ 7

abbrev pub cc_iosqes_64 : ℕ
cc_iosqes_64 = 6 * 2 ^ 16

abbrev pub cc_iocqes_16 : ℕ
cc_iocqes_16 = 4 * 2 ^ 20

abbrev pub csts_rdy : ℕ
csts_rdy = 2 ^ 0

abbrev pub admin_identify : ℕ
admin_identify = 0x06

abbrev pub admin_create_io_cq : ℕ
admin_create_io_cq = 0x05

abbrev pub admin_create_io_sq : ℕ
admin_create_io_sq = 0x01

-- Submission queue entry. `cdw0` holds the opcode (7:0) and the command's id (31:16).
pub record NvmeSqe : Type 0 where
  pub cdw0 : ℕ
  pub nsid : ℕ
  pub cdw2 : ℕ
  pub cdw3 : ℕ
  pub mptr : ℕ
  pub prp1 : ℕ
  pub prp2 : ℕ
  pub cdw10 : ℕ
  pub cdw11 : ℕ
  pub cdw12 : ℕ
  pub cdw13 : ℕ
  pub cdw14 : ℕ
  pub cdw15 : ℕ

-- `NvmeSqe::default()`
unfoldable pub default_sqe : NvmeSqe
default_sqe = record {
  cdw0 = 0;
  nsid = 0;
  cdw2 = 0;
  cdw3 = 0;
  mptr = 0;
  prp1 = 0;
  prp2 = 0;
  cdw10 = 0;
  cdw11 = 0;
  cdw12 = 0;
  cdw13 = 0;
  cdw14 = 0;
  cdw15 = 0;
}

-- `!0xFF` on a `u32`
abbrev not_0xff : ℕ
not_0xff = 2 ^ 32 - 1 - 0xff

unfoldable pub set_opcode : NvmeSqe → ℕ → NvmeSqe
set_opcode sqe opcode = record sqe { cdw0 = bit_or (bit_and sqe.cdw0 not_0xff) opcode }

unfoldable pub set_cid : NvmeSqe → ℕ → NvmeSqe
set_cid sqe cid = record sqe { cdw0 = bit_or (bit_and sqe.cdw0 0xffff) (cid * 2 ^ 16 % 2 ^ 32) }

-- Completion queue entry. `status` holds the phase tag (bit 0) and the status (15:1).
pub record NvmeCqe : Type 0 where
  pub dw0 : ℕ
  pub dw1 : ℕ
  pub sq_head : ℕ
  pub sq_id : ℕ
  pub cid : ℕ
  pub status : ℕ

unfoldable pub phase : NvmeCqe → Bool
phase cqe = not (bit_and cqe.status 1 == 0)

unfoldable pub status_code : NvmeCqe → ℕ
status_code cqe = bit_and (cqe.status / 2) 0x7ff

unfoldable pub cap_mqes : ℕ → ℕ
cap_mqes cap = bit_and cap 0xffff % 2 ^ 16

unfoldable pub cap_dstrd : ℕ → ℕ
cap_dstrd cap = bit_and (cap / 2 ^ 32) 0xf

abbrev pub io_cmd_read : ℕ
io_cmd_read = 0x02

abbrev pub io_cmd_write : ℕ
io_cmd_write = 0x01
