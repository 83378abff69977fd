-- ===== src/Nvme/Queue/Submit.antt =====
-- A run of submissions.
use minecraft_os.Prelude.{ℕ, ◌+◌, ◌*◌, ◌%◌, ◌^◌, ◌<◌, ◌≡◌, refl, arith}
use minecraft_os.Prelude.{List, [], ◌∷◌, ◌++◌}
use minecraft_os.Nvme.Regs.{NvmeSqe, set_cid}
use minecraft_os.Nvme.Queue.{Effect, write_sqe, write_doorbell, SubmissionQueue, new_sq, submit}
use native.Mathlib.Nat.{mod-add-mod, mod-eq_of_lt}

unfoldable pub submit_all : SubmissionQueue → List NvmeSqe → SubmissionQueue × List Effect
submit_all q [] = (q, [])
submit_all q (cmd ∷ cmds) =
    let (q', cid, effects) = submit q cmd in
    let (end, rest) = submit_all q' cmds in (end, effects ++ rest)

-- The writes that the controller expects: the `k`-th command since the queue was made goes to slot
-- `k` modulo the size with the id `k` modulo 2^16, and then the doorbell gets the next slot.
abbrev pub expected_writes : ℕ → ℕ → ℕ → ℕ → List NvmeSqe → List Effect
expected_writes base doorbell size k [] = []
expected_writes base doorbell size k (cmd ∷ cmds) =
    write_sqe (base + k % size * 64) (set_cid cmd (k % 2 ^ 16))
    ∷ write_doorbell doorbell ((k + 1) % size)
    ∷ expected_writes base doorbell size (k + 1) cmds

-- The state after `k` submissions.
pub record Submitted (k : ℕ) (q : SubmissionQueue) : Type 0 where
  pub size_pos : 0 < q.size
  pub size_u16 : q.size < 2 ^ 16
  pub tail_lem : q.tail ≡ k % q.size
  pub cid_lem : q.cid_counter ≡ k % 2 ^ 16

next_mod : (k n : ℕ) → 0 < n → n < 2 ^ 16 → (k % n + 1) % 2 ^ 16 % n ≡ (k + 1) % n
next_mod k n h small = let e : (k % n + 1) % 2 ^ 16 ≡ k % n + 1 = omega arith in rw (e, mod-add-mod)

submit-Submitted :
    (k : ℕ) (q : SubmissionQueue) (cmd : NvmeSqe)
    → Submitted k q
    → Submitted (k + 1) (submit q cmd).0
unfolding submit
submit-Submitted k q cmd v = record {
  size_pos = v.size_pos;
  size_u16 = v.size_u16;
  tail_lem = rw (v.tail_lem) (next_mod k q.size v.size_pos v.size_u16);
  cid_lem = rw (v.cid_lem) (omega arith);
}

submit_all-expected :
    (cmds : List NvmeSqe) (k : ℕ) (q : SubmissionQueue)
    → Submitted k q
    → (submit_all q cmds).1 ≡ expected_writes q.base_virt q.doorbell q.size k cmds
unfolding submit_all submit
submit_all-expected [] k q v = refl
submit_all-expected (cmd ∷ cmds) k q v =
    let rest = submit_all-expected cmds (k + 1) (submit q cmd).0 (submit-Submitted k q cmd v) in
    ground (arith, rest, next_mod k q.size v.size_pos v.size_u16)

-- The writes of any run of submissions on a new queue of 1 to 65535 slots: command `k` goes to slot
-- `k % size` with its id set to `k % 65536`, and only then the doorbell is rung with the next slot.
pub submit_all_lem :
    (base phys size doorbell : ℕ) (cmds : List NvmeSqe)
    → 0 < size
    → size < 2 ^ 16
    → (submit_all (new_sq base phys size doorbell) cmds).1
      ≡ expected_writes base doorbell size 0 cmds
unfolding new_sq
submit_all_lem base phys size doorbell cmds h small =
    submit_all-expected cmds 0 (new_sq base phys size doorbell) (record {
      size_pos = h;
      size_u16 = small;
      tail_lem = omega (arith, mod-eq_of_lt h);
      cid_lem = refl;
    })
