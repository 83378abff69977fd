-- ===== src/Ahci/Port/Issue.antt =====
-- What `issue_command` does for every behaviour of the port.
use minecraft_os.Prelude.{
  ℕ, zero, suc, ◌⊎◌, ◌+◌, ◌≤◌, ◌<◌, ◌≡◌, refl, arith, true, false, inl, inr, Bool-cases,
}
use minecraft_os.Ahci.Port.{
  Answer, Status, err, timeout, task_file_error, Issued, untouched, issued, is_busy, has_error,
  is_pending, wait_not_busy, busy_reads, poll_completion, poll_reads, error_check, issue_command,
}

-- In the rounds from `t` to before `n` the command is pending and there is no error.
abbrev pub IsRunning : Answer → ℕ → ℕ → Type 0
IsRunning a t n =
    (u : ℕ) → t ≤ u → u < n → (is_pending (a.ci u) ≡ true) × (has_error (a.tfd u) ≡ false)

-- How a command ends that is polled in the rounds from `t` to before `end`.
pub data Polled (a : Answer) (t end : ℕ) : Status → Type 0 where
  completed :
      (n : ℕ)
      → t ≤ n
      → n < end
      → IsRunning a t n
      → is_pending (a.ci n) ≡ false
      → Polled a t end (error_check a.final_tfd)
  failed :
      (n : ℕ)
      → t ≤ n
      → n < end
      → IsRunning a t n
      → is_pending (a.ci n) ≡ true
      → has_error (a.tfd n) ≡ true
      → Polled a t end (err (task_file_error (a.tfd n)))
  stuck : IsRunning a t end → Polled a t end (err timeout)

-- What is written to the port and returned.
pub data Issues (a : Answer) : Issued × Status → Type 0 where
  busy :
      ((u : ℕ) → u < busy_reads → is_busy (a.idle_tfd u) ≡ true) → Issues a (untouched, err timeout)
  polled :
      (n : ℕ) (status : Status)
      → n < busy_reads
      → is_busy (a.idle_tfd n) ≡ false
      → Polled a 0 poll_reads status
      → Issues a (issued, status)

pub at_or_after : (t u : ℕ) → t ≤ u → (t ≡ u) ⊎ (t + 1 ≤ u)
at_or_after t u h = ground arith

IsRunning-before :
    (a : Answer) (t n : ℕ)
    → is_pending (a.ci t) ≡ true
    → has_error (a.tfd t) ≡ false
    → IsRunning a (t + 1) n
    → IsRunning a t n
IsRunning-before a t n p e r u lo hi = elim (at_or_after t u lo) [
  | inl same ↦ rw (← same) (p, e)
  | inr after ↦ r u after hi
]

Polled-before :
    (a : Answer) (t end : ℕ) (status : Status)
    → is_pending (a.ci t) ≡ true
    → has_error (a.tfd t) ≡ false
    → Polled a (t + 1) end status
    → Polled a t end status
Polled-before a t end _ p e (completed n lo hi r c) =
    completed n (omega arith) hi (IsRunning-before a t n p e r) c
Polled-before a t end _ p e (failed n lo hi r c f) =
    failed n (omega arith) hi (IsRunning-before a t n p e r) c f
Polled-before a t end _ p e (stuck r) = stuck (IsRunning-before a t end p e r)

poll_completion-Polled :
    (a : Answer) (reads t : ℕ) → Polled a t (t + reads) (poll_completion reads t a)
unfolding poll_completion
poll_completion-Polled a zero t = stuck (λ u lo hi. absurd (omega arith))
poll_completion-Polled a (suc reads) t = elim (Bool-cases (is_pending (a.ci t))) [
  | inr done ↦
      rw done (completed t (omega arith) (omega arith) (λ u lo hi. absurd (omega arith)) done)
  | inl pending ↦ elim (Bool-cases (has_error (a.tfd t))) [
    | inl bad ↦
        rw (pending, bad)
          (failed t (omega arith) (omega arith) (λ u lo hi. absurd (omega arith)) pending bad)
    | inr good ↦
        rw (pending, good)
          (let e : t + suc reads ≡ t + 1 + reads = omega arith in
            rw e (
              Polled-before a t (t + 1 + reads) _ pending good
                (poll_completion-Polled a reads (t + 1))))
  ]
]

-- Either every read finds the port busy, or one does not.
wait_not_busy_cases :
    (tfd : ℕ → ℕ) (reads t : ℕ)
    → ((wait_not_busy reads t tfd ≡ false)
        × ((u : ℕ) → t ≤ u → u < t + reads → is_busy (tfd u) ≡ true))
      ⊎ ((wait_not_busy reads t tfd ≡ true)
          × ((n : ℕ) × (n < t + reads) × (is_busy (tfd n) ≡ false)))
unfolding wait_not_busy
wait_not_busy_cases tfd zero t = inl (refl, λ u lo hi. absurd (omega arith))
wait_not_busy_cases tfd (suc reads) t = elim (Bool-cases (is_busy (tfd t))) [
  | inr idle ↦ inr (rw idle refl, (t, omega arith, idle))
  | inl taken ↦ elim (wait_not_busy_cases tfd reads (t + 1)) [
    | inl (e, all) ↦ inl (
      rw taken e,
      λ u lo hi. elim (at_or_after t u lo) [
        | inl same ↦ rw (← same) taken
        | inr after ↦ all u after (omega arith)
      ],
    )
    | inr (e, (n, hi, idle)) ↦ inr (rw taken e, (n, omega arith, idle))
  ]
]

-- For every behaviour of the port, `issue_command` returns and does one of these: it finds the port
-- busy in all of its 1,000,001 reads and times out without touching it; or it writes `PxCI` once
-- the port is not busy, and then reports the final error check if the slot is cleared within
-- 50,000,001 rounds with no error before, the task file of the first round with an error if there
-- is one before that, and a timeout if the slot stays pending with no error.
pub issue_command-Issues : (a : Answer) → Issues a (issue_command a)
unfolding issue_command
issue_command-Issues a = elim (wait_not_busy_cases a.idle_tfd busy_reads 0) [
  | inl (e, all) ↦ rw e (busy (λ u h. all u (omega arith) (omega arith)))
  | inr (e, (n, hi, idle)) ↦
      rw e (polled n _ (omega arith) idle (poll_completion-Polled a poll_reads 0))
]
