-- ===== src/Nvme/Queue/Fifo.antt =====
-- `poll` hands out the completions that the controller posts, in order and each once.
use minecraft_os.Prelude.{
  ℕ, zero, suc, ◌+◌, ◌*◌, ◌%◌, ◌^◌, ◌≤◌, ◌<◌, ◌≡◌, refl, sym, ap, ◌∙◌, arith,
}
use minecraft_os.Prelude.{
  Bool, true, false, not, List, [], ◌∷◌, none, some, ◌⊎◌, inl, inr, leb, if◌then◌else◌, Bool-cases,
}
use minecraft_os.Nvme.Regs.{NvmeCqe, phase}
use minecraft_os.Nvme.Queue.{Effect, write_doorbell, CompletionQueue, poll, Memory, same}

abbrev pub is_even : ℕ → Bool
is_even zero = true
is_even (suc n) = not (is_even n)

-- The completion that the controller posts in round `lap` at `slot`, for each lap and slot.
abbrev pub Stream : Type 0
Stream = ℕ → ℕ → NvmeCqe

-- The controller tags the entries of even laps with phase 1 and those of odd laps with phase 0.
abbrev pub IsTagged : ℕ → Stream → Type 0
IsTagged size stream = (lap slot : ℕ) → slot < size → phase (stream lap slot) ≡ is_even lap

-- What the memory holds once all laps before `lap` and the first `count` slots of `lap` are posted:
-- behind those stand the entries of the lap before, or at first the zeroed frame.
abbrev pub Old : Stream → ℕ → ℕ → NvmeCqe → Type 0
Old stream zero slot entry = phase entry ≡ false
Old stream (suc lap) slot entry = entry ≡ stream lap slot

pub record IsPosted (stream : Stream) (base size lap count : ℕ) (memory : Memory) : Type 0 where
  pub within : count ≤ size
  pub fresh : (slot : ℕ) → slot < count → memory (base + slot * 16) ≡ stream lap slot
  pub old :
      (slot : ℕ) → count ≤ slot → slot < size → Old stream lap slot (memory (base + slot * 16))

-- The queue has consumed all laps before `lap`, and of `lap` what stands before its head.
pub record Consumed (lap : ℕ) (q : CompletionQueue) : Type 0 where
  pub size_u16 : q.size < 2 ^ 16
  pub inside : q.head < q.size
  pub expects : q.phase ≡ is_even lap

-- The lap of the slot behind the head, and the queue that has consumed the entry at its head.
abbrev pub lap_after : CompletionQueue → ℕ → ℕ
lap_after q lap = if leb q.size (q.head + 1) then suc lap else lap

abbrev pub advance : CompletionQueue → CompletionQueue
advance q =
    if leb q.size (q.head + 1)
    then record q { head = 0; phase = not q.phase }
    else record q { head = q.head + 1 }

same_refl : (b : Bool) → same b b ≡ true
same_refl true = refl
same_refl false = refl

same-not : (b : Bool) → same b (not b) ≡ false
same-not true = refl
same-not false = refl

not-not : (b : Bool) → not (not b) ≡ b
not-not true = refl
not-not false = refl

-- What stands where nothing new was posted has the other tag.
phase-Old :
    (size : ℕ) (stream : Stream) (lap slot : ℕ) (entry : NvmeCqe)
    → IsTagged size stream
    → slot < size
    → Old stream lap slot entry
    → phase entry ≡ not (is_even lap)
phase-Old size stream zero slot entry tagged h o = o
phase-Old size stream (suc lap) slot entry tagged h o =
    ap phase o ∙ tagged lap slot h ∙ sym (not-not (is_even lap))

no_wrap : (lap : ℕ) (q : CompletionQueue) → Consumed lap q → (q.head + 1) % 2 ^ 16 ≡ q.head + 1
no_wrap lap q v = omega arith

module _ (stream : Stream) (memory : Memory) (lap : ℕ) (q : CompletionQueue)
    (tagged : IsTagged q.size stream) (v : Consumed lap q) where
  -- An entry is new where its tag is the phase that the queue expects.
  poll_new :
      memory (q.base_virt + q.head * 16) ≡ stream lap q.head
      → poll q memory
        ≡ (advance q, some (stream lap q.head), write_doorbell q.doorbell (advance q).head ∷ [])
  unfolding poll
  poll_new e = ground (arith, e, tagged lap q.head v.inside, no_wrap lap q v)

  poll-none :
      phase (memory (q.base_virt + q.head * 16)) ≡ not (is_even lap) → poll q memory ≡ (q, none, [])
  unfolding poll
  poll-none e = ground (arith, e)

  advance-Consumed : Consumed (lap_after q lap) (advance q)
  advance-Consumed = elim (Bool-cases (leb q.size (q.head + 1))) [
    | inl wrap ↦
        rw wrap
          (record { size_u16 = v.size_u16; inside = ground arith; expects = ap not v.expects })
    | inr more ↦
        rw more (record { size_u16 = v.size_u16; inside = ground arith; expects = v.expects })
  ]

  -- An entry stands ready where the controller has posted past the head in this lap, or has gone on
  -- to the next lap without passing the head.
  abbrev pub IsReady : Type 0
  IsReady =
      ((count : ℕ) × IsPosted stream q.base_virt q.size lap count memory × (q.head < count))
      ⊎ ((count : ℕ) × IsPosted stream q.base_virt q.size (suc lap) count memory × (count ≤ q.head))

  entry_ready : IsReady → memory (q.base_virt + q.head * 16) ≡ stream lap q.head
  entry_ready (inl (count, p, h)) = p.fresh q.head h
  entry_ready (inr (count, p, h)) = p.old q.head h v.inside

  -- `poll` returns the entry at the head and advances past it, when one stands ready.
  pub poll_ready :
      IsReady
      → (poll q memory
          ≡ (advance q, some (stream lap q.head), write_doorbell q.doorbell (advance q).head ∷ []))
        × Consumed (lap_after q lap) (advance q)
  poll_ready r = (poll_new (entry_ready r), advance-Consumed)

  -- It returns nothing and writes nothing when all that was posted is consumed.
  pub poll_idle :
      IsPosted stream q.base_virt q.size lap q.head memory → poll q memory ≡ (q, none, [])
  poll_idle p =
      poll-none
        (phase-Old q.size stream lap q.head _ tagged v.inside (p.old q.head (omega arith) v.inside))

-- Polling until nothing is left, `fuel` times at most.
unfoldable pub poll_all : ℕ → Memory → CompletionQueue → List NvmeCqe
poll_all zero memory q = []
poll_all (suc fuel) memory q =
    let (q', found, effects) = poll q memory in
    elim found [ some cqe ↦ cqe ∷ poll_all fuel memory q' | none ↦ [] ]

-- The next `n` completions from a lap and a slot on.
abbrev pub upcoming : ℕ → Stream → ℕ → ℕ → ℕ → List NvmeCqe
upcoming size stream lap slot zero = []
upcoming size stream lap slot (suc n) =
    stream lap slot
    ∷ (if leb size (slot + 1)
        then upcoming size stream (suc lap) 0 n
        else upcoming size stream lap (slot + 1) n)

-- `n` posted completions are not yet consumed, in this lap or over its end.
abbrev pub Outstanding : Stream → Memory → ℕ → ℕ → CompletionQueue → Type 0
Outstanding stream memory n lap q =
    ((count : ℕ) × IsPosted stream q.base_virt q.size lap count memory
      × (q.head + n ≡ count)
      × (count < q.size))
    ⊎ ((count : ℕ) × IsPosted stream q.base_virt q.size (suc lap) count memory
        × (q.head + n ≡ q.size + count)
        × (count ≤ q.head))

Outstanding-IsReady :
    (stream : Stream) (memory : Memory) (n lap : ℕ) (q : CompletionQueue)
    (tagged : IsTagged q.size stream) (v : Consumed lap q)
    → Outstanding stream memory (suc n) lap q
    → IsReady stream memory lap q tagged v
Outstanding-IsReady stream memory n lap q t v (inl (count, p, e, h)) = inl (count, p, omega arith)
Outstanding-IsReady stream memory n lap q t v (inr (count, p, e, h)) = inr (count, p, h)

advance-Outstanding :
    (stream : Stream) (memory : Memory) (n lap : ℕ) (q : CompletionQueue)
    → Consumed lap q
    → Outstanding stream memory (suc n) lap q
    → Outstanding stream memory n (lap_after q lap) (advance q)
advance-Outstanding stream memory n lap q v o = elim (Bool-cases (leb q.size (q.head + 1))) [
  | inl wrap ↦ rw wrap (elim o [
    | inl (count, p, e, h) ↦ absurd (ground arith)
    | inr (count, p, e, h) ↦ inl (count, p, ground arith, ground arith)
  ])
  | inr more ↦ rw more (elim o [
    | inl (count, p, e, h) ↦ inl (count, p, ground arith, h)
    | inr (count, p, e, h) ↦ inr (count, p, ground arith, ground arith)
  ])
]

poll_all-some :
    (fuel : ℕ) (memory : Memory) (q q' : CompletionQueue) (cqe : NvmeCqe) (effects : List Effect)
    → poll q memory ≡ (q', some cqe, effects)
    → poll_all (suc fuel) memory q ≡ cqe ∷ poll_all fuel memory q'
unfolding poll_all
poll_all-some fuel memory q q' cqe effects e = ground arith

poll_all-none :
    (fuel : ℕ) (memory : Memory) (q q' : CompletionQueue) (effects : List Effect)
    → poll q memory ≡ (q', none, effects)
    → poll_all (suc fuel) memory q ≡ []
unfolding poll_all
poll_all-none fuel memory q q' effects e = ground arith

-- Whatever was posted and not consumed, polling hands out exactly that, oldest first, in any lap
-- and over the end of the ring, and then stops.
pub poll_all_lem :
    (n fuel lap : ℕ) (stream : Stream) (memory : Memory) (q : CompletionQueue)
    → IsTagged q.size stream
    → Consumed lap q
    → Outstanding stream memory n lap q
    → n < fuel
    → poll_all fuel memory q ≡ upcoming q.size stream lap q.head n
poll_all_lem n zero lap stream memory q tagged v o h = absurd (omega arith)
poll_all_lem zero (suc fuel) lap stream memory q tagged v (inl (count, p, e, h)) f =
    let at_head : count ≡ q.head = omega arith in
    poll_all-none fuel memory q q [] (poll_idle stream memory lap q tagged v (rw at_head at p))
poll_all_lem zero (suc fuel) lap stream memory q tagged v (inr (count, p, e, h)) f =
    absurd (omega (arith, v.inside))
poll_all_lem (suc n) (suc fuel) lap stream memory q tagged v o h =
    let r =
      poll_ready stream memory lap q tagged v
        (Outstanding-IsReady stream memory n lap q tagged v o) in
    let later = advance-Outstanding stream memory n lap q v o in
    let rest = poll_all_lem n fuel in
    poll_all-some fuel memory q _ _ _ (r.0) ∙ (elim (Bool-cases (leb q.size (q.head + 1))) [
      | inl wrap ↦
          let q' : CompletionQueue = record q { head = 0; phase = not q.phase } in
          let ih =
            rest (suc lap) stream memory q' tagged (rw wrap at (r.1)) (rw wrap at later)
              (omega arith) in
          rw wrap (ap (λ (l : List NvmeCqe). stream lap q.head ∷ l) ih)
      | inr more ↦
          let q' : CompletionQueue = record q { head = q.head + 1 } in
          let ih =
            rest lap stream memory q' tagged (rw more at (r.1)) (rw more at later) (omega arith) in
          rw more (ap (λ (l : List NvmeCqe). stream lap q.head ∷ l) ih)
    ])
