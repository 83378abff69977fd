-- ===== src/Storage/Disk.antt =====
-- A disk that does what the commands of the drivers ask for.
use minecraft_os.Prelude.{
  ℕ, zero, suc, ◌+◌, ◌-◌, ◌*◌, ◌≡◌, refl, sym, ap, ◌∙◌, arith, true, not, ◌&&◌, none, some, List,
  [], ◌∷◌, ◌++◌, length, take, drop, ltb, leb, ◌==◌, if◌then◌else◌, take_all, take-append, drop_all,
}
use mathlib.Core.List.{append-nil}
use native.Mathlib.Nat.{zero-add}
use minecraft_os.Nvme.Queue.{write_sqe, write_doorbell}
use minecraft_os.Nvme.Controller.Requests as NvmeRequests
use minecraft_os.Ahci.Port.Requests as AhciRequests
use minecraft_os.Storage.{Command, to_nvme, to_ahci}

-- What a command asks for: `fetch` and `store` have the first sector and the number of sectors.
pub data Wish : Type 0 where
  nothing : Wish
  fetch store : ℕ → ℕ → Wish

-- The NVM command set's read has the opcode 2, its write 1; the data is where the command says.
abbrev pub nvme_wish : ℕ → NvmeRequests.Request → Wish
nvme_wish address r =
    if not (r.address == address)
    then nothing
    else if r.opcode == 2
    then fetch r.lba r.blocks
    else if r.opcode == 1
    then store r.lba r.blocks
    else nothing

-- READ DMA EXT is 0x25, WRITE DMA EXT 0x35; the header says the direction and the descriptor the
-- bytes.
abbrev pub ahci_wish : ℕ → AhciRequests.Request → Wish
ahci_wish address r =
    if not (r.address == address && (r.bytes == r.count * 512))
    then nothing
    else if r.command == 0x25 && not r.write
    then fetch r.lba r.count
    else if r.command == 0x35 && r.write
    then store r.lba r.count
    else nothing

abbrev pub wish_of : Command → Wish
wish_of (to_nvme address memory (write_sqe slot entry ∷ effects)) =
    nvme_wish address (NvmeRequests.request_of entry)
wish_of (to_nvme address memory (write_doorbell doorbell value ∷ effects)) = nothing
wish_of (to_nvme address memory []) = nothing
wish_of (to_ahci address memory (some run)) = ahci_wish address (AhciRequests.request_of run.0)
wish_of (to_ahci address memory none) = nothing

abbrev pub memory_of : Command → List ℕ
memory_of (to_nvme address memory effects) = memory
memory_of (to_ahci address memory run) = memory

-- The bytes of every sector.
abbrev pub Disk : Type 0
Disk = ℕ → List ℕ

abbrev pub sectors : Disk → ℕ → ℕ → List ℕ
sectors disk lba zero = []
sectors disk lba (suc n) = disk lba ++ sectors disk (lba + 1) n

abbrev pub stored : Disk → ℕ → ℕ → List ℕ → Disk
stored disk lba n memory i =
    if leb lba i && ltb i (lba + n) then take 512 (drop ((i - lba) * 512) memory) else disk i

abbrev pub grant : Disk → List ℕ → Wish → Disk
grant disk memory nothing = disk
grant disk memory (fetch lba n) = disk
grant disk memory (store lba n) = stored disk lba n memory

-- The disk after commands, the last of which comes first.
abbrev pub disk_after : Disk → List Command → Disk
disk_after disk [] = disk
disk_after disk (command ∷ commands) =
    grant (disk_after disk commands) (memory_of command) (wish_of command)

-- What a command leaves in the bounce buffer.
abbrev pub brought : Disk → List ℕ → Wish → List ℕ
brought disk memory nothing = memory
brought disk memory (fetch lba n) = sectors disk lba n ++ drop (n * 512) memory
brought disk memory (store lba n) = memory

abbrev pub dma_of : Disk → Command → List ℕ
dma_of disk command = brought disk (memory_of command) (wish_of command)

take_nil {ℓ} : {A : Type ℓ} (b : ℕ) → take {A = A} b [] ≡ []
take_nil zero = refl
take_nil (suc b) = refl

take_sum {ℓ} :
    {A : Type ℓ} (a b : ℕ) (xs : List A) → take (a + b) xs ≡ take a xs ++ take b (drop a xs)
take_sum zero b xs = ap (λ k. take k xs) (zero-add b)
take_sum (suc a) b [] = let e : suc a + b ≡ suc (a + b) = omega arith in rw e (sym (take_nil b))
take_sum (suc a) b (x ∷ xs) =
    let e : suc a + b ≡ suc (a + b) = omega arith in rw e (ap (λ l. x ∷ l) (take_sum a b xs))

stored-here :
    (disk : Disk) (lba i : ℕ) (memory : List ℕ)
    → leb lba i ≡ true
    → ltb i (lba + 2) ≡ true
    → stored disk lba 2 memory i ≡ take 512 (drop ((i - lba) * 512) memory)
stored-here disk lba i memory h k = rw (h, k) refl

-- Two sectors that were stored are read back.
pub sectors-stored :
    (disk : Disk) (lba : ℕ) (memory : List ℕ)
    → sectors (stored disk lba 2 memory) lba 2 ≡ take 1024 memory
sectors-stored disk lba memory =
    let zeroth : (lba - lba) * 512 ≡ 0 = omega arith in
    let further : (lba + 1 - lba) * 512 ≡ 512 = omega arith in
    let low : leb lba lba ≡ true = ground arith in
    let mid : ltb lba (lba + 2) ≡ true = ground arith in
    let next : leb lba (lba + 1) ≡ true = ground arith in
    let high : ltb (lba + 1) (lba + 2) ≡ true = ground arith in
    let first : stored disk lba 2 memory lba ≡ take 512 memory =
      stored-here disk lba lba memory low mid ∙ ap (λ k. take 512 (drop k memory)) zeroth in
    let second : stored disk lba 2 memory (lba + 1) ≡ take 512 (drop 512 memory) =
      stored-here disk lba (lba + 1) memory next high
      ∙ ap (λ k. take 512 (drop k memory)) further in
    rw (first, second, append-nil (take 512 (drop 512 memory))) (sym (take_sum 512 512 memory))

-- The front of a buffer that was filled is what it was filled with.
pub take-filled :
    (n : ℕ) (bytes old : List ℕ) → length bytes ≡ n → take n (take n bytes ++ old) ≡ bytes
take-filled n bytes old size =
    ap (λ l. take n (l ++ old)) (take_all n bytes size) ∙ take-append n bytes old size

-- A caller's blank buffer, whose front is filled from a bounce buffer.
pub filled-front :
    (dma bytes old blank : List ℕ)
    → dma ≡ bytes ++ old
    → length bytes ≡ 1024
    → length blank ≡ 1024
    → take 1024 dma ++ drop 1024 blank ≡ bytes
filled-front dma bytes old blank moved size zeros =
    ap (λ l. take 1024 l ++ drop 1024 blank) moved
    ∙ ap (λ l. take 1024 (bytes ++ old) ++ l) (drop_all 1024 blank zeros)
    ∙ append-nil (take 1024 (bytes ++ old))
    ∙ take-append 1024 bytes old size
