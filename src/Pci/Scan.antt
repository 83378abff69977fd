-- ===== src/Pci/Scan.antt =====
-- The scan of all buses.
use minecraft_os.Prelude.{ℕ, ◌≤◌, ◌<◌, ◌≡◌, inl, inr, refl, arith, true}
use minecraft_os.Prelude.{none, some, [], ◌∷◌, All, if◌then◌else◌, Bool-cases, Option-cases}
use mathlib.Core.List.{Mem, mem-cons_self, mem-cons_of_mem}
use minecraft_os.Prelude.Ranges.{pushed, Mem-pushed, All-pushed}
use minecraft_os.Pci.{
  Space, PciDevice, read_device, scan_function, scan_device, scan_all, is_multifunction,
}

-- A function that answers, with what is read of it: function 0, or another one of a device whose function 0 answers and says
-- that it has several.
pub data IsPresent (space : Space) (bus device : ℕ) : ℕ → PciDevice → Type 0 where
  first :
      (dev : PciDevice)
      → read_device space bus device 0 ≡ some dev
      → IsPresent space bus device 0 dev
  further :
      (function : ℕ) (dev zeroth : PciDevice)
      → read_device space bus device 0 ≡ some zeroth
      → is_multifunction zeroth ≡ true
      → 1 ≤ function
      → function < 8
      → read_device space bus device function ≡ some dev
      → IsPresent space bus device function dev

scan_device-some :
    (space : Space) (bus device : ℕ) (dev : PciDevice)
    → read_device space bus device 0 ≡ some dev
    → scan_device space bus device
      ≡ dev ∷ (if is_multifunction dev then pushed (scan_function space bus device) 1 7 else [])
unfolding scan_device
scan_device-some space bus device dev e = rw (scan_device, e) refl

scan_device-none :
    (space : Space) (bus device : ℕ)
    → read_device space bus device 0 ≡ none
    → scan_device space bus device ≡ []
unfolding scan_device
scan_device-none space bus device e = rw (scan_device, e) refl

Mem-scan_device :
    (space : Space) (bus device function : ℕ) (dev : PciDevice)
    → IsPresent space bus device function dev
    → Mem dev (scan_device space bus device)
unfolding scan_function
Mem-scan_device space bus device _ dev (first _ e) =
    rw (scan_device-some space bus device dev e) mem-cons_self
Mem-scan_device space bus device function dev (further _ _ zeroth e m lo hi g) =
    let here : Mem dev (scan_function space bus device function) =
      rw (scan_function, g) mem-cons_self in
    rw (scan_device-some space bus device zeroth e, m)
      (mem-cons_of_mem zeroth
        (Mem-pushed dev (scan_function space bus device) 7 1 function lo (omega arith) here))

-- On every bus and device, function 0 is found if it answers, and so is each of the functions 1 to 7
-- that answers, if function 0 answers and says that the device has several functions.
pub scan_all-complete :
    (space : Space) (bus device function : ℕ) (dev : PciDevice)
    → bus < 256
    → device < 32
    → IsPresent space bus device function dev
    → Mem dev (scan_all space)
unfolding scan_all
scan_all-complete space bus device function dev b d p =
    Mem-pushed dev (λ bus. pushed (λ device. scan_device space bus device) 0 32) 256 0 bus
      (omega arith) (omega arith)
      (Mem-pushed dev (λ device. scan_device space bus device) 32 0 device (omega arith)
        (omega arith) (Mem-scan_device space bus device function dev p))

-- What is found is a function that answers.
abbrev pub IsFound : Space → PciDevice → Type 0
IsFound space dev =
    (bus : ℕ) × (device : ℕ) × (function : ℕ) × (bus < 256)
    × (device < 32)
    × IsPresent space bus device function dev

scan_function-All :
    (space : Space) (bus device i : ℕ) (P : PciDevice → Type 0)
    → ((dev : PciDevice) → read_device space bus device i ≡ some dev → P dev)
    → All P (scan_function space bus device i)
unfolding scan_function
scan_function-All space bus device i P h = elim (Option-cases (read_device space bus device i)) [
  | inl e ↦ rw (scan_function, e) _
  | inr (dev, e) ↦ rw (scan_function, e) (h dev e, _)
]

scan_device-IsFound :
    (space : Space) (bus device : ℕ)
    → bus < 256
    → device < 32
    → All (IsFound space) (scan_device space bus device)
scan_device-IsFound space bus device b d = elim (Option-cases (read_device space bus device 0)) [
  | inl e ↦ rw (scan_device-none space bus device e) _
  | inr (zeroth, e) ↦
      rw (scan_device-some space bus device zeroth e)
        ((bus, device, 0, b, d, first zeroth e), further_functions zeroth e)
]
  where
    further_functions :
        (zeroth : PciDevice)
        → read_device space bus device 0 ≡ some zeroth
        → All
            (IsFound space)
            (if is_multifunction zeroth then pushed (scan_function space bus device) 1 7 else [])
    further_functions zeroth e = elim (Bool-cases (is_multifunction zeroth)) [
      | inl m ↦ rw m (
          All-pushed (IsFound space) (scan_function space bus device) 7 1 (λ i lo hi.
            scan_function-All space bus device i (IsFound space)
              (λ dev g. (bus, device, i, b, d, further i dev zeroth e m lo (omega arith) g))))
      | inr m ↦ rw m _
    ]

-- Nothing else is reported: every entry is what a function that answers returns.
pub scan_all-IsFound : (space : Space) → All (IsFound space) (scan_all space)
unfolding scan_all
scan_all-IsFound space =
    All-pushed (IsFound space) (λ bus. pushed (λ device. scan_device space bus device) 0 32) 256 0
      (λ bus lo b.
        All-pushed (IsFound space) (λ device. scan_device space bus device) 32 0
          (λ device lo' d. scan_device-IsFound space bus device (omega arith) (omega arith)))
