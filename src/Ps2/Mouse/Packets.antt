-- ===== src/Ps2/Mouse/Packets.antt =====
-- The bytes of the mouse as packets.
use minecraft_os.Prelude.{ℕ, ◌≤◌, ◌<◌, ◌≡◌, refl, arith}
use minecraft_os.Prelude.{
  none, some, List, [], ◌∷◌, ◌++◌, length, length-set, ◌==◌, if◌then◌else◌, ◌⊎◌, inl, inr,
}
use minecraft_os.Ps2.Mouse.{
  MouseType, standard, intellimouse, explorer, unknown, Ps2Mouse, MousePacket, from_bytes,
  bytes_needed, receive, apply_packet, handle_interrupt, default_mouse, set_mouse_type,
  reset_position, pop_clicks, pop_delta,
}

-- The index into `packet_bytes` is in range.
pub record IsValid (m : Ps2Mouse) : Type 0 where
  pub bytes : length m.packet_bytes ≡ 4
  pub index : m.packet_state < 4

default_mouse-IsValid : IsValid default_mouse
unfolding default_mouse
default_mouse-IsValid = omega arith

receive-IsValid :
    (needed : ℕ) (m : Ps2Mouse) (byte : ℕ)
    → needed ≤ 4
    → IsValid m
    → IsValid (receive needed m byte).0
unfolding receive apply_packet
receive-IsValid needed m byte h v = ground (arith, length-set m.packet_bytes m.packet_state byte)

pub bytes_needed_cases :
    (t : MouseType)
    → (bytes_needed t ≡ none)
      ⊎ ((needed : ℕ) × (bytes_needed t ≡ some needed) × (3 ≤ needed) × (needed ≤ 4))
unfolding bytes_needed
bytes_needed_cases standard = inr (3, refl, omega arith, omega arith)
bytes_needed_cases explorer = inr (4, refl, omega arith, omega arith)
bytes_needed_cases intellimouse = inr (4, refl, omega arith, omega arith)
bytes_needed_cases unknown = inl refl

pub handle_interrupt-some :
    (m : Ps2Mouse) (byte needed : ℕ)
    → bytes_needed m.mouse_type ≡ some needed
    → handle_interrupt m byte ≡ receive needed m byte
unfolding handle_interrupt
handle_interrupt-some m byte needed e = ground arith

pub handle_interrupt-none :
    (m : Ps2Mouse) (byte : ℕ)
    → bytes_needed m.mouse_type ≡ none
    → handle_interrupt m byte ≡ (m, none)
unfolding handle_interrupt
handle_interrupt-none m byte e = ground arith

handle_interrupt-IsValid :
    (m : Ps2Mouse) (byte : ℕ) → IsValid m → IsValid (handle_interrupt m byte).0
handle_interrupt-IsValid m byte v = elim (bytes_needed_cases m.mouse_type) [
  | inl e ↦ rw (handle_interrupt-none m byte e) v
  | inr (needed, e, lo, hi) ↦
      rw (handle_interrupt-some m byte needed e) (receive-IsValid needed m byte hi v)
]

-- What the program does with the mouse.
pub data Call : Type 0 where
  byte : ℕ → Call
  set_type : ℕ → Call
  reset clicks delta : Call

unfoldable pub step : Ps2Mouse → Call → Ps2Mouse
step m (byte b) = (handle_interrupt m b).0
step m (set_type t) = set_mouse_type m t
step m reset = reset_position m
step m clicks = (pop_clicks m).0
step m delta = (pop_delta m).0

unfoldable pub run : Ps2Mouse → List Call → Ps2Mouse
run m [] = m
run m (c ∷ cs) = run (step m c) cs

step-IsValid : (m : Ps2Mouse) (c : Call) → IsValid m → IsValid (step m c)
unfolding step set_mouse_type reset_position pop_clicks pop_delta
step-IsValid m (byte b) v = handle_interrupt-IsValid m b v
step-IsValid m (set_type t) v = omega arith
step-IsValid m reset v = omega arith
step-IsValid m clicks v = omega arith
step-IsValid m delta v = omega arith

run_from-IsValid : (m : Ps2Mouse) (cs : List Call) → IsValid m → IsValid (run m cs)
unfolding run
run_from-IsValid m [] v = v
run_from-IsValid m (c ∷ cs) v = run_from-IsValid (step m c) cs (step-IsValid m c v)

-- From power-on, no sequence of interrupts and calls, with changes of the mouse's type in the
-- middle of a packet among them, leaves an index at which the next byte's store would panic.
pub run-IsValid : (cs : List Call) → IsValid (run default_mouse cs)
run-IsValid cs = run_from-IsValid default_mouse cs default_mouse-IsValid

-- A packet as the device sends it: the fourth byte goes out where the type has four.
pub record Frame : Type 0 where
  pub state : ℕ
  pub motion_x : ℕ
  pub motion_y : ℕ
  pub extra : ℕ

abbrev pub frame_bytes : ℕ → Frame → List ℕ
frame_bytes needed f =
    f.state ∷ f.motion_x ∷ f.motion_y ∷ (if needed == 4 then f.extra ∷ [] else [])

abbrev pub frame_packet : ℕ → Frame → MousePacket
frame_packet needed f =
    from_bytes f.state f.motion_x f.motion_y (if needed == 4 then some f.extra else none)

-- All bytes in order, with the packets that come out.
unfoldable pub feed : Ps2Mouse → List ℕ → Ps2Mouse × List MousePacket
feed m [] = (m, [])
feed m (b ∷ bs) =
    let (m', packet) = handle_interrupt m b in
    let (end, rest) = feed m' bs in (end, elim packet [ none ↦ rest | some p ↦ p ∷ rest ])

unfoldable pub apply_all : Ps2Mouse → List MousePacket → Ps2Mouse
apply_all m [] = m
apply_all m (p ∷ ps) = apply_all (apply_packet m p) ps

abbrev pub all_bytes : ℕ → List Frame → List ℕ
all_bytes needed [] = []
all_bytes needed (f ∷ fs) = frame_bytes needed f ++ all_bytes needed fs
