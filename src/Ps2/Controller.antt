-- ===== src/Ps2/Controller.antt =====
-- `Ps2Controller` and the initialisation of kernel/src/ps2/mod.rs. A program takes the state of the
-- bus and returns it with its result; `none` is a wait that never ends. The wait for the input
-- buffer before a write, which the controller ends by taking the last byte, is not kept.
use package.minecraft_os.Prelude.{ℕ, Bool, Option, none, some, List, [], ◌∷◌, ◌==◌}
use package.minecraft_os.Ps2.Mouse.{Ps2Mouse}

-- A write to the command port 0x64 or the data port 0x60.
pub data Write : Type 0 where
  cmd_write data_write : ℕ → Write

-- `replies` is what the driver still sees of the output buffer: a byte, or, with `none`, a time
-- longer than the timeout with no byte. The last write stands first in `writes`.
pub record Bus : Type 0 where
  pub replies : List (Option ℕ)
  pub writes : List Write
  pub mouse : Ps2Mouse
  pub keyboard_resets : ℕ

abbrev pub Io {ℓ} : Type ℓ → Type ℓ
Io A = Bus → Option (A × Bus)

abbrev pub continue {ℓ κ} :
    {A : Type ℓ} {B : Type κ} → Option (A × Bus) → (A → Io B) → Option (B × Bus)
continue none f = none
continue (some (a, bus)) f = f a bus

infixl 5 ◌>>=◌ ◌>>◌
abbrev pub ◌>>=◌ {ℓ κ} : {A : Type ℓ} {B : Type κ} → Io A → (A → Io B) → Io B
(m >>= f) bus = continue (m bus) f

abbrev pub ◌>>◌ {ℓ κ} : {A : Type ℓ} {B : Type κ} → Io A → Io B → Io B
(m >> k) bus = continue (m bus) (λ a. k)

abbrev pub return {ℓ} : {A : Type ℓ} → A → Io A
return a bus = some (a, bus)

abbrev pub Done : Type 0
Done = Unit

abbrev pub write : Write → Io Done
write w bus = some (tt, record bus { writes = w ∷ bus.writes })

unfoldable pub send_command : ℕ → Io Done
send_command cmd = write (cmd_write cmd)

unfoldable pub write_data : ℕ → Io Done
write_data value = write (data_write value)

-- The next byte, however long it takes.
abbrev pub take_reply : List (Option ℕ) → Option (ℕ × List (Option ℕ))
take_reply [] = none
take_reply (none ∷ replies) = take_reply replies
take_reply (some b ∷ replies) = some (b, replies)

abbrev pub received : Bus → Option (ℕ × List (Option ℕ)) → Option (ℕ × Bus)
received bus none = none
received bus (some (b, replies)) = some (b, record bus { replies = replies })

unfoldable pub read_data : Io ℕ
read_data bus = received bus (take_reply bus.replies)

-- The next byte, if it comes in time.
abbrev pub poll_reply : List (Option ℕ) → Option ℕ × List (Option ℕ)
poll_reply [] = (none, [])
poll_reply (none ∷ replies) = (none, replies)
poll_reply (some b ∷ replies) = (some b, replies)

unfoldable pub read_with_timeout : Io (Option ℕ)
read_with_timeout bus =
    let (reply, replies) = poll_reply bus.replies in some (reply, record bus { replies = replies })

-- The bytes that are there already.
abbrev pub drain : List (Option ℕ) → List (Option ℕ)
drain [] = []
drain (none ∷ replies) = replies
drain (some b ∷ replies) = drain replies

unfoldable pub flush_buffer : Io Done
flush_buffer bus = some (tt, record bus { replies = drain bus.replies })

unfoldable pub read_config : Io ℕ
read_config = do send_command 0x20; read_data

unfoldable pub write_config : ℕ → Io Done
write_config config = do send_command 0x60; write_data config

unfoldable pub expect_ack : Io Bool
expect_ack = do reply ← read_data; return (reply == 0xFA)

unfoldable pub send_keyboard_command : ℕ → Io Done
send_keyboard_command cmd = write_data cmd

unfoldable pub send_mouse_command : ℕ → Io Done
send_mouse_command cmd = do send_command 0xD4; write_data cmd

-- The acknowledgement is only logged.
unfoldable pub log_ack : Io Bool
log_ack = do ack ← read_data; return (ack == 0xFA)
