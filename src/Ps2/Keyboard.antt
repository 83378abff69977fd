-- ===== src/Ps2/Keyboard.antt =====
-- The PS/2 keyboard of kernel/src/ps2/keyboard.rs. The scancode decoder (pc_keyboard) and the ring
-- of events (heapless) are not part of the repository: they are parameters, with the laws of a
-- bounded deque as fields.
pub mod States
pub mod Events
use package.minecraft_os.Prelude.{
  ℕ, ◌+◌, ◌-◌, ◌*◌, ◌^◌, ◌<◌, ◌≡◌, Bool, true, false, not, ◌&&◌, ◌||◌, Option, none, some,
}
use package.minecraft_os.Prelude.{
  ◌%◌, List, [], ◌∷◌, ◌++◌, length, ltb, ◌==◌, if◌then◌else◌, bit_and, bit_or,
}

pub data KeyboardType : Type 0 where
  at mf2 short_keyboard ncd_n97 keyboard_122_key japanese_g japanese_p japanese_a : KeyboardType
  ncd_sun_layout invalid : KeyboardType
  unknown : ℕ → ℕ → KeyboardType

unfoldable pub identify : ℕ → ℕ → KeyboardType
identify x y =
    if x == 0xab && (y == 0x83 || y == 0x41 || y == 0xc1)
    then mf2
    else if x == 0xab && (y == 0x84 || y == 0x54)
    then short_keyboard
    else if x == 0xab && y == 0x85
    then ncd_n97
    else if x == 0xab && y == 0x86
    then keyboard_122_key
    else if x == 0xab && y == 0x90
    then japanese_g
    else if x == 0xab && y == 0x91
    then japanese_p
    else if x == 0xab && y == 0x92
    then japanese_a
    else if x == 0xac && y == 0xa1
    then ncd_sun_layout
    else unknown x y

unfoldable pub from_identify_bytes : Option ℕ → Option ℕ → KeyboardType
from_identify_bytes none none = at
from_identify_bytes (some x) (some y) = identify x y
from_identify_bytes none (some y) = invalid
from_identify_bytes (some x) none = invalid

-- `KeyStates(u128)`
abbrev pub KeyStates : Type 0
KeyStates = ℕ

-- `1 << key_code`, `|=` and `&= !bit` on a `u128`; a key code from 128 on would be an overflow.
unfoldable pub update_state : KeyStates → ℕ → Bool → KeyStates
update_state s key_code down =
    if down
    then bit_or s (2 ^ key_code % 2 ^ 128)
    else bit_and s (2 ^ 128 - 1 - 2 ^ key_code % 2 ^ 128)

unfoldable pub is_pressed : KeyStates → ℕ → Bool
is_pressed s key = not (bit_and s (2 ^ key % 2 ^ 128) == 0)

-- `pc_keyboard::KeyEvent`: the code as a `u8`, and whether its state is `Down`.
pub record KeyEvent : Type 0 where
  pub code : ℕ
  pub down : Bool

-- `character` is the code point of a decoded Unicode key.
pub record KeyboardEvent : Type 0 where
  pub code : ℕ
  pub down : Bool
  pub character : Option ℕ

-- `pc_keyboard::DecodedKey`
pub data DecodedKey : Type 0 where
  unicode raw_key : ℕ → DecodedKey

-- `pc_keyboard::Keyboard`: `none` covers both `Err` and `Ok(None)`, which the source treats alike.
pub record Decoder : Type 1 where
  pub State : Type 0
  pub initial : State
  pub add_byte : State → ℕ → State × Option KeyEvent
  pub process_keyevent : State → KeyEvent → State × Option DecodedKey

abbrev pub keyboard_event_buffer : ℕ
keyboard_event_buffer = 64

-- `heapless::Deque<KeyboardEvent, N>`: `contents` is the view in which its documentation speaks.
pub record Deque (capacity : ℕ) : Type 1 where
  pub Queue : Type 0
  pub empty : Queue
  pub contents : Queue → List KeyboardEvent
  pub is_full : Queue → Bool
  pub pop_front : Queue → Queue × Option KeyboardEvent
  pub push_back : Queue → KeyboardEvent → Queue
  pub contents-empty : contents empty ≡ []
  pub is_full-contents : (q : Queue) → is_full q ≡ not (ltb (length (contents q)) capacity)
  pub pop_front_nil :
      (q : Queue) → contents q ≡ [] → ((pop_front q).1 ≡ none) × (contents (pop_front q).0 ≡ [])
  pub pop_front_cons :
      (q : Queue) (e : KeyboardEvent) (es : List KeyboardEvent)
      → contents q ≡ e ∷ es
      → ((pop_front q).1 ≡ some e) × (contents (pop_front q).0 ≡ es)
  pub push_back-contents :
      (q : Queue) (e : KeyboardEvent)
      → contents (push_back q e)
        ≡ (if ltb (length (contents q)) capacity then contents q ++ (e ∷ []) else contents q)

-- The character of a decoded key, if it has one.
abbrev pub character_of : Option DecodedKey → Option ℕ
character_of none = none
character_of (some (unicode ch)) = some ch
character_of (some (raw_key code)) = none

module _ (d : Decoder) (dq : Deque keyboard_event_buffer) where
  open d use {State, initial, add_byte, process_keyevent}
  open dq use {Queue, empty, is_full, pop_front, push_back}

  pub record Ps2Keyboard : Type 0 where
    pub keyboard : State
    pub key_states : KeyStates
    pub events : Queue

  unfoldable pub default_keyboard : Ps2Keyboard
  default_keyboard = record { keyboard = initial; key_states = 0; events = empty }

  -- `push_event`: the oldest event makes room.
  unfoldable pub push_event : Queue → KeyboardEvent → Queue
  push_event q e = push_back (if is_full q then (pop_front q).0 else q) e

  unfoldable pub handle_key : Ps2Keyboard → KeyEvent → Ps2Keyboard
  handle_key k key =
      let (keyboard, decoded) = process_keyevent k.keyboard key in
      let event : KeyboardEvent = record {
        code = key.code;
        down = key.down;
        character = character_of decoded;
      } in
      record {
        keyboard = keyboard;
        key_states = update_state k.key_states key.code key.down;
        events = if key.down then push_event k.events event else k.events;
      }

  unfoldable pub handle_interrupt : Ps2Keyboard → ℕ → Ps2Keyboard
  handle_interrupt k scancode =
      let (keyboard, key) = add_byte k.keyboard scancode in
      let added : Ps2Keyboard = record k { keyboard = keyboard } in
      elim key [ none ↦ added | some e ↦ handle_key added e ]

  unfoldable pub pop_event : Ps2Keyboard → Ps2Keyboard × Option KeyboardEvent
  pop_event k = let (q, e) = pop_front k.events in (record k { events = q }, e)

  unfoldable pub is_down : Ps2Keyboard → ℕ → Bool
  is_down k key = is_pressed k.key_states key
