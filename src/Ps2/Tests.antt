-- ===== src/Ps2/Tests.antt =====
-- A mouse, and a keyboard with a plain list for its ring and a small scancode decoder.
use minecraft_os.Prelude.{ℕ, ◌+◌, ◌%◌, ◌≡◌, refl, ap, arith, not}
use minecraft_os.Prelude.{List, [], ◌∷◌, ◌++◌, Option, none, some, length, map, ltb, if◌then◌else◌}
use minecraft_os.Ps2.Mouse.{
  intellimouse, Ps2Mouse, MousePacket, default_mouse, from_bytes, pop_clicks,
}
use minecraft_os.Ps2.Mouse.Packets.{IsValid, Frame, frame_packet, all_bytes, feed, apply_all}
use minecraft_os.Ps2.Mouse.Motion.{
  between, feed_lem, Event, moved, polled, pop_clicks_once, no_clicks,
}
use minecraft_os.Ps2.Keyboard.{
  KeyboardEvent, Decoder, Deque, raw_key, default_keyboard, keyboard_event_buffer,
}
use minecraft_os.Ps2.Keyboard.Events.{keep_last, presses, handle_all, handle_all_lem}

abbrev wheel_mouse : Ps2Mouse
wheel_mouse = record default_mouse { mouse_type = intellimouse }

abbrev frames : List Frame
frames =
    record { state = 0x09; motion_x = 5; motion_y = 2; extra = 1 }
    ∷ record { state = 0x38; motion_x = 250; motion_y = 255; extra = 0 }
    ∷ []

wheel_mouse-IsValid : IsValid wheel_mouse
unfolding default_mouse
wheel_mouse-IsValid = omega arith

feed_example :
    let ps = map (frame_packet 4) frames in
    (bytes : List ℕ) × (feed wheel_mouse (all_bytes 4 frames)
      ≡ (between (apply_all wheel_mouse ps) intellimouse bytes, ps))
unfolding default_mouse
feed_example = feed_lem wheel_mouse frames wheel_mouse-IsValid refl (λ e. absurd (cc e))

abbrev packet_1 : MousePacket
packet_1 = from_bytes 9 5 2 none

abbrev packet_2 : MousePacket
packet_2 = from_bytes 9 0 0 none

abbrev events : List Event
events = moved packet_1 ∷ polled ∷ moved packet_2 ∷ moved packet_1 ∷ []

pop_clicks_once_example : (pop_clicks (pop_clicks wheel_mouse).0).1 ≡ no_clicks
pop_clicks_once_example = pop_clicks_once wheel_mouse

-- The ring as a list.
abbrev pop_list : List KeyboardEvent → List KeyboardEvent × Option KeyboardEvent
pop_list [] = ([], none)
pop_list (e ∷ es) = (es, some e)

abbrev ring : Deque keyboard_event_buffer
ring = record {
  Queue = List KeyboardEvent;
  empty = [];
  contents = λ q. q;
  is_full = λ q. not (ltb (length q) keyboard_event_buffer);
  pop_front = pop_list;
  push_back = λ q e. if ltb (length q) keyboard_event_buffer then q ++ (e ∷ []) else q;
  contents-empty = refl;
  is_full-contents = λ q. refl;
  pop_front_nil = λ q h. (
    ap (λ (l : List KeyboardEvent). (pop_list l).1) h,
    ap (λ (l : List KeyboardEvent). (pop_list l).0) h,
  );
  pop_front_cons = λ q e es h. (
    ap (λ (l : List KeyboardEvent). (pop_list l).1) h,
    ap (λ (l : List KeyboardEvent). (pop_list l).0) h,
  );
  push_back-contents = λ q e. refl;
}

-- Bytes below 128 press a key, the others release one; the state counts the bytes.
abbrev decoder : Decoder
decoder = record {
  State = ℕ;
  initial = 0;
  add_byte = λ st b. (st + 1, some (record { code = b % 128; down = ltb b 128 }));
  process_keyevent = λ st e. (st, some (raw_key e.code));
}

handle_all_example :
    (handle_all decoder ring (default_keyboard decoder ring) (30 ∷ 158 ∷ 31 ∷ [])).events
    ≡ keep_last 64 (presses decoder ring 0 (30 ∷ 158 ∷ 31 ∷ []))
unfolding default_keyboard
handle_all_example =
    handle_all_lem decoder ring (30 ∷ 158 ∷ 31 ∷ []) (default_keyboard decoder ring) (omega arith)
