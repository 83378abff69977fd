-- ===== src/Ps2/Mouse/Motion.antt =====
-- A stream of packets, the motion and the clicks that the frame loop takes from it.
use minecraft_os.Prelude.{ℕ, ◌+◌, ◌%◌, ◌^◌, ◌≡◌, ◌≢◌, refl, ap, ◌∙◌, arith}
use minecraft_os.Prelude.{Bool, true, false, not, ◌&&◌, List, [], ◌∷◌, ◌++◌, map, length}
use minecraft_os.Ps2.Mouse.{
  MouseType, standard, intellimouse, explorer, unknown, Ps2Mouse, MousePacket, bytes_needed,
  receive, assemble, apply_packet, handle_interrupt, pop_clicks, pop_delta, MouseClicks,
  is_left_down, is_right_down,
}
use minecraft_os.Ps2.Mouse.Packets.{
  Frame, frame_bytes, frame_packet, feed, apply_all, all_bytes, IsValid,
}

abbrev pub width : MouseType → ℕ
width standard = 3
width intellimouse = 4
width explorer = 4
width unknown = 4

-- A mouse between two packets.
abbrev pub between : Ps2Mouse → MouseType → List ℕ → Ps2Mouse
between m t bytes = record m { mouse_type = t; packet_state = 0; packet_bytes = bytes }

abbrev last_byte : MouseType → Frame → ℕ → ℕ
last_byte standard f d = d
last_byte intellimouse f d = f.extra
last_byte explorer f d = f.extra
last_byte unknown f d = f.extra

abbrev bytes_after : MouseType → Frame → ℕ → List ℕ
bytes_after t f d = f.state ∷ f.motion_x ∷ f.motion_y ∷ last_byte t f d ∷ []

feed_frame :
    (t : MouseType) (m : Ps2Mouse) (a b c d : ℕ) (f : Frame) (rest : List ℕ)
    → t ≢ unknown
    → let p = frame_packet (width t) f in
      let (end, packets) = feed (between (apply_packet m p) t (bytes_after t f d)) rest in
      feed (between m t (a ∷ b ∷ c ∷ d ∷ [])) (frame_bytes (width t) f ++ rest) ≡ (end, p ∷ packets)
unfolding feed handle_interrupt receive bytes_needed assemble apply_packet
feed_frame standard m a b c d f rest h = refl
feed_frame intellimouse m a b c d f rest h = refl
feed_frame explorer m a b c d f rest h = refl
feed_frame unknown m a b c d f rest h = absurd (h refl)

apply_all-between :
    (ps : List MousePacket) (m : Ps2Mouse) (t : MouseType) (bytes : List ℕ)
    → apply_all (between m t bytes) ps ≡ between (apply_all m ps) t bytes
unfolding apply_all apply_packet
apply_all-between [] m t bytes = refl
apply_all-between (p ∷ ps) m t bytes = apply_all-between ps (apply_packet m p) t bytes

feed-between :
    (fs : List Frame) (m : Ps2Mouse) (t : MouseType) (a b c d : ℕ)
    → t ≢ unknown
    → let ps = map (frame_packet (width t)) fs in
      (bytes : List ℕ) × (feed (between m t (a ∷ b ∷ c ∷ d ∷ [])) (all_bytes (width t) fs)
        ≡ (between (apply_all m ps) t bytes, ps))
unfolding apply_all
feed-between [] m t a b c d h = (a ∷ b ∷ c ∷ d ∷ [], nothing)
  where
    nothing : feed (between m t (a ∷ b ∷ c ∷ d ∷ [])) [] ≡ (between m t (a ∷ b ∷ c ∷ d ∷ []), [])
    nothing = unfold feed in refl
feed-between (f ∷ fs) m t a b c d h =
    let p = frame_packet (width t) f in
    let (bytes, e) =
      feed-between fs (apply_packet m p) t f.state f.motion_x f.motion_y (last_byte t f d) h in
    (
      bytes,
      feed_frame t m a b c d f (all_bytes (width t) fs) h
          ∙ ap (λ (r : Ps2Mouse × List MousePacket). (r.0, p ∷ r.1)) e,
    )

four_bytes :
    (l : List ℕ) → length l ≡ 4 → (a : ℕ) × (b : ℕ) × (c : ℕ) × (d : ℕ) × (l ≡ a ∷ b ∷ c ∷ d ∷ [])
four_bytes (a ∷ b ∷ c ∷ d ∷ []) h = (a, b, c, d, refl)
four_bytes [] h = absurd (omega arith)
four_bytes (a ∷ []) h = absurd (omega arith)
four_bytes (a ∷ b ∷ []) h = absurd (omega arith)
four_bytes (a ∷ b ∷ c ∷ []) h = absurd (omega arith)
four_bytes (a ∷ b ∷ c ∷ d ∷ e ∷ l) h = absurd (omega arith)

-- Total correctness of the packet assembly: for a mouse of a known type between two packets, any
-- run of whole packets comes out as just these packets, each once and in order, and leaves the
-- mouse moved by them all and again between two packets.
pub feed_lem :
    (m : Ps2Mouse) (fs : List Frame)
    → IsValid m
    → m.packet_state ≡ 0
    → m.mouse_type ≢ unknown
    → let w = width m.mouse_type in
      let ps = map (frame_packet w) fs in
      (bytes : List ℕ) × (feed m (all_bytes w fs)
        ≡ (between (apply_all m ps) m.mouse_type bytes, ps))
feed_lem m fs v e h =
    let (a, b, c, d, l) = four_bytes m.packet_bytes v.bytes in
    let whole : m ≡ between m m.mouse_type (a ∷ b ∷ c ∷ d ∷ []) =
      λ i. record m { packet_state = e i; packet_bytes = l i } in
    let (bytes, r) = feed-between fs m m.mouse_type a b c d h in
    (bytes, ap (λ n. feed n (all_bytes (width m.mouse_type) fs)) whole ∙ r)

-- The frame loop: packets come in, and now and then the motion since the last poll is taken.
pub data Event : Type 0 where
  moved : MousePacket → Event
  polled : Event

-- The mouse after the events, and the sum of what the polls returned.
unfoldable pub play : Ps2Mouse → List Event → Ps2Mouse × ℕ × ℕ
play m [] = (m, 0, 0)
play m (moved p ∷ es) = play (apply_packet m p) es
play m (polled ∷ es) =
    let (m', popped) = pop_delta m in
    let (end, sum_x, sum_y) = play m' es in (end, popped.0 + sum_x, popped.1 + sum_y)

abbrev pub total_x : List Event → ℕ
total_x [] = 0
total_x (moved p ∷ es) = p.dx + total_x es
total_x (polled ∷ es) = total_x es

abbrev pub total_y : List Event → ℕ
total_y [] = 0
total_y (moved p ∷ es) = p.dy + total_y es
total_y (polled ∷ es) = total_y es

-- No motion is lost or counted twice, however packets and polls interleave: what the polls returned
-- and what is still held add up to what the packets brought, modulo 2^16.
pub play-total :
    (m : Ps2Mouse) (es : List Event)
    → let (end, sum_x, sum_y) = play m es in
      ((sum_x + end.dx_this_frame) % 2 ^ 16 ≡ (m.dx_this_frame + total_x es) % 2 ^ 16)
      × ((sum_y + end.dy_this_frame) % 2 ^ 16 ≡ (m.dy_this_frame + total_y es) % 2 ^ 16)
unfolding play apply_packet pop_delta
play-total m [] = omega arith
play-total m (moved p ∷ es) =
    let ih = play-total (apply_packet m p) es in (omega (arith, ih.0), omega (arith, ih.1))
play-total m (polled ∷ es) =
    let ih = play-total (pop_delta m).0 es in (omega (arith, ih.0), omega (arith, ih.1))

no_edge : (b : Bool) → b && not b ≡ false
no_edge true = refl
no_edge false = refl

abbrev pub no_clicks : MouseClicks
no_clicks = record { left = false; right = false }

-- A press is lost if one more packet with the same buttons comes before the frame loop asks: then
-- no click is reported, whatever was pressed before.
pub click_lost :
    (m : Ps2Mouse) (p q : MousePacket)
    → q.buttons ≡ p.buttons
    → (pop_clicks (apply_packet (apply_packet m p) q)).1 ≡ no_clicks
unfolding pop_clicks apply_packet
click_lost m p q e =
    rw (e) (ground (arith, no_edge (is_left_down p.buttons), no_edge (is_right_down p.buttons)))

-- A click is reported once: asking again without a packet in between reports none.
pub pop_clicks_once : (m : Ps2Mouse) → (pop_clicks (pop_clicks m).0).1 ≡ no_clicks
unfolding pop_clicks
pop_clicks_once m =
    ground (arith, no_edge (is_left_down m.buttons), no_edge (is_right_down m.buttons))
