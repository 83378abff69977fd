-- ===== src/Ps2/Keyboard/Events.antt =====
-- The ring of key presses: what it holds after any sequence of interrupts.
use minecraft_os.Prelude.{
  ℕ, zero, suc, ◌+◌, ◌-◌, ◌≤◌, ◌≡◌, refl, sym, ap, ◌∙◌, List, [], ◌∷◌, ◌++◌, ◌⊎◌,
}
use minecraft_os.Prelude.{
  true, false, none, some, inl, inr, if◌then◌else◌, ltb, arith, length, drop, Bool-cases,
  Option-cases,
}
use minecraft_os.Prelude.{length-append, length-drop}
use mathlib.Core.List.{append-nil, append_assoc}
use minecraft_os.Ps2.Keyboard.{
  KeyEvent, KeyboardEvent, Decoder, Deque, keyboard_event_buffer, character_of, Ps2Keyboard,
  push_event, handle_key, handle_interrupt,
}

-- The last `n` elements.
unfoldable pub keep_last {ℓ} : {A : Type ℓ} → ℕ → List A → List A
keep_last n xs = drop (length xs - n) xs

drop_nil {ℓ} : {A : Type ℓ} (n : ℕ) → drop {A = A} n [] ≡ []
drop_nil zero = refl
drop_nil (suc n) = refl

drop-drop {ℓ} : {A : Type ℓ} (a b : ℕ) (xs : List A) → drop a (drop b xs) ≡ drop (b + a) xs
drop-drop a zero xs = ap (λ t. drop t xs) (omega arith)
drop-drop a (suc b) [] = drop_nil a ∙ sym (drop_nil (suc b + a))
drop-drop a (suc b) (x ∷ xs) =
    let e : suc (b + a) ≡ suc b + a = omega arith in drop-drop a b xs ∙ ap (λ t. drop t (x ∷ xs)) e

append-drop {ℓ} :
    {A : Type ℓ} (k : ℕ) (xs ys : List A) → k ≤ length xs → drop k xs ++ ys ≡ drop k (xs ++ ys)
append-drop zero xs ys h = refl
append-drop (suc k) [] ys h = absurd (omega arith)
append-drop (suc k) (x ∷ xs) ys h = append-drop k xs ys (omega arith)

keep_last-append {ℓ} :
    {A : Type ℓ} (n : ℕ) (xs ys : List A)
    → keep_last n (keep_last n xs ++ ys) ≡ keep_last n (xs ++ ys)
unfolding keep_last
keep_last-append n xs ys =
    let k = length xs - n in
    let e = append-drop k xs ys (omega arith) in
    rw
      (
        e,
        drop-drop (length (drop k (xs ++ ys)) - n) k (xs ++ ys),
        length-drop k (xs ++ ys),
        length-append xs ys,
      )
      (ap (λ t. drop t (xs ++ ys)) (omega arith))

length-keep_last {ℓ} : {A : Type ℓ} (n : ℕ) (xs : List A) → length (keep_last n xs) ≤ n
unfolding keep_last
length-keep_last n xs = omega (arith, length-drop (length xs - n) xs)

module _ (d : Decoder) (dq : Deque keyboard_event_buffer) where
  open d use {State, initial, add_byte, process_keyevent}
  open dq use {Queue, contents}

  push_event-room :
      (q : Queue) (e : KeyboardEvent)
      → ltb (length (contents q)) keyboard_event_buffer ≡ true
      → contents (push_event d dq q e) ≡ contents q ++ (e ∷ [])
  unfolding push_event
  push_event-room q e h =
      rw (push_event, dq.is_full-contents q, h, dq.push_back-contents q e, h) refl

  push_event-full :
      (q : Queue) (x : KeyboardEvent) (xs : List KeyboardEvent) (e : KeyboardEvent)
      → contents q ≡ x ∷ xs
      → length xs ≡ 63
      → contents (push_event d dq q e) ≡ xs ++ (e ∷ [])
  unfolding push_event
  push_event-full q x xs e c h =
      let popped = (dq.pop_front_cons q x xs c).1 in
      let full : ltb (length (contents q)) keyboard_event_buffer ≡ false = rw (c, h) refl in
      let room : ltb (length xs) keyboard_event_buffer ≡ true = rw h refl in
      rw
        (
          push_event,
          dq.is_full-contents q,
          full,
          dq.push_back-contents (dq.pop_front q).0 e,
          popped,
          room,
        )
        refl

  push_event_cases :
      (xs : List KeyboardEvent)
      → length xs ≤ keyboard_event_buffer
      → (ltb (length xs) keyboard_event_buffer ≡ true)
        ⊎ ((x : KeyboardEvent) × (ys : List KeyboardEvent) × (xs ≡ x ∷ ys) × (length ys ≡ 63))
  push_event_cases [] h = inl refl
  push_event_cases (x ∷ xs) h = elim (Bool-cases (ltb (length (x ∷ xs)) keyboard_event_buffer)) [
    | inl room ↦ inl room
    | inr full ↦ inr (x, xs, refl, ground arith)
  ]

  push_event-contents :
      (q : Queue) (e : KeyboardEvent)
      → length (contents q) ≤ keyboard_event_buffer
      → contents (push_event d dq q e) ≡ keep_last keyboard_event_buffer (contents q ++ (e ∷ []))
  unfolding keep_last
  push_event-contents q e h = elim (push_event_cases (contents q) h) [
    | inl room ↦
        let none_dropped : length (contents q ++ (e ∷ [])) - 64 ≡ 0 =
          ground (arith, length-append (contents q) (e ∷ [])) in
        rw none_dropped (push_event-room q e room)
    | inr (x, xs, c, n) ↦
        let one_dropped : length (x ∷ (xs ++ (e ∷ []))) - 64 ≡ 1 =
          omega (arith, length-append xs (e ∷ [])) in
        push_event-full q x xs e c n ∙ rw (c, one_dropped) refl
  ]

  -- What one byte means to the decoder alone: its next state, and the key press, if it is one.
  unfoldable pub next : State → ℕ → State
  next st b =
      let (st', key) = add_byte st b in
      elim key [ none ↦ st' | some e ↦ (process_keyevent st' e).0 ]

  unfoldable pub pressed : State → ℕ → List KeyboardEvent
  pressed st b =
      let (st', key) = add_byte st b in
      elim key [
        | none ↦ []
        | some e ↦
            let decoded = (process_keyevent st' e).1 in
            if e.down
            then record { code = e.code; down = true; character = character_of decoded } ∷ []
            else []
      ]

  unfoldable pub presses : State → List ℕ → List KeyboardEvent
  presses st [] = []
  presses st (b ∷ bs) = pressed st b ++ presses (next st b) bs

  unfoldable pub handle_all : Ps2Keyboard d dq → List ℕ → Ps2Keyboard d dq
  handle_all k [] = k
  handle_all k (b ∷ bs) = handle_all (handle_interrupt d dq k b) bs

  keep_last-short :
      (xs : List KeyboardEvent)
      → length xs ≤ keyboard_event_buffer
      → keep_last keyboard_event_buffer xs ≡ xs
  unfolding keep_last
  keep_last-short xs h = let e : length xs - 64 ≡ 0 = omega arith in rw e refl

  handle_key-events :
      (k : Ps2Keyboard d dq) (e : KeyEvent)
      → length (contents k.events) ≤ keyboard_event_buffer
      → contents (handle_key d dq k e).events
        ≡ keep_last keyboard_event_buffer (
            contents k.events
            ++ (if e.down
                then record {
                  code = e.code;
                  down = true;
                  character = character_of (process_keyevent k.keyboard e).1;
                }
                  ∷ []
                else []))
  unfolding handle_key
  handle_key-events k e h = elim (Bool-cases e.down) [
    | inl d ↦ rw (handle_key, d) (push_event-contents k.events _ h)
    | inr u ↦
        rw (handle_key, u, append-nil (contents k.events))
          (sym (keep_last-short (contents k.events) h))
  ]

  handle_interrupt-events :
      (k : Ps2Keyboard d dq) (b : ℕ)
      → length (contents k.events) ≤ keyboard_event_buffer
      → (contents (handle_interrupt d dq k b).events
          ≡ keep_last keyboard_event_buffer (contents k.events ++ pressed k.keyboard b))
        × ((handle_interrupt d dq k b).keyboard ≡ next k.keyboard b)
  unfolding handle_interrupt handle_key next pressed
  handle_interrupt-events k b h = elim (Option-cases (add_byte k.keyboard b).1) [
    | inl e ↦ (
      rw (handle_interrupt, pressed, e, append-nil (contents k.events))
          (sym (keep_last-short (contents k.events) h)),
      rw (handle_interrupt, next, e) refl,
    )
    | inr (key, e) ↦ (
      rw (handle_interrupt, pressed, e)
          (handle_key-events (record k { keyboard = (add_byte k.keyboard b).0 }) key h),
      rw (handle_interrupt, next, e) refl,
    )
  ]

  -- After any bytes, the ring holds the last 64 of what it held followed by the key presses that the
  -- decoder finds in those bytes, in their order, if it held no more than 64 before.
  pub handle_all_lem :
      (bs : List ℕ) (k : Ps2Keyboard d dq)
      → length (contents k.events) ≤ keyboard_event_buffer
      → contents (handle_all k bs).events
        ≡ keep_last keyboard_event_buffer (contents k.events ++ presses k.keyboard bs)
  unfolding handle_all presses
  handle_all_lem [] k h =
      rw (append-nil (contents k.events)) (sym (keep_last-short (contents k.events) h))
  handle_all_lem (b ∷ bs) k h =
      let (ring, decoder) = handle_interrupt-events k b h in
      let shorter : length (contents (handle_interrupt d dq k b).events) ≤ keyboard_event_buffer =
        rw ring
          (length-keep_last keyboard_event_buffer (contents k.events ++ pressed k.keyboard b)) in
      handle_all_lem bs (handle_interrupt d dq k b) shorter
      ∙ rw (ring, decoder)
          (keep_last-append keyboard_event_buffer (contents k.events ++ pressed k.keyboard b)
            (presses (next k.keyboard b) bs))
      ∙ ap (keep_last keyboard_event_buffer)
          (append_assoc (contents k.events) (pressed k.keyboard b) (presses (next k.keyboard b) bs))
