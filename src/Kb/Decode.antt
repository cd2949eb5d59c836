-- ===== src/Kb/Decode.antt =====
-- Scan codes of src/devices/kb.c: what a key does to the modifiers, and the character it gives.
use cobj_os.Prelude.{
  ℕ, ◌-◌, ◌<◌, ◌≡◌, refl, ap, ◌∙◌, ◌⊎◌, inl, inr, Bool, true, false, not, ◌&&◌, ◌||◌, List, [], ◌∷◌,
  arith, ◌==◌, leb, if◌then◌else◌, Option-cases, get_or, bit_and, every_below, every_below_sound,
}
use cobj_os.Kb.{
  Kbd, KbdMods, KbdEvent, scancode_ascii, scancode_keycode, is_special, update_mods, translate,
  make_event, kbd_push, kbd_handle_scancode,
}
use cobj_os.Kb.Ring.{IsRing, kbd_push-events}

abbrev pub xor : Bool → Bool → Bool
xor true b = not b
xor false b = b

abbrev mods_of : Bool → Bool → KbdMods
mods_of shift caps = record { shift = shift; ctrl = false; alt = false; caps = caps }

abbrev pub is_letter : ℕ → Bool
is_letter code = leb b'a' (get_or scancode_ascii code 0) && leb (get_or scancode_ascii code 0) b'z'

-- One table for each state of the two keys.
letter_table :
    (shift caps : Bool)
    → every_below 59 (λ code.
      not (is_letter code)
      || translate code (mods_of shift caps) == (
          if xor shift caps
          then get_or scancode_ascii code 0 - 32
          else get_or scancode_ascii code 0))
      ≡ true
unfolding translate every_below
letter_table true true = refl
letter_table true false = refl
letter_table false true = refl
letter_table false false = refl

-- A letter key gives the capital exactly when one of Shift and Caps Lock is on and the other is not,
-- whatever the other modifiers are.
translate_letter :
    (code : ℕ) (m : KbdMods)
    → code < 59
    → is_letter code ≡ true
    → translate code m ≡ (
        if xor m.shift m.caps
        then get_or scancode_ascii code 0 - 32
        else get_or scancode_ascii code 0)
unfolding translate
translate_letter code m lt letter =
    ground (arith, every_below_sound 59 _ code (letter_table m.shift m.caps) lt)

-- The modifiers after a scan code.
abbrev after_key : ℕ → KbdMods → KbdMods
after_key sc m =
    let special = scancode_keycode (bit_and sc 0x7f) in
    if is_special special then update_mods special (bit_and sc 0x80 == 0) m else m

kbd_push-mods : (ev : KbdEvent) (k : Kbd) → (kbd_push ev k).mods ≡ k.mods
unfolding kbd_push
kbd_push-mods ev k = ground arith

handle-cases :
    (sc : ℕ) (k : Kbd)
    → (kbd_handle_scancode sc k ≡ record k { mods = after_key sc k.mods })
      ⊎ ((ev : KbdEvent) × (kbd_handle_scancode sc k
            ≡ kbd_push ev (record k { mods = after_key sc k.mods })))
unfolding kbd_handle_scancode
handle-cases sc k =
    elim (Option-cases
      (make_event (bit_and sc 0x7f) (bit_and sc 0x80 == 0) (after_key sc k.mods))) [
        | inl e ↦ inl (rw (e, kbd_handle_scancode))
        | inr (ev, e) ↦ inr (ev, rw (e, kbd_handle_scancode))
      ]

handle-mods : (sc : ℕ) (k : Kbd) → (kbd_handle_scancode sc k).mods ≡ after_key sc k.mods
handle-mods sc k = elim (handle-cases sc k) [ inl e ↦ rw e | inr (ev, e) ↦ rw (e, kbd_push-mods) ]

handle-IsRing : (sc : ℕ) (k : Kbd) → IsRing k → IsRing (kbd_handle_scancode sc k)
handle-IsRing sc k ring =
    let same : IsRing (record k { mods = after_key sc k.mods }) = record {
      sized = ring.sized;
      head = ring.head;
      tail = ring.tail;
    } in
    elim (handle-cases sc k) [
      | inl e ↦ rw e same
      | inr (ev, e) ↦ rw e ((kbd_push-events ev _ same).0)
    ]

-- The interrupts of a session, one scan code each.
unfoldable pub handle_all : List ℕ → Kbd → Kbd
handle_all [] k = k
handle_all (sc ∷ scs) k = handle_all scs (kbd_handle_scancode sc k)

-- Whether Caps Lock has been pressed an odd number of times: its scan code is 0x3a, and 0xba on release.
unfoldable pub odd_presses : List ℕ → Bool
odd_presses [] = false
odd_presses (sc ∷ scs) = if sc == 0x3a then not (odd_presses scs) else odd_presses scs

caps_table :
    every_below 256 (λ sc.
      (not ((bit_and sc 0x80 == 0) && (bit_and sc 0x7f == 0x3a)) || (sc == 0x3a))
      && (not (sc == 0x3a) || ((bit_and sc 0x80 == 0) && (bit_and sc 0x7f == 0x3a))))
    ≡ true
unfolding every_below
caps_table = refl

after_key-caps :
    (sc : ℕ) (m : KbdMods)
    → sc < 256
    → (after_key sc m).caps ≡ (if sc == 0x3a then not m.caps else m.caps)
unfolding update_mods
after_key-caps sc m lt = ground (arith, every_below_sound 256 _ sc caps_table lt)

abbrev pub Bytes : List ℕ → Type 0
Bytes [] = Unit {0}
Bytes (sc ∷ scs) = (sc < 256) × Bytes scs

-- After any session the ring is well formed, and Caps Lock is on exactly if it was on before and pressed
-- an even number of times, or off before and pressed an odd number of times; key repeats count.
pub handle_all-caps :
    (scs : List ℕ) (k : Kbd)
    → Bytes scs
    → IsRing k
    → IsRing (handle_all scs k) × ((handle_all scs k).mods.caps ≡ xor (odd_presses scs) k.mods.caps)
unfolding handle_all odd_presses
handle_all-caps [] k bytes ring = (ring, refl)
handle_all-caps (sc ∷ scs) k (byte, bytes) ring =
    let k' = kbd_handle_scancode sc k in
    let (ok, caps) = handle_all-caps scs k' bytes (handle-IsRing sc k ring) in
    let step : k'.mods.caps ≡ (if sc == 0x3a then not k.mods.caps else k.mods.caps) =
      ap (λ (m : KbdMods). m.caps) (handle-mods sc k) ∙ after_key-caps sc k.mods byte in
    (ok, ground (arith, caps, step))
