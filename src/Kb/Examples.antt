-- ===== src/Kb/Examples.antt =====
-- The keyboard of src/devices/kb.c on a few scan codes, and its theorems there.
use cobj_os.Prelude.{
  ◌≡◌, refl, ◌⊎◌, true, none, some, [], ◌∷◌, ◌++◌, arith, ltb, if◌then◌else◌, length,
}
use cobj_os.Kb.{
  Kbd, KbdEvent, key_char, no_mods, kbd_start, kbd_push, kbd_getevent, translate, make_event,
  update_mods, kbd_handle_scancode, kbd_getchar, getchar_loop, got,
}
use cobj_os.Kb.Ring.{IsRing, events, kbd_push-events, kbd_getevent-events}
use cobj_os.Kb.Decode.{handle_all, odd_presses, handle_all-caps, xor}

kbd_start-IsRing : IsRing kbd_start
kbd_start-IsRing = record { sized = refl; head = omega arith; tail = omega arith }

abbrev press_a : KbdEvent
press_a = record { code = key_char; ch = b'a'; pressed = true; mods = no_mods }

-- Caps Lock, then the A key.
capital_a :
    kbd_getchar (handle_all (0x3a ∷ 0xba ∷ 0x1e ∷ 0x9e ∷ []) kbd_start)
    ≡ got b'A' (record (handle_all (0x3a ∷ 0xba ∷ 0x1e ∷ 0x9e ∷ []) kbd_start) { kbd_tail = 3 })
unfolding kbd_getchar handle_all kbd_handle_scancode kbd_push make_event translate update_mods
    getchar_loop kbd_getevent
capital_a = refl

kbd_push-events_example :
    IsRing (kbd_push press_a kbd_start)
    × (events (kbd_push press_a kbd_start) ≡ (
        if ltb (length (events kbd_start)) 255
        then events kbd_start ++ press_a ∷ []
        else events kbd_start))
kbd_push-events_example = kbd_push-events press_a kbd_start kbd_start-IsRing

kbd_getevent-events_example :
    ((events kbd_start ≡ []) × (kbd_getevent kbd_start ≡ none))
    ⊎ ((ev : KbdEvent) × (k' : Kbd) × (kbd_getevent kbd_start ≡ some (ev, k'))
        × (events kbd_start ≡ ev ∷ events k')
        × IsRing k')
kbd_getevent-events_example = kbd_getevent-events kbd_start kbd_start-IsRing

abbrev one_held : Kbd
one_held = kbd_push press_a kbd_start

one_held-IsRing : IsRing one_held
one_held-IsRing = (kbd_push-events press_a kbd_start kbd_start-IsRing).0

handle_all-caps_example :
    IsRing (handle_all (0x3a ∷ 0xba ∷ []) kbd_start)
    × ((handle_all (0x3a ∷ 0xba ∷ []) kbd_start).mods.caps
        ≡ xor (odd_presses (0x3a ∷ 0xba ∷ [])) kbd_start.mods.caps)
handle_all-caps_example =
    handle_all-caps (0x3a ∷ 0xba ∷ []) kbd_start (omega arith, (omega arith, tt)) kbd_start-IsRing
