-- ===== src/Kb.antt =====
-- src/devices/kb.c: the keyboard driver, from scan codes to a ring of events.
-- `hlt`, which waits for the next interrupt, ends a call here: `none`, or `waits` with the state.
pub mod Ring
pub mod Decode
mod Examples
use cobj_os.Prelude.{
  ℕ, zero, suc, ◌+◌, ◌*◌, ◌/◌, ◌%◌, bit_and, Bool, true, false, not, ◌&&◌, ◌||◌, Option, none, some,
  List, [], ◌∷◌, ltb, leb, ◌==◌, if◌then◌else◌, get_or, set, replicate,
}

pub data Keycode : Type 0 where
  key_none key_char key_enter key_backspace key_tab key_esc : Keycode
  key_up key_down key_left key_right : Keycode
  key_lshift key_rshift key_lctrl key_rctrl key_lalt key_ralt key_capslock : Keycode

pub record KbdMods : Type 0 where
  pub shift : Bool
  pub ctrl : Bool
  pub alt : Bool
  pub caps : Bool

pub record KbdEvent : Type 0 where
  pub code : Keycode
  pub ch : ℕ
  pub pressed : Bool
  pub mods : KbdMods

abbrev pub kbd_buf_size : ℕ
kbd_buf_size = 256

-- The driver's static variables.
pub record Kbd : Type 0 where
  pub kbd_buf : List KbdEvent
  pub kbd_head : ℕ
  pub kbd_tail : ℕ
  pub mods : KbdMods

abbrev pub no_mods : KbdMods
no_mods = record { shift = false; ctrl = false; alt = false; caps = false }

abbrev pub no_event : KbdEvent
no_event = record { code = key_none; ch = 0; pressed = false; mods = no_mods }

abbrev pub scancode_ascii : List ℕ
scancode_ascii =
    0 ∷ 27 ∷ b'1' ∷ b'2' ∷ b'3' ∷ b'4' ∷ b'5' ∷ b'6' ∷ b'7' ∷ b'8' ∷ b'9' ∷ b'0' ∷ b'-' ∷ b'=' ∷ 8
    ∷ 9 ∷ b'q' ∷ b'w' ∷ b'e' ∷ b'r' ∷ b't' ∷ b'y' ∷ b'u' ∷ b'i' ∷ b'o' ∷ b'p' ∷ b'[' ∷ b']' ∷ 10 ∷ 0
    ∷ b'a' ∷ b's' ∷ b'd' ∷ b'f' ∷ b'g' ∷ b'h' ∷ b'j' ∷ b'k' ∷ b'l' ∷ b';' ∷ 39 ∷ b'`' ∷ 0 ∷ 92
    ∷ b'z' ∷ b'x' ∷ b'c' ∷ b'v' ∷ b'b' ∷ b'n' ∷ b'm' ∷ b',' ∷ b'.' ∷ b'/' ∷ 0 ∷ b'*' ∷ 0 ∷ b' ' ∷ 0
    ∷ []

abbrev pub scancode_ascii_shifted : List ℕ
scancode_ascii_shifted =
    0 ∷ 27 ∷ b'!' ∷ b'@' ∷ b'#' ∷ b'$' ∷ b'%' ∷ b'^' ∷ b'&' ∷ b'*' ∷ b'(' ∷ b')' ∷ b'_' ∷ b'+' ∷ 8
    ∷ 9 ∷ b'Q' ∷ b'W' ∷ b'E' ∷ b'R' ∷ b'T' ∷ b'Y' ∷ b'U' ∷ b'I' ∷ b'O' ∷ b'P' ∷ b'{' ∷ b'}' ∷ 10 ∷ 0
    ∷ b'A' ∷ b'S' ∷ b'D' ∷ b'F' ∷ b'G' ∷ b'H' ∷ b'J' ∷ b'K' ∷ b'L' ∷ b':' ∷ b'"' ∷ b'~' ∷ 0 ∷ b'|'
    ∷ b'Z' ∷ b'X' ∷ b'C' ∷ b'V' ∷ b'B' ∷ b'N' ∷ b'M' ∷ b'<' ∷ b'>' ∷ b'?' ∷ 0 ∷ b'*' ∷ 0 ∷ b' ' ∷ 0
    ∷ []

abbrev pub scancode_keycode : ℕ → Keycode
scancode_keycode code =
    if code == 0x1c
    then key_enter
    else if code == 0x0e
    then key_backspace
    else if code == 0x0f
    then key_tab
    else if code == 0x01
    then key_esc
    else if code == 0x2a
    then key_lshift
    else if code == 0x36
    then key_rshift
    else if code == 0x1d
    then key_lctrl
    else if code == 0x38
    then key_lalt
    else if code == 0x3a
    then key_capslock
    else key_none

abbrev pub is_special : Keycode → Bool
is_special key_none = false
is_special _ = true

-- A full ring drops the event.
unfoldable pub kbd_push : KbdEvent → Kbd → Kbd
kbd_push ev k =
    let next = (k.kbd_head + 1) % kbd_buf_size in
    if next == k.kbd_tail
    then k
    else record k { kbd_buf = set k.kbd_buf k.kbd_head ev; kbd_head = next }

unfoldable pub update_mods : Keycode → Bool → KbdMods → KbdMods
update_mods key_lshift pressed m = record m { shift = pressed }
update_mods key_rshift pressed m = record m { shift = pressed }
update_mods key_lctrl pressed m = record m { ctrl = pressed }
update_mods key_lalt pressed m = record m { alt = pressed }
update_mods key_capslock pressed m = if pressed then record m { caps = not m.caps } else m
update_mods _ pressed m = m

-- The character of an ordinary key.
unfoldable pub translate : ℕ → KbdMods → ℕ
translate code m =
    let base = get_or scancode_ascii code 0 in
    let is_letter = leb b'a' base && leb base b'z' in
    let use_shifted = if is_letter && m.caps then not m.shift else m.shift in
    if use_shifted then get_or scancode_ascii_shifted code 0 else base

-- The event of a scan code, if it has one; `m` are the modifiers after the key.
unfoldable pub make_event : ℕ → Bool → KbdMods → Option KbdEvent
unfolding translate
make_event code pressed m =
    let special = scancode_keycode code in
    if is_special special
    then some (record { code = special; ch = 0; pressed = pressed; mods = m })
    else if ltb code 59 && not (get_or scancode_ascii code 0 == 0)
    then some (record { code = key_char; ch = translate code m; pressed = pressed; mods = m })
    else none

unfoldable pub kbd_handle_scancode : ℕ → Kbd → Kbd
kbd_handle_scancode sc k =
    let pressed = bit_and sc 0x80 == 0 in
    let code = bit_and sc 0x7f in
    let special = scancode_keycode code in
    let m = if is_special special then update_mods special pressed k.mods else k.mods in
    elim (make_event code pressed m) [
      | none ↦ record k { mods = m }
      | some ev ↦ kbd_push ev (record k { mods = m })
    ]

-- `none`: the ring is empty and the call waits.
unfoldable pub kbd_getevent : Kbd → Option (KbdEvent × Kbd)
kbd_getevent k =
    if k.kbd_head == k.kbd_tail
    then none
    else some (
      get_or k.kbd_buf k.kbd_tail no_event,
      record k { kbd_tail = (k.kbd_tail + 1) % kbd_buf_size },
    )

abbrev pub kbd_hasevent : Kbd → Bool
kbd_hasevent k = not (k.kbd_head == k.kbd_tail)

-- The character that a pressed key stands for in `kbd_getchar`.
abbrev pub char_of_code : Keycode → ℕ → Option ℕ
char_of_code key_char ch = some ch
char_of_code key_enter ch = some 10
char_of_code key_backspace ch = some 8
char_of_code key_tab ch = some 9
char_of_code _ ch = none

abbrev pub char_of : KbdEvent → Option ℕ
char_of ev = if ev.pressed then char_of_code ev.code ev.ch else none

pub data Getchar : Type 0 where
  got : ℕ → Kbd → Getchar
  waits : Kbd → Getchar

-- The loop of `kbd_getchar` over the buffered events; with no event left the call waits.
unfoldable pub getchar_loop : ℕ → Kbd → Getchar
getchar_loop zero k = waits k
getchar_loop (suc fuel) k = elim (kbd_getevent k) [
  | none ↦ waits k
  | some (ev, k') ↦ elim (char_of ev) [ none ↦ getchar_loop fuel k' | some c ↦ got c k' ]
]

-- The ring holds fewer than `KBD_BUF_SIZE` events.
pub kbd_getchar : Kbd → Getchar
kbd_getchar k = getchar_loop kbd_buf_size k

-- The state at start.
abbrev pub kbd_start : Kbd
kbd_start = record {
  kbd_buf = replicate kbd_buf_size no_event;
  kbd_head = 0;
  kbd_tail = 0;
  mods = no_mods;
}
