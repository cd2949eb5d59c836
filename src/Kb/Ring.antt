-- ===== src/Kb/Ring.antt =====
-- The event ring of src/devices/kb.c refines a bounded queue.
use cobj_os.Prelude.{
  ℕ, zero, suc, ◌+◌, ◌-◌, ◌%◌, ◌<◌, ◌≡◌, refl, ap, ◌∙◌, ◌≢◌, ◌⊎◌, inl, inr, true, false, Option,
  none, some, List, [], ◌∷◌, ◌++◌, arith, ◌==◌, ltb, if◌then◌else◌, Bool-cases, Option-cases,
  length, get_or, set, length-set, get_or-set_self, get_or-set_ne,
}
use cobj_os.Kb.{
  Kbd, KbdEvent, no_event, kbd_push, kbd_getevent, char_of, Getchar, got, waits, getchar_loop,
  kbd_getchar,
}

pub record IsRing (k : Kbd) : Type 0 where
  pub sized : length k.kbd_buf ≡ 256
  pub head : k.kbd_head < 256
  pub tail : k.kbd_tail < 256

-- `n` events from index `i` on.
abbrev pub stretch : ℕ → ℕ → List KbdEvent → List KbdEvent
stretch zero i buf = []
stretch (suc n) i buf = get_or buf i no_event ∷ stretch n ((i + 1) % 256) buf

abbrev pub count : Kbd → ℕ
count k = (k.kbd_head + 256 - k.kbd_tail) % 256

-- The queue that the ring stands for, oldest event first.
pub events : Kbd → List KbdEvent
events k = stretch (count k) k.kbd_tail k.kbd_buf

length-stretch : (n i : ℕ) (buf : List KbdEvent) → length (stretch n i buf) ≡ n
length-stretch zero i buf = refl
length-stretch (suc n) i buf = ap suc (length-stretch n ((i + 1) % 256) buf)

length-events : (k : Kbd) → length (events k) ≡ count k
unfolding events
length-events k = length-stretch (count k) k.kbd_tail k.kbd_buf

-- A write at the end of a stretch appends to it.
stretch-set :
    (n i h : ℕ) (buf : List KbdEvent) (ev : KbdEvent)
    → length buf ≡ 256
    → i < 256
    → n < 256
    → h ≡ (i + n) % 256
    → stretch (suc n) i (set buf h ev) ≡ stretch n i buf ++ ev ∷ []
stretch-set zero i h buf ev sized small short e =
    let same : h ≡ i = omega arith in rw (same, get_or-set_self buf i ev no_event (omega arith))
stretch-set (suc n) i h buf ev sized small short e =
    let apart : h ≢ i = omega arith in
    rw (get_or-set_ne buf h i ev no_event apart) (
      ap (◌∷◌ (get_or buf i no_event))
        (stretch-set n ((i + 1) % 256) h buf ev sized (omega arith) (omega arith) (omega arith)))

kbd_push-stored :
    (ev : KbdEvent) (k : Kbd)
    → ((k.kbd_head + 1) % 256 == k.kbd_tail) ≡ false
    → kbd_push ev k
      ≡ record k { kbd_buf = set k.kbd_buf k.kbd_head ev; kbd_head = (k.kbd_head + 1) % 256 }
unfolding kbd_push
kbd_push-stored ev k room = rw room

kbd_push-full :
    (ev : KbdEvent) (k : Kbd) → ((k.kbd_head + 1) % 256 == k.kbd_tail) ≡ true → kbd_push ev k ≡ k
unfolding kbd_push
kbd_push-full ev k full = rw full

events-push :
    (ev : KbdEvent) (k : Kbd)
    → IsRing k
    → ((k.kbd_head + 1) % 256 == k.kbd_tail) ≡ false
    → events (kbd_push ev k) ≡ events k ++ ev ∷ []
unfolding events
events-push ev k ring room =
    let next = (k.kbd_head + 1) % 256 in
    let more : (next + 256 - k.kbd_tail) % 256 ≡ suc (count k) = ground (arith, room) in
    rw (kbd_push-stored ev k room, more)
      (stretch-set (count k) k.kbd_tail k.kbd_head k.kbd_buf ev ring.sized ring.tail (omega arith)
        (omega arith))

-- A push appends the event while fewer than 255 are held, and otherwise changes nothing; the ring
-- stays well formed.
pub kbd_push-events :
    (ev : KbdEvent) (k : Kbd)
    → IsRing k
    → IsRing (kbd_push ev k)
      × (events (kbd_push ev k)
          ≡ (if ltb (length (events k)) 255 then events k ++ ev ∷ [] else events k))
kbd_push-events ev k ring = elim (Bool-cases ((k.kbd_head + 1) % 256 == k.kbd_tail)) [
  | inl full ↦
      let held : count k ≡ 255 = ground (arith, full) in
      rw (kbd_push-full ev k full, length-events k, held) (ring, refl)
  | inr room ↦
      let held : ltb (count k) 255 ≡ true = ground (arith, room) in
      let same = kbd_push-stored ev k room in
      (
        rw same (record {
          sized = length-set k.kbd_buf k.kbd_head ev ∙ ring.sized;
          head = omega arith;
          tail = ring.tail;
        }),
        rw (length-events k, held) (events-push ev k ring room),
      )
]

-- `kbd_getevent` waits on an empty ring; else it takes the oldest event, and the ring stays well formed
-- and holds the others in order.
pub kbd_getevent-events :
    (k : Kbd)
    → IsRing k
    → ((events k ≡ []) × (kbd_getevent k ≡ none))
      ⊎ ((ev : KbdEvent) × (k' : Kbd) × (kbd_getevent k ≡ some (ev, k'))
          × (events k ≡ ev ∷ events k')
          × IsRing k')
unfolding events kbd_getevent
kbd_getevent-events k ring = elim (Bool-cases (k.kbd_head == k.kbd_tail)) [
  | inl empty ↦
      let held : (k.kbd_head + 256 - k.kbd_tail) % 256 ≡ 0 = ground (arith, empty) in
      inl (rw held refl, rw empty refl)
  | inr more ↦
      let next = (k.kbd_tail + 1) % 256 in
      let held : (k.kbd_head + 256 - k.kbd_tail) % 256 ≡ suc ((k.kbd_head + 256 - next) % 256) =
        ground (arith, more) in
      inr (
        get_or k.kbd_buf k.kbd_tail no_event,
        record k { kbd_tail = next },
        rw more refl,
        rw held refl,
        record { sized = ring.sized; head = ring.head; tail = omega arith },
      )
]

-- The first character among the events and the events after it.
first_char : List KbdEvent → Option ℕ × List KbdEvent
first_char [] = (none, [])
first_char (ev ∷ evs) = elim (char_of ev) [ none ↦ first_char evs | some c ↦ (some c, evs) ]

pub answer : Getchar → Option ℕ × List KbdEvent
answer (got c k) = (some c, events k)
answer (waits k) = (none, events k)

getchar_loop-first_char :
    (fuel : ℕ) (k : Kbd)
    → IsRing k
    → length (events k) < fuel
    → answer (getchar_loop fuel k) ≡ first_char (events k)
unfolding getchar_loop first_char answer
getchar_loop-first_char zero k ring enough = absurd (omega arith)
getchar_loop-first_char (suc fuel) k ring enough = elim (kbd_getevent-events k ring) [
  | inl (empty, dry) ↦ rw (dry, getchar_loop, empty) refl
  | inr (ev, k', took, held, ring') ↦
      let rest = getchar_loop-first_char fuel k' ring' (omega (arith, ap length held)) in
      elim (Option-cases (char_of ev)) [
        | inl nothing ↦ rw (took, getchar_loop, held, first_char, nothing) rest
        | inr (c, char) ↦ rw (took, getchar_loop, held, first_char, char) refl
      ]
]

-- `kbd_getchar` drops the events that stand for no character and answers with the first that does;
-- where there is none it waits on an empty ring.
kbd_getchar-first_char : (k : Kbd) → IsRing k → answer (kbd_getchar k) ≡ first_char (events k)
unfolding kbd_getchar
kbd_getchar-first_char k ring = getchar_loop-first_char 256 k ring (omega (arith, length-events k))
