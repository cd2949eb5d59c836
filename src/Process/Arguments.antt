-- ===== src/Process/Arguments.antt =====
-- The arguments on the stack of a new process, in `proc_create` of src/multi/process.c.
use cobj_os.Prelude.{
  ℕ, zero, suc, ◌+◌, ◌-◌, ◌*◌, ◌/◌, ◌%◌, ◌^◌, ◌≤◌, ◌<◌, ◌≡◌, refl, ap, ◌∙◌, true, false, List, [],
  ◌∷◌, ◌++◌, arith, ◌==◌, if◌then◌else◌, length, length-append, append_nil,
}
use cobj_os.Prelude.Bits.{align_down_eight, bit_and-high_mask}
use cobj_os.Memory.{store, fetch}
use cobj_os.Process.{
  Area, down, stack_base, arguments_loop, arguments, reversed, words_bytes, le_bytes,
}

-- What a write of several bytes leaves and what it brings.
store_below : (a b : ℕ) (vs : List ℕ) (bytes : ℕ → ℕ) → b < a → store a vs bytes b ≡ bytes b
unfolding store
store_below a b [] bytes h = refl
store_below a b (v ∷ vs) bytes h =
    let ne : (b == a) ≡ false = ground (arith, h) in
    store_below (a + 1) b vs _ (omega (arith, h)) ∙ rw ne refl

store_above :
    (a b : ℕ) (vs : List ℕ) (bytes : ℕ → ℕ) → a + length vs ≤ b → store a vs bytes b ≡ bytes b
unfolding store
store_above a b [] bytes h = refl
store_above a b (v ∷ vs) bytes h =
    let ne : (b == a) ≡ false = ground (arith, h) in
    store_above (a + 1) b vs _ (omega (arith, h)) ∙ rw ne refl

fetch_same :
    (n a : ℕ) (f g : ℕ → ℕ) → ((b : ℕ) → a ≤ b → b < a + n → f b ≡ g b) → fetch a n f ≡ fetch a n g
unfolding fetch
fetch_same zero a f g h = refl
fetch_same (suc n) a f g h =
    let first = h a (omega arith) (omega arith) in
    let rest =
      fetch_same n (a + 1) f g (λ b low high. h b (omega (arith, low)) (omega (arith, high))) in
    rw (first, rest) refl

fetch-store : (a : ℕ) (vs : List ℕ) (bytes : ℕ → ℕ) → fetch a (length vs) (store a vs bytes) ≡ vs
unfolding fetch store
fetch-store a [] bytes = refl
fetch-store a (v ∷ vs) bytes =
    let bytes' : ℕ → ℕ = λ b. if b == a then v else bytes b in
    let here : (a == a) ≡ true = ground arith in
    let first : store (a + 1) vs bytes' a ≡ v =
      store_below (a + 1) a vs bytes' (omega arith) ∙ rw here refl in
    let rest = fetch-store (a + 1) vs bytes' in rw (first, rest) refl

fetch-store_high :
    (a n c : ℕ) (vs : List ℕ) (bytes : ℕ → ℕ)
    → a + length vs ≤ c
    → fetch c n (store a vs bytes) ≡ fetch c n bytes
fetch-store_high a n c vs bytes h =
    fetch_same n c (store a vs bytes) bytes
      (λ b low high. store_above a b vs bytes (omega (arith, h, low)))

down_eight : (x n : ℕ) → n ≤ x → x < 2 ^ 63 → down 0xfffffffffffffff8 x n ≡ (x - n) / 8 * 8
unfolding down
down_eight x n le small =
    let e : (x + 2 ^ 64 - n) % 2 ^ 64 ≡ x - n = omega (arith, le, small) in
    rw e (align_down_eight (x - n) (omega (arith, small)))

down_sixteen : (x n : ℕ) → n ≤ x → x < 2 ^ 63 → down 0xfffffffffffffff0 x n ≡ (x - n) / 16 * 16
unfolding down
down_sixteen x n le small =
    let e : (x + 2 ^ 64 - n) % 2 ^ 64 ≡ x - n = omega (arith, le, small) in
    rw e (omega (arith, bit_and-high_mask 60 4 (x - n), small))

-- The arguments, the last one first, fit below `off`.
abbrev pub Room : List (List ℕ) → ℕ → Type 0
Room [] off = Unit {0}
Room (arg ∷ args) off = (length arg + 1 ≤ off) × Room args ((off - (length arg + 1)) / 8 * 8)

-- Each pointer leads to its argument with a terminator, at `off` of the stack or above.
abbrev pub Placed : ℕ → (ℕ → ℕ) → ℕ → List ℕ → List (List ℕ) → Type 0
Placed phys bytes off ptrs [] = Unit {0}
Placed phys bytes off [] (arg ∷ args) = false ≡ true
Placed phys bytes off (ptr ∷ ptrs) (arg ∷ args) =
    (stack_base + off ≤ ptr)
    × (fetch (phys + (ptr - stack_base)) (length arg + 1) bytes ≡ arg ++ 0 ∷ [])
    × Placed phys bytes off ptrs args

-- A write below leaves the arguments.
Placed-store :
    (phys off off' : ℕ) (bytes : ℕ → ℕ) (vs ptrs : List ℕ) (args : List (List ℕ))
    → off' + length vs ≤ off
    → Placed phys bytes off ptrs args
    → Placed phys (store (phys + off') vs bytes) off' ptrs args
Placed-store phys off off' bytes vs ptrs [] h placed = tt
Placed-store phys off off' bytes vs [] (arg ∷ args) h placed = placed
Placed-store phys off off' bytes vs (ptr ∷ ptrs) (arg ∷ args) h (high, here, placed) = (
  omega (arith, high, h),
  fetch-store_high (phys + off') (length arg + 1) (phys + (ptr - stack_base)) vs bytes
        (omega (arith, high, h))
      ∙ here,
  Placed-store phys off off' bytes vs ptrs args h placed,
)

arguments_loop-Placed :
    (args done : List (List ℕ)) (phys : ℕ) (a : Area)
    → Room args a.str_off
    → a.str_off < 2 ^ 63
    → Placed phys a.bytes a.str_off a.ptrs done
    → let a' = arguments_loop args phys a in
      Placed phys a'.bytes a'.str_off a'.ptrs (reversed args done) × (a'.str_off < 2 ^ 63)
unfolding arguments_loop
arguments_loop-Placed [] done phys a room small placed = (placed, small)
arguments_loop-Placed (arg ∷ args) done phys a (fits, room) small placed =
    let off = (a.str_off - (length arg + 1)) / 8 * 8 in
    let e = down_eight a.str_off (length arg + 1) fits small in
    let len : length (arg ++ 0 ∷ []) ≡ length arg + 1 = length-append arg (0 ∷ []) in
    let a1 : Area = record {
      str_off = off;
      ptrs = (stack_base + off) ∷ a.ptrs;
      bytes = store (phys + off) (arg ++ 0 ∷ []) a.bytes;
    } in
    let at : phys + (stack_base + off - stack_base) ≡ phys + off = omega arith in
    let here : fetch (phys + (stack_base + off - stack_base)) (length arg + 1) a1.bytes
        ≡ arg ++ 0 ∷ [] =
      rw at (rw len at (fetch-store (phys + off) (arg ++ 0 ∷ []) a.bytes)) in
    let others =
      Placed-store phys a.str_off off a.bytes (arg ++ 0 ∷ []) a.ptrs done (omega (arith, len, fits))
        placed in
    rw (e, arguments_loop)
      (arguments_loop-Placed args (arg ∷ done) phys a1 room (omega (arith, small))
        (omega arith, here, others))

reversed-reversed :
    (xs ys zs : List (List ℕ)) → reversed (reversed xs ys) zs ≡ reversed ys (xs ++ zs)
reversed-reversed [] ys zs = refl
reversed-reversed (x ∷ xs) ys zs = reversed-reversed xs (x ∷ ys) zs

length-le_bytes : (w n : ℕ) → length (le_bytes w n) ≡ w
unfolding le_bytes
length-le_bytes zero n = refl
length-le_bytes (suc w) n = ap suc (length-le_bytes w (n / 256))

length-words_bytes : (ws : List ℕ) → length (words_bytes ws) ≡ length ws * 8
length-words_bytes [] = refl
length-words_bytes (w ∷ ws) = omega (
  arith,
  length-append (le_bytes 8 w) (words_bytes ws),
  length-le_bytes 8 w,
  length-words_bytes ws,
)

length-arguments_loop :
    (args : List (List ℕ)) (phys : ℕ) (a : Area)
    → length (arguments_loop args phys a).ptrs ≡ length args + length a.ptrs
unfolding arguments_loop
length-arguments_loop [] phys a = omega arith
length-arguments_loop (arg ∷ args) phys a = omega (
  arith,
  length-arguments_loop args phys (record {
    str_off = down 0xfffffffffffffff8 a.str_off (length arg + 1);
    ptrs = (stack_base + down 0xfffffffffffffff8 a.str_off (length arg + 1)) ∷ a.ptrs;
    bytes =
        store (phys + down 0xfffffffffffffff8 a.str_off (length arg + 1)) (arg ++ 0 ∷ []) a.bytes;
  }),
)

length-reversed : (xs ys : List (List ℕ)) → length (reversed xs ys) ≡ length xs + length ys
length-reversed [] ys = omega arith
length-reversed (x ∷ xs) ys = omega (arith, length-reversed xs (x ∷ ys))

-- What the loop over the arguments leaves on a stack at `phys`.
abbrev pub laid : List (List ℕ) → ℕ → (ℕ → ℕ) → Area
laid argv phys bytes =
    arguments_loop (reversed argv []) phys
      (record { str_off = 4 * 4096; ptrs = 0 ∷ []; bytes = bytes })

-- Where the arguments and the array of pointers fit into the four pages of the stack, each pointer of the
-- array leads to its argument, which ends with a terminator, and the array stands in memory below them
-- at a multiple of 16 of the stack.
pub arguments-Placed :
    (argv : List (List ℕ)) (phys : ℕ) (bytes : ℕ → ℕ)
    → Room (reversed argv []) (4 * 4096)
    → (length argv + 1) * 8 ≤ (laid argv phys bytes).str_off
    → let a = arguments argv phys bytes in
      Placed phys a.bytes a.str_off a.ptrs argv
      × (fetch (phys + a.str_off) (length (words_bytes a.ptrs)) a.bytes ≡ words_bytes a.ptrs)
      × (a.str_off % 16 ≡ 0)
unfolding arguments
arguments-Placed argv phys bytes room fits =
    let before =
      arguments_loop (reversed argv []) phys
        (record { str_off = 4 * 4096; ptrs = 0 ∷ []; bytes = bytes }) in
    let (placed, small) =
      arguments_loop-Placed (reversed argv []) [] phys
        (record { str_off = 4 * 4096; ptrs = 0 ∷ []; bytes = bytes }) room (omega arith) tt in
    let start : Area = record { str_off = 4 * 4096; ptrs = 0 ∷ []; bytes = bytes } in
    let sized : length (words_bytes before.ptrs) ≡ (length argv + 1) * 8 = omega (
      arith,
      length-words_bytes before.ptrs,
      length-arguments_loop (reversed argv []) phys start,
      length-reversed argv [],
    ) in
    let e = down_sixteen before.str_off ((length argv + 1) * 8) fits small in
    let off = (before.str_off - (length argv + 1) * 8) / 16 * 16 in
    let again : reversed (reversed argv []) [] ≡ argv =
      reversed-reversed argv [] [] ∙ append_nil argv in
    let placed' : Placed phys before.bytes before.str_off before.ptrs argv = rw again at (placed) in
    rw e (
      Placed-store phys before.str_off off before.bytes (words_bytes before.ptrs) before.ptrs argv
          (omega (arith, sized, fits)) placed',
      fetch-store (phys + off) (words_bytes before.ptrs) before.bytes,
      omega arith,
    )
