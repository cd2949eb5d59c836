-- ===== src/Process/Examples.antt =====
-- The arguments of a small program on the stack that src/multi/process.c makes.
use cobj_os.Prelude.{ℕ, ◌+◌, ◌-◌, ◌*◌, ◌%◌, ◌≡◌, refl, List, [], ◌∷◌, arith, length}
use cobj_os.Memory.{fetch}
use cobj_os.Process.{down, arguments_loop, arguments, words_bytes, stack_base}
use cobj_os.Process.Arguments.{Placed, arguments-Placed}

-- "ls" and "0:/bin"
abbrev argv : List (List ℕ)
argv = (b'l' ∷ b's' ∷ []) ∷ (b'0' ∷ b':' ∷ b'/' ∷ b'b' ∷ b'i' ∷ b'n' ∷ []) ∷ []

arguments_runs :
    ((arguments argv 0x20000 (λ b. 9)).str_off ≡ 4 * 4096 - 48)
    × ((arguments argv 0x20000 (λ b. 9)).ptrs
        ≡ (stack_base + (4 * 4096 - 16)) ∷ (stack_base + (4 * 4096 - 8)) ∷ 0 ∷ [])
unfolding arguments arguments_loop down
arguments_runs = (refl, refl)

arguments-Placed_example :
    let a = arguments argv 0x20000 (λ b. 9) in
    Placed 0x20000 a.bytes a.str_off a.ptrs argv
    × (fetch (0x20000 + a.str_off) (length (words_bytes a.ptrs)) a.bytes ≡ words_bytes a.ptrs)
    × (a.str_off % 16 ≡ 0)
unfolding arguments_loop down
arguments-Placed_example =
    arguments-Placed argv 0x20000 (λ b. 9) (omega arith, (omega arith, tt)) (omega arith)
