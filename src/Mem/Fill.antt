-- ===== src/Mem/Fill.antt =====
-- Filling memory in src/misc/mem.c: byte by byte, and with whole words in the middle.
use std.Path.{fun_ext}
use cobj_os.Prelude.{
  ℕ, zero, suc, ◌+◌, ◌-◌, ◌*◌, ◌/◌, ◌%◌, ◌^◌, ◌≡◌, refl, sym, ap, ◌∙◌, inl, inr, true, ◌&&◌, arith,
  ltb, leb, ◌==◌, if◌then◌else◌, Bool-cases, every_below, every_below_sound,
}
use cobj_os.Mem.{
  Memory, store, store32, memset, memset32, fill_unaligned, fill_words, word_of, Cursor, is_aligned,
}

-- The `n` bytes at `p` are `c` modulo 256, and the others are kept.
abbrev pub filled : ℕ → ℕ → ℕ → Memory → Memory
filled p c n m = λ x. if leb p x && ltb x (p + n) then c % 2 ^ 8 else m x

filled_zero : (p c : ℕ) (m : Memory) → filled p c 0 m ≡ m
filled_zero p c m = fun_ext (λ x. ground arith)

store-filled : (p c : ℕ) (m : Memory) → store p (c % 2 ^ 8) m ≡ filled p c 1 m
store-filled p c m = fun_ext (λ x. ground arith)

filled-filled :
    (p c k j : ℕ) (m : Memory) → filled (p + k) c j (filled p c k m) ≡ filled p c (k + j) m
filled-filled p c k j m = fun_ext (λ x. ground arith)

word_table :
    every_below 256 (λ b.
      word_of b % 2 ^ 8 == b
      && word_of b / 2 ^ 8 % 2 ^ 8 == b
      && word_of b / 2 ^ 16 % 2 ^ 8 == b
      && word_of b / 2 ^ 24 % 2 ^ 8 == b)
    ≡ true
unfolding every_below word_of
word_table = refl

word_of-mod : (c : ℕ) → word_of (c % 2 ^ 8) ≡ word_of c
unfolding word_of
word_of-mod c = let same : c % 2 ^ 8 % 2 ^ 8 ≡ c % 2 ^ 8 = omega arith in rw same refl

word_of-bytes :
    (c : ℕ)
    → (word_of c % 2 ^ 8 ≡ c % 2 ^ 8)
      × (word_of c / 2 ^ 8 % 2 ^ 8 ≡ c % 2 ^ 8)
      × (word_of c / 2 ^ 16 % 2 ^ 8 ≡ c % 2 ^ 8)
      × (word_of c / 2 ^ 24 % 2 ^ 8 ≡ c % 2 ^ 8)
word_of-bytes c =
    let row = every_below_sound 256 _ (c % 2 ^ 8) word_table (omega arith) in
    rw (sym (word_of-mod c)) (ground (arith, row))

store32-same :
    (p w b x : ℕ) (m : Memory)
    → w % 2 ^ 8 ≡ b
    → w / 2 ^ 8 % 2 ^ 8 ≡ b
    → w / 2 ^ 16 % 2 ^ 8 ≡ b
    → w / 2 ^ 24 % 2 ^ 8 ≡ b
    → store32 p w m x ≡ (if leb p x && ltb x (p + 4) then b else m x)
store32-same p w b x m e f g h = rw (e, f, g, h) (ground arith)

store32-filled : (p c : ℕ) (m : Memory) → store32 p (word_of c) m ≡ filled p c 4 m
store32-filled p c m =
    fun_ext (λ x.
      let (e, f, g, h) = word_of-bytes c in store32-same p (word_of c) (c % 2 ^ 8) x m e f g h)

memset-filled : (p c n : ℕ) (m : Memory) → memset p c n m ≡ filled p c n m
unfolding memset
memset-filled p c zero m = sym (filled_zero p c m)
memset-filled p c (suc n) m =
    let size : 1 + n ≡ suc n = omega arith in
    rw (store-filled p c m) (
      memset-filled (p + 1) c n (filled p c 1 m)
      ∙ filled-filled p c 1 n m
      ∙ ap (λ i. filled p c i m) size)

fill_words-filled : (p c w : ℕ) (m : Memory) → fill_words p (word_of c) w m ≡ filled p c (w * 4) m
unfolding fill_words
fill_words-filled p c zero m = sym (filled_zero p c m)
fill_words-filled p c (suc w) m =
    let size : 4 + w * 4 ≡ suc w * 4 = omega arith in
    rw (store32-filled p c m) (
      fill_words-filled (p + 4) c w (filled p c 4 m)
      ∙ filled-filled p c 4 (w * 4) m
      ∙ ap (λ i. filled p c i m) size)

fill_unaligned-filled :
    (p c n : ℕ) (m : Memory)
    → (done : ℕ) × (done + (fill_unaligned p c n m).left ≡ n)
      × ((fill_unaligned p c n m).to ≡ p + done)
      × ((fill_unaligned p c n m).mem ≡ filled p c done m)
unfolding fill_unaligned
fill_unaligned-filled p c zero m = (0, refl, omega arith, sym (filled_zero p c m))
fill_unaligned-filled p c (suc n) m = elim (Bool-cases (is_aligned p)) [
  | inl e ↦ rw e (0, omega arith, omega arith, sym (filled_zero p c m))
  | inr e ↦
      let (done, count, to, mem) = fill_unaligned-filled (p + 1) c n (filled p c 1 m) in
      let size : 1 + done ≡ suc done = omega arith in
      rw (e, store-filled p c m)
        (
          suc done,
          omega (arith, count),
          omega (arith, to),
          mem ∙ filled-filled p c 1 done m ∙ ap (λ i. filled p c i m) size,
        )
]

finish :
    (p c n done : ℕ) (m : Memory) (k : Cursor)
    → done + k.left ≡ n
    → k.to ≡ p + done
    → k.mem ≡ filled p c done m
    → memset
        (k.to + k.left / 4 * 4)
        c
        (k.left - k.left / 4 * 4)
        (fill_words k.to (word_of c) (k.left / 4) k.mem)
      ≡ filled p c n m
finish p c n done m k count to mem =
    let words = k.left / 4 in
    let place : p + done + words * 4 ≡ p + (done + words * 4) = omega arith in
    let size : done + words * 4 + (k.left - words * 4) ≡ n = omega arith in
    rw
      (
        mem,
        to,
        fill_words-filled (p + done) c words (filled p c done m),
        filled-filled p c done (words * 4) m,
        place,
      )
      (memset-filled (p + (done + words * 4)) c (k.left - words * 4)
          (filled p c (done + words * 4) m)
        ∙ filled-filled p c (done + words * 4) (k.left - words * 4) m
        ∙ ap (λ i. filled p c i m) size)

-- Both routines set the range to the byte, whatever its alignment, and change no other byte.
pub memset32-memset :
    (p c n : ℕ) (m : Memory)
    → (memset p c n m ≡ filled p c n m) × (memset32 p c n m ≡ memset p c n m)
unfolding memset32
memset32-memset p c n m =
    let plain = memset-filled p c n m in
    let (done, count, to, mem) = fill_unaligned-filled p c n m in
    (plain, finish p c n done m (fill_unaligned p c n m) count to mem ∙ sym plain)
