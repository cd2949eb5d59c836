-- ===== src/Mem/Move.antt =====
-- The moves of src/misc/mem.c, which copy downwards where the target lies above the source.
use mathlib.Core.Path.{subst}
use cobj_os.Prelude.{
  ℕ, zero, suc, ◌+◌, ◌-◌, ◌*◌, ◌/◌, ◌≤◌, ◌≡◌, refl, sym, ap, ◌∙◌, ◌⊎◌, inl, inr, ◌&&◌, ◌||◌, arith,
  ltb, leb, ◌==◌, Bool-cases,
}
use cobj_os.Mem.{
  Memory, copy_down, copy_down_unaligned, copy_down_words, copy_down_aligned, memmove, memmove32,
  memcpy32, Cursor, is_aligned,
}
use cobj_os.Mem.Copied.{
  copied, Bytes, copied_zero, copied_self, store-copied, store32-copied, copied-copied_down,
  Bytes-copied,
}
use cobj_os.Mem.Copy.{copy_up-copied, word_copy-copied}

copy_down-copied : (d s n : ℕ) (m : Memory) → s ≤ d → copy_down (d + n) (s + n) n m ≡ copied d s n m
unfolding copy_down
copy_down-copied d s zero m low = sym (copied_zero d s m)
copy_down-copied d s (suc n) m low =
    let to : d + suc n - 1 ≡ d + n = omega arith in
    let from : s + suc n - 1 ≡ s + n = omega arith in
    let size : n + 1 ≡ suc n = omega arith in
    rw (to, from, store-copied (d + n) (s + n) m)
      (copy_down-copied d s n (copied (d + n) (s + n) 1 m) low
        ∙ copied-copied_down d s n 1 m low
        ∙ ap (λ i. copied d s i m) size)

-- A cursor of a downward copy of `n` bytes: the upper ones are done, `left` are left.
record IsDown (d s n : ℕ) (m : Memory) (k : Cursor) : Type 0 where
  pub done : ℕ
  pub count : k.left + done ≡ n
  pub to : k.to ≡ d + k.left
  pub from : k.from ≡ s + k.left
  pub mem : k.mem ≡ copied (d + k.left) (s + k.left) done m

copy_down_unaligned-IsDown :
    (d s n done : ℕ) (m mem : Memory)
    → s ≤ d
    → mem ≡ copied (d + n) (s + n) done m
    → IsDown d s (n + done) m (copy_down_unaligned (d + n) (s + n) n mem)
unfolding copy_down_unaligned
copy_down_unaligned-IsDown d s zero done m mem low e = record {
  done = done;
  count = refl;
  to = refl;
  from = refl;
  mem = e;
}
copy_down_unaligned-IsDown d s (suc n) done m mem low e =
    elim (Bool-cases (is_aligned (d + suc n))) [
      | inl stop ↦ rw stop (record { done = done; count = refl; to = refl; from = refl; mem = e })
      | inr go ↦
          let to : d + suc n - 1 ≡ d + n = omega arith in
          let from : s + suc n - 1 ≡ s + n = omega arith in
          let to' : d + suc n ≡ d + n + 1 = omega arith in
          let from' : s + suc n ≡ s + n + 1 = omega arith in
          let size : n + (1 + done) ≡ suc n + done = omega arith in
          let shifted : mem ≡ copied (d + n + 1) (s + n + 1) done m = rw (to', from') at e in
          let step : copied (d + n) (s + n) 1 mem ≡ copied (d + n) (s + n) (1 + done) m =
            ap (copied (d + n) (s + n) 1) shifted
            ∙ copied-copied_down (d + n) (s + n) 1 done m (omega arith) in
          rw (go, to, from, store-copied (d + n) (s + n) mem)
            (subst
              (λ i.
                IsDown d s i m
                  (copy_down_unaligned (d + n) (s + n) n (copied (d + n) (s + n) 1 mem)))
              size
              (copy_down_unaligned-IsDown d s n (1 + done) m (copied (d + n) (s + n) 1 mem) low
                step))
    ]

copy_down_words-copied :
    (d s w : ℕ) (m : Memory)
    → Bytes m
    → s ≤ d
    → copy_down_words (d + w * 4) (s + w * 4) w m ≡ copied d s (w * 4) m
unfolding copy_down_words
copy_down_words-copied d s zero m bytes low = sym (copied_zero d s m)
copy_down_words-copied d s (suc w) m bytes low =
    let to : d + suc w * 4 - 4 ≡ d + w * 4 = omega arith in
    let from : s + suc w * 4 - 4 ≡ s + w * 4 = omega arith in
    let size : w * 4 + 4 ≡ suc w * 4 = omega arith in
    rw (to, from, store32-copied (d + w * 4) (s + w * 4) m bytes)
      (copy_down_words-copied d s w (copied (d + w * 4) (s + w * 4) 4 m)
          (Bytes-copied (d + w * 4) (s + w * 4) 4 m bytes) low
        ∙ copied-copied_down d s (w * 4) 4 m low
        ∙ ap (λ i. copied d s i m) size)

copy_down_aligned-IsDown :
    (d s n : ℕ) (m : Memory) (k : Cursor)
    → Bytes m
    → s ≤ d
    → IsDown d s n m k
    → IsDown d s n m (copy_down_aligned k)
unfolding copy_down_aligned
copy_down_aligned-IsDown d s n m k bytes low down =
    elim (Bool-cases (leb 4 k.left && is_aligned k.from)) [
      | inr e ↦ rw e down
      | inl e ↦
          let words = k.left / 4 in
          let rest = k.left - words * 4 in
          let to : d + k.left ≡ d + rest + words * 4 = omega arith in
          let from : s + k.left ≡ s + rest + words * 4 = omega arith in
          rw e (record {
            done = words * 4 + down.done;
            count = omega (arith, down.count);
            to = omega (arith, down.to);
            from = omega (arith, down.from);
            mem =
                rw (down.mem, down.to, down.from, to, from)
                  (copy_down_words-copied (d + rest) (s + rest) words
                      (copied (d + rest + words * 4) (s + rest + words * 4) (down.done) m)
                      (Bytes-copied _ _ (down.done) m bytes) (omega arith)
                    ∙ copied-copied_down (d + rest) (s + rest) (words * 4) (down.done) m
                        (omega arith));
          })
    ]

finish :
    (d s n : ℕ) (m : Memory) (k : Cursor)
    → s ≤ d
    → IsDown d s n m k
    → copy_down k.to k.from k.left k.mem ≡ copied d s n m
finish d s n m k low down =
    rw (down.mem, down.to, down.from)
      (copy_down-copied d s k.left (copied (d + k.left) (s + k.left) (down.done) m) low
        ∙ copied-copied_down d s k.left (down.done) m low
        ∙ ap (λ i. copied d s i m) (down.count))

memmove-copied : (d s n : ℕ) (m : Memory) → memmove d s n m ≡ copied d s n m
unfolding memmove
memmove-copied d s n m = elim (Bool-cases (ltb d s)) [
  | inl e ↦ rw e (copy_up-copied d s n m (inl (ground (arith, e))))
  | inr e ↦ rw e (copy_down-copied d s n m (ground (arith, e)))
]

word_move_down :
    (d s n : ℕ) (m : Memory)
    → Bytes m
    → s ≤ d
    → (let k = copy_down_aligned (copy_down_unaligned (d + n) (s + n) n m) in
        copy_down k.to k.from k.left k.mem)
      ≡ copied d s n m
word_move_down d s n m bytes low =
    let size : n + 0 ≡ n = omega arith in
    let start =
      subst (λ i. IsDown d s i m (copy_down_unaligned (d + n) (s + n) n m)) size
        (copy_down_unaligned-IsDown d s n 0 m m low (sym (copied_zero (d + n) (s + n) m))) in
    finish d s n m _ low
      (copy_down_aligned-IsDown d s n m (copy_down_unaligned (d + n) (s + n) n m) bytes low start)

memmove32-copied : (d s n : ℕ) (m : Memory) → Bytes m → memmove32 d s n m ≡ copied d s n m
unfolding memmove32 memcpy32
memmove32-copied d s n m bytes = elim (Bool-cases (d == s || n == 0)) [
  | inl e ↦ rw e (trivial (ground (arith, e)))
  | inr e ↦ elim (Bool-cases (ltb d s)) [
    | inl lt ↦ rw (e, lt) (word_copy-copied d s n m bytes (inl (ground (arith, lt))))
    | inr ge ↦ rw (e, ge) (word_move_down d s n m bytes (ground (arith, ge)))
  ]
]
  where
    trivial : (d ≡ s) ⊎ (n ≡ 0) → m ≡ copied d s n m
    trivial (inl same) = rw same (sym (copied_self s n m))
    trivial (inr none) = rw none (sym (copied_zero d s m))

-- Both routines move the bytes of the source as they were before the call, however the two ranges
-- overlap and whatever their alignment, and change no other byte.
pub memmove32-memmove :
    (d s n : ℕ) (m : Memory)
    → Bytes m
    → (memmove d s n m ≡ copied d s n m) × (memmove32 d s n m ≡ memmove d s n m)
memmove32-memmove d s n m bytes =
    (memmove-copied d s n m, memmove32-copied d s n m bytes ∙ sym (memmove-copied d s n m))
