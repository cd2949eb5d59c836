-- ===== src/Mem/Copy.antt =====
-- The upward copies of src/misc/mem.c: byte by byte, and with whole words in the middle.
use cobj_os.Prelude.{
  ℕ, zero, suc, ◌+◌, ◌*◌, ◌/◌, ◌≡◌, sym, ap, ◌∙◌, inl, inr, ◌&&◌, arith, leb, Bool-cases,
}
use cobj_os.Mem.{
  Memory, copy_up, copy_up_unaligned, copy_up_words, copy_up_aligned, memcpy, memcpy32, Cursor,
  is_aligned,
}
use cobj_os.Mem.Copied.{
  copied, Bytes, SafeUp, copied_zero, store-copied, store32-copied, copied-copied_up,
  copied-step_up, Bytes-copied,
}

shorter : (d s n : ℕ) → SafeUp d s (suc n) → SafeUp (d + 1) (s + 1) n
shorter d s n safe = ground (arith, safe)

pub copy_up-copied : (d s n : ℕ) (m : Memory) → SafeUp d s n → copy_up d s n m ≡ copied d s n m
unfolding copy_up
copy_up-copied d s zero m safe = sym (copied_zero d s m)
copy_up-copied d s (suc n) m safe = rw (store-copied d s m) (
    copy_up-copied (d + 1) (s + 1) n (copied d s 1 m) (shorter d s n safe)
    ∙ copied-step_up d s n m safe)

-- What a cursor of an upward copy of `n` bytes has still to do is the rest of the copy.
record IsUp (d s n : ℕ) (m : Memory) (k : Cursor) : Type 0 where
  pub done : ℕ
  pub count : done + k.left ≡ n
  pub to : k.to ≡ d + done
  pub from : k.from ≡ s + done
  pub mem : k.mem ≡ copied d s done m

start : (d s n : ℕ) (m : Memory) → IsUp d s n m (record { to = d; from = s; left = n; mem = m })
start d s n m = record {
  done = 0;
  count = omega arith;
  to = omega arith;
  from = omega arith;
  mem = sym (copied_zero d s m);
}

copy_up_unaligned-IsUp :
    (d s n : ℕ) (m : Memory) → SafeUp d s n → IsUp d s n m (copy_up_unaligned d s n m)
unfolding copy_up_unaligned
copy_up_unaligned-IsUp d s zero m safe = start d s 0 m
copy_up_unaligned-IsUp d s (suc n) m safe = elim (Bool-cases (is_aligned d)) [
  | inl e ↦ rw e (start d s (suc n) m)
  | inr e ↦
      let rest = copy_up_unaligned-IsUp (d + 1) (s + 1) n (copied d s 1 m) (shorter d s n safe) in
      rw (e, store-copied d s m)
        (record {
          done = suc (rest.done);
          count = omega (arith, rest.count);
          to = omega (arith, rest.to);
          from = omega (arith, rest.from);
          mem = rest.mem ∙ copied-step_up d s (rest.done) m (ground (arith, rest.count, safe));
        })
]

copy_up_words-copied :
    (d s w : ℕ) (m : Memory)
    → Bytes m
    → SafeUp d s (w * 4)
    → copy_up_words d s w m ≡ copied d s (w * 4) m
unfolding copy_up_words
copy_up_words-copied d s zero m bytes safe = sym (copied_zero d s m)
copy_up_words-copied d s (suc w) m bytes safe =
    let split : suc w * 4 ≡ 4 + w * 4 = omega arith in
    rw (store32-copied d s m bytes, split)
      (copy_up_words-copied (d + 4) (s + 4) w (copied d s 4 m) (Bytes-copied d s 4 m bytes)
          (ground (arith, safe))
        ∙ copied-copied_up d s 4 (w * 4) m (ground (arith, safe)))

copy_up_aligned-IsUp :
    (d s n : ℕ) (m : Memory) (k : Cursor)
    → Bytes m
    → SafeUp d s n
    → IsUp d s n m k
    → IsUp d s n m (copy_up_aligned k)
unfolding copy_up_aligned
copy_up_aligned-IsUp d s n m k bytes safe up =
    elim (Bool-cases (leb 4 k.left && is_aligned k.from)) [
      | inr e ↦ rw e up
      | inl e ↦
          let words = k.left / 4 in
          rw e (record {
            done = up.done + words * 4;
            count = omega (arith, up.count);
            to = omega (arith, up.to);
            from = omega (arith, up.from);
            mem =
                rw (up.mem, up.to, up.from)
                  (copy_up_words-copied (d + up.done) (s + up.done) words (copied d s (up.done) m)
                      (Bytes-copied d s (up.done) m bytes) (ground (arith, safe, up.count))
                    ∙ copied-copied_up d s (up.done) (words * 4) m
                        (ground (arith, safe, up.count)));
          })
    ]

finish :
    (d s n : ℕ) (m : Memory) (k : Cursor)
    → SafeUp d s n
    → IsUp d s n m k
    → copy_up k.to k.from k.left k.mem ≡ copied d s n m
finish d s n m k safe up =
    rw (up.mem, up.to, up.from)
      (copy_up-copied (d + up.done) (s + up.done) k.left (copied d s (up.done) m)
          (ground (arith, safe, up.count))
        ∙ copied-copied_up d s (up.done) k.left m (ground (arith, safe, up.count))
        ∙ ap (λ i. copied d s i m) (up.count))

pub word_copy-copied :
    (d s n : ℕ) (m : Memory) → Bytes m → SafeUp d s n → memcpy32 d s n m ≡ copied d s n m
unfolding memcpy32
word_copy-copied d s n m bytes safe =
    let up = copy_up_unaligned-IsUp d s n m safe in
    finish d s n m (copy_up_aligned (copy_up_unaligned d s n m)) safe
      (copy_up_aligned-IsUp d s n m (copy_up_unaligned d s n m) bytes safe up)

-- Where source and target do not overlap, or the target lies below, both routines write the bytes of
-- the source, at any alignment.
pub memcpy32-memcpy :
    (d s n : ℕ) (m : Memory)
    → Bytes m
    → SafeUp d s n
    → (memcpy d s n m ≡ copied d s n m) × (memcpy32 d s n m ≡ memcpy d s n m)
unfolding memcpy
memcpy32-memcpy d s n m bytes safe =
    let plain = copy_up-copied d s n m safe in
    (plain, word_copy-copied d s n m bytes safe ∙ sym plain)
