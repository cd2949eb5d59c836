-- ===== src/Mem/Compare.antt =====
-- The comparisons of src/misc/mem.c: byte by byte, and with whole words where both are aligned.
use cobj_os.Prelude.{
  ℕ, zero, suc, ◌+◌, ◌-◌, ◌*◌, ◌/◌, ◌^◌, ◌<◌, ◌≡◌, ◌≢◌, refl, sym, ap, ◌∙◌, ◌⊎◌, inl, inr, Bool,
  true, false, not, ◌&&◌, arith, ◌==◌, if◌then◌else◌, Bool-cases,
}
use cobj_os.Prelude.Ints.{ℤ, pos, minus}
use cobj_os.Mem.{
  Memory, load32, memcmp, memcmp32, Comparing, same, differ, compare_unaligned, compare_words,
  compare_tail, compare_aligned, word_difference, is_aligned,
}
use cobj_os.Mem.Copied.{Bytes}

compare_unaligned-memcmp :
    (p q n : ℕ) (m : Memory) → compare_tail (compare_unaligned p q n m) m ≡ memcmp p q n m
unfolding compare_unaligned compare_tail memcmp
compare_unaligned-memcmp p q zero m = refl
compare_unaligned-memcmp p q (suc n) m = elim (Bool-cases (is_aligned p && is_aligned q)) [
  | inl stop ↦ rw stop refl
  | inr go ↦ elim (Bool-cases (m p == m q)) [
    | inl e ↦ rw (go, e) (compare_unaligned-memcmp (p + 1) (q + 1) n m)
    | inr e ↦ rw (go, e) refl
  ]
]

four_tests :
    (t u v w : Bool) (r d e f g : ℤ)
    → (if t then (if u then (if v then (if w then r else g) else f) else e) else d) ≡ (
        if t && u && v && w
        then r
        else if not t
        then d
        else if not u
        then e
        else if not v
        then f
        else g)
four_tests true true true true r d e f g = refl
four_tests true true true false r d e f g = refl
four_tests true true false w r d e f g = refl
four_tests true false v w r d e f g = refl
four_tests false u v w r d e f g = refl

-- Four bytes at once.
memcmp_4 :
    (p q n : ℕ) (m : Memory)
    → memcmp p q (suc (suc (suc (suc n)))) m ≡ (
        if m p == m q && m (p + 1) == m (q + 1) && m (p + 2) == m (q + 2) && m (p + 3) == m (q + 3)
        then memcmp (p + 4) (q + 4) n m
        else word_difference p q m)
unfolding memcmp word_difference
memcmp_4 p q n m =
    let p2 : p + 1 + 1 ≡ p + 2 = omega arith in
    let p3 : p + 2 + 1 ≡ p + 3 = omega arith in
    let p4 : p + 3 + 1 ≡ p + 4 = omega arith in
    let q2 : q + 1 + 1 ≡ q + 2 = omega arith in
    let q3 : q + 2 + 1 ≡ q + 3 = omega arith in
    let q4 : q + 3 + 1 ≡ q + 4 = omega arith in
    rw (p2, p3, p4, q2, q3, q4)
      (four_tests (m p == m q) (m (p + 1) == m (q + 1)) (m (p + 2) == m (q + 2))
        (m (p + 3) == m (q + 3)) (memcmp (p + 4) (q + 4) n m) (minus (m p) (m q))
        (minus (m (p + 1)) (m (q + 1))) (minus (m (p + 2)) (m (q + 2)))
        (minus (m (p + 3)) (m (q + 3))))

words_equal :
    (a b c d a' b' c' d' : ℕ)
    → a < 256
    → b < 256
    → c < 256
    → d < 256
    → a' < 256
    → b' < 256
    → c' < 256
    → d' < 256
    → (a + b * 2 ^ 8 + c * 2 ^ 16 + d * 2 ^ 24 == a' + b' * 2 ^ 8 + c' * 2 ^ 16 + d' * 2 ^ 24)
      ≡ (a == a' && b == b' && c == c' && d == d')
words_equal a b c d a' b' c' d' h1 h2 h3 h4 h5 h6 h7 h8 = ground arith

compare_words-memcmp :
    (p q w rest : ℕ) (m : Memory)
    → Bytes m
    → compare_tail (compare_words p q w rest m) m ≡ memcmp p q (w * 4 + rest) m
unfolding compare_words compare_tail memcmp
compare_words-memcmp p q zero rest m bytes = ap (λ i. memcmp p q i m) (omega arith)
compare_words-memcmp p q (suc w) rest m bytes =
    let size : suc w * 4 + rest ≡ suc (suc (suc (suc (w * 4 + rest)))) = omega arith in
    let same_words =
      words_equal (m p) (m (p + 1)) (m (p + 2)) (m (p + 3)) (m q) (m (q + 1)) (m (q + 2))
        (m (q + 3)) (bytes _) (bytes _) (bytes _) (bytes _) (bytes _) (bytes _) (bytes _)
        (bytes _) in
    rw (size, memcmp_4 p q (w * 4 + rest) m, sym same_words)
      (elim (Bool-cases (load32 p m == load32 q m)) [
        | inl e ↦ rw e (compare_words-memcmp (p + 4) (q + 4) w rest m bytes)
        | inr e ↦ rw e refl
      ])

-- The word-wise comparison gives the very result of the byte-wise one, at any alignment.
pub memcmp32-memcmp : (a b n : ℕ) (m : Memory) → Bytes m → memcmp32 a b n m ≡ memcmp a b n m
unfolding memcmp32 compare_tail
memcmp32-memcmp a b n m bytes = whole (compare_unaligned a b n m) ∙ compare_unaligned-memcmp a b n m
  where
    whole : (c : Comparing) → compare_aligned c m ≡ compare_tail c m
    whole (differ r) = refl
    whole (same p q k) =
        compare_words-memcmp p q (k / 4) (k - k / 4 * 4) m bytes
        ∙ ap (λ i. memcmp p q i m) {x = k / 4 * 4 + (k - k / 4 * 4)} (omega arith)

-- The two ranges hold the same bytes.
abbrev pub SameBytes : ℕ → ℕ → ℕ → Memory → Type 0
SameBytes a b n m = (i : ℕ) → i < n → m (a + i) ≡ m (b + i)

SameBytes-suc :
    (a b n : ℕ) (m : Memory) → m a ≡ m b → SameBytes (a + 1) (b + 1) n m → SameBytes a b (suc n) m
SameBytes-suc a b n m e rest zero lt =
    let a0 : a + 0 ≡ a = omega arith in let b0 : b + 0 ≡ b = omega arith in rw (a0, b0) e
SameBytes-suc a b n m e rest (suc i) lt =
    let next : a + suc i ≡ a + 1 + i = omega arith in
    let next' : b + suc i ≡ b + 1 + i = omega arith in rw (next, next') (rest i (omega arith))

-- What a comparison of `n` bytes answers: 0 for ranges that agree; else the difference of the bytes at
-- the first place where they differ.
memcmp-first_difference :
    (a b n : ℕ) (m : Memory)
    → (SameBytes a b n m × (memcmp a b n m ≡ pos 0))
      ⊎ ((i : ℕ) × (i < n)
          × SameBytes a b i m
          × (m (a + i) ≢ m (b + i))
          × (memcmp a b n m ≡ minus (m (a + i)) (m (b + i))))
unfolding memcmp
memcmp-first_difference a b zero m = inl (λ i lt. absurd (omega arith), refl)
memcmp-first_difference a b (suc n) m = elim (Bool-cases (m a == m b)) [
  | inr e ↦
      let a0 : a + 0 ≡ a = omega arith in
      let b0 : b + 0 ≡ b = omega arith in
      let apart : m a ≢ m b = ground (arith, e) in
      inr (0, omega arith, λ i lt. absurd (omega arith), rw (a0, b0) apart, rw (a0, b0, e) refl)
  | inl e ↦
      let first : m a ≡ m b = ground (arith, e) in
      elim (memcmp-first_difference (a + 1) (b + 1) n m) [
        | inl (agree, zero_result) ↦ inl (SameBytes-suc a b n m first agree, rw e zero_result)
        | inr (i, lt, agree, apart, value) ↦
            let next : a + suc i ≡ a + 1 + i = omega arith in
            let next' : b + suc i ≡ b + 1 + i = omega arith in
            inr (
              suc i,
              omega arith,
              SameBytes-suc a b i m first agree,
              rw (next, next') apart,
              rw (next, next', e) value,
            )
      ]
]
