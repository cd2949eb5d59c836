-- ===== src/Mem/Copied.antt =====
-- What a copy of src/misc/mem.c comes to, written without a loop, and how two copies compose.
use std.Path.{fun_ext}
use cobj_os.Prelude.{
  ℕ, zero, suc, ◌+◌, ◌-◌, ◌*◌, ◌/◌, ◌%◌, ◌^◌, ◌≤◌, ◌<◌, ◌≡◌, refl, sym, ap, ◌∙◌, ◌⊎◌, inl, inr,
  ◌&&◌, arith, ltb, leb, ◌==◌, if◌then◌else◌, Bool-cases,
}
use cobj_os.Mem.{Memory, store, load32, store32}

-- The `n` bytes at `d` are those that were at `s`, and the others are kept.
abbrev pub copied : ℕ → ℕ → ℕ → Memory → Memory
copied d s n m = λ x. if leb d x && ltb x (d + n) then m (s + x - d) else m x

-- Every cell holds a byte.
abbrev pub Bytes : Memory → Type 0
Bytes m = (a : ℕ) → m a < 256

-- A copy of `n` bytes that goes upwards does not overtake its own source.
abbrev pub SafeUp : ℕ → ℕ → ℕ → Type 0
SafeUp d s n = (d ≤ s) ⊎ (s + n ≤ d)

pub copied_zero : (d s : ℕ) (m : Memory) → copied d s 0 m ≡ m
copied_zero d s m = fun_ext (λ x. ground arith)

pub store-copied : (d s : ℕ) (m : Memory) → store d (m s) m ≡ copied d s 1 m
store-copied d s m = fun_ext (λ x. elim (Bool-cases (x == d)) [
  | inl e ↦
      let at : x ≡ d = ground (arith, e) in
      let from : s + d - d ≡ s = omega arith in rw (at, from) (ground arith)
  | inr e ↦ ground (arith, e)
])

copied-inside : (d s n x : ℕ) (m : Memory) → d ≤ x → x < d + n → copied d s n m x ≡ m (s + x - d)
copied-inside d s n x m h h' = ground (arith, h, h')

copied-outside : (d s n x : ℕ) (m : Memory) → (x < d) ⊎ (d + n ≤ x) → copied d s n m x ≡ m x
copied-outside d s n x m h = ground (arith, h)

-- The byte of a stored word at each of its four addresses.
store32-at :
    (d v x : ℕ) (m : Memory)
    → store32 d v m x ≡ (
        if x == d + 3
        then v / 2 ^ 24 % 2 ^ 8
        else if x == d + 2
        then v / 2 ^ 16 % 2 ^ 8
        else if x == d + 1
        then v / 2 ^ 8 % 2 ^ 8
        else if x == d
        then v % 2 ^ 8
        else m x)
store32-at d v x m = refl

pub which : (d x : ℕ) → ((x < d) ⊎ (d + 4 ≤ x)) ⊎ ((i : ℕ) × (i < 4) × (x ≡ d + i))
which d x = elim (Bool-cases (leb d x && ltb x (d + 4))) [
  | inl e ↦ inr (x - d, ground (arith, e), ground (arith, e))
  | inr e ↦ inl (ground (arith, e))
]

word_byte :
    (a b c e : ℕ)
    → a < 256
    → b < 256
    → c < 256
    → e < 256
    → ((a + b * 2 ^ 8 + c * 2 ^ 16 + e * 2 ^ 24) % 2 ^ 8 ≡ a)
      × ((a + b * 2 ^ 8 + c * 2 ^ 16 + e * 2 ^ 24) / 2 ^ 8 % 2 ^ 8 ≡ b)
      × ((a + b * 2 ^ 8 + c * 2 ^ 16 + e * 2 ^ 24) / 2 ^ 16 % 2 ^ 8 ≡ c)
      × ((a + b * 2 ^ 8 + c * 2 ^ 16 + e * 2 ^ 24) / 2 ^ 24 % 2 ^ 8 ≡ e)
word_byte a b c e ha hb hc he = (omega arith, omega arith, omega arith, omega arith)

store32-outside : (d v x : ℕ) (m : Memory) → (x < d) ⊎ (d + 4 ≤ x) → store32 d v m x ≡ m x
store32-outside d v x m h = ground (arith, h)

store32-inside :
    (d s i : ℕ) (m : Memory) → Bytes m → i < 4 → store32 d (load32 s m) m (d + i) ≡ m (s + i)
store32-inside d s zero m bytes lt = ground (
  arith,
  word_byte (m s) (m (s + 1)) (m (s + 2)) (m (s + 3)) (bytes _) (bytes _) (bytes _) (bytes _),
)
store32-inside d s (suc zero) m bytes lt = ground (
  arith,
  word_byte (m s) (m (s + 1)) (m (s + 2)) (m (s + 3)) (bytes _) (bytes _) (bytes _) (bytes _),
)
store32-inside d s (suc (suc zero)) m bytes lt = ground (
  arith,
  word_byte (m s) (m (s + 1)) (m (s + 2)) (m (s + 3)) (bytes _) (bytes _) (bytes _) (bytes _),
)
store32-inside d s (suc (suc (suc zero))) m bytes lt = ground (
  arith,
  word_byte (m s) (m (s + 1)) (m (s + 2)) (m (s + 3)) (bytes _) (bytes _) (bytes _) (bytes _),
)
store32-inside d s (suc (suc (suc (suc i)))) m bytes lt = absurd (omega arith)

-- A word that is loaded and stored is four bytes copied at once, so the two may overlap.
pub store32-copied : (d s : ℕ) (m : Memory) → Bytes m → store32 d (load32 s m) m ≡ copied d s 4 m
store32-copied d s m bytes = fun_ext (λ x. elim (which d x) [
  | inl out ↦ store32-outside d (load32 s m) x m out ∙ sym (copied-outside d s 4 x m out)
  | inr (i, lt, e) ↦
      let from : s + (d + i) - d ≡ s + i = omega arith in
      rw
        (
          e,
          store32-inside d s i m bytes lt,
          copied-inside d s 4 (d + i) m (omega arith) (omega arith),
          from,
        )
        refl
])

pub copied-copied_up :
    (d s k j : ℕ) (m : Memory)
    → SafeUp d s (k + j)
    → copied (d + k) (s + k) j (copied d s k m) ≡ copied d s (k + j) m
copied-copied_up d s k j m safe = fun_ext (λ x.
    elim (Bool-cases (leb (d + k) x && ltb x (d + k + j))) [
      | inl e ↦
          let from : s + k + x - (d + k) ≡ s + x - d = omega arith in
          let late : (d + k ≤ x) × (x < d + k + j) = ground (arith, e) in
          let apart : (s + x - d < d) ⊎ (d + k ≤ s + x - d) = ground (arith, safe, late) in
          rw
            (
              copied-inside (d + k) (s + k) j x (copied d s k m) (late.0) (late.1),
              from,
              copied-outside d s k (s + x - d) m apart,
              copied-inside d s (k + j) x m (omega (arith, late)) (omega (arith, late)),
            )
            refl
      | inr e ↦
          let out : (x < d + k) ⊎ (d + k + j ≤ x) = ground (arith, e) in
          copied-outside (d + k) (s + k) j x (copied d s k m) out ∙ (ground (arith, out))
    ])

pub copied-step_up :
    (d s n : ℕ) (m : Memory)
    → SafeUp d s (suc n)
    → copied (d + 1) (s + 1) n (copied d s 1 m) ≡ copied d s (suc n) m
copied-step_up d s n m safe =
    let next : 1 + n ≡ suc n = omega arith in
    copied-copied_up d s 1 n m (rw next safe) ∙ ap (λ i. copied d s i m) next

pub copied-copied_down :
    (d s j k : ℕ) (m : Memory)
    → s ≤ d
    → copied d s j (copied (d + j) (s + j) k m) ≡ copied d s (j + k) m
copied-copied_down d s j k m low = fun_ext (λ x. elim (Bool-cases (leb d x && ltb x (d + j))) [
  | inl e ↦
      let at : (d ≤ x) × (x < d + j) = ground (arith, e) in
      rw
        (
          copied-inside d s j x (copied (d + j) (s + j) k m) (at.0) (at.1),
          copied-outside (d + j) (s + j) k (s + x - d) m (inl (omega (arith, at))),
          copied-inside d s (j + k) x m (omega (arith, at)) (omega (arith, at)),
        )
        refl
  | inr e ↦
      let out : (x < d) ⊎ (d + j ≤ x) = ground (arith, e) in
      let from : s + j + x - (d + j) ≡ s + x - d = omega arith in
      copied-outside d s j x (copied (d + j) (s + j) k m) out ∙ rw from (ground (arith, out))
])

pub copied_self : (d n : ℕ) (m : Memory) → copied d d n m ≡ m
copied_self d n m = fun_ext (λ x. elim (Bool-cases (leb d x && ltb x (d + n))) [
  | inl e ↦ let same : d + x - d ≡ x = omega arith in rw (e, same) refl
  | inr e ↦ rw e refl
])

pub Bytes-copied : (d s n : ℕ) (m : Memory) → Bytes m → Bytes (copied d s n m)
Bytes-copied d s n m bytes x = elim (Bool-cases (leb d x && ltb x (d + n))) [
  | inl e ↦ rw e (bytes (s + x - d))
  | inr e ↦ rw e (bytes x)
]
