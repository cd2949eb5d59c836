-- ===== src/Memory.antt =====
-- The bytes of physical memory beside the tables of src/mm/vmm.c, and what `memset` and `memcpy` of
-- src/misc/mem.c do to them where a frame is reached through `hhdm_offset`.
use cobj_os.Prelude.{
  ℕ, zero, suc, ◌+◌, ◌-◌, Bool, ◌&&◌, List, [], ◌∷◌, ltb, leb, ◌==◌, if◌then◌else◌,
}
use cobj_os.Vmm.{Tables}

pub record Memory : Type 0 where
  pub tables : Tables
  pub bytes : ℕ → ℕ

abbrev pub inside : ℕ → ℕ → ℕ → Bool
inside a n b = leb a b && ltb b (a + n)

unfoldable pub fill_zero : ℕ → ℕ → (ℕ → ℕ) → ℕ → ℕ
fill_zero a n bytes = λ b. if inside a n b then 0 else bytes b

-- `n` bytes from `offset` of `data` on.
unfoldable pub copy_in : ℕ → (ℕ → ℕ) → ℕ → ℕ → (ℕ → ℕ) → ℕ → ℕ
copy_in a data' offset n bytes = λ b. if inside a n b then data' (offset + (b - a)) else bytes b

unfoldable pub store : ℕ → List ℕ → (ℕ → ℕ) → ℕ → ℕ
store a [] bytes = bytes
store a (v ∷ vs) bytes = store (a + 1) vs (λ b. if b == a then v else bytes b)

unfoldable pub fetch : ℕ → ℕ → (ℕ → ℕ) → List ℕ
fetch a zero bytes = []
fetch a (suc n) bytes = bytes a ∷ fetch (a + 1) n bytes
