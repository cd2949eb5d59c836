-- ===== src/Syscall/Copy/Bytes.antt =====
-- The copies of src/userspace/syscall.c against copies of one byte at a time.
use cobj_os.Prelude.{
  ℕ, zero, suc, ◌+◌, ◌-◌, ◌*◌, ◌/◌, ◌%◌, ◌^◌, ◌≤◌, ◌<◌, bit_and, ◌≡◌, refl, sym, ap, ◌∙◌, ◌⊎◌, inl,
  inr, Bool, true, false, Option, none, some, List, [], ◌∷◌, ◌++◌, arith, leb, ◌==◌, if◌then◌else◌,
  length, take, drop, Bool-cases, Option-cases, append_assoc, append_nil,
}
use cobj_os.Prelude.Outcome.{Outcome, ok, ◌>>=◌}
use cobj_os.Prelude.Bits.{align_down_page}
use cobj_os.Memory.{Memory, store, fetch}
use cobj_os.Vmm.{Tables, mapping_of, levels, pt_idx}
use cobj_os.Vmm.Tree.{look}
use cobj_os.Vmm.Walk.{indices}
use cobj_os.Vmm.Map.{get_mapping-look}
use cobj_os.Syscall.Copy.{
  user_space_top, allows, user_page, chunk_of, copy_to_loop, copy_to_user, copy_from_loop,
  copy_from_user,
}

-- The page of an address.
abbrev page : Bool → ℕ → ℕ → Tables → Outcome (Option ℕ)
page write space va m = user_page write space va (va / 4096 * 4096) m

-- One byte after the other; the first that may not be accessed ends the copy.
pub to_user_bytes : ℕ → ℕ → List ℕ → Tables → (ℕ → ℕ) → Outcome (Bool × (ℕ → ℕ))
to_user_bytes space dst [] m bytes = ok (true, bytes)
to_user_bytes space dst (c ∷ src) m bytes =
    user_page true space dst (dst / 4096 * 4096) m >>= λ found. elim found [
      | none ↦ ok (false, bytes)
      | some phys ↦
          to_user_bytes space (dst + 1) src m (λ b. if b == phys + dst % 4096 then c else bytes b)
    ]

pub from_user_bytes : ℕ → ℕ → ℕ → List ℕ → Tables → (ℕ → ℕ) → Outcome (Bool × List ℕ)
from_user_bytes space src zero dst m bytes = ok (true, dst)
from_user_bytes space src (suc len) dst m bytes =
    user_page false space src (src / 4096 * 4096) m >>= λ found. elim found [
      | none ↦ ok (false, dst)
      | some phys ↦
          from_user_bytes space (src + 1) len (dst ++ bytes (phys + src % 4096) ∷ []) m bytes
    ]

-- A page may be accessed or not; to find out does not fail.
user_page-cases :
    (write : Bool) (space va base : ℕ) (m : Tables)
    → (user_page write space va base m ≡ ok none)
      ⊎ ((phys : ℕ) × (user_page write space va base m ≡ ok (some phys)) × (va < user_space_top))
unfolding user_page
user_page-cases write space va base m =
    let found = get_mapping-look space base m in
    elim (Bool-cases (leb user_space_top va)) [
      | inl past ↦ inl (rw past refl)
      | inr below ↦
          let entry = look m.entries (indices (levels base)) space (pt_idx base) in
          elim (Option-cases (mapping_of entry)) [
            | inl gone ↦ inl (rw (below, found, gone) refl)
            | inr ((phys, flags), here) ↦ elim (Bool-cases (allows write flags)) [
              | inl good ↦ inr (phys, rw (below, found, here, good) refl, ground (arith, below))
              | inr bad ↦ inl (rw (below, found, here, bad) refl)
            ]
          ]
    ]

-- The answer is the same for the bytes of a page.
user_page-same :
    (write : Bool) (space va va' base : ℕ) (m : Tables)
    → va / 4096 ≡ va' / 4096
    → user_page write space va base m ≡ user_page write space va' base m
unfolding user_page
user_page-same write space va va' base m e =
    let same : leb user_space_top va ≡ leb user_space_top va' = ground (arith, e) in rw same refl

module _ (space : ℕ) (m : Tables) where
  to_user_page :
      (n dst phys : ℕ) (src : List ℕ) (bytes : ℕ → ℕ)
      → dst % 4096 + n ≤ 4096
      → n ≤ length src
      → page true space dst m ≡ ok (some phys)
      → to_user_bytes space dst src m bytes
        ≡ to_user_bytes space
            (dst + n)
            (drop n src)
            m
            (store (phys + dst % 4096) (take n src) bytes)
  unfolding to_user_bytes store
  to_user_page zero dst phys src bytes fits le found =
      let e : dst + 0 ≡ dst = omega arith in rw e refl
  to_user_page (suc n) dst phys [] bytes fits le found = absurd (omega arith)
  to_user_page (suc zero) dst phys (c ∷ src) bytes fits le found = rw (found, to_user_bytes) refl
  to_user_page (suc (suc n)) dst phys (c ∷ src) bytes fits le found =
      let q : dst / 4096 ≡ (dst + 1) / 4096 = omega (arith, fits) in
      let r : (dst + 1) % 4096 ≡ dst % 4096 + 1 = omega (arith, fits) in
      let found' : page true space (dst + 1) m ≡ ok (some phys) =
        ap (λ (t : ℕ). user_page true space (dst + 1) (t * 4096) m) (sym q)
        ∙ sym (user_page-same true space dst (dst + 1) (dst / 4096 * 4096) m q)
        ∙ found in
      let step : dst + suc (suc n) ≡ dst + 1 + suc n = omega arith in
      let place : phys + dst % 4096 + 1 ≡ phys + (dst + 1) % 4096 = omega (arith, r) in
      let bytes' : ℕ → ℕ = λ b. if b == phys + dst % 4096 then c else bytes b in
      let rest =
        to_user_page (suc n) (dst + 1) phys src bytes' (omega (arith, r, fits)) (omega (arith, le))
          found' in
      rw (found, step, to_user_bytes)
        (rest
          ∙ ap
              (λ (t : ℕ).
                to_user_bytes space (dst + 1 + suc n) (drop (suc n) src) m
                  (store t (take (suc n) src) bytes'))
              (sym place))

  chunk-bounds :
      (off len : ℕ)
      → off < 4096
      → (off + chunk_of off (suc len) ≤ 4096)
        × (chunk_of off (suc len) ≤ suc len)
        × (1 ≤ chunk_of off (suc len))
  chunk-bounds off len h = ground arith

  length-drop_le : (n : ℕ) (xs : List ℕ) → n ≤ length xs → length (drop n xs) + n ≡ length xs
  length-drop_le zero xs h = omega arith
  length-drop_le (suc n) [] h = absurd (omega arith)
  length-drop_le (suc n) (x ∷ xs) h = omega (arith, length-drop_le n xs (omega (arith, h)))

  to_user_round :
      (fuel dst phys c : ℕ) (src : List ℕ) (bytes : ℕ → ℕ)
      → bit_and dst 0xfffffffffffff000 ≡ dst / 4096 * 4096
      → dst - bit_and dst 0xfffffffffffff000 ≡ dst % 4096
      → page true space dst m ≡ ok (some phys)
      → let chunk = chunk_of (dst % 4096) (length (c ∷ src)) in
        copy_to_loop (suc fuel) space dst (c ∷ src) m bytes
        ≡ copy_to_loop fuel space
            (dst + chunk)
            (drop chunk (c ∷ src))
            m
            (store (phys + dst % 4096) (take chunk (c ∷ src)) bytes)
  unfolding copy_to_loop
  to_user_round fuel dst phys c src bytes base off found =
      let after : ℕ → Outcome (Bool × (ℕ → ℕ)) = λ o.
        let chunk = chunk_of o (length (c ∷ src)) in
        copy_to_loop fuel space (dst + chunk) (drop chunk (c ∷ src)) m
          (store (phys + o) (take chunk (c ∷ src)) bytes) in
      let found' : user_page true space dst (bit_and dst 0xfffffffffffff000) m ≡ ok (some phys) =
        ap (λ (t : ℕ). user_page true space dst t m) base ∙ found in
      let round : copy_to_loop (suc fuel) space dst (c ∷ src) m bytes
          ≡ after (dst - bit_and dst 0xfffffffffffff000) =
        rw (found', copy_to_loop) refl in
      round ∙ ap after off

  copy_to_loop-bytes :
      (fuel dst : ℕ) (src : List ℕ) (bytes : ℕ → ℕ)
      → length src ≤ fuel
      → dst < 2 ^ 64
      → copy_to_loop fuel space dst src m bytes ≡ to_user_bytes space dst src m bytes
  unfolding copy_to_loop to_user_bytes
  copy_to_loop-bytes zero dst [] bytes enough wide = refl
  copy_to_loop-bytes (suc fuel) dst [] bytes enough wide = refl
  copy_to_loop-bytes zero dst (c ∷ src) bytes enough wide = absurd (omega arith)
  copy_to_loop-bytes (suc fuel) dst (c ∷ src) bytes enough wide =
      let base : bit_and dst 0xfffffffffffff000 ≡ dst / 4096 * 4096 = align_down_page dst wide in
      let off : dst - bit_and dst 0xfffffffffffff000 ≡ dst % 4096 = omega (arith, base) in
      let chunk = chunk_of (dst % 4096) (length (c ∷ src)) in
      let (fits, le, some_bytes) = chunk-bounds (dst % 4096) (length src) (omega arith) in
      elim (user_page-cases true space dst (dst / 4096 * 4096) m) [
        | inl no_page ↦ rw (base, no_page, copy_to_loop, to_user_bytes) refl
        | inr (phys, found, low) ↦
            let len = length-drop_le chunk (c ∷ src) le in
            let there = to_user_page chunk dst phys (c ∷ src) bytes fits le found in
            let rest =
              copy_to_loop-bytes fuel (dst + chunk) (drop chunk (c ∷ src))
                (store (phys + dst % 4096) (take chunk (c ∷ src)) bytes)
                (omega (arith, len, some_bytes, enough)) (omega (arith, low, fits)) in
            to_user_round fuel dst phys c src bytes base off found ∙ rest ∙ sym there
      ]

  from_user_page :
      (n extra src phys : ℕ) (dst : List ℕ) (bytes : ℕ → ℕ)
      → src % 4096 + n ≤ 4096
      → page false space src m ≡ ok (some phys)
      → from_user_bytes space src (n + extra) dst m bytes
        ≡ from_user_bytes space (src + n) extra (dst ++ fetch (phys + src % 4096) n bytes) m bytes
  unfolding from_user_bytes fetch
  from_user_page zero extra src phys dst bytes fits found =
      let e : src + 0 ≡ src = omega arith in
      let e' : 0 + extra ≡ extra = omega arith in rw (e, e', append_nil dst) refl
  from_user_page (suc zero) extra src phys dst bytes fits found =
      let e : suc zero + extra ≡ suc extra = omega arith in rw (e, found, from_user_bytes) refl
  from_user_page (suc (suc n)) extra src phys dst bytes fits found =
      let q : src / 4096 ≡ (src + 1) / 4096 = omega (arith, fits) in
      let r : (src + 1) % 4096 ≡ src % 4096 + 1 = omega (arith, fits) in
      let found' : page false space (src + 1) m ≡ ok (some phys) =
        ap (λ (t : ℕ). user_page false space (src + 1) (t * 4096) m) (sym q)
        ∙ sym (user_page-same false space src (src + 1) (src / 4096 * 4096) m q)
        ∙ found in
      let e : suc (suc n) + extra ≡ suc (suc n + extra) = omega arith in
      let step : src + suc (suc n) ≡ src + 1 + suc n = omega arith in
      let place : phys + (src + 1) % 4096 ≡ phys + src % 4096 + 1 = omega (arith, r) in
      let first = bytes (phys + src % 4096) in
      let rest =
        from_user_page (suc n) extra (src + 1) phys (dst ++ first ∷ []) bytes
          (omega (arith, r, fits)) found' in
      rw (e, step, found, from_user_bytes)
        (rest
          ∙ ap (λ (t : List ℕ). from_user_bytes space (src + 1 + suc n) extra t m bytes)
              (append_assoc dst (first ∷ []) (fetch (phys + (src + 1) % 4096) (suc n) bytes)
                ∙ ap (λ (t : ℕ). dst ++ first ∷ fetch t (suc n) bytes) place))

  from_user_round :
      (fuel src len phys : ℕ) (dst : List ℕ) (bytes : ℕ → ℕ)
      → bit_and src 0xfffffffffffff000 ≡ src / 4096 * 4096
      → src - bit_and src 0xfffffffffffff000 ≡ src % 4096
      → page false space src m ≡ ok (some phys)
      → let chunk = chunk_of (src % 4096) (suc len) in
        copy_from_loop (suc fuel) space src (suc len) dst m bytes
        ≡ copy_from_loop fuel space
            (src + chunk)
            (suc len - chunk)
            (dst ++ fetch (phys + src % 4096) chunk bytes)
            m
            bytes
  unfolding copy_from_loop
  from_user_round fuel src len phys dst bytes base off found =
      let after : ℕ → Outcome (Bool × List ℕ) = λ o.
        let chunk = chunk_of o (suc len) in
        copy_from_loop fuel space (src + chunk) (suc len - chunk)
          (dst ++ fetch (phys + o) chunk bytes) m bytes in
      let found' : user_page false space src (bit_and src 0xfffffffffffff000) m ≡ ok (some phys) =
        ap (λ (t : ℕ). user_page false space src t m) base ∙ found in
      let round : copy_from_loop (suc fuel) space src (suc len) dst m bytes
          ≡ after (src - bit_and src 0xfffffffffffff000) =
        rw (found', copy_from_loop) refl in
      round ∙ ap after off

  copy_from_loop-bytes :
      (fuel src len : ℕ) (dst : List ℕ) (bytes : ℕ → ℕ)
      → len ≤ fuel
      → src < 2 ^ 64
      → copy_from_loop fuel space src len dst m bytes ≡ from_user_bytes space src len dst m bytes
  unfolding copy_from_loop from_user_bytes
  copy_from_loop-bytes zero src zero dst bytes enough wide = refl
  copy_from_loop-bytes (suc fuel) src zero dst bytes enough wide = refl
  copy_from_loop-bytes zero src (suc len) dst bytes enough wide = absurd (omega arith)
  copy_from_loop-bytes (suc fuel) src (suc len) dst bytes enough wide =
      let base : bit_and src 0xfffffffffffff000 ≡ src / 4096 * 4096 = align_down_page src wide in
      let off : src - bit_and src 0xfffffffffffff000 ≡ src % 4096 = omega (arith, base) in
      let chunk = chunk_of (src % 4096) (suc len) in
      let (fits, le, some_bytes) = chunk-bounds (src % 4096) len (omega arith) in
      elim (user_page-cases false space src (src / 4096 * 4096) m) [
        | inl no_page ↦ rw (base, no_page, copy_from_loop, from_user_bytes) refl
        | inr (phys, found, low) ↦
            let parts : chunk + (suc len - chunk) ≡ suc len = omega (arith, le) in
            let there = from_user_page chunk (suc len - chunk) src phys dst bytes fits found in
            let rest =
              copy_from_loop-bytes fuel (src + chunk) (suc len - chunk)
                (dst ++ fetch (phys + src % 4096) chunk bytes) bytes
                (omega (arith, le, some_bytes, enough)) (omega (arith, low, fits)) in
            from_user_round fuel src len phys dst bytes base off found
            ∙ rest
            ∙ sym there
            ∙ ap (λ (t : ℕ). from_user_bytes space src t dst m bytes) parts
      ]

-- `copy_to_user` and `copy_from_user` end, and copy what a loop over single bytes copies that asks for
-- the page of each byte, up to the first byte that may not be accessed.
pub copy_user-bytes :
    (space a : ℕ) (src : List ℕ) (len : ℕ) (m : Memory)
    → a < 2 ^ 64
    → (copy_to_user space a src m
        ≡ (to_user_bytes space a src m.tables m.bytes >>= λ r. ok (r.0, record m { bytes = r.1 })))
      × (copy_from_user space a len m ≡ from_user_bytes space a len [] m.tables m.bytes)
unfolding copy_to_user copy_from_user
copy_user-bytes space a src len m wide = (
  ap (λ (r : Outcome (Bool × (ℕ → ℕ))). r >>= λ s. ok (s.0, record m { bytes = s.1 }))
      (copy_to_loop-bytes space m.tables (length src) a src m.bytes (omega arith) wide),
  copy_from_loop-bytes space m.tables len a len [] m.bytes (omega arith) wide,
)
