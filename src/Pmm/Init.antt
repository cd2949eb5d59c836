-- ===== src/Pmm/Init.antt =====
-- `pmm_init` of src/mm/pmm.c: which page frames are free once the allocator is set up.
use cobj_os.Prelude.{
  ℕ, zero, suc, ◌+◌, ◌-◌, ◌*◌, ◌/◌, ◌%◌, ◌^◌, ◌≤◌, ◌<◌, bit_and, ◌≡◌, refl, ap, ◌∙◌, inl, inr, Bool,
  true, false, not, ◌&&◌, ◌||◌, List, [], ◌∷◌, some, arith, ltb, leb, if◌then◌else◌, Bool-cases,
  replicate, length-replicate, get_or-replicate,
}
use cobj_os.Prelude.Bits.{align_down_page, bit_at-complement, bit_at-zero}
use cobj_os.Prelude.Outcome.{ok, ◌>>=◌, bind_ok}
use cobj_os.Pmm.{
  Pmm, MemmapEntry, usable, is_used, all_used, highest_addr, bitmap_room, free_usable, init_at,
  init, mark_range_used, align_up,
}
use cobj_os.Pmm.Bitmap.{Words, is_used-frame_bit}
use cobj_os.Pmm.Page.{IsValid}
use cobj_os.Pmm.Range.{
  Marked, Marked-ext, Marked-trans, touches, covers, mark_range_used-Marked, mark_range_free-Marked,
}

-- Frame `c` lies whole in a usable entry.
abbrev pub usable_at : List MemmapEntry → ℕ → Bool
usable_at [] c = false
usable_at (entry ∷ mmap) c = (usable entry && covers entry.base entry.length c) || usable_at mmap c

-- What the boot protocol documents of usable entries: page-aligned ends, and no wrap-around.
abbrev pub Aligned : List MemmapEntry → Type 0
Aligned [] = Unit {0}
Aligned (entry ∷ mmap) =
    (usable entry ≡ true
      → ((entry.base + entry.length) % 4096 ≡ 0) × (entry.base + entry.length ≤ 2 ^ 64 - 4096))
    × Aligned mmap

abbrev Below : ℕ → List MemmapEntry → Type 0
Below top [] = Unit {0}
Below top (entry ∷ mmap) = (usable entry ≡ true → entry.base + entry.length ≤ top) × Below top mmap

highest_addr-ge : (mmap : List MemmapEntry) (h : ℕ) → h ≤ highest_addr mmap h
unfolding highest_addr
highest_addr-ge [] h = omega arith
highest_addr-ge (entry ∷ mmap) h =
    let e = (entry.base + entry.length) % 2 ^ 64 in
    let next = if usable entry then (if ltb h e then e else h) else h in
    ground (arith, highest_addr-ge mmap next)

highest_addr-Below :
    (mmap : List MemmapEntry) (h : ℕ) → Aligned mmap → Below (highest_addr mmap h) mmap
unfolding highest_addr
highest_addr-Below [] h fits = tt
highest_addr-Below (entry ∷ mmap) h (fits, rest) =
    let e = (entry.base + entry.length) % 2 ^ 64 in
    let next = if usable entry then (if ltb h e then e else h) else h in
    (λ is. ground (arith, fits is, highest_addr-ge mmap next), highest_addr-Below mmap next rest)

free_usable-Marked :
    (mmap : List MemmapEntry) (top : ℕ) (p : Pmm)
    → IsValid p
    → Aligned mmap
    → Below top mmap
    → top / 4096 ≤ p.page_count
    → (q : Pmm) × (free_usable mmap p ≡ ok q) × Marked p false (usable_at mmap) q
unfolding free_usable
free_usable-Marked [] top p valid fits below inside =
    (p, refl, record { marked = λ c. refl; same_count = refl; valid = valid })
free_usable-Marked (entry ∷ mmap) top p valid (fit, fits) (low, below) inside =
    elim (Bool-cases (usable entry)) [
      | inl is ↦
          let (q, first, one) =
            mark_range_free-Marked entry.base entry.length p valid (fit is).1
              (omega (arith, low is)) in
          let (r, rest, all) =
            free_usable-Marked mmap top q one.valid fits below (omega (arith, one.same_count)) in
          let both =
            Marked-trans p q r false (covers entry.base entry.length) (usable_at mmap) one all in
          (
            r,
            rw (is, first) rest,
            Marked-ext p r false _ (usable_at (entry ∷ mmap)) (λ c. rw is) both,
          )
      | inr skip ↦
          let (r, rest, all) = free_usable-Marked mmap top p valid fits below inside in
          (
            r,
            rw skip rest,
            Marked-ext p r false (usable_at mmap) (usable_at (entry ∷ mmap)) (λ c. rw skip) all,
          )
    ]

all_used-IsValid : (count : ℕ) → IsValid (all_used count)
all_used-IsValid count = record {
  sized = length-replicate ((count + 63) / 64) 0xffffffffffffffff;
  words = full-Words ((count + 63) / 64);
}
  where
    full-Words : (n : ℕ) → Words (replicate n 0xffffffffffffffff)
    full-Words zero i = omega arith
    full-Words (suc n) zero = omega arith
    full-Words (suc n) (suc i) = full-Words n i

all_used-is_used : (count c : ℕ) → c < count → is_used (all_used count).page_bitmap c ≡ true
all_used-is_used count c inside =
    let word =
      get_or-replicate {A = ℕ} ((count + 63) / 64) (c / 64) 0xffffffffffffffff 0 (omega arith) in
    rw (is_used-frame_bit (all_used count).page_bitmap c, word)
      (ground (arith, bit_at-complement 64 0 (c % 64), bit_at-zero (c % 64)))

-- The frames that `pmm_init` keeps from allocation: the kernel's, the bitmap's and the initial disk's.
abbrev pub kept : ℕ → ℕ → ℕ → ℕ → ℕ → ℕ → ℕ → Bool
kept kernel_base kernel_size bitmap_phys bitmap_size initrd_addr initrd_size c =
    touches kernel_base kernel_size c
    || touches bitmap_phys bitmap_size c
    || touches initrd_addr initrd_size c

-- The end of a range is inside the managed memory.
abbrev pub Inside : ℕ → ℕ → ℕ → Type 0
Inside count base length = (base + length ≤ 2 ^ 64 - 4096) × ((base + length + 4095) / 4096 ≤ count)

bitmap_room-Inside :
    (mmap : List MemmapEntry) (top size b : ℕ)
    → Aligned mmap
    → Below top mmap
    → bitmap_room size mmap ≡ some b
    → Inside (top / 4096) b size
unfolding bitmap_room
bitmap_room-Inside [] top size b fits below found = cc
bitmap_room-Inside (entry ∷ mmap) top size b (fit, fits) (low, below) found =
    elim (Bool-cases (usable entry && leb size entry.length)) [
      | inl here ↦ room (is_here here) (ground (arith, here)) (rw here at found)
      | inr on ↦ bitmap_room-Inside mmap top size b fits below (rw on at found)
    ]
  where
    is_here : (usable entry && leb size entry.length) ≡ true → usable entry ≡ true
    is_here h = ground arith

    room :
        usable entry ≡ true
        → size ≤ entry.length
        → some entry.base ≡ some b
        → Inside (top / 4096) b size
    room is big e = let same : entry.base ≡ b = cc in omega (arith, fit is, low is)

-- The kernel's range as the code hands it over: its end is rounded up first.
kernel_touches :
    (base size : ℕ)
    → base + size ≤ 2 ^ 64 - 4096
    → let kend = align_up ((base + size) % 2 ^ 64) in
      let kernel_length = (kend + 2 ^ 64 - base) % 2 ^ 64 in
      (base + kernel_length ≡ (base + size + 4095) / 4096 * 4096)
      × ((c : ℕ) → touches base kernel_length c ≡ touches base size c)
unfolding align_up
kernel_touches base size fits =
    let end : ((base + size) % 2 ^ 64 + 4095) % 2 ^ 64 ≡ base + size + 4095 = omega arith in
    let up : bit_and (base + size + 4095) 0xfffffffffffff000 ≡ (base + size + 4095) / 4096 * 4096 =
      align_down_page (base + size + 4095) (omega arith) in
    let top : ℕ = (base + size + 4095) / 4096 in
    let whole : base + (top * 4096 + 2 ^ 64 - base) % 2 ^ 64 ≡ top * 4096 = omega arith in
    let same : (c : ℕ) → ltb (c * 4096) (top * 4096) ≡ ltb (c * 4096) (base + size) =
      λ c. ground arith in
    rw (end, up) (whole, λ c. rw whole (ap (λ (b : Bool). leb (base / 4096) c && b) (same c)))

kept_or : (k u x : Bool) → x ≡ true → (if k then true else (if u then false else x)) ≡ (k || not u)
kept_or true u x h = refl
kept_or false true x h = refl
kept_or false false x h = h

or_right : (a b c : Bool) → ((a || b) || c) ≡ (a || b || c)
or_right true b c = refl
or_right false b c = refl

-- The three ranges, one after the other.
keep_ranges :
    (count kernel_base kernel_size bitmap_phys bitmap_size initrd_addr initrd_size : ℕ) (p : Pmm)
    → IsValid p
    → p.page_count ≡ count
    → Inside count kernel_base kernel_size
    → Inside count bitmap_phys bitmap_size
    → Inside count initrd_addr initrd_size
    → let kend = align_up ((kernel_base + kernel_size) % 2 ^ 64) in
      let kernel_length = (kend + 2 ^ 64 - kernel_base) % 2 ^ 64 in
      (q : Pmm) × ((mark_range_used kernel_base kernel_length p >>= λ r.
      mark_range_used bitmap_phys bitmap_size r >>= λ r. mark_range_used initrd_addr initrd_size r)
        ≡ ok q)
      × Marked p true
          (kept kernel_base kernel_size bitmap_phys bitmap_size initrd_addr initrd_size)
          q
keep_ranges count kb ks bb bs ib is p valid same_count kernel bitmap initrd =
    let kernel_length = (align_up ((kb + ks) % 2 ^ 64) + 2 ^ 64 - kb) % 2 ^ 64 in
    let (end, same) = kernel_touches kb ks kernel.0 in
    let (p1, e1, m1) =
      mark_range_used-Marked kb kernel_length p valid (omega (arith, end, kernel.0))
        (omega (arith, end, kernel.1)) in
    let (p2, e2, m2) =
      mark_range_used-Marked bb bs p1 m1.valid bitmap.0 (omega (arith, bitmap.1, m1.same_count)) in
    let (p3, e3, m3) =
      mark_range_used-Marked ib is p2 m2.valid initrd.0
        (omega (arith, initrd.1, m2.same_count, m1.same_count)) in
    let k = touches kb ks in
    let b = touches bb bs in
    let i = touches ib is in
    let m12 = Marked-trans p p1 p2 true k b (Marked-ext p p1 true _ k same m1) m2 in
    let m123 = Marked-trans p p2 p3 true (λ c. k c || b c) i m12 m3 in
    (
      p3,
      bind_ok _ e1 (bind_ok _ e2 e3),
      Marked-ext p p3 true (λ c. (k c || b c) || i c) (kept kb ks bb bs ib is)
          (λ c. or_right (k c) (b c) (i c)) m123,
    )

init_lem :
    (mmap : List MemmapEntry) (kernel_base kernel_size initrd_addr initrd_size bitmap_phys : ℕ)
    → let count = highest_addr mmap 0 / 4096 in
      let kend = align_up ((kernel_base + kernel_size) % 2 ^ 64) in
      bitmap_room ((count + 63) / 64 * 8) mmap ≡ some bitmap_phys
      → init mmap kernel_base kernel_size initrd_addr initrd_size
        ≡ init_at mmap count bitmap_phys kernel_base kend initrd_addr initrd_size
unfolding init
init_lem mmap kb ks ib is b room = rw (room, init)

module _ (mmap : List MemmapEntry) (kernel_base kernel_size initrd_addr initrd_size : ℕ) where
  -- For a memory map with aligned usable entries, one of which has room for the bitmap, and with
  -- the kernel and the initial disk below the end of usable memory: `pmm_init` returns, and a frame
  -- below `page_count` is then free exactly if it lies whole in a usable entry and is not one that
  -- the kernel, the bitmap or the initial disk touches.
  pub init-kept :
      (bitmap_phys : ℕ)
      → let count = highest_addr mmap 0 / 4096 in
        let bitmap_size = (count + 63) / 64 * 8 in
        Aligned mmap
        → bitmap_room bitmap_size mmap ≡ some bitmap_phys
        → Inside count kernel_base kernel_size
        → Inside count initrd_addr initrd_size
        → (p : Pmm) × (init mmap kernel_base kernel_size initrd_addr initrd_size ≡ ok p)
          × IsValid p
          × (p.page_count ≡ count)
          × ((c : ℕ)
              → c < count
              → is_used p.page_bitmap c ≡ (
                  kept kernel_base kernel_size bitmap_phys bitmap_size initrd_addr initrd_size c
                  || not (usable_at mmap c)))
  unfolding init_at
  init-kept bitmap_phys fits room kernel initrd =
      let top = highest_addr mmap 0 in
      let count = top / 4096 in
      let bitmap_size = (count + 63) / 64 * 8 in
      let below = highest_addr-Below mmap 0 fits in
      let (p, freed, m) =
        free_usable-Marked mmap top (all_used count) (all_used-IsValid count) fits below
          (omega arith) in
      let (q, ranges, k) =
        keep_ranges count kernel_base kernel_size bitmap_phys bitmap_size initrd_addr initrd_size p
          m.valid m.same_count kernel
          (bitmap_room-Inside mmap top bitmap_size bitmap_phys fits below room) initrd in
      (
        q,
        init_lem mmap kernel_base kernel_size initrd_addr initrd_size bitmap_phys room
            ∙ bind_ok _ freed ranges,
        k.valid,
        k.same_count ∙ m.same_count,
        λ c lt.
            k.marked c
            ∙ ap
                (λ (x : Bool).
                  if kept kernel_base kernel_size bitmap_phys bitmap_size initrd_addr initrd_size c
                  then true
                  else x)
                (m.marked c)
            ∙ kept_or _ (usable_at mmap c) _ (all_used-is_used count c lt),
      )
