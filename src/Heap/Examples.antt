-- ===== src/Heap/Examples.antt =====
-- The heap of src/mm/heap.c over 64 frames of which the first is used, and its theorems there.
use cobj_os.Prelude.{ℕ, ◌+◌, ◌-◌, ◌≤◌, ◌≡◌, refl, some, [], ◌∷◌, arith}
use cobj_os.Prelude.Outcome.{ok}
use cobj_os.Pmm.{Pmm, alloc_page, alloc_page_loop, ctz}
use cobj_os.Heap.{Heap, kmalloc, kfree, class_from}
use cobj_os.Heap.Reuse.{kfree-kmalloc, kmalloc-fresh}

abbrev frames : Pmm
frames = record { page_count = 64; page_bitmap = 1 ∷ []; last_alloc_word = 0 }

abbrev frames_after : Pmm
frames_after = record frames { page_bitmap = 3 ∷ [] }

abbrev start : Heap
start = record {
  caches =
      record { free = []; obj_size = 16; total = 0; used = 0 }
      ∷ record { free = []; obj_size = 32; total = 0; used = 0 }
      ∷ [];
  headers = λ a. record { cache_idx = 0; pad = 0 };
  pmm = frames;
}

kmalloc-fresh_example :
    (p : ℕ) × (h' : Heap) × (kmalloc 24 start ≡ ok (some p, h'))
    × (4096 + 8 ≤ p)
    × (p + 32 ≤ 4096 + 4096)
    × (h'.headers (p - 8) ≡ record { cache_idx = 1; pad = 0 })
unfolding class_from alloc_page alloc_page_loop ctz
kmalloc-fresh_example =
    kmalloc-fresh start 24 1 4096 frames_after (omega arith) refl refl refl (λ e. omega (arith, e))
      (omega arith) (omega arith)

-- Block 4104 of 16 bytes is free, block 4128 is in use.
abbrev one_free : Heap
one_free = record {
  caches =
      record { free = 4104 ∷ []; obj_size = 16; total = 2; used = 1 }
      ∷ record { free = []; obj_size = 32; total = 0; used = 0 }
      ∷ record { free = []; obj_size = 64; total = 0; used = 0 }
      ∷ record { free = []; obj_size = 128; total = 0; used = 0 }
      ∷ record { free = []; obj_size = 256; total = 0; used = 0 }
      ∷ record { free = []; obj_size = 512; total = 0; used = 0 }
      ∷ record { free = []; obj_size = 1024; total = 0; used = 0 }
      ∷ record { free = []; obj_size = 2048; total = 0; used = 0 }
      ∷ [];
  headers = λ a. record { cache_idx = 0; pad = 0 };
  pmm = frames;
}

kfree-kmalloc_example :
    (h' : Heap) × (kmalloc 10 one_free ≡ ok (some 4104, h')) × (kfree (some 4104) h' ≡ ok one_free)
unfolding class_from
kfree-kmalloc_example =
    kfree-kmalloc one_free 10 0 4104 [] (omega arith) refl refl refl (omega arith) refl
      (omega arith)
