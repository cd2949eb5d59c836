-- ===== src/Syscall/Copy.antt =====
-- Copies between the kernel and user memory of src/userspace/syscall.c, and the calls on the working directory.
-- A failed copy leaves what it has copied. `space` is the address space of `curr_thread->process`, and the
-- length of the data is fuel enough: a round copies at least one byte.
pub mod Bytes
use cobj_os.Prelude.{
  ℕ, zero, suc, ◌+◌, ◌-◌, ◌*◌, ◌/◌, ◌%◌, ◌^◌, bit_and, Bool, true, false, not, ◌&&◌, ◌||◌, Option,
  none, some, List, [], ◌∷◌, ◌++◌, ltb, leb, ◌==◌, if◌then◌else◌, length, take, drop, replicate,
}
use cobj_os.Prelude.Ints.{ℤ, pos, negsuc}
use cobj_os.Prelude.Outcome.{Outcome, ok, panic, ◌>>=◌}
use cobj_os.Memory.{Memory, store, fetch}
use cobj_os.Vmm.{Tables, vmm_get_mapping}
use cobj_os.Vfs.{Drive, vfs_resolve}
use cobj_os.Kernel.{FileOps, Process, Kernel, put_process, resolved_node}

abbrev pub user_space_top : ℕ
user_space_top = 0x0000800000000000

-- The flags allow the access: present, user, and for a write also writable.
abbrev pub allows : Bool → ℕ → Bool
allows write flags =
    not (bit_and flags 1 == 0)
    && not (bit_and flags 4 == 0)
    && (not write || not (bit_and flags 2 == 0))

-- The physical address of the page at `page_base`, if the copy may go on at `va`.
unfoldable pub user_page : Bool → ℕ → (va page_base : ℕ) → Tables → Outcome (Option ℕ)
user_page write space va page_base m =
    if leb user_space_top va
    then ok none
    else vmm_get_mapping space page_base m >>= λ mapping. ok (elim mapping [
      | none ↦ none
      | some (phys, flags) ↦ if allows write flags then some phys else none
    ])

abbrev pub chunk_of : ℕ → ℕ → ℕ
chunk_of page_off len = if ltb len (4096 - page_off) then len else 4096 - page_off

unfoldable pub copy_to_loop : ℕ → ℕ → ℕ → List ℕ → Tables → (ℕ → ℕ) → Outcome (Bool × (ℕ → ℕ))
copy_to_loop fuel space dst [] m bytes = ok (true, bytes)
copy_to_loop zero space dst (c ∷ src) m bytes = ok (false, bytes)
copy_to_loop (suc fuel) space dst (c ∷ src) m bytes =
    let page_base = bit_and dst 0xfffffffffffff000 in
    let page_off = dst - page_base in
    let chunk = chunk_of page_off (length (c ∷ src)) in
    user_page true space dst page_base m >>= λ page. elim page [
      | none ↦ ok (false, bytes)
      | some phys ↦
          copy_to_loop fuel space (dst + chunk) (drop chunk (c ∷ src)) m
            (store (phys + page_off) (take chunk (c ∷ src)) bytes)
    ]

-- `true` is the result 0.
unfoldable pub copy_to_user : ℕ → ℕ → List ℕ → Memory → Outcome (Bool × Memory)
copy_to_user space user_dst kernel_src m =
    copy_to_loop (length kernel_src) space user_dst kernel_src m.tables m.bytes >>= λ r.
    let (good, bytes) = r in ok (good, record m { bytes = bytes })

-- The bytes that are copied, in front of which stand those copied before.
unfoldable pub copy_from_loop : ℕ → ℕ → ℕ → ℕ → List ℕ → Tables → (ℕ → ℕ) → Outcome (Bool × List ℕ)
copy_from_loop fuel space src zero dst m bytes = ok (true, dst)
copy_from_loop zero space src (suc len) dst m bytes = ok (false, dst)
copy_from_loop (suc fuel) space src (suc len) dst m bytes =
    let page_base = bit_and src 0xfffffffffffff000 in
    let page_off = src - page_base in
    let chunk = chunk_of page_off (suc len) in
    user_page false space src page_base m >>= λ page. elim page [
      | none ↦ ok (false, dst)
      | some phys ↦
          copy_from_loop fuel space (src + chunk) (suc len - chunk)
            (dst ++ fetch (phys + page_off) chunk bytes) m bytes
    ]

unfoldable pub copy_from_user : ℕ → ℕ → ℕ → Memory → Outcome (Bool × List ℕ)
copy_from_user space user_src len m = copy_from_loop len space user_src len [] m.tables m.bytes

-- The text in front of the terminator, if there is one.
abbrev pub text_of : List ℕ → List ℕ
text_of [] = []
text_of (c ∷ text) = let rest = text_of text in if c == 0 then [] else c ∷ rest

module _ {S : Type 0} (ops : FileOps S) (drives : List Drive) where
  abbrev pub copied_length : ℕ → ℕ → ℕ
  copied_length len buf_size = if ltb len (buf_size - 1) then len else buf_size - 1

  -- The terminator behind `to_copy` bytes at `buf`.
  unfoldable pub end_text : (space buf to_copy : ℕ) → Memory → Kernel S → Outcome (ℤ × Kernel S)
  end_text space buf to_copy memory k =
      copy_to_user space ((buf + to_copy) % 2 ^ 64) (0 ∷ []) memory >>= λ r.
      ok (if r.0 then pos to_copy else negsuc 0, record k { memory = r.1 })

  unfoldable pub sys_get_cwd : ℕ → ℕ → ℕ → Kernel S → Outcome (ℤ × Kernel S)
  sys_get_cwd p buf buf_size k =
      let cwd = (k.procs p).cwd in
      let to_copy = copied_length (length cwd) buf_size in
      let space = (k.procs p).space in
      let copied = copy_to_user space buf (take to_copy cwd) k.memory >>= λ r.
      let last = end_text space buf to_copy r.1 k in
      if r.0 then last else ok (negsuc 0, record k { memory = r.1 }) in
      if buf_size == 0 then ok (negsuc 0, k) else copied

  -- A node that was only asked for is given back.
  abbrev pub let_go : ℕ → S → S
  let_go node s = if ops.nodes.has_release node then ops.nodes.release node s else s

  -- The path that was copied becomes the working directory, if it leads to one.
  unfoldable pub enter : (p to_copy : ℕ) → List ℕ → Kernel S → Outcome (ℤ × Kernel S)
  enter p to_copy tmp k = resolved_node (vfs_resolve ops.nodes drives (tmp ++ 0 ∷ []) k.fs) >>= λ r.
      elim (r.0) [
        | none ↦ ok (negsuc 0, record k { fs = r.1 })
        | some n ↦
            let k' = record k { fs = let_go n r.1 } in
            if ops.nodes.is_dir n
            then ok (pos to_copy, put_process p (record (k.procs p) { cwd = text_of tmp }) k')
            else ok (negsuc 0, k')
      ]

  unfoldable pub sys_set_cwd : ℕ → ℕ → ℕ → Kernel S → Outcome (ℤ × Kernel S)
  sys_set_cwd p buf buf_size k =
      let to_copy = if ltb buf_size 255 then buf_size else 255 in
      let changed = copy_from_user (k.procs p).space buf to_copy k.memory >>= λ r.
      let found = enter p to_copy r.1 k in if r.0 then found else ok (negsuc 0, k) in
      if buf_size == 0 then ok (negsuc 0, k) else changed
