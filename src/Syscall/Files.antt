-- ===== src/Syscall/Files.antt =====
-- The system calls on open files of src/userspace/syscall.c. `p` is `curr_thread->process`, here and in the
-- other modules; an `int` that is a file descriptor is given as an integer.
pub mod Dropped
pub mod Descriptors
pub mod Offsets
use cobj_os.Prelude.{
  ℕ, zero, suc, ◌+◌, ◌-◌, ◌^◌, Bool, true, false, not, ◌&&◌, Option, none, some, List, [], ◌∷◌, ltb,
  leb, ◌==◌, if◌then◌else◌, get_or, set, ◌%◌,
}
use cobj_os.Prelude.Ints.{ℤ, pos, negsuc, minus, is_negative}
use cobj_os.Prelude.Outcome.{Outcome, ok, panic, ◌>>=◌, null_call, offset_overflow}
use cobj_os.Vfs.{Drive, vfs_resolve}
use cobj_os.Kernel.{
  FileOps, File, Process, Kernel, put_process, resolved_node, max_fds, fd_reserved,
}

-- The first free descriptor from `i` on.
unfoldable pub free_fd : List (Option File) → ℕ → Option ℕ
free_fd [] i = none
free_fd (none ∷ fds) i = some i
free_fd (some f ∷ fds) i = free_fd fds (i + 1)

abbrev pub skip_reserved : List (Option File) → List (Option File)
skip_reserved [] = []
skip_reserved (a ∷ []) = []
skip_reserved (a ∷ b ∷ fds) = fds

-- The open file of a descriptor, if it passes the tests that the calls begin with.
abbrev pub file_of : List (Option File) → ℤ → Option File
file_of fds (negsuc n) = none
file_of fds (pos fd) = if leb max_fds fd then none else get_or fds fd none

abbrev pub index_of : ℤ → ℕ
index_of (pos n) = n
index_of (negsuc n) = 0

-- A sum of an offset and a 64-bit signed number.
abbrev pub add : ℕ → ℤ → ℤ
add a (pos n) = pos (a + n)
add a (negsuc n) = minus a (n + 1)

-- `if (n > 0) file->offset += n;`
abbrev pub advance : ℤ → File → File
advance (pos n) f = record f { offset = f.offset + n }
advance (negsuc n) f = f

module _ {S : Type 0} (ops : FileOps S) (drives : List Drive) where
  abbrev pub put_file : ℕ → ℕ → Option File → Kernel S → Kernel S
  put_file p fd v k = put_process p (record (k.procs p) { fds = set (k.procs p).fds fd v }) k

  unfoldable pub sys_open : ℕ → List ℕ → Kernel S → Outcome (ℤ × Kernel S)
  sys_open p path k = elim (free_fd (skip_reserved (k.procs p).fds) fd_reserved) [
    | none ↦ ok (negsuc 0, k)
    | some fd ↦ resolved_node (vfs_resolve ops.nodes drives path k.fs) >>= λ r.
        let (node, fs) = r in
        elim node [
          | none ↦ ok (negsuc 0, record k { fs = fs })
          | some n ↦ ok (
            pos fd,
            put_file p fd (some (record { node = n; offset = 0; flags = 1 }))
                (record k { fs = fs }),
          )
        ]
  ]

  -- The bytes are those that are put into the buffer.
  unfoldable pub sys_read : ℕ → ℤ → ℕ → Kernel S → Outcome (ℤ × List ℕ × Kernel S)
  sys_read p fd size k = elim (file_of (k.procs p).fds fd) [
    | none ↦ ok (negsuc 0, [], k)
    | some f ↦
        let (n, buf, fs) = ops.read f.node size f.offset k.fs in
        if not (ops.has_read f.node)
        then panic null_call
        else ok (n, buf, put_file p (index_of fd) (some (advance n f)) (record k { fs = fs }))
  ]

  unfoldable pub sys_write : ℕ → ℤ → List ℕ → Kernel S → Outcome (ℤ × Kernel S)
  sys_write p fd buf k = elim (file_of (k.procs p).fds fd) [
    | none ↦ ok (negsuc 0, k)
    | some f ↦
        let (n, fs) = ops.write f.node buf f.offset k.fs in
        if not (ops.has_write f.node)
        then panic null_call
        else ok (n, put_file p (index_of fd) (some (advance n f)) (record k { fs = fs }))
  ]

  -- One reference to the node is given up, and the node with the last one.
  unfoldable pub drop_node : ℕ → S → S
  drop_node n s =
      let s' = ops.set_refcount n ((ops.refcount n s + (2 ^ 32 - 1)) % 2 ^ 32) s in
      if ops.refcount n s' == 0 && ops.nodes.has_release n then ops.nodes.release n s' else s'

  unfoldable pub sys_close : ℕ → ℤ → Kernel S → Outcome (ℤ × Kernel S)
  sys_close p fd k = elim (file_of (k.procs p).fds fd) [
    | none ↦ ok (negsuc 0, k)
    | some f ↦ ok (pos 0, put_file p (index_of fd) none (record k { fs = drop_node f.node k.fs }))
  ]

  -- The offset that is asked for, which is a 64-bit signed number, or `none` for another `whence`.
  abbrev pub seek_target : ℕ → ℤ → File → Option ℤ
  seek_target whence offset f =
      if whence == 0
      then some offset
      else if whence == 1
      then some (add f.offset offset)
      else if whence == 2
      then some (add (ops.size f.node) offset)
      else none

  unfoldable pub sys_seek : ℕ → ℤ → ℤ → ℕ → Kernel S → Outcome (ℤ × Kernel S)
  sys_seek p fd offset whence k = elim (file_of (k.procs p).fds fd) [
    | none ↦ ok (negsuc 0, k)
    | some f ↦ elim (seek_target whence offset f) [
      | none ↦ ok (negsuc 0, k)
      | some target ↦
          if is_negative target
          then ok (negsuc 0, k)
          else if leb (2 ^ 63) (index_of target)
          then panic offset_overflow
          else ok
              (target, put_file p (index_of fd) (some (record f { offset = index_of target })) k)
    ]
  ]
