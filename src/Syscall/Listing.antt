-- ===== src/Syscall/Listing.antt =====
-- The calls of src/userspace/syscall.c that fill an array with processes, directory entries or drives.
-- `max` is not negative; the array is the list of the entries that are written.
use cobj_os.Prelude.{
  ℕ, zero, suc, ◌+◌, not, ◌&&◌, none, some, List, [], ◌∷◌, ◌==◌, if◌then◌else◌, length, take,
}
use cobj_os.Prelude.Ints.{ℤ, pos, negsuc}
use cobj_os.Prelude.Outcome.{Outcome, ok, panic, ◌>>=◌, null_call}
use cobj_os.Thread.{Thread, ThreadState, ready, running, blocked, dead}
use cobj_os.Vfs.{Drive, vfs_resolve}
use cobj_os.Kernel.{FileOps, Dirent, Process, Kernel, resolved_node}

pub record ProcInfo : Type 0 where
  pub pid : ℕ
  pub name : List ℕ
  pub state : ℕ

abbrev pub state_number : ThreadState → ℕ
state_number ready = 0
state_number running = 1
state_number blocked = 2
state_number dead = 3

unfoldable pub procs_loop : (ℕ → Process) → (ℕ → Thread) → ℕ → List ℕ → List ProcInfo
procs_loop procs threads zero list = []
procs_loop procs threads (suc room) [] = []
procs_loop procs threads (suc room) (p ∷ rest) =
    record {
      pid = (procs p).pid;
      name = take 63 ((procs p).name);
      state = state_number (threads (procs p).thread).state;
    }
    ∷ procs_loop procs threads room rest

pub record DriveInfo : Type 0 where
  pub id : ℕ
  pub label : List ℕ
  pub present : ℕ

abbrev pub head_or : List (List ℕ) → List ℕ
head_or [] = []
head_or (x ∷ xs) = x

abbrev pub tail_of : List (List ℕ) → List (List ℕ)
tail_of [] = []
tail_of (x ∷ xs) = xs

-- Of a drive that is present, the number and the label, cut to 63 bytes; `i` is the drive's number.
unfoldable pub drives_loop : ℕ → ℕ → List Drive → List (List ℕ) → List DriveInfo
drives_loop zero i drives labels = []
drives_loop (suc room) i [] labels = []
drives_loop (suc room) i (d ∷ drives) labels =
    let label = head_or labels in
    let here : DriveInfo = record { id = i; label = take 63 label; present = 1 } in
    let listed = here ∷ drives_loop room (i + 1) drives (tail_of labels) in
    let skipped = drives_loop (suc room) (i + 1) drives (tail_of labels) in
    if d.present then listed else skipped

module _ {S : Type 0} (ops : FileOps S) (drives : List Drive) where
  unfoldable pub sys_listprocs : ℕ → Kernel S → ℕ × List ProcInfo
  sys_listprocs max k =
      let buf = procs_loop k.procs k.ports.sched.threads max k.proc_list in (length buf, buf)

  -- `count` entries have been read.
  unfoldable pub dir_loop : ℕ → ℕ → ℕ → S → List Dirent × S
  dir_loop zero dir count s = ([], s)
  dir_loop (suc room) dir count s =
      let (entry, s') = ops.readdir dir count s in
      elim entry [
        | none ↦ ([], s')
        | some e ↦ let (rest, s'') = dir_loop room dir (count + 1) s' in (e ∷ rest, s'')
      ]

  abbrev pub put_back : ℕ → S → S
  put_back node s = if ops.nodes.has_release node then ops.nodes.release node s else s

  unfoldable pub sys_listdir : List ℕ → ℕ → Kernel S → Outcome (ℤ × List Dirent × Kernel S)
  sys_listdir path max k = resolved_node (vfs_resolve ops.nodes drives path k.fs) >>= λ r.
      let (node, fs) = r in
      elim node [
        | none ↦ ok (negsuc 0, [], record k { fs = fs })
        | some dir ↦
            let (entries, fs') = dir_loop max dir 0 fs in
            if not (ops.nodes.is_dir dir)
            then ok (negsuc 0, [], record k { fs = put_back dir fs })
            else if not (ops.has_readdir dir) && not (max == 0)
            then panic null_call
            else ok (pos (length entries), entries, record k { fs = put_back dir fs' })
      ]

  unfoldable pub sys_listdrives : List (List ℕ) → ℕ → ℕ × List DriveInfo
  sys_listdrives labels max = let buf = drives_loop max 0 drives labels in (length buf, buf)
