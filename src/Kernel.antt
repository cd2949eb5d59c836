-- ===== src/Kernel.antt =====
-- What the system calls work on: the processes of src/multi/process.h with their open files, ports and
-- memory regions, and beside them the threads, the ports, the page tables and the file systems.
-- A process is named by a number, as a thread is. A text in an array of fixed size is given without its
-- terminator. Memory for a `process_t`, a `file_t`, a `vm_region_t` or a `thread_t` is taken to be there.
use cobj_os.Prelude.{ℕ, Bool, Option, List, if◌then◌else◌, ◌==◌}
use cobj_os.Prelude.Ints.{ℤ}
use cobj_os.Prelude.Outcome.{Outcome, ok, panic, path_overrun}
use cobj_os.Memory.{Memory}
use cobj_os.Port.{Ports}
use cobj_os.Vfs.{Nodes, Resolved, overrun, resolved}

pub record Dirent : Type 0 where
  pub name : List ℕ
  pub kind : ℕ
  pub size : ℕ

-- The operations of a node and its fields; `read` and `write` give the number of bytes, or a negative
-- number, and `read` the bytes that it puts into the buffer.
pub record FileOps (S : Type 0) : Type 0 where
  pub nodes : Nodes S
  pub has_read : ℕ → Bool
  pub has_write : ℕ → Bool
  pub has_readdir : ℕ → Bool
  pub read : (node len off : ℕ) → S → ℤ × List ℕ × S
  pub write : (node : ℕ) → List ℕ → (off : ℕ) → S → ℤ × S
  pub readdir : (node index : ℕ) → S → Option Dirent × S
  pub size : ℕ → ℕ
  pub refcount : ℕ → S → ℕ
  pub set_refcount : ℕ → ℕ → S → S

pub record File : Type 0 where
  pub node : ℕ
  pub offset : ℕ
  pub flags : ℕ

pub record VmRegion : Type 0 where
  pub base : ℕ
  pub size : ℕ

-- `ports` holds indices into the table of ports.
pub record Process : Type 0 where
  pub pid : ℕ
  pub name : List ℕ
  pub space : ℕ
  pub thread : ℕ
  pub heap_top : ℕ
  pub regions : List VmRegion
  pub fds : List (Option File)
  pub ports : List (Option ℕ)
  pub cwd : List ℕ

-- The fields of a thread by which it enters user space.
pub record UserEntry : Type 0 where
  pub user_entry : ℕ
  pub user_rsp : ℕ
  pub user_argc : ℕ
  pub user_argv : ℕ

-- The threads are in `ports`.
pub record Kernel (S : Type 0) : Type 0 where
  pub procs : ℕ → Process
  pub proc_list : List ℕ
  pub next_proc_id : ℕ
  pub user_entries : ℕ → UserEntry
  pub ports : Ports
  pub memory : Memory
  pub fs : S
  pub proc_needs_cleanup : Bool

abbrev pub max_fds : ℕ
max_fds = 64

abbrev pub fd_reserved : ℕ
fd_reserved = 2

abbrev pub max_ports : ℕ
max_ports = 64

abbrev pub put_process : {S : Type 0} → ℕ → Process → Kernel S → Kernel S
put_process p v k = record k { procs = λ q. if q == p then v else k.procs q }

abbrev pub thread_of : {S : Type 0} → Kernel S → ℕ → ℕ
thread_of k p = (k.procs p).thread

-- `vfs_resolve` on the state of the file systems.
abbrev pub resolved_node : {S : Type 0} → Resolved S → Outcome (Option ℕ × S)
resolved_node overrun = panic path_overrun
resolved_node (resolved node s) = ok (node, s)
