-- ===== src/Syscall/Dispatch.antt =====
-- `syscall_dispatch` of src/userspace/syscall.c: from the number of a call to its handler.
use cobj_os.Prelude.{ℕ, ◌-◌, ◌%◌, ◌^◌, none, some, List, length}
use cobj_os.Prelude.Ints.{ℤ, pos, negsuc, to_int}
use cobj_os.Prelude.Outcome.{Outcome, ok, panic, ◌>>=◌, null_block}
use cobj_os.Rtc.{RtcTime}
use cobj_os.Port.{port_forward}
use cobj_os.Vfs.{Drive}
use cobj_os.Kernel.{FileOps, Dirent, Kernel, thread_of}
use cobj_os.Syscall.Files.{sys_open, sys_read, sys_write, sys_close, sys_seek}
use cobj_os.Syscall.Copy.{sys_get_cwd, sys_set_cwd}
use cobj_os.Syscall.Exit.{sys_exit, sys_kill, sys_wait_pid, sys_sleep}
use cobj_os.Syscall.Spawn.{sys_spawn}
use cobj_os.Syscall.Channels.{
  PortReply, refused, message, blocked_on, sys_port_create, sys_port_receive, sys_port_destroy,
}
use cobj_os.Syscall.Regions.{sys_mmap, sys_munmap}
use cobj_os.Syscall.Listing.{ProcInfo, DriveInfo, sys_listprocs, sys_listdir, sys_listdrives}

-- A call with its arguments; a pointer to data that is read is given as the data, one to memory that is
-- written as the address.
pub data Call : Type 0 where
  exit_call : ℕ → Call
  print_call : List ℕ → Call
  mmap_call munmap_call : (addr size : ℕ) → Call
  spawn_call : List ℕ → List (List ℕ) → Call
  getpid_call uptime_call port_create_call clear_screen_call : Call
  gettime_call : (out : ℕ) → Call
  wait_pid_call sleep_call kill_call : ℕ → Call
  listdir_call : List ℕ → (entries max : ℕ) → Call
  open_call : List ℕ → Call
  close_call : ℤ → Call
  read_call : ℤ → (buf size : ℕ) → Call
  write_call : ℤ → List ℕ → Call
  listprocs_call listdrives_call : (buf max : ℕ) → Call
  port_forward_call : (token : ℕ) → List ℕ → Call
  port_receive_call : (token buf len : ℕ) → Call
  port_destroy_call : (token : ℕ) → Call
  get_cwd_call set_cwd_call : (buf size : ℕ) → Call
  seek_call : ℤ → ℤ → (whence : ℕ) → Call
  unknown_call : ℕ → Call

unfoldable pub number_of : Call → ℕ
number_of (exit_call code) = 0
number_of (print_call text) = 1
number_of (mmap_call addr size) = 2
number_of (munmap_call addr size) = 3
number_of (spawn_call name argv) = 4
number_of getpid_call = 5
number_of (wait_pid_call pid) = 6
number_of (listdir_call path entries max) = 7
number_of uptime_call = 8
number_of (sleep_call ms) = 9
number_of (kill_call pid) = 10
number_of (open_call path) = 11
number_of (close_call fd) = 12
number_of (read_call fd buf size) = 13
number_of (gettime_call out) = 14
number_of (listprocs_call buf max) = 15
number_of (write_call fd buf) = 16
number_of port_create_call = 17
number_of (port_forward_call token msg) = 18
number_of (port_receive_call token buf len) = 19
number_of (port_destroy_call token) = 20
number_of (get_cwd_call buf size) = 21
number_of (set_cwd_call buf size) = 22
number_of clear_screen_call = 23
number_of (listdrives_call buf max) = 24
number_of (seek_call fd offset whence) = 25
number_of (unknown_call n) = n

-- What a handler writes through a pointer that its caller gave, the first argument here. The code writes
-- there without asking whether the address is one of the caller's: `kernel` of a reply is the state in
-- which the write, which may hit anything, still has to be made. `text_out` goes to the screen.
pub data Output : Type 0 where
  no_output : Output
  bytes_out : (buf : ℕ) → List ℕ → Output
  text_out : List ℕ → Output
  procs_out : (buf : ℕ) → List ProcInfo → Output
  entries_out : (entries : ℕ) → List Dirent → Output
  drives_out : (buf : ℕ) → List DriveInfo → Output
  time_out : (out : ℕ) → RtcTime → Output
  screen_cleared : Output

pub record Reply (S : Type 0) : Type 0 where
  pub value : ℕ
  pub output : Output
  pub kernel : Kernel S

-- An `int` or an `int64_t` as a `uint64_t`.
abbrev pub unsigned : ℤ → ℕ
unsigned (pos n) = n % 2 ^ 64
unsigned (negsuc n) = 2 ^ 64 - 1 - n % 2 ^ 64

-- What the hardware tells: the timer, the clock, the time-stamp counter; the names that the heap would
-- give new objects; and the labels of the drives.
pub record World : Type 0 where
  pub ticks : ℕ
  pub now : RtcTime
  pub counter : ℕ
  pub new_proc : ℕ
  pub new_thread : ℕ
  pub labels : List (List ℕ)

module _ {S : Type 0} (ops : FileOps S) (drives : List Drive) (kernel_space : ℕ) (w : World) where
  abbrev reply : ℕ → Output → Kernel S → Outcome (Reply S)
  reply value output k = ok (record { value = value; output = output; kernel = k })

  -- The thread was blocked and looks again when it runs, so that the call has no value yet.
  abbrev port_reply : ℕ → Kernel S → PortReply S → Reply S
  port_reply buf k refused = record { value = 2 ^ 64 - 1; output = no_output; kernel = k }
  port_reply buf k (message msg k') = record {
    value = unsigned (to_int (length msg));
    output = bytes_out buf msg;
    kernel = k';
  }
  port_reply buf k (blocked_on k') = record { value = 0; output = no_output; kernel = k' }

  -- `p` is the process of the calling thread.
  unfoldable pub handle : ℕ → Call → Kernel S → Outcome (Reply S)
  handle p (exit_call code) k = sys_exit ops drives w.ticks p k >>= λ k'. reply 0 no_output k'
  handle p (print_call text) k = reply 0 (text_out text) k
  handle p (mmap_call addr size) k = sys_mmap p addr size k >>= λ r. reply r.0 no_output r.1
  handle p (munmap_call addr size) k =
      sys_munmap p addr size k >>= λ r. reply (unsigned r.0) no_output r.1
  handle p (spawn_call name argv) k =
      sys_spawn ops drives kernel_space w.new_proc w.new_thread p name argv k >>= λ r.
      reply r.0 no_output r.1
  handle p getpid_call k = reply ((k.procs p).pid) no_output k
  handle p (wait_pid_call pid) k = reply 0 no_output (sys_wait_pid ops drives w.ticks pid k)
  handle p uptime_call k = reply w.ticks no_output k
  handle p (sleep_call ms) k = reply 0 no_output (sys_sleep ops drives w.ticks ms k)
  handle p (kill_call pid) k =
      sys_kill ops drives w.ticks pid k >>= λ r. reply (unsigned r.0) no_output r.1
  handle p (open_call path) k =
      sys_open ops drives p path k >>= λ r. reply (unsigned r.0) no_output r.1
  handle p (read_call fd buf size) k = sys_read ops drives p fd size k >>= λ r.
      let (n, read, k') = r in reply (unsigned n) (bytes_out buf read) k'
  handle p (close_call fd) k =
      sys_close ops drives p fd k >>= λ r. reply (unsigned r.0) no_output r.1
  handle p (gettime_call out) k = reply 0 (time_out out w.now) k
  handle p (listprocs_call buf max) k =
      let (n, list) = sys_listprocs ops drives max k in reply n (procs_out buf list) k
  handle p (listdir_call path entries max) k = sys_listdir ops drives path max k >>= λ r.
      let (n, list, k') = r in reply (unsigned n) (entries_out entries list) k'
  handle p (write_call fd buf) k =
      sys_write ops drives p fd buf k >>= λ r. reply (unsigned r.0) no_output r.1
  handle p port_create_call k = sys_port_create w.counter p k >>= λ r. reply r.0 no_output r.1
  handle p (port_forward_call token msg) k =
      let (n, ports) = port_forward (thread_of k) token msg k.ports in
      reply n no_output (record k { ports = ports })
  handle p (port_receive_call token buf len) k =
      sys_port_receive w.ticks p token len k >>= λ r. ok (port_reply buf k r)
  handle p (port_destroy_call token) k =
      sys_port_destroy p token k >>= λ r. reply (unsigned r.0) no_output r.1
  handle p (get_cwd_call buf size) k =
      sys_get_cwd ops drives p buf size k >>= λ r. reply (unsigned r.0) no_output r.1
  handle p (set_cwd_call buf size) k =
      sys_set_cwd ops drives p buf size k >>= λ r. reply (unsigned r.0) no_output r.1
  handle p clear_screen_call k = reply 0 screen_cleared k
  handle p (listdrives_call buf max) k =
      let (n, list) = sys_listdrives ops drives w.labels max in reply n (drives_out buf list) k
  handle p (seek_call fd offset whence) k =
      sys_seek ops drives p fd offset whence k >>= λ r. reply (unsigned r.0) no_output r.1
  handle p (unknown_call n) k = reply (2 ^ 64 - 1) no_output k

  -- The calls are made by threads that have a process.
  unfoldable pub syscall_dispatch : Call → Kernel S → Outcome (Reply S)
  syscall_dispatch call k = elim ((k.ports.sched.threads k.ports.sched.curr_thread).process) [
    | none ↦ panic null_block
    | some p ↦ handle p call k
  ]
