-- ===== src/Syscall/Exit.antt =====
-- Ending, awaiting and sleeping in src/userspace/syscall.c. `ticks` is what `apic_timer_ticks` returns. A call
-- of `schedule` is where another thread goes on; the kernel's state is the one that it finds.
pub mod Released
pub mod Given
pub mod Woken
pub mod Gone
use cobj_os.Prelude.{
  ℕ, zero, suc, ◌+◌, ◌-◌, ◌^◌, ◌%◌, Bool, true, false, not, ◌&&◌, Option, none, some, List, [], ◌∷◌,
  ◌==◌, if◌then◌else◌, get_or,
}
use cobj_os.Prelude.Ints.{ℤ, pos, negsuc}
use cobj_os.Prelude.Outcome.{Outcome, ok, panic, ◌>>=◌, dangling_port}
use cobj_os.Thread.{
  Thread, Scheduler, ThreadState, blocked, dead, update, runqueue_remove, schedule, thread_wake_pid,
}
use cobj_os.Port.{Port, Ports, port_destroy}
use cobj_os.Vfs.{Drive}
use cobj_os.Kernel.{FileOps, File, Process, Kernel, put_process, thread_of}
use cobj_os.Process.{proc_find}
use cobj_os.Syscall.Files.{drop_node}

-- The ports of a process are destroyed, one after the other.
unfoldable pub destroy_ports : (ℕ → ℕ) → List (Option ℕ) → Ports → Outcome Ports
destroy_ports thread [] ports = ok ports
destroy_ports thread (none ∷ held) ports = destroy_ports thread held ports
destroy_ports thread (some i ∷ held) ports = elim (get_or ports.port_table i none) [
  | none ↦ panic dangling_port
  | some port ↦ destroy_ports thread held (port_destroy thread i port ports)
]

abbrev pub all_none {ℓ} : {A : Type ℓ} → List (Option A) → List (Option A)
all_none [] = []
all_none (x ∷ xs) = none ∷ all_none xs

-- The descriptors from `FD_RESERVED` on become free.
abbrev pub only_reserved : List (Option File) → List (Option File)
only_reserved [] = []
only_reserved (a ∷ []) = a ∷ []
only_reserved (a ∷ b ∷ fds) = a ∷ b ∷ all_none fds

abbrev pub set_state : ThreadState → ℕ → Scheduler → Scheduler
set_state state t s = record s {
  threads = update t (record (s.threads t) { state = state }) s.threads;
}

module _ {S : Type 0} (ops : FileOps S) (drives : List Drive) where
  unfoldable pub drop_files : List (Option File) → S → S
  drop_files [] s = s
  drop_files (none ∷ fds) s = drop_files fds s
  drop_files (some f ∷ fds) s = drop_files fds (drop_node ops drives f.node s)

  abbrev pub drop_open : List (Option File) → S → S
  drop_open [] s = s
  drop_open (a ∷ []) s = s
  drop_open (a ∷ b ∷ fds) s = drop_files fds s

  -- The two loops that `sys_exit` and `sys_kill` begin with.
  unfoldable pub release_process : ℕ → Kernel S → Outcome (Kernel S)
  release_process p k =
      let proc = k.procs p in
      destroy_ports (thread_of k) proc.ports k.ports >>= λ ports. ok (
        put_process p (record proc { ports = all_none proc.ports; fds = only_reserved proc.fds })
          (record k { ports = ports; fs = drop_open proc.fds k.fs }))

  -- The thread leaves the queue for good.
  unfoldable pub end_thread : ℕ → Kernel S → Kernel S
  end_thread t k = record k {
    ports = record (k.ports) { sched = set_state dead t (runqueue_remove t k.ports.sched) };
    proc_needs_cleanup = true;
  }

  unfoldable pub reschedule : ℕ → Kernel S → Kernel S
  reschedule ticks k = record k {
    ports = record (k.ports) { sched = schedule ticks k.ports.sched };
  }

  -- The exit code is not kept.
  unfoldable pub sys_exit : (ticks p : ℕ) → Kernel S → Outcome (Kernel S)
  sys_exit ticks p k = release_process p k >>= λ k'.
      let ended = end_thread k'.ports.sched.curr_thread k' in
      let woken = record ended {
        ports = record (ended.ports) { sched = thread_wake_pid (k.procs p).pid ended.ports.sched };
      } in
      ok (reschedule ticks woken)

  unfoldable pub sys_kill : (ticks pid : ℕ) → Kernel S → Outcome (ℤ × Kernel S)
  sys_kill ticks pid k = elim (proc_find pid k) [
    | none ↦ ok (negsuc 0, k)
    | some p ↦ release_process p k >>= λ k'.
        let t = (k.procs p).thread in
        let ended = end_thread t k' in
        ok (pos 0, if t == k'.ports.sched.curr_thread then reschedule ticks ended else ended)
  ]

  unfoldable pub sys_wait_pid : (ticks pid : ℕ) → Kernel S → Kernel S
  sys_wait_pid ticks pid k =
      let self = k.ports.sched.curr_thread in
      let waiting : Thread = record (k.ports.sched.threads self) {
        state = blocked;
        waiting_for = pid;
      } in
      let k' = record k {
        ports = record (k.ports) {
          sched = record (k.ports.sched) { threads = update self waiting k.ports.sched.threads };
        };
      } in
      elim (proc_find pid k) [ none ↦ k | some p ↦ reschedule ticks k' ]

  unfoldable pub sys_sleep : (ticks ms : ℕ) → Kernel S → Kernel S
  sys_sleep ticks ms k =
      let self = k.ports.sched.curr_thread in
      let asleep : Thread = record (k.ports.sched.threads self) {
        state = blocked;
        sleep_until = (ticks + ms) % 2 ^ 64;
      } in
      reschedule ticks (record k {
        ports = record (k.ports) {
          sched = record (k.ports.sched) { threads = update self asleep k.ports.sched.threads };
        };
      })
