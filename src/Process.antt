-- ===== src/Process.antt =====
-- src/multi/process.c: making, finding and clearing away processes, and the user's side of
-- src/multi/thread.c.
pub mod Arguments
pub mod Reaped
mod Examples
use cobj_os.Prelude.{
  ℕ, zero, suc, ◌+◌, ◌-◌, ◌*◌, ◌/◌, ◌%◌, ◌^◌, bit_and, Bool, true, false, not, ◌||◌, Option, none,
  some, List, [], ◌∷◌, ◌++◌, ltb, leb, ◌==◌, if◌then◌else◌, length, replicate, take, get_or,
}
use cobj_os.Prelude.Ints.{ℤ, pos, negsuc, is_negative}
use cobj_os.Prelude.Outcome.{
  Outcome, ok, panic, ◌>>=◌, null_call, no_user_stack, no_thread_stack, init_not_found,
  init_unreadable,
}
use cobj_os.Pmm.{Pmm, alloc_pages, free_pages}
use cobj_os.Thread.{Thread, ThreadState, ready, dead, Scheduler, update, runqueue_push}
use cobj_os.Vmm.{Tables, vmm_map_page, vmm_create_user_space}
use cobj_os.Memory.{Memory, fill_zero, store}
use cobj_os.Elf.{elf_load}
use cobj_os.Port.{Ports}
use cobj_os.Vfs.{Drive, vfs_resolve}
use cobj_os.Kernel.{
  FileOps, File, Process, UserEntry, Kernel, put_process, resolved_node, max_fds, max_ports,
}

-- The bytes of a number in memory, the lowest first.
unfoldable pub le_bytes : ℕ → ℕ → List ℕ
le_bytes zero n = []
le_bytes (suc width) n = n % 256 ∷ le_bytes width (n / 256)

abbrev pub words_bytes : List ℕ → List ℕ
words_bytes [] = []
words_bytes (w ∷ ws) = le_bytes 8 w ++ words_bytes ws

abbrev pub stack_top : ℕ
stack_top = 0x7fffff000000

abbrev pub stack_base : ℕ
stack_base = 0x7fffff000000 - 4 * 4096

-- `x -= n; x &= mask;` on a 64-bit word.
unfoldable pub down : ℕ → ℕ → ℕ → ℕ
down mask x n = bit_and ((x + 2 ^ 64 - n) % 2 ^ 64) mask

pub record Area : Type 0 where
  pub str_off : ℕ
  pub ptrs : List ℕ
  pub bytes : ℕ → ℕ

-- The loop over the arguments from the last to the first, which are given in that order and without
-- their terminators; `ptrs` are the pointers to those that are done.
unfoldable pub arguments_loop : List (List ℕ) → ℕ → Area → Area
arguments_loop [] stack_phys a = a
arguments_loop (arg ∷ args) stack_phys a =
    let str_off = down 0xfffffffffffffff8 a.str_off (length arg + 1) in
    arguments_loop args stack_phys (record {
      str_off = str_off;
      ptrs = (stack_base + str_off) ∷ a.ptrs;
      bytes = store (stack_phys + str_off) (arg ++ 0 ∷ []) a.bytes;
    })

abbrev pub reversed {ℓ} : {A : Type ℓ} → List A → List A → List A
reversed [] acc = acc
reversed (x ∷ xs) acc = reversed xs (x ∷ acc)

-- The arguments, and below them the array of the pointers, which ends with NULL.
unfoldable pub arguments : List (List ℕ) → ℕ → (ℕ → ℕ) → Area
arguments argv stack_phys bytes =
    let a =
      arguments_loop (reversed argv []) stack_phys
        (record { str_off = 4 * 4096; ptrs = 0 ∷ []; bytes = bytes }) in
    let str_off = down 0xfffffffffffffff0 a.str_off ((length argv + 1) * 8) in
    record a {
      str_off = str_off;
      bytes = store (stack_phys + str_off) (words_bytes a.ptrs) a.bytes;
    }

-- The pages of the user's stack, from number `i` on.
unfoldable pub map_stack : ℕ → ℕ → ℕ → ℕ → Tables → Outcome Tables
map_stack zero i space stack_phys m = ok m
map_stack (suc left) i space stack_phys m =
    vmm_map_page space (stack_base + i * 4096) (stack_phys + i * 4096) 7 m >>= λ m'.
    map_stack left (i + 1) space stack_phys m'

abbrev pub kernel_stack_size : ℕ
kernel_stack_size = 4096 * 4

-- The stack that a new thread starts on is at its physical address here; what `thread_switch` finds on
-- it is not looked at.
unfoldable pub thread_create_user : Memory → Outcome (Thread × Memory)
thread_create_user m = alloc_pages 4 m.tables.pmm >>= λ taken.
    let (stack_phys, pmm) = taken in
    let thread : Thread = record {
      state = ready;
      kernel_rsp_top = stack_phys + kernel_stack_size;
      process = none;
      waiting_for = 2 ^ 64 - 1;
      sleep_until = 0;
    } in
    if stack_phys == 0
    then panic no_thread_stack
    else ok (
      thread,
      record {
        tables = record (m.tables) { pmm = pmm };
        bytes = fill_zero stack_phys kernel_stack_size m.bytes;
      },
    )

-- A number of bytes that is not negative.
abbrev pub magnitude : ℤ → ℕ
magnitude (pos n) = n
magnitude (negsuc n) = 0

abbrev pub is_dead : ThreadState → Bool
is_dead dead = true
is_dead _ = false

abbrev pub or_text : List ℕ → List ℕ → List ℕ
or_text [] d = d
or_text (c ∷ text) d = c ∷ text

abbrev pub first_or : List (List ℕ) → List ℕ → List ℕ
first_or [] d = d
first_or (arg ∷ args) d = arg

-- The process on the list with the number.
unfoldable pub find_loop : (ℕ → Process) → List ℕ → ℕ → Option ℕ
find_loop procs [] pid = none
find_loop procs (p ∷ rest) pid =
    let next = find_loop procs rest pid in if (procs p).pid == pid then some p else next

unfoldable pub proc_find : {S : Type 0} → ℕ → Kernel S → Option ℕ
proc_find pid k = find_loop k.procs k.proc_list pid

-- The loop of `proc_cleanup` over the processes that are left; the stack of a dead thread is given back.
unfoldable pub reap_loop : (ℕ → Process) → (ℕ → Thread) → List ℕ → Pmm → Outcome (List ℕ × Pmm)
reap_loop procs threads [] pmm = ok ([], pmm)
reap_loop procs threads (p ∷ rest) pmm =
    let t = threads (procs p).thread in
    let kept = reap_loop procs threads rest pmm >>= λ r. let (ps, pmm') = r in ok (p ∷ ps, pmm') in
    let freed = free_pages (t.kernel_rsp_top - kernel_stack_size) 4 pmm >>= λ pmm'.
    reap_loop procs threads rest pmm' in
    if is_dead t.state then freed else kept

-- `alive` is not 0.
unfoldable pub any_alive : (ℕ → Process) → (ℕ → Thread) → List ℕ → Bool
any_alive procs threads [] = false
any_alive procs threads (p ∷ rest) =
    not (is_dead (threads (procs p).thread).state) || any_alive procs threads rest

module _ {S : Type 0} (ops : FileOps S) (drives : List Drive) (kernel_space : ℕ) where
  -- The file for one of the standard paths, if it can be resolved.
  unfoldable pub open_std : List ℕ → ℕ → S → Outcome (Option File × S)
  open_std path flags s = resolved_node (vfs_resolve ops.nodes drives path s) >>= λ r.
      let (node, s') = r in
      ok (
        elim node [ none ↦ none | some n ↦ some (record { node = n; offset = 0; flags = flags }) ],
        s',
      )

  abbrev pub std_in : List ℕ
  std_in = b'1' ∷ b':' ∷ b'/' ∷ b's' ∷ b't' ∷ b'd' ∷ b'i' ∷ b'n' ∷ 0 ∷ []

  abbrev pub std_out : List ℕ
  std_out = b'1' ∷ b':' ∷ b'/' ∷ b's' ∷ b't' ∷ b'd' ∷ b'o' ∷ b'u' ∷ b't' ∷ 0 ∷ []

  -- From the loaded program on: the stack with the arguments, the thread, the process and its files.
  -- `proc` and `thread` name the new objects.
  unfoldable pub start_process :
      (proc thread space entry : ℕ) → List (List ℕ) → List ℕ → Kernel S → Outcome (ℕ × Kernel S)
  start_process proc thread space entry argv parent_cwd k =
      alloc_pages 4 k.memory.tables.pmm >>= λ taken.
      let (stack_phys, pmm) = taken in
      if stack_phys == 0
      then panic no_user_stack
      else map_stack 4 0 space stack_phys (record (k.memory.tables) { pmm = pmm }) >>= λ tables.
          let a = arguments argv stack_phys k.memory.bytes in
          thread_create_user (record { tables = tables; bytes = a.bytes }) >>= λ created.
          let (t, memory) = created in
          open_std std_in 1 k.fs >>= λ opened.
          let (in_file, fs') = opened in
          open_std std_out 2 fs' >>= λ opened'.
          let (out_file, fs'') = opened' in
          let new : Process = record {
            pid = k.next_proc_id;
            name = take 63 (first_or argv (b'u' ∷ b'n' ∷ b'k' ∷ b'n' ∷ b'o' ∷ b'w' ∷ b'n' ∷ []));
            space = space;
            thread = thread;
            heap_top = 0x10000000;
            regions = [];
            fds = in_file ∷ out_file ∷ replicate (max_fds - 2) none;
            ports = replicate max_ports none;
            cwd = take 255 (or_text parent_cwd (b'0' ∷ b':' ∷ b'/' ∷ []));
          } in
          let threads = update thread (record t { process = some proc }) k.ports.sched.threads in
          let sched = runqueue_push thread (record (k.ports.sched) { threads = threads }) in
          ok (
            k.next_proc_id,
            record (put_process proc new k) {
              proc_list = proc ∷ k.proc_list;
              next_proc_id = (k.next_proc_id + 1) % 2 ^ 64;
              user_entries = λ u.
                  if u == thread
                  then record {
                    user_entry = entry;
                    user_rsp = stack_base + a.str_off - 16;
                    user_argc = length argv;
                    user_argv = stack_base + a.str_off;
                  }
                  else k.user_entries u;
              ports = record (k.ports) { sched = sched };
              memory = memory;
              fs = fs'';
            },
          )

  -- The number of the new process, or -1 as a `uint64_t`.
  unfoldable pub proc_create :
      (proc thread : ℕ) → (ℕ → ℕ) → ℕ → List (List ℕ) → List ℕ → Kernel S → Outcome (ℕ × Kernel S)
  proc_create proc thread elf_data elf_size argv parent_cwd k =
      vmm_create_user_space kernel_space k.memory.tables >>= λ made.
      let (space, tables) = made in
      elf_load space elf_data elf_size (record (k.memory) { tables = tables }) >>= λ loaded.
      let (entry, memory) = loaded in
      let k' = record k { memory = memory } in
      if entry == 0
      then ok (2 ^ 64 - 1, k')
      else start_process proc thread space entry argv parent_cwd k'

  abbrev pub init_path : List ℕ
  init_path = b'0' ∷ b':' ∷ b'/' ∷ b'i' ∷ b'n' ∷ b'i' ∷ b't' ∷ b'/' ∷ b'i' ∷ b'n' ∷ b'i' ∷ b't' ∷ []

  -- A file that must be read whole, as a function from offsets to bytes.
  unfoldable pub read_whole : ℕ → S → Outcome (Option (ℕ → ℕ) × S)
  read_whole node s =
      let size = ops.size node in
      let (n, content, s') = ops.read node size 0 s in
      if not (ops.has_read node)
      then panic null_call
      else ok (
        if is_negative n || not (magnitude n == size) then none else some (λ i. get_or content i 0),
        s',
      )

  abbrev pub release_node : ℕ → S → S
  release_node node s = if ops.nodes.has_release node then ops.nodes.release node s else s

  -- `init` is started again when no process is alive.
  unfoldable pub start_init : (proc thread : ℕ) → Kernel S → Outcome (Kernel S)
  start_init proc thread k =
      resolved_node (vfs_resolve ops.nodes drives (init_path ++ 0 ∷ []) k.fs) >>= λ r.
      let (node, fs) = r in
      elim node [
        | none ↦ panic init_not_found
        | some n ↦ read_whole n fs >>= λ got.
            let (content, fs') = got in
            elim content [
              | none ↦ panic init_unreadable
              | some elf ↦
                  proc_create proc thread elf (ops.size n) (init_path ∷ []) []
                    (record k { fs = release_node n fs' })
                  >>= λ started. ok started.1
            ]
      ]

  unfoldable pub proc_cleanup : (proc thread : ℕ) → Kernel S → Outcome (Kernel S)
  proc_cleanup proc thread k =
      let threads = k.ports.sched.threads in
      reap_loop k.procs threads k.proc_list k.memory.tables.pmm >>= λ r.
      let (alive, pmm) = r in
      let k' = record k {
        proc_list = alive;
        memory = record (k.memory) { tables = record (k.memory.tables) { pmm = pmm } };
      } in
      let again = start_init proc thread k' in
      if any_alive k.procs threads alive then ok k' else again
