-- ===== src/Syscall/Examples.antt =====
-- Two processes, a file system of two nodes and one port, for src/userspace/syscall.c.
use cobj_os.Prelude.{
  ==_refl, ap, ◌++◌, ℕ, ◌+◌, ◌-◌, ◌*◌, ◌≡◌, refl, true, false, Option, none, some, List, [], ◌∷◌,
  arith, ◌==◌, if◌then◌else◌, take, drop, replicate,
}
use cobj_os.Prelude.Ints.{ℤ, pos, negsuc}
use cobj_os.Prelude.Outcome.{ok, ◌>>=◌}
use cobj_os.Pmm.{Pmm, free_page, free_pages, free_pages_loop, is_used, clear_bit}
use cobj_os.Thread.{Thread, ready, running, blocked, is_blocked}
use cobj_os.Port.{Port, token_of}
use cobj_os.Vfs.{
  Drive, vfs_resolve, resolved, parse_path, find_colon, drive_loop, next_component, skip_slashes,
  component_loop, resolve_drive, resolve_loop, let_go,
}
use cobj_os.Kernel.{FileOps, File, Process, Kernel}
use cobj_os.Process.{proc_cleanup, kernel_stack_size}
use cobj_os.Tarfs.{tarfs_read}
use cobj_os.Tarfs.Plain.{tarfs_read-content}
use cobj_os.Syscall.Files.{sys_seek}
use cobj_os.Syscall.Files.Dropped.{IsCounting}
use cobj_os.Syscall.Exit.Given.{Released}
use cobj_os.Syscall.Files.Descriptors.{Opened, close-open}
use cobj_os.Syscall.Files.Offsets.{IsPlain, read_pieces, seek-read_pieces}
use cobj_os.Syscall.Copy.{copy_to_user, copy_from_user}
use cobj_os.Syscall.Copy.Bytes.{to_user_bytes, from_user_bytes, copy_user-bytes}
use cobj_os.Syscall.Exit.{sys_exit, sys_kill}
use cobj_os.Syscall.Exit.Gone.{Apart, Gone, cleanup-kill}
use cobj_os.Syscall.Exit.Woken.{member, exit-Unblocked}
use cobj_os.Syscall.Channels.{sys_port_create, sys_port_destroy, free_place}
use cobj_os.Syscall.Channels.Held.{port_destroy-create}

abbrev content : List ℕ
content = b'h' ∷ b'e' ∷ b'l' ∷ b'l' ∷ b'o' ∷ []

-- An archive of one file: its header, of which nothing is read here, and its five bytes.
abbrev archive : List ℕ
archive = replicate 512 0 ++ content

abbrev is_a : List ℕ → Option ℕ
is_a (c ∷ []) = if c == b'a' then some 1 else none
is_a _ = none

-- Node 0 is the root, node 1 its file "a"; the state is the reference counts of the nodes.
abbrev held_more : Option ℕ → (ℕ → ℕ) → ℕ → ℕ
held_more none held = held
held_more (some n) held = λ m. if m == n then held n + 1 else held m

abbrev ops : FileOps (ℕ → ℕ)
ops = record {
  nodes = record {
    is_dir = λ n. n == 0;
    has_lookup = λ n. n == 0;
    has_release = λ n. true;
    lookup = λ n name held. (is_a name, held_more (is_a name) held);
    release = λ n held m. if m == n then held m - 1 else held m;
    retain = λ n held m. if m == n then held m + 1 else held m;
  };
  has_read = λ n. n == 1;
  has_write = λ n. false;
  has_readdir = λ n. n == 0;
  read = λ n len off held. let (r, buf) = tarfs_read archive 0 5 len off in (r, buf, held);
  write = λ n buf off held. (negsuc 0, held);
  readdir = λ n i held. (none, held);
  size = λ n. 5;
  refcount = λ n held. held n;
  set_refcount = λ n v held m. if m == n then v else held m;
}

counting : IsCounting ops
counting = record {
  same_node = λ n v held small. let self : (n == n) ≡ true = ==_refl n in rw self refl;
  other_node = λ m n v held ne. let apart : (m == n) ≡ false = ground (arith, ne) in rw apart refl;
}

abbrev drives : List Drive
drives = record { root = some 0; present = true } ∷ []

abbrev file_a : File
file_a = record { node = 1; offset = 0; flags = 1 }

-- Process 0 waits for process 1, whose thread has its stack in the frames 10 to 13 and which has the file
-- open and holds the port.
abbrev threads : ℕ → Thread
threads t = record {
  state = if t == 0 then running else if t == 1 then ready else blocked;
  kernel_rsp_top = 14 * 4096;
  process = if t == 0 then some 0 else some 1;
  waiting_for = if t == 2 then 8 else 100;
  sleep_until = 0;
}

abbrev process : ℕ → Process
process p = record {
  pid = if p == 0 then 7 else 8;
  name = [];
  space = 0;
  thread = p;
  heap_top = 0;
  regions = [];
  fds = if p == 1 then none ∷ none ∷ some file_a ∷ replicate 61 none else replicate 64 none;
  ports = if p == 1 then some 0 ∷ replicate 63 none else replicate 64 none;
  cwd = [];
}

abbrev port : Port
port = record { token = 5; messages = []; owner = 1 }

abbrev full : Pmm
full = record { page_count = 64; page_bitmap = 0xffffffffffffffff ∷ []; last_alloc_word = 0 }

abbrev kernel_on : ℕ → Kernel (ℕ → ℕ)
kernel_on curr = record {
  procs = process;
  proc_list = 1 ∷ 0 ∷ [];
  next_proc_id = 9;
  user_entries = λ t. record { user_entry = 0; user_rsp = 0; user_argc = 0; user_argv = 0 };
  ports = record {
    port_table = some port ∷ [];
    sched = record {
      threads = threads;
      queue = 0 ∷ 1 ∷ 2 ∷ [];
      curr_thread = curr;
      idle_thread = 3;
      kernel_rsp = 0;
      space = none;
    };
  };
  memory = record { tables = record { entries = λ a. 0; pmm = full }; bytes = λ b. 0 };
  fs = λ n. 1;
  proc_needs_cleanup = false;
}

abbrev kernel : Kernel (ℕ → ℕ)
kernel = kernel_on 0

abbrev path_a : List ℕ
path_a = b'0' ∷ b':' ∷ b'/' ∷ b'a' ∷ 0 ∷ []

-- The counts once the file is open.
abbrev opened : ℕ → ℕ
opened = λ m. if m == 1 then 2 else 1

path_a-resolved : vfs_resolve ops.nodes drives path_a (λ n. 1) ≡ resolved (some 1) opened
unfolding vfs_resolve parse_path find_colon drive_loop next_component skip_slashes component_loop
    resolve_drive resolve_loop let_go
path_a-resolved = refl

close-open_example : Opened ops drives counting 0 5 1 path_a kernel opened
close-open_example =
    close-open ops drives counting 0 5 1 path_a kernel opened refl (omega arith) (omega arith) refl
      path_a-resolved

plain : IsPlain ops drives 1 content
plain = record {
  readable = refl;
  short = omega arith;
  reads = λ len off held len_small off_small.
      ap (λ (r : ℤ × List ℕ). (r.0, r.1, held))
        (tarfs_read-content archive 0 5 len off (omega arith) (omega arith) len_small off_small);
}

seek-read_pieces_example :
    (k1 : Kernel (ℕ → ℕ)) × (k2 : Kernel (ℕ → ℕ)) × (k3 : Kernel (ℕ → ℕ)) × (read_pieces ops drives
        1
        (pos 2)
        (2 ∷ 9 ∷ [])
        kernel
      ≡ ok (take 11 content, k1))
    × (sys_seek ops drives 1 (pos 2) (pos 3) 0 k1 ≡ ok (pos 3, k2))
    × (read_pieces ops drives 1 (pos 2) (1 ∷ []) k2 ≡ ok (take 1 (drop 3 content), k3))
seek-read_pieces_example =
    seek-read_pieces ops drives 1 2 1 0 1 3 content (2 ∷ 9 ∷ []) (1 ∷ []) kernel plain
      (omega arith, (omega arith, tt)) (omega arith, tt) (omega arith) (omega arith) refl refl
      (omega arith)

copy_user-bytes_example :
    (copy_to_user 0 0x1ffe content kernel.memory ≡ (
      to_user_bytes 0 0x1ffe content kernel.memory.tables kernel.memory.bytes >>= λ r.
      ok (r.0, record (kernel.memory) { bytes = r.1 })))
    × (copy_from_user 0 0x1ffe 5 kernel.memory
        ≡ from_user_bytes 0 0x1ffe 5 [] kernel.memory.tables kernel.memory.bytes)
copy_user-bytes_example = copy_user-bytes 0 0x1ffe content 5 kernel.memory (omega arith)

abbrev stack_freed : Pmm
stack_freed = record full { page_bitmap = 0xffffffffffffc3ff ∷ [] }

stack_frees : free_pages (14 * 4096 - kernel_stack_size) 4 full ≡ ok stack_freed
unfolding free_pages free_pages_loop free_page is_used clear_bit
stack_frees = refl

process_0-Apart : Apart kernel 1 (0 ∷ [])
unfolding Apart
process_0-Apart = (refl, refl, refl, refl, tt)

none-Apart : Apart kernel 1 []
unfolding Apart
none-Apart = tt

cleanup-kill_example :
    (k1 : Kernel (ℕ → ℕ)) × (k2 : Kernel (ℕ → ℕ)) × (sys_kill ops drives 50 8 kernel
      ≡ ok (pos 0, k1))
    × (proc_cleanup ops drives 0 20 21 k1 ≡ ok k2)
    × Gone ops drives 0 counting 1 [] (0 ∷ []) kernel k1 k2
cleanup-kill_example =
    cleanup-kill ops drives 0 counting 50 1 0 20 21 [] (0 ∷ []) [] kernel stack_freed refl
      none-Apart process_0-Apart refl ((port, refl), tt) (omega arith) refl stack_frees

-- The thread of process 1 ends, for which thread 2 waits.
exit-Unblocked_example :
    (k' : Kernel (ℕ → ℕ)) × (sys_exit ops drives 50 1 (kernel_on 1) ≡ ok k')
    × Released ops 1 (kernel_on 1) k'
    × ((u : ℕ)
        → (u == 1) ≡ false
        → member u (0 ∷ 1 ∷ 2 ∷ []) ≡ true
        → (threads u).waiting_for ≡ 8
        → is_blocked (k'.ports.sched.threads u).state ≡ false)
exit-Unblocked_example = exit-Unblocked ops drives counting 50 1 (kernel_on 1) ((port, refl), tt)

port_destroy-create_example :
    (k' : Kernel (ℕ → ℕ)) × (k'' : Kernel (ℕ → ℕ)) × (sys_port_create 77 0 kernel
      ≡ ok (token_of 77, k'))
    × (sys_port_destroy 0 (token_of 77) k' ≡ ok (pos 0, k''))
    × ((q : ℕ) → k''.procs q ≡ process q)
    × (k''.ports.port_table ≡ some port ∷ none ∷ [])
unfolding free_place
port_destroy-create_example = port_destroy-create 77 0 0 kernel tt refl (omega arith)
