-- ===== src/Syscall/Exit/Gone.antt =====
-- `sys_kill` of src/userspace/syscall.c and the `proc_cleanup` of src/multi/process.c that follows it.
use cobj_os.Prelude.{
  ℕ, ◌-◌, ◌≤◌, ◌≡◌, ◌≢◌, refl, sym, ap, ◌∙◌, inl, inr, true, false, none, some, List, [], ◌∷◌, ◌++◌,
  arith, ◌==◌, Bool-cases, ==_refl,
}
use cobj_os.Prelude.Ints.{pos}
use cobj_os.Prelude.Outcome.{ok}
use cobj_os.Pmm.{Pmm, free_pages}
use cobj_os.Thread.{Thread, runqueue_remove, without}
use cobj_os.Vfs.{Drive}
use cobj_os.Kernel.{FileOps, Process, Kernel, put_process, thread_of}
use cobj_os.Process.{
  proc_find, find_loop, reap_loop, any_alive, is_dead, kernel_stack_size, proc_cleanup,
}
use cobj_os.Process.Reaped.{
  Alive, NoPid, reap_loop-one, find_loop-none, find_loop-without, find_loop-first,
}
use cobj_os.Syscall.Exit.{all_none, only_reserved, drop_open, release_process, end_thread, sys_kill}
use cobj_os.Syscall.Files.Dropped.{IsCounting}
use cobj_os.Syscall.Exit.Given.{
  Released, ended-Released, count, others, without-count, without-others,
}
use cobj_os.Syscall.Exit.Released.{Owned, destroy_ports-cleared}

-- The processes on a list are others than `p`, with other numbers and threads, and none is dead.
unfoldable pub Apart : {S : Type 0} → Kernel S → ℕ → List ℕ → Type 0
Apart k p [] = Unit {0}
Apart k p (q ∷ list) =
    ((q == p) ≡ false)
    × (((k.procs q).thread == (k.procs p).thread) ≡ false)
    × (((k.procs q).pid == (k.procs p).pid) ≡ false)
    × (is_dead (k.ports.sched.threads ((k.procs q).thread)).state ≡ false)
    × Apart k p list

Apart-append :
    {S : Type 0} (k : Kernel S) (p : ℕ) (xs ys : List ℕ)
    → Apart k p xs
    → Apart k p ys
    → Apart k p (xs ++ ys)
unfolding Apart
Apart-append k p [] ys a b = b
Apart-append k p (x ∷ xs) ys (h, h', h'', h''', a) b =
    (h, h', h'', h''', Apart-append k p xs ys a b)

Apart-NoPid :
    {S : Type 0} (k : Kernel S) (p : ℕ) (xs : List ℕ)
    → Apart k p xs
    → NoPid k.procs ((k.procs p).pid) xs
unfolding Apart
Apart-NoPid k p [] a = tt
Apart-NoPid k p (x ∷ xs) (h, h', h'', h''', a) = (h'', Apart-NoPid k p xs a)

-- The processes of `k'` are those of `k` but for the files and ports, and the thread of `p` is dead.
record Ended {S : Type 0} (k : Kernel S) (p : ℕ) (k' : Kernel S) : Type 0 where
  pub same_pid : (q : ℕ) → (k'.procs q).pid ≡ (k.procs q).pid
  pub same_thread : (q : ℕ) → (k'.procs q).thread ≡ (k.procs q).thread
  pub ended : is_dead (k'.ports.sched.threads ((k.procs p).thread)).state ≡ true
  pub same_dead :
      (u : ℕ)
      → (u == (k.procs p).thread) ≡ false
      → is_dead (k'.ports.sched.threads u).state ≡ is_dead (k.ports.sched.threads u).state
  pub same_stack :
      (k'.ports.sched.threads ((k.procs p).thread)).kernel_rsp_top
      ≡ (k.ports.sched.threads ((k.procs p).thread)).kernel_rsp_top
  pub same_list : k'.proc_list ≡ k.proc_list
  pub same_memory : k'.memory ≡ k.memory

some-Alive :
    (procs : ℕ → Process) (threads : ℕ → Thread) (q : ℕ) (rest : List ℕ)
    → Alive procs threads (q ∷ rest)
    → any_alive procs threads (q ∷ rest) ≡ true
unfolding any_alive
some-Alive procs threads q rest (here, alive) = rw here refl

module _ {S : Type 0} (k k' : Kernel S) (p : ℕ) (e : Ended k p k') where
  Apart-Alive : (xs : List ℕ) → Apart k p xs → Alive k'.procs k'.ports.sched.threads xs
  unfolding Apart
  Apart-Alive [] a = tt
  Apart-Alive (x ∷ xs) (h, h', h'', h''', a) = (
    ap (λ (t : ℕ). is_dead (k'.ports.sched.threads t).state) (e.same_thread x)
        ∙ e.same_dead ((k.procs x).thread) h'
        ∙ h''',
    Apart-Alive xs a,
  )

  find_same : (list : List ℕ) (pid : ℕ) → find_loop k'.procs list pid ≡ find_loop k.procs list pid
  unfolding find_loop
  find_same [] pid = refl
  find_same (q ∷ list) pid =
      let same = e.same_pid q in let rest = find_same list pid in rw (same, rest) refl

  -- The clean-up finds the one dead process and gives its stack back.
  reap_loop-killed :
      (before after : List ℕ) (pmm : Pmm)
      → k.proc_list ≡ before ++ (p ∷ after)
      → Apart k p before
      → Apart k p after
      → free_pages
          ((k.ports.sched.threads ((k.procs p).thread)).kernel_rsp_top - kernel_stack_size)
          4
          k.memory.tables.pmm
        ≡ ok pmm
      → reap_loop k'.procs k'.ports.sched.threads k'.proc_list k'.memory.tables.pmm
        ≡ ok (before ++ after, pmm)
  reap_loop-killed before after pmm listed apart apart' freed =
      let stack : free_pages
            ((k'.ports.sched.threads ((k'.procs p).thread)).kernel_rsp_top - kernel_stack_size) 4
            k'.memory.tables.pmm
          ≡ ok pmm =
        rw (e.same_thread p, e.same_stack, e.same_memory) freed in
      let gone : is_dead (k'.ports.sched.threads ((k'.procs p).thread)).state ≡ true =
        rw (e.same_thread p) e.ended in
      rw (e.same_list, listed)
        (reap_loop-one k'.procs k'.ports.sched.threads before after p k'.memory.tables.pmm pmm
          (Apart-Alive before apart) (Apart-Alive after apart') gone stack)

  any_alive-killed :
      (q : ℕ) (list rest : List ℕ)
      → Apart k p list
      → list ≡ q ∷ rest
      → any_alive k'.procs k'.ports.sched.threads list ≡ true
  any_alive-killed q list rest apart left =
      let alive : Alive k'.procs k'.ports.sched.threads (q ∷ rest) =
        rw left at (Apart-Alive list apart) in
      rw left (some-Alive k'.procs k'.ports.sched.threads q rest alive)

module _ {S : Type 0} (ops : FileOps S) (drives : List Drive) (kernel_space : ℕ)
    (counting : IsCounting ops) where
  -- What is left of a process that was killed and cleared away.
  pub record Gone (p : ℕ) (before after : List ℕ) (k k1 k2 : Kernel S) : Type 0 where
    pub released : Released ops p k k1
    pub not_queued : count ((k.procs p).thread) k1.ports.sched.queue ≡ 0
    pub queue_kept :
        others ((k.procs p).thread) k1.ports.sched.queue
        ≡ others ((k.procs p).thread) k.ports.sched.queue
    pub list_left : k2.proc_list ≡ before ++ after
    pub not_found : proc_find ((k.procs p).pid) k2 ≡ none
    pub others_found : (pid : ℕ) → (k.procs p).pid ≢ pid → proc_find pid k2 ≡ proc_find pid k

  killed :
      (ticks p : ℕ) (k : Kernel S)
      → Owned k.ports.port_table (k.procs p).ports
      → ((k.procs p).thread == k.ports.sched.curr_thread) ≡ false
      → proc_find ((k.procs p).pid) k ≡ some p
      → (k1 : Kernel S) × (sys_kill ops drives ticks ((k.procs p).pid) k ≡ ok (pos 0, k1))
        × Ended k p k1
        × Released ops p k k1
        × (k1.ports.sched.queue ≡ without ((k.procs p).thread) k.ports.sched.queue)
  unfolding sys_kill release_process end_thread runqueue_remove
  killed ticks p k owned other found =
      let proc = k.procs p in
      let (ports, run, table, woken) =
        destroy_ports-cleared (thread_of k) proc.ports k.ports owned in
      let self : (p == p) ≡ true = ==_refl p in
      let self' : (proc.thread == proc.thread) ≡ true = ==_refl proc.thread in
      let current : (proc.thread == ports.sched.curr_thread) ≡ false =
        rw woken.same_current other in
      let k0 : Kernel S =
        put_process p (record proc { ports = all_none proc.ports; fds = only_reserved proc.fds })
          (record k { ports = ports; fs = drop_open ops drives proc.fds k.fs }) in
      (
        end_thread ops drives proc.thread k0,
        rw (found, run, current, sys_kill) refl,
        record {
          same_pid = λ q. elim (Bool-cases (q == p)) [
            | inr ne ↦ rw ne refl
            | inl h ↦ let same : q ≡ p = ground (arith, h) in rw (h, same) refl
          ];
          same_thread = λ q. elim (Bool-cases (q == p)) [
            | inr ne ↦ rw ne refl
            | inl h ↦ let same : q ≡ p = ground (arith, h) in rw (h, same) refl
          ];
          ended = rw self' refl;
          same_dead = λ u ne. rw ne (woken.same_dead u);
          same_stack = rw self' (woken.same_stack proc.thread);
          same_list = refl;
          same_memory = refl;
        },
        ended-Released ops drives counting p k (end_thread ops drives proc.thread k0) (rw self refl)
            (rw self refl) refl table,
        ap (without proc.thread) woken.same_queue,
      )

  cleaned :
      (proc thread : ℕ) (alive : List ℕ) (k : Kernel S) (pmm : Pmm)
      → reap_loop k.procs k.ports.sched.threads k.proc_list k.memory.tables.pmm ≡ ok (alive, pmm)
      → any_alive k.procs k.ports.sched.threads alive ≡ true
      → (k' : Kernel S) × (proc_cleanup ops drives kernel_space proc thread k ≡ ok k')
        × (k'.procs ≡ k.procs)
        × (k'.proc_list ≡ alive)
  unfolding proc_cleanup
  cleaned proc thread alive k pmm reaped some_left = (
    record k {
      proc_list = alive;
      memory = record (k.memory) { tables = record (k.memory.tables) { pmm = pmm } };
    },
    rw (reaped, some_left, proc_cleanup) refl,
    refl,
    refl,
  )

  -- A process that is on the list, runs on another thread than the caller's and owns the ports that it
  -- holds is killed: its ports are gone from the table, which else has not changed, each of its files
  -- from descriptor 2 on is closed and its reference given up, and its thread, which was at most once on
  -- the queue, is on it no more, while the others keep their order. If no other process is dead and one is left, and the pages of its stack can be given
  -- back, then the clean-up takes it from the list, so that its number is not found any more and every
  -- other number is found as before.
  pub cleanup-kill :
      (ticks p q proc thread : ℕ) (before after rest : List ℕ) (k : Kernel S) (pmm : Pmm)
      → k.proc_list ≡ before ++ (p ∷ after)
      → Apart k p before
      → Apart k p after
      → before ++ after ≡ q ∷ rest
      → Owned k.ports.port_table (k.procs p).ports
      → count ((k.procs p).thread) k.ports.sched.queue ≤ 1
      → ((k.procs p).thread == k.ports.sched.curr_thread) ≡ false
      → free_pages
          ((k.ports.sched.threads ((k.procs p).thread)).kernel_rsp_top - kernel_stack_size)
          4
          k.memory.tables.pmm
        ≡ ok pmm
      → (k1 : Kernel S) × (k2 : Kernel S) × (sys_kill ops drives ticks ((k.procs p).pid) k
          ≡ ok (pos 0, k1))
        × (proc_cleanup ops drives kernel_space proc thread k1 ≡ ok k2)
        × Gone p before after k k1 k2
  unfolding proc_find
  cleanup-kill ticks p q proc thread before after rest k pmm listed apart apart' left owned once
        other freed =
      let pid = (k.procs p).pid in
      let found : find_loop k.procs k.proc_list pid ≡ some p =
        rw listed
          (find_loop-first k.procs pid p before after refl (Apart-NoPid k p before apart)) in
      let (k1, run, e, released, queue) = killed ticks p k owned other found in
      let both = Apart-append k p before after apart apart' in
      let reaped = reap_loop-killed k k1 p e before after pmm listed apart apart' freed in
      let some_left = any_alive-killed k k1 p e q (before ++ after) rest both left in
      let (k2, run2, procs2, list2) =
        cleaned proc thread (before ++ after) k1 pmm reaped some_left in
      let search : (n : ℕ) → proc_find n k2 ≡ find_loop k.procs (before ++ after) n = λ n.
        ap (λ (t : (ℕ → Process) × List ℕ). find_loop t.0 t.1 n) (λ i. (procs2 i, list2 i))
        ∙ find_same k k1 p e (before ++ after) n in
      (
        k1,
        k2,
        run,
        run2,
        record {
          released = released;
          not_queued = rw queue (without-count ((k.procs p).thread) k.ports.sched.queue once);
          queue_kept = rw queue (without-others ((k.procs p).thread) k.ports.sched.queue);
          list_left = list2;
          not_found =
              search pid
              ∙ find_loop-none k.procs pid (before ++ after)
                  (Apart-NoPid k p (before ++ after) both);
          others_found = λ n ne.
              let apart_pid : (pid == n) ≡ false = ground (arith, ne) in
              search n
              ∙ sym (find_loop-without k.procs n p before after apart_pid)
              ∙ ap (λ (t : List ℕ). find_loop k.procs t n) (sym listed);
        },
      )
