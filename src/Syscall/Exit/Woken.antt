-- ===== src/Syscall/Exit/Woken.antt =====
-- `sys_exit` of src/userspace/syscall.c wakes the threads that wait for the process.
use cobj_os.Prelude.{
  ℕ, ◌≡◌, refl, ap, ◌∙◌, inl, inr, Bool, true, false, ◌||◌, List, [], ◌∷◌, ◌++◌, arith, ◌==◌,
  Bool-cases, ==_refl,
}
use cobj_os.Prelude.Outcome.{ok}
use cobj_os.Thread.{
  Thread, Scheduler, ready, running, is_blocked, is_ready, is_running, update, wake_due,
  wake_waiter, wake_loop, thread_wake_pid, next_loop, runqueue_next, runqueue_remove, without,
  is_empty, schedule, switch_to, stop_running,
}
use cobj_os.Vfs.{Drive}
use cobj_os.Kernel.{FileOps, Kernel, put_process, thread_of}
use cobj_os.Syscall.Exit.{
  all_none, only_reserved, drop_open, release_process, end_thread, reschedule, sys_exit,
}
use cobj_os.Syscall.Files.Dropped.{IsCounting}
use cobj_os.Syscall.Exit.Given.{Released, ended-Released}
use cobj_os.Syscall.Exit.Released.{Owned, destroy_ports-cleared}

abbrev pub member : ℕ → List ℕ → Bool
member u [] = false
member u (c ∷ rest) = c == u || member u rest

abbrev Unblocked : ℕ → (ℕ → Thread) → Type 0
Unblocked u threads = is_blocked (threads u).state ≡ false

-- A change of one thread that does not block it.
Unblocked-update :
    (u c : ℕ) (t : Thread) (threads : ℕ → Thread)
    → (c ≡ u → is_blocked t.state ≡ false)
    → Unblocked u threads
    → Unblocked u (update c t threads)
Unblocked-update u c t threads new old = elim (Bool-cases (u == c)) [
  | inl h ↦ let same : c ≡ u = ground (arith, h) in rw h (new same)
  | inr ne ↦ rw ne old
]

wake_due-unblocked :
    (ticks : ℕ) (t : Thread)
    → is_blocked t.state ≡ false
    → is_blocked (wake_due ticks t).state ≡ false
unfolding wake_due
wake_due-unblocked ticks t e = ground (arith, e)

wake_waiter-unblocked :
    (pid : ℕ) (t : Thread)
    → is_blocked t.state ≡ false
    → is_blocked (wake_waiter pid t).state ≡ false
unfolding wake_waiter
wake_waiter-unblocked pid t e = ground (arith, e)

wake_waiter-waiting :
    (pid : ℕ) (t : Thread) → t.waiting_for ≡ pid → is_blocked (wake_waiter pid t).state ≡ false
unfolding wake_waiter
wake_waiter-waiting pid t e = elim (Bool-cases (is_blocked t.state)) [
  | inr free ↦ rw free free
  | inl h ↦ let same : (t.waiting_for == pid) ≡ true = ground (arith, e) in rw (h, same) refl
]

wake_loop-Unblocked :
    (pid u : ℕ) (list : List ℕ) (threads : ℕ → Thread)
    → Unblocked u threads
    → Unblocked u (wake_loop pid list threads)
unfolding wake_loop
wake_loop-Unblocked pid u [] threads e = e
wake_loop-Unblocked pid u (c ∷ rest) threads e =
    wake_loop-Unblocked pid u rest (update c (wake_waiter pid (threads c)) threads) (
      Unblocked-update u c (wake_waiter pid (threads c)) threads
        (λ same.
          wake_waiter-unblocked pid (threads c)
            (ap (λ (t : ℕ). is_blocked (threads t).state) same ∙ e))
        e)

-- A member that waits for the process is woken.
wake_loop-waiting :
    (pid u : ℕ) (list : List ℕ) (threads : ℕ → Thread)
    → member u list ≡ true
    → (threads u).waiting_for ≡ pid
    → Unblocked u (wake_loop pid list threads)
unfolding wake_loop
wake_loop-waiting pid u [] threads here e = cc
wake_loop-waiting pid u (c ∷ rest) threads here e = elim (Bool-cases (c == u)) [
  | inl h ↦
      let same : c ≡ u = ground (arith, h) in
      let self : (u == u) ≡ true = ==_refl u in
      let woken : Unblocked u (update u (wake_waiter pid (threads u)) threads) =
        rw self (wake_waiter-waiting pid (threads u) e) in
      rw same
        (wake_loop-Unblocked pid u rest (update u (wake_waiter pid (threads u)) threads) woken)
  | inr ne ↦
      let ne' : (u == c) ≡ false = ground (arith, ne) in
      let threads' = update c (wake_waiter pid (threads c)) threads in
      let kept : (threads' u).waiting_for ≡ pid = rw ne' e in
      wake_loop-waiting pid u rest threads' (rw ne at (here)) kept
]

next_loop-Unblocked :
    (ticks idle u : ℕ) (list seen : List ℕ) (threads : ℕ → Thread)
    → Unblocked u threads
    → Unblocked u (next_loop ticks idle list seen threads).threads
unfolding next_loop
next_loop-Unblocked ticks idle u [] seen threads e = e
next_loop-Unblocked ticks idle u (c ∷ rest) seen threads e =
    let threads' = update c (wake_due ticks (threads c)) threads in
    let e' : Unblocked u threads' =
      Unblocked-update u c (wake_due ticks (threads c)) threads
        (λ same.
          wake_due-unblocked ticks (threads c)
            (ap (λ (t : ℕ). is_blocked (threads t).state) same ∙ e))
        e in
    elim (Bool-cases (is_ready (threads' c).state)) [
      | inl h ↦ rw h e'
      | inr h ↦ rw h (next_loop-Unblocked ticks idle u rest (seen ++ c ∷ []) threads' e')
    ]

runqueue_next-Unblocked :
    (ticks u : ℕ) (s : Scheduler)
    → Unblocked u s.threads
    → Unblocked u (runqueue_next ticks s).threads
unfolding runqueue_next
runqueue_next-Unblocked ticks u s e = elim (Bool-cases (is_empty s.queue)) [
  | inl h ↦ rw h e
  | inr h ↦ rw h (next_loop-Unblocked ticks s.idle_thread u s.queue [] s.threads e)
]

stop_running-Unblocked :
    (u curr : ℕ) (threads : ℕ → Thread)
    → Unblocked u threads
    → Unblocked u (stop_running curr threads)
unfolding stop_running
stop_running-Unblocked u curr threads e = elim (Bool-cases (is_running (threads curr).state)) [
  | inr h ↦ rw h e
  | inl h ↦
      rw h
        (Unblocked-update u curr (record (threads curr) { state = ready }) threads (λ same. refl) e)
]

switch_to-Unblocked :
    (u next : ℕ) (s : Scheduler) → Unblocked u s.threads → Unblocked u (switch_to next s).threads
unfolding switch_to
switch_to-Unblocked u next s e =
    let stopped = stop_running s.curr_thread s.threads in
    Unblocked-update u next (record (stopped next) { state = running }) stopped (λ same. refl)
      (stop_running-Unblocked u s.curr_thread s.threads e)

-- To give up the processor blocks no thread.
schedule-Unblocked :
    (ticks u : ℕ) (s : Scheduler) → Unblocked u s.threads → Unblocked u (schedule ticks s).threads
unfolding schedule
schedule-Unblocked ticks u s e =
    let picked = runqueue_next ticks s in
    let e' = runqueue_next-Unblocked ticks u s e in
    elim (Bool-cases (picked.thread == s.curr_thread)) [
      | inl h ↦ rw h e'
      | inr h ↦ rw h (
          switch_to-Unblocked u picked.thread
            (record s { threads = picked.threads; queue = picked.queue }) e')
    ]

-- Who is on the queue stays on it when another thread leaves.
member-without :
    (u t : ℕ) (queue : List ℕ)
    → (u == t) ≡ false
    → member u queue ≡ true
    → member u (without t queue) ≡ true
member-without u t [] ne here = here
member-without u t (c ∷ rest) ne here = elim (Bool-cases (c == t)) [
  | inl e ↦
      let apart : (c == u) ≡ false = ground (arith, e, ne) in
      let here' : member u rest ≡ true = rw apart at here in rw e here'
  | inr e ↦ elim (Bool-cases (c == u)) [
    | inl h ↦ rw (e, h) refl
    | inr h ↦
        let here' : member u rest ≡ true = rw h at here in
        rw (e, h) (member-without u t rest ne here')
  ]
]

module _ {S : Type 0} (ops : FileOps S) (drives : List Drive) (counting : IsCounting ops) where
  -- Where the process owns the ports that it holds, `sys_exit` ends: its ports are gone from the table, which
  -- else has not changed, each of its files from descriptor 2 on is closed and its reference given up, and no
  -- other thread that was on the queue and waited for the process is blocked any more.
  pub exit-Unblocked :
      (ticks p : ℕ) (k : Kernel S)
      → Owned k.ports.port_table (k.procs p).ports
      → (k' : Kernel S) × (sys_exit ops drives ticks p k ≡ ok k')
        × Released ops p k k'
        × ((u : ℕ)
            → (u == k.ports.sched.curr_thread) ≡ false
            → member u k.ports.sched.queue ≡ true
            → (k.ports.sched.threads u).waiting_for ≡ (k.procs p).pid
            → is_blocked (k'.ports.sched.threads u).state ≡ false)
  unfolding sys_exit release_process end_thread reschedule runqueue_remove thread_wake_pid
  exit-Unblocked ticks p k owned =
      let proc = k.procs p in
      let (ports, run, table, woken) =
        destroy_ports-cleared (thread_of k) proc.ports k.ports owned in
      let self : (p == p) ≡ true = ==_refl p in
      let k0 : Kernel S =
        put_process p (record proc { ports = all_none proc.ports; fds = only_reserved proc.fds })
          (record k { ports = ports; fs = drop_open ops drives proc.fds k.fs }) in
      let ended = end_thread ops drives k0.ports.sched.curr_thread k0 in
      let s = thread_wake_pid proc.pid ended.ports.sched in
      (
        reschedule ops drives ticks (record ended { ports = record (ended.ports) { sched = s } }),
        rw (run, sys_exit) refl,
        ended-Released ops drives counting p k
            (reschedule ops drives ticks
              (record ended { ports = record (ended.ports) { sched = s } }))
            (rw self refl) (rw self refl) refl table,
        λ u other queued waits.
            let other' : (u == ports.sched.curr_thread) ≡ false = rw woken.same_current other in
            let waits' : (ended.ports.sched.threads u).waiting_for ≡ proc.pid =
              rw other' (woken.same_waiting u ∙ waits) in
            let queued' : member u ended.ports.sched.queue ≡ true =
              rw (woken.same_current, woken.same_queue)
                (member-without u k.ports.sched.curr_thread k.ports.sched.queue other queued) in
            schedule-Unblocked ticks u s (
              wake_loop-waiting proc.pid u ended.ports.sched.queue ended.ports.sched.threads queued'
                waits'),
      )
