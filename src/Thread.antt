-- ===== src/Thread.antt =====
-- src/multi/thread.c: the run queue and the scheduler.
-- A thread is named by a number, and its fields are kept in a function from names. The circular list
-- of the run queue is the list of its members from `runqueue_head` on.
pub mod Pick
pub mod Running
mod Examples
use cobj_os.Prelude.{
  ℕ, zero, suc, ◌+◌, ◌-◌, ◌^◌, Bool, true, false, not, ◌&&◌, ◌||◌, Option, none, some, List, [],
  ◌∷◌, ◌++◌, ltb, leb, ◌==◌, if◌then◌else◌,
}

pub data ThreadState : Type 0 where
  ready running blocked dead : ThreadState

pub record Thread : Type 0 where
  pub state : ThreadState
  pub kernel_rsp_top : ℕ
  pub process : Option ℕ
  pub waiting_for : ℕ
  pub sleep_until : ℕ

-- `kernel_rsp` stands for both places that hold the kernel stack, `space` for the process whose
-- address space is loaded, or `none` for the kernel's.
pub record Scheduler : Type 0 where
  pub threads : ℕ → Thread
  pub queue : List ℕ
  pub curr_thread : ℕ
  pub idle_thread : ℕ
  pub kernel_rsp : ℕ
  pub space : Option ℕ

abbrev pub update : ℕ → Thread → (ℕ → Thread) → ℕ → Thread
update t v threads = λ u. if u == t then v else threads u

abbrev pub is_ready : ThreadState → Bool
is_ready ready = true
is_ready _ = false

abbrev pub is_running : ThreadState → Bool
is_running running = true
is_running _ = false

abbrev pub is_blocked : ThreadState → Bool
is_blocked blocked = true
is_blocked _ = false

-- The thread was in no queue before.
unfoldable pub runqueue_push : ℕ → Scheduler → Scheduler
runqueue_push t s = record s {
  threads = update t (record (s.threads t) { state = ready }) s.threads;
  queue = s.queue ++ t ∷ [];
}

-- A sleeper whose time has come is ready.
unfoldable pub wake_due : ℕ → Thread → Thread
wake_due ticks t =
    if is_blocked t.state && ltb 0 t.sleep_until && leb t.sleep_until ticks
    then record t { state = ready; sleep_until = 0 }
    else t

pub record Picked : Type 0 where
  pub thread : ℕ
  pub threads : ℕ → Thread
  pub queue : List ℕ

-- The loop of `runqueue_next` over the members that are left; `seen` are those passed over.
unfoldable pub next_loop : ℕ → ℕ → List ℕ → List ℕ → (ℕ → Thread) → Picked
next_loop ticks idle [] seen threads = record { thread = idle; threads = threads; queue = seen }
next_loop ticks idle (c ∷ rest) seen threads =
    let threads' = update c (wake_due ticks (threads c)) threads in
    let next = next_loop ticks idle rest (seen ++ c ∷ []) threads' in
    if is_ready (threads' c).state
    then record { thread = c; threads = threads'; queue = rest ++ (seen ++ c ∷ []) }
    else next

abbrev pub is_empty : List ℕ → Bool
is_empty [] = true
is_empty (c ∷ rest) = false

unfoldable pub runqueue_next : ℕ → Scheduler → Picked
runqueue_next ticks s =
    if is_empty s.queue
    then record { thread = s.curr_thread; threads = s.threads; queue = s.queue }
    else next_loop ticks s.idle_thread s.queue [] s.threads

abbrev pub without : ℕ → List ℕ → List ℕ
without t [] = []
without t (c ∷ rest) = if c == t then rest else c ∷ without t rest

unfoldable pub runqueue_remove : ℕ → Scheduler → Scheduler
runqueue_remove t s = record s { queue = without t s.queue }

-- `if (prev->state == THREAD_RUNNING) prev->state = THREAD_READY;`
unfoldable pub stop_running : ℕ → (ℕ → Thread) → ℕ → Thread
stop_running prev threads =
    if is_running (threads prev).state
    then update prev (record (threads prev) { state = ready }) threads
    else threads

-- `thread_switch` saves and loads the registers; the call returns when `prev` runs again.
unfoldable pub switch_to : ℕ → Scheduler → Scheduler
switch_to next s =
    let stopped = stop_running s.curr_thread s.threads in
    record s {
      threads = update next (record (stopped next) { state = running }) stopped;
      curr_thread = next;
      kernel_rsp = (stopped next).kernel_rsp_top;
      space = (stopped next).process;
    }

unfoldable pub schedule : ℕ → Scheduler → Scheduler
schedule ticks s =
    let picked = runqueue_next ticks s in
    let s' = record s { threads = picked.threads; queue = picked.queue } in
    if picked.thread == s.curr_thread then s' else switch_to picked.thread s'

unfoldable pub wake_waiter : ℕ → Thread → Thread
wake_waiter pid t =
    if is_blocked t.state && t.waiting_for == pid
    then record t { state = ready; waiting_for = 2 ^ 64 - 1 }
    else t

-- The loop of `thread_wake_pid`.
unfoldable pub wake_loop : ℕ → List ℕ → (ℕ → Thread) → ℕ → Thread
wake_loop pid [] threads = threads
wake_loop pid (c ∷ rest) threads =
    wake_loop pid rest (update c (wake_waiter pid (threads c)) threads)

unfoldable pub thread_wake_pid : ℕ → Scheduler → Scheduler
thread_wake_pid pid s = record s { threads = wake_loop pid s.queue s.threads }
