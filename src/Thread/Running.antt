-- ===== src/Thread/Running.antt =====
-- The scheduler of src/multi/thread.c never has two threads running.
use cobj_os.Prelude.{
  ℕ, ◌≡◌, ◌≢◌, refl, ◌⊎◌, inl, inr, true, false, List, [], ◌∷◌, ◌++◌, arith, ◌==◌, Bool-cases,
  ==_refl,
}
use cobj_os.Thread.{
  Scheduler, Thread, is_ready, is_running, update, wake_due, wake_waiter, wake_loop,
  thread_wake_pid, next_loop, runqueue_next, runqueue_push, runqueue_remove, is_empty, schedule,
  switch_to, stop_running,
}

-- Every thread but `curr` is not running.
abbrev Others : ℕ → (ℕ → Thread) → Type 0
Others curr threads = (u : ℕ) → u ≢ curr → is_running (threads u).state ≡ false

-- A change of one thread that does not set it running.
Others-update :
    (curr c : ℕ) (t : Thread) (threads : ℕ → Thread)
    → is_running t.state ≡ false
    → Others curr threads
    → Others curr (update c t threads)
Others-update curr c t threads e others u apart = elim (Bool-cases (u == c)) [
  | inl same ↦ rw same e
  | inr other ↦ rw other (others u apart)
]

-- What wakes a thread sets it ready or leaves it.
Others-changed :
    (curr c : ℕ) (f : Thread → Thread) (threads : ℕ → Thread)
    → ((t : Thread) → is_running t.state ≡ false → is_running (f t).state ≡ false)
    → Others curr threads
    → Others curr (update c (f (threads c)) threads)
Others-changed curr c f threads keeps others u apart = elim (Bool-cases (u == c)) [
  | inl same ↦
      let at : u ≡ c = ground (arith, same) in
      let h = others u apart in rw same (keeps (threads c) (rw at at h))
  | inr other ↦ rw other (others u apart)
]

wake_due-running :
    (ticks : ℕ) (t : Thread)
    → is_running t.state ≡ false
    → is_running (wake_due ticks t).state ≡ false
unfolding wake_due
wake_due-running ticks t e = ground (arith, e)

wake_waiter-running :
    (pid : ℕ) (t : Thread)
    → is_running t.state ≡ false
    → is_running (wake_waiter pid t).state ≡ false
unfolding wake_waiter
wake_waiter-running pid t e = ground (arith, e)

next_loop-Others :
    (ticks idle curr : ℕ) (rest seen : List ℕ) (threads : ℕ → Thread)
    → Others curr threads
    → Others curr (next_loop ticks idle rest seen threads).threads
unfolding next_loop
next_loop-Others ticks idle curr [] seen threads others = others
next_loop-Others ticks idle curr (c ∷ rest) seen threads others =
    let threads' = update c (wake_due ticks (threads c)) threads in
    let others' : Others curr threads' =
      Others-changed curr c (wake_due ticks) threads (wake_due-running ticks) others in
    elim (Bool-cases (is_ready (threads' c).state)) [
      | inl e ↦ rw e others'
      | inr e ↦ rw e (next_loop-Others ticks idle curr rest (seen ++ c ∷ []) threads' others')
    ]

runqueue_next-Others :
    (ticks : ℕ) (s : Scheduler)
    → Others s.curr_thread s.threads
    → Others s.curr_thread (runqueue_next ticks s).threads
unfolding runqueue_next
runqueue_next-Others ticks s others = elim (Bool-cases (is_empty s.queue)) [
  | inl e ↦ rw e others
  | inr e ↦ rw e (next_loop-Others ticks s.idle_thread s.curr_thread s.queue [] s.threads others)
]

stop_running-all :
    (curr : ℕ) (threads : ℕ → Thread)
    → Others curr threads
    → (u : ℕ) → is_running (stop_running curr threads u).state ≡ false
unfolding stop_running
stop_running-all curr threads others u = elim (Bool-cases (u == curr)) [
  | inl same ↦
      let at : u ≡ curr = ground (arith, same) in
      elim (Bool-cases (is_running (threads curr).state)) [
        | inl e ↦ rw (e, same) refl
        | inr e ↦ rw (e, at) e
      ]
  | inr other ↦
      let apart : u ≢ curr = ground (arith, other) in
      elim (Bool-cases (is_running (threads curr).state)) [
        | inl e ↦ rw (e, other) (others u apart)
        | inr e ↦ rw e (others u apart)
      ]
]

switch_to-Others :
    (next : ℕ) (s : Scheduler)
    → Others s.curr_thread s.threads
    → Others next (switch_to next s).threads
unfolding switch_to
switch_to-Others next s others u apart =
    let other : (u == next) ≡ false = ground (arith, apart) in
    rw other (stop_running-all s.curr_thread s.threads others u)

-- Only the current thread may be running.
unfoldable pub OnlyCurrent : Scheduler → Type 0
OnlyCurrent s = (u : ℕ) → is_running (s.threads u).state ≡ true → u ≡ s.curr_thread

-- The kernel's calls into the scheduler, and its writes of a thread's state, none of which sets it
-- running.
pub data Step : Scheduler → Scheduler → Type 0 where
  pushes : (t : ℕ) (s : Scheduler) → Step s (runqueue_push t s)
  removes : (t : ℕ) (s : Scheduler) → Step s (runqueue_remove t s)
  wakes : (pid : ℕ) (s : Scheduler) → Step s (thread_wake_pid pid s)
  schedules : (ticks : ℕ) (s : Scheduler) → Step s (schedule ticks s)
  sets :
      (t : ℕ) (v : Thread) (s : Scheduler)
      → is_running v.state ≡ false
      → Step s (record s { threads = update t v s.threads })

pub data Steps : Scheduler → Scheduler → Type 0 where
  done : (s : Scheduler) → Steps s s
  next : {s s' s'' : Scheduler} → Step s s' → Steps s' s'' → Steps s s''

to_Others : (s : Scheduler) → OnlyCurrent s → Others s.curr_thread s.threads
unfolding OnlyCurrent
to_Others s only u apart = elim (Bool-cases (is_running (s.threads u).state)) [
  | inl e ↦ absurd (apart (only u e))
  | inr e ↦ e
]

from_Others : (s : Scheduler) → Others s.curr_thread s.threads → OnlyCurrent s
unfolding OnlyCurrent
from_Others s others u e = elim (Bool-cases (u == s.curr_thread)) [
  | inl same ↦ ground (arith, same)
  | inr other ↦ let apart : u ≢ s.curr_thread = ground (arith, other) in cc (others u apart, e)
]

wake_loop-Others :
    (pid curr : ℕ) (queue : List ℕ) (threads : ℕ → Thread)
    → Others curr threads
    → Others curr (wake_loop pid queue threads)
unfolding wake_loop
wake_loop-Others pid curr [] threads others = others
wake_loop-Others pid curr (c ∷ rest) threads others =
    wake_loop-Others pid curr rest (update c (wake_waiter pid (threads c)) threads)
      (Others-changed curr c (wake_waiter pid) threads (wake_waiter-running pid) others)

schedule-Others :
    (ticks : ℕ) (s : Scheduler)
    → Others s.curr_thread s.threads
    → Others (schedule ticks s).curr_thread (schedule ticks s).threads
unfolding schedule switch_to runqueue_next
schedule-Others ticks s others =
    let picked = runqueue_next ticks s in
    let others' = runqueue_next-Others ticks s others in
    elim (Bool-cases (picked.thread == s.curr_thread)) [
      | inl e ↦ rw e others'
      | inr e ↦ rw e (
          switch_to-Others (picked.thread)
            (record s { threads = picked.threads; queue = picked.queue }) others')
    ]

-- After a call of `schedule` the current thread is as it was picked and stays current, or another one
-- was picked, which is now running on its own kernel stack in its own process's address space.
schedule-switches :
    (ticks : ℕ) (s : Scheduler)
    → (let s' = schedule ticks s in
        ((s'.curr_thread ≡ s.curr_thread) × ((runqueue_next ticks s).thread ≡ s.curr_thread))
        ⊎ ((is_running (s'.threads s'.curr_thread).state ≡ true)
            × ((runqueue_next ticks s).thread ≡ s'.curr_thread)
            × (s'.kernel_rsp ≡ (s'.threads s'.curr_thread).kernel_rsp_top)
            × (s'.space ≡ (s'.threads s'.curr_thread).process)))
unfolding schedule switch_to
schedule-switches ticks s =
    let next = (runqueue_next ticks s).thread in
    elim (Bool-cases (next == s.curr_thread)) [
      | inl e ↦ let same : next ≡ s.curr_thread = ground (arith, e) in rw e (inl (refl, same))
      | inr e ↦ rw (e, ==_refl next) (inr (refl, refl, refl, refl))
    ]

Step-Others :
    {s s' : Scheduler}
    → Step s s'
    → Others s.curr_thread s.threads
    → Others s'.curr_thread s'.threads
unfolding runqueue_push runqueue_remove thread_wake_pid
Step-Others (pushes t s) others = Others-update s.curr_thread t _ s.threads refl others
Step-Others (removes t s) others = others
Step-Others (wakes pid s) others = wake_loop-Others pid s.curr_thread s.queue s.threads others
Step-Others (schedules ticks s) others = schedule-Others ticks s others
Step-Others (sets t v s e) others = Others-update s.curr_thread t v s.threads e others

-- Whatever calls follow each other, at most the current thread is running if that was so before.
pub Steps-OnlyCurrent : {s s' : Scheduler} → Steps s s' → OnlyCurrent s → OnlyCurrent s'
Steps-OnlyCurrent (done s) only = only
Steps-OnlyCurrent (next {s} {s'} {s''} step steps) only =
    Steps-OnlyCurrent steps (from_Others s' (Step-Others step (to_Others s only)))
