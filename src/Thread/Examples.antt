-- ===== src/Thread/Examples.antt =====
-- The scheduler of src/multi/thread.c with three threads, and its theorems there.
use cobj_os.Prelude.{ℕ, ◌≡◌, refl, some, [], ◌∷◌, ◌==◌, if◌then◌else◌, arith}
use cobj_os.Thread.{
  Scheduler, Thread, ready, running, blocked, schedule, switch_to, runqueue_next, next_loop,
  wake_due, runqueue_push,
}
use cobj_os.Thread.Pick.{Progress, runqueue_next-Progress}
use cobj_os.Thread.Running.{OnlyCurrent, pushes, schedules, next, done, Steps-OnlyCurrent}

-- Thread 0 idles, 1 runs, 2 is ready, 3 sleeps until tick 50; thread n belongs to process n.
abbrev three : ℕ → Thread
three n = record {
  state = if n == 1 then running else if n == 3 then blocked else ready;
  kernel_rsp_top = n;
  process = some n;
  waiting_for = 0;
  sleep_until = if n == 3 then 50 else 0;
}

abbrev busy : Scheduler
busy = record {
  threads = three;
  queue = 3 ∷ 1 ∷ 2 ∷ 0 ∷ [];
  curr_thread = 1;
  idle_thread = 0;
  kernel_rsp = 1;
  space = some 1;
}

schedule_early : (schedule 49 busy).curr_thread ≡ 2
unfolding schedule switch_to runqueue_next next_loop wake_due
schedule_early = refl

schedule_late : (schedule 50 busy).curr_thread ≡ 3
unfolding schedule switch_to runqueue_next next_loop wake_due
schedule_late = refl

runqueue_next-Progress_example : Progress 0 3 (runqueue_next 49 busy)
runqueue_next-Progress_example = runqueue_next-Progress 49 0 (3 ∷ 1 ∷ 2 ∷ []) [] busy refl refl

busy-OnlyCurrent : OnlyCurrent busy
unfolding OnlyCurrent
busy-OnlyCurrent u e = ground (arith, e)

Steps-OnlyCurrent_example : OnlyCurrent (schedule 50 (runqueue_push 7 busy))
Steps-OnlyCurrent_example =
    Steps-OnlyCurrent (next (pushes 7 busy) (next (schedules 50 (runqueue_push 7 busy)) (done _)))
      busy-OnlyCurrent
