-- ===== src/Thread/Pick.antt =====
-- Which thread `runqueue_next` of src/multi/thread.c picks, and that no ready thread starves.
use cobj_os.Prelude.{
  ℕ, suc, ◌<◌, ◌≡◌, refl, ◌⊎◌, inl, inr, true, false, List, [], ◌∷◌, ◌++◌, arith, ◌==◌, Bool-cases,
  length, append_assoc,
}
use cobj_os.Thread.{
  Scheduler, Thread, ThreadState, ready, running, blocked, dead, is_ready, is_blocked, update,
  wake_due, Picked, next_loop, runqueue_next, is_empty,
}

-- `t` stands behind `before` in a queue.
abbrev pub Stands : ℕ → ℕ → List ℕ → Type 0
Stands t place queue =
    (before : List ℕ) × (after : List ℕ) × (queue ≡ before ++ t ∷ after) × (length before ≡ place)

ready_not_blocked : (s : ThreadState) → is_ready s ≡ true → is_blocked s ≡ false
ready_not_blocked ready e = refl
ready_not_blocked running e = refl
ready_not_blocked blocked e = cc
ready_not_blocked dead e = refl

wake_due-ready : (ticks : ℕ) (t : Thread) → is_ready t.state ≡ true → wake_due ticks t ≡ t
unfolding wake_due
wake_due-ready ticks t e = rw (ready_not_blocked t.state e) refl

update_ready :
    (ticks c t : ℕ) (threads : ℕ → Thread)
    → is_ready (threads t).state ≡ true
    → is_ready (update c (wake_due ticks (threads c)) threads t).state ≡ true
update_ready ticks c t threads e = elim (Bool-cases (t == c)) [
  | inl same ↦
      let at : t ≡ c = ground (arith, same) in
      let e' : is_ready (threads c).state ≡ true = rw at at e in
      rw (same, wake_due-ready ticks (threads c) e') e'
  | inr apart ↦ rw apart e
]

abbrev pub Progress : ℕ → ℕ → Picked → Type 0
Progress t place p =
    (p.thread ≡ t)
    ⊎ ((place' : ℕ) × (is_ready (p.threads t).state ≡ true)
        × (place' < place)
        × Stands t place' p.queue)

sooner : (t place : ℕ) (p : Picked) → Progress t place p → Progress t (suc place) p
sooner t place p (inl e) = inl e
sooner t place p (inr (place', e, lt, stands)) = inr (place', e, omega arith, stands)

next_loop-Progress :
    (ticks idle t : ℕ) (before after seen : List ℕ) (threads : ℕ → Thread)
    → is_ready (threads t).state ≡ true
    → Progress t (length before) (next_loop ticks idle (before ++ t ∷ after) seen threads)
unfolding next_loop
next_loop-Progress ticks idle t [] after seen threads e =
    rw (update_ready ticks t t threads e) (inl refl)
next_loop-Progress ticks idle t (b ∷ before) after seen threads e =
    let threads' = update b (wake_due ticks (threads b)) threads in
    elim (Bool-cases (is_ready (threads' b).state)) [
      | inl picked ↦ rw picked (
          inr (
            length before,
            update_ready ticks b t threads e,
            omega arith,
            (
              before,
              after ++ (seen ++ b ∷ []),
              append_assoc before (t ∷ after) (seen ++ b ∷ []),
              refl,
            ),
          ))
      | inr passed ↦ rw passed (
          sooner t (length before)
            (next_loop ticks idle (before ++ t ∷ after) (seen ++ b ∷ []) threads')
            (next_loop-Progress ticks idle t before after (seen ++ b ∷ []) threads'
              (update_ready ticks b t threads e)))
    ]

-- A ready thread of the run queue is picked, or it stays ready and comes strictly nearer to the head:
-- no other threads can keep it from running.
pub runqueue_next-Progress :
    (ticks t : ℕ) (before after : List ℕ) (s : Scheduler)
    → s.queue ≡ before ++ t ∷ after
    → is_ready (s.threads t).state ≡ true
    → Progress t (length before) (runqueue_next ticks s)
unfolding runqueue_next
runqueue_next-Progress ticks t before after s q e =
    rw (q, not_empty before) (next_loop-Progress ticks s.idle_thread t before after [] s.threads e)
  where
    not_empty : (b : List ℕ) → is_empty (b ++ t ∷ after) ≡ false
    not_empty [] = refl
    not_empty (c ∷ b) = refl
