-- ===== src/Process/Reaped.antt =====
-- `proc_cleanup` and `proc_find` of src/multi/process.c on a list in which one process is dead.
use cobj_os.Prelude.{
  ℕ, ◌-◌, ◌≡◌, refl, inl, inr, true, false, none, some, List, [], ◌∷◌, ◌++◌, arith, ◌==◌,
  Bool-cases,
}
use cobj_os.Prelude.Outcome.{ok}
use cobj_os.Pmm.{Pmm, free_pages}
use cobj_os.Thread.{Thread}
use cobj_os.Kernel.{Process}
use cobj_os.Process.{find_loop, reap_loop, any_alive, is_dead, kernel_stack_size}

-- Every process on the list has a thread that is not dead.
abbrev pub Alive : (ℕ → Process) → (ℕ → Thread) → List ℕ → Type 0
Alive procs threads [] = Unit {0}
Alive procs threads (p ∷ rest) =
    (is_dead (threads (procs p).thread).state ≡ false) × Alive procs threads rest

-- No process on the list has the number.
abbrev pub NoPid : (ℕ → Process) → ℕ → List ℕ → Type 0
NoPid procs pid [] = Unit {0}
NoPid procs pid (p ∷ rest) = (((procs p).pid == pid) ≡ false) × NoPid procs pid rest

module _ (procs : ℕ → Process) (threads : ℕ → Thread) where
  reap_loop-Alive :
      (list : List ℕ) (pmm : Pmm)
      → Alive procs threads list
      → reap_loop procs threads list pmm ≡ ok (list, pmm)
  unfolding reap_loop
  reap_loop-Alive [] pmm alive = refl
  reap_loop-Alive (p ∷ rest) pmm (here, alive) =
      let run = reap_loop-Alive rest pmm alive in rw (here, run) refl

  pub reap_loop-one :
      (before after : List ℕ) (p : ℕ) (pmm pmm' : Pmm)
      → Alive procs threads before
      → Alive procs threads after
      → is_dead (threads (procs p).thread).state ≡ true
      → free_pages ((threads (procs p).thread).kernel_rsp_top - kernel_stack_size) 4 pmm ≡ ok pmm'
      → reap_loop procs threads (before ++ (p ∷ after)) pmm ≡ ok (before ++ after, pmm')
  unfolding reap_loop
  reap_loop-one [] after p pmm pmm' alive alive' gone freed =
      let run = reap_loop-Alive after pmm' alive' in rw (gone, freed, run) refl
  reap_loop-one (q ∷ before) after p pmm pmm' (here, alive) alive' gone freed =
      let run = reap_loop-one before after p pmm pmm' alive alive' gone freed in rw (here, run) refl

  pub any_alive-member :
      (before after : List ℕ) (p : ℕ)
      → is_dead (threads (procs p).thread).state ≡ false
      → any_alive procs threads (before ++ (p ∷ after)) ≡ true
  unfolding any_alive
  any_alive-member [] after p here = rw here refl
  any_alive-member (q ∷ before) after p here =
      let rest = any_alive-member before after p here in
      elim (Bool-cases (is_dead (threads (procs q).thread).state)) [
        | inl e ↦ rw (e, rest) refl
        | inr e ↦ rw e refl
      ]

module _ (procs : ℕ → Process) where
  -- A list without the number, and a list from which a process with another number is taken.
  pub find_loop-none :
      (pid : ℕ) (list : List ℕ) → NoPid procs pid list → find_loop procs list pid ≡ none
  unfolding find_loop
  find_loop-none pid [] absent = refl
  find_loop-none pid (p ∷ rest) (here, absent) =
      let run = find_loop-none pid rest absent in rw (here, run) refl

  pub find_loop-without :
      (pid p : ℕ) (before after : List ℕ)
      → ((procs p).pid == pid) ≡ false
      → find_loop procs (before ++ (p ∷ after)) pid ≡ find_loop procs (before ++ after) pid
  unfolding find_loop
  find_loop-without pid p [] after other = rw other refl
  find_loop-without pid p (q ∷ before) after other =
      let run = find_loop-without pid p before after other in rw run refl

  pub find_loop-first :
      (pid p : ℕ) (before after : List ℕ)
      → (procs p).pid ≡ pid
      → NoPid procs pid before
      → find_loop procs (before ++ (p ∷ after)) pid ≡ some p
  unfolding find_loop
  find_loop-first pid p [] after e absent =
      let same : ((procs p).pid == pid) ≡ true = ground (arith, e) in rw same refl
  find_loop-first pid p (q ∷ before) after e (here, absent) =
      rw here (find_loop-first pid p before after e absent)
