-- ===== src/Syscall/Exit/Released.antt =====
-- What a process gives back when it ends, in src/userspace/syscall.c.
use cobj_os.Prelude.{
  ℕ, ◌≡◌, refl, ◌∙◌, inl, inr, true, false, Option, none, some, List, [], ◌∷◌, arith, ◌==◌, get_or,
  set, Bool-cases,
}
use cobj_os.Prelude.Outcome.{ok}
use cobj_os.Thread.{Scheduler, ThreadState, is_blocked}
use cobj_os.Port.{Port, Ports, unblock, port_destroy}
use cobj_os.Process.{is_dead}
use cobj_os.Syscall.Exit.{destroy_ports}

-- The table without the ports that are held, and that they are there: each once.
abbrev pub clear_held : List (Option Port) → List (Option ℕ) → List (Option Port)
clear_held table [] = table
clear_held table (none ∷ held) = clear_held table held
clear_held table (some i ∷ held) = clear_held (set table i none) held

abbrev pub Owned : List (Option Port) → List (Option ℕ) → Type 0
Owned table [] = Unit {0}
Owned table (none ∷ held) = Owned table held
Owned table (some i ∷ held) =
    ((port : Port) × (get_or table i none ≡ some port)) × Owned (set table i none) held

-- Threads may have been woken, and nothing else.
pub record WokenOnly (s s' : Scheduler) : Type 0 where
  pub same_queue : s'.queue ≡ s.queue
  pub same_current : s'.curr_thread ≡ s.curr_thread
  pub same_dead : (u : ℕ) → is_dead (s'.threads u).state ≡ is_dead (s.threads u).state
  pub same_waiting : (u : ℕ) → (s'.threads u).waiting_for ≡ (s.threads u).waiting_for
  pub same_stack : (u : ℕ) → (s'.threads u).kernel_rsp_top ≡ (s.threads u).kernel_rsp_top

WokenOnly-refl : (s : Scheduler) → WokenOnly s s
WokenOnly-refl s = record {
  same_queue = refl;
  same_current = refl;
  same_dead = λ u. refl;
  same_waiting = λ u. refl;
  same_stack = λ u. refl;
}

WokenOnly-trans : {s t r : Scheduler} → WokenOnly s t → WokenOnly t r → WokenOnly s r
WokenOnly-trans g h = record {
  same_queue = h.same_queue ∙ g.same_queue;
  same_current = h.same_current ∙ g.same_current;
  same_dead = λ u. h.same_dead u ∙ g.same_dead u;
  same_waiting = λ u. h.same_waiting u ∙ g.same_waiting u;
  same_stack = λ u. h.same_stack u ∙ g.same_stack u;
}

not_dead : (state : ThreadState) → is_blocked state ≡ true → is_dead state ≡ false
not_dead ThreadState.blocked e = refl
not_dead ThreadState.ready e = cc
not_dead ThreadState.running e = cc
not_dead ThreadState.dead e = cc

unblock-WokenOnly : (t : ℕ) (s : Scheduler) → WokenOnly s (unblock t s)
unfolding unblock
unblock-WokenOnly t s = elim (Bool-cases (is_blocked (s.threads t).state)) [
  | inr e ↦ rw e (WokenOnly-refl s)
  | inl e ↦
      let alive = not_dead (s.threads t).state e in
      rw e (record {
        same_queue = refl;
        same_current = refl;
        same_dead = λ u. elim (Bool-cases (u == t)) [
          | inr ne ↦ rw ne refl
          | inl h ↦ let same : u ≡ t = ground (arith, h) in rw (h, same, alive) refl
        ];
        same_waiting = λ u. elim (Bool-cases (u == t)) [
          | inr ne ↦ rw ne refl
          | inl h ↦ let same : u ≡ t = ground (arith, h) in rw (h, same) refl
        ];
        same_stack = λ u. elim (Bool-cases (u == t)) [
          | inr ne ↦ rw ne refl
          | inl h ↦ let same : u ≡ t = ground (arith, h) in rw (h, same) refl
        ];
      })
]

-- The ports that a process holds are destroyed, and no others.
pub destroy_ports-cleared :
    (thread : ℕ → ℕ) (held : List (Option ℕ)) (ports : Ports)
    → Owned ports.port_table held
    → (ports' : Ports) × (destroy_ports thread held ports ≡ ok ports')
      × (ports'.port_table ≡ clear_held ports.port_table held)
      × WokenOnly ports.sched ports'.sched
unfolding destroy_ports port_destroy
destroy_ports-cleared thread [] ports owned = (ports, refl, refl, WokenOnly-refl ports.sched)
destroy_ports-cleared thread (none ∷ held) ports owned =
    destroy_ports-cleared thread held ports owned
destroy_ports-cleared thread (some i ∷ held) ports ((port, at), owned) =
    let (ports', run, table, woken) =
      destroy_ports-cleared thread held (port_destroy thread i port ports) owned in
    (
      ports',
      rw (at, destroy_ports) run,
      table,
      WokenOnly-trans (unblock-WokenOnly (thread port.owner) ports.sched) woken,
    )
