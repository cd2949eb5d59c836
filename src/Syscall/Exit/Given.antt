-- ===== src/Syscall/Exit/Given.antt =====
-- What is left of a process that `sys_exit` or `sys_kill` of src/userspace/syscall.c ends.
use cobj_os.Prelude.{
  ℕ, zero, suc, ◌≤◌, ◌<◌, ◌≡◌, ◌≢◌, refl, ap, ◌∙◌, sym, inl, inr, Option, none, some, List, [], ◌∷◌,
  arith, ◌==◌, if◌then◌else◌, Bool-cases, get_or, set, drop, get_or-set_ne,
}
use cobj_os.Thread.{without}
use cobj_os.Port.{Port}
use cobj_os.Vfs.{Drive}
use cobj_os.Kernel.{FileOps, File, Kernel}
use cobj_os.Syscall.Files.{drop_node}
use cobj_os.Syscall.Files.Dropped.{IsCounting, ClosedAll, drop_node-Dropped}
use cobj_os.Syscall.Exit.{all_none, only_reserved, drop_files, drop_open}
use cobj_os.Syscall.Exit.Released.{clear_held}

-- Everything that process `p` held in `k` is given up in `k'`: its ports are gone from the table, which else
-- has not changed, and each of its files but the two standard ones is closed.
pub record Released {S : Type 0} (ops : FileOps S) (p : ℕ) (k k' : Kernel S) : Type 0 where
  pub no_ports : (place : ℕ) → get_or (k'.procs p).ports place none ≡ none
  pub destroyed :
      (place i : ℕ)
      → get_or (k.procs p).ports place none ≡ some i
      → get_or k'.ports.port_table i none ≡ none
  pub other_ports :
      (i : ℕ)
      → ((place : ℕ) → get_or (k.procs p).ports place none ≢ some i)
      → get_or k'.ports.port_table i none ≡ get_or k.ports.port_table i none
  pub no_files : (fd : ℕ) → 2 ≤ fd → get_or (k'.procs p).fds fd none ≡ none
  pub standard :
      (fd : ℕ) → fd < 2 → get_or (k'.procs p).fds fd none ≡ get_or (k.procs p).fds fd none
  pub closed : ClosedAll ops (drop 2 (k.procs p).fds) k.fs k'.fs

all_none-none : (held : List (Option ℕ)) (i : ℕ) → get_or (all_none held) i none ≡ none
all_none-none [] i = refl
all_none-none (x ∷ held) zero = refl
all_none-none (x ∷ held) (suc i) = all_none-none held i

all_none-file : (fds : List (Option File)) (i : ℕ) → get_or (all_none fds) i none ≡ none
all_none-file [] i = refl
all_none-file (x ∷ fds) zero = refl
all_none-file (x ∷ fds) (suc i) = all_none-file fds i

only_reserved-none :
    (fds : List (Option File)) (fd : ℕ) → 2 ≤ fd → get_or (only_reserved fds) fd none ≡ none
only_reserved-none [] fd h = refl
only_reserved-none (a ∷ []) zero h = absurd (omega (arith, h))
only_reserved-none (a ∷ []) (suc fd) h = refl
only_reserved-none (a ∷ b ∷ fds) zero h = absurd (omega (arith, h))
only_reserved-none (a ∷ b ∷ fds) (suc zero) h = absurd (omega (arith, h))
only_reserved-none (a ∷ b ∷ fds) (suc (suc fd)) h = all_none-file fds fd

only_reserved-standard :
    (fds : List (Option File)) (fd : ℕ)
    → fd < 2
    → get_or (only_reserved fds) fd none ≡ get_or fds fd none
only_reserved-standard [] fd h = refl
only_reserved-standard (a ∷ []) fd h = refl
only_reserved-standard (a ∷ b ∷ fds) zero h = refl
only_reserved-standard (a ∷ b ∷ fds) (suc zero) h = refl
only_reserved-standard (a ∷ b ∷ fds) (suc (suc fd)) h = absurd (omega (arith, h))

set-none : (table : List (Option Port)) (i : ℕ) → get_or (set table i none) i none ≡ none
set-none [] i = refl
set-none (x ∷ table) zero = refl
set-none (x ∷ table) (suc i) = set-none table i

set-none_kept :
    (table : List (Option Port)) (i j : ℕ)
    → get_or table j none ≡ none
    → get_or (set table i none) j none ≡ none
set-none_kept [] i j e = e
set-none_kept (x ∷ table) zero zero e = refl
set-none_kept (x ∷ table) zero (suc j) e = e
set-none_kept (x ∷ table) (suc i) zero e = e
set-none_kept (x ∷ table) (suc i) (suc j) e = set-none_kept table i j e

clear_held-empty :
    (held : List (Option ℕ)) (table : List (Option Port)) (i : ℕ)
    → get_or table i none ≡ none
    → get_or (clear_held table held) i none ≡ none
clear_held-empty [] table i e = e
clear_held-empty (none ∷ held) table i e = clear_held-empty held table i e
clear_held-empty (some j ∷ held) table i e =
    clear_held-empty held (set table j none) i (set-none_kept table j i e)

clear_held-destroyed :
    (held : List (Option ℕ)) (table : List (Option Port)) (place i : ℕ)
    → get_or held place none ≡ some i
    → get_or (clear_held table held) i none ≡ none
clear_held-destroyed [] table place i e = cc
clear_held-destroyed (none ∷ held) table zero i e = cc
clear_held-destroyed (none ∷ held) table (suc place) i e = clear_held-destroyed held table place i e
clear_held-destroyed (some j ∷ held) table zero i e =
    let same : j ≡ i = cc in
    clear_held-empty held (set table j none) i
      (ap (λ (t : ℕ). get_or (set table j none) t none) (sym same) ∙ set-none table j)
clear_held-destroyed (some j ∷ held) table (suc place) i e =
    clear_held-destroyed held (set table j none) place i e

clear_held-others :
    (held : List (Option ℕ)) (table : List (Option Port)) (i : ℕ)
    → ((place : ℕ) → get_or held place none ≢ some i)
    → get_or (clear_held table held) i none ≡ get_or table i none
clear_held-others [] table i ne = refl
clear_held-others (none ∷ held) table i ne =
    clear_held-others held table i (λ place. ne (suc place))
clear_held-others (some j ∷ held) table i ne =
    clear_held-others held (set table j none) i (λ place. ne (suc place))
    ∙ get_or-set_ne table j i none none (λ e. ne 0 (ap some e))

module _ {S : Type 0} (ops : FileOps S) (drives : List Drive) (counting : IsCounting ops) where
  drop_files-ClosedAll :
      (fds : List (Option File)) (s : S) → ClosedAll ops fds s (drop_files ops drives fds s)
  unfolding drop_files
  drop_files-ClosedAll [] s = refl
  drop_files-ClosedAll (none ∷ fds) s = drop_files-ClosedAll fds s
  drop_files-ClosedAll (some f ∷ fds) s =
      let t = drop_node ops drives f.node s in
      (t, drop_node-Dropped ops drives counting f.node s, drop_files-ClosedAll fds t)

  drop_open-ClosedAll :
      (fds : List (Option File)) (s : S) → ClosedAll ops (drop 2 fds) s (drop_open ops drives fds s)
  drop_open-ClosedAll [] s = refl
  drop_open-ClosedAll (a ∷ []) s = refl
  drop_open-ClosedAll (a ∷ b ∷ fds) s = drop_files-ClosedAll fds s

  pub ended-Released :
      (p : ℕ) (k k' : Kernel S)
      → (k'.procs p).ports ≡ all_none (k.procs p).ports
      → (k'.procs p).fds ≡ only_reserved (k.procs p).fds
      → k'.fs ≡ drop_open ops drives (k.procs p).fds k.fs
      → k'.ports.port_table ≡ clear_held k.ports.port_table (k.procs p).ports
      → Released ops p k k'
  ended-Released p k k' ports fds fs table =
      let proc = k.procs p in
      record {
        no_ports = λ place. rw ports (all_none-none proc.ports place);
        destroyed =
            λ place i at. rw table (clear_held-destroyed proc.ports k.ports.port_table place i at);
        other_ports = λ i ne. rw table (clear_held-others proc.ports k.ports.port_table i ne);
        no_files = λ fd h. rw fds (only_reserved-none proc.fds fd h);
        standard = λ fd h. rw fds (only_reserved-standard proc.fds fd h);
        closed = rw fs (drop_open-ClosedAll proc.fds k.fs);
      }

-- How often a thread is on the queue, and the others of the queue in their order.
abbrev pub count : ℕ → List ℕ → ℕ
count t [] = 0
count t (c ∷ rest) = let later = count t rest in if c == t then suc later else later

abbrev pub others : ℕ → List ℕ → List ℕ
others t [] = []
others t (c ∷ rest) = let later = others t rest in if c == t then later else c ∷ later

pub without-count : (t : ℕ) (queue : List ℕ) → count t queue ≤ 1 → count t (without t queue) ≡ 0
without-count t [] h = refl
without-count t (c ∷ rest) h = elim (Bool-cases (c == t)) [
  | inl e ↦ let h' : suc (count t rest) ≤ 1 = rw e at h in rw e (omega (arith, h'))
  | inr e ↦ let h' : count t rest ≤ 1 = rw e at h in rw (e, e) (without-count t rest h')
]

pub without-others : (t : ℕ) (queue : List ℕ) → others t (without t queue) ≡ others t queue
without-others t [] = refl
without-others t (c ∷ rest) = elim (Bool-cases (c == t)) [
  | inl e ↦ rw e refl
  | inr e ↦ rw (e, e) (ap (◌∷◌ c) (without-others t rest))
]
