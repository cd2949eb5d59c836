-- ===== src/Syscall/Files/Descriptors.antt =====
-- Opening and closing files in src/userspace/syscall.c.
use cobj_os.Prelude.{
  ℕ, zero, suc, ◌+◌, ◌≤◌, ◌<◌, ◌≡◌, refl, ap, ◌∙◌, inl, inr, true, false, Option, none, some, List,
  [], ◌∷◌, arith, leb, ◌==◌, get_or, length, Bool-cases, get_or-set_self, set-set_back, ==_refl,
}
use cobj_os.Prelude.Ints.{pos}
use cobj_os.Prelude.Outcome.{ok}
use cobj_os.Vfs.{Drive, vfs_resolve, resolved}
use cobj_os.Kernel.{FileOps, File, Process, Kernel, max_fds}
use cobj_os.Syscall.Files.Dropped.{IsCounting, Dropped, drop_node-Dropped}
use cobj_os.Syscall.Files.{free_fd, skip_reserved, put_file, sys_open, sys_close, drop_node}

-- The search ends at a free descriptor, at the first one.
free_fd-first :
    (fds : List (Option File)) (i c : ℕ)
    → c < length fds
    → get_or fds c none ≡ none
    → (j : ℕ) × (free_fd fds i ≡ some (i + j))
      × (j ≤ c)
      × (j < length fds)
      × (get_or fds j none ≡ none)
unfolding free_fd
free_fd-first [] i c h e = absurd (omega arith)
free_fd-first (none ∷ fds) i c h e =
    let here : some i ≡ some (i + 0) = ap some (omega arith) in
    (0, here, omega arith, omega arith, refl)
free_fd-first (some f ∷ fds) i zero h e = cc
free_fd-first (some f ∷ fds) i (suc c) h e =
    let (j, found, le, lt, gone) = free_fd-first fds (i + 1) c (omega arith) e in
    (suc j, found ∙ ap some (omega arith), omega (arith, le), omega (arith, lt), gone)

-- Beyond the reserved descriptors.
open_slot :
    (fds : List (Option File)) (c : ℕ)
    → 2 ≤ c
    → c < length fds
    → get_or fds c none ≡ none
    → (fd : ℕ) × (free_fd (skip_reserved fds) 2 ≡ some fd)
      × (2 ≤ fd)
      × (fd ≤ c)
      × (get_or fds fd none ≡ none)
open_slot [] c two h e = absurd (omega arith)
open_slot (a ∷ []) c two h e = absurd (omega arith)
open_slot (a ∷ b ∷ fds) zero two h e = absurd (omega arith)
open_slot (a ∷ b ∷ fds) (suc zero) two h e = absurd (omega arith)
open_slot (a ∷ b ∷ fds) (suc (suc c)) two h e =
    let (j, found, le, lt, gone) = free_fd-first fds 2 c (omega arith) e in
    let at : 2 + j ≡ suc (suc j) = omega arith in
    (2 + j, found, omega arith, omega (arith, le), rw at gone)

abbrev with_fds : List (Option File) → Process → Process
with_fds l v = record v { fds = l }

module _ {S : Type 0} (ops : FileOps S) (drives : List Drive) (counting : IsCounting ops) where
  -- What opening a file and closing it again comes to.
  pub record Opened (p c n : ℕ) (path : List ℕ) (k : Kernel S) (s : S) : Type 0 where
    pub fd : ℕ
    pub k' : Kernel S
    pub k'' : Kernel S
    pub opens : sys_open ops drives p path k ≡ ok (pos fd, k')
    pub allowed : (2 ≤ fd) × (fd ≤ c)
    pub was_free : get_or (k.procs p).fds fd none ≡ none
    pub file : get_or (k'.procs p).fds fd none ≡ some (record { node = n; offset = 0; flags = 1 })
    pub closes : sys_close ops drives p (pos fd) k' ≡ ok (pos 0, k'')
    pub restored : (q : ℕ) → k''.procs q ≡ k.procs q
    pub given_back : Dropped ops n s k''.fs

  closed :
      (p fd : ℕ) (f : File) (k : Kernel S)
      → fd < max_fds
      → get_or (k.procs p).fds fd none ≡ some f
      → sys_close ops drives p (pos fd) k
        ≡ ok (
          pos 0,
          put_file ops drives p fd none (record k { fs = drop_node ops drives f.node k.fs }),
        )
  unfolding sys_close
  closed p fd f k below at =
      let within : leb max_fds fd ≡ false = ground (arith, below) in rw (within, at, sys_close) refl

  Opened-closed :
      (p c n fd : ℕ) (path : List ℕ) (k : Kernel S) (s : S)
      → fd < length (k.procs p).fds
      → fd < max_fds
      → (2 ≤ fd) × (fd ≤ c)
      → get_or (k.procs p).fds fd none ≡ none
      → free_fd (skip_reserved (k.procs p).fds) 2 ≡ some fd
      → vfs_resolve ops.nodes drives path k.fs ≡ resolved (some n) s
      → Opened p c n path k s
  unfolding sys_open
  Opened-closed p c n fd path k s lt below allowed free first found =
      let file : File = record { node = n; offset = 0; flags = 1 } in
      let k1 : Kernel S = put_file ops drives p fd (some file) (record k { fs = s }) in
      let self : (p == p) ≡ true = ==_refl p in
      let here : get_or (k1.procs p).fds fd none ≡ some file =
        rw self (get_or-set_self (k.procs p).fds fd (some file) none lt) in
      record {
        fd = fd;
        k' = k1;
        k'' = put_file ops drives p fd none (record k1 { fs = drop_node ops drives n s });
        opens = rw (first, found, sys_open) refl;
        allowed = allowed;
        was_free = free;
        file = here;
        closes = closed p fd file k1 below here;
        restored = λ q. elim (Bool-cases (q == p)) [
          | inr ne ↦ rw ne refl
          | inl e ↦
              let same : q ≡ p = ground (arith, e) in
              rw (e, self, same)
                (ap (λ (l : List (Option File)). with_fds l (k.procs p))
                  (set-set_back (k.procs p).fds fd (some file) none none free lt))
        ];
        given_back = drop_node-Dropped ops drives counting n s;
      }

  -- While a descriptor from 2 on is free and the path is resolved, `sys_open` gives a free descriptor
  -- from 2 on, no higher than that one, with a new file on the node at offset 0; `sys_close` of it brings
  -- back every process as it was, and gives up one reference to the node: its count is one less and no
  -- other node's has changed, or the node is released where it was the last one.
  pub close-open :
      (p c n : ℕ) (path : List ℕ) (k : Kernel S) (s : S)
      → length (k.procs p).fds ≡ max_fds
      → 2 ≤ c
      → c < max_fds
      → get_or (k.procs p).fds c none ≡ none
      → vfs_resolve ops.nodes drives path k.fs ≡ resolved (some n) s
      → Opened p c n path k s
  close-open p c n path k s sized two below gone found =
      let (fd, first, from, to, free) =
        open_slot (k.procs p).fds c two (omega (arith, sized, below)) gone in
      Opened-closed p c n fd path k s (omega (arith, to, below, sized)) (omega (arith, to, below))
        (from, to) free first found
