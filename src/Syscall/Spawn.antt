-- ===== src/Syscall/Spawn.antt =====
-- `sys_spawn` of src/userspace/syscall.c: a program is read from its file and started.
use cobj_os.Prelude.{ℕ, ◌-◌, ◌^◌, none, some, List, [], ◌∷◌, take}
use cobj_os.Prelude.Outcome.{Outcome, ok, ◌>>=◌}
use cobj_os.Vfs.{Drive, vfs_resolve}
use cobj_os.Kernel.{FileOps, Kernel, resolved_node}
use cobj_os.Process.{read_whole, release_node, proc_create}

-- The copies of the arguments, cut to 255 bytes; texts without their terminators.
abbrev pub cut_all : List (List ℕ) → List (List ℕ)
cut_all [] = []
cut_all (arg ∷ argv) = take 255 arg ∷ cut_all argv

module _ {S : Type 0} (ops : FileOps S) (drives : List Drive) (kernel_space : ℕ) where
  -- `proc` and `thread` name the new objects. A program that cannot be read whole keeps its reference.
  unfoldable pub sys_spawn :
      (proc thread p : ℕ) → List ℕ → List (List ℕ) → Kernel S → Outcome (ℕ × Kernel S)
  sys_spawn proc thread p name argv k =
      resolved_node (vfs_resolve ops.nodes drives name k.fs) >>= λ r.
      let (node, fs) = r in
      elim node [
        | none ↦ ok (2 ^ 64 - 1, record k { fs = fs })
        | some n ↦ read_whole ops drives kernel_space n fs >>= λ got.
            let (content, fs') = got in
            elim content [
              | none ↦ ok (2 ^ 64 - 1, record k { fs = fs' })
              | some elf ↦
                  proc_create ops drives kernel_space proc thread elf (ops.size n) (cut_all argv)
                    ((k.procs p).cwd) (record k { fs = release_node ops drives kernel_space n fs' })
            ]
      ]
