-- ===== src/Vfs/Examples.antt =====
-- Two drives for src/fs/vfs.c, as the kernel has them: node 1 is the file "a" of the root of drive 0, node 0,
-- and node 3 a device of drive 1, whose root is node 2 and whose devices have no `release`.
use cobj_os.Prelude.{
  ℕ, suc, ◌-◌, ◌≡◌, refl, true, Option, none, some, List, [], ◌∷◌, ◌&&◌, ◌||◌, not, ◌==◌,
  if◌then◌else◌,
}
use cobj_os.Vfs.{
  Nodes, Drive, resolved, vfs_resolve, parse_path, find_colon, drive_loop, next_component,
  skip_slashes, component_loop, resolve_drive, resolve_loop, let_go,
}

abbrev is_a : List ℕ → ℕ → Option ℕ
is_a (c ∷ []) n =
    if c == b'a' && n == 0 then some 1 else if c == b'a' && n == 2 then some 3 else none
is_a _ n = none

abbrev count_up : Option ℕ → ℕ → ℕ
count_up none held = held
count_up (some n) held = suc held

-- The state is the number of references.
abbrev four_nodes : Nodes ℕ
four_nodes = record {
  is_dir = λ n. n == 0 || n == 2;
  has_lookup = λ n. true;
  has_release = λ n. not (n == 3);
  lookup = λ n name held. (is_a name n, count_up (is_a name n) held);
  release = λ n held. held - 1;
  retain = λ n held. suc held;
}

abbrev drives : List Drive
drives = record { root = some 0; present = true } ∷ record { root = some 2; present = true } ∷ []

vfs_resolve_runs :
    vfs_resolve four_nodes drives (b'0' ∷ b':' ∷ b'/' ∷ b'a' ∷ 0 ∷ []) 5 ≡ resolved (some 1) 6
unfolding vfs_resolve parse_path find_colon drive_loop next_component skip_slashes component_loop
    resolve_drive resolve_loop let_go
vfs_resolve_runs = refl

-- The reference to a device on the way is not given back: on "1:a/b" nothing is found, and it stays.
device_leaks :
    vfs_resolve four_nodes drives (b'1' ∷ b':' ∷ b'a' ∷ b'/' ∷ b'b' ∷ 0 ∷ []) 5 ≡ resolved none 6
unfolding vfs_resolve parse_path find_colon drive_loop next_component skip_slashes component_loop
    resolve_drive resolve_loop let_go
device_leaks = refl

abbrev path_a : List ℕ
path_a = b'0' ∷ b':' ∷ b'/' ∷ b'a' ∷ []
