-- ===== src/Devfs.antt =====
-- src/fs/dev_vfs.c: the file system of the devices, a table of 32 entries.
-- `entries` is a list as long as `entry_count`. A table of operations and a device's data are numbers that
-- name them. `none` is a read past a name. The root node itself and its drive are set once by `devfs_init`.
pub mod Register
mod Examples
use cobj_os.Prelude.{
  ℕ, zero, suc, ◌+◌, ◌-◌, Bool, true, false, not, Option, none, some, List, [], ◌∷◌, ◌++◌, ltb, leb,
  ◌==◌, if◌then◌else◌, length, set, replicate,
}
use cobj_os.Prelude.Ints.{is_zero}
use cobj_os.Text.{strcmp, strncpy}

abbrev pub max_devfs_entries : ℕ
max_devfs_entries = 32

-- `name` holds the 32 bytes of the array.
pub record DevfsEntry : Type 0 where
  pub name : List ℕ
  pub ops : ℕ
  pub info : ℕ
  pub present : Bool

pub record DeviceNode : Type 0 where
  pub ops : ℕ
  pub info : ℕ
  pub refcount : ℕ

-- `some none` is NULL.
unfoldable pub devfs_lookup : List ℕ → List DevfsEntry → Option (Option DeviceNode)
devfs_lookup name [] = some none
devfs_lookup name (e ∷ entries) =
    let rest = devfs_lookup name entries in
    if not e.present then rest else elim (strcmp e.name name) [
      | none ↦ none
      | some r ↦
          if is_zero r
          then some (some (record { ops = e.ops; info = e.info; refcount = 1 }))
          else rest
    ]

-- The name of the entry with the index among those that are present, in an array of 256 bytes; `seen` is
-- how many of them have been passed. `some none` is the result -1.
unfoldable pub readdir_loop : ℕ → ℕ → List ℕ → List DevfsEntry → Option (Option (List ℕ))
readdir_loop index seen out [] = some none
readdir_loop index seen out (e ∷ entries) =
    let skipped = readdir_loop index seen out entries in
    let passed = readdir_loop index (seen + 1) out entries in
    if not e.present
    then skipped
    else if seen == index
    then elim (strncpy out e.name 255) [ none ↦ none | some buf ↦ some (some (set buf 255 0)) ]
    else passed

unfoldable pub devfs_readdir : ℕ → List ℕ → List DevfsEntry → Option (Option (List ℕ))
devfs_readdir index out entries = readdir_loop index 0 out entries

-- The references that are left; the node is given back to the heap when there is none. The root is kept.
unfoldable pub devfs_release : Bool → ℕ → ℕ
devfs_release is_root refcount = if is_root then refcount else refcount - 1

-- The array of a new entry is zero before, since no entry is used twice.
unfoldable pub devfs_register : List ℕ → ℕ → ℕ → List DevfsEntry → Option (List DevfsEntry)
devfs_register name ops info entries =
    if leb max_devfs_entries (length entries)
    then some entries
    else elim (strncpy (replicate 32 0) name 31) [
      | none ↦ none
      | some buf ↦
          let entry : DevfsEntry = record {
            name = set buf 31 0;
            ops = ops;
            info = info;
            present = true;
          } in
          some (entries ++ entry ∷ [])
    ]
