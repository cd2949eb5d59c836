-- ===== src/Vfs/Resolve.antt =====
-- `vfs_resolve` of src/fs/vfs.c ends, and gives back every reference but the one of its result.
use cobj_os.Prelude.{
  ℕ, suc, ◌+◌, ◌<◌, ◌≡◌, true, false, Option, none, some, List, Bool, ◌==◌, if◌then◌else◌,
}
use cobj_os.Vfs.{Nodes, Resolved, resolved}

-- What `vfs_resolve` relies on in the file system of a drive, whose nodes are those `inside`, with the
-- references counted over all of them: a lookup that succeeds gives a new reference to a node other than the
-- root, one that fails gives none; a node that was looked up can be released, which takes a reference away;
-- to retain the root adds one. The nodes of devices, which have no `release`, are not such.
pub record IsCounted {S : Type 0} (nodes : Nodes S) (root : ℕ) (held : S → ℕ) : Type 0 where
  pub inside : ℕ → Bool
  pub root_inside : inside root ≡ true
  pub lookup_some :
      (n next : ℕ) (name : List ℕ) (s : S)
      → inside n ≡ true
      → (nodes.lookup n name s).0 ≡ some next
      → (held ((nodes.lookup n name s).1) ≡ suc (held s))
        × ((next == root) ≡ false)
        × (nodes.has_release next ≡ true)
        × (inside next ≡ true)
  pub lookup_none :
      (n : ℕ) (name : List ℕ) (s : S)
      → inside n ≡ true
      → (nodes.lookup n name s).0 ≡ none
      → held ((nodes.lookup n name s).1) ≡ held s
  pub released :
      (n : ℕ) (s : S) → inside n ≡ true → 0 < held s → suc (held (nodes.release n s)) ≡ held s
  pub retained : (s : S) → held (nodes.retain root s) ≡ suc (held s)

abbrev pub references : Option ℕ → ℕ
references none = 0
references (some n) = 1

module _ {S : Type 0} (nodes : Nodes S) (root : ℕ) (held : S → ℕ)
    (counted : IsCounted nodes root held) where
  -- The references that the loop has on its current node.
  abbrev on_node : ℕ → ℕ
  on_node cur = if cur == root then 0 else 1

  abbrev Releasable : ℕ → Type 0
  Releasable cur = (cur == root) ≡ false → nodes.has_release cur ≡ true

  -- The loop ends, and of the references that it took only the one of its result is left.
  abbrev Balanced : ℕ → Resolved S → Type 0
  Balanced base r = (n : Option ℕ) × (s : S) × (r ≡ resolved n s) × (held s ≡ base + references n)
