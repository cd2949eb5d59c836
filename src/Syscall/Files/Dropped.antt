-- ===== src/Syscall/Files/Dropped.antt =====
-- What it means that references to nodes are given up, for src/userspace/syscall.c.
use cobj_os.Prelude.{
  ℕ, ◌+◌, ◌-◌, ◌%◌, ◌^◌, ◌<◌, ◌≡◌, ◌≢◌, refl, true, false, none, some, List, [], ◌∷◌, arith, ◌==◌,
  Option,
}
use cobj_os.Vfs.{Drive}
use cobj_os.Kernel.{FileOps, File}
use cobj_os.Syscall.Files.{drop_node}

-- `refcount` is a field of a node, of 32 bits: what is stored in it is read, and no other node's changes.
pub record IsCounting {S : Type 0} (ops : FileOps S) : Type 0 where
  pub same_node : (n v : ℕ) (s : S) → v < 2 ^ 32 → ops.refcount n (ops.set_refcount n v s) ≡ v
  pub other_node :
      (m n v : ℕ) (s : S) → m ≢ n → ops.refcount m (ops.set_refcount n v s) ≡ ops.refcount m s

module _ {S : Type 0} (ops : FileOps S) where
  -- One reference to the node less: the others stay, and with the last one the node is released.
  pub record Dropped (n : ℕ) (s s' : S) : Type 0 where
    pub kept :
        1 < ops.refcount n s
        → ops.refcount n s < 2 ^ 32
        → (ops.refcount n s' + 1 ≡ ops.refcount n s)
          × ((m : ℕ) → m ≢ n → ops.refcount m s' ≡ ops.refcount m s)
    pub last :
        ops.refcount n s ≡ 1
        → ops.nodes.has_release n ≡ true
        → s' ≡ ops.nodes.release n (ops.set_refcount n 0 s)
    pub last_kept : ops.refcount n s ≡ 1 → ops.nodes.has_release n ≡ false → ops.refcount n s' ≡ 0

  -- The files of the descriptors are closed, one after the other.
  abbrev pub ClosedAll : List (Option File) → S → S → Type 0
  ClosedAll [] s s' = s' ≡ s
  ClosedAll (none ∷ fds) s s' = ClosedAll fds s s'
  ClosedAll (some f ∷ fds) s s' = (t : S) × Dropped f.node s t × ClosedAll fds t s'

module _ {S : Type 0} (ops : FileOps S) (drives : List Drive) (counting : IsCounting ops) where
  pub drop_node-Dropped : (n : ℕ) (s : S) → Dropped ops n s (drop_node ops drives n s)
  unfolding drop_node
  drop_node-Dropped n s = record {
    kept = λ more small.
        let v : (ops.refcount n s + (2 ^ 32 - 1)) % 2 ^ 32 ≡ ops.refcount n s - 1 =
          omega (arith, more, small) in
        let now = counting.same_node n (ops.refcount n s - 1) s (omega (arith, small)) in
        let some_left : (ops.refcount n (ops.set_refcount n (ops.refcount n s - 1) s) == 0)
            ≡ false =
          ground (arith, now, more) in
        rw (v, some_left)
          (omega (arith, now, more), λ m ne. counting.other_node m n (ops.refcount n s - 1) s ne);
    last = λ one can.
        let v : (ops.refcount n s + (2 ^ 32 - 1)) % 2 ^ 32 ≡ 0 = omega (arith, one) in
        let now = counting.same_node n 0 s (omega arith) in
        let gone : (ops.refcount n (ops.set_refcount n 0 s) == 0) ≡ true = ground (arith, now) in
        rw (v, gone, can) refl;
    last_kept = λ one cannot.
        let v : (ops.refcount n s + (2 ^ 32 - 1)) % 2 ^ 32 ≡ 0 = omega (arith, one) in
        let now = counting.same_node n 0 s (omega arith) in
        let gone : (ops.refcount n (ops.set_refcount n 0 s) == 0) ≡ true = ground (arith, now) in
        rw (v, gone, cannot) now;
  }
