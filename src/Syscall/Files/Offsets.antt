-- ===== src/Syscall/Files/Offsets.antt =====
-- Reading a file in pieces and moving in it, in src/userspace/syscall.c.
use cobj_os.Prelude.{
  take_nil, ℕ, zero, suc, ◌+◌, ◌-◌, ◌^◌, ◌≤◌, ◌<◌, ◌≡◌, refl, sym, ap, ◌∙◌, true, false, none, some,
  List, [], ◌∷◌, ◌++◌, arith, leb, ◌==◌, get_or, length, take, drop, get_or-set_self, length-set,
  length-append, ==_refl,
}
use cobj_os.Prelude.Ints.{ℤ, pos}
use cobj_os.Prelude.Outcome.{Outcome, ok, ◌>>=◌, bind_ok}
use cobj_os.Vfs.{Drive}
use cobj_os.Kernel.{FileOps, File, Kernel, max_fds}
use cobj_os.Syscall.Files.{put_file, sys_read, sys_seek}

drop_nil : (n : ℕ) → ◌≡◌ {A = List ℕ} (drop n []) []
drop_nil zero = refl
drop_nil (suc n) = refl

-- What is left of a list behind a piece of it, and the next piece.
drop-drop : (xs : List ℕ) (a b : ℕ) → drop b (drop a xs) ≡ drop (a + b) xs
drop-drop xs zero b = ap (λ (t : ℕ). drop t xs) (omega arith)
drop-drop [] (suc a) b = drop_nil b ∙ sym (drop_nil (suc a + b))
drop-drop (x ∷ xs) (suc a) b =
    let e : suc (a + b) ≡ suc a + b = omega arith in
    drop-drop xs a b ∙ ap (λ (t : ℕ). drop t (x ∷ xs)) e

take-take :
    (xs : List ℕ) (a b : ℕ) → take a xs ++ take b (drop (length (take a xs)) xs) ≡ take (a + b) xs
take-take xs zero b = ap (λ (t : ℕ). take t xs) (omega arith)
take-take [] (suc a) b = take_nil b ∙ sym (take_nil (suc a + b))
take-take (x ∷ xs) (suc a) b =
    let e : suc (a + b) ≡ suc a + b = omega arith in
    ap (◌∷◌ x) (take-take xs a b) ∙ ap (λ (t : ℕ). take t (x ∷ xs)) e

-- A piece does not go past the end.
piece_le : (xs : List ℕ) (off size : ℕ) → length (take size (drop off xs)) ≤ length xs - off
piece_le xs zero zero = omega arith
piece_le [] zero (suc size) = omega arith
piece_le (x ∷ xs) zero (suc size) = omega (arith, piece_le xs zero size)
piece_le [] (suc off) zero = omega arith
piece_le [] (suc off) (suc size) = omega arith
piece_le (x ∷ xs) (suc off) size = omega (arith, piece_le xs off size)

-- Every size is below 2 ^ 63.
abbrev pub Sized : List ℕ → Type 0
Sized [] = Unit {0}
Sized (n ∷ ns) = (n < 2 ^ 63) × Sized ns

abbrev pub sum : List ℕ → ℕ
sum [] = 0
sum (n ∷ ns) = n + sum ns

module _ {S : Type 0} (ops : FileOps S) (drives : List Drive) where
  -- The node is a plain file of less than 2 GiB: a read gives the bytes from the offset on, as many as are
  -- asked for and there, and changes nothing, where length and offset are below 2 ^ 63.
  pub record IsPlain (n : ℕ) (content : List ℕ) : Type 0 where
    pub readable : ops.has_read n ≡ true
    pub short : length content < 2 ^ 31
    pub reads :
        (len off : ℕ) (s : S)
        → len < 2 ^ 63
        → off < 2 ^ 63
        → ops.read n len off s
          ≡ (pos (length (take len (drop off content))), take len (drop off content), s)

  -- One `sys_read` after the other.
  pub read_pieces : ℕ → ℤ → List ℕ → Kernel S → Outcome (List ℕ × Kernel S)
  read_pieces p fd [] k = ok ([], k)
  read_pieces p fd (size ∷ sizes) k = sys_read ops drives p fd size k >>= λ r.
      let (n, buf, k') = r in
      read_pieces p fd sizes k' >>= λ rest. let (bufs, k'') = rest in ok (buf ++ bufs, k'')

  abbrev file_at : ℕ → ℕ → ℕ → File
  file_at n off flags = record { node = n; offset = off; flags = flags }

  module _ (p fd n : ℕ) (content : List ℕ) (plain : IsPlain n content) (small : fd < max_fds) where
    read_one :
        (size off flags : ℕ) (k : Kernel S)
        → size < 2 ^ 63
        → off < 2 ^ 63
        → length (k.procs p).fds ≡ max_fds
        → get_or (k.procs p).fds fd none ≡ some (record { node = n; offset = off; flags = flags })
        → let piece = take size (drop off content) in
          (k' : Kernel S) × (sys_read ops drives p (pos fd) size k
            ≡ ok (pos (length piece), piece, k'))
          × (length (k'.procs p).fds ≡ max_fds)
          × (get_or (k'.procs p).fds fd none
              ≡ some (record { node = n; offset = off + length piece; flags = flags }))
    unfolding sys_read
    read_one size off flags k size_small off_small sized at =
        let within : leb max_fds fd ≡ false = ground (arith, small) in
        let self : (p == p) ≡ true = ==_refl p in
        let piece = take size (drop off content) in
        let f : File = record { node = n; offset = off + length piece; flags = flags } in
        (
          put_file ops drives p fd (some f) k,
          rw (within, at, plain.readable, plain.reads size off k.fs size_small off_small, sys_read)
              refl,
          rw self (length-set (k.procs p).fds fd (some f) ∙ sized),
          rw self (get_or-set_self (k.procs p).fds fd (some f) none (omega (arith, small, sized))),
        )

    read_pieces-from :
        (sizes : List ℕ) (off flags : ℕ) (k : Kernel S)
        → Sized sizes
        → off < 2 ^ 63
        → length (k.procs p).fds ≡ max_fds
        → get_or (k.procs p).fds fd none ≡ some (record { node = n; offset = off; flags = flags })
        → let piece = take (sum sizes) (drop off content) in
          (k' : Kernel S) × (read_pieces p (pos fd) sizes k ≡ ok (piece, k'))
          × (length (k'.procs p).fds ≡ max_fds)
          × (get_or (k'.procs p).fds fd none
              ≡ some (record { node = n; offset = off + length piece; flags = flags }))
    unfolding read_pieces
    read_pieces-from [] off flags k asked off_small sized at =
        (k, refl, sized, at ∙ ap (λ (t : ℕ). some (file_at n t flags)) (omega arith))
    read_pieces-from (size ∷ sizes) off flags k (size_small, asked) off_small sized at =
        let piece = take size (drop off content) in
        let (k', one, sized', at') = read_one size off flags k size_small off_small sized at in
        let off_small' : off + length piece < 2 ^ 63 =
          omega (arith, off_small, plain.short, piece_le content off size) in
        let (k'', run, sized'', at'') =
          read_pieces-from sizes (off + length piece) flags k' asked off_small' sized' at' in
        let joined : piece ++ take (sum sizes) (drop (off + length piece) content)
            ≡ take (size + sum sizes) (drop off content) =
          ap (λ (t : List ℕ). piece ++ take (sum sizes) t)
            (sym (drop-drop content off (length piece)))
          ∙ take-take (drop off content) size (sum sizes) in
        let len = length-append piece (take (sum sizes) (drop (off + length piece) content)) in
        (
          k'',
          bind_ok _ one (bind_ok _ run (ap (λ (t : List ℕ). ok (t, k'')) joined)),
          sized'',
          at'' ∙ ap (λ (t : ℕ). some (file_at n t flags)) (omega (arith, len, ap length joined)),
        )

  -- A plain file of less than 2 GiB that is open is read in pieces of any sizes below 2 ^ 63, from an offset
  -- below 2 ^ 63: together they are the bytes from the offset on, as many as are asked for and there. After `sys_seek` to an offset below 2 ^ 63 from the start of the
  -- file they are the bytes from that offset on.
  pub seek-read_pieces :
      (p fd n off flags target : ℕ) (content sizes sizes' : List ℕ) (k : Kernel S)
      → IsPlain n content
      → Sized sizes
      → Sized sizes'
      → off < 2 ^ 63
      → fd < max_fds
      → length (k.procs p).fds ≡ max_fds
      → get_or (k.procs p).fds fd none ≡ some (record { node = n; offset = off; flags = flags })
      → target < 2 ^ 63
      → (k1 : Kernel S) × (k2 : Kernel S) × (k3 : Kernel S) × (read_pieces p (pos fd) sizes k
          ≡ ok (take (sum sizes) (drop off content), k1))
        × (sys_seek ops drives p (pos fd) (pos target) 0 k1 ≡ ok (pos target, k2))
        × (read_pieces p (pos fd) sizes' k2 ≡ ok (take (sum sizes') (drop target content), k3))
  unfolding sys_seek
  seek-read_pieces p fd n off flags target content sizes sizes' k plain asked asked' off_small small
        sized at bound =
      let (k1, run, sized', at') =
        read_pieces-from p fd n content plain small sizes off flags k asked off_small sized at in
      let f : File = record { node = n; offset = target; flags = flags } in
      let k2 = put_file ops drives p fd (some f) k1 in
      let within : leb max_fds fd ≡ false = ground (arith, small) in
      let fits : leb (2 ^ 63) target ≡ false = ground (arith, bound) in
      let self : (p == p) ≡ true = ==_refl p in
      let sized2 : length (k2.procs p).fds ≡ max_fds =
        rw self (length-set (k1.procs p).fds fd (some f) ∙ sized') in
      let at2 : get_or (k2.procs p).fds fd none ≡ some f =
        rw self
          (get_or-set_self (k1.procs p).fds fd (some f) none (omega (arith, small, sized'))) in
      let (k3, run', sized3, at3) =
        read_pieces-from p fd n content plain small sizes' target flags k2 asked' bound sized2
          at2 in
      (k1, k2, k3, run, rw (within, at', fits, sys_seek) refl, run')
