-- ===== src/Tarfs/Plain.antt =====
-- `tarfs_read` of src/fs/tar_vfs.c gives the bytes of the file.
use cobj_os.Prelude.{
  take_nil, ℕ, zero, suc, ◌+◌, ◌-◌, ◌%◌, ◌^◌, ◌≤◌, ◌<◌, ◌≡◌, refl, sym, ap, ◌∙◌, inl, inr, true,
  List, [], ◌∷◌, arith, ltb, leb, take, drop, length, Bool-cases,
}
use cobj_os.Prelude.Ints.{ℤ, pos, to_int}
use cobj_os.Tarfs.{tarfs_read}

drop-take : (xs : List ℕ) (a b : ℕ) → drop a (take b xs) ≡ take (b - a) (drop a xs)
drop-take xs zero b = ap (λ (n : ℕ). take n xs) (omega arith)
drop-take [] (suc a) b = ap (drop (suc a)) (take_nil b) ∙ sym (take_nil (b - suc a))
drop-take (x ∷ xs) (suc a) zero = let e : 0 - suc a ≡ 0 = omega arith in rw e refl
drop-take (x ∷ xs) (suc a) (suc b) =
    drop-take xs a b ∙ ap (λ (n : ℕ). take n (drop a xs)) (omega arith)

take-take : (xs : List ℕ) (a b : ℕ) → a ≤ b → take a (take b xs) ≡ take a xs
take-take xs zero b h = refl
take-take [] (suc a) b h = ap (take (suc a)) (take_nil b)
take-take (x ∷ xs) (suc a) zero h = absurd (omega (arith, h))
take-take (x ∷ xs) (suc a) (suc b) h = ap (◌∷◌ x) (take-take xs a b (omega (arith, h)))

take_all : (xs : List ℕ) (a b : ℕ) → b ≤ a → take a (take b xs) ≡ take b xs
take_all xs a zero h = take_nil a
take_all [] a (suc b) h = take_nil a
take_all (x ∷ xs) zero (suc b) h = absurd (omega (arith, h))
take_all (x ∷ xs) (suc a) (suc b) h = ap (◌∷◌ x) (take_all xs a b (omega (arith, h)))

length_take : (xs : List ℕ) (a : ℕ) → a ≤ length xs → length (take a xs) ≡ a
length_take xs zero h = refl
length_take [] (suc a) h = absurd (omega (arith, h))
length_take (x ∷ xs) (suc a) h = ap suc (length_take xs a (omega (arith, h)))

length_drop : (xs : List ℕ) (a : ℕ) → length (drop a xs) ≡ length xs - a
length_drop xs zero = omega arith
length_drop [] (suc a) = omega arith
length_drop (x ∷ xs) (suc a) = omega (arith, length_drop xs a)

-- Where the file lies in the archive and lengths and offsets are below 2 ^ 63, `tarfs_read` gives the bytes of
-- the file from the offset on, as many as are asked for and there, and their number.
pub tarfs_read-content :
    (archive : List ℕ) (hdr size len off : ℕ)
    → size < 2 ^ 31
    → hdr + 512 + size ≤ length archive
    → len < 2 ^ 63
    → off < 2 ^ 63
    → let piece = take len (drop off (take size (drop (hdr + 512) archive))) in
      tarfs_read archive hdr size len off ≡ (pos (length piece), piece)
unfolding tarfs_read
tarfs_read-content archive hdr size len off small there len_small off_small =
    let xs = drop (hdr + 512) archive in
    let piece = take len (drop off (take size xs)) in
    let found = length_drop archive (hdr + 512) in
    let left = length_drop xs off in
    let cut : drop off (take size xs) ≡ take (size - off) (drop off xs) = drop-take xs off size in
    let sum : (off + len) % 2 ^ 64 ≡ off + len = omega (arith, len_small, off_small) in
    let read_is : (n : ℕ)
        → n ≤ size - off
        → piece ≡ take n (drop off xs)
        → off < size
        → ◌≡◌ {A = ℤ × List ℕ} (to_int n, take n (drop off xs)) (pos (length piece), piece) =
      λ n le same inside.
        let len_n : length (take n (drop off xs)) ≡ n =
          length_take (drop off xs) n (omega (arith, le, left, found, there, inside)) in
        let low : n % 2 ^ 32 ≡ n = omega (arith, le, small) in
        let below : ltb n (2 ^ 31) ≡ true = ground (arith, le, small) in
        rw (same, len_n, low, below) refl in
    elim (Bool-cases (leb size off)) [
      | inl past ↦
          let none_left : size - off ≡ 0 = ground (arith, past) in
          let empty : piece ≡ [] =
            ap (take len) (cut ∙ ap (λ (n : ℕ). take n (drop off xs)) none_left) ∙ take_nil len in
          rw (past, empty) refl
      | inr e ↦
          let inside : off < size = ground (arith, e) in
          elim (Bool-cases (ltb size (off + len))) [
            | inl more ↦
                let le : size - off ≤ len = ground (arith, more) in
                rw (e, sum, more)
                  (read_is (size - off) (omega arith)
                    (ap (take len) cut ∙ take_all (drop off xs) len (size - off) le) inside)
            | inr fits ↦
                let le : len ≤ size - off = ground (arith, fits, inside) in
                rw (e, sum, fits)
                  (read_is len le (ap (take len) cut ∙ take-take (drop off xs) len (size - off) le)
                    inside)
          ]
    ]
