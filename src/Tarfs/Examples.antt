-- ===== src/Tarfs/Examples.antt =====
-- A file of five bytes behind its header, for src/fs/tar_vfs.c.
use cobj_os.Prelude.{
  ℕ, ◌+◌, ◌-◌, ◌^◌, ◌≡◌, refl, List, [], ◌∷◌, ◌++◌, arith, take, drop, replicate, length,
}
use cobj_os.Prelude.Ints.{pos, negsuc}
use cobj_os.Tarfs.{tarfs_read}
use cobj_os.Tarfs.Plain.{tarfs_read-content}

abbrev archive : List ℕ
archive = replicate 512 0 ++ (1 ∷ 2 ∷ 3 ∷ 4 ∷ 5 ∷ [])

tarfs_read-content_example :
    let piece = take 9 (drop 3 (take 5 (drop (0 + 512) archive))) in
    tarfs_read archive 0 5 9 3 ≡ (pos (length piece), piece)
tarfs_read-content_example =
    tarfs_read-content archive 0 5 9 3 (omega arith) (omega arith) (omega arith) (omega arith)

-- A length that wraps the sum around is not cut to the file: the result is -2.
tarfs_read_wraps :
    tarfs_read archive 0 5 (2 ^ 64 - 2) 3
    ≡ (negsuc 1, take (2 ^ 64 - 2) (drop 3 (drop (0 + 512) archive)))
unfolding tarfs_read
tarfs_read_wraps = refl
