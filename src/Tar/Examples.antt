-- ===== src/Tar/Examples.antt =====
-- An archive of two files for src/fs/tar.c, and the search in it.
use cobj_os.Prelude.{
  ℕ, ◌≡◌, refl, ◌⊎◌, none, some, List, [], ◌∷◌, ◌++◌, arith, length, take, drop, replicate,
}
use cobj_os.Text.{strlen, strlen_loop, strncmp, strchr, strchr_loop}
use cobj_os.Tar.{
  Tar, tar_find, hdr_size, hdr_type, tar_parse_octal, octal_loop, list_entry, relative_entry,
}
use cobj_os.Tar.Archive.{Entry, IsEntry, encode}
use cobj_os.Tar.Find.{Matches, NoMatch}
use cobj_os.Tar.Content.{tar_find-content}

-- The rest of a header block after a name of one letter and its NUL: a size and a type.
abbrev fields : ℕ → ℕ → List ℕ
fields size type =
    replicate 122 0
    ++ (replicate 10 b'0' ++ (size ∷ 0 ∷ replicate 20 0 ++ (type ∷ replicate 355 0)))

abbrev file_a : Entry
file_a = record { name = b'a' ∷ []; fields = fields b'3' b'0'; content = 10 ∷ 20 ∷ 30 ∷ [] }

abbrev file_b : Entry
file_b = record { name = b'b' ∷ []; fields = fields b'2' b'0'; content = 40 ∷ 50 ∷ [] }

file_a-IsEntry : IsEntry file_a
unfolding hdr_size tar_parse_octal octal_loop
file_a-IsEntry = record {
  string = (λ e. omega (arith, e), tt);
  named = omega arith;
  sized = refl;
  size = refl;
}

file_b-IsEntry : IsEntry file_b
unfolding hdr_size tar_parse_octal octal_loop
file_b-IsEntry = record {
  string = (λ e. omega (arith, e), tt);
  named = omega arith;
  sized = refl;
  size = refl;
}

abbrev two_files : List Entry
two_files = file_a ∷ file_b ∷ []

tar_find-content_example :
    (let t : Tar = record { tar_data = encode two_files; tar_size = length (encode two_files) } in
      (NoMatch (b'b' ∷ []) two_files × (tar_find (b'b' ∷ 0 ∷ []) t ≡ some none))
      ⊎ ((before : List Entry) × (e : Entry) × (after : List Entry) × (place : ℕ) × (two_files
            ≡ before ++ e ∷ after)
          × NoMatch (b'b' ∷ []) before
          × Matches (b'b' ∷ []) e
          × (tar_find (b'b' ∷ 0 ∷ []) t ≡ some (some (place, length e.content)))
          × (take (length e.content) (drop place (encode two_files)) ≡ e.content)))
tar_find-content_example =
    tar_find-content (b'b' ∷ []) [] two_files (λ e. omega (arith, e), tt)
      (file_a-IsEntry, (file_b-IsEntry, tt)) (omega arith)

-- A file "binfoo" is listed under "bin" as "foo".
abbrev binfoo : List ℕ
binfoo = b'b' ∷ b'i' ∷ b'n' ∷ b'f' ∷ b'o' ∷ b'o' ∷ replicate 506 0

list_entry_prefix :
    list_entry binfoo (b'b' ∷ b'i' ∷ b'n' ∷ 0 ∷ [])
    ≡ some (some (record { name = b'f' ∷ b'o' ∷ b'o' ∷ 0 ∷ []; type = b'0'; size = 0 }))
unfolding list_entry relative_entry strlen strlen_loop strncmp strchr strchr_loop hdr_size hdr_type
    tar_parse_octal octal_loop
list_entry_prefix = refl
