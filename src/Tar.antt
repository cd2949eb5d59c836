-- ===== src/Tar.antt =====
-- src/fs/tar.c: looking files up in the initial disk, a tar archive in memory.
-- The archive is the list of its bytes; `hdr->name` read from a header on is the list from there on.
-- `none` stands for a read past the archive, as in the text functions that are called, or for fuel that
-- ran out, which it does not: each round goes at least 512 bytes on.
pub mod Archive
pub mod Find
pub mod Content
mod Examples
use cobj_os.Prelude.{
  ℕ, zero, suc, ◌+◌, ◌-◌, ◌*◌, ◌/◌, ◌%◌, ◌^◌, bit_and, Bool, true, false, not, ◌&&◌, ◌||◌, Option,
  none, some, List, [], ◌∷◌, ◌++◌, ltb, leb, ◌==◌, if◌then◌else◌, get_or, length, take, drop, min,
}
use cobj_os.Prelude.Ints.{ℤ, is_zero}
use cobj_os.Text.{strcmp, strncmp, strlen, strchr}

-- `tar_data` and `tar_size`, the state of the file.
pub record Tar : Type 0 where
  pub tar_data : List ℕ
  pub tar_size : ℕ

unfoldable pub tar_init : List ℕ → ℕ → Tar
tar_init bytes size = record { tar_data = bytes; tar_size = size }

unfoldable pub octal_loop : ℕ → List ℕ → ℕ → ℕ
octal_loop zero s val = val
octal_loop (suc left) [] val = val
octal_loop (suc left) (c ∷ s) val =
    let rest = octal_loop left s ((val * 8 + (c - b'0')) % 2 ^ 64) in
    if ltb c b'0' || ltb b'7' c then val else rest

unfoldable pub tar_parse_octal : List ℕ → ℕ → ℕ
tar_parse_octal s len = octal_loop len s 0

-- `512 + ((file_size + 511) & ~511ULL)`
unfoldable pub entry_size : ℕ → ℕ
entry_size file_size = 512 + bit_and ((file_size + 511) % 2 ^ 64) (2 ^ 64 - 512)

unfoldable pub hdr_size : List ℕ → ℕ
hdr_size hdr = tar_parse_octal (drop 124 hdr) 12

unfoldable pub hdr_type : List ℕ → ℕ
hdr_type hdr = get_or hdr 156 0

abbrev pub is_regular : ℕ → Bool
is_regular type = type == b'0' || type == 0

-- The place of the file's bytes and `*size_out`, or `some none` for NULL.
unfoldable pub find_loop : ℕ → ℕ → List ℕ → Tar → Option (Option (ℕ × ℕ))
find_loop zero offset name t = none
find_loop (suc fuel) offset name t =
    let hdr = drop offset t.tar_data in
    let file_size = hdr_size hdr in
    let next = find_loop fuel ((offset + entry_size file_size) % 2 ^ 64) name t in
    if not (leb (offset + 512) t.tar_size) || get_or hdr 0 0 == 0
    then some none
    else if is_regular (hdr_type hdr)
    then elim (strcmp hdr name) [
      | none ↦ none
      | some r ↦ if is_zero r then some (some (offset + 512, file_size)) else next
    ]
    else next

unfoldable pub tar_find : List ℕ → Tar → Option (Option (ℕ × ℕ))
tar_find name t = find_loop (t.tar_size / 512 + 1) 0 name t

pub record TarEntry : Type 0 where
  pub name : List ℕ
  pub type : ℕ
  pub size : ℕ

-- `if (*relative == '/') relative++;`
abbrev skip_slash : List ℕ → List ℕ
skip_slash [] = []
skip_slash (c ∷ s) = if c == b'/' then s else c ∷ s

-- Whether the first slash, if there is one, is the last character.
abbrev last_index : Option ℕ → ℕ → Bool
last_index none len = true
last_index (some i) len = i + 1 == len

-- The entry for a header whose name goes on with `relative`; `some none` if it lies deeper, or is the
-- directory itself. `whole` is the length of `relative` less a final slash.
unfoldable pub relative_entry : List ℕ → List ℕ → Option (Option TarEntry)
relative_entry hdr relative = elim (strlen relative) [
  | none ↦ none
  | some len ↦ elim (strchr relative b'/') [
    | none ↦ none
    | some slash ↦
        let slashed = ltb 0 len && get_or relative (len - 1) 0 == b'/' in
        let whole = if slashed then len - 1 else len in
        if not (len == 0) && last_index slash len
        then some (
            some (record {
              name = take (min whole 99) relative ++ 0 ∷ [];
              type = if hdr_type hdr == b'5' then b'5' else b'0';
              size = hdr_size hdr;
            }))
        else some none
  ]
]

-- The entry that a header makes in a listing of `path`, if it makes one.
unfoldable pub list_entry : List ℕ → List ℕ → Option (Option TarEntry)
list_entry hdr path = elim (strlen path) [
  | none ↦ none
  | some path_len ↦ elim (strncmp hdr path path_len) [
    | none ↦ none
    | some r ↦
        if path_len == 0 || is_zero r
        then relative_entry hdr (skip_slash (drop path_len hdr))
        else some none
  ]
]

-- The entries are written in order; `room` is `max - count`.
unfoldable pub listdir_loop : ℕ → ℕ → ℕ → List ℕ → Tar → Option (List TarEntry)
listdir_loop zero room offset path t = none
listdir_loop (suc fuel) room offset path t =
    let hdr = drop offset t.tar_data in
    let after = (offset + entry_size (hdr_size hdr)) % 2 ^ 64 in
    let skipped = listdir_loop fuel room after path t in
    let others = listdir_loop fuel (room - 1) after path t in
    if not (leb (offset + 512) t.tar_size) || room == 0 || get_or hdr 0 0 == 0
    then some []
    else elim (list_entry hdr path) [
      | none ↦ none
      | some none ↦ skipped
      | some (some entry) ↦ elim others [ none ↦ none | some entries ↦ some (entry ∷ entries) ]
    ]

-- The number of the entries is the result.
unfoldable pub tar_listdir : List ℕ → ℕ → Tar → Option (List TarEntry)
tar_listdir path max t = listdir_loop (t.tar_size / 512 + 1) max 0 path t
