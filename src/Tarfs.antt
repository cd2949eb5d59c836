-- ===== src/Tarfs.antt =====
-- src/fs/tar_vfs.c: reading of a file of the archive. The archive is the list of its bytes, and a node
-- leads to its header at `hdr` in it; `size` is the node's.
pub mod Plain
mod Examples
use cobj_os.Prelude.{ℕ, ◌+◌, ◌-◌, ◌%◌, ◌^◌, List, [], ltb, leb, if◌then◌else◌, take, drop}
use cobj_os.Prelude.Ints.{ℤ, pos, to_int}

-- The result, an `int`, and the bytes that are copied into the buffer; those behind the archive, which the
-- code copies too, are left out. The sum wraps around, so that a large `len` is not cut to the file.
unfoldable pub tarfs_read : List ℕ → (hdr size len off : ℕ) → ℤ × List ℕ
tarfs_read archive hdr size len off =
    let file_data = drop (hdr + 512) archive in
    let to_read = if ltb size ((off + len) % 2 ^ 64) then size - off else len in
    if leb size off then (pos 0, []) else (to_int to_read, take to_read (drop off file_data))
