-- ===== src/Vfs.antt =====
-- src/fs/vfs.c: from a path such as "0:/bin/ls" to a node.
-- A path is a terminated string, given as the list of its bytes. What a file system does is given by the
-- operations of `Nodes`, since `ops` is a table of functions: a node is a number, the state `S` is what
-- they change, and it includes the reference counts. `none` is a read past the path.
pub mod Path
pub mod Resolve
mod Examples
use cobj_os.Prelude.{
  ℕ, zero, suc, ◌+◌, ◌-◌, ◌*◌, ◌^◌, Bool, true, false, not, ◌&&◌, ◌||◌, Option, none, some, List,
  [], ◌∷◌, ◌++◌, ltb, leb, ◌==◌, if◌then◌else◌, get_elem?, length,
}

abbrev pub max_drives : ℕ
max_drives = 8

abbrev pub max_name : ℕ
max_name = 256

pub record Drive : Type 0 where
  pub root : Option ℕ
  pub present : Bool

-- The node operations that `vfs_resolve` calls. `has_lookup` and `has_release` tell whether the pointer
-- is there, the one to the table included.
pub record Nodes (S : Type 0) : Type 0 where
  pub is_dir : ℕ → Bool
  pub has_lookup : ℕ → Bool
  pub has_release : ℕ → Bool
  pub lookup : ℕ → List ℕ → S → Option ℕ × S
  pub release : ℕ → S → S
  pub retain : ℕ → S → S

pub data Split : Type 0 where
  unterminated no_colon : Split
  colon_at : List ℕ → List ℕ → Split

pub data Parsed : Type 0 where
  undefined refused : Parsed
  parsed : ℕ → List ℕ → Parsed

abbrev pub is_digit : ℕ → Bool
is_digit c = leb b'0' c && leb c b'9'

-- `while (*colon && *colon != ':') colon++;`: what stands before the colon and behind it.
unfoldable pub find_colon : List ℕ → List ℕ → Split
find_colon [] before = unterminated
find_colon (c ∷ path) before =
    let next = find_colon path (before ++ c ∷ []) in
    if c == b':' then colon_at before path else if c == 0 then no_colon else next

-- The number of the drive, which is an `int`.
unfoldable pub drive_loop : List ℕ → ℕ → List ℕ → Parsed
drive_loop [] drive_num rel_path = parsed drive_num rel_path
drive_loop (c ∷ before) drive_num rel_path =
    let value = drive_num * 10 + (c - b'0') in
    let next = drive_loop before value rel_path in
    if is_digit c then (if ltb value (2 ^ 31) then next else undefined) else refused

unfoldable pub parse_path : List ℕ → Parsed
parse_path path = elim (find_colon path []) [
  | unterminated ↦ undefined
  | no_colon ↦ refused
  | colon_at before rel_path ↦ drive_loop before 0 rel_path
]

pub data Component : Type 0 where
  past_end no_component : Component
  component : List ℕ → List ℕ → Component

unfoldable pub skip_slashes : List ℕ → List ℕ
skip_slashes [] = []
skip_slashes (c ∷ path) = let rest = skip_slashes path in if c == b'/' then rest else c ∷ path

-- The loop that fills `out`; `room` is `MAX_NAME - 1 - i`.
unfoldable pub component_loop : ℕ → List ℕ → List ℕ → Component
component_loop room [] out = past_end
component_loop zero (c ∷ path) out = component out (c ∷ path)
component_loop (suc room) (c ∷ path) out =
    let next = component_loop room path (out ++ c ∷ []) in
    if c == 0 || c == b'/' then component out (c ∷ path) else next

abbrev pub start_component : List ℕ → Component
start_component [] = past_end
start_component (c ∷ path) =
    if c == 0 then no_component else component_loop (max_name - 1) (c ∷ path) []

unfoldable pub next_component : List ℕ → Component
next_component path = start_component (skip_slashes path)

pub data Resolved (S : Type 0) : Type 0 where
  overrun : Resolved S
  resolved : Option ℕ → S → Resolved S

module _ {S : Type 0} (nodes : Nodes S) where
  -- `if (cur != root && cur->ops && cur->ops->release) cur->ops->release(cur);`
  unfoldable pub let_go : ℕ → ℕ → S → S
  let_go root cur s = if not (cur == root) && nodes.has_release cur then nodes.release cur s else s

  -- The loop of `vfs_resolve`; a round takes at least one character, so that the length of the path is
  -- fuel enough.
  unfoldable pub resolve_loop : ℕ → ℕ → ℕ → List ℕ → S → Resolved S
  resolve_loop zero root cur path s = overrun
  resolve_loop (suc fuel) root cur path s = elim (next_component path) [
    | past_end ↦ overrun
    | no_component ↦ resolved (some cur) (if cur == root then nodes.retain root s else s)
    | component name rest ↦
        if not (nodes.is_dir cur) || not (nodes.has_lookup cur)
        then resolved none (let_go root cur s)
        else (let (found, s') = nodes.lookup cur name s in
            elim found [
              | none ↦ resolved none (let_go root cur s')
              | some next ↦ resolve_loop fuel root next rest (let_go root cur s')
            ])
  ]

  unfoldable pub resolve_drive : Option Drive → List ℕ → S → Resolved S
  resolve_drive none rel_path s = resolved none s
  resolve_drive (some drive) rel_path s =
      if drive.present
      then elim (drive.root) [
        | none ↦ resolved none s
        | some root ↦ resolve_loop (length rel_path) root root rel_path s
      ]
      else resolved none s

  -- `drives` holds the `MAX_DRIVES` entries of `vfs_drives`.
  abbrev pub resolve_parsed : List Drive → S → Parsed → Resolved S
  resolve_parsed drives s undefined = overrun
  resolve_parsed drives s refused = resolved none s
  resolve_parsed drives s (parsed drive_num rel_path) =
      resolve_drive (if leb max_drives drive_num then none else get_elem? drives drive_num) rel_path
        s

  unfoldable pub vfs_resolve : List Drive → List ℕ → S → Resolved S
  vfs_resolve drives path s = resolve_parsed drives s (parse_path path)
