-- ===== src/Tar/Archive.antt =====
-- Archives as src/fs/tar.c reads them: entries of a header block and content, written one after another.
use cobj_os.Prelude.{
  ℕ, zero, suc, ◌+◌, ◌-◌, ◌*◌, ◌/◌, ◌%◌, ◌^◌, ◌≤◌, ◌<◌, ◌≡◌, refl, ap, ◌∙◌, List, [], ◌∷◌, ◌++◌,
  arith, get_or, length, take, drop, replicate, length-append, length-replicate,
}
use cobj_os.Prelude.Bits.{align_down_sector}
use cobj_os.Tar.{hdr_size, hdr_type, entry_size, tar_parse_octal, octal_loop}
use cobj_os.Text.Strings.{IsString, terminated}

-- The header block is the name, its NUL and `fields`, the rest of the block.
pub record Entry : Type 0 where
  pub name : List ℕ
  pub fields : List ℕ
  pub content : List ℕ

abbrev pub header : Entry → List ℕ
header e = terminated e.name e.fields

abbrev pub padding : Entry → List ℕ
padding e = replicate ((length e.content + 511) / 512 * 512 - length e.content) 0

abbrev pub block : Entry → List ℕ
block e = header e ++ (e.content ++ padding e)

-- A block of the archive: its name is not empty and the size field says the size.
pub record IsEntry (e : Entry) : Type 0 where
  pub string : IsString e.name
  pub named : 0 < length e.name
  pub sized : length (header e) ≡ 512
  pub size : hdr_size (header e) ≡ length e.content

abbrev pub AreEntries : List Entry → Type 0
AreEntries [] = Unit {0}
AreEntries (e ∷ es) = IsEntry e × AreEntries es

abbrev pub blocks : List Entry → List ℕ
blocks [] = []
blocks (e ∷ es) = block e ++ blocks es

-- The archive ends with two blocks of zeros.
abbrev pub encode : List Entry → List ℕ
encode es = blocks es ++ replicate 1024 0

module _ {ℓ} {A : Type ℓ} where
  pub drop-append : (xs ys : List A) → drop (length xs) (xs ++ ys) ≡ ys
  drop-append [] ys = refl
  drop-append (x ∷ xs) ys = drop-append xs ys

  pub drop-le : (n : ℕ) (xs ys : List A) → n ≤ length xs → drop n (xs ++ ys) ≡ drop n xs ++ ys
  drop-le zero xs ys h = refl
  drop-le (suc n) [] ys h = absurd (omega arith)
  drop-le (suc n) (x ∷ xs) ys h = drop-le n xs ys (omega arith)

  pub length-drop : (n : ℕ) (xs : List A) → length (drop n xs) ≡ length xs - n
  length-drop zero xs = omega arith
  length-drop (suc n) [] = omega arith
  length-drop (suc n) (x ∷ xs) = length-drop n xs ∙ omega arith

  pub get_or-append :
      (i : ℕ) (xs ys : List A) (d : A) → i < length xs → get_or (xs ++ ys) i d ≡ get_or xs i d
  get_or-append i [] ys d h = absurd (omega arith)
  get_or-append zero (x ∷ xs) ys d h = refl
  get_or-append (suc i) (x ∷ xs) ys d h = get_or-append i xs ys d (omega arith)

  pub take-append : (xs ys : List A) → take (length xs) (xs ++ ys) ≡ xs
  take-append [] ys = refl
  take-append (x ∷ xs) ys = ap (◌∷◌ x) (take-append xs ys)

octal_loop-append :
    (n : ℕ) (xs ys : List ℕ) (val : ℕ)
    → n ≤ length xs
    → octal_loop n (xs ++ ys) val ≡ octal_loop n xs val
unfolding octal_loop
octal_loop-append zero xs ys val h = refl
octal_loop-append (suc n) [] ys val h = absurd (omega arith)
octal_loop-append (suc n) (x ∷ xs) ys val h =
    rw (octal_loop-append n xs ys ((val * 8 + (x - b'0')) % 2 ^ 64) (omega arith)) refl

-- The fields are read the same with more bytes behind the block.
pub hdr_size-append : (hdr x : List ℕ) → length hdr ≡ 512 → hdr_size (hdr ++ x) ≡ hdr_size hdr
unfolding hdr_size tar_parse_octal
hdr_size-append hdr x sized =
    rw (drop-le 124 hdr x (omega (arith, sized)))
      (octal_loop-append 12 (drop 124 hdr) x 0 (omega (arith, length-drop 124 hdr, sized)))

pub hdr_type-append : (hdr x : List ℕ) → length hdr ≡ 512 → hdr_type (hdr ++ x) ≡ hdr_type hdr
unfolding hdr_type
hdr_type-append hdr x sized = get_or-append 156 hdr x 0 (omega (arith, sized))

pub length-block :
    (e : Entry)
    → length (header e) ≡ 512
    → length (block e) ≡ 512 + (length e.content + 511) / 512 * 512
length-block e sized = omega (
  arith,
  sized,
  length-append (header e) (e.content ++ padding e),
  length-append e.content (padding e),
  length-replicate ((length e.content + 511) / 512 * 512 - length e.content) (the_zero),
)
  where
    the_zero : ℕ
    the_zero = 0

pub entry_size-length : (n : ℕ) → n < 2 ^ 63 → entry_size n ≡ 512 + (n + 511) / 512 * 512
unfolding entry_size
entry_size-length n h =
    let small : (n + 511) % 2 ^ 64 ≡ n + 511 = omega arith in
    rw (small, align_down_sector (n + 511) (omega arith)) refl
