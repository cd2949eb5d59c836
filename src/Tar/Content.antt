-- ===== src/Tar/Content.antt =====
-- The bytes at the place that `tar_find` of src/fs/tar.c answers with.
use cobj_os.Prelude.{
  ℕ, suc, ◌+◌, ◌^◌, ◌<◌, ◌≡◌, refl, sym, ap, ◌∙◌, ◌⊎◌, inl, inr, none, some, List, [], ◌∷◌, ◌++◌,
  arith, length, take, drop, replicate, append_assoc,
}
use cobj_os.Tar.{Tar, tar_find}
use cobj_os.Tar.Archive.{
  Entry, IsEntry, AreEntries, header, block, blocks, padding, encode, drop-append, take-append,
}
use cobj_os.Text.Strings.{IsString, terminated}
use cobj_os.Tar.Find.{Matches, NoMatch, tar_find-Found}

drop-add : (xs ys : List ℕ) (n : ℕ) → drop (length xs + n) (xs ++ ys) ≡ drop n ys
drop-add [] ys n = let e : 0 + n ≡ n = omega arith in rw e refl
drop-add (x ∷ xs) ys n =
    let e : suc (length xs) + n ≡ suc (length xs + n) = omega arith in rw e (drop-add xs ys n)

blocks-append :
    (before after : List Entry) → blocks (before ++ after) ≡ blocks before ++ blocks after
blocks-append [] after = refl
blocks-append (e ∷ before) after =
    ap (λ l. block e ++ l) (blocks-append before after)
    ∙ sym (append_assoc (block e) (blocks before) (blocks after))

-- The archive around the content of one entry.
encode-split :
    (before after : List Entry) (e : Entry)
    → encode (before ++ e ∷ after)
      ≡ blocks before ++ (header e ++ (e.content ++ (padding e ++ encode after)))
encode-split before after e =
    let zeros = replicate 1024 0 in
    ap (λ l. l ++ zeros) (blocks-append before (e ∷ after))
    ∙ append_assoc (blocks before) (block e ++ blocks after) zeros
    ∙ ap (λ l. blocks before ++ l)
        (append_assoc (block e) (blocks after) zeros
          ∙ append_assoc (header e) (e.content ++ padding e) (encode after)
          ∙ ap (λ l. header e ++ l) (append_assoc e.content (padding e) (encode after)))

-- At the place that `tar_find` gives for a file stand the bytes of its content.
content_at :
    (before after : List Entry) (e : Entry)
    → IsEntry e
    → take (length e.content) (drop (length (blocks before) + 512) (encode (before ++ e ∷ after)))
      ≡ e.content
content_at before after e entry =
    let rest = e.content ++ (padding e ++ encode after) in
    let there : drop (length (blocks before) + 512) (encode (before ++ e ∷ after)) ≡ rest =
      ap (drop (length (blocks before) + 512)) (encode-split before after e)
      ∙ drop-add (blocks before) (header e ++ rest) 512
      ∙ ap (λ i. drop i (header e ++ rest)) (sym (entry.sized))
      ∙ drop-append (header e) rest in
    ap (take (length e.content)) there ∙ take-append e.content (padding e ++ encode after)

entry_in : (before after : List Entry) (e : Entry) → AreEntries (before ++ e ∷ after) → IsEntry e
entry_in [] after e (entry, entries) = entry
entry_in (b ∷ before) after e (entry, entries) = entry_in before after e entries

-- On an archive below 2^62 bytes `tar_find` ends. It gives NULL exactly where no regular file has the
-- name, and else the place and the size of the first that has it; there stand the bytes of its content.
pub tar_find-content :
    (query x : List ℕ) (es : List Entry)
    → IsString query
    → AreEntries es
    → length (encode es) < 2 ^ 62
    → (let t : Tar = record { tar_data = encode es; tar_size = length (encode es) } in
        (NoMatch query es × (tar_find (terminated query x) t ≡ some none))
        ⊎ ((before : List Entry) × (e : Entry) × (after : List Entry) × (place : ℕ) × (es
              ≡ before ++ e ∷ after)
            × NoMatch query before
            × Matches query e
            × (tar_find (terminated query x) t ≡ some (some (place, length e.content)))
            × (take (length e.content) (drop place (encode es)) ≡ e.content)))
tar_find-content query x es str entries small =
    let (r, found, spec) = tar_find-Found query x str es entries small in
    elim spec [
      | inl (nowhere, nothing) ↦ inl (nowhere, found ∙ ap some nothing)
      | inr (before, e, after, split, nowhere, matches, value) ↦
          let place : 0 + length (blocks before) + 512 ≡ length (blocks before) + 512 =
            omega arith in
          inr (
            before,
            e,
            after,
            length (blocks before) + 512,
            split,
            nowhere,
            matches,
            found ∙ ap some (value ∙ ap (λ i. some (i, length e.content)) place),
            rw split (content_at before after e (entry_in before after e (rw split at entries))),
          )
    ]
