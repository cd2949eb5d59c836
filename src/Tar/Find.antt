-- ===== src/Tar/Find.antt =====
-- `tar_find` of src/fs/tar.c on an archive finds the first regular file of the name, and its bytes.
use cobj_os.Prelude.{
  ℕ, zero, suc, ◌+◌, ◌*◌, ◌/◌, ◌%◌, ◌^◌, ◌<◌, ◌≡◌, refl, sym, ap, ◌∙◌, ◌⊎◌, inl, inr, Bool, true,
  false, not, ◌&&◌, ◌||◌, Option, none, some, List, [], ◌∷◌, ◌++◌, arith, leb, ◌==◌, if◌then◌else◌,
  Bool-cases, get_or, length, drop, replicate, length-append, append_assoc,
}
use cobj_os.Prelude.Ints.{ℤ, is_zero, is_zero_sound, is_zero_complete}
use cobj_os.Tar.{Tar, hdr_size, hdr_type, is_regular, entry_size, find_loop, tar_find}
use cobj_os.Tar.Archive.{
  Entry, IsEntry, AreEntries, header, block, blocks, padding, encode, drop-append, hdr_size-append,
  hdr_type-append, length-block, entry_size-length,
}
use cobj_os.Text.{strcmp}
use cobj_os.Text.Strings.{
  IsString, terminated, lexicographic, strcmp-lexicographic, lexicographic-zero_iff,
}

abbrev pub Matches : List ℕ → Entry → Type 0
Matches query e = (is_regular (hdr_type (header e)) ≡ true) × (e.name ≡ query)

abbrev pub NoMatch : List ℕ → List Entry → Type 0
NoMatch query [] = Unit {0}
NoMatch query (e ∷ es) = (Matches query e → ⊥) × NoMatch query es

-- The answer that a search of the entries, which start at `offset`, must give.
abbrev pub Found : ℕ → List ℕ → List Entry → Option (ℕ × ℕ) → Type 0
Found offset query es r =
    (NoMatch query es × (r ≡ none))
    ⊎ ((before : List Entry) × (e : Entry) × (after : List Entry) × (es ≡ before ++ e ∷ after)
        × NoMatch query before
        × Matches query e
        × (r ≡ some (offset + length (blocks before) + 512, length e.content)))

-- One round on a header that is not the end.
find_loop-round :
    (fuel offset n : ℕ) (query : List ℕ) (t : Tar) (r : ℤ)
    → (let hdr = drop offset t.tar_data in
        leb (offset + 512) t.tar_size ≡ true
        → (get_or hdr 0 0 == 0) ≡ false
        → hdr_size hdr ≡ n
        → strcmp hdr query ≡ some r
        → find_loop (suc fuel) offset query t ≡ (
            if is_regular (hdr_type hdr) && is_zero r
            then some (some (offset + 512, n))
            else find_loop fuel ((offset + entry_size n) % 2 ^ 64) query t))
unfolding find_loop
find_loop-round fuel offset n query t r inside named size compared =
    elim (Bool-cases (is_regular (hdr_type (drop offset t.tar_data)))) [
      | inl e ↦ rw (inside, named, e, compared, size) refl
      | inr e ↦ rw (inside, named, e, size) refl
    ]

named_first :
    (name x : List ℕ)
    → IsString name
    → 0 < length name
    → (get_or (terminated name x) 0 0 == 0) ≡ false
named_first [] x str h = absurd (omega arith)
named_first (c ∷ name) x (nonzero, str) h = ground (arith, nonzero)

clash : {b : Bool} → b ≡ false → b ≡ true → ⊥
clash no_test test = cc

-- The test of one round decides whether the entry matches.
test-Matches :
    (query : List ℕ) (e : Entry)
    → IsEntry e
    → IsString query
    → (let test = is_regular (hdr_type (header e)) && is_zero (lexicographic e.name query) in
        ((test ≡ true) × Matches query e) ⊎ ((test ≡ false) × (Matches query e → ⊥)))
test-Matches query e entry str =
    let (to, from) = lexicographic-zero_iff e.name query entry.string str in
    let r = lexicographic e.name query in
    elim (Bool-cases (is_regular (hdr_type (header e)))) [
      | inr no_file ↦ inr (rw no_file refl, λ m. clash no_file (m.0))
      | inl file ↦ elim (Bool-cases (is_zero r)) [
        | inl z ↦ inl (rw (file, z) refl, (file, to (is_zero_sound r z)))
        | inr nz ↦ inr (rw (file, nz) refl, λ m. clash nz (is_zero_complete r (from (m.1))))
      ]
    ]

advance :
    (offset n : ℕ) (pre : List ℕ) (e : Entry)
    → length (header e) ≡ 512
    → offset ≡ length pre
    → length e.content ≡ n
    → offset + n < 2 ^ 62
    → (offset + entry_size n) % 2 ^ 64 ≡ length (pre ++ block e)
advance offset n pre e sized at size small = omega (
  arith,
  at,
  size,
  small,
  entry_size-length n (omega arith),
  length-append pre (block e),
  length-block e sized,
)

Found-later :
    (pre query : List ℕ) (e : Entry) (es : List Entry) (r : Option (ℕ × ℕ))
    → (Matches query e → ⊥)
    → Found (length (pre ++ block e)) query es r
    → Found (length pre) query (e ∷ es) r
Found-later pre query e es r not_this (inl (nowhere, nothing)) = inl ((not_this, nowhere), nothing)
Found-later pre query e es r not_this (inr (before, f, after, split, nowhere, matches, value)) =
    let place : length (pre ++ block e) + length (blocks before)
        ≡ length pre + length (block e ++ blocks before) =
      omega (arith, length-append pre (block e), length-append (block e) (blocks before)) in
    inr (
      e ∷ before,
      f,
      after,
      ap (◌∷◌ e) split,
      (not_this, nowhere),
      matches,
      value ∙ ap (λ i. some (i + 512, length f.content)) place,
    )

module _ (query x : List ℕ) (str : IsString query) where
  -- One round on an entry.
  find_loop-entry :
      (fuel : ℕ) (pre rest : List ℕ) (e : Entry) (t : Tar)
      → t.tar_data ≡ pre ++ (block e ++ rest)
      → t.tar_size ≡ length (pre ++ (block e ++ rest))
      → length (pre ++ (block e ++ rest)) < 2 ^ 62
      → IsEntry e
      → find_loop (suc fuel) (length pre) (terminated query x) t ≡ (
          if is_regular (hdr_type (header e)) && is_zero (lexicographic e.name query)
          then some (some (length pre + 512, length e.content))
          else find_loop fuel (length (pre ++ block e)) (terminated query x) t)
  find_loop-entry fuel pre rest e t at size small entry =
      let behind = (e.content ++ padding e) ++ rest in
      let here : drop (length pre) t.tar_data ≡ header e ++ behind =
        ap (drop (length pre)) at
        ∙ drop-append pre (block e ++ rest)
        ∙ append_assoc (header e) (e.content ++ padding e) rest in
      let text : header e ++ behind ≡ terminated e.name (e.fields ++ behind) =
        append_assoc e.name (0 ∷ e.fields) behind in
      let total = length-append pre (block e ++ rest) in
      let whole = length-append (block e) rest in
      let one = length-block e (entry.sized) in
      find_loop-round fuel (length pre) (length e.content) (terminated query x) t
        (lexicographic e.name query) (ground (arith, size, total, whole, one))
        (rw (here, text) (named_first e.name (e.fields ++ behind) (entry.string) (entry.named)))
        (ap hdr_size here ∙ hdr_size-append (header e) behind (entry.sized) ∙ entry.size)
        (rw (here, text)
          (strcmp-lexicographic e.name query (e.fields ++ behind) x (entry.string) str))
      ∙ rw
          (
            here,
            hdr_type-append (header e) behind (entry.sized),
            advance (length pre) (length e.content) pre e (entry.sized) refl refl
                (omega (arith, small, total, whole, one)),
          )
          refl

  encode_cons : (e : Entry) (es : List Entry) → encode (e ∷ es) ≡ block e ++ encode es
  encode_cons e es = append_assoc (block e) (blocks es) (replicate 1024 0)

  -- The end of the archive.
  find_loop-end :
      (fuel : ℕ) (pre : List ℕ) (t : Tar)
      → t.tar_data ≡ pre ++ encode []
      → find_loop (suc fuel) (length pre) (terminated query x) t ≡ some none
  unfolding find_loop
  find_loop-end fuel pre t at =
      let here : drop (length pre) t.tar_data ≡ encode [] =
        ap (drop (length pre)) at ∙ drop-append pre (encode []) in
      let stop : (not (leb (length pre + 512) t.tar_size) || true) ≡ true = ground arith in
      rw (here, stop) refl

  find_loop-Found :
      (fuel : ℕ) (pre : List ℕ) (es : List Entry) (t : Tar)
      → t.tar_data ≡ pre ++ encode es
      → t.tar_size ≡ length (pre ++ encode es)
      → AreEntries es
      → length (pre ++ encode es) < 2 ^ 62
      → length (encode es) < fuel * 512
      → (r : Option (ℕ × ℕ)) × (find_loop fuel (length pre) (terminated query x) t ≡ some r)
        × Found (length pre) query es r
  find_loop-Found zero pre es t at size entries small enough = absurd (omega arith)
  find_loop-Found (suc fuel) pre [] t at size entries small enough =
      (none, find_loop-end fuel pre t at, inl (tt, refl))
  find_loop-Found (suc fuel) pre (e ∷ es) t at size (entry, entries) small enough =
      let same : pre ++ encode (e ∷ es) ≡ pre ++ (block e ++ encode es) =
        ap (λ l. pre ++ l) (encode_cons e es) in
      let next : pre ++ (block e ++ encode es) ≡ (pre ++ block e) ++ encode es =
        sym (append_assoc pre (block e) (encode es)) in
      let at' = at ∙ same in
      let size' = size ∙ ap length same in
      let small' : length (pre ++ (block e ++ encode es)) < 2 ^ 62 =
        omega (arith, ap length same, small) in
      let round = find_loop-entry fuel pre (encode es) e t at' size' small' entry in
      elim (test-Matches query e entry str) [
        | inl (test, matches) ↦ (
          some (length pre + 512, length e.content),
          round ∙ rw test refl,
          inr (
            [],
            e,
            es,
            refl,
            tt,
            matches,
            ap (λ i. some (i + 512, length e.content)) {x = length pre} (omega arith),
          ),
        )
        | inr (test, not_this) ↦
            let (r, found, spec) =
              find_loop-Found fuel (pre ++ block e) es t (at' ∙ next) (size' ∙ ap length next)
                entries (omega (arith, ap length next, small'))
                (omega (
                  arith,
                  enough,
                  ap length (encode_cons e es),
                  length-append (block e) (encode es),
                  length-block e (entry.sized),
                )) in
            (r, round ∙ rw test found, Found-later pre query e es r not_this spec)
      ]

  pub tar_find-Found :
      (es : List Entry)
      → AreEntries es
      → length (encode es) < 2 ^ 62
      → (r : Option (ℕ × ℕ)) × (tar_find
            (terminated query x)
            (record { tar_data = encode es; tar_size = length (encode es) })
          ≡ some r)
        × Found 0 query es r
  unfolding tar_find
  tar_find-Found es entries small =
      find_loop-Found (length (encode es) / 512 + 1) [] es
        (record { tar_data = encode es; tar_size = length (encode es) }) refl refl entries small
        (omega arith)
