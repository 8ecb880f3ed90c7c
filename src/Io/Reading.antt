-- ===== src/Io/Reading.antt =====
-- What the readers of src/libswish3/io.c make of the bytes they get.
use libswish.Io.{replace_first, no_nulls, slurp_fh, is_skippable_line}
use libswish.Ctype.{is_space}
use libswish.Prelude.{
  ℕ, ◌<◌, ◌≡◌, refl, Bool, inl, inr, ◌↔◌, ◌⊎◌, true, false, ◌||◌, ◌&&◌, [], ◌∷◌, ◌++◌, map, arith,
  ok, croak, short_read, ◌>>=◌, ◌==◌, if◌then◌else◌, Bool-cases, length, Bytes,
}
use libswish.Str.{at, skip_ws, all_ws}
use libswish.Str.Whitespace.{all_ws-iff_skip_ws}
use libswish.TokenList.{up_to_nul}

-- The file has a NUL in it.
unfoldable has_nul : Bytes → Bool
has_nul [] = false
has_nul (c ∷ file) = c == 0 || has_nul file

-- The text of a file: with a NUL in it, all its NULs and bumpers are newlines.
unfoldable pub readable : Bytes → Bytes
unfolding has_nul
readable file = if has_nul file then map (λ c. if c == 0 || c == 3 then 10 else c) file else file

up_to_nul-append : (file : Bytes) → has_nul file ≡ false → up_to_nul (file ++ 0 ∷ []) ≡ file
unfolding has_nul up_to_nul
up_to_nul-append [] h = refl
up_to_nul-append (c ∷ file) h = ground (arith, up_to_nul-append file)

length-up_to_nul_lt :
    (file : Bytes) → has_nul file ≡ true → length (up_to_nul (file ++ 0 ∷ [])) < length file
unfolding has_nul up_to_nul
length-up_to_nul_lt [] h = ground arith
length-up_to_nul_lt (c ∷ file) h = ground (arith, length-up_to_nul_lt file)

up_to_nul-replace_first :
    (file : Bytes)
    → up_to_nul (replace_first (file ++ 0 ∷ []) (length file))
      ≡ map (λ c. if c == 0 || c == 3 then 10 else c) file
unfolding replace_first up_to_nul
up_to_nul-replace_first [] = refl
up_to_nul-replace_first (c ∷ file) = ground (arith, up_to_nul-replace_first file)

pub no_nulls-readable :
    (file : Bytes) → up_to_nul (no_nulls (file ++ 0 ∷ []) (length file)) ≡ readable file
unfolding no_nulls readable
no_nulls-readable file = elim (Bool-cases (has_nul file)) [
  | inl y ↦ ground (arith, y, length-up_to_nul_lt file y, up_to_nul-replace_first file)
  | inr n ↦ ground (arith, n, up_to_nul-append file n)
]

-- Read as text, a handle that gives as many bytes as asked for makes a C string of all of them, in
-- which NULs and bumpers are newlines if there is a NUL among them; one that gives more or fewer
-- bytes ends the program.
pub slurp_fh-readable :
    (file : Bytes) (flen : ℕ)
    → (slurp_fh file flen false >>= λ buffer. ok (up_to_nul buffer))
      ≡ (if length file == flen then ok (readable file) else croak short_read)
unfolding slurp_fh
slurp_fh-readable file flen = ground (arith, no_nulls-readable file)

skip_ws-inked : (s : Bytes) → (skip_ws s ≡ []) ⊎ (is_space (at (skip_ws s) 0) ≡ false)
unfolding skip_ws
skip_ws-inked [] = inl refl
skip_ws-inked (c ∷ s) = ground (arith, skip_ws-inked s)

skippable_tests :
    (line : Bytes) (white : Bool)
    → (white ≡ true) ↔ (line ≡ [])
    → (line ≡ []) ⊎ (is_space (at line 0) ≡ false)
    → (if length line == 0 || (length line == 1 && at line 0 == 10)
        then true
        else if at line 0 == 35
        then true
        else false)
      ≡ white || at line 0 == 35
unfolding is_space
skippable_tests [] white w k = ground (arith, w.1 refl)
skippable_tests (c ∷ []) white w k = ground (arith, w, k)
skippable_tests (c ∷ d ∷ line) white w k = ground (arith, w, k)

-- A line of a list of files is passed over exactly if it is all white space or its first byte
-- behind white space is `#`.
pub is_skippable_line-all_ws :
    (s : Bytes) → is_skippable_line s ≡ all_ws s || at (skip_ws s) 0 == 35
unfolding is_skippable_line
is_skippable_line-all_ws s =
    skippable_tests (skip_ws s) (all_ws s) (all_ws-iff_skip_ws s) (skip_ws-inked s)
