-- ===== src/Fs.antt =====
-- src/libswish3/fs.c: file extensions and paths. What asks the file system is left out.
pub mod Names
use libswish.Prelude.{
  ℕ, zero, suc, ◌+◌, ◌-◌, Bool, true, false, not, ◌||◌, List, [], ◌∷◌, Option, none, some, Bytes,
  eq_bytes, Run, ok, croak, ◌>>=◌, if◌then◌else◌, ◌==◌, length, take, drop,
}
use libswish.Str.{at, Wide, str_tolower}

-- `xmlStrchr`, as a test.
unfoldable pub has_chr : Bytes → ℕ → Bool
has_chr [] c = false
has_chr (d ∷ set) c = c == d || has_chr set c

-- The loop of `findlast`, from the index of the last byte down to the start of the string.
unfoldable pub last_from : Bytes → Bytes → ℕ → Option ℕ
unfolding has_chr
last_from set s zero = if has_chr set (at s 0) then some 0 else none
last_from set s (suc i) = elim (has_chr set (at s (suc i))) [
  | true ↦ some (suc i)
  | false ↦ last_from set s i
]

-- A pointer into the string is its index.
unfoldable pub findlast : Bytes → Bytes → Option ℕ
unfolding last_from
findlast s set = if length s == 0 || length set == 0 then none else last_from set s (length s - 1)

-- `SWISH_PATH_SEP`, `SWISH_EXT_CH` and `SWISH_EXT_SEP`
abbrev pub path_sep : ℕ
path_sep = 47

abbrev pub ext_ch : ℕ
ext_ch = 46

abbrev pub ext_sep : Bytes
ext_sep = path_sep ∷ ext_ch ∷ []

unfoldable pub get_file_ext : Wide → Bytes → Run (Option Bytes)
unfolding findlast
get_file_ext wide url = elim (findlast url ext_sep) [
  | none ↦ ok none
  | some p ↦
      if not (at url p == ext_ch)
      then ok none
      else (str_tolower wide (drop (p + 1) url) >>= λ ext. ok (some ext))
]

unfoldable pub get_path : Bytes → Option Bytes
unfolding findlast
get_path url = elim (findlast url (path_sep ∷ [])) [
  | none ↦ none
  | some p ↦
      if not (at url p == path_sep)
      then none
      else if eq_bytes url (drop p url)
      then none
      else some (take (p + 1) url)
]

unfoldable pub looks_like_gz : Wide → Bytes → Run Bool
unfolding get_file_ext
looks_like_gz wide file = get_file_ext wide file >>= λ ext.
    ok (elim ext [ none ↦ false | some e ↦ eq_bytes e (103 ∷ 122 ∷ []) ])
