-- ===== src/Io.antt =====
-- src/libswish3/io.c: the bytes of a file made a string, and the lines of a list of files.
pub mod Reading
pub mod Inflating
pub mod Counting
use libswish.Prelude.{
  ℕ, zero, suc, ◌+◌, Bool, true, false, ◌&&◌, ◌||◌, [], ◌∷◌, ◌++◌, ltb, ◌==◌, if◌then◌else◌, length,
  take, ◌*◌, ◌%◌, ◌^◌, guard, ◌>>◌, ◌>>=◌, out_of_bounds, out_of_fuel, read_failed, leb, Bytes, Run,
  ok, croak, short_read, not,
}
use libswish.Str.{at, skip_ws}
use libswish.TokenList.{up_to_nul}

-- One round of the loop in `no_nulls`; the second test reads the byte that the first may have set.
abbrev pub replaced : ℕ → ℕ
replaced c = let d = if c == 0 then 10 else c in if d == 3 then 10 else d

-- The loop over the first `n` bytes of a block.
unfoldable pub replace_first : Bytes → ℕ → Bytes
replace_first block zero = block
replace_first [] (suc n) = []
replace_first (c ∷ block) (suc n) = replaced c ∷ replace_first block n

unfoldable pub no_nulls : Bytes → ℕ → Bytes
unfolding replace_first
no_nulls buffer bytes_read =
    if ltb (length (up_to_nul buffer)) bytes_read then replace_first buffer bytes_read else buffer

-- `swish_io_slurp_fh`; `file` is what `fread` gives when it is asked for `flen` bytes,
-- fewer than 2 ^ 31, which the conversion to `int` keeps.
unfoldable pub slurp_fh : Bytes → ℕ → Bool → Run Bytes
unfolding no_nulls
slurp_fh file flen binmode =
    let bytes_read = length file in
    let buffer = file ++ 0 ∷ [] in
    if not (bytes_read == flen)
    then croak short_read
    else if binmode
    then ok buffer
    else ok (no_nulls buffer bytes_read)

-- `SWISH_MAX_FILE_LEN`
abbrev pub max_file_len : ℕ
max_file_len = 102400000

-- `swish_io_slurp_file_len`; `file` is what stands in the file.
unfoldable pub slurp_file_len : Bytes → ℕ → Bool → Run Bytes
unfolding no_nulls
slurp_file_len file flen binmode =
    let flen' = if ltb max_file_len flen then max_file_len else flen in
    let read = take flen' file in
    let buffer = read ++ 0 ∷ [] in
    if not (length read == flen')
    then croak short_read
    else if binmode
    then ok buffer
    else ok (no_nulls buffer (length read))

-- The end of `swish_io_slurp_gzfile_len`: the NUL behind what was read.
unfoldable pub end_gz : Bytes → ℕ → Bool → Run Bytes
unfolding no_nulls
end_gz read buf_size binmode =
    let buffer = read ++ 0 ∷ [] in
    guard (ltb (length read) buf_size) out_of_bounds
    >> ok (if binmode then buffer else no_nulls buffer (length read))

-- The loop reads from the start into a block three times as large until that is not filled.
-- `last` is what the round before has read, `buf_size` an unsigned int. `gzread` gives -1 when it is
-- asked for more bytes than an int can count.
unfoldable pub read_gz : ℕ → Bytes → ℕ → Bytes → Bool → Run Bytes
unfolding end_gz
read_gz zero file buf_size last binmode = croak out_of_fuel
read_gz (suc fuel) file buf_size last binmode =
    let again = read_gz fuel file (buf_size * 3 % 2 ^ 32) (take buf_size file) binmode in
    if leb (2 ^ 31) buf_size
    then croak read_failed
    else if length (take buf_size file) == 0
    then end_gz last buf_size binmode
    else if ltb (length (take buf_size file)) buf_size
    then end_gz (take buf_size file) buf_size binmode
    else again

-- `file` is the text that the file inflates to, without a fault in it. The block grows at most 32
-- times before its size wraps.
unfoldable pub slurp_gzfile_len : Bytes → ℕ → Bool → Run Bytes
unfolding read_gz
slurp_gzfile_len file flen binmode = read_gz 33 file (flen * 3 % 2 ^ 32) [] binmode

unfoldable pub is_skippable_line : Bytes → Bool
unfolding skip_ws
is_skippable_line str =
    let line = skip_ws str in
    if length line == 0 || (length line == 1 && at line 0 == 10)
    then true
    else if at line 0 == 35
    then true
    else false
