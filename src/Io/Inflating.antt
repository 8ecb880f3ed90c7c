-- ===== src/Io/Inflating.antt =====
-- The loop of `swish_io_slurp_gzfile_len`.
use libswish.Io.{no_nulls, end_gz, read_gz, slurp_gzfile_len}
use libswish.Io.Reading.{readable, no_nulls-readable}
use libswish.Prelude.{
  ℕ, zero, suc, ◌*◌, ◌%◌, ◌^◌, ◌≤◌, ◌<◌, ◌≡◌, ◌⊎◌, refl, ◌∙◌, ap, false, [], ◌∷◌, ◌++◌, arith, ltb,
  ◌==◌, inl, inr, length, take, Bytes, ok, ◌>>=◌,
}
use libswish.TokenList.{up_to_nul}

take_all : (s : Bytes) (n : ℕ) → length s ≤ n → take n s ≡ s
take_all [] zero h = refl
take_all [] (suc n) h = refl
take_all (c ∷ s) zero h = absurd (omega arith)
take_all (c ∷ s) (suc n) h = ap (◌∷◌ c) (take_all s n (omega arith))

length-take : (s : Bytes) (n : ℕ) → n ≤ length s → length (take n s) ≡ n
length-take s zero h = refl
length-take [] (suc n) h = absurd (omega arith)
length-take (c ∷ s) (suc n) h = ap suc (length-take s n (omega arith))

nat_cases : (m n : ℕ) → (m < n) ⊎ (n ≤ m)
nat_cases m n = ground arith

-- The buffer that a file of text becomes.
abbrev pub text_block : Bytes → Bytes
text_block file = no_nulls (file ++ 0 ∷ []) (length file)

-- The size of the block after so many rounds.
abbrev pub grown_to : ℕ → ℕ → ℕ
grown_to size zero = size
grown_to size (suc fuel) = grown_to (size * 3) fuel

grown_to_ge : (size fuel : ℕ) → size ≤ grown_to size fuel
grown_to_ge size zero = omega arith
grown_to_ge size (suc fuel) = omega (arith, grown_to_ge (size * 3) fuel)

filled :
    (file : Bytes) (size : ℕ)
    → size ≤ length file
    → 0 < size
    → (length (take size file) == 0 ≡ false) × (ltb (length (take size file)) size ≡ false)
filled file size h pos = rw (length-take file size h) (ground arith, ground arith)

end_gz-whole :
    (file : Bytes) (size : ℕ)
    → length file < size
    → end_gz (take size file) size false ≡ ok (text_block file)
unfolding end_gz
end_gz-whole file size h = rw (take_all file size (omega arith)) (ground arith)

read_gz-again :
    (fuel size : ℕ) (file last : Bytes)
    → size ≤ length file
    → 0 < size
    → size * 3 < 2 ^ 31
    → read_gz (suc fuel) file size last false ≡ read_gz fuel file (size * 3) (take size file) false
unfolding read_gz
read_gz-again fuel size file last h pos small =
    let wrap : size * 3 % 2 ^ 32 ≡ size * 3 = omega arith in
    let (some_read, full) = filled file size h pos in ground (arith, some_read, full, wrap)

read_gz-last :
    (fuel size : ℕ) (file last : Bytes)
    → 0 < length file
    → length file < size
    → size < 2 ^ 31
    → read_gz (suc fuel) file size last false ≡ ok (text_block file)
unfolding read_gz
read_gz-last fuel size file last nonempty whole small =
    ground (arith, end_gz-whole file size whole, take_all file size)

read_gz-whole :
    (rounds fuel size : ℕ) (file last : Bytes)
    → fuel ≤ rounds
    → 0 < length file
    → 0 < size
    → length file < grown_to size fuel
    → grown_to size fuel < 2 ^ 31
    → read_gz (suc rounds) file size last false ≡ ok (text_block file)
read_gz-whole rounds zero size file last le nonempty pos fits small =
    read_gz-last rounds size file last nonempty fits small
read_gz-whole zero (suc fuel) size file last le nonempty pos fits small = absurd (omega arith)
read_gz-whole (suc rounds) (suc fuel) size file last le nonempty pos fits small =
    elim (nat_cases (length file) size) [
      | inl whole ↦
          read_gz-last (suc rounds) size file last nonempty whole
            (omega (arith, grown_to_ge (size * 3) fuel))
      | inr more ↦
          read_gz-again (suc rounds) size file last more pos
            (omega (arith, grown_to_ge (size * 3) fuel))
          ∙ read_gz-whole rounds fuel (size * 3) file (take size file) (omega arith) nonempty
              (omega arith) fits small
    ]

-- The text of a compressed file is read to its end, in bounds and in at most 32 rounds, if a block
-- that begins with three times the size of the file grows larger than the text before its own size
-- can no longer be counted by an int; NULs and bumpers are newlines in it if there is a NUL.
pub slurp_gzfile_len-readable :
    (file : Bytes) (flen rounds : ℕ)
    → 0 < length file
    → 0 < flen
    → rounds ≤ 32
    → length file < grown_to (flen * 3) rounds
    → grown_to (flen * 3) rounds < 2 ^ 31
    → (slurp_gzfile_len file flen false >>= λ buffer. ok (up_to_nul buffer)) ≡ ok (readable file)
unfolding slurp_gzfile_len
slurp_gzfile_len-readable file flen rounds nonempty pos le fits small =
    let wrap : flen * 3 % 2 ^ 32 ≡ flen * 3 = omega (arith, grown_to_ge (flen * 3) rounds) in
    ap (λ size. read_gz 33 file size [] false >>= λ buffer. ok (up_to_nul buffer)) wrap
    ∙ ap (λ r. r >>= λ buffer. ok (up_to_nul buffer))
        (read_gz-whole 32 rounds (flen * 3) file [] le nonempty (omega arith) fits small)
    ∙ ap ok (no_nulls-readable file)
