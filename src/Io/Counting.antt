-- ===== src/Io/Counting.antt =====
-- src/libswish3/io.c: `swish_io_count_operable_file_lines`.
use libswish.Head.{max_str_len}
use libswish.Head.Lines.{IsLineChar, render}
use libswish.Io.{is_skippable_line}
use libswish.Parser.Streams.{fgets}
use libswish.Parser.Streams.Lines.{fgets-line, up_to_nul-line, newline-length}
use libswish.Ctype.{is_space}
use libswish.Str.{at, skip_ws}
use libswish.Prelude.{
  Bool, true, false, not, ◌||◌, ◌&&◌, Bool-cases, inl, inr, ℕ, zero, suc, ◌+◌, ◌-◌, ◌≤◌, ◌<◌, ◌≡◌,
  refl, ◌∙◌, sym, ap, List, [], ◌∷◌, ◌++◌, Option, none, some, Bytes, Run, ok, croak, if◌then◌else◌,
  ◌==◌, length, length-append, All, arith, out_of_fuel, file_not_opened,
}
use libswish.TokenList.{up_to_nul}

-- The loop, with what is left of the file, in at most so many rounds.
unfoldable count_lines : ℕ → Bytes → ℕ → Run ℕ
unfolding fgets up_to_nul is_skippable_line
count_lines zero file count = croak out_of_fuel
count_lines (suc rounds) file count =
    let got = fgets (max_str_len - 1) file in
    let rest =
      count_lines rounds got.1 (if is_skippable_line (up_to_nul got.0) then count else count + 1) in
    if length got.0 == 0 then ok count else rest

-- `file` is what stands in the file, if it can be opened. One round more than it has bytes is
-- enough.
unfoldable pub count_operable_file_lines : Option Bytes → Run ℕ
unfolding count_lines
count_operable_file_lines none = croak file_not_opened
count_operable_file_lines (some file) = count_lines (suc (length file)) file 0

-- A line that `fgets` reads as a whole.
pub record IsFileLine (line : Bytes) : Type 0 where
  pub short : length line ≤ 2046
  pub chars : All IsLineChar line

-- The first byte of a line that is no white space.
abbrev pub first_ink : Bytes → Option ℕ
first_ink [] = none
first_ink (c ∷ line) = if is_space c then first_ink line else some c

-- A line that is neither blank nor a comment: it has a byte that is no white space, and the first of
-- these is no `#`.
abbrev pub names_file : Bytes → Bool
names_file line = elim (first_ink line) [ none ↦ false | some c ↦ not (c == 35) ]

abbrev pub operable : List Bytes → ℕ
operable [] = 0
operable (line ∷ lines) = (if names_file line then 1 else 0) + operable lines

skip_ws-space : (c : ℕ) (s : Bytes) → is_space c ≡ true → skip_ws (c ∷ s) ≡ skip_ws s
unfolding skip_ws
skip_ws-space c s h = ground (arith, h)

skip_ws-ink : (c : ℕ) (s : Bytes) → is_space c ≡ false → skip_ws (c ∷ s) ≡ c ∷ s
unfolding skip_ws
skip_ws-ink c s h = ground (arith, h)

is_skippable_line-cong :
    (s t : Bytes) → skip_ws s ≡ skip_ws t → is_skippable_line s ≡ is_skippable_line t
unfolding is_skippable_line
is_skippable_line-cong s t h =
    ap
      (λ line.
        if length line == 0 || (length line == 1 && at line 0 == 10)
        then true
        else if at line 0 == 35
        then true
        else false)
      h

newline_is_blank : is_skippable_line (10 ∷ []) ≡ true
unfolding is_skippable_line skip_ws is_space
newline_is_blank = refl

is_skippable_line-ink :
    (c : ℕ) (line : Bytes)
    → is_space c ≡ false
    → is_skippable_line (c ∷ line ++ 10 ∷ []) ≡ (c == 35)
unfolding is_skippable_line
is_skippable_line-ink c line h =
    rw (skip_ws-ink c (line ++ 10 ∷ []) h) (ground (arith, length-append line (10 ∷ [])))

names_file-space :
    (c : ℕ) (line : Bytes) → is_space c ≡ true → names_file (c ∷ line) ≡ names_file line
names_file-space c line h =
    ap (λ b. elim (if b then first_ink line else some c) [ none ↦ false | some d ↦ not (d == 35) ])
      h

names_file-ink : (c : ℕ) (line : Bytes) → is_space c ≡ false → names_file (c ∷ line) ≡ not (c == 35)
names_file-ink c line h =
    ap (λ b. elim (if b then first_ink line else some c) [ none ↦ false | some d ↦ not (d == 35) ])
      h

not-not : (b : Bool) → not (not b) ≡ b
not-not true = refl
not-not false = refl

is_skippable_line-names_file :
    (line : Bytes) → is_skippable_line (line ++ 10 ∷ []) ≡ not (names_file line)
is_skippable_line-names_file [] = newline_is_blank
is_skippable_line-names_file (c ∷ line) = elim (Bool-cases (is_space c)) [
  | inl white ↦
      is_skippable_line-cong (c ∷ line ++ 10 ∷ []) (line ++ 10 ∷ [])
        (skip_ws-space c (line ++ 10 ∷ []) white)
      ∙ is_skippable_line-names_file line
      ∙ sym (ap not (names_file-space c line white))
  | inr ink ↦
      is_skippable_line-ink c line ink
      ∙ sym (not-not (c == 35))
      ∙ sym (ap not (names_file-ink c line ink))
]

counted :
    (skipped named : Bool) (count : ℕ)
    → skipped ≡ not named
    → (if skipped then count else count + 1) ≡ count + (if named then 1 else 0)
counted skipped named count h = ground (arith, h)

count_lines_round :
    (rounds : ℕ) (line t : Bytes) (count : ℕ)
    → IsFileLine line
    → count_lines (suc rounds) (line ++ 10 ∷ t) count
      ≡ count_lines rounds t (if is_skippable_line (line ++ 10 ∷ []) then count else count + 1)
unfolding count_lines
count_lines_round rounds line t count l =
    rw (fgets-line 2047 line t l.chars (omega (arith, l.short)))
      (rw (newline-length line) (rw (up_to_nul-line line l.chars) refl))

count_lines_step :
    (rounds : ℕ) (line t : Bytes) (count : ℕ)
    → IsFileLine line
    → count_lines (suc rounds) (line ++ 10 ∷ t) count
      ≡ count_lines rounds t (count + (if names_file line then 1 else 0))
count_lines_step rounds line t count l =
    count_lines_round rounds line t count l
    ∙ ap (count_lines rounds t) (
        counted (is_skippable_line (line ++ 10 ∷ [])) (names_file line) count
          (is_skippable_line-names_file line))

count_lines-operable :
    (rounds : ℕ) (lines : List Bytes) (count : ℕ)
    → All IsFileLine lines
    → length (render lines) < rounds
    → count_lines rounds (render lines) count ≡ ok (count + operable lines)
unfolding count_lines fgets
count_lines-operable zero lines count l h = absurd (omega arith)
count_lines-operable (suc rounds) [] count l h = ap ok (omega arith)
count_lines-operable (suc rounds) (line ∷ lines) count l h =
    count_lines_step rounds line (render lines) count l.0
    ∙ count_lines-operable rounds lines _ l.1
        (omega (arith, h, length-append line (10 ∷ render lines)))
    ∙ ap ok (omega arith)

-- A list of files, each name or comment in a line that is not longer than 2046 bytes, is read to
-- its end, and the lines are counted that are neither blank nor comments.
pub count_operable_file_lines-render :
    (lines : List Bytes)
    → All IsFileLine lines
    → count_operable_file_lines (some (render lines)) ≡ ok (operable lines)
unfolding count_operable_file_lines
count_operable_file_lines-render lines l =
    count_lines-operable (suc (length (render lines))) lines 0 l (omega arith) ∙ ap ok (omega arith)
