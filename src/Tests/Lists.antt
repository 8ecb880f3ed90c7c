-- ===== src/Tests/Lists.antt =====
-- Lists of strings: src/libswish3/string.c.
use libswish.Ctype.{is_space}
use libswish.Prelude.{
  ℕ, zero, suc, ◌≡◌, refl, List, [], ◌∷◌, ◌++◌, Bytes, text, All, croak, out_of_bounds, length,
  arith,
}
use libswish.Str.{skip_ws}
use libswish.StringList.{StringList, add_string, merge, build_line}
use libswish.StringList.Growth.{add_string-merge}
use libswish.StringList.Overflow.{build_line-overrun}
use libswish.StringList.RoundTrip.{IsPlain}

abbrev word : Bytes
word = text "w"

abbrev two : StringList
two = record { max = 2; slots = 2; word = word ∷ word ∷ [] }

add_string-merge_example :
    ((merge two two).word ≡ two.word ++ two.word)
    × (add_string (merge two two) word ≡ croak out_of_bounds)
add_string-merge_example = add_string-merge two two word (omega arith)

abbrev one : StringList
one = record { max = 2; slots = 2; word = word ∷ [] }

abbrev line : Bytes
line = text "red \"dark blue\" \\ "

abbrev words : List Bytes
words = text "red" ∷ text "blue" ∷ []

-- `n` letters.
abbrev letters : ℕ → Bytes
letters zero = []
letters (suc n) = 97 ∷ letters n

letters-IsPlain : (n : ℕ) → All IsPlain (letters n)
unfolding is_space
letters-IsPlain zero = tt
letters-IsPlain (suc n) = ((refl, λ e. absurd (omega (arith, e))), letters-IsPlain n)

length-letters : (n : ℕ) → length (letters n) ≡ n
length-letters zero = refl
length-letters (suc n) = omega (arith, length-letters n)

build_line-overrun_example : build_line (letters 257 ++ text " w") ≡ croak out_of_bounds
build_line-overrun_example =
    build_line-overrun (letters 257) (text " w") (letters-IsPlain 257) (ground arith)
      (omega (arith, length-letters 257))

empty_then_more : skip_ws (text " '' more") ≡ 39 ∷ 39 ∷ text " more"
unfolding skip_ws is_space
empty_then_more = refl
