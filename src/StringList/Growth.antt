-- ===== src/StringList/Growth.antt =====
-- The block grows before it is full: `swish_stringlist_add_string` and `swish_stringlist_merge`.
use libswish.Prelude.{
  ◌+◌, ◌≤◌, ◌<◌, ◌≡◌, refl, ◌∷◌, [], ◌++◌, arith, length, length-append, Bytes, croak,
  out_of_bounds, Returns, ◌*◌, List, ◌==◌, Bool-cases, inl, inr,
}
use libswish.StringList.{StringList, count, init, add_string, merge, copy, terminate}

-- What the functions that grow a list keep.
pub record IsValid (sl : StringList) : Type 0 where
  pub some_room : 1 ≤ sl.max
  pub within : count sl ≤ sl.max
  pub allocated : sl.slots ≡ sl.max

pub init-IsValid : IsValid init
unfolding init
init-IsValid = omega arith

pub record Appends (sl : StringList) (str : Bytes) (r : StringList) : Type 0 where
  pub valid : IsValid r
  pub words : r.word ≡ sl.word ++ str ∷ []

length-concat : (xs : List Bytes) (x : Bytes) → length (xs ++ x ∷ []) ≡ length xs + 1
length-concat xs x = omega (arith, length-append xs (x ∷ []))

-- A valid list takes any string, with no write out of bounds, and is valid again.
pub add_string-Appends :
    (sl : StringList) (str : Bytes) → IsValid sl → Returns (add_string sl str) (Appends sl str)
unfolding add_string
add_string-Appends sl str v = elim (Bool-cases (count sl == sl.max)) [
  | inl full ↦ (
    record { max = sl.max * 2; slots = sl.max * 2; word = sl.word ++ str ∷ [] },
    ground arith,
    record { valid = ground (arith, length-concat sl.word str); words = refl },
  )
  | inr room ↦ (
    record sl { word = sl.word ++ str ∷ [] },
    ground arith,
    record { valid = ground (arith, length-concat sl.word str); words = refl },
  )
]

-- A valid list gets a slot for the closing NULL, and keeps its strings and stays valid.
pub terminate-room :
    (sl : StringList)
    → IsValid sl
    → Returns (terminate sl) (λ r. IsValid r × (r.word ≡ sl.word) × (count r < r.slots))
unfolding terminate
terminate-room sl v = elim (Bool-cases (count sl == sl.max)) [
  | inl full ↦ (
    record { max = sl.max + 1; slots = sl.max + 1; word = sl.word },
    ground arith,
    (omega arith, refl, ground arith),
  )
  | inr room ↦ (sl, ground arith, (v, refl, ground arith))
]

-- A merge keeps the strings of both lists in order, but records no new capacity: once they are more
-- than the old `max`, the next string that is added is written behind the block.
pub add_string-merge :
    (sl1 sl2 : StringList) (str : Bytes)
    → sl2.max < count sl1 + count sl2
    → ((merge sl1 sl2).word ≡ sl2.word ++ sl1.word)
      × (add_string (merge sl1 sl2) str ≡ croak out_of_bounds)
unfolding merge add_string
add_string-merge sl1 sl2 str h = (refl, ground (arith, length-append sl2.word sl1.word))

-- A copy of a list of at most one string has these strings, but says that it has two slots: the next
-- string is written behind the block.
pub add_string-copy :
    (sl : StringList) (str : Bytes)
    → count sl ≤ 1
    → ((copy sl).word ≡ sl.word) × (add_string (copy sl) str ≡ croak out_of_bounds)
unfolding copy add_string
add_string-copy sl str h = (refl, ground arith)
