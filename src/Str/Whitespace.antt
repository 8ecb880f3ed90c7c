-- ===== src/Str/Whitespace.antt =====
-- White space at both ends of a string: string.c's `swish_str_skip_ws`, `swish_str_trim_ws` and
-- `swish_str_all_ws`.
use libswish.Ctype.{is_space}
use libswish.Prelude.{
  ℕ, zero, suc, ◌≡◌, refl, ◌∙◌, ap, ◌↔◌, inl, inr, true, false, [], ◌∷◌, ◌++◌, arith, append-nil,
  Bool-cases, length, take, All, Bytes, append_assoc, All-append,
}
use libswish.Str.{at, skip_ws, trim_from, trim_ws, all_ws}

abbrev pub IsWhite : ℕ → Type 0
IsWhite c = is_space c ≡ true

-- The string is empty or ends in a byte that is no white space.
pub data EndsInInk : Bytes → Type 0 where
  blank : EndsInInk []
  ink : (s : Bytes) (c : ℕ) → is_space c ≡ false → EndsInInk (s ++ c ∷ [])

-- `s` is `t` with white space behind it, and `t` has none at its end.
pub record IsTrimOf (s t : Bytes) : Type 0 where
  pub cut : Bytes
  pub splits : s ≡ t ++ cut
  pub cut_white : All IsWhite cut
  pub ends : EndsInInk t

pub take-at : (s : Bytes) (i : ℕ) → length s ≡ suc i → s ≡ take i s ++ at s i ∷ []
take-at [] i h = absurd (omega arith)
take-at (c ∷ []) zero h = refl
take-at (c ∷ d ∷ s) zero h = absurd (omega arith)
take-at (c ∷ s) (suc i) h = ap (◌∷◌ c) (take-at s i (omega arith))

pub length-take_lt : (s : Bytes) (i : ℕ) → length s ≡ suc i → length (take i s) ≡ i
length-take_lt [] i h = absurd (omega arith)
length-take_lt (c ∷ s) zero h = refl
length-take_lt (c ∷ s) (suc i) h = ap suc (length-take_lt s i (omega arith))

IsTrimOf-self : (s : Bytes) → EndsInInk s → IsTrimOf s s
IsTrimOf-self s e = record { cut = []; splits = rw append-nil; cut_white = tt; ends = e }

IsTrimOf-concat :
    (s t r : Bytes) (c : ℕ) → r ≡ s ++ c ∷ [] → IsWhite c → IsTrimOf s t → IsTrimOf r t
IsTrimOf-concat s t r c e w h = record {
  cut = h.cut ++ c ∷ [];
  splits = e ∙ rw h.splits (append_assoc t h.cut (c ∷ []));
  cut_white = All-append IsWhite h.cut (c ∷ []) h.cut_white (w, tt);
  ends = h.ends;
}

trim_from-IsTrimOf : (i : ℕ) (s : Bytes) → length s ≡ i → IsTrimOf s (trim_from i s)
unfolding trim_from
trim_from-IsTrimOf zero [] h = IsTrimOf-self [] blank
trim_from-IsTrimOf zero (c ∷ s) h = absurd (omega arith)
trim_from-IsTrimOf (suc i) s h = elim (Bool-cases (is_space (at s i))) [
  | inl w ↦
      rw (w, trim_from)
        (IsTrimOf-concat (take i s) _ s (at s i) (take-at s i h) w
          (trim_from-IsTrimOf i (take i s) (length-take_lt s i h)))
  | inr b ↦
      rw (b, trim_from) (IsTrimOf-self s (rw (← take-at s i h) at (ink (take i s) (at s i) b)))
]

-- A string that is trimmed is the string without the white space at its end: what is cut off is
-- white space, and what is left is empty or ends in another byte.
pub trim_ws-IsTrimOf : (s : Bytes) → IsTrimOf s (trim_ws s)
unfolding trim_ws
trim_ws-IsTrimOf s = trim_from-IsTrimOf (length s) s refl

-- A string is all white space exactly if skipping its white space leaves nothing.
pub all_ws-iff_skip_ws : (s : Bytes) → (all_ws s ≡ true) ↔ (skip_ws s ≡ [])
unfolding all_ws skip_ws
all_ws-iff_skip_ws [] = ground arith
all_ws-iff_skip_ws (c ∷ s) = ground (arith, all_ws-iff_skip_ws s)
