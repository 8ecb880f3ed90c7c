-- ===== src/Tokenizer/Strip.antt =====
-- `strip_ascii_chrs` takes off exactly the bytes to ignore at both ends.
use libswish.Prelude.{
  ℕ, zero, suc, ◌≡◌, ◌≢◌, refl, sym, ◌∙◌, ap, inl, inr, true, false, [], ◌∷◌, ◌++◌, arith,
  append-nil, Bool-cases, length, take, All, Bytes, append_assoc, All-append, length-append,
}
use libswish.Str.{at}
use libswish.Str.Whitespace.{take-at, length-take_lt}
use libswish.Tokenizer.{
  ascii_end_table, ascii_start_table, strip_end, strip_start, is_ignore_start_ascii,
  is_ignore_end_ascii, strip_ascii_chrs,
}

abbrev pub IsIgnored : ℕ → Type 0
IsIgnored c = ascii_end_table c ≡ false

-- `word` is empty, or begins and ends in bytes that are not ignored.
pub record IsCore (word : Bytes) : Type 0 where
  pub first : (c : ℕ) (s : Bytes) → word ≡ c ∷ s → ascii_start_table c ≡ true
  pub last : (s : Bytes) (c : ℕ) → word ≡ s ++ c ∷ [] → ascii_end_table c ≡ true

-- `t` is `word` without the bytes to ignore at its ends.
pub record IsStripOf (word t : Bytes) : Type 0 where
  pub front : Bytes
  pub back : Bytes
  pub splits : word ≡ front ++ (t ++ back)
  pub front_ignored : All IsIgnored front
  pub back_ignored : All IsIgnored back
  pub core : IsCore t

nil-concat : (s : Bytes) (c : ℕ) → [] ≢ s ++ c ∷ []
nil-concat s c e = omega (arith, ap length e, length-append s (c ∷ []))

start-end_table : (c : ℕ) → ascii_start_table c ≡ ascii_end_table c
unfolding ascii_start_table ascii_end_table is_ignore_start_ascii is_ignore_end_ascii
start-end_table c = refl

nil-IsCore : IsCore []
nil-IsCore = record { first = λ c s e. absurd cc; last = λ s c e. absurd (nil-concat s c e) }

strip_start-IsCore :
    (word : Bytes)
    → ((s : Bytes) (c : ℕ) → word ≡ s ++ c ∷ [] → ascii_end_table c ≡ true)
    → (front : Bytes) × (word ≡ front ++ strip_start word)
      × All IsIgnored front
      × IsCore (strip_start word)
unfolding strip_start
strip_start-IsCore [] last = ([], refl, tt, nil-IsCore)
strip_start-IsCore (c ∷ word) last = elim (Bool-cases (ascii_start_table c)) [
  | inl y ↦ rw y ([], refl, tt, record { first = λ d s e. ground (arith, e, y); last = last })
  | inr n ↦
      let (front, e, h, core) = strip_start-IsCore word (λ s d q. last (c ∷ s) d (ap (◌∷◌ c) q)) in
      rw n (c ∷ front, ap (◌∷◌ c) e, (sym (start-end_table c) ∙ n, h), core)
]

record IsEndStripOf (word t : Bytes) : Type 0 where
  back : Bytes
  splits : word ≡ t ++ back
  ignored : All IsIgnored back
  last : (s : Bytes) (c : ℕ) → t ≡ s ++ c ∷ [] → ascii_end_table c ≡ true

cons_tail : {a b : ℕ} {s t : Bytes} → a ∷ s ≡ b ∷ t → s ≡ t
cons_tail e = ground (arith, e)

last_unique : (s u : Bytes) (c d : ℕ) → s ++ c ∷ [] ≡ u ++ d ∷ [] → c ≡ d
last_unique [] [] c d e = cc
last_unique (a ∷ s) [] c d e = absurd (nil-concat s c (sym (cons_tail e)))
last_unique [] (b ∷ u) c d e = absurd (nil-concat u d (cons_tail e))
last_unique (a ∷ s) (b ∷ u) c d e = last_unique s u c d (cons_tail e)

strip_end-IsEndStripOf :
    (i : ℕ) (word : Bytes) → length word ≡ i → IsEndStripOf word (strip_end i word)
unfolding strip_end
strip_end-IsEndStripOf zero [] h = record {
  back = [];
  splits = refl;
  ignored = tt;
  last = λ s c e. absurd (nil-concat s c e);
}
strip_end-IsEndStripOf zero (c ∷ s) h = absurd (omega arith)
strip_end-IsEndStripOf (suc i) word h = elim (Bool-cases (ascii_end_table (at word i))) [
  | inl y ↦
      rw (y, strip_end)
        (record {
          back = [];
          splits = rw append-nil;
          ignored = tt;
          last = λ s c e.
              ground
                (arith, y, last_unique (take i word) s (at word i) c (sym (take-at word i h) ∙ e));
        })
  | inr n ↦
      let r = strip_end-IsEndStripOf i (take i word) (length-take_lt word i h) in
      rw (n, strip_end)
        (record {
          back = r.back ++ at word i ∷ [];
          splits =
              take-at word i h
              ∙ ap (λ t. t ++ at word i ∷ []) r.splits
              ∙ append_assoc (strip_end i (take i word)) r.back (at word i ∷ []);
          ignored = All-append IsIgnored r.back (at word i ∷ []) r.ignored (n, tt);
          last = r.last;
        })
]

-- The result is the word without the bytes to ignore at both ends, and only those: every byte cut
-- off is to be ignored, and the result is empty or begins and ends in bytes that are kept.
pub strip_ascii_chrs-IsStripOf : (word : Bytes) → IsStripOf word (strip_ascii_chrs word)
unfolding strip_ascii_chrs
strip_ascii_chrs-IsStripOf word =
    let e = strip_end-IsEndStripOf (length word) word refl in
    let (front, splits, ignored, core) = strip_start-IsCore (strip_end (length word) word) e.last in
    record {
      front = front;
      back = e.back;
      splits = e.splits ∙ ap (λ t. t ++ e.back) splits ∙ append_assoc front _ e.back;
      front_ignored = ignored;
      back_ignored = e.ignored;
      core = core;
    }
