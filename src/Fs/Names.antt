-- ===== src/Fs/Names.antt =====
-- The extension and the path of a name.
use libswish.Fs.{has_chr, last_from, findlast, path_sep, ext_ch, ext_sep, get_file_ext, get_path}
use libswish.Prelude.{
  ℕ, zero, suc, ◌+◌, ◌-◌, ◌<◌, ◌≤◌, ◌≡◌, refl, sym, ◌∙◌, ap, ◌⊎◌, inl, inr, true, false, [], ◌∷◌,
  ◌++◌, none, some, Bytes, eq_bytes, eq_bytes_iff, ok, ◌>>=◌, length, take, drop, All, arith,
  length-append, take-append, drop-append, append_assoc, Bool-cases,
}
use libswish.Str.{at, Wide, str_tolower}

-- No byte of the string is in `set`.
abbrev pub Lacks : Bytes → Bytes → Type 0
Lacks set = All (λ c. has_chr set c ≡ false)

at-append : (u v : Bytes) (c : ℕ) → at (u ++ c ∷ v) (length u) ≡ c
at-append [] v c = refl
at-append (d ∷ u) v c = at-append u v c

at-behind :
    (set u v : Bytes) (c : ℕ) (i : ℕ)
    → Lacks set v
    → length u < i
    → i < length u + 1 + length v
    → has_chr set (at (u ++ c ∷ v) i) ≡ false
at-behind set [] v c zero h lo hi = absurd (omega arith)
at-behind set [] [] c (suc i) h lo hi = absurd (omega arith)
at-behind set [] (d ∷ v) c (suc zero) h lo hi = h.0
at-behind set [] (d ∷ v) c (suc (suc i)) h lo hi =
    at-behind set [] v d (suc i) h.1 (omega arith) (omega arith)
at-behind set (d ∷ u) v c zero h lo hi = absurd (omega arith)
at-behind set (d ∷ u) v c (suc i) h lo hi = at-behind set u v c i h (omega arith) (omega arith)

Lacks-at : (set v : Bytes) (i : ℕ) → Lacks set v → i < length v → has_chr set (at v i) ≡ false
Lacks-at set [] i h b = absurd (omega arith)
Lacks-at set (d ∷ v) zero h b = h.0
Lacks-at set (d ∷ v) (suc i) h b = Lacks-at set v i h.1 (omega arith)

last_from_here : (set s : Bytes) (i : ℕ) → has_chr set (at s i) ≡ true → last_from set s i ≡ some i
unfolding last_from
last_from_here set s zero h = rw h refl
last_from_here set s (suc i) h = rw (h, last_from) refl

last_from-found :
    (set u v : Bytes) (c : ℕ) (i : ℕ)
    → has_chr set c ≡ true
    → Lacks set v
    → length u ≤ i
    → i < length u + 1 + length v
    → last_from set (u ++ c ∷ v) i ≡ some (length u)
unfolding last_from
last_from-found set [] v c zero m h lo hi = rw m refl
last_from-found set (d ∷ u) v c zero m h lo hi = absurd (omega arith)
last_from-found set u v c (suc i) m h lo hi = elim (order (length u) (suc i) lo) [
  | inl e ↦
      last_from_here set (u ++ c ∷ v) (suc i) (rw (← e) (rw (at-append u v c) m)) ∙ ap some (sym e)
  | inr less ↦
      rw (at-behind set u v c (suc i) h less hi, last_from)
        (last_from-found set u v c i m h (omega arith) (omega arith))
]
  where
    order : (m n : ℕ) → m ≤ n → (m ≡ n) ⊎ (m < n)
    order m n h = ground arith

last_from-none : (set s : Bytes) (i : ℕ) → Lacks set s → i < length s → last_from set s i ≡ none
unfolding last_from
last_from-none set s zero h b = rw (Lacks-at set s 0 h b) refl
last_from-none set s (suc i) h b =
    rw (Lacks-at set s (suc i) h b, last_from) (last_from-none set s i h (omega arith))

pub findlast-found :
    (set u v : Bytes) (c : ℕ)
    → has_chr set c ≡ true
    → Lacks set v
    → findlast (u ++ c ∷ v) set ≡ some (length u)
unfolding findlast has_chr
findlast-found [] u v c m h = absurd cc
findlast-found (d ∷ set) u v c m h =
    ground (
      arith,
      length-append u (c ∷ v),
      last_from-found (d ∷ set) u v c (length (u ++ c ∷ v) - 1) m h,
    )

pub findlast-none : (set s : Bytes) → Lacks set s → findlast s set ≡ none
unfolding findlast
findlast-none set s h = ground (arith, last_from-none set s (length s - 1) h)

drop_suc : (u v : Bytes) (c : ℕ) → drop (length u + 1) (u ++ c ∷ v) ≡ v
drop_suc u v c =
    rw (← length-append u (c ∷ [])) (rw (← append_assoc u (c ∷ []) v) (drop-append (u ++ c ∷ []) v))

take_suc : (u v : Bytes) (c : ℕ) → take (length u + 1) (u ++ c ∷ v) ≡ u ++ c ∷ []
take_suc u v c =
    rw (← length-append u (c ∷ [])) (rw (← append_assoc u (c ∷ []) v) (take-append (u ++ c ∷ []) v))

-- The extension of a name is what stands behind its last dot, in lower case, if no slash stands
-- there. A name whose last part has no dot, or that has neither slash nor dot, has no extension.
pub get_file_ext-splits :
    (wide : Wide) (dir name : Bytes)
    → Lacks ext_sep name
    → (get_file_ext wide (dir ++ ext_ch ∷ name) ≡ (str_tolower wide name >>= λ ext. ok (some ext)))
      × (get_file_ext wide (dir ++ path_sep ∷ name) ≡ ok none)
      × (get_file_ext wide name ≡ ok none)
unfolding get_file_ext has_chr
get_file_ext-splits wide dir name h = (
  ground (
    arith,
    findlast-found ext_sep dir name ext_ch refl h,
    at-append dir name ext_ch,
    drop_suc dir name ext_ch,
  ),
  ground (arith, findlast-found ext_sep dir name path_sep refl h, at-append dir name path_sep),
  ground (arith, findlast-none ext_sep name h),
)

longer_differs : (u v : Bytes) → 0 < length u → eq_bytes (u ++ v) v ≡ false
longer_differs u v h = elim (Bool-cases (eq_bytes (u ++ v) v)) [
  | inl e ↦ absurd (omega (arith, ap length ((eq_bytes_iff (u ++ v) v).0 e), length-append u v))
  | inr e ↦ e
]

get_path-at :
    (url : Bytes) (p : ℕ)
    → findlast url (path_sep ∷ []) ≡ some p
    → at url p ≡ path_sep
    → eq_bytes url (drop p url) ≡ false
    → get_path url ≡ some (take (p + 1) url)
unfolding get_path
get_path-at url p e f g = ground (arith, e, f, g)

-- The path of a name is what stands up to and with its last slash. A name with no slash, or with
-- the only one at its start, has no path.
pub get_path-splits :
    (c : ℕ) (dir name : Bytes)
    → Lacks (path_sep ∷ []) name
    → (get_path (c ∷ dir ++ path_sep ∷ name) ≡ some (c ∷ dir ++ path_sep ∷ []))
      × (get_path (path_sep ∷ name) ≡ none)
      × (get_path name ≡ none)
unfolding get_path has_chr
get_path-splits c dir name h = (
  get_path-at (c ∷ dir ++ path_sep ∷ name) (length (c ∷ dir))
        (findlast-found (path_sep ∷ []) (c ∷ dir) name path_sep refl h)
        (at-append (c ∷ dir) name path_sep)
        (ap (eq_bytes (c ∷ dir ++ path_sep ∷ name)) (drop-append (c ∷ dir) (path_sep ∷ name))
          ∙ longer_differs (c ∷ dir) (path_sep ∷ name) (omega arith))
      ∙ ap some (take_suc (c ∷ dir) name path_sep),
  ground (
    arith,
    findlast-found (path_sep ∷ []) [] name path_sep refl h,
    eq_bytes_iff (path_sep ∷ name) (path_sep ∷ name),
  ),
  ground (arith, findlast-none (path_sep ∷ []) name h),
)
