-- ===== src/Head/Lines.antt =====
-- `buf_to_head` splits a buffer in its header lines and its body.
use libswish.Head.{Head, max_headers, max_str_len, head_lines, buf_to_head}
use libswish.Prelude.{
  ℕ, ◌+◌, ◌<◌, ◌≤◌, ◌≡◌, ◌≢◌, refl, sym, ◌∙◌, ap, ap₂, ◌||◌, List, [], ◌∷◌, ◌++◌, append_assoc,
  append-nil, true, Bytes, Run, ok, if◌then◌else◌, ◌==◌, length, drop, drop-append, length-append,
  All, arith,
}
use libswish.Str.{at}

-- A byte of a header line.
abbrev pub IsLineChar : ℕ → Type 0
IsLineChar c = (c ≢ 10) × (c ≢ 0)

pub record IsHeader (line : Bytes) : Type 0 where
  pub some_bytes : 0 < length line
  pub short : length line ≤ max_str_len
  pub chars : All IsLineChar line

-- The lines, each with its newline.
abbrev pub render : List Bytes → Bytes
render [] = []
render (l ∷ ls) = l ++ (10 ∷ render ls)

after_line : List Bytes → ℕ → Bytes → Run Head
after_line ls k buf =
    if at buf 0 == 10 || at buf 0 == 0
    then ok (record { lines = ls; body_start = k + 1 })
    else head_lines ls [] k buf

head_lines_last :
    (ls : List Bytes) (acc : Bytes) (c k : ℕ) (buf : Bytes)
    → length ls < max_headers
    → length acc + 1 ≤ max_str_len
    → IsLineChar c
    → head_lines ls acc k (c ∷ 10 ∷ buf) ≡ after_line (ls ++ (acc ++ c ∷ []) ∷ []) (k + 2) buf
unfolding head_lines after_line
head_lines_last ls acc c k buf few short ch = ground (arith, ch.0)

head_lines_more :
    (ls : List Bytes) (acc : Bytes) (c d k : ℕ) (buf : Bytes)
    → length ls < max_headers
    → length acc ≤ max_str_len
    → IsLineChar c
    → IsLineChar d
    → head_lines ls acc k (c ∷ d ∷ buf) ≡ head_lines ls (acc ++ c ∷ []) (k + 1) (d ∷ buf)
unfolding head_lines
head_lines_more ls acc c d k buf few short ch dh = ground (arith, ch.0, dh.0)

head_lines_line :
    (l : Bytes) (ls : List Bytes) (acc : Bytes) (k : ℕ) (buf : Bytes)
    → 0 < length l
    → All IsLineChar l
    → length ls < max_headers
    → length acc + length l ≤ max_str_len
    → head_lines ls acc k (l ++ 10 ∷ buf)
      ≡ after_line (ls ++ (acc ++ l) ∷ []) (k + length l + 1) buf
head_lines_line [] ls acc k buf any h few short = absurd (omega arith)
head_lines_line (c ∷ []) ls acc k buf any h few short =
    head_lines_last ls acc c k buf few short h.0
    ∙ ap (λ n. after_line (ls ++ (acc ++ c ∷ []) ∷ []) n buf) (omega arith)
head_lines_line (c ∷ d ∷ l) ls acc k buf any h few short =
    head_lines_more ls acc c d k (l ++ 10 ∷ buf) few (omega arith) h.0 h.1.0
    ∙ head_lines_line (d ∷ l) ls (acc ++ c ∷ []) (k + 1) buf (omega arith) h.1 few
        (omega (arith, length-append acc (c ∷ [])))
    ∙ ap₂ (λ s n. after_line (ls ++ s ∷ []) n buf) (append_assoc acc (c ∷ []) (d ∷ l)) (omega arith)

-- What stands behind the last line: a newline or the end.
abbrev pub ClosesHead : Bytes → Type 0
ClosesHead t = (at t 0 == 10 || at t 0 == 0) ≡ true

after_line_blank :
    (ls : List Bytes) (k : ℕ) (t : Bytes)
    → ClosesHead t
    → after_line ls k t ≡ ok (record { lines = ls; body_start = k + 1 })
unfolding after_line
after_line_blank ls k t h = rw h refl

after_line_more :
    (ls : List Bytes) (k : ℕ) (l buf : Bytes)
    → IsHeader l
    → after_line ls k (l ++ buf) ≡ head_lines ls [] k (l ++ buf)
unfolding after_line
after_line_more ls k [] buf h = absurd (omega (arith, h.some_bytes))
after_line_more ls k (c ∷ l) buf h = ground (arith, h.chars.0.0, h.chars.0.1)

head_lines-render :
    (l : Bytes) (rest ls : List Bytes) (k : ℕ) (t : Bytes)
    → ClosesHead t
    → All IsHeader (l ∷ rest)
    → length ls + length (l ∷ rest) ≤ max_headers
    → head_lines ls [] k (render (l ∷ rest) ++ t)
      ≡ ok (record { lines = ls ++ l ∷ rest; body_start = k + length (render (l ∷ rest)) + 1 })
head_lines-render l [] ls k t c h few =
    ap (head_lines ls [] k) (append_assoc l (10 ∷ []) t)
    ∙ head_lines_line l ls [] k t h.0.some_bytes h.0.chars (omega arith) (omega (arith, h.0.short))
    ∙ after_line_blank (ls ++ l ∷ []) (k + length l + 1) t c
    ∙ ap (λ n. ok (record { lines = ls ++ l ∷ []; body_start = n }))
        (omega (arith, length-append l (10 ∷ [])))
head_lines-render l (m ∷ rest) ls k t c h few =
    ap (head_lines ls [] k) (append_assoc l (10 ∷ render (m ∷ rest)) t)
    ∙ head_lines_line l ls [] k (render (m ∷ rest) ++ t) h.0.some_bytes h.0.chars (omega arith)
        (omega (arith, h.0.short))
    ∙ ap (after_line (ls ++ l ∷ []) (k + length l + 1)) (append_assoc m (10 ∷ render rest) t)
    ∙ after_line_more (ls ++ l ∷ []) (k + length l + 1) m (10 ∷ render rest ++ t) h.1.0
    ∙ ap (head_lines (ls ++ l ∷ []) [] (k + length l + 1))
        (sym (append_assoc m (10 ∷ render rest) t))
    ∙ head_lines-render m rest (ls ++ l ∷ []) (k + length l + 1) t c h.1
        (omega (arith, length-append ls (l ∷ [])))
    ∙ ap₂ (λ s n. ok (record { lines = s; body_start = n })) (append_assoc ls (l ∷ []) (m ∷ rest))
        (omega (arith, length-append l (10 ∷ render (m ∷ rest))))

-- One to six header lines, none of them empty or longer than 2048 bytes, then an empty line and a
-- body: the buffer is split in exactly these lines and this body, whatever bytes the body has, and
-- nothing is read or written out of bounds.
pub buf_to_head-render :
    (l : Bytes) (rest : List Bytes) (body : Bytes)
    → All IsHeader (l ∷ rest)
    → length (l ∷ rest) ≤ max_headers
    → let start = length (render (l ∷ rest)) + 1 in
      (buf_to_head (render (l ∷ rest) ++ 10 ∷ body)
        ≡ ok (record { lines = l ∷ rest; body_start = start }))
      × (drop start (render (l ∷ rest) ++ 10 ∷ body) ≡ body)
unfolding buf_to_head
buf_to_head-render l rest body h few = (
  head_lines-render l rest [] 0 (10 ∷ body) refl h (omega (arith, few))
      ∙ ap (λ n. ok (record { lines = l ∷ rest; body_start = n })) (omega arith),
  rw (← length-append (render (l ∷ rest)) (10 ∷ [])) (
      rw (← append_assoc (render (l ∷ rest)) (10 ∷ []) body)
        (drop-append (render (l ∷ rest) ++ 10 ∷ []) body)),
)

-- The same lines alone, which is what is kept of a stream.
pub buf_to_head-alone :
    (l : Bytes) (rest : List Bytes)
    → All IsHeader (l ∷ rest)
    → length (l ∷ rest) ≤ max_headers
    → buf_to_head (render (l ∷ rest))
      ≡ ok (record { lines = l ∷ rest; body_start = length (render (l ∷ rest)) + 1 })
unfolding buf_to_head
buf_to_head-alone l rest h few =
    ap (head_lines [] [] 0) (sym (append-nil (render (l ∷ rest))))
    ∙ head_lines-render l rest [] 0 [] refl h (omega (arith, few))
    ∙ ap (λ n. ok (record { lines = l ∷ rest; body_start = n })) (omega arith)
