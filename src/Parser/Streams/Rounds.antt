-- ===== src/Parser/Streams/Rounds.antt =====
-- The rounds of the loop of `swish_parse_fh`.
use libswish.Head.{max_str_len}
use libswish.LibXml.{LibXml}
use libswish.Parser.Documents.{Outside}
use libswish.Parser.Streams.{
  fgets, Feed, announced, parse_read, read_document, read_line, read_lines,
}
use libswish.Parser.Files.{size_of}
use libswish.Io.{slurp_fh}
use libswish.Parser.{ParserData}
use libswish.Numbers.{ℤ}
use libswish.Prelude.{
  ℕ, zero, suc, ◌+◌, ◌-◌, ◌≤◌, ◌<◌, ◌≡◌, refl, Bool, true, false, [], ◌∷◌, ◌++◌, Bytes, Run, ok,
  croak, ◌>>=◌, if◌then◌else◌, ◌==◌, length, take, drop, arith, Partial, >>=-any, Croak,
  unparsed_headers, Bool-cases, inl, inr, subst, sym,
}
use libswish.TokenList.{up_to_nul}

fgets-shortens :
    (n : ℕ) (stream : Bytes) → length (fgets n stream).0 + length (fgets n stream).1 ≡ length stream
unfolding fgets
fgets-shortens zero stream = omega arith
fgets-shortens (suc n) [] = omega arith
fgets-shortens (suc n) (c ∷ stream) = ground (arith, fgets-shortens n stream)

drop-shortens : (n : ℕ) (s : Bytes) → length (drop n s) ≤ length s
drop-shortens zero s = omega arith
drop-shortens (suc n) [] = omega arith
drop-shortens (suc n) (c ∷ s) = omega (arith, drop-shortens n s)

fewer_left :
    (got rest all left : ℕ) → (got == 0) ≡ false → got + rest ≡ all → left ≤ rest → left < all
fewer_left got rest all left e sum le = ground arith

not_zero : (n : ℕ) → 0 < n → (n == 0) ≡ false
not_zero n h = ground (arith, h)

if-false : {A : Type 0} (c : Bool) (a b : A) → c ≡ false → (if c then a else b) ≡ b
if-false true a b h = absurd cc
if-false false a b h = refl

-- Two runs that go on in the same way from every value that the first part can end in.
pub >>=-same :
    {A B : Type 0} (P : A → Type 0) (m : Run A) (f g : A → Run B)
    → Partial P m
    → ((a : A) → P a → f a ≡ g a)
    → (m >>= f) ≡ (m >>= g)
>>=-same P (ok a) f g h k = k a h
>>=-same P (croak e) f g h k = refl

module _ (x : LibXml) (o : Outside x) where
  -- The stream has not grown.
  abbrev Shorter : Feed x o → Feed x o → Type 0
  Shorter feed feed' = length feed'.stream ≤ length feed.stream

  read_document-Shorter :
      (fuel : ℕ) (feed : Feed x o) → Partial (Shorter feed) (read_document x o fuel feed)
  unfolding read_document
  read_document-Shorter fuel feed =
      let parse : ParserData x → ℕ → Bytes → Run (ℤ × ParserData x) =
        λ pd size read_buffer. parse_read x o fuel read_buffer size pd in
      let end : ℕ → ℤ × ParserData x → Run (Feed x o) = λ size r. ok (record {
        stream = drop size feed.stream;
        head_buf = [];
        nheaders = 0;
        config = (r.1).config;
        done = feed.done ++ r ∷ [];
      }) in
      let read : ParserData x → ℕ → Run (Feed x o) = λ pd size.
        slurp_fh (take size feed.stream) size false >>= λ read_buffer.
        parse pd size read_buffer >>= end size in
      >>=-any (Shorter feed) (announced x o feed.head_buf feed.config)
        (λ pd. size_of x o pd.docinfo.size >>= read pd)
        λ pd. >>=-any (Shorter feed) (size_of x o pd.docinfo.size) (read pd) λ size.
          >>=-any (Shorter feed) (slurp_fh (take size feed.stream) size false)
            (λ read_buffer. parse pd size read_buffer >>= end size)
            λ read_buffer.
              >>=-any (Shorter feed) (parse pd size read_buffer) (end size)
                λ r. drop-shortens size feed.stream

  read_line-Shorter :
      (fuel : ℕ) (ln : Bytes) (feed : Feed x o)
      → Partial (Shorter feed) (read_line x o fuel ln feed)
  unfolding read_line
  read_line-Shorter fuel ln feed = ground (arith, read_document-Shorter fuel feed)

  -- The stream without the line in front of it, as the loop hands it on.
  abbrev behind : Feed x o → Feed x o
  behind feed = record feed { stream = (fgets (max_str_len - 1) feed.stream).1 }

  abbrev line_of : Feed x o → Bytes
  line_of feed = (fgets (max_str_len - 1) feed.stream).0

  -- The runs of the loop as the source has it, without a bound on its rounds: it stops where
  -- nothing is left, which ends the program if header lines wait for their document, or in the line
  -- that ends the program, and goes on behind every other line.
  pub data Reads (fuel : ℕ) : Feed x o → Run (Feed x o) → Type 0 where
    at_end :
        (feed : Feed x o)
        → length (line_of feed) ≡ 0
        → length feed.head_buf ≡ 0
        → Reads fuel feed (ok feed)
    in_headers :
        (feed : Feed x o)
        → length (line_of feed) ≡ 0
        → 0 < length feed.head_buf
        → Reads fuel feed (croak unparsed_headers)
    in_line :
        (feed : Feed x o) (e : Croak)
        → 0 < length (line_of feed)
        → read_line x o fuel (up_to_nul (line_of feed)) (behind feed) ≡ croak e
        → Reads fuel feed (croak e)
    next_line :
        (feed feed' : Feed x o) (r : Run (Feed x o))
        → 0 < length (line_of feed)
        → read_line x o fuel (up_to_nul (line_of feed)) (behind feed) ≡ ok feed'
        → Reads fuel feed' r
        → Reads fuel feed r

  Reads-at_end :
      (fuel rounds : ℕ) (feed : Feed x o)
      → length (line_of feed) ≡ 0
      → Reads fuel feed (read_lines x o fuel (suc rounds) feed)
  unfolding read_lines
  Reads-at_end fuel rounds feed e = elim (Bool-cases (length feed.head_buf == 0)) [
    | inl none_wait ↦
        subst (Reads fuel feed) (ground (arith, e, none_wait))
          (Reads.at_end feed e (ground (arith, none_wait)))
    | inr some_wait ↦
        subst (Reads fuel feed) (ground (arith, e, some_wait))
          (Reads.in_headers feed e (ground (arith, some_wait)))
  ]

  read_lines_step :
      (fuel rounds : ℕ) (feed : Feed x o)
      → 0 < length (line_of feed)
      → read_lines x o fuel (suc rounds) feed ≡ (
          read_line x o fuel (up_to_nul (line_of feed)) (behind feed)
          >>= read_lines x o fuel rounds)
  unfolding read_lines
  read_lines_step fuel rounds feed h =
      if-false (length (line_of feed) == 0) _ _ (not_zero (length (line_of feed)) h)

  -- Whatever a line does, the loop goes on or ends as it does.
  Reads-line :
      (fuel rounds : ℕ) (feed : Feed x o) (m : Run (Feed x o))
      → 0 < length (line_of feed)
      → read_line x o fuel (up_to_nul (line_of feed)) (behind feed) ≡ m
      → Partial (λ feed'. Reads fuel feed' (read_lines x o fuel rounds feed')) m
      → Reads fuel feed (m >>= read_lines x o fuel rounds)
  Reads-line fuel rounds feed (ok feed') h e reads = Reads.next_line feed feed' _ h e reads
  Reads-line fuel rounds feed (croak e') h e reads = Reads.in_line feed e' h e

  Shorter-Reads :
      (fuel rounds : ℕ) (feed : Feed x o) (m : Run (Feed x o))
      → Partial (Shorter (behind feed)) m
      → ((feed' : Feed x o)
          → Shorter (behind feed) feed'
          → Reads fuel feed' (read_lines x o fuel rounds feed'))
      → Partial (λ feed'. Reads fuel feed' (read_lines x o fuel rounds feed')) m
  Shorter-Reads fuel rounds feed (ok feed') s k = k feed' s
  Shorter-Reads fuel rounds feed (croak e) s k = tt

  -- In more rounds than the stream has bytes, the loop does what the loop of the source does
  -- without a bound: it ends with the last line, with header lines that no document follows, or in
  -- the line that ends the program, and never because the rounds are used up.
  pub read_lines-Reads :
      (fuel rounds : ℕ) (feed : Feed x o)
      → length feed.stream < rounds
      → Reads fuel feed (read_lines x o fuel rounds feed)
  read_lines-Reads fuel zero feed h = absurd (omega arith)
  read_lines-Reads fuel (suc rounds) feed h = elim (Bool-cases (length (line_of feed) == 0)) [
    | inl nothing ↦ Reads-at_end fuel rounds feed (ground (arith, nothing))
    | inr got ↦
        let read = read_line x o fuel (up_to_nul (line_of feed)) (behind feed) in
        let some_bytes : 0 < length (line_of feed) = ground (arith, got) in
        subst (Reads fuel feed) (sym (read_lines_step fuel rounds feed some_bytes)) (
          Reads-line fuel rounds feed read some_bytes refl (
            Shorter-Reads fuel rounds feed read
              (read_line-Shorter fuel (up_to_nul (line_of feed)) (behind feed))
              λ feed' le. read_lines-Reads fuel rounds feed' (
                omega (
                  arith,
                  fewer_left (length (line_of feed)) (length (behind feed).stream)
                      (length feed.stream) (length feed'.stream) got
                      (fgets-shortens (max_str_len - 1) feed.stream) le,
                  h,
                ))))
  ]
