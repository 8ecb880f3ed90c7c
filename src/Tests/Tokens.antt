-- ===== src/Tests/Tokens.antt =====
-- Tokens and the tokenizer: src/libswish3/tokenizer.c.
use libswish.Ctype.{is_space, is_cntrl, is_punct, to_lower}
use libswish.LibXml.Assoc.{assoc, assoc-IsLibXml}
use libswish.Prelude.{
  ◌+◌, ◌≡◌, refl, inl, inr, List, [], ◌∷◌, ◌++◌, some, Bytes, text, croak, Returns, out_of_bounds,
  length, drop, arith,
}
use libswish.TokenList.{TokenList, token_list_init, add_token, TokenIterator}
use libswish.TokenList.Adding.{token_list_init-IsValid, Adds, add_token-Adds}
use libswish.TokenList.Iterator.{rest_of, with_values, rest_of-drop}
use libswish.TokenList.Layout.{IsValid, views}
use libswish.Tokenizer.{
  Analyzer, ascii_word_table, ascii_end_table, ascii_start_table, strip_ascii_chrs, tokenize_ascii,
}
use libswish.Tokenizer.Overrun.{tokenize_ascii-overrun}
use libswish.Tokenizer.Pieces.{expected, end_pos}
use libswish.Tokenizer.Strip.{IsStripOf, strip_ascii_chrs-IsStripOf}
use libswish.Tokenizer.Tokens.{IsSplit, joined, tokenize_ascii-views}
use libswish.Tokenizer.Words.{bumps}

abbrev no_tokens : TokenList assoc
no_tokens = token_list_init assoc

no_tokens-IsValid : IsValid assoc no_tokens
no_tokens-IsValid = token_list_init-IsValid assoc assoc-IsLibXml

abbrev doc : Bytes
doc = text "doc"

add_token-Adds_example :
    Returns
      (add_token assoc no_tokens doc (length doc + 1) 7 doc)
      (Adds assoc assoc-IsLibXml no_tokens doc 7 doc)
add_token-Adds_example =
    add_token-Adds assoc assoc-IsLibXml no_tokens doc 7 doc no_tokens-IsValid (omega arith)
      (ground arith)

abbrev start : TokenIterator assoc
start = record { tl = no_tokens; pos = 0 }

rest_of-drop_example :
    rest_of assoc 1 start ≡ some (with_values start.tl.buf (drop 0 start.tl.tokens))
unfolding token_list_init
rest_of-drop_example = rest_of-drop assoc 1 start (omega arith) (omega arith)

strip_ascii_chrs-IsStripOf_example : IsStripOf (text "'tis") (strip_ascii_chrs (text "'tis"))
strip_ascii_chrs-IsStripOf_example = strip_ascii_chrs-IsStripOf (text "'tis")

strips : strip_ascii_chrs (text "'tis'") ≡ text "tis"
unfolding strip_ascii_chrs ascii_end_table ascii_start_table is_space is_cntrl is_punct
strips = refl

abbrev analyzer : Analyzer
analyzer = record { maxwordlen = 8; minwordlen = 1 }

-- "Don't, go" with a bumper between the two words.
abbrev pieces : List (Bytes × Bytes)
pieces = (text "Don't", 44 ∷ 3 ∷ []) ∷ (text "go", []) ∷ []

pieces-IsSplit : IsSplit analyzer pieces
unfolding ascii_word_table is_space is_cntrl is_punct to_lower
pieces-IsSplit = (
  record {
    size = omega arith;
    word = (refl, (refl, (refl, (refl, (refl, tt)))));
    room = omega arith;
    gap = ground arith;
    ends = inl (omega arith);
  },
  (
    record {
      size = omega arith;
      word = (refl, (refl, tt));
      room = omega arith;
      gap = tt;
      ends = inr (refl, omega arith);
    },
    tt,
  ),
)

tokenize_ascii-views_example :
    Returns (tokenize_ascii assoc analyzer start (32 ∷ joined pieces) 7 doc) (λ (n, ti').
      let vs = expected analyzer 7 doc (start.tl.pos + bumps (32 ∷ [])) pieces in
      IsValid assoc ti'.tl
      × (views ti'.tl.buf ti'.tl.tokens ≡ views start.tl.buf start.tl.tokens ++ vs)
      × (ti'.tl.pos ≡ end_pos analyzer 7 doc (start.tl.pos + bumps (32 ∷ [])) pieces)
      × (n ≡ length vs))
unfolding ascii_word_table is_space is_cntrl is_punct to_lower
tokenize_ascii-views_example =
    tokenize_ascii-views assoc assoc-IsLibXml analyzer 7 doc (32 ∷ []) pieces start (omega arith)
      (ground arith) pieces-IsSplit no_tokens-IsValid

finds_two_tokens :
    expected analyzer 7 doc 0 pieces
    ≡ record { text = text "don't"; pos = 1; meta = 7; context = doc }
      ∷ record { text = text "go"; pos = 3; meta = 7; context = doc }
      ∷ []
unfolding strip_ascii_chrs ascii_end_table ascii_start_table ascii_word_table is_space is_cntrl
    is_punct to_lower
finds_two_tokens = refl

tokenize_ascii-overrun_example :
    tokenize_ascii assoc analyzer start (text "sevench" ++ 97 ∷ text " x") 7 doc
    ≡ croak out_of_bounds
unfolding ascii_word_table is_space is_cntrl is_punct to_lower
tokenize_ascii-overrun_example =
    tokenize_ascii-overrun assoc analyzer start 7 doc (text "sevench") (text " x") 97 (omega arith)
      (refl, (refl, (refl, (refl, (refl, (refl, (refl, tt))))))) refl (omega arith)
