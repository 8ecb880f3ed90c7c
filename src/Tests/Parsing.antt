-- ===== src/Tests/Parsing.antt =====
-- The parser on small documents: src/libswish3/parser.c.
use libswish.Config.{MetaName, property_init, metaname_init}
use libswish.Config.Defaults.{default_metaname, title}
use libswish.Config.Whole.{Config, ConfigFlags, init_flags}
use libswish.Ctype.{to_lower, is_cntrl, is_punct, is_space}
use libswish.Hash.{hash_exists_or_add, hash_exists, hash_add, hash_fetch}
use libswish.TokenList.{TokenIterator, add_token, set_token, cache_context, grown, token_list_init}
use libswish.Tokenizer.{
  Analyzer, tokenize, tokenize_ascii, scan, scan_char, end_token, add_to_token, start_token,
  put_char, bump, next, strip_ascii_chrs, strip_end, strip_start, ascii_word_table, ascii_end_table,
  ascii_start_table, is_ignore_word_ascii, is_ignore_end_ascii, is_ignore_start_ascii,
}
use libswish.DocInfo.{docinfo_init}
use libswish.LibXml.{find, Distinct}
use libswish.LibXml.Assoc.{assoc, assoc-IsLibXml}
use libswish.NamedBuffer.{nb_get_value}
use libswish.Parser.{Env, dom_str}
use libswish.Parser.Content.{Content, end, chars, element, store_pieces}
use libswish.Parser.Content.State.{IsPlain, Fits, tokenize_pieces}
use libswish.Parser.Content.Whole.{handed_on, no_texts, no_tokens, parsed, parsed-walk}
use libswish.Parser.Documents.{no_tags}
use libswish.Prelude.{
  ℕ, Run, croak, ◌≡◌, ◌≢◌, refl, [], ◌∷◌, ◌++◌, map, true, false, none, some, Bytes, text, eq_bytes,
  ok, Returns, All, arith,
}
use libswish.Str.{Wide, is_ascii, ascii_str_tolower, str_tolower}
use libswish.StringList.{StringList}
use libswish.TagStack.Contexts.{pushed}

abbrev pub latin : Wide
latin = record { mbstowcs = λ s. some s; wcstombs = λ s. some s; towlower = λ c. c }

abbrev pub analyzer : Analyzer
analyzer = record { maxwordlen = 256; minwordlen = 1 }

-- The tokenizer of the analyzer. The texts here are all ASCII.
abbrev pub env : Env assoc
env = record {
  wide = latin;
  html_inline = λ tag. none;
  class_attributes = none;
  analyzer_tokenize = true;
  tokenizer = λ it s m context.
      tokenize assoc (λ a ti buf meta context. ok (0, ti)) analyzer it s m context;
  meta_pointer = λ meta. 0;
}

pub metas-Distinct :
    Distinct
      ((default_metaname, metaname_init default_metaname) ∷ (title, metaname_init title) ∷ [])
unfolding find eq_bytes
metas-Distinct = (refl, (refl, tt))

abbrev pub flags : ConfigFlags assoc
unfolding init_flags
flags = init_flags assoc

-- The default metanames, the title as a property and under its alias.
abbrev pub config : Config assoc
unfolding assoc find eq_bytes
config = record {
  misc = assoc.create Bytes;
  properties = ((title, property_init title) ∷ [], (refl, tt));
  metanames = (
    (default_metaname, metaname_init default_metaname) ∷ (title, metaname_init title) ∷ [],
    metas-Distinct,
  );
  tag_aliases = ((text "title", title) ∷ [], (refl, tt));
  parsers = assoc.create Bytes;
  mimes = none;
  index = assoc.create Bytes;
  stringlists = assoc.create StringList;
  flags = flags;
}

no_dot : (a b k : Bytes) → All (λ c. c ≢ 46) k → eq_bytes (a ++ 46 ∷ b) k ≡ false
unfolding eq_bytes
no_dot [] b [] h = refl
no_dot (c ∷ a) b [] h = refl
no_dot [] b (d ∷ k) h = ground (arith, h.0)
no_dot (c ∷ a) b (d ∷ k) h = ground (arith, no_dot a b k h.1)

default_has_no_dot : All (λ c. c ≢ 46) default_metaname
default_has_no_dot = omega arith

title_has_no_dot : All (λ c. c ≢ 46) title
title_has_no_dot = omega arith

pub config-IsPlain : IsPlain assoc config
unfolding assoc find eq_bytes metaname_init property_init init_flags
config-IsPlain = record {
  indexes = refl;
  alone = refl;
  metas_direct = λ name m e. ground arith;
  props_direct = λ name p e. ground arith;
  metas_dotless = λ a b.
      ground
        (arith, no_dot a b default_metaname default_has_no_dot, no_dot a b title title_has_no_dot);
  props_dotless = λ a b. ground (arith, no_dot a b title title_has_no_dot);
  aliases_dotless = λ a b. ground (arith, no_dot a b (text "title") (omega arith));
}

lower : Bytes → Bytes
lower = map to_lower

pub default_is_known : assoc.lookup MetaName config.metanames default_metaname ≢ none
unfolding assoc find eq_bytes
default_is_known e = absurd cc

-- <doc>a<title>B</title>c</doc>
abbrev doc : Content
doc =
    element (text "doc")
      (chars (text "a") (element (text "title") (chars (text "B") end) (chars (text "c") end))) end

doc-Fits : Fits assoc env config false lower doc
unfolding str_tolower is_ascii ascii_str_tolower lower to_lower
doc-Fits =
    (refl, λ e. absurd cc, λ e. absurd cc, (refl, λ e. absurd cc, λ e. absurd cc, tt, tt), tt)

abbrev value_or : {A : Type 0} → A → Run A → A
value_or d (ok a) = a
value_or d (croak e) = d

abbrev doc_tokens : ℕ × TokenIterator assoc
doc_tokens =
    value_or (0, no_tokens assoc env config false lower)
      (tokenize_pieces assoc env config false lower (handed_on assoc env config false lower doc)
        (docinfo_init.nwords, no_tokens assoc env config false lower))

tokenizes_doc :
    tokenize_pieces assoc env config false lower
      (handed_on assoc env config false lower doc)
      (docinfo_init.nwords, no_tokens assoc env config false lower)
    ≡ ok doc_tokens
unfolding assoc find eq_bytes lower to_lower tokenize tokenize_ascii scan scan_char end_token
    add_to_token start_token put_char bump next strip_ascii_chrs strip_end strip_start
    ascii_word_table ascii_end_table ascii_start_table is_ignore_word_ascii is_ignore_end_ascii
    is_ignore_start_ascii is_cntrl is_punct is_space is_ascii add_token set_token cache_context
    grown hash_exists_or_add hash_exists hash_add hash_fetch token_list_init
tokenizes_doc = refl

parsed-walk_example :
    Returns
      (parsed assoc assoc-IsLibXml env config config-IsPlain false lower
        (λ uri is_text pd. ok pd)
        doc
        docinfo_init)
      (λ pd.
        ((j : Bytes)
          → nb_get_value assoc pd.metanames j
            ≡ store_pieces
                (handed_on assoc env config false lower doc)
                (no_texts assoc env config false lower)
                j)
        × (tokenize_pieces assoc env config false lower
              (handed_on assoc env config false lower doc)
              (docinfo_init.nwords, no_tokens assoc env config false lower)
            ≡ ok (pd.docinfo.nwords, pd.token_iterator))
        × (pd.meta_buf ≡ [])
        × (pd.domstack ≡ no_tags assoc)
        × (pd.metastack ≡ pushed 47 (no_tags assoc) default_metaname default_metaname)
        × (pd.propstack ≡ pushed 47 (no_tags assoc) dom_str dom_str))
parsed-walk_example =
    parsed-walk assoc assoc-IsLibXml env config config-IsPlain false lower (λ uri is_text pd. ok pd)
      doc docinfo_init doc_tokens default_is_known doc-Fits tokenizes_doc

doc_pieces :
    map (λ p. p.words) (handed_on assoc env config false lower doc)
    ≡ text "a" ∷ text "B" ∷ text "c" ∷ []
unfolding assoc find eq_bytes lower to_lower
doc_pieces = refl
