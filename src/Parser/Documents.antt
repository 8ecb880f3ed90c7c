-- ===== src/Parser/Documents.antt =====
-- src/libswish3/parser.c: what is outside of the parser, the state of a new document, and the
-- merge of a document into the one that includes it.
pub mod Copying
use libswish.Config.Whole.{Config}
use libswish.Config.Defaults.{default_metaname}
use libswish.DocInfo.{DocInfo, FileSystem}
use libswish.LibXml.{LibXml}
use libswish.NamedBuffer.{nb_init, buffer_concat}
use libswish.Numbers.{ℤ}
use libswish.Parser.{Env, ParserData, dom_str, dom_char}
use libswish.Config.{Pointer}
use libswish.Parser.Events.{Event}
use libswish.Prelude.{
  ℕ, zero, suc, ◌+◌, Bool, true, false, List, [], Option, none, some, Bytes, text, Run, ok, croak,
  ◌>>=◌, length, out_of_fuel,
}
use libswish.TagStack.{TagStack, push_tag_stack}
use libswish.TokenList.{
  TokenList, TokenIterator, token_list_init, add_token, token_iterator_next_token,
}

-- What libxml2 makes of a text: the calls of the handler, the value of the parser and the encoding
-- that it found.
pub record Sax : Type 0 where
  pub events : List Event
  pub result : ℤ
  pub encoding : Option Bytes

-- The rest of what the parsers call. `latin1` is `isolat1ToUTF8`: whether its value is not 0, and
-- what it wrote. `xml_document` and `html_document` give `none` where no context can be made.
pub record Outside (x : LibXml) : Type 0 where
  pub env : Env x
  pub fs : FileSystem
  pub read_file : Bytes → Bytes
  pub inflate_file : Bytes → Bytes
  pub xml_document : Bytes → Option Sax
  pub html_document : Bytes → Option Sax
  pub check_utf8 : Bytes → Bool
  pub latin1 : Bytes → Bool × Bytes
  pub swish_encoding : Option Bytes
  pub build_uri : Bytes → Bytes → Option Bytes

abbrev pub utf8 : Bytes
utf8 = text "UTF-8"

module _ (x : LibXml) where
  abbrev pub no_tags : TagStack
  no_tags = record { head = []; count = 0 }

  -- The document is put in by the caller.
  unfoldable pub init_parser_data : Config x → DocInfo → Run (ParserData x)
  unfolding nb_init push_tag_stack token_list_init
  init_parser_data config docinfo = do
    properties' ← nb_init x config.properties
    metanames' ← nb_init x config.metanames
    metastack' ← push_tag_stack no_tags default_metaname default_metaname dom_char
    propstack' ← push_tag_stack no_tags dom_str dom_str dom_char
    ok (record {
      tag = Pointer.null;
      config = config;
      docinfo = docinfo;
      properties = properties';
      metanames = metanames';
      domstack = no_tags;
      metastack = metastack';
      propstack = propstack';
      meta_buf = [];
      prop_buf = [];
      bump_word = true;
      ignore_content = 0;
      is_html = false;
      token_iterator = record { tl = token_list_init x; pos = 0 };
    })

  -- The loop of `xinclude_handler`, in at most so many rounds.
  unfoldable pub copy_tokens : ℕ → TokenIterator x → TokenList x → Run (TokenList x)
  unfolding token_iterator_next_token add_token
  copy_tokens zero it tl = croak out_of_fuel
  copy_tokens (suc fuel) it tl = elim (token_iterator_next_token x it).0 [
    | none ↦ ok tl
    | some (t, value) ↦
        add_token x tl value (t.len + 1) t.meta t.context
        >>= copy_tokens fuel (token_iterator_next_token x it).1
  ]

  -- One round more than there are tokens is enough. The configuration is shared by the two.
  unfoldable pub xinclude_handler : ParserData x → ParserData x → Run (ParserData x)
  unfolding copy_tokens buffer_concat
  xinclude_handler child parent = do
    tl' ←
        copy_tokens (suc (length child.token_iterator.tl.tokens)) child.token_iterator
          parent.token_iterator.tl
    ok (record parent {
      config = child.config;
      token_iterator = record parent.token_iterator { tl = tl' };
      docinfo = record parent.docinfo { nwords = parent.docinfo.nwords + child.docinfo.nwords };
      properties = buffer_concat x parent.properties child.properties;
      metanames = buffer_concat x parent.metanames child.metanames;
    })
