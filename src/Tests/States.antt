-- ===== src/Tests/States.antt =====
-- Single steps of the parser on small states: src/libswish3/parser.c.
use libswish.Config.{Pointer, metaname_init}
use libswish.Config.Whole.{init_flags, metas_ignore}
use libswish.Ctype.{to_lower, is_cntrl, is_punct, is_space}
use libswish.DocInfo.{docinfo_init}
use libswish.Hash.{hash_exists, hash_exists_or_add, hash_add, hash_fetch}
use libswish.LibXml.{find}
use libswish.LibXml.Assoc.{assoc, assoc-IsLibXml}
use libswish.NamedBuffer.{
  NamedBuffer, nb_add_str, find_buffer, buffer_append, cleaned, add_name_to_hash,
}
use libswish.NamedBuffer.Values as Named
use libswish.Parser.{
  ParserData, dom_str, exists_tag, append_text, nb_add_buf, stored_as, cascade, tokenize_meta,
  flush_buffer, add_to_stack, add_own, add_stack_to_prop_buf, buffer_text, buffer_characters,
}
use libswish.Parser.Attributes.{xml_att, xml_atts}
use libswish.Parser.Attributes.Reading.{meta_atts-name_content, xml_atts-empty}
use libswish.Parser.Baking.{
  class_names, undefined_attr, html_bump, undefined_xml, xml_undefined, find_alias, bake_plain,
  meta_atts, name_of, is_undefined,
}
use libswish.Parser.Documents.{no_tags, xinclude_handler}
use libswish.Parser.Documents.Copying.{Includes, xinclude_handler-Includes}
use libswish.Parser.Events.{att_pairs, start_element_ns, handle_events}
use libswish.Parser.Quiet.Freed.{xml_att-double_free}
use libswish.Parser.Quiet.Ignoring.{closes, says, parts_of, handle_events-ignore}
use libswish.Parser.Quiet.Unknown.{open_meta-null}
use libswish.Parser.Tags.{
  free_tag, drop_tag, top, strdup, push_dom, baked_name, open_property, open_meta, opened,
  open_plain, close_property, close_meta, close_dom, close_tag, tag_with_content,
}
use libswish.Prelude.{
  ℕ, true, false, ◌<◌, ◌≡◌, ◌≢◌, refl, [], ◌∷◌, ◌++◌, none, some, Bytes, text, eq_bytes, Run, ok,
  croak, Returns, Partial, double_free, null_pointer, arith,
}
use libswish.Str.{all_ws, str_tolower, is_ascii, ascii_str_tolower}
use libswish.TagStack.{
  Tag, flatten_from, flatten_tag_stack, push_tag_stack, pop_tag_stack, pop_tag_stack_on_match,
}
use libswish.TagStack.Contexts.{pushed}
use libswish.Tests.Parsing.{env, config}
use libswish.TokenList.{TokenList, token_list_init, add_token, set_token, cache_context, grown}
use libswish.Tokenizer.{
  tokenize, tokenize_ascii, scan, scan_char, end_token, add_to_token, start_token, put_char, bump,
  next, strip_ascii_chrs, strip_end, strip_start, ascii_word_table, ascii_end_table,
  ascii_start_table, is_ignore_word_ascii, is_ignore_end_ascii, is_ignore_start_ascii,
}
use libswish.TokenList.Adding.{token_list_init-IsValid, add_token-Adds}
use libswish.TokenList.Layout.{IsValid}

meta_atts-name_content_example :
    meta_atts
      (some (text "name") ∷ some (text "author") ∷ some (text "content") ∷ some (text "Ann") ∷ [])
      (none, none)
    ≡ (some (text "author"), some (text "Ann"))
unfolding eq_bytes
meta_atts-name_content_example = meta_atts-name_content (text "author") (text "Ann")

abbrev no_buffers : NamedBuffer assoc
no_buffers = record { hash = assoc.create ℕ; store = λ p. []; next = 0 }

nothing_found : (k : Bytes) (p : ℕ) → assoc.lookup ℕ (assoc.create ℕ) k ≢ some p
unfolding assoc find
nothing_found k p e = absurd cc

no_buffers-IsValid : Named.IsValid assoc no_buffers
no_buffers-IsValid = record {
  below = λ k p e. absurd (nothing_found k p e);
  apart = λ j k p e f. absurd (nothing_found j p e);
}

abbrev words : TokenList assoc → ParserData assoc
words tl = record {
  tag = Pointer.null;
  config = config;
  docinfo = docinfo_init;
  properties = no_buffers;
  metanames = no_buffers;
  domstack = no_tags assoc;
  metastack = pushed 47 (no_tags assoc) (text "swishdefault") (text "swishdefault");
  propstack = pushed 47 (no_tags assoc) dom_str dom_str;
  meta_buf = [];
  prop_buf = [];
  bump_word = true;
  ignore_content = 0;
  is_html = false;
  token_iterator = record { tl = tl; pos = 0 };
}

abbrev plain : ParserData assoc
plain = words (token_list_init assoc)

xml_atts-empty_example :
    xml_atts assoc env
      (att_pairs (((text "a", text "1") ∷ []) ++ (text "b", []) ∷ (text "c", text "2") ∷ []))
      none
      (text "doc", plain)
    ≡ xml_atts assoc env (att_pairs ((text "a", text "1") ∷ [])) none (text "doc", plain)
xml_atts-empty_example =
    xml_atts-empty assoc env ((text "a", text "1") ∷ []) ((text "c", text "2") ∷ []) (text "b") none
      (text "doc", plain)

added :
    Returns (add_token assoc (token_list_init assoc) (text "hi") 3 0 (text "doc")) (IsValid assoc)
added =
    let (tl, e, adds) =
      add_token-Adds assoc assoc-IsLibXml (token_list_init assoc) (text "hi") 0 (text "doc")
        (token_list_init-IsValid assoc assoc-IsLibXml) (omega arith) (ground arith) in
    (tl, e, adds.valid)

xinclude_handler-Includes_example :
    Returns
      (xinclude_handler assoc (words added.0) (words added.0))
      (Includes assoc assoc-IsLibXml (words added.0) (words added.0))
xinclude_handler-Includes_example =
    xinclude_handler-Includes assoc assoc-IsLibXml (words added.0) (words added.0) added.2 added.2
      no_buffers-IsValid no_buffers-IsValid refl

abbrev ignoring : ParserData assoc
ignoring = record plain {
  config = record config { flags = record config.flags { undef_metas = metas_ignore } };
}

x_name :
    (p : Pointer) → name_of assoc env (text "x") none (record ignoring { tag = p }) ≡ ok (text "x")
unfolding name_of str_tolower is_ascii ascii_str_tolower to_lower
x_name p = refl

x_is_undefined : is_undefined assoc env (text "x") ignoring ≡ true
unfolding is_undefined hash_exists assoc find eq_bytes
x_is_undefined = refl

handle_events-ignore_example :
    Partial
      (λ pd'. (0 < pd'.ignore_content) × (buffer_characters assoc env (text "b") pd' ≡ ok pd'))
      (handle_events assoc env
        (λ uri is_text pd. ok pd)
        (start_element_ns (text "x") none none []
          ∷ parts_of (says (text "a") ∷ closes (text "x") none ∷ []))
        ignoring)
handle_events-ignore_example =
    handle_events-ignore assoc env (λ uri is_text pd. ok pd) (text "x") (text "x") none none
      (says (text "a") ∷ closes (text "x") none ∷ []) (text "b") ignoring
      (record { xml = refl; ignores = refl }) x_name x_is_undefined

-- A metaname for the path of a tag, beside the default one.
abbrev with_path : ParserData assoc
unfolding assoc find eq_bytes
with_path = record plain {
  config = record config {
    metanames = (
      (text "swishdefault", metaname_init (text "swishdefault"))
          ∷ (text "doc.sub", metaname_init (text "doc.sub"))
          ∷ [],
      (refl, (refl, tt)),
    );
  };
  meta_buf = text "hi";
}

abbrev value_or : {A : Type 0} → A → Run A → A
value_or d (ok a) = a
value_or d (croak e) = d

abbrev flushed : ParserData assoc
flushed =
    value_or with_path
      (flush_buffer assoc env (text "swishdefault") (text "swishdefault") with_path)

flushed_is :
    flush_buffer assoc env (text "swishdefault") (text "swishdefault") with_path ≡ ok flushed
unfolding flush_buffer stored_as nb_add_buf tokenize_meta cascade nb_add_str find_buffer
    buffer_append cleaned add_name_to_hash assoc find eq_bytes all_ws init_flags metaname_init
    token_list_init is_space is_ascii tokenize tokenize_ascii scan scan_char end_token add_to_token
    start_token put_char bump next strip_ascii_chrs strip_end strip_start ascii_word_table
    ascii_end_table ascii_start_table is_ignore_word_ascii is_ignore_end_ascii is_ignore_start_ascii
    is_cntrl is_punct add_token set_token cache_context grown hash_exists_or_add hash_add hash_fetch
    to_lower
flushed_is = refl

open_meta-null_example :
    Returns
      (open_meta assoc env (text "sub") (some (text "sub")) (text "doc.sub") with_path)
      (λ pd'.
        (t : Tag) × (top pd'.metastack ≡ ok t)
        × (t.raw ≡ text "sub")
        × (flush_buffer assoc env t.baked t.context pd' ≡ croak null_pointer))
unfolding assoc find eq_bytes top flatten_from
open_meta-null_example =
    open_meta-null assoc env (text "sub") (text "sub") (text "doc.sub")
      (metaname_init (text "doc.sub"))
      (record {
        raw = text "swishdefault";
        baked = text "swishdefault";
        context = text "swishdefault";
        n = 0;
      })
      with_path flushed refl refl refl refl flushed_is

-- Metanames for two attributes of a tag.
abbrev with_attributes : ParserData assoc
unfolding assoc find eq_bytes
with_attributes = record plain {
  config = record config {
    metanames = (
      (text "swishdefault", metaname_init (text "swishdefault"))
          ∷ (text "doc.a", metaname_init (text "doc.a"))
          ∷ (text "doc.b", metaname_init (text "doc.b"))
          ∷ [],
      (refl, (refl, (refl, tt))),
    );
    flags = init_flags assoc;
  };
}

abbrev after : Bytes × ParserData assoc
after =
    value_or (text "doc", with_attributes)
      (xml_att assoc env (text "a") (text "1") none (text "doc", with_attributes))

first_att : xml_att assoc env (text "a") (text "1") none (text "doc", with_attributes) ≡ ok after
unfolding xml_att str_tolower is_ascii ascii_str_tolower to_lower class_names hash_exists
    undefined_attr tag_with_content open_plain drop_tag free_tag bake_plain name_of html_bump
    xml_undefined find_alias opened push_dom top open_property open_meta exists_tag
    add_stack_to_prop_buf add_own add_to_stack flush_buffer stored_as nb_add_buf baked_name strdup
    push_tag_stack flatten_tag_stack flatten_from buffer_characters buffer_text append_text
    close_tag close_property close_meta close_dom pop_tag_stack pop_tag_stack_on_match tokenize_meta
    cascade undefined_xml is_undefined nb_add_str find_buffer buffer_append cleaned add_name_to_hash
    assoc find eq_bytes all_ws init_flags metaname_init token_list_init is_space tokenize
    tokenize_ascii scan scan_char end_token add_to_token start_token put_char bump next
    strip_ascii_chrs strip_end strip_start ascii_word_table ascii_end_table ascii_start_table
    is_ignore_word_ascii is_ignore_end_ascii is_ignore_start_ascii is_cntrl is_punct add_token
    set_token cache_context grown hash_exists_or_add hash_add hash_fetch
first_att = refl

second_is_known : hash_exists assoc (after.1).config.metanames (after.0 ++ 46 ∷ text "b") ≡ true
unfolding xml_att str_tolower is_ascii ascii_str_tolower to_lower class_names hash_exists
    undefined_attr tag_with_content open_plain drop_tag free_tag bake_plain name_of html_bump
    xml_undefined find_alias opened push_dom top open_property open_meta exists_tag
    add_stack_to_prop_buf add_own add_to_stack flush_buffer stored_as nb_add_buf baked_name strdup
    push_tag_stack flatten_tag_stack flatten_from buffer_characters buffer_text append_text
    close_tag close_property close_meta close_dom pop_tag_stack pop_tag_stack_on_match tokenize_meta
    cascade undefined_xml is_undefined nb_add_str find_buffer buffer_append cleaned add_name_to_hash
    assoc find eq_bytes all_ws init_flags metaname_init token_list_init is_space tokenize
    tokenize_ascii scan scan_char end_token add_to_token start_token put_char bump next
    strip_ascii_chrs strip_end strip_start ascii_word_table ascii_end_table ascii_start_table
    is_ignore_word_ascii is_ignore_end_ascii is_ignore_start_ascii is_cntrl is_punct add_token
    set_token cache_context grown hash_exists_or_add hash_add hash_fetch
second_is_known = refl

xml_att-double_free_example :
    ((after.1).tag ≡ Pointer.freed)
    × (xml_atts assoc env
          (some (text "a") ∷ some (text "1") ∷ some (text "b") ∷ some (text "2") ∷ [])
          none
          (text "doc", with_attributes)
        ≡ croak double_free)
unfolding str_tolower is_ascii ascii_str_tolower to_lower class_names hash_exists assoc find
    eq_bytes
xml_att-double_free_example =
    xml_att-double_free assoc env (text "a") (text "1") (text "a") (text "1") (text "b") (text "2")
      (text "b") (text "2") (text "doc") after.0 none with_attributes after.1 refl refl refl refl
      refl second_is_known first_att
