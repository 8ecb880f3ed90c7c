-- ===== src/Parser.antt =====
-- src/libswish3/parser.c: the state of a document that is being parsed, its two text buffers, and
-- how these are moved to the buffers of the properties and metanames.
pub mod Baking
pub mod Tags
pub mod Attributes
pub mod Events
pub mod Documents
pub mod Parsers
pub mod Files
pub mod Streams
pub mod Content
pub mod Quiet
use libswish.Config.{Pointer, Property, MetaName}
use libswish.Config.Whole.{Config}
use libswish.DocInfo.{DocInfo}
use libswish.Hash.{hash_exists, hash_fetch}
use libswish.LibXml.{LibXml}
use libswish.NamedBuffer.{NamedBuffer, bumper, nb_add_str}
use libswish.Prelude.{
  ℕ, ◌+◌, Bool, true, false, not, ◌&&◌, List, [], ◌∷◌, Option, none, some, Bytes, text, eq_bytes,
  Run, ok, croak, ◌>>=◌, if◌then◌else◌, ◌==◌, length, null_pointer, use_after_free, buffer_failed,
}
use libswish.Str.{Wide}
use libswish.TagStack.{Tag, TagStack}
use libswish.TokenList.{TokenIterator}

-- What the parser calls that is not its own: the C library's wide characters, whether an HTML
-- element is known to libxml2 and is inline, and the tokenizer that the analyzer points at. Of the
-- configuration's string lists it has the class attributes. `meta_pointer` numbers the pointers to
-- metanames that tokens keep.
pub record Env (x : LibXml) : Type 0 where
  pub wide : Wide
  pub html_inline : Bytes → Option Bool
  pub class_attributes : Option (List Bytes)
  pub analyzer_tokenize : Bool
  pub tokenizer : TokenIterator x → Bytes → ℕ → Bytes → Run (ℕ × TokenIterator x)
  pub meta_pointer : Option MetaName → ℕ

module _ (x : LibXml) where
  -- `tag` may be left pointing at a string that has been freed. `ignore_content` counts the reasons
  -- to skip text.
  pub record ParserData : Type 0 where
    pub tag : Pointer
    pub config : Config x
    pub docinfo : DocInfo
    pub properties : NamedBuffer x
    pub metanames : NamedBuffer x
    pub domstack : TagStack
    pub metastack : TagStack
    pub propstack : TagStack
    pub meta_buf : Bytes
    pub prop_buf : Bytes
    pub bump_word : Bool
    pub ignore_content : ℕ
    pub is_html : Bool
    pub token_iterator : TokenIterator x

  -- `swish_hash_exists` of a name that may be NULL, which libxml2 finds in no table.
  unfoldable pub exists_tag : {V : Type 0} → x.Table V → Option Bytes → Bool
  unfolding hash_exists
  exists_tag t none = false
  exists_tag t (some name) = hash_exists x t name

  -- `swish_buffer_append` to a buffer that is no named one.
  unfoldable pub append_text : Bytes → Bytes → Run Bytes
  append_text buf [] = ok buf
  append_text buf (c ∷ txt) = elim (x.buffer_add buf (c ∷ txt)) [
    | none ↦ croak buffer_failed
    | some b ↦ ok b
  ]

  unfoldable pub nb_add_buf :
      NamedBuffer x → Bytes → Bytes → ℕ → Bytes → Bool → Bool → Run (NamedBuffer x × Bytes)
  unfolding nb_add_str
  nb_add_buf nb name buf len joiner cleanwsp autovivify =
      nb_add_str x nb name buf len joiner cleanwsp autovivify

-- The name under which text is stored: the target of the alias, if there is one.
unfoldable pub stored_as : Pointer → Bytes → Run Bytes
stored_as Pointer.null name = ok name
stored_as Pointer.freed name = croak use_after_free
stored_as (Pointer.to target) name = ok target

-- `SWISH_DOM_STR`, `SWISH_DOM_CHAR` and `SWISH_DOT`
abbrev pub dom_str : Bytes
dom_str = 47 ∷ []

abbrev pub dom_char : ℕ
dom_char = 47

abbrev pub dot : ℕ
dot = 46

module _ (x : LibXml) (env : Env x) where
  -- The loop over the stack for `CascadeMetaContext`; the name that has the text is left out.
  unfoldable pub cascade : List Tag → Bytes → Bytes → NamedBuffer x → Run (NamedBuffer x)
  unfolding nb_add_buf
  cascade [] stored buf nb = ok nb
  cascade (t ∷ ts) stored buf nb =
      (if eq_bytes t.baked stored
        then ok nb
        else (nb_add_buf x nb t.baked buf (length buf) bumper false true >>= λ r. ok r.0))
      >>= cascade ts stored buf

  -- `tokenize`; its callers give a name and a context.
  unfoldable pub tokenize_meta : Bytes → Bytes → ParserData x → Run (ParserData x)
  unfolding hash_fetch
  tokenize_meta metaname context pd =
      if length pd.meta_buf == 0
      then ok pd
      else env.tokenizer pd.token_iterator pd.meta_buf
          (env.meta_pointer (hash_fetch x pd.config.metanames metaname)) context
        >>= λ r. ok (record pd {
          token_iterator = r.1;
          docinfo = record pd.docinfo { nwords = pd.docinfo.nwords + r.0 };
        })

  unfoldable pub flush_buffer : Bytes → Bytes → ParserData x → Run (ParserData x)
  unfolding hash_fetch stored_as nb_add_buf cascade tokenize_meta
  flush_buffer metaname context pd = elim (hash_fetch x pd.config.metanames metaname) [
    | none ↦ croak null_pointer
    | some meta ↦ do
      stored ← stored_as meta.alias_for metaname
      added ← nb_add_buf x pd.metanames stored pd.meta_buf (length pd.meta_buf) bumper false true
      nb ←
          if pd.config.flags.cascade_meta_context
          then cascade pd.metastack.head stored pd.meta_buf added.0
          else ok added.0
      let pd₁ = record pd { metanames = nb }
      pd₂ ← if env.analyzer_tokenize then tokenize_meta stored context pd₁ else ok pd₁
      ok (record pd₂ { meta_buf = [] })
  ]

  -- The loop over the stack of properties. `buf` is what the cleaning leaves of the text, `len` the
  -- length that the buffer had.
  unfoldable pub add_to_stack :
      List Tag → ℕ → Bool → NamedBuffer x × Bytes → Run (NamedBuffer x × Bytes)
  unfolding nb_add_buf
  add_to_stack [] len cleanwsp r = ok r
  add_to_stack (t ∷ ts) len cleanwsp (nb, buf) =
      (if eq_bytes t.baked dom_str
        then ok (nb, buf)
        else nb_add_buf x nb t.baked buf len bumper cleanwsp false)
      >>= add_to_stack ts len cleanwsp

  -- The first part of `add_stack_to_prop_buf`: the property itself, if one is given, and whether
  -- white space is cleaned.
  unfoldable pub add_own : Option Bytes → ParserData x → Run ((NamedBuffer x × Bytes) × Bool)
  unfolding hash_fetch stored_as nb_add_buf
  add_own none pd = ok ((pd.properties, pd.prop_buf), true)
  add_own (some baked) pd = elim (hash_fetch x pd.config.properties baked) [
    | none ↦ croak null_pointer
    | some prop ↦ do
      stored ← stored_as prop.alias_for baked
      r ←
          nb_add_buf x pd.properties stored pd.prop_buf (length pd.prop_buf) bumper
            (not prop.verbatim) false
      ok (r, not prop.verbatim)
  ]

  unfoldable pub add_stack_to_prop_buf : Option Bytes → ParserData x → Run (ParserData x)
  unfolding add_own add_to_stack
  add_stack_to_prop_buf baked pd = do
    own ← add_own baked pd
    r ← add_to_stack pd.propstack.head (length pd.prop_buf) own.1 own.0
    ok (record pd { properties = r.0; prop_buf = r.1 })

  -- Text is set off by a bumper where a tag has asked for it and the buffer has text already.
  unfoldable pub buffer_text : Bool → Bytes → Bytes → Run Bytes
  unfolding append_text
  buffer_text bump_word buf ch =
      (if bump_word && not (length buf == 0) then append_text x buf bumper else ok buf) >>= λ b.
      append_text x b ch

  unfoldable pub buffer_characters : Bytes → ParserData x → Run (ParserData x)
  unfolding buffer_text
  buffer_characters ch pd = if not (pd.ignore_content == 0) then ok pd else do
    m ← buffer_text pd.bump_word pd.meta_buf ch
    p ← buffer_text pd.bump_word pd.prop_buf ch
    ok (record pd { meta_buf = m; prop_buf = p; bump_word = false })
