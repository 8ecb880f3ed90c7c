-- ===== src/Parser/Content/State.antt =====
-- The state of a parser in the middle of a document, and what has to hold of it.
use libswish.Config.{Pointer, Property, MetaName}
use libswish.Config.Defaults.{default_metaname}
use libswish.Config.Whole.{Config, metas_index}
use libswish.DocInfo.{DocInfo}
use libswish.LibXml.{LibXml}
use libswish.NamedBuffer.{NamedBuffer, nb_get_value}
use libswish.NamedBuffer.Values as Named
use libswish.Parser.{Env, ParserData, dom_str}
use libswish.Parser.Content.{
  Content, end, chars, element, Place, Piece, Progress, baked_of, store_pieces,
}
use libswish.Prelude.{
  ℕ, ◌+◌, Bool, false, ◌≡◌, ◌≢◌, ◌⊎◌, List, [], ◌∷◌, ◌++◌, none, some, Bytes, Run, ok, ◌>>=◌,
  if◌then◌else◌, Returns, ◌==◌, length, not, All,
}
use libswish.Str.{str_tolower}
use libswish.TagStack.{Tag, TagStack}
use libswish.TagStack.Contexts as Stacks
use libswish.TokenList.{TokenIterator}

-- What changes while text is indexed: the configuration stays, and no text is ignored.
pub record Vars (x : LibXml) : Type 0 where
  pub tag : Pointer
  pub docinfo : DocInfo
  pub properties : NamedBuffer x
  pub metanames : NamedBuffer x
  pub domstack : TagStack
  pub metastack : TagStack
  pub propstack : TagStack
  pub meta_buf : Bytes
  pub prop_buf : Bytes
  pub bump_word : Bool
  pub token_iterator : TokenIterator x

-- No name has a dot in it.
abbrev pub Dotless : {V : Type 0} (x : LibXml) → x.Table V → Type 0
Dotless {V} x t = (a b : Bytes) → x.lookup V t (a ++ 46 ∷ b) ≡ none

-- Tags that are not configured are indexed under the tag around them, text goes to one metaname
-- only, nothing is stored under another name, and no path is given a name.
pub record IsPlain (x : LibXml) (c : Config x) : Type 0 where
  pub indexes : c.flags.undef_metas ≡ metas_index
  pub alone : c.flags.cascade_meta_context ≡ false
  pub metas_direct :
      (name : Bytes) (m : MetaName)
      → x.lookup MetaName c.metanames name ≡ some m
      → m.alias_for ≡ Pointer.null
  pub props_direct :
      (name : Bytes) (p : Property)
      → x.lookup Property c.properties name ≡ some p
      → p.alias_for ≡ Pointer.null
  pub metas_dotless : Dotless x c.metanames
  pub props_dotless : Dotless x c.properties
  pub aliases_dotless : Dotless x c.tag_aliases

module _ (x : LibXml) (env : Env x) (c : Config x) (is_html : Bool) (lower : Bytes → Bytes) where
  abbrev pub state : Vars x → ParserData x
  state v = record {
    tag = v.tag;
    config = c;
    docinfo = v.docinfo;
    properties = v.properties;
    metanames = v.metanames;
    domstack = v.domstack;
    metastack = v.metastack;
    propstack = v.propstack;
    meta_buf = v.meta_buf;
    prop_buf = v.prop_buf;
    bump_word = v.bump_word;
    ignore_content = 0;
    is_html = is_html;
    token_iterator = v.token_iterator;
  }

  abbrev pub OpensMeta : Bytes → Type 0
  OpensMeta tag = x.lookup MetaName c.metanames (baked_of x env c is_html lower tag) ≢ none

  abbrev pub OpensProp : Bytes → Type 0
  OpensProp tag = x.lookup Property c.properties (baked_of x env c is_html lower tag) ≢ none

  -- The tags of a document can be put in lower case, and none has the name of a stack's first entry.
  abbrev pub Fits : Content → Type 0
  Fits end = Unit {0}
  Fits (chars ch rest) = Fits rest
  Fits (element tag kids rest) =
      (str_tolower env.wide tag ≡ ok (lower tag))
      × (tag ≢ dom_str)
      × (tag ≢ default_metaname)
      × Fits kids
      × Fits rest

  -- The top of the stack of metanames is the place that text belongs to.
  pub record IsTop (place : Place) (stack : TagStack) : Type 0 where
    pub top : Tag
    pub below : List Tag
    pub head_is : stack.head ≡ top ∷ below
    pub name_is : top.baked ≡ place.name
    pub context_is : top.context ≡ place.context
    pub known : x.lookup MetaName c.metanames place.name ≢ none
    pub opened : (top.raw ≡ default_metaname) ⊎ OpensMeta top.raw

  abbrev pub IsPropTag : Tag → Type 0
  IsPropTag t = (t.baked ≡ dom_str) ⊎ (x.lookup Property c.properties t.baked ≢ none)

  pub record IsPropTop (stack : TagStack) : Type 0 where
    pub top : Tag
    pub below : List Tag
    pub head_is : stack.head ≡ top ∷ below
    pub opened : (top.raw ≡ dom_str) ⊎ OpensProp top.raw

  pub record Ready (place : Place) (v : Vars x) : Type 0 where
    pub not_freed : v.tag ≢ Pointer.freed
    pub metas : Named.IsValid x v.metanames
    pub props : Named.IsValid x v.properties
    pub props_there :
        (name : Bytes)
        → x.lookup Property c.properties name ≢ none
        → nb_get_value x v.properties name ≢ none
    pub dom : Stacks.IsValid 46 v.domstack
    pub meta : Stacks.IsValid 47 v.metastack
    pub prop : Stacks.IsValid 47 v.propstack
    pub meta_top : IsTop place v.metastack
    pub prop_top : IsPropTop v.propstack
    pub prop_names : All IsPropTag v.propstack.head

  -- The tokenizer on the pieces, in their order. An empty text is not tokenized.
  abbrev pub tokenize_pieces : List Piece → ℕ × TokenIterator x → Run (ℕ × TokenIterator x)
  tokenize_pieces [] r = ok r
  tokenize_pieces (p ∷ ps) (n, it) =
      (if not env.analyzer_tokenize
        then ok (n, it)
        else if length p.words == 0
        then ok (n, it)
        else env.tokenizer it p.words
            (env.meta_pointer (x.lookup MetaName c.metanames p.place.name)) p.place.context
          >>= λ r. ok (n + r.0, r.1))
      >>= tokenize_pieces ps

  -- The tokenizer ends normally on the pieces that have been handed on, one after the other, from
  -- where it was in `v0`.
  abbrev pub Accepted : Vars x → Progress → Type 0
  Accepted v0 s =
      Returns (tokenize_pieces s.pieces (v0.docinfo.nwords, v0.token_iterator)) (λ r. Unit {0})

  -- Since `v0` the document has come as far as `s`, and that is what the parser has.
  pub record Reached (v0 : Vars x) (s : Progress) (v : Vars x) : Type 0 where
    pub waiting_is : v.meta_buf ≡ s.waiting
    pub bump_is : v.bump_word ≡ s.bump
    pub stored :
        (j : Bytes)
        → nb_get_value x v.metanames j ≡ store_pieces s.pieces (nb_get_value x v0.metanames) j
    pub tokenized :
        tokenize_pieces s.pieces (v0.docinfo.nwords, v0.token_iterator)
        ≡ ok (v.docinfo.nwords, v.token_iterator)

  pub record SameStacks (v w : Vars x) : Type 0 where
    pub same_dom : w.domstack ≡ v.domstack
    pub same_meta : w.metastack ≡ v.metastack
    pub same_prop : w.propstack ≡ v.propstack
