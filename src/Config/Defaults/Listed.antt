-- ===== src/Config/Defaults/Listed.antt =====
-- The entries of a default configuration, as `swish_config_set_default` of src/libswish3/config.c
-- lists them.
use libswish.Config.{Pointer, Property}
use libswish.Numbers.{ℤ}
use libswish.Prelude.{Bool, true, false, Option, none, some, Bytes, text, eq_bytes, if◌then◌else◌}

-- The parsers, aliases, index settings and properties as a new index has them.
abbrev pub parser_for : Bytes → Option Bytes
parser_for j =
    if eq_bytes j (text "text/plain")
    then some (text "TXT")
    else if eq_bytes j (text "application/xml")
    then some (text "XML")
    else if eq_bytes j (text "text/xml")
    then some (text "XML")
    else if eq_bytes j (text "text/html")
    then some (text "HTML")
    else if eq_bytes j (text "default")
    then some (text "HTML")
    else none

abbrev pub alias_for : Bytes → Option Bytes
alias_for j =
    if eq_bytes j (text "title")
    then some (text "swishtitle")
    else if eq_bytes j (text "body")
    then some (text "swishdescription")
    else none

abbrev pub index_setting : Bytes → Bytes → Option Bytes
index_setting locale j =
    if eq_bytes j (text "Format")
    then some (text "Native")
    else if eq_bytes j (text "Name")
    then some (text "index.swish")
    else if eq_bytes j (text "Locale")
    then some locale
    else none

-- A property as `swish_property_init` makes it, with its number and whether it is sorted by.
abbrev pub property_with : Bytes → ℤ → Bool → Property
property_with name id sort = record {
  id = id;
  name = name;
  ignore_case = true;
  type = 1;
  verbatim = false;
  alias_for = Pointer.null;
  max = 0;
  sort = sort;
  presort = true;
  sort_length = 0;
}
