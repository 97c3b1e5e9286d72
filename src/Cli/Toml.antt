-- ===== src/Cli/Toml.antt =====
-- The documents of toml_edit, as far as the command line looks into them: maps in the order of
-- insertion, without their formatting. The library is not part of the repository; the operations
-- are those of its tables.
pub mod Lookup
use battery_pack.Prelude.{
  Text, text_eq, Bool, true, false, Option, none, some, List, [], ◌∷◌, if◌then◌else◌,
}

-- An element of an array: a string, or another value as it is printed.
pub data Element : Type 0 where
  text : Text → Element
  other_element : Text → Element

mutual
  -- A string, a Boolean, an array, `{ key = value }`, `[key]`, or another value as it is printed.
  pub data Item : Type 0 where
    string : Text → Item
    boolean : Bool → Item
    array : List Element → Item
    inline_table : Table → Item
    table : Table → Item
    other_item : Text → Item

  pub data Table : Type 0 where
    nil : Table
    entry : Text → Item → Table → Table

-- `Table::get`
unfoldable pub get : Text → Table → Option Item
get k nil = none
get k (entry j v t) = if text_eq k j then some v else get k t

-- `Table::insert`: in the place of an entry with the key, else at the end.
unfoldable pub insert : Text → Item → Table → Table
insert k v nil = entry k v nil
insert k v (entry j w t) =
    let rest = insert k v t in if text_eq k j then entry j v t else entry j w rest

-- `Table::remove`
unfoldable pub remove : Text → Table → Table
remove k nil = nil
remove k (entry j w t) = let rest = remove k t in if text_eq k j then rest else entry j w rest

-- `Item::as_table`: no inline table is one.
abbrev pub as_table : Item → Option Table
as_table (table t) = some t
as_table _ = none

abbrev pub as_str : Item → Option Text
as_str (string s) = some s
as_str _ = none

abbrev pub as_bool : Item → Option Bool
as_bool (boolean b) = some b
as_bool _ = none

abbrev pub as_array : Item → Option (List Element)
as_array (array es) = some es
as_array _ = none

-- `iter().filter_map(Value::as_str)`
abbrev pub strings : List Element → List Text
strings [] = []
strings (text s ∷ es) = s ∷ strings es
strings (other_element p ∷ es) = strings es

abbrev pub to_array : List Text → List Element
to_array [] = []
to_array (s ∷ ss) = text s ∷ to_array ss
