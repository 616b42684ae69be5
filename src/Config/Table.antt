-- ===== src/Config/Table.antt =====
-- TOML documents as tables, which meet the assumptions on `toml_edit`.
use text.Mathlib.Text.{◌==◌ as str_eq}
use text.Mathlib.TextEquality.{eq_iff}
use giganto.Prelude.{◌≡◌, refl, ℕ, false, Option, none, some, List, [], ◌∷◌, String}
use giganto.Bytes.{Bytes}
use giganto.Outcome.{ok}
use giganto.Config.{Toml, Entries, entry}

-- An array is a chain of `element`s, a table one of `field`s.
pub data TomlItem : Type 0 where
  string : Bytes → TomlItem
  number : ℕ → TomlItem
  array_end table_end : TomlItem
  element : TomlItem → TomlItem → TomlItem
  field : String → TomlItem → TomlItem → TomlItem

abbrev of_array : List TomlItem → TomlItem
of_array [] = array_end
of_array (i ∷ items) = element i (of_array items)

abbrev of_table : Entries TomlItem → TomlItem
of_table [] = table_end
of_table (e ∷ entries) = field e.0 e.1 (of_table entries)

abbrev to_array : TomlItem → Option (List TomlItem)
to_array array_end = some []
to_array (element i rest) = elim (to_array rest) [ none ↦ none | some l ↦ some (i ∷ l) ]
to_array _ = none

abbrev to_table : TomlItem → Option (Entries TomlItem)
to_table table_end = some []
to_table (field k i rest) = elim (to_table rest) [ none ↦ none | some l ↦ some ((k, i) ∷ l) ]
to_table _ = none

abbrev to_text : TomlItem → Option Bytes
to_text (string s) = some s
to_text _ = none

pub to_array-of_array : (l : List TomlItem) → to_array (of_array l) ≡ some l
to_array-of_array [] = refl
to_array-of_array (i ∷ l) = rw (to_array-of_array l) refl

pub to_table-of_table : (l : Entries TomlItem) → to_table (of_table l) ≡ some l
to_table-of_table [] = refl
to_table-of_table (e ∷ l) = rw (to_table-of_table l) refl

pub entry_same : (k : String) (i : TomlItem) (d : Entries TomlItem) → entry k ((k, i) ∷ d) ≡ some i
entry_same k i d = rw ((eq_iff k k).1 refl) refl

pub entry_other :
    (k k' : String) (i : TomlItem) (d : Entries TomlItem)
    → str_eq k' k ≡ false
    → entry k ((k', i) ∷ d) ≡ entry k d
entry_other k k' i d h = rw h refl

abbrev pub tables : Toml
tables = record {
  Document = Entries TomlItem;
  Item = TomlItem;
  Text = Entries TomlItem;
  parse = λ d. ok d;
  to_string = λ d. d;
  writeln = λ d. d;
  get = entry;
  set = λ k i d. (k, i) ∷ d;
  value = string;
  array = of_array;
  inline_table = of_table;
  as_str = to_text;
  as_array = to_array;
  as_inline_table = to_table;
  as_value = λ i. some i;
  parse-to_string = λ d. refl;
  get-set = entry_same;
  get-set_other = entry_other;
  as_str-value = λ s. refl;
  as_value-value = λ s. refl;
  as_array-array = to_array-of_array;
  as_inline_table-inline_table = to_table-of_table;
}
