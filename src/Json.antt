-- ===== src/Json.antt =====
-- Python's `json`, as far as the sources use it: the values that it writes, `json.dumps` with its
-- separators and `sort_keys`, and in Reader `json.loads`. Floats are left out: no value that the
-- modelled code builds has one.
mod Decimal
mod Strings
pub mod Lexer
pub mod Reader
pub mod Scalars
pub mod Numbers
pub mod Shapes
pub mod Ascii
pub mod Layout
pub mod Steps
pub mod Merging
pub mod RoundTrip
use Decimal.{print_int}
use Strings.{quote}
pub use Strings.{text_ltb}
use omkit_python.Prelude.{
  ℕ, zero, suc, Bool, true, false, List, [], ◌∷◌, ◌++◌, Option, none, some, if◌then◌else◌, ◌==◌,
}
use omkit_python.Prelude.Text.{Text, codes, text_eq}
use omkit_python.Prelude.Int.{ℤ, pos}

mutual
  pub data Value : Type 0 where
    null : Value
    boolean : Bool → Value
    int : ℤ → Value
    str : Text → Value
    arr : Items → Value
    obj : Fields → Value

  pub data Items : Type 0 where
    nil : Items
    cons : Value → Items → Items

  pub data Fields : Type 0 where
    end : Fields
    field : Text → Value → Fields → Fields

-- A column of type jsonb as the driver hands it over.
pub data Column : Type 0 where
  raw : List ℕ → Column
  text : Text → Column
  value : Value → Column

-- The keyword arguments of `json.dumps`.
pub record Style : Type 0 where
  pub item_separator : Text
  pub key_separator : Text
  pub sort_keys : Bool

-- `json.dumps(v)`, and with `separators=(",", ":")`.
abbrev pub plain : Style
plain = record { item_separator = codes ", "; key_separator = codes ": "; sort_keys = false }

abbrev pub compact : Style
compact = record { item_separator = codes ","; key_separator = codes ":"; sort_keys = false }

unfoldable pub join : Text → List Text → Text
join sep [] = []
join sep (s ∷ []) = s
join sep (s ∷ t ∷ r) = s ++ (sep ++ join sep (t ∷ r))

-- `sorted` on the items of a dict, whose keys differ.
insert_pair : Text × Text → List (Text × Text) → List (Text × Text)
insert_pair p [] = p ∷ []
insert_pair p (q ∷ r) = if text_ltb q.0 p.0 then q ∷ insert_pair p r else p ∷ q ∷ r

sort_pairs : List (Text × Text) → List (Text × Text)
unfolding insert_pair
sort_pairs [] = []
sort_pairs (p ∷ r) = insert_pair p (sort_pairs r)

unfoldable pub pairs : Style → List (Text × Text) → List Text
unfolding quote
pairs st [] = []
pairs st ((k, v) ∷ r) = (quote k ++ (st.key_separator ++ v)) ∷ pairs st r

unfoldable pub braces : Style → List (Text × Text) → Text
unfolding join pairs sort_pairs
braces st ps =
    codes "{"
    ++ (join st.item_separator (pairs st (if st.sort_keys then sort_pairs ps else ps)) ++ codes "}")

unfoldable pub brackets : Style → List Text → Text
unfolding join
brackets st ts = codes "[" ++ (join st.item_separator ts ++ codes "]")

unfoldable mutual
  unfolding braces brackets quote print_int

  pub dumps : Style → Value → Text
  dumps st null = codes "null"
  dumps st (boolean true) = codes "true"
  dumps st (boolean false) = codes "false"
  dumps st (int n) = print_int n
  dumps st (str s) = quote s
  dumps st (arr xs) = brackets st (dumps_items st xs)
  dumps st (obj fs) = braces st (dumps_fields st fs)

  pub dumps_items : Style → Items → List Text
  dumps_items st nil = []
  dumps_items st (cons x xs) = dumps st x ∷ dumps_items st xs

  pub dumps_fields : Style → Fields → List (Text × Text)
  dumps_fields st end = []
  dumps_fields st (field k v fs) = (k, dumps st v) ∷ dumps_fields st fs

-- `d.get(k)` on a parsed object.
unfoldable pub get_field : Text → Fields → Option Value
get_field k end = none
get_field k (field j v fs) = if j == k then some v else get_field k fs

-- The truth value of an object: whether it has a field.
abbrev pub has_field : Fields → Bool
has_field end = false
has_field (field k v fs) = true

-- `bool(v)`
abbrev pub truthy : Value → Bool
truthy null = false
truthy (boolean b) = b
truthy (int (pos zero)) = false
truthy (int _) = true
truthy (str []) = false
truthy (str (c ∷ s)) = true
truthy (arr nil) = false
truthy (arr (cons v vs)) = true
truthy (obj fs) = has_field fs
