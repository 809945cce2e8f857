-- ===== src/Json/Layout.antt =====
-- What `json.dumps` writes of arrays and objects, item by item.
use omkit_python.Json.Strings.{quote}
use omkit_python.Prelude.{◌≡◌, refl, ap, ◌∙◌, false, some, [], ◌∷◌, ◌++◌, append_assoc}
use omkit_python.Prelude.Text.{Text, text_eq}
use omkit_python.Json.{
  Value, arr, obj, Items, nil, cons, Fields, end, field, Style, join, pairs, brackets, braces,
  dumps, dumps_items, dumps_fields,
}
use omkit_python.Json.Lexer.{is_space}
use omkit_python.Json.Reader.{read_key}
use omkit_python.Json.Scalars.{IsScalars}
use omkit_python.Json.Shapes.{Begun, dumps-Begun, skip-Begun, AreSpaces}
use omkit_python.Json.Steps.{read_key-quote}

-- The style that puts a comma between items and a colon after keys, each with white space behind it,
-- and leaves the order of the keys as it is.
abbrev pub spaced : (item_spaces key_spaces : Text) → Style
spaced item_spaces key_spaces = record {
  item_separator = 44 ∷ item_spaces;
  key_separator = 58 ∷ key_spaces;
  sort_keys = false;
}

pub append-Begun : (t u : Text) → Begun t → Begun (t ++ u)
append-Begun t u (c, (r, (e, b))) = (c, (r ++ u, (rw e refl, b)))

module _ (is ks : Text) where
  abbrev pub st : Style
  st = spaced is ks

  -- The items of an array and the members of an object, as they are written.
  abbrev pub items_text : Items → Text
  items_text xs = join (44 ∷ is) (dumps_items st xs)

  abbrev pub members_text : Fields → Text
  members_text fs = join (44 ∷ is) (pairs st (dumps_fields st fs))

  pub items_text-cons :
      (x y : Value) (ys : Items) (rest : Text)
      → items_text (cons x (cons y ys)) ++ rest
        ≡ dumps st x ++ (44 ∷ (is ++ (items_text (cons y ys) ++ rest)))
  unfolding join dumps
  items_text-cons x y ys rest =
      let later = items_text (cons y ys) in
      rw (append_assoc (dumps st x) ((44 ∷ is) ++ later) rest, append_assoc is later rest) refl

  unfoldable pub member_text : (k : Text) (v : Value) (rest : Text) → Text
  member_text k v rest = quote k ++ (58 ∷ (ks ++ (dumps st v ++ rest)))

  pub members_text-end :
      (k : Text) (v : Value) (rest : Text)
      → members_text (field k v end) ++ rest ≡ member_text k v rest
  unfolding join dumps pairs member_text
  members_text-end k v rest =
      rw (append_assoc (quote k) ((58 ∷ ks) ++ dumps st v) rest, append_assoc ks (dumps st v) rest)
        refl

  pub members_text-cons :
      (k j : Text) (v w : Value) (fs : Fields) (rest : Text)
      → members_text (field k v (field j w fs)) ++ rest
        ≡ member_text k v (44 ∷ (is ++ (members_text (field j w fs) ++ rest)))
  unfolding join dumps pairs member_text
  members_text-cons k j v w fs rest =
      let later = members_text (field j w fs) in
      let first = quote k ++ ((58 ∷ ks) ++ dumps st v) in
      append_assoc first ((44 ∷ is) ++ later) rest
      ∙ rw
          (
            append_assoc (quote k) ((58 ∷ ks) ++ dumps st v) (((44 ∷ is) ++ later) ++ rest),
            append_assoc ks (dumps st v) (((44 ∷ is) ++ later) ++ rest),
            append_assoc is later rest,
          )
          refl

  pub read_key-member :
      (k : Text) (v : Value) (rest : Text)
      → IsScalars k
      → AreSpaces ks
      → read_key (member_text k v rest) ≡ some (k, dumps st v ++ rest)
  unfolding member_text
  read_key-member k v rest h a =
      read_key-quote k ks (dumps st v ++ rest) h a
      ∙ rw (skip-Begun (dumps st v) rest (dumps-Begun st v)) refl

  pub items-Begun : (x : Value) (xs : Items) → Begun (items_text (cons x xs))
  unfolding join dumps
  items-Begun x nil = dumps-Begun st x
  items-Begun x (cons y ys) =
      append-Begun (dumps st x) ((44 ∷ is) ++ items_text (cons y ys)) (dumps-Begun st x)

  pub members-Begun : (k : Text) (v : Value) (fs : Fields) → Begun (members_text (field k v fs))
  unfolding join dumps pairs quote is_space
  members-Begun k v end = (34, (_, (refl, (refl, refl, refl, refl))))
  members-Begun k v (field j w fs) = (34, (_, (refl, (refl, refl, refl, refl))))

  pub arr_text :
      (xs : Items) (rest : Text) → dumps st (arr xs) ++ rest ≡ 91 ∷ (items_text xs ++ (93 ∷ rest))
  unfolding dumps brackets
  arr_text xs rest = ap (◌∷◌ 91) (append_assoc (items_text xs) (93 ∷ []) rest)

  pub obj_text :
      (fs : Fields) (rest : Text)
      → dumps st (obj fs) ++ rest ≡ 123 ∷ (members_text fs ++ (125 ∷ rest))
  unfolding dumps braces
  obj_text fs rest = ap (◌∷◌ 123) (append_assoc (members_text fs) (125 ∷ []) rest)
