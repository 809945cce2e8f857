-- ===== src/Json/RoundTrip.antt =====
-- `json.loads` reads back what `json.dumps` writes.
use omkit_python.Json.Strings.{quote}
use omkit_python.Prelude.{
  ℕ, zero, suc, ◌≤◌, ◌≡◌, refl, ap, ◌∙◌, true, false, some, [], ◌∷◌, ◌++◌, arith, length,
  length-append, append-nil,
}
use omkit_python.Prelude.Text.{Text, text_eq}
use omkit_python.Json.{
  Value, null, boolean, int, str, arr, obj, Items, nil, cons, Fields, end, field, join, pairs,
  brackets, braces, dumps,
}
use mathlib.Core.Path.{subst}
use omkit_python.Json.Lexer.{skip}
use omkit_python.Json.Reader.{read_literal, after, read_value, read_items, read_members, loads}
use omkit_python.Json.Numbers.{EndsNumber}
use omkit_python.Json.Merging.{
  append_fields, set_field-new, append_fields_assoc, Apart, Apart-append, Apart-end,
}
use omkit_python.Json.Shapes.{
  IsReadable, AreReadable, HasReadable, size, size_items, size_fields, Begun, dumps-Begun,
  skip-Begun, AreSpaces, skip-AreSpaces,
}
use omkit_python.Json.Layout.{
  spaced, st, items_text, members_text, items_text-cons, members_text-end, members_text-cons,
  member_text, read_key-member, items-Begun, members-Begun, append-Begun, arr_text, obj_text,
}
use omkit_python.Json.Steps.{
  read_value-str, read_value-int, items_last, items_more, members_last, members_more, value_arr,
  value_obj,
}

Begun-length : (t : Text) → Begun t → 1 ≤ length t
Begun-length t (c, (r, (e, b))) = rw e (omega arith)

module _ (is ks : Text) (items_apart : AreSpaces is) (keys_apart : AreSpaces ks) where
  mutual
    unfolding dumps size IsReadable read_value read_literal after brackets braces join pairs

    reads :
        (v : Value) (n : ℕ) (rest : Text)
        → IsReadable v
        → size v ≤ n
        → EndsNumber rest
        → read_value n (dumps (st is ks) v ++ rest) ≡ some (v, rest)
    reads null zero rest h le e = absurd (omega (arith, le))
    reads null (suc n) rest h le e = refl
    reads (boolean b) zero rest h le e = absurd (omega (arith, le))
    reads (boolean true) (suc n) rest h le e = refl
    reads (boolean false) (suc n) rest h le e = refl
    reads (int i) zero rest h le e = absurd (omega (arith, le))
    reads (int i) (suc n) rest h le e = read_value-int n i rest e
    reads (str s) zero rest h le e = absurd (omega (arith, le))
    reads (str s) (suc n) rest h le e = read_value-str n s rest h
    reads (arr xs) zero rest h le e = absurd (omega (arith, le))
    reads (arr nil) (suc n) rest h le e = refl
    reads (arr (cons x xs)) (suc n) rest h le e =
        let t = items_text is ks (cons x xs) in
        let b = items-Begun is ks x xs in
        ap (read_value (suc n)) (arr_text is ks (cons x xs) rest)
        ∙ (value_arr n (t ++ (93 ∷ rest)) rest (cons x xs) (append-Begun t (93 ∷ rest) b)
            (skip-Begun t (93 ∷ rest) b) (reads_items x xs n rest h (omega (arith, le))))
    reads (obj fs) zero rest h le e = absurd (omega (arith, le))
    reads (obj end) (suc n) rest h le e = refl
    reads (obj (field k v fs)) (suc n) rest h le e =
        let t = members_text is ks (field k v fs) in
        let b = members-Begun is ks k v fs in
        ap (read_value (suc n)) (obj_text is ks (field k v fs) rest)
        ∙ (value_obj n (t ++ (125 ∷ rest)) rest (field k v fs) (append-Begun t (125 ∷ rest) b)
            (skip-Begun t (125 ∷ rest) b)
            (reads_members k v fs n end rest h (Apart-end (field k v fs)) (omega (arith, le))))

    reads_items :
        (x : Value) (xs : Items) (n : ℕ) (rest : Text)
        → AreReadable (cons x xs)
        → size_items (cons x xs) ≤ n
        → read_items n (items_text is ks (cons x xs) ++ (93 ∷ rest)) ≡ some (cons x xs, rest)
    reads_items x xs zero rest h le = absurd (omega (arith, le))
    reads_items x nil (suc n) rest h le =
        items_last n (dumps (st is ks) x ++ (93 ∷ rest)) rest x
          (reads x n (93 ∷ rest) h.0 (omega (arith, le)) (refl, refl))
    reads_items x (cons y ys) (suc n) rest h le =
        let later = items_text is ks (cons y ys) ++ (93 ∷ rest) in
        ap (read_items (suc n)) (items_text-cons is ks x y ys (93 ∷ rest))
        ∙ (items_more n (dumps (st is ks) x ++ (44 ∷ (is ++ later))) (is ++ later) rest x
            (cons y ys) (reads x n (44 ∷ (is ++ later)) h.0 (omega (arith, le)) (refl, refl))
            (rw
              (
                skip-AreSpaces is later items_apart,
                skip-Begun (items_text is ks (cons y ys)) (93 ∷ rest) (items-Begun is ks y ys),
              )
              (reads_items y ys n rest h.1 (omega (arith, le)))))

    reads_members :
        (k : Text) (v : Value) (fs : Fields) (n : ℕ) (acc : Fields) (rest : Text)
        → HasReadable (field k v fs)
        → Apart acc (field k v fs)
        → size_fields (field k v fs) ≤ n
        → read_members n acc (members_text is ks (field k v fs) ++ (125 ∷ rest))
          ≡ some (append_fields acc (field k v fs), rest)
    reads_members k v fs zero acc rest h a le = absurd (omega (arith, le))
    reads_members k v end (suc n) acc rest h a le =
        let r = reads v n (125 ∷ rest) h.1 (omega (arith, le)) (refl, refl) in
        let t = member_text is ks k v (125 ∷ rest) in
        ap (read_members (suc n) acc) (members_text-end is ks k v (125 ∷ rest))
        ∙ members_last n t (dumps (st is ks) v ++ (125 ∷ rest)) rest k v acc
            (read_key-member is ks k v (125 ∷ rest) h.0 keys_apart) r
        ∙ ap (λ (gs : Fields). some (gs, rest)) (set_field-new k v acc a.0)
    reads_members k v (field j w fs) (suc n) acc rest h a le =
        let later = members_text is ks (field j w fs) ++ (125 ∷ rest) in
        let u = 44 ∷ (is ++ later) in
        let acc' = append_fields acc (field k v end) in
        let apart = Apart-append acc (field j w fs) k v h.2 a.1 in
        ap (read_members (suc n) acc) (members_text-cons is ks k j v w fs (125 ∷ rest))
        ∙ members_more n (member_text is ks k v u) (dumps (st is ks) v ++ u) (is ++ later) k v acc
            (read_key-member is ks k v u h.0 keys_apart)
            (reads v n u h.1 (omega (arith, le)) (refl, refl))
        ∙ rw
            (
              set_field-new k v acc a.0,
              skip-AreSpaces is later items_apart,
              skip-Begun (members_text is ks (field j w fs)) (125 ∷ rest)
                  (members-Begun is ks j w fs),
            )
            (reads_members j w fs n acc' rest h.3 apart (omega (arith, le)))
        ∙ ap (λ (gs : Fields). some (gs, rest))
            (append_fields_assoc acc (field k v end) (field j w fs))

  cons-length :
      (x : Value) (xs : Items)
      → size x ≤ length (dumps (st is ks) x)
      → size_items xs ≤ suc (length (items_text is ks xs))
      → size_items (cons x xs) ≤ suc (length (items_text is ks (cons x xs)))
  unfolding size dumps join
  cons-length x nil h k = omega (arith, h)
  cons-length x (cons y ys) h k = omega (
    arith,
    h,
    k,
    length-append (dumps (st is ks) x) ((44 ∷ is) ++ items_text is ks (cons y ys)),
    length-append is (items_text is ks (cons y ys)),
  )

  member-length :
      (k : Text) (v : Value)
      → size v ≤ length (dumps (st is ks) v)
      → size v ≤ length (quote k ++ ((58 ∷ ks) ++ dumps (st is ks) v))
  member-length k v h = omega (
    arith,
    h,
    length-append (quote k) ((58 ∷ ks) ++ dumps (st is ks) v),
    length-append ks (dumps (st is ks) v),
  )

  field-length :
      (k : Text) (v : Value) (fs : Fields)
      → size v ≤ length (dumps (st is ks) v)
      → size_fields fs ≤ suc (length (members_text is ks fs))
      → size_fields (field k v fs) ≤ suc (length (members_text is ks (field k v fs)))
  unfolding size dumps join pairs
  field-length k v end h le = omega (arith, member-length k v h)
  field-length k v (field j w fs) h le = omega (
    arith,
    member-length k v h,
    le,
    length-append (quote k ++ ((58 ∷ ks) ++ dumps (st is ks) v))
        ((44 ∷ is) ++ members_text is ks (field j w fs)),
    length-append is (members_text is ks (field j w fs)),
  )

  mutual
    unfolding dumps size join pairs quote brackets braces

    size-length : (v : Value) → size v ≤ length (dumps (st is ks) v)
    size-length null = omega arith
    size-length (boolean true) = omega arith
    size-length (boolean false) = omega arith
    size-length (int i) = Begun-length (dumps (st is ks) (int i)) (dumps-Begun (st is ks) (int i))
    size-length (str s) = omega arith
    size-length (arr xs) =
        omega (arith, size_items-length xs, length-append (items_text is ks xs) (93 ∷ []))
    size-length (obj fs) =
        omega (arith, size_fields-length fs, length-append (members_text is ks fs) (125 ∷ []))

    size_items-length : (xs : Items) → size_items xs ≤ suc (length (items_text is ks xs))
    size_items-length nil = omega arith
    size_items-length (cons x xs) = cons-length x xs (size-length x) (size_items-length xs)

    size_fields-length : (fs : Fields) → size_fields fs ≤ suc (length (members_text is ks fs))
    size_fields-length end = omega arith
    size_fields-length (field k v fs) = field-length k v fs (size-length v) (size_fields-length fs)

  -- `json.loads` gives back the value that `json.dumps` wrote, if no text in it has a surrogate and
  -- no object has a key twice; the separators are a comma and a colon with any white space behind.
  pub loads-dumps : (v : Value) → IsReadable v → loads (dumps (spaced is ks) v) ≡ some v
  unfolding loads
  loads-dumps v h =
      let t = dumps (st is ks) v in
      let read = reads v (suc (length t)) [] h (omega (arith, size-length v)) tt in
      let all = append-nil t in
      let skipped = skip-Begun t [] (dumps-Begun (st is ks) v) in
      let read' : read_value (suc (length t)) t ≡ some (v, []) =
        subst (λ (u : Text). read_value (suc (length t)) u ≡ some (v, [])) all read in
      let skipped' : skip t ≡ t = subst (λ (u : Text). skip u ≡ u) all skipped in
      rw (skipped', loads, read') refl
