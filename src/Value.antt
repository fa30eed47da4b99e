-- ===== src/Value.antt =====
-- The values of parsed JSON, as Python holds them, and the built-in operations on them.

use web_zapret.Base.{
  ℕ, suc, length, Bool, true, false, not, List, [], ◌∷◌, ◌++◌, map, ◌≡◌, refl, Result, ok, err,
  type_error, ◌==◌, if◌then◌else◌, ℤ, pos, negsuc, ◌>>=◌,
}
use web_zapret.Text.{Text, codes}
use web_zapret.Text.Decimal.{decimal}

-- A double: `ratio s m k` is the number m / 2 ^ k, negated if `s`.
pub data Float : Type 0 where
  ratio : Bool → ℕ → ℕ → Float
  infinity : Bool → Float
  nan : Float

mutual
  pub data Value : Type 0 where
    null : Value
    bool : Bool → Value
    int : ℤ → Value
    float : Float → Value
    str : Text → Value
    list : Items → Value
    dict : Fields → Value

  pub data Items : Type 0 where
    nil : Items
    cons : Value → Items → Items

  pub data Fields : Type 0 where
    end : Fields
    field : Text → Value → Fields → Fields

-- A list value's elements, and a dictionary's pairs in their order.
unfoldable pub elems : Items → List Value
elems nil = []
elems (cons v vs) = v ∷ elems vs

unfoldable pub of_elems : List Value → Items
of_elems [] = nil
of_elems (v ∷ vs) = cons v (of_elems vs)

abbrev pub Dict : Type 0
Dict = List (Text × Value)

unfoldable pub pairs : Fields → Dict
pairs end = []
pairs (field k v fs) = (k, v) ∷ pairs fs

unfoldable pub of_pairs : Dict → Fields
of_pairs [] = end
of_pairs ((k, v) ∷ ps) = field k v (of_pairs ps)

pub pairs-of_pairs : (d : Dict) → pairs (of_pairs d) ≡ d
unfolding pairs of_pairs
pairs-of_pairs [] = refl
pairs-of_pairs ((k, v) ∷ d) = λ i. (k, v) ∷ pairs-of_pairs d i

pub elems-of_elems : (vs : List Value) → elems (of_elems vs) ≡ vs
unfolding elems of_elems
elems-of_elems [] = refl
elems-of_elems (v ∷ vs) = λ i. v ∷ elems-of_elems vs i

-- `bool(v)`
unfoldable pub truthy : Value → Bool
truthy null = false
truthy (bool b) = b
truthy (int (pos n)) = not (n == 0)
truthy (int (negsuc n)) = true
truthy (float (ratio s m k)) = not (m == 0)
truthy (float _) = true
truthy (str []) = false
truthy (str (_ ∷ _)) = true
truthy (list nil) = false
truthy (list (cons _ _)) = true
truthy (dict end) = false
truthy (dict (field _ _ _)) = true

-- `a or b`
unfoldable pub or_else : Value → Value → Value
unfolding truthy
or_else a b = if truthy a then a else b

-- A method of `str` is called on the value: any other value has no such method.
unfoldable pub as_text : Value → Result Text
as_text (str s) = ok s
as_text _ = err type_error

-- `for x in v`: the elements, the characters or the keys.
unfoldable pub as_list : Value → Result (List Value)
unfolding elems pairs
as_list (list vs) = ok (elems vs)
as_list (str s) = ok (map (λ c. str (c ∷ [])) s)
as_list (dict fs) = ok (map (λ p. str p.0) (pairs fs))
as_list _ = err type_error

-- The elements of a list that is joined: all of them must be texts.
unfoldable pub texts_of : List Value → Result (List Text)
unfolding as_text
texts_of [] = ok []
texts_of (v ∷ vs) = do t ← as_text v; ts ← texts_of vs; ok (t ∷ ts)

-- `.get` is called on the value.
unfoldable pub as_dict : Value → Result Dict
unfolding pairs
as_dict (dict fs) = ok (pairs fs)
as_dict _ = err type_error

-- `"%d" % n`
unfoldable pub int_text : ℤ → Text
int_text (pos n) = decimal n
int_text (negsuc n) = codes "-" ++ decimal (suc n)

-- `str(v)`; the runtime's print of floats and containers is an argument.
unfoldable pub py_str : (Value → Text) → Value → Text
py_str repr null = codes "None"
py_str repr (bool true) = codes "True"
py_str repr (bool false) = codes "False"
py_str repr (int n) = int_text n
py_str repr (str s) = s
py_str repr v = repr v

-- What the Python runtime does with values that this library does not model further: the print of
-- floats and containers, `int(v)` of floats and texts, and `"%.0f%%" % (v * 100)`.
pub record Runtime : Type 0 where
  pub repr : Value → Text
  pub to_int : Value → Result ℤ
  pub percent : Value → Result Text

-- `int(v)`
unfoldable pub py_int : Runtime → Value → Result ℤ
py_int rt (int n) = ok n
py_int rt (bool b) = ok (if b then pos 1 else pos 0)
py_int rt null = err type_error
py_int rt v = rt.to_int v

-- `"%d" % v`, which takes numbers alone
unfoldable pub format_int : Runtime → Value → Result Text
unfolding py_int int_text
format_int rt (str s) = err type_error
format_int rt v = py_int rt v >>= λ n. ok (int_text n)

pub texts_of-texts : (ts : List Text) → texts_of (map (λ t. str t) ts) ≡ ok ts
unfolding texts_of as_text
texts_of-texts [] = refl
texts_of-texts (t ∷ ts) = rw (texts_of-texts ts) refl

-- `len(v)`
unfoldable pub py_len : Value → Result ℕ
unfolding elems pairs
py_len (list vs) = ok (length (elems vs))
py_len (str s) = ok (length s)
py_len (dict fs) = ok (length (pairs fs))
py_len _ = err type_error

-- `v or []`
pub or_else-items : (l : Items) → as_list (or_else (list l) (list nil)) ≡ ok (elems l)
unfolding or_else truthy as_list elems
or_else-items nil = refl
or_else-items (cons v vs) = refl

-- Names the operations on one line, for the tests that run them.
unfoldable pub value_methods : Unit {0}
unfolding elems of_elems pairs of_pairs truthy or_else as_text texts_of as_list as_dict py_str
    int_text py_int format_int
value_methods = tt
