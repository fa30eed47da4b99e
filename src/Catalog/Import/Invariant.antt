-- ===== src/Catalog/Import/Invariant.antt =====
-- The invariant of the import loops: fresh ids and arguments, checked entries, counted protocols.
use mathlib.Core.List.{map-append}
use web_zapret.Base.{
  ℕ, suc, ◌≤◌, ◌≡◌, refl, sym, ap, subst, ◌∙◌, false, List, [], ◌∷◌, ◌++◌, map, ok, if◌then◌else◌,
  ℤ, pos, All, arith,
}
use web_zapret.Text.{Text, same, one_of}
use web_zapret.Text.Laws.{same_iff}
use web_zapret.Dict.{get_or, insert, get_or-insert}
use web_zapret.Value.{Dict}
use web_zapret.Catalog.{validate_args, needs_no_reasm}
use web_zapret.Catalog.Fresh.{free_id-not-known}
use web_zapret.Catalog.Entries.{Entry, State, Config, over_limit, stem_of, new_entry}

-- The texts are pairwise different, and none of them is known.
abbrev pub IsFresh : List Text → List Text → Type 0
IsFresh known [] = Unit
IsFresh known (x ∷ xs) = (one_of x known ≡ false) × IsFresh (x ∷ known) xs

abbrev pub add_all : List Text → List Text → List Text
add_all known [] = known
add_all known (x ∷ xs) = add_all (x ∷ known) xs

-- The entries of one protocol.
abbrev pub count : Text → List Entry → ℕ
count p [] = 0
count p (e ∷ es) = let rest = count p es in if same e.protocol p then suc rest else rest

IsFresh-concat :
    (known xs : List Text) (x : Text)
    → IsFresh known xs
    → one_of x (add_all known xs) ≡ false
    → IsFresh known (xs ++ x ∷ [])
IsFresh-concat known [] x h new = (new, tt)
IsFresh-concat known (y ∷ xs) x (h, hs) new = (h, IsFresh-concat (y ∷ known) xs x hs new)

add_all-concat :
    (known xs : List Text) (x : Text) → add_all known (xs ++ x ∷ []) ≡ x ∷ add_all known xs
add_all-concat known [] x = refl
add_all-concat known (y ∷ xs) x = add_all-concat (y ∷ known) xs x

count-concat :
    (p : Text) (es : List Entry) (e : Entry)
    → count p (es ++ e ∷ []) ≡ (if same e.protocol p then suc (count p es) else count p es)
count-concat p [] e = refl
count-concat p (f ∷ es) e = ground (arith, count-concat p es e)

abbrev pub id_of : Entry → Text
id_of e = e.id

abbrev pub options_of : Entry → Text
options_of e = e.args

-- An entry's arguments passed the validation, and its flag is the one that they ask for.
pub record IsChecked (e : Entry) : Type 0 where
  pub source : Text
  pub valid : validate_args source ≡ ok e.args
  pub flagged : e.no_reasm ≡ needs_no_reasm e.args e.protocol

-- The invariant of the loops, for the ids and arguments known at the start.
pub record IsSound (limit : ℤ) (ids args : List Text) (st : State) : Type 0 where
  pub ids_known : st.known_ids ≡ add_all ids (map id_of st.entries)
  pub ids_fresh : IsFresh ids (map id_of st.entries)
  pub args_known : st.known_args ≡ add_all args (map options_of st.entries)
  pub args_fresh : IsFresh args (map options_of st.entries)
  pub counted : (p : Text) → get_or p 0 st.per_protocol ≡ count p st.entries
  pub capped : (n : ℕ) → limit ≡ pos (suc n) → (p : Text) → count p st.entries ≤ suc n
  pub checked : All IsChecked st.entries

pub IsFresh-map :
    (f : Entry → Text) (known : List Text) (es : List Entry) (e : Entry)
    → IsFresh known (map f es)
    → one_of (f e) (add_all known (map f es)) ≡ false
    → IsFresh known (map f (es ++ e ∷ []))
IsFresh-map f known es e h new =
    subst (IsFresh known) (sym (map-append f es (e ∷ [])))
      (IsFresh-concat known (map f es) (f e) h new)

pub known_map :
    (f : Entry → Text) (known : List Text) (es : List Entry) (e : Entry) (now : List Text)
    → now ≡ add_all known (map f es)
    → f e ∷ now ≡ add_all known (map f (es ++ e ∷ []))
known_map f known es e now h =
    ap (λ l. f e ∷ l) h
    ∙ sym (add_all-concat known (map f es) (f e))
    ∙ ap (add_all known) (sym (map-append f es (e ∷ [])))

under_limit : (limit : ℤ) (k n : ℕ) → over_limit limit k ≡ false → limit ≡ pos (suc n) → k ≤ n
unfolding over_limit
under_limit limit k n h e = ground arith

module _ {limit : ℤ} {ids args : List Text} {st : State} (s : IsSound limit ids args st)
    (e : Entry) where
  pub counted-add :
      (p : Text)
      → get_or p 0 (insert e.protocol (suc (get_or e.protocol 0 st.per_protocol)) st.per_protocol)
        ≡ count p (st.entries ++ e ∷ [])
  counted-add p = ground (
    arith,
    get_or-insert e.protocol p 0 (suc (get_or e.protocol 0 st.per_protocol)) st.per_protocol,
    count-concat p st.entries e,
    s.counted p,
    same_iff e.protocol p,
  )

  pub capped-add :
      over_limit limit (get_or e.protocol 0 st.per_protocol) ≡ false
      → (n : ℕ) → limit ≡ pos (suc n)
      → (p : Text) → count p (st.entries ++ e ∷ []) ≤ suc n
  capped-add room n is p = ground (
    arith,
    count-concat p st.entries e,
    s.counted p,
    s.capped n is p,
    under_limit limit (get_or e.protocol 0 st.per_protocol) n room is,
    same_iff e.protocol p,
  )

pub new_entry-is_new :
    (c : Config) (st : State) (domain : Text) (dom row : Dict) (protocol args desc : Text)
    → one_of (new_entry c st domain dom row protocol args desc).id st.known_ids ≡ false
unfolding new_entry
new_entry-is_new c st domain dom row protocol args desc =
    free_id-not-known st.known_ids (stem_of c domain protocol)

pub new_entry-IsChecked :
    (c : Config) (st : State) (domain : Text) (dom row : Dict) (protocol source args desc : Text)
    → validate_args source ≡ ok args
    → IsChecked (new_entry c st domain dom row protocol args desc)
unfolding new_entry
new_entry-IsChecked c st domain dom row protocol source args desc valid = record {
  source = source;
  valid = valid;
  flagged = refl;
}
