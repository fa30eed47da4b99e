-- ===== src/Logs/Merged/Tail.antt =====
-- The last lines of a log, as `tail_log` of src/panel/panel.py cuts them.
use web_zapret.Base.{
  ℕ, zero, suc, ◌-◌, ◌≤◌, ◌<◌, ◌≡◌, ◌⊎◌, inl, inr, refl, sym, ap, ◌∙◌, subst, List, [], ◌∷◌, ◌++◌,
  map, take, leb, Bool-cases, length, length-map, ℤ, pos, negsuc, Option, none, some, arith,
}
use web_zapret.Text.{Text, codes, join}
use web_zapret.Logs.{drop, last_rows}
use web_zapret.Logs.Merged.{
  Reader, Entry, Files, collected_entries, merged_rows, size_limit, with_end, row_count, tail_of,
  merged_log,
}

-- How many lines a request for n lines gets at most: from one to 5000.
abbrev pub IsCount : ℤ → ℕ → Type 0
IsCount (pos n) k = (n ≡ 0 → k ≡ 1) × (1 ≤ n → n ≤ 5000 → k ≡ n) × (5000 < n → k ≡ 5000)
IsCount (negsuc n) k = k ≡ 1

-- A text consists of the last of some lines: of as many as are asked for, or of all of them.
abbrev pub IsTail : ℤ → List Text → Text → Type 0
IsTail n lines t =
    (front : List Text) × (rows : List Text) × (k : ℕ) × (lines ≡ front ++ rows)
    × IsCount n k
    × (length rows ≤ 5000)
    × ((length rows ≡ k) ⊎ ((front ≡ []) × (length rows ≤ k)))
    × (t ≡ join (10 ∷ []) rows ++ 10 ∷ [])

take-drop : {A : Type 0} (k : ℕ) (xs : List A) → xs ≡ take k xs ++ drop k xs
unfolding drop
take-drop zero xs = refl
take-drop (suc k) [] = refl
take-drop (suc k) (x ∷ xs) = ap (λ l. x ∷ l) (take-drop k xs)

drop-length : {A : Type 0} (k : ℕ) (xs : List A) → length (drop k xs) ≡ length xs - k
unfolding drop
drop-length zero xs = omega arith
drop-length (suc k) [] = omega arith
drop-length (suc k) (x ∷ xs) = omega (arith, drop-length k xs)

map-drop : {A B : Type 0} (f : A → B) (k : ℕ) (xs : List A) → map f (drop k xs) ≡ drop k (map f xs)
unfolding drop
map-drop f zero xs = refl
map-drop f (suc k) [] = refl
map-drop f (suc k) (x ∷ xs) = map-drop f k xs

take_zero : {A : Type 0} (m : ℕ) (xs : List A) → m ≡ 0 → take m xs ≡ []
take_zero m xs h = rw h refl

last_rows-drop :
    {A : Type 0} (k : ℕ) (xs : List A) → 1 ≤ k → last_rows (pos k) xs ≡ drop (length xs - k) xs
unfolding last_rows
last_rows-drop k xs h = ground arith

drop_nil : {A : Type 0} (m : ℕ) → drop {A = A} m [] ≡ []
unfolding drop
drop_nil zero = refl
drop_nil (suc m) = refl

-- The last k of some lines are a tail of them.
last_rows-IsTail :
    (n : ℤ) (k : ℕ) (lines : List Text)
    → 1 ≤ k
    → k ≤ 5000
    → IsCount n k
    → IsTail n lines (join (10 ∷ []) (last_rows (pos k) lines) ++ 10 ∷ [])
last_rows-IsTail n k lines least most count =
    let m = length lines - k in
    let size = drop-length m lines in
    subst (λ rows. IsTail n lines (join (10 ∷ []) rows ++ 10 ∷ []))
      (sym (last_rows-drop k lines least))
      (
        take m lines,
        drop m lines,
        k,
        take-drop m lines,
        count,
        omega (arith, size, most),
        elim (Bool-cases (leb k (length lines))) [
          | inl long ↦
              let enough : k ≤ length lines = ground arith in inl (omega (arith, size, enough))
          | inr short ↦
              let few : length lines < k = ground arith in
              inr (take_zero m lines (omega (arith, few)), omega (arith, size, few))
        ],
        refl,
      )

row_count-IsCount : (rt : Reader) (n : ℤ) → IsCount n (row_count rt n)
unfolding row_count
row_count-IsCount rt (pos n) =
    (λ h. omega (arith, h), λ least most. omega (arith, least, most), λ more. omega (arith, more))
row_count-IsCount rt (negsuc n) = refl

row_count-bounds : (rt : Reader) (n : ℤ) → (1 ≤ row_count rt n) × (row_count rt n ≤ 5000)
unfolding row_count
row_count-bounds rt (pos n) = (omega arith, omega arith)
row_count-bounds rt (negsuc n) = (omega arith, omega arith)

-- The lines of some text, none at all or a tail of them.
abbrev pub IsShown : Text → ℤ → List Text → Text → Type 0
IsShown default n lines t = ((lines ≡ []) × (t ≡ default)) ⊎ IsTail n lines t

with_end_filled :
    (rt : Reader) (default : Text) (rows : List Text)
    → 1 ≤ length rows
    → with_end rt default rows ≡ join (10 ∷ []) rows ++ 10 ∷ []
unfolding with_end
with_end_filled rt default [] h = absurd (omega (arith, h))
with_end_filled rt default (row ∷ rows) h = refl

with_end-IsShown :
    (rt : Reader) (default : Text) (n : ℤ) (k : ℕ) (lines : List Text)
    → 1 ≤ k
    → k ≤ 5000
    → IsCount n k
    → IsShown default n lines (with_end rt default (last_rows (pos k) lines))
unfolding with_end
with_end-IsShown rt default n k [] least most count =
    inl (refl, ap (with_end rt default) (last_rows-drop k [] least ∙ drop_nil (0 - k)))
with_end-IsShown rt default n k (line ∷ lines) least most count =
    let rows = last_rows (pos k) (line ∷ lines) in
    inr (
      subst (IsTail n (line ∷ lines))
        (sym (
          with_end_filled rt default rows (
            omega (
              arith,
              ap length (last_rows-drop k (line ∷ lines) least),
              drop-length (length (line ∷ lines) - k) (line ∷ lines),
            ))))
        (last_rows-IsTail n k (line ∷ lines) least most count))

merged_rows-last :
    (rt : Reader) (files : Files) (k : ℕ)
    → 1 ≤ k
    → merged_rows rt files k
      ≡ last_rows (pos k) (map (λ (e : Entry). e.text) (collected_entries rt files size_limit))
unfolding merged_rows
merged_rows-last rt files k least =
    let entries = collected_entries rt files size_limit in
    let f = λ (e : Entry). e.text in
    ap (map f) (last_rows-drop k entries least)
    ∙ (map-drop f (length entries - k) entries
        ∙ (ap (λ m. drop (m - k) (map f entries)) (sym (length-map f entries))
            ∙ sym (last_rows-drop k (map f entries) least)))

-- What the merged log shows of its lines.
pub merged_log-IsShown :
    (rt : Reader) (files : Files) (n : ℤ)
    → IsShown
        (codes "(no log entries available across modules)" ++ 10 ∷ [])
        n
        (map (λ (e : Entry). e.text) (collected_entries rt files size_limit))
        (merged_log rt files (row_count rt n))
unfolding merged_log
merged_log-IsShown rt files n =
    let k = row_count rt n in
    let (least, most) = row_count-bounds rt n in
    let default = codes "(no log entries available across modules)" ++ 10 ∷ [] in
    let lines = map (λ (e : Entry). e.text) (collected_entries rt files size_limit) in
    subst (λ rows. IsShown default n lines (with_end rt default rows))
      (sym (merged_rows-last rt files k least))
      (with_end-IsShown rt default n k lines least most (row_count-IsCount rt n))

-- What a single log shows of the lines that were read, if the file is there.
abbrev pub IsOneLog : Text → ℤ → Option (List Text) → Text → Type 0
IsOneLog src n none t = t ≡ codes "(no log for " ++ (src ++ (codes ")" ++ 10 ∷ []))
IsOneLog src n (some lines) t = IsTail n lines t

pub tail_of-IsOneLog :
    (rt : Reader) (src : Text) (n : ℤ) (lines : Option (List Text))
    → IsOneLog src n lines (tail_of rt src (row_count rt n) lines)
unfolding tail_of
tail_of-IsOneLog rt src n none = refl
tail_of-IsOneLog rt src n (some lines) =
    let (least, most) = row_count-bounds rt n in
    last_rows-IsTail n (row_count rt n) lines least most (row_count-IsCount rt n)
