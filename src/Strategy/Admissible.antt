-- ===== src/Strategy/Admissible.antt =====
-- What `strategy_args` hands to nfqws2, whatever the entry.
use web_zapret.Base.{
  true, false, not, ◌&&◌, List, [], ◌∷◌, ◌++◌, map, keep, ok, guard-eq-ok, >>=-eq-ok, ok_inj, ◌≡◌,
  refl, subst, arith, All, All-append, All-keep, all, Bool-cases, inl, inr,
}
use web_zapret.Text.{Text, codes, one_of, starts_with, has_char, before, split}
use web_zapret.Dict.{get_or}
use web_zapret.Value.{Value, null, nil, str, list, Dict, truthy, as_text, elems}
use web_zapret.Strategy.{
  denied, native_options, is_admissible, check_args, is_payload_char, is_payload, reasm_disable,
  disable_args, with_no_reasm, script_list, scripts_of, strategy_args,
}

-- An option of nfqws2 that takes nothing over that the gateway decides.
pub record IsAdmissible (a : Text) : Type 0 where
  pub is_option : starts_with a (codes "--") ≡ true
  pub no_nul : has_char 0 a ≡ false
  pub not_denied : one_of (before b'=' a) denied ≡ false

is_admissible_sound : (a : Text) → is_admissible a ≡ true → IsAdmissible a
unfolding is_admissible
is_admissible_sound a h = record {
  is_option = ground arith;
  no_nul = ground arith;
  not_denied = ground arith;
}

check_args_sound :
    (args : List Text) {u : Unit {0}} → check_args args ≡ ok u → All IsAdmissible args
unfolding check_args
check_args_sound [] h = tt
check_args_sound (a ∷ args) h =
    let (good, rest) = guard-eq-ok (is_admissible a) _ (check_args args) h in
    (is_admissible_sound a good, check_args_sound args rest)

payload-no_nul : (p : Text) → all is_payload_char p ≡ true → has_char 0 p ≡ false
unfolding is_payload_char has_char
payload-no_nul [] h = refl
payload-no_nul (c ∷ p) h = ground (arith, payload-no_nul p)

disable_arg-IsAdmissible : (p : Text) → is_payload p ≡ true → IsAdmissible (reasm_disable ++ p)
unfolding is_payload starts_with has_char before one_of
disable_arg-IsAdmissible [] h = cc
disable_arg-IsAdmissible (c ∷ p) h = record {
  is_option = refl;
  no_nul = payload-no_nul (c ∷ p) h;
  not_denied = refl;
}

disable_args-IsAdmissible :
    (ps : List Text) {out : List Text} → disable_args ps ≡ ok out → All IsAdmissible out
unfolding disable_args
disable_args-IsAdmissible [] h = rw (← ok_inj h) tt
disable_args-IsAdmissible (p ∷ ps) h =
    let (good, tail) = guard-eq-ok (is_payload p) _ _ h in
    let (rest, done, same_out) = >>=-eq-ok (disable_args ps) _ tail in
    rw (← ok_inj same_out) (disable_arg-IsAdmissible p good, disable_args-IsAdmissible ps done)

with_no_reasm-IsAdmissible :
    (entry : Dict) (args : List Text) {out : List Text}
    → All IsAdmissible args
    → with_no_reasm entry args ≡ ok out
    → All IsAdmissible out
unfolding with_no_reasm
with_no_reasm-IsAdmissible entry args good h =
    elim (Bool-cases (truthy (get_or (codes "no_reasm") null entry))) [
      | inl on ↦
          let (text, _, h') = >>=-eq-ok (as_text _) _ (rw on at h) in
          let (disabled, done, h'') = >>=-eq-ok (disable_args (split b',' text)) _ h' in
          rw (← ok_inj h'') (
            All-append IsAdmissible (keep (λ a. not (starts_with a reasm_disable)) args) disabled
              (All-keep IsAdmissible _ args good)
              (disable_args-IsAdmissible (split b',' text) done))
      | inr off ↦ rw (← ok_inj (rw off at h)) good
    ]

-- A script path of `lua_init`.
abbrev pub IsScript : Text → Type 0
IsScript s = (starts_with s (codes "/") ≡ true) × (has_char 0 s ≡ false)

script_list-IsScript :
    (vs : List Value) {out : List Text} → script_list vs ≡ ok out → All IsScript out
unfolding script_list
script_list-IsScript [] h = rw (← ok_inj h) tt
script_list-IsScript (str s ∷ vs) h =
    let (good, tail) = guard-eq-ok (starts_with s (codes "/") && not (has_char 0 s)) _ _ h in
    let (rest, done, same_out) = >>=-eq-ok (script_list vs) _ tail in
    rw (← ok_inj same_out) ((ground arith, ground arith), script_list-IsScript vs done)
script_list-IsScript (_ ∷ vs) h = cc

scripts_of-IsScript : (v : Value) {out : List Text} → scripts_of v ≡ ok out → All IsScript out
unfolding scripts_of
scripts_of-IsScript (list vs) h = script_list-IsScript (elems vs) h
scripts_of-IsScript _ h = cc

abbrev init_arg : Text → Text
init_arg s = codes "--lua-init=@" ++ s

init_args-IsAdmissible : (ss : List Text) → All IsScript ss → All IsAdmissible (map init_arg ss)
unfolding starts_with has_char before one_of
init_args-IsAdmissible [] h = tt
init_args-IsAdmissible (s ∷ ss) ((_, no_nul), h) =
    (record { is_option = refl; no_nul = no_nul; not_denied = refl }, init_args-IsAdmissible ss h)

-- Every argument that a catalog entry is rendered to starts with "--", holds no NUL and is none of
-- the eight options that would take the queue, the mark or the identity of nfqws2 over.
pub strategy_args-IsAdmissible :
    (entry : Dict) (out : List Text) → strategy_args entry ≡ ok out → All IsAdmissible out
unfolding strategy_args
strategy_args-IsAdmissible entry out h =
    let (text, _, h₁) = >>=-eq-ok (as_text _) _ h in
    let (args, _, h₂) = >>=-eq-ok (native_options text _) _ h₁ in
    let (_, checked, h₃) = >>=-eq-ok (check_args args) _ h₂ in
    let (args', reasm, h₄) = >>=-eq-ok (with_no_reasm entry args) _ h₃ in
    let (scripts, read, h₅) =
      >>=-eq-ok (scripts_of (get_or (codes "lua_init") (list nil) entry)) _ h₄ in
    subst (All IsAdmissible) (ok_inj h₅) (
      All-append IsAdmissible (map init_arg scripts) args'
        (init_args-IsAdmissible scripts
          (scripts_of-IsScript (get_or (codes "lua_init") (list nil) entry) read))
        (with_no_reasm-IsAdmissible entry args (check_args_sound args checked) reasm))
