-- ===== src/Strategy/Reasm.antt =====
-- The reassembly switches of `strategy_args`.
use web_zapret.Base.{
  Bool, true, false, not, List, [], ◌∷◌, ◌++◌, map, keep, ok, guard-eq-ok, >>=-eq-ok, ok_inj, ◌≡◌,
  refl, sym, ap, ◌∙◌, All, All-imp, not-true, keep_sound, keep-append, keep_none, keep-All,
}
use web_zapret.Text.{Text, codes, starts_with, split}
use web_zapret.Dict.{get_or}
use web_zapret.Value.{Value, null, nil, str, list, Dict, truthy, or_else, as_text}
use web_zapret.Strategy.{
  native_options, check_args, is_payload, reasm_disable, disable_args, with_no_reasm, scripts_of,
  strategy_args,
}

abbrev pub is_reasm : Text → Bool
is_reasm a = starts_with a reasm_disable

abbrev switch : Text → Text
switch p = reasm_disable ++ p

abbrev init_arg : Text → Text
init_arg s = codes "--lua-init=@" ++ s

abbrev pub payload_value : Dict → Value
payload_value entry =
    or_else (get_or (codes "no_reasm_payloads") null entry) (str (codes "tls_client_hello"))

disable_args_lem :
    (ps : List Text) {out : List Text}
    → disable_args ps ≡ ok out
    → (out ≡ map switch ps) × All (λ p. is_payload p ≡ true) ps
unfolding disable_args
disable_args_lem [] h = (sym (ok_inj h), tt)
disable_args_lem (p ∷ ps) h =
    let (good, tail) = guard-eq-ok (is_payload p) _ _ h in
    let (rest, done, same_out) = >>=-eq-ok (disable_args ps) _ tail in
    let (same_rest, goods) = disable_args_lem ps done in
    (sym (ok_inj same_out) ∙ ap (λ l. switch p ∷ l) same_rest, (good, goods))

switch-is_reasm : (ps : List Text) → All (λ a. is_reasm a ≡ true) (map switch ps)
unfolding starts_with
switch-is_reasm [] = tt
switch-is_reasm (p ∷ ps) = (refl, switch-is_reasm ps)

init-not-is_reasm : (ss : List Text) → All (λ a. is_reasm a ≡ false) (map init_arg ss)
unfolding starts_with
init-not-is_reasm [] = tt
init-not-is_reasm (s ∷ ss) = (refl, init-not-is_reasm ss)

with_no_reasm-eq :
    (entry : Dict) (args : List Text) (payloads : Text) {out : List Text}
    → truthy (get_or (codes "no_reasm") null entry) ≡ true
    → as_text (payload_value entry) ≡ ok payloads
    → with_no_reasm entry args ≡ ok out
    → (out ≡ keep (λ a. not (is_reasm a)) args ++ map switch (split b',' payloads))
      × All (λ p. is_payload p ≡ true) (split b',' payloads)
unfolding with_no_reasm
with_no_reasm-eq entry args payloads on read h =
    let (disabled, done, same_out) =
      >>=-eq-ok (disable_args (split b',' payloads)) _ (rw (on, read) at h) in
    let (same_disabled, goods) = disable_args_lem (split b',' payloads) done in
    (sym (ok_inj same_out) ∙ ap (λ l. keep (λ a. not (is_reasm a)) args ++ l) same_disabled, goods)

not_reasm : (a : Text) → not (is_reasm a) ≡ true → is_reasm a ≡ false
not_reasm a h = not-true (is_reasm a) h

-- Behind script arguments and the arguments that are kept, only the new switches are switches.
keep_switches :
    (ss args ps : List Text)
    → keep is_reasm (map init_arg ss ++ (keep (λ a. not (is_reasm a)) args ++ map switch ps))
      ≡ map switch ps
keep_switches ss args ps =
    keep-append is_reasm (map init_arg ss) _
    ∙ ap (λ l. l ++ keep is_reasm (keep (λ a. not (is_reasm a)) args ++ map switch ps))
        (keep_none is_reasm _ (init-not-is_reasm ss))
    ∙ keep-append is_reasm (keep (λ a. not (is_reasm a)) args) (map switch ps)
    ∙ ap (λ l. l ++ keep is_reasm (map switch ps))
        (keep_none is_reasm _ (All-imp not_reasm _ (keep_sound (λ a. not (is_reasm a)) args)))
    ∙ keep-All is_reasm _ (switch-is_reasm ps)

-- With a truthy `no_reasm`, the switches `--reasm-disable=` of the rendered arguments are exactly one
-- for each payload of `no_reasm_payloads` (`tls_client_hello` if that is not given), in that order,
-- whatever switches the strategy text held; and every payload is a word over `[a-z0-9_]`.
pub strategy_args-switches :
    (entry : Dict) (payloads : Text) (out : List Text)
    → truthy (get_or (codes "no_reasm") null entry) ≡ true
    → as_text (payload_value entry) ≡ ok payloads
    → strategy_args entry ≡ ok out
    → (keep is_reasm out ≡ map (λ p. reasm_disable ++ p) (split b',' payloads))
      × All (λ p. is_payload p ≡ true) (split b',' payloads)
unfolding strategy_args
strategy_args-switches entry payloads out on read h =
    let (text, _, h₁) = >>=-eq-ok (as_text _) _ h in
    let (args, _, h₂) = >>=-eq-ok (native_options text _) _ h₁ in
    let (_, _, h₃) = >>=-eq-ok (check_args args) _ h₂ in
    let (args', reasm, h₄) = >>=-eq-ok (with_no_reasm entry args) _ h₃ in
    let (scripts, _, h₅) =
      >>=-eq-ok (scripts_of (get_or (codes "lua_init") (list nil) entry)) _ h₄ in
    let (same_args, goods) = with_no_reasm-eq entry args payloads on read reasm in
    (
      ap (keep is_reasm) (sym (ok_inj h₅) ∙ ap (λ l. map init_arg scripts ++ l) same_args)
          ∙ keep_switches scripts args (split b',' payloads),
      goods,
    )
