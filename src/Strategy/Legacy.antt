-- ===== src/Strategy/Legacy.antt =====
-- The conversion of strategies in the old `--dpi-desync` format.
use web_zapret.Base.{
  true, false, not, ◌&&◌, List, [], ◌∷◌, ◌++◌, any, all, ok, guard-eq-ok, >>=-eq-ok, ok_inj, ◌≡◌,
  refl, subst, All, All-imp, All-append, keep_sound, not-true, any-false, Bool-cases, if_both, inl,
  inr,
}
use web_zapret.Text.{Text, codes, starts_with, upper, one_of}
use web_zapret.Value.{Value, truthy, as_text}
use web_zapret.Text.Shlex.{shlex_split}
use web_zapret.Strategy.{
  is_legacy, is_native, filter_for, with_filter, profiles, Options, no_options, scan_options,
  known_fooling, render_mode, renamed, render_modes, payload_of, separator, convert_filters,
  unless_empty, convert_profile, convert, options_of, native_options,
}

-- An argument of the present format.
abbrev pub IsModern : Text → Type 0
IsModern a = is_legacy a ≡ false

render_mode-IsModern :
    (o : Options) (blob mode : Text) {out : Text} → render_mode o blob mode ≡ ok out → IsModern out
unfolding render_mode starts_with
render_mode-IsModern o blob mode h =
    elim (Bool-cases (one_of mode (codes "fake" ∷ codes "fakedsplit" ∷ []))) [
      | inl fake ↦
          let (_, same_out) =
            guard-eq-ok (all (λ f. one_of f known_fooling) o.fooling) _ _ (rw fake at h) in
          subst IsModern (ok_inj same_out) refl
      | inr other ↦
          elim (Bool-cases (one_of mode (codes "multisplit" ∷ codes "multidisorder" ∷ []))) [
            | inl multi ↦ subst IsModern (ok_inj (rw (other, multi) at h)) refl
            | inr unknown ↦ cc (rw (other, unknown) at h)
          ]
    ]

render_modes-IsModern :
    (o : Options) (blob : Text) (modes : List Text) {out : List Text}
    → render_modes o blob modes ≡ ok out
    → All IsModern out
unfolding render_modes
render_modes-IsModern o blob [] h = subst (All IsModern) (ok_inj h) tt
render_modes-IsModern o blob (mode ∷ modes) h =
    let (arg, one, h₁) = >>=-eq-ok (render_mode o blob (renamed mode)) _ h in
    let (rest, more, h₂) = >>=-eq-ok (render_modes o blob modes) _ h₁ in
    subst (All IsModern) (ok_inj h₂)
      (render_mode-IsModern o blob (renamed mode) one, render_modes-IsModern o blob modes more)

separator-IsModern : (result : List Text) → All IsModern (separator result)
unfolding starts_with
separator-IsModern [] = tt
separator-IsModern (_ ∷ _) = (refl, tt)

convert_filters-IsModern :
    (result profile filters : List Text) {out : List Text}
    → All IsModern result
    → All IsModern filters
    → convert_filters result profile filters ≡ ok out
    → All IsModern out
unfolding convert_filters starts_with
convert_filters-IsModern result profile filters old new h =
    let (o, _, h₁) = >>=-eq-ok (scan_options no_options profile) _ h in
    let blob = (payload_of filters).1 in
    let (rendered, done, h₂) = >>=-eq-ok (render_modes o blob o.modes) _ h₁ in
    let options : All IsModern ((codes "--payload=" ++ (payload_of filters).0) ∷ rendered) =
      (refl, render_modes-IsModern o blob o.modes done) in
    subst (All IsModern) (ok_inj h₂) (
      All-append IsModern result _ old (
        All-append IsModern (separator result) _ (separator-IsModern result)
          (All-append IsModern filters _ new options)))

unless_empty-IsModern :
    (result profile filters : List Text) {out : List Text}
    → All IsModern result
    → All IsModern filters
    → unless_empty result profile filters ≡ ok out
    → All IsModern out
unfolding unless_empty
unless_empty-IsModern result profile [] old new h = subst (All IsModern) (ok_inj h) old
unless_empty-IsModern result profile (f ∷ fs) old new h =
    convert_filters-IsModern result profile (f ∷ fs) old new h

not_legacy : (a : Text) → not (is_legacy a) ≡ true → IsModern a
not_legacy a h = not-true (is_legacy a) h

convert_profile-IsModern :
    (result profile : List Text) {out : List Text}
    → All IsModern result
    → convert_profile result profile ≡ ok out
    → All IsModern out
unfolding convert_profile
convert_profile-IsModern result profile old h =
    unless_empty-IsModern result profile _ old
      (All-imp not_legacy _ (keep_sound (λ a. not (is_legacy a)) profile)) h

convert-IsModern :
    (result : List Text) (ps : List (List Text)) {out : List Text}
    → All IsModern result
    → convert result ps ≡ ok out
    → All IsModern out
unfolding convert
convert-IsModern result [] old h = subst (All IsModern) (ok_inj h) old
convert-IsModern result (p ∷ ps) old h =
    let (next, one, more) = >>=-eq-ok (convert_profile result p) _ h in
    convert-IsModern next ps (convert_profile-IsModern result p old one) more

filter_for_cases :
    (P : Text → Type 0) (proto : Text)
    → P (codes "--filter-udp=443")
    → P (codes "--filter-tcp=80")
    → P (codes "--filter-tcp=443")
    → P (filter_for proto)
unfolding filter_for
filter_for_cases P proto quic http https = if_both P _ quic (if_both P _ http https)

filter_for-IsModern : (proto : Text) → IsModern (filter_for proto)
unfolding starts_with
filter_for-IsModern proto = filter_for_cases IsModern proto refl refl refl

with_filter-IsModern :
    (args : List Text) (protocol : Value) {out : List Text}
    → All IsModern args
    → with_filter args protocol ≡ ok out
    → All IsModern out
unfolding with_filter
with_filter-IsModern args protocol old h =
    elim (Bool-cases (truthy protocol && not (any (λ a. starts_with a (codes "--filter-")) args))) [
      | inl on ↦
          let (proto, _, same_out) = >>=-eq-ok (as_text protocol) _ (rw on at h) in
          subst (All IsModern) (ok_inj same_out) (filter_for-IsModern (upper proto), old)
      | inr off ↦ subst (All IsModern) (ok_inj (rw off at h)) old
    ]

options_of-IsModern :
    (args : List Text) (protocol : Value) {out : List Text}
    → any is_native args ≡ false
    → options_of args protocol ≡ ok out
    → All IsModern out
unfolding options_of
options_of-IsModern [] protocol foreign h = subst (All IsModern) (ok_inj h) tt
options_of-IsModern (a ∷ args) protocol foreign h = elim (Bool-cases (any is_legacy (a ∷ args))) [
  | inl old ↦ convert-IsModern [] (profiles (a ∷ args)) tt (rw (foreign, old) at h)
  | inr new ↦
      with_filter-IsModern (a ∷ args) protocol (any-false is_legacy (a ∷ args) new)
        (rw (foreign, new) at h)
]

-- A strategy that has no native desync option is rendered with no `--dpi-desync` option left: an
-- option of the old format is converted or refused, never passed through.
pub native_options-IsModern :
    (text : Text) (protocol : Value) (args out : List Text)
    → shlex_split text ≡ ok args
    → any is_native args ≡ false
    → native_options text protocol ≡ ok out
    → All IsModern out
unfolding native_options
native_options-IsModern text protocol args out lexed foreign h =
    options_of-IsModern args protocol foreign (rw lexed at h)
