-- ===== src/Strategy.antt =====
-- src/strategy.py: rendering a catalog entry as the argument list of nfqws2.
pub mod Legacy
pub mod Admissible
pub mod Reasm
pub mod Tests
use web_zapret.Base.{
  ℕ, Bool, true, false, not, ◌&&◌, ◌||◌, List, [], ◌∷◌, ◌++◌, map, any, all, keep, leb, ◌==◌,
  Result, ok, err, value_error, value_error_repr, guard, ◌>>=◌, ◌>>◌, if◌then◌else◌,
}
use web_zapret.Text.{
  Text, codes, same, one_of, starts_with, contains, has_char, split, before, after, join, last_part,
  upper,
}
use web_zapret.Text.Shlex.{shlex_split}
use web_zapret.Dict.{get_or}
use web_zapret.Value.{Value, null, str, list, nil, Dict, truthy, or_else, as_text, elems}

abbrev pub dpi_desync : Text
dpi_desync = codes "--dpi-desync"

abbrev pub is_legacy : Text → Bool
is_legacy a = starts_with a dpi_desync

abbrev pub is_native : Text → Bool
is_native a = starts_with a (codes "--lua-desync=") || starts_with a (codes "--payload=")

-- the filter that is put before a native strategy with none
filter_for : Text → Text
filter_for proto =
    if contains proto (codes "QUIC") || contains proto (codes "UDP")
    then codes "--filter-udp=443"
    else if starts_with proto (codes "HTTP")
        && not (starts_with proto (codes "HTTPS"))
        && not (contains proto (codes "TLS"))
    then codes "--filter-tcp=80"
    else codes "--filter-tcp=443"

-- the first branch of `native_options`
with_filter : List Text → Value → Result (List Text)
unfolding filter_for
with_filter args protocol =
    if truthy protocol && not (any (λ a. starts_with a (codes "--filter-")) args)
    then (as_text protocol >>= λ proto. ok (filter_for (upper proto) ∷ args))
    else ok args

-- an argument before the first profile
push_arg : Text → List (List Text) → List (List Text)
push_arg a [] = (a ∷ []) ∷ []
push_arg a (p ∷ ps) = (a ∷ p) ∷ ps

-- The profiles between the arguments `--new`.
profiles : List Text → List (List Text)
unfolding push_arg
profiles [] = [] ∷ []
profiles (a ∷ args) =
    let rest = profiles args in if same a (codes "--new") then [] ∷ rest else push_arg a rest

-- What the loop over a profile's arguments gathers.
pub record Options : Type 0 where
  pub modes : List Text
  pub split_pos : Text
  pub repeats : Text
  pub fooling : List Text

abbrev no_options : Options
no_options = record { modes = []; split_pos = codes "2"; repeats = codes "1"; fooling = [] }

scan_option : Options → Text → Result Options
scan_option o arg =
    let key = before b'=' arg in
    let value = after b'=' arg in
    if same key dpi_desync
    then ok (record o { modes = o.modes ++ split b',' value })
    else if same key (codes "--dpi-desync-split-pos")
    then ok (record o { split_pos = value })
    else if same key (codes "--dpi-desync-repeats")
    then ok (record o { repeats = value })
    else if same key (codes "--dpi-desync-fooling")
    then ok (record o { fooling = split b',' value })
    else if starts_with key dpi_desync
    then err (value_error (codes "Unsupported legacy option: " ++ key))
    else ok o

scan_options : Options → List Text → Result Options
unfolding scan_option
scan_options o [] = ok o
scan_options o (arg ∷ args) = scan_option o arg >>= λ next. scan_options next args

-- `{"split": "multisplit", "disorder": "multidisorder"}.get(mode, mode)`
renamed : Text → Text
renamed mode =
    if same mode (codes "split")
    then codes "multisplit"
    else if same mode (codes "disorder")
    then codes "multidisorder"
    else mode

abbrev only_if : Bool → List Text → List Text
only_if b parts = if b then parts else []

-- `spec` of the modes that send fakes
fake_spec : Options → Text → Text → List Text
fake_spec o blob mode =
    mode
    ∷ (codes "repeats=" ++ o.repeats)
    ∷ (if same mode (codes "fake")
        then codes "blob=fake_default_" ++ blob
        else codes "pos=" ++ last_part (split b',' o.split_pos))
    ∷ (only_if (one_of (codes "md5sig") o.fooling) (codes "tcp_md5" ∷ [])
        ++ (only_if (one_of (codes "badseq") o.fooling)
              (codes "tcp_seq=-10000" ∷ codes "tcp_ack=-66000" ∷ [])
            ++ only_if (one_of (codes "ts") o.fooling) (codes "tcp_ts=-600000" ∷ [])))

abbrev known_fooling : List Text
known_fooling = codes "md5sig" ∷ codes "badseq" ∷ codes "ts" ∷ []

-- one round of the loop over the modes: the argument that it appends
render_mode : Options → Text → Text → Result Text
unfolding fake_spec
render_mode o blob mode =
    if one_of mode (codes "fake" ∷ codes "fakedsplit" ∷ [])
    then (do
      guard (all (λ f. one_of f known_fooling) o.fooling)
          (value_error (codes "Unsupported legacy fooling"))
      ok (codes "--lua-desync=" ++ join (codes ":") (fake_spec o blob mode)))
    else if one_of mode (codes "multisplit" ∷ codes "multidisorder" ∷ [])
    then ok (codes "--lua-desync=" ++ (mode ++ (codes ":pos=" ++ o.split_pos)))
    else err (value_error (codes "Unsupported legacy mode: " ++ mode))

render_modes : Options → Text → List Text → Result (List Text)
unfolding render_mode renamed
render_modes o blob [] = ok []
render_modes o blob (mode ∷ modes) = do
  arg ← render_mode o blob (renamed mode)
  rest ← render_modes o blob modes
  ok (arg ∷ rest)

-- `payload, blob` of a profile's filters
payload_of : List Text → Text × Text
payload_of filters =
    if any (λ a. starts_with a (codes "--filter-udp=")) filters
    then (codes "quic_initial", codes "quic")
    else if one_of (codes "--filter-tcp=80") filters
    then (codes "http_req", codes "http")
    else (codes "tls_client_hello", codes "tls")

abbrev separator : List Text → List Text
separator [] = []
separator (_ ∷ _) = codes "--new" ∷ []

-- what a profile with filters appends to `result`
convert_filters : List Text → List Text → List Text → Result (List Text)
unfolding payload_of scan_options render_modes
convert_filters result profile filters = do
  let (payload, blob) = payload_of filters
  o ← scan_options no_options profile
  rendered ← render_modes o blob o.modes
  ok (result ++ (separator result ++ (filters ++ ((codes "--payload=" ++ payload) ∷ rendered))))

-- `if not filters: continue`
unless_empty : List Text → List Text → List Text → Result (List Text)
unfolding convert_filters
unless_empty result profile [] = ok result
unless_empty result profile (f ∷ fs) = convert_filters result profile (f ∷ fs)

convert_profile : List Text → List Text → Result (List Text)
unfolding unless_empty
convert_profile result profile = unless_empty result profile (keep (λ a. not (is_legacy a)) profile)

convert : List Text → List (List Text) → Result (List Text)
unfolding convert_profile
convert result [] = ok result
convert result (p ∷ ps) = convert_profile result p >>= λ next. convert next ps

-- `native_options` behind `shlex.split`
options_of : List Text → Value → Result (List Text)
unfolding with_filter convert profiles
options_of [] protocol = ok []
options_of (a ∷ args) protocol =
    if any is_native (a ∷ args) || not (any is_legacy (a ∷ args))
    then with_filter (a ∷ args) protocol
    else convert [] (profiles (a ∷ args))

pub native_options : Text → Value → Result (List Text)
unfolding options_of shlex_split
native_options text protocol = shlex_split text >>= λ args. options_of args protocol

abbrev pub denied : List Text
denied =
    codes "--qnum"
    ∷ codes "--fwmark"
    ∷ codes "--daemon"
    ∷ codes "--pidfile"
    ∷ codes "--intercept"
    ∷ codes "--dry-run"
    ∷ codes "--version"
    ∷ codes "--chdir"
    ∷ []

-- the negated test of the loop over the arguments
is_admissible : Text → Bool
is_admissible a =
    not (has_char 0 a) && starts_with a (codes "--") && not (one_of (before b'=' a) denied)

check_args : List Text → Result (Unit {0})
unfolding is_admissible
check_args [] = ok tt
check_args (a ∷ args) = do
  guard (is_admissible a) (value_error (codes "Invalid strategy argument: " ++ a))
  check_args args

-- `[a-z0-9_]`
is_payload_char : ℕ → Bool
is_payload_char c = (leb b'a' c && leb c b'z') || (leb b'0' c && leb c b'9') || c == b'_'

pub is_payload : Text → Bool
unfolding is_payload_char
is_payload [] = false
is_payload (c ∷ p) = all is_payload_char (c ∷ p)

abbrev pub reasm_disable : Text
reasm_disable = codes "--reasm-disable="

disable_args : List Text → Result (List Text)
unfolding is_payload
disable_args [] = ok []
disable_args (p ∷ ps) = do
  guard (is_payload p) (value_error_repr (codes "Invalid no_reasm_payloads token: ") p)
  rest ← disable_args ps
  ok ((reasm_disable ++ p) ∷ rest)

-- `if entry.get("no_reasm"): …`
with_no_reasm : Dict → List Text → Result (List Text)
unfolding disable_args
with_no_reasm entry args =
    if truthy (get_or (codes "no_reasm") null entry)
    then (do
      payloads ←
          as_text (
            or_else (get_or (codes "no_reasm_payloads") null entry)
              (str (codes "tls_client_hello")))
      disabled ← disable_args (split b',' payloads)
      ok (keep (λ a. not (starts_with a reasm_disable)) args ++ disabled))
    else ok args

abbrev bad_scripts : Text
bad_scripts = codes "lua_init must be a list of absolute container file paths"

script_list : List Value → Result (List Text)
script_list [] = ok []
script_list (str s ∷ vs) = do
  guard (starts_with s (codes "/") && not (has_char 0 s)) (value_error bad_scripts)
  rest ← script_list vs
  ok (s ∷ rest)
script_list (_ ∷ vs) = err (value_error bad_scripts)

scripts_of : Value → Result (List Text)
unfolding script_list elems
scripts_of (list vs) = script_list (elems vs)
scripts_of _ = err (value_error bad_scripts)

pub strategy_args : Dict → Result (List Text)
unfolding check_args with_no_reasm scripts_of
strategy_args entry = do
  text ←
      as_text
        (or_else (get_or (codes "lua_opt") null entry) (get_or (codes "nfqws_opt") (str []) entry))
  args ← native_options text (get_or (codes "protocol") (str []) entry)
  check_args args
  args' ← with_no_reasm entry args
  scripts ← scripts_of (get_or (codes "lua_init") (list nil) entry)
  ok (map (λ s. codes "--lua-init=@" ++ s) scripts ++ args')
