-- ===== src/Strategy/Tests.antt =====
-- Runs of the renderer on the inputs of tests/test_strategy.py.
use web_zapret.Base.{List, [], ◌∷◌, ◌++◌, ◌≡◌, refl, map, keep, All, ok, err, value_error, true}
use web_zapret.Text.{Text, codes, split, text_methods}
use web_zapret.Dict.{get_or}
use web_zapret.Value.{bool, str, list, nil, cons, Dict, value_methods}
use web_zapret.Strategy.{native_options, strategy_args, is_payload, reasm_disable}
use web_zapret.Strategy.Admissible.{IsAdmissible, strategy_args-IsAdmissible}
use web_zapret.Strategy.Reasm.{is_reasm, strategy_args-switches}
use web_zapret.Strategy.Legacy.{IsModern, native_options-IsModern}

protocol_test :
    native_options (codes "--lua-desync=pass") (str (codes "HTTP"))
    ≡ ok (codes "--filter-tcp=80" ∷ codes "--lua-desync=pass" ∷ [])
unfolding native_options text_methods value_methods
protocol_test = refl

legacy_test :
    native_options
      (codes "--filter-udp=443 --dpi-desync=fake,split --dpi-desync-repeats=6 --new --x")
      (str [])
    ≡ ok (
        codes "--filter-udp=443"
        ∷ codes "--payload=quic_initial"
        ∷ codes "--lua-desync=fake:repeats=6:blob=fake_default_quic"
        ∷ codes "--lua-desync=multisplit:pos=2"
        ∷ codes "--new"
        ∷ codes "--x"
        ∷ codes "--payload=tls_client_hello"
        ∷ [])
unfolding native_options text_methods value_methods
legacy_test = refl

abbrev entry : Dict
entry =
    (codes "no_reasm", bool true)
    ∷ (codes "lua_init", list (cons (str (codes "/opt/webzapret/lua/zapret-lib.lua")) nil))
    ∷ (codes "lua_opt", str (codes "--filter-tcp=443 --payload=tls_client_hello --lua-desync=fake"))
    ∷ []

abbrev rendered : List Text
rendered =
    codes "--lua-init=@/opt/webzapret/lua/zapret-lib.lua"
    ∷ codes "--filter-tcp=443"
    ∷ codes "--payload=tls_client_hello"
    ∷ codes "--lua-desync=fake"
    ∷ codes "--reasm-disable=tls_client_hello"
    ∷ []

entry_test : strategy_args entry ≡ ok rendered
unfolding strategy_args native_options text_methods value_methods get_or
entry_test = refl

denied_test :
    strategy_args ((codes "lua_opt", str (codes "--qnum=9")) ∷ [])
    ≡ err (value_error (codes "Invalid strategy argument: --qnum=9"))
unfolding strategy_args native_options text_methods value_methods get_or
denied_test = refl

strategy_args-IsAdmissible_example : All IsAdmissible rendered
strategy_args-IsAdmissible_example = strategy_args-IsAdmissible entry rendered entry_test

strategy_args-switches_example :
    (keep is_reasm rendered ≡ map (λ p. reasm_disable ++ p) (split b',' (codes "tls_client_hello")))
    × All (λ p. is_payload p ≡ true) (split b',' (codes "tls_client_hello"))
unfolding value_methods get_or text_methods
strategy_args-switches_example =
    strategy_args-switches entry (codes "tls_client_hello") rendered refl refl entry_test

abbrev legacy_args : List Text
legacy_args =
    codes "--filter-tcp=80" ∷ codes "--dpi-desync=split" ∷ codes "--dpi-desync-split-pos=4" ∷ []

abbrev modern_args : List Text
modern_args =
    codes "--filter-tcp=80"
    ∷ codes "--payload=http_req"
    ∷ codes "--lua-desync=multisplit:pos=4"
    ∷ []

native_options-IsModern_example : All IsModern modern_args
unfolding native_options text_methods value_methods
native_options-IsModern_example =
    native_options-IsModern (codes "--filter-tcp=80 --dpi-desync=split --dpi-desync-split-pos=4")
      (str []) legacy_args modern_args refl refl refl
