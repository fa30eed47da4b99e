-- ===== src/ServerUri/Tests.antt =====
-- A URI and what it decodes to.
use web_zapret.Base.{◌≡◌, refl, arith, pos}
use web_zapret.Text.{codes, before}
use web_zapret.Text.Decimal.{decimal}
use web_zapret.Value.{int_text}
use web_zapret.Logs.{drop}
use web_zapret.ServerUri.{Server, credentials, ss_uri, b64encode}
use web_zapret.ServerUri.Decoded.{b64decode, ss_uri_decoded}

abbrev pub server : Server
server = record { method = codes "aes"; password = codes "p"; utf8 = λ t. t; port = pos 8388 }

ss_uri_test : ss_uri server (codes "h") ≡ codes "ss://YWVzOnA@h:8388#web_zapret2"
unfolding ss_uri b64encode int_text decimal
ss_uri_test = refl

ss_uri_decoded_example :
    b64decode (before b'@' (drop 5 (ss_uri server (codes "h")))) ≡ credentials server
unfolding credentials
ss_uri_decoded_example = ss_uri_decoded server (codes "h") (omega arith)
