-- ===== src/ServerUri.antt =====
-- `ss_uri` of src/panel/panel.py, with `base64.urlsafe_b64encode` of the standard library.
pub mod Decoded
pub mod Tests
use web_zapret.Base.{
  ℕ, ◌+◌, ◌-◌, ◌*◌, ◌/◌, ◌%◌, List, [], ◌∷◌, ◌++◌, ltb, ◌==◌, if◌then◌else◌, ℤ, pos,
}
use web_zapret.Text.{Text, codes}
use web_zapret.Value.{int_text}

-- The configured server: its method and password, the bytes of a text in UTF-8, and its port.
pub record Server : Type 0 where
  pub method : Text
  pub password : Text
  pub utf8 : Text → List ℕ
  pub port : ℤ

-- The character of six bits.
pub symbol : ℕ → ℕ
symbol n =
    if ltb n 26
    then n + 65
    else if ltb n 52
    then n + 71
    else if ltb n 62
    then n - 4
    else if n == 62
    then b'-'
    else b'_'

-- `base64.urlsafe_b64encode(bytes)` with no padding
unfoldable pub b64encode : List ℕ → Text
unfolding symbol
b64encode [] = []
b64encode (a ∷ []) = symbol (a / 4) ∷ symbol (a % 4 * 16) ∷ []
b64encode (a ∷ b ∷ []) = symbol (a / 4) ∷ symbol (a % 4 * 16 + b / 16) ∷ symbol (b % 16 * 4) ∷ []
b64encode (a ∷ b ∷ c ∷ rest) =
    symbol (a / 4)
    ∷ symbol (a % 4 * 16 + b / 16)
    ∷ symbol (b % 16 * 4 + c / 64)
    ∷ symbol (c % 64)
    ∷ b64encode rest

-- `"%s:%s" % (SS_METHOD, SS_PASSWORD)`
pub credentials : Server → Text
credentials s = s.method ++ (codes ":" ++ s.password)

-- `ss_uri(host)`
unfoldable pub ss_uri : Server → Text → Text
unfolding credentials
ss_uri s host =
    codes "ss://"
    ++ (b64encode (s.utf8 (credentials s))
        ++ (codes "@" ++ (host ++ (codes ":" ++ (int_text s.port ++ codes "#web_zapret2")))))
