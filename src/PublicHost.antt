-- ===== src/PublicHost.antt =====
-- `detect_public_host` of src/panel/panel.py, with its cache.
pub mod Detected
pub mod Tests
use web_zapret.Base.{
  ℕ, ◌+◌, ◌*◌, Bool, true, false, not, ◌&&◌, List, [], ◌∷◌, all, length, ltb, leb, ◌==◌, Option,
  none, some, if◌then◌else◌,
}
use web_zapret.Text.{Text, codes, split}

-- `_IP_CACHE`, its time in ticks
pub record Cache : Type 0 where
  pub host : Text
  pub source : Text
  pub ts : ℕ

-- What a call meets: the time, what the echo services answer, in the order in which they are asked, none
-- where a request fails, and the local address, none where that fails.
pub record Call : Type 0 where
  pub now : ℕ
  pub echoes : List (Option Text)
  pub local_host : Option Text

-- the host and its source
abbrev pub Reply : Type 0
Reply = Text × Text

is_digits : Text → Bool
is_digits s = leb 1 (length s) && (leb (length s) 3 && all (λ c. leb b'0' c && leb c b'9') s)

-- `re.fullmatch(r"\\d{1,3}(?:\\.\\d{1,3}){3}", t)` of an ASCII text
unfoldable pub is_address : Text → Bool
unfolding is_digits split
is_address t = let parts = split b'.' t in length parts == 4 && all is_digits parts

-- The loop over the services.
pub first_echo : List (Option Text) → Option Text
first_echo [] = none
first_echo (none ∷ rest) = first_echo rest
first_echo (some t ∷ rest) = let next = first_echo rest in if is_address t then some t else next

pub is_empty : Text → Bool
is_empty [] = true
is_empty (c ∷ s) = false

-- `if not host: …`
local_reply : Option Text → Reply
unfolding is_empty
local_reply none = ([], [])
local_reply (some h) = (h, if is_empty h then [] else codes "local")

reply_of : Option Text → Option Text → Reply
unfolding local_reply
reply_of none local_host = local_reply local_host
reply_of (some t) local_host = (t, codes "auto")

-- `host, source` behind the two early returns
pub detected : Call → Reply
unfolding first_echo reply_of
detected c = reply_of (first_echo c.echoes) c.local_host

-- `if host: _IP_CACHE.update(…)`
store : Cache → Call → Reply → Cache
store cache c (host, source) =
    if is_empty host then cache else record { host = host; source = source; ts = c.now }

-- `detect_public_host()`, where `env` is PUBLIC_HOST and a second has `unit` ticks
pub detect_public_host : Text → ℕ → Cache → Call → Reply × Cache
unfolding detected store
detect_public_host env unit cache c =
    if not (is_empty env)
    then ((env, codes "env"), cache)
    else if not (is_empty cache.host) && ltb c.now (cache.ts + 600 * unit)
    then ((cache.host, cache.source), cache)
    else (detected c, store cache c (detected c))

abbrev pub no_cache : Cache
no_cache = record { host = []; source = []; ts = 0 }

-- The replies to calls that follow each other.
unfoldable pub replies : Text → ℕ → Cache → List Call → List Reply
unfolding detect_public_host
replies env unit cache [] = []
replies env unit cache (c ∷ cs) =
    let (reply, next) = detect_public_host env unit cache c in reply ∷ replies env unit next cs
