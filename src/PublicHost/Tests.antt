-- ===== src/PublicHost/Tests.antt =====
-- A call that finds an address, one that is answered from the cache, and one behind its end.
use web_zapret.Base.{◌≡◌, refl, List, [], ◌∷◌, none, some, arith}
use web_zapret.Text.{codes, split}
use web_zapret.PublicHost.{Call, no_cache, replies, is_address}
use web_zapret.PublicHost.Detected.{AreRecent, detect_public_host-AreRecent}

abbrev calls : List Call
calls =
    record {
      now = 1000;
      echoes = none ∷ some (codes "203.0.113.7") ∷ [];
      local_host = some (codes "172.17.0.2");
    }
    ∷ record { now = 1599; echoes = none ∷ none ∷ []; local_host = none }
    ∷ record {
      now = 1600;
      echoes = none ∷ some (codes "<html>") ∷ [];
      local_host = some (codes "10.0.0.1");
    }
    ∷ []

calls_test :
    replies [] 1 no_cache calls
    ≡ (codes "203.0.113.7", codes "auto")
      ∷ (codes "203.0.113.7", codes "auto")
      ∷ (codes "10.0.0.1", codes "local")
      ∷ []
unfolding replies is_address split
calls_test = refl

detect_public_host-AreRecent_example : AreRecent [] 1 [] calls (replies [] 1 no_cache calls)
detect_public_host-AreRecent_example = detect_public_host-AreRecent [] 1 (omega arith) calls
