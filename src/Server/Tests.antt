-- ===== src/Server/Tests.antt =====
-- Requests with and without the credentials.
use web_zapret.Base.{◌≡◌, ◌⊎◌, refl, [], ◌∷◌, true, some, ok, err, type_error, pos}
use web_zapret.Text.{Text, codes, text_methods}
use web_zapret.Dict.{lookup, get_or}
use web_zapret.Logs.{drop}
use web_zapret.Value.{str, dict, Dict, of_pairs, value_methods}
use web_zapret.Deletion.{has_id}
use web_zapret.Server.{
  Library, Panel, Request, calls, apply_strategy, unauthorized, authed, do_post, read_body,
  post_method, options_method, no_content, handle,
}
use web_zapret.Server.Guarded.{IsGuarded, answer-IsGuarded}

-- The header's text stands for what it encodes.
abbrev library : Library
library = record {
  runtime = record { repr = λ v. []; to_int = λ v. err type_error; percent = λ v. err type_error };
  decoded = λ t. some t;
  to_int = λ t. some (pos 10);
  loads = λ bytes. some (dict (of_pairs ((codes "id", str (codes "quic")) ∷ [])));
}

abbrev panel : Panel
panel = record {
  user = codes "me";
  password = codes "key";
  catalog = ((codes "id", str (codes "quic")) ∷ []) ∷ [];
  has_engine = true;
  test_url = [];
}

abbrev request : Text → Text → Request
request path authorization = record {
  path = path;
  authorization = authorization;
  content_length = some (codes "10");
  sent = [];
}

abbrev good_request : Request
good_request = request (codes "/api/strategy") (codes "Basic me:key")

good_test : do_post library panel good_request ≡ ok (calls (apply_strategy (codes "quic")))
unfolding do_post authed read_body drop text_methods value_methods lookup get_or has_id
good_test = refl

bad_test :
    do_post library panel (request (codes "/api/strategy") (codes "Basic me:no")) ≡ ok unauthorized
unfolding do_post authed drop text_methods
bad_test = refl

answer-IsGuarded_example :
    ((post_method ≡ options_method) × (calls (apply_strategy (codes "quic")) ≡ no_content))
    ⊎ IsGuarded library panel good_request (calls (apply_strategy (codes "quic")))
unfolding handle
answer-IsGuarded_example =
    answer-IsGuarded library panel post_method good_request (calls (apply_strategy (codes "quic")))
      good_test

abbrev body : Dict
body = (codes "id", str (codes "quic")) ∷ []
