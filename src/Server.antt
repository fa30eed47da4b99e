-- ===== src/Server.antt =====
-- The HTTP handler of src/panel/panel.py: `authed`, `_read_body`, `do_GET` and `do_POST`, up to the call that
-- a request leads to.
pub mod Guarded
pub mod Answered
pub mod Tests
use web_zapret.Base.{
  ℕ, Bool, true, false, not, ◌&&◌, ◌||◌, List, [], ◌∷◌, all, Option, none, some, Result, ok, err,
  type_error, index_error, ◌>>=◌, if◌then◌else◌, ltb, leb, ◌==◌, ℤ, pos, ltb_ℤ, negsuc, pos_part,
  take,
}
use web_zapret.Text.{
  Text, codes, same, one_of, starts_with, has_char, before, after, split, contains,
}
use web_zapret.Logs.{drop}
use web_zapret.Dict.{get_or, insert}
use web_zapret.Value.{Value, null, str, dict, end, Dict, truthy, or_else, as_dict, py_str, Runtime}
use web_zapret.Deletion.{has_id}

-- What the handler leaves to the library: base64 and UTF-8, `int` of a text, and `json.loads`; each is none
-- where it raises a `ValueError`.
pub record Library : Type 0 where
  pub runtime : Runtime
  pub decoded : Text → Option Text
  pub to_int : Text → Option ℤ
  pub loads : List ℕ → Option Value

-- The panel's configuration and state, as far as the handler reads them.
pub record Panel : Type 0 where
  pub user : Text
  pub password : Text
  -- the strategies of the catalog
  pub catalog : List Dict
  -- `bcw is not None`
  pub has_engine : Bool
  pub test_url : Text

pub record Request : Type 0 where
  pub path : Text
  -- the header `Authorization`, empty if there is none
  pub authorization : Text
  -- the header `Content-Length`, if there is one
  pub content_length : Option Text
  -- the bytes that are sent
  pub sent : List ℕ

-- The calls that the handler makes.
pub data Call : Type 0 where
  index status list_strategies test_info overview show_strategy show_exit show_traffic export_logs :
      Call
  show_logs : Text → ℤ → Call
  apply_strategy apply_exit delete_strategy : Text → Call
  import_strategy : Value → Call
  test_strategy : Text → Text → Value → Call
  save_settings save_schedule : Value → Call
  reset_settings : Call
  start_run : Value → Call
  cancel_run : Call

pub data Answer : Type 0 where
  -- 401, 404 and 400, with no call
  unauthorized not_found bad_request : Answer
  calls : Call → Answer
  -- 204
  no_content : Answer

-- The methods that the handler has a `do_` function for.
pub data Method : Type 0 where
  get_method post_method options_method : Method

-- `hmac.compare_digest` of two texts, which must be ASCII
pub compare_digest : Text → Text → Result Bool
compare_digest a b =
    if all (λ c. ltb c 128) a && all (λ c. ltb c 128) b then ok (same a b) else err type_error

-- `self.path.split("?", 1)[0]`
pub route : Request → Text
route r = before b'?' r.path

-- `q`: the pairs that have a `=`
query_of : List Text → List (Text × Text) → List (Text × Text)
query_of [] q = q
query_of (pair ∷ pairs) q =
    query_of pairs (if has_char b'=' pair then insert (before b'=' pair) (after b'=' pair) q else q)

-- `x or "200"`
or_200 : Text → Text
or_200 [] = codes "200"
or_200 (c ∷ s) = c ∷ s

-- a body that is a dictionary, for `settings` of a run
settings_of : Value → Value
settings_of (dict fs) = dict fs
settings_of v = null

module _ (lib : Library) (p : Panel) where
  -- the comparison of the decoded credentials
  credentials_match : Option Text → Result Bool
  unfolding compare_digest
  credentials_match none = ok false
  credentials_match (some t) = do
    known ← compare_digest (before b':' t) p.user
    if known then compare_digest (after b':' t) p.password else ok false

  -- `authed()`
  unfoldable pub authed : Request → Result Bool
  unfolding credentials_match drop
  authed r =
      if same p.user []
      then ok true
      else if not (starts_with r.authorization (codes "Basic "))
      then ok false
      else credentials_match (lib.decoded (drop 6 r.authorization))

  int_or : ℤ → Option ℤ → ℤ
  int_or default none = default
  int_or default (some n) = n

  length_of : Option Text → ℤ
  unfolding int_or
  length_of none = pos 0
  length_of (some t) = int_or (pos 0) (lib.to_int t)

  loaded_or_empty : Option Value → Value
  loaded_or_empty none = dict end
  loaded_or_empty (some v) = v

  -- `_read_body()`
  unfoldable pub read_body : Request → Value
  unfolding length_of loaded_or_empty
  read_body r =
      let n = length_of r.content_length in
      if ltb_ℤ (pos 0) n && not (ltb_ℤ (pos 1000000) n)
      then loaded_or_empty (lib.loads (take (pos_part n) r.sent))
      else dict end

  -- `str(body.get(key, ""))`
  pub text_at : Text → Value → Result Text
  text_at key body = as_dict body >>= λ d. ok (py_str lib.runtime.repr (get_or key (str []) d))

  -- the branch of `/api/logs`
  logs_call : Request → Result Answer
  unfolding query_of or_200 int_or
  logs_call r =
      if not (has_char b'?' r.path)
      then err index_error
      else (let q = query_of (split b'&' (after b'?' r.path)) [] in
          ok (
            calls (
              show_logs (get_or (codes "src") (codes "all") q)
                (int_or (pos 200) (lib.to_int (or_200 (get_or (codes "n") (codes "200") q)))))))

  -- behind the authorisation
  get_routes : Request → Text → Result Answer
  unfolding logs_call
  get_routes r path =
      if one_of path (codes "/" ∷ codes "/index.html" ∷ [])
      then ok (calls index)
      else if same path (codes "/api/status")
      then ok (calls status)
      else if same path (codes "/api/strategies")
      then ok (calls list_strategies)
      else if same path (codes "/api/testinfo")
      then ok (calls test_info)
      else if same path (codes "/api/bcw")
      then ok (calls overview)
      else if same path (codes "/api/strategy")
      then ok (calls show_strategy)
      else if same path (codes "/api/exit")
      then ok (calls show_exit)
      else if same path (codes "/api/traffic")
      then ok (calls show_traffic)
      else if same path (codes "/api/logs/export")
      then ok (calls export_logs)
      else if same path (codes "/api/logs")
      then logs_call r
      else ok not_found

  set_strategy : Value → Result Answer
  unfolding text_at
  set_strategy body = do
    sid ← text_at (codes "id") body
    ok (if has_id sid p.catalog then calls (apply_strategy sid) else bad_request)

  set_exit : Value → Result Answer
  unfolding text_at
  set_exit body = do
    mode ← text_at (codes "mode") body
    ok (
        if one_of mode (codes "direct" ∷ codes "socks5" ∷ codes "ss" ∷ [])
        then calls (apply_exit mode)
        else bad_request)

  test_call : Value → Result Answer
  unfolding text_at
  test_call body = do
    d ← as_dict body
    sid ← text_at (codes "id") body
    ok (
        calls (
          test_strategy sid
            (py_str lib.runtime.repr (or_else (get_or (codes "url") (str []) d) (str p.test_url)))
            (get_or (codes "timeout") null d)))

  -- the calls of the engine, which may be missing
  with_engine : Call → Answer
  with_engine call = if p.has_engine then calls call else bad_request

  pub post_routes : Value → Text → Result Answer
  unfolding set_strategy set_exit test_call with_engine settings_of
  post_routes body path =
      if same path (codes "/api/strategy")
      then set_strategy body
      else if same path (codes "/api/strategy/import")
      then ok (calls (import_strategy body))
      else if same path (codes "/api/strategy/test")
      then test_call body
      else if same path (codes "/api/strategy/delete")
      then (text_at (codes "id") body >>= λ sid. ok (calls (delete_strategy sid)))
      else if same path (codes "/api/bcw/settings")
      then ok (with_engine (save_settings body))
      else if same path (codes "/api/bcw/reset")
      then ok (with_engine reset_settings)
      else if same path (codes "/api/bcw/run")
      then (as_dict body >>= λ d.
          ok (calls (start_run (settings_of (get_or (codes "settings") null d)))))
      else if same path (codes "/api/bcw/cancel")
      then ok (calls cancel_run)
      -- four arguments for a function of three
      else if same path (codes "/api/bcw/import")
      then err type_error
      else if same path (codes "/api/bcw/schedule")
      then ok (with_engine (save_schedule body))
      else if same path (codes "/api/exit")
      then set_exit body
      else ok not_found

  -- `do_GET()`
  unfoldable pub do_get : Request → Result Answer
  unfolding authed get_routes route
  do_get r = authed r >>= λ known. if known then get_routes r (route r) else ok unauthorized

  -- `do_POST()`
  unfoldable pub do_post : Request → Result Answer
  unfolding authed post_routes read_body route
  do_post r =
      authed r >>= λ known. if known then post_routes (read_body r) (route r) else ok unauthorized

  -- `do_OPTIONS`, which does not call `authed`
  do_options : Request → Result Answer
  do_options r = ok no_content

  -- The function of the handler that is called for a method.
  unfoldable pub handle : Method → Request → Result Answer
  unfolding do_get do_post do_options
  handle get_method r = do_get r
  handle post_method r = do_post r
  handle options_method r = do_options r
