-- ===== src/Middleware/Proxy.antt =====
-- middleware/proxy.go. The endpoints that are relayed are those that the configuration maps to true.
-- `remote` is the POST of a body to the remote server: its response, or the text of an error.
use relayer2_public.Base.{
  String, Bool, false, List, [], ◌∷◌, same_text, if◌then◌else◌, Outcome, ok, err,
}

pub record Config : Type 0 where
  pub proxy_url : String
  pub proxy_endpoints : List (String × Bool)

-- Reading a missing key of a Go map gives false.
unfoldable pub is_proxied : String → List (String × Bool) → Bool
is_proxied name [] = false
is_proxied name ((k, v) ∷ endpoints) = if same_text k name then v else is_proxied name endpoints

pub data Reply : Type 0 where
  response : String → Reply
  generic_error : String → Reply

abbrev remote_reply : Outcome String → Reply
remote_reply (ok body) = response body
remote_reply (err e) = generic_error e

unfoldable pub proxy :
    (String → String → Outcome String)
    → Config
    → (String → String → Reply)
    → String
    → String
    → Reply
unfolding is_proxied
proxy remote config handler name body =
    if is_proxied name config.proxy_endpoints
    then remote_reply (remote config.proxy_url body)
    else handler name body
