-- ===== src/Web/Proxy.antt =====
-- apps/web/src/app/api/backend/[...path]/route.ts: what the proxy sends on to the API and back. A
-- header's name is in lower case, as the class Headers gives it; the body is a text.
pub mod Forwarding
use arcpass.Prelude.{
  ℕ, Bool, true, false, not, ◌&&◌, Option, none, some, List, [], ◌∷◌, ◌++◌, Text, codes, text_eq,
  to_lower, any, if◌then◌else◌,
}

pub record Header : Type 0 where
  pub name : Text
  pub value : Text

-- `headers.get` and `headers.set`.
abbrev pub get_header : Text → List Header → Option Text
get_header k [] = none
get_header k (h ∷ hs) = if text_eq h.name k then some h.value else get_header k hs

abbrev pub set_header : Text → Text → List Header → List Header
set_header k v [] = record { name = k; value = v } ∷ []
set_header k v (h ∷ hs) =
    if text_eq h.name k then record { name = k; value = v } ∷ hs else h ∷ set_header k v hs

abbrev pub skip_headers : List Text
skip_headers =
    codes "host"
    ∷ codes "connection"
    ∷ codes "keep-alive"
    ∷ codes "transfer-encoding"
    ∷ codes "te"
    ∷ codes "trailer"
    ∷ codes "upgrade"
    ∷ []

unfoldable pub is_skipped : Text → Bool
is_skipped name = any (text_eq (to_lower name)) skip_headers

-- The loop over the headers of one side.
abbrev pub copy_headers : List Header → List Header → List Header
copy_headers [] copied = copied
copy_headers (h ∷ hs) copied =
    copy_headers hs (if is_skipped h.name then copied else set_header h.name h.value copied)

-- `a || b`.
abbrev pub or_text : Option Text → Text → Text
or_text none other = other
or_text (some []) other = other
or_text (some (c ∷ s)) other = c ∷ s

abbrev pub forwarded_for : Text
forwarded_for = codes "x-forwarded-for"

unfoldable pub client_ip : List Header → Text
client_ip hs =
    or_text (get_header forwarded_for hs)
      (or_text (get_header (codes "x-real-ip") hs) (codes "127.0.0.1"))

unfoldable pub forward_headers : List Header → List Header
forward_headers hs = set_header forwarded_for (client_ip hs) (copy_headers hs [])

-- What is sent on, and what comes back; `none` stands for an error of `fetch`.
pub record ProxyRequest : Type 0 where
  pub method : Text
  pub headers : List Header
  pub body : Option Text

pub record ProxyResponse : Type 0 where
  pub status : ℕ
  pub headers : List Header
  pub body : Text

abbrev pub body_for : Text → Option Text → Option Text
body_for method body =
    if not (text_eq method (codes "GET")) && not (text_eq method (codes "HEAD")) then body else none

abbrev pub send_back : Option ProxyResponse → ProxyResponse
send_back (some r) = record r { headers = copy_headers r.headers [] }
send_back none = record {
  status = 502;
  headers = [];
  body = codes "{\"error\":\"Backend service unavailable\"}";
}

unfoldable pub proxy_request : (ProxyRequest → Option ProxyResponse) → ProxyRequest → ProxyResponse
proxy_request fetch request = send_back (
    fetch (record {
      method = request.method;
      headers = forward_headers request.headers;
      body = body_for request.method request.body;
    }))
