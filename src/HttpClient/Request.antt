-- ===== src/HttpClient/Request.antt =====
-- `DoRequest` and its shorthands in httpclient/HttpClient.go, and the header of the trace.
pub mod Sent
pub mod Steps
use go_utilities.Base.{
  ℕ, Bool, true, false, String, List, [], ◌∷◌, ◌++◌, Option, none, some, leb, if◌then◌else◌, ◌==◌,
}
use go_utilities.Base.Dict.{Dict, insert}
use go_utilities.Base.Result.{Result, ok, err, ◌>>=◌, or_fail}
use go_utilities.Base.Text.{Text, codes, text_eq}
use go_utilities.HttpClient.Url.{UrlLibrary, inject_query_params, request_url, trim_right}

pub data RequestError : Type 0 where
  marshal_failed create_failed request_failed decode_failed : RequestError
  http_status : ℕ → Text → RequestError

pub record HttpRequest : Type 0 where
  pub method : Text
  pub url : Text
  pub body : Option Text
  pub headers : Dict Text

-- `body` is what `io.ReadAll` gives, up to an error of reading.
pub record HttpResponse : Type 0 where
  pub status : ℕ
  pub headers : Dict Text
  pub body : Text

-- A request body: nil, a reader of a text, or a value to be encoded.
pub data Payload (V : Type 0) : Type 0 where
  no_payload : Payload V
  reader : Text → Payload V
  value : V → Payload V

-- encoding/json, net/url, net/http and the hystrix client, with `none` for an error. `canonical`
-- is the form in which a header's key is kept.
pub record HttpLibrary : Type 1 where
  pub Value : Type 0
  pub url : UrlLibrary
  pub marshal : Value → Option Text
  pub unmarshal : Text → Option Value
  pub new_request_ok : Text → Text → Bool
  pub perform : HttpRequest → Option HttpResponse
  pub canonical : String → String

module _ (x : HttpLibrary) where
  open x use {Value, url, marshal, unmarshal, new_request_ok, perform, canonical}

  -- `req.Header.Set(k, v)`
  abbrev pub set_header : String → Text → Dict Text → Dict Text
  set_header k v headers = insert (canonical k) v headers

  unfoldable pub set_headers : Dict Text → Dict Text → Dict Text
  set_headers [] headers = headers
  set_headers ((k, v) ∷ given) headers = set_headers given (set_header k v headers)

  -- `propagateTraceID`, with the trace of the request's context, empty where it has none.
  unfoldable pub propagate_trace_id : Text → HttpRequest → HttpRequest
  propagate_trace_id trace r =
      if trace == [] then r else record r { headers = set_header "X-Trace-ID" trace r.headers }

  abbrev pub encode_body : Payload Value → Result RequestError (Option Text)
  encode_body no_payload = ok none
  encode_body (reader text) = ok (some text)
  encode_body (value v) = or_fail marshal_failed (marshal v) >>= λ text. ok (some text)

  abbrev pub content_type : Payload Value → Dict Text
  content_type no_payload = []
  content_type (reader text) = set_header "Content-Type" (codes "application/json") []
  content_type (value v) = set_header "Content-Type" (codes "application/json") []

  -- A status of 400 or more is an error, with the body as its text.
  abbrev pub check_status : HttpResponse → Result RequestError Text
  check_status r = if leb 400 r.status then err (http_status r.status r.body) else ok r.body

  -- The body is decoded where the caller passes a place for the result.
  abbrev pub decode_body : Bool → Text → Result RequestError (Option Value)
  decode_body false body = ok none
  decode_body true body = or_fail decode_failed (unmarshal body) >>= λ v. ok (some v)

  abbrev pub create_request :
      Text → Text → Option Text → Dict Text → Result RequestError HttpRequest
  create_request method target body headers =
      if new_request_ok method target
      then ok (record { method = method; url = target; body = body; headers = headers })
      else err create_failed

  unfoldable pub do_request :
      Text
      → Text
      → Text
      → Dict Text
      → Payload Value
      → Bool
      → Dict Text
      → Result RequestError (Option Value)
  do_request base method path params payload wanted headers = do
    body ← encode_body payload
    r ←
        create_request method (inject_query_params url (request_url base path) params) body
          (set_headers headers (content_type payload))
    response ← or_fail request_failed (perform r)
    text ← check_status response
    decode_body wanted text

  unfoldable pub http_get : Text → Text → Dict Text → Bool → Result RequestError (Option Value)
  http_get base path params wanted = do_request base (codes "GET") path params no_payload wanted []

  -- A payload that is nil is no payload.
  unfoldable pub http_post : Text → Text → Payload Value → Bool → Result RequestError (Option Value)
  http_post base path payload wanted = do_request base (codes "POST") path [] payload wanted []

  unfoldable pub http_put : Text → Text → Payload Value → Bool → Result RequestError (Option Value)
  http_put base path payload wanted = do_request base (codes "PUT") path [] payload wanted []

  unfoldable pub http_delete : Text → Text → Result RequestError (Option Value)
  http_delete base path = do_request base (codes "DELETE") path [] no_payload false []

-- The base that a client keeps: `NewHystixClient` and `WithOverrideBaseURL`.
unfoldable pub base_url : Text → Text
base_url given = trim_right b'/' given
