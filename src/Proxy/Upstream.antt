-- ===== src/Proxy/Upstream.antt =====
-- src/proxy/mod.rs: responses, and `forward_upstream` with the HTTP client as a parameter. The client
-- acts on a backend whose state it alone changes. `Request::builder` and `Response::builder` are
-- given parts that they accept.
pub mod Passing
use Prim.Native.String.{◌++◌ as ◌<>◌}
use zero_trust_proxy.Common.{ℕ, String, ◌==◌, ◌&&◌, Option, [], ◌∷◌, unwrap_or, leb, if◌then◌else◌}
use zero_trust_proxy.Common.Text.{trim_end_matches}
use zero_trust_proxy.Error.{
  ProxyError, internal_error, serialization_error, status_code, message, Result, ok, err,
  ProxyResult, map_err, ok_or, ◌>>=◌,
}
use zero_trust_proxy.Proxy.Bodies.{Payload, failed, BodyCodec}
use zero_trust_proxy.Proxy.Server.{Headers, visible, Request, ProxyServer}

pub record Response : Type 0 where
  pub status : ℕ
  pub headers : Headers
  pub body : String

unfoldable pub text_response : ℕ → String → Response
text_response status body = record { status = status; headers = []; body = body }

abbrev json_headers : Headers
json_headers = ("content-type", visible "application/json") ∷ []

unfoldable pub json_response : BodyCodec → ℕ → Payload → ProxyResult Response
json_response bodies status body = do
  bytes ← map_err serialization_error (bodies.to_vec body)
  ok (record { status = status; headers = json_headers; body = bytes })

abbrev or_empty : Result String String → String
or_empty (ok s) = s
or_empty (err e) = ""

-- `StatusCode::from_u16` takes the numbers of three digits.
unfoldable pub error_response : BodyCodec → ProxyError → Response
error_response bodies e = record {
  status = if leb 100 (status_code e) && leb (status_code e) 999 then status_code e else 500;
  headers = json_headers;
  body = or_empty (bodies.to_vec (failed (message e)));
}

pub record UpstreamRequest : Type 0 where
  pub method : String
  pub uri : String
  pub headers : Headers
  pub body : String

-- The body is missing where reading it fails.
pub record UpstreamResponse : Type 0 where
  pub status : ℕ
  pub headers : Headers
  pub body : Option String

-- hyper's client, and the parser of `Uri`.
pub record HttpClient (Backend : Type 0) : Type 0 where
  pub request : UpstreamRequest → Backend → Result String UpstreamResponse × Backend
  pub parse_uri : String → Option String

-- The loop over the headers leaves out `host`.
unfoldable pub without_host : Headers → Headers
without_host [] = []
without_host ((name, value) ∷ rest) =
    let others = without_host rest in if name == "host" then others else (name, value) ∷ others

unfoldable pub received : Result String UpstreamResponse → ProxyResult Response
received answer = do
  response ← map_err (λ e. internal_error) answer
  body ← ok_or response.body internal_error
  ok (record { status = response.status; headers = response.headers; body = body })

module _ {Backend : Type 0} (client : HttpClient Backend) (server : ProxyServer) where
  unfoldable pub upstream_request : Request → ProxyResult UpstreamRequest
  upstream_request req = do
    body ← ok_or req.body internal_error
    let base = trim_end_matches b'/' server.config.upstream.default_backend
    uri ← ok_or (client.parse_uri (base <> unwrap_or req.path_and_query "/")) internal_error
    ok (record { method = req.method; uri = uri; headers = without_host req.headers; body = body })

  abbrev send : ProxyResult UpstreamRequest → Backend → ProxyResult Response × Backend
  send (err e) backend = (err e, backend)
  send (ok out) backend =
      let (answer, backend') = client.request out backend in (received answer, backend')

  unfoldable pub forward_upstream : Request → Backend → ProxyResult Response × Backend
  forward_upstream req backend = send (upstream_request req) backend
