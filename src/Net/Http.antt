-- ===== src/Net/Http.antt =====
-- What app/net.py sees of httpx: the requests it builds, the answers, and the exceptions.
use ping_gaurd.Prelude.{ℕ, Bool, Text, Option, List}

-- One exception of a chain of causes: whether it is an SSL error, its class and its message.
pub record Cause : Type 0 where
  pub ssl_error : Bool
  pub name : Text
  pub message : Text

-- The classes of `httpx.RequestError` that the exception table tells apart.
pub data HttpError : Type 0 where
  connect_timeout read_timeout write_timeout pool_timeout too_many_redirects : HttpError
  connect_error : List Cause → HttpError
  request_error : HttpError

pub record HttpRequest : Type 0 where
  pub url : Text
  pub host : Text
  pub user_agent : Text
  pub sni_hostname : Option Text

-- What the next read of a streamed body gives: some bytes, an exception, or the probe's deadline.
pub data Chunk : Type 0 where
  bytes : ℕ → Chunk
  broken : HttpError → Chunk
  too_late : Chunk

pub record HttpResponse : Type 0 where
  pub status_code : ℕ
  pub is_redirect : Bool
  pub location : Option Text
  pub body : List Chunk

-- What a call of `client.build_request` and `client.send` comes to.
pub data Reply : Type 0 where
  answered : HttpResponse → Reply
  request_failed : HttpError → Reply
  invalid_url : Reply
  deadline_passed : Reply
