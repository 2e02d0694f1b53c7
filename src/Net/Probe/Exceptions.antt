-- ===== src/Net/Probe/Exceptions.antt =====
-- `_is_tls_exception` and `HTTPX_EXCEPTION_TABLE` of app/net.py.
use ping_gaurd.Prelude.{
  Bool, true, false, ◌&&◌, ◌||◌, Text, codes, String, List, [], ◌∷◌, ◌==◌, if◌then◌else◌,
}
use ping_gaurd.Net.Http.{
  Cause, HttpError, connect_timeout, read_timeout, write_timeout, pool_timeout, too_many_redirects,
  connect_error, request_error,
}
use ping_gaurd.Net.Resolve.{UrlLibrary}

abbrev pub starts_with : Text → Text → Bool
starts_with [] s = true
starts_with (c ∷ cs) [] = false
starts_with (c ∷ cs) (d ∷ ds) = c == d && starts_with cs ds

-- `part in s`
abbrev pub text_contains : Text → Text → Bool
text_contains part [] = starts_with part []
text_contains part (c ∷ cs) = starts_with part (c ∷ cs) || text_contains part cs

module _ (lib : UrlLibrary) where
  open lib use {lower}

  unfoldable pub is_tls_exception : List Cause → Bool
  is_tls_exception [] = false
  is_tls_exception (cause ∷ causes) =
      cause.ssl_error
      || (text_contains (codes "ssl") (lower cause.name)
          || (text_contains (codes "certificate") (lower cause.message)
              || (text_contains (codes "tls") (lower cause.message) || is_tls_exception causes)))

  -- `HTTPX_EXCEPTION_TABLE`, and the check for TLS errors.
  unfoldable pub error_detail_of : HttpError → String
  error_detail_of connect_timeout = "connect_timeout"
  error_detail_of read_timeout = "read_timeout"
  error_detail_of write_timeout = "write_timeout"
  error_detail_of pool_timeout = "pool_timeout"
  error_detail_of too_many_redirects = "redirect_error"
  error_detail_of (connect_error causes) =
      if is_tls_exception causes then "tls_error" else "connect_error"
  error_detail_of request_error = "request_error"
