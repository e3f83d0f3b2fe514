-- ===== src/ConfigSource/Http.antt =====
-- configsource/source_http.go. The server is a function from the conditional header to its
-- response; the transport's failures are responses too.
use csar_core.Prelude.{
  ℕ, ◌*◌, ◌^◌, String, Bool, false, not, ◌&&◌, none, some, List, ltb, if◌then◌else◌, ◌==◌, nat_eq,
  string_eq, length, Result, ok, err,
}
use csar_core.ConfigSource.Types.{
  Data, FetchedConfig, Error, source_failed, too_large, unexpected_status,
}

abbrev pub max_config_size : ℕ
max_config_size = 10 * 2 ^ 20

pub record HttpSource : Type 0 where
  pub url : String
  pub headers : List (String × String)
  pub last_etag : String
  pub last_modified : Bool

unfoldable pub new_http_source : String → List (String × String) → HttpSource
new_http_source url headers = record {
  url = url;
  headers = headers;
  last_etag = "";
  last_modified = false;
}

pub data Conditional : Type 0 where
  unconditional : Conditional
  if_modified_since if_none_match : String → Conditional

-- `complete` has the body, the ETag and the Last-Modified header ("" where there is none).
pub data Response : Type 0 where
  transport_error : String → Response
  status_304 : Response
  broken_body : String → Response
  complete : Data → String → String → Response
  status : ℕ → Response

unfoldable pub conditional : HttpSource → Conditional
conditional s =
    if s.last_etag == ""
    then unconditional
    else if s.last_modified
    then if_modified_since s.last_etag
    else if_none_match s.last_etag

-- `etag` falls back on Last-Modified.
keep_validator : HttpSource → Data → String → String → Result Error FetchedConfig × HttpSource
keep_validator s body etag modified =
    let version = if etag == "" then modified else etag in
    (
      ok (record { payload = some body; etag = version }),
      record s { last_etag = version; last_modified = (etag == "") && not (modified == "") },
    )

read_response : HttpSource → Response → Result Error FetchedConfig × HttpSource
unfolding keep_validator
read_response s (transport_error e) = (err (source_failed e), s)
read_response s status_304 = (ok (record { payload = none; etag = s.last_etag }), s)
read_response s (broken_body e) = (err (source_failed e), s)
read_response s (complete body etag modified) =
    if ltb max_config_size (length body)
    then (err too_large, s)
    else keep_validator s body etag modified
read_response s (status n) = (err (unexpected_status n), s)

unfoldable pub fetch :
    (Conditional → Response) → HttpSource → Result Error FetchedConfig × HttpSource
unfolding read_response
fetch server s = read_response s (server (conditional s))
