-- ===== src/Gateway/Tests.antt =====
-- The theorems on the gateway's headers at a concrete request.
use csar_core.Prelude.{◌≡◌, [], ◌∷◌}
use csar_core.Gateway.{Header, Strings, strip_trusted, from_request}
use csar_core.Gateway.Laws

abbrev strings : Strings
strings = record { canonical = λ name. name; split_commas = λ s. s ∷ []; trim_space = λ s. s }

abbrev forged : Header
forged = ("X-Gateway-Subject", "admin" ∷ []) ∷ ("X-Gateway-Roles", "root" ∷ []) ∷ []

from_request-strip_trusted_example :
    let id = from_request strings (strip_trusted strings forged) in
    id ≡ record {
      request_id = id.request_id;
      subject = "";
      tenant = "";
      roles = [];
      scopes = [];
      authz_result = "";
      authz_scopes = [];
      authz_policy = "";
      credential_id = "";
    }
from_request-strip_trusted_example = Laws.from_request-strip_trusted strings forged
