-- ===== src/Cloud/Postbox.antt =====
-- postbox/postbox.go. The resolver of tokens is the interface `TokenResolver`, a record that the
-- resolver of Cloud/Iam.antt fills; the encoder, the transport and the reader of the receipt are
-- arguments. A client never follows a redirect.
pub mod Laws
pub mod Usable
use csar_core.Prelude.{
  ℕ, String, Bool, true, false, not, ◌||◌, Option, none, some, List, ltb, leb, if◌then◌else◌,
  string_eq, ◌==◌, nat_eq, Result, fail_if, ok, err,
}
use csar_core.Cloud.Iam.{
  AuthConfig, SaKey, IamError, Resolver, Answer, Request, resolve_token, transport,
}

abbrev default_endpoint : String
default_endpoint = "https://postbox.cloud.yandex.net"

abbrev default_region : String
default_region = "ru-central1"

abbrev default_charset : String
default_charset = "UTF-8"

pub record Config : Type 0 where
  pub endpoint : String
  pub region : String
  pub auth : AuthConfig

pub data ConfigError : Type 0 where
  endpoint_required region_required token_required oauth_required key_file_required : ConfigError
  mode_unknown : ConfigError

unfoldable pub apply_defaults : Config → Config
apply_defaults c = record c {
  endpoint = if c.endpoint == "" then default_endpoint else c.endpoint;
  region = if c.region == "" then default_region else c.region;
}

unfoldable pub validate_auth : AuthConfig → Result ConfigError (Unit {0})
validate_auth a =
    if a.auth_mode == "iam_token"
    then fail_if (a.iam_token == "") token_required
    else if a.auth_mode == "oauth_token"
    then fail_if (a.oauth_token == "") oauth_required
    else if a.auth_mode == "metadata"
    then ok tt
    else if a.auth_mode == "service_account"
    then fail_if (a.sa_key_file == "") key_file_required
    else err mode_unknown

unfoldable pub validate : Config → Result ConfigError (Unit {0})
validate c =
    if c.endpoint == ""
    then err endpoint_required
    else if c.region == ""
    then err region_required
    else validate_auth c.auth

pub record Message : Type 0 where
  pub from_email_address : String
  pub to_addresses : List String
  pub subject : String
  pub text_body : String
  pub html_body : String
  pub charset : String

pub record Content : Type 0 where
  pub data_text : String
  pub charset : String

pub record SendEmailRequest : Type 0 where
  pub from_email_address : String
  pub to_addresses : List String
  pub subject : Content
  pub text : Content
  pub html : Content

unfoldable pub to_send_email_request : Message → SendEmailRequest
to_send_email_request msg =
    let charset = if msg.charset == "" then default_charset else msg.charset in
    record {
      from_email_address = msg.from_email_address;
      to_addresses = msg.to_addresses;
      subject = record { data_text = msg.subject; charset = charset };
      text = record { data_text = msg.text_body; charset = charset };
      html = record { data_text = msg.html_body; charset = charset };
    }

pub data Stage : Type 0 where
  validating authentication encoding requesting sending responding : Stage

pub record SendError : Type 0 where
  pub stage : Stage
  pub status_code : ℕ
  pub unknown : Bool
  pub retryable : Bool

-- The request: its URL, the token of its header and its body.
pub record MailRequest : Type 0 where
  pub url : String
  pub token : String
  pub body : List ℕ

-- `receipt` is the id of the decoded body, `none` if it cannot be decoded, empty at its end.
pub record MailAnswer : Type 0 where
  pub status : ℕ
  pub receipt : Option String

-- The interface `TokenResolver`, with the state of the one that implements it.
pub record TokenResolver (S : Type 0) : Type 0 where
  pub resolve : S → ℕ → Result IamError String × S

-- What the client uses of the standard library.
pub record Network : Type 0 where
  pub marshal : SendEmailRequest → Result String (List ℕ)
  pub builds : String → Bool
  pub transport : MailRequest → Result String MailAnswer
  pub string_length : String → ℕ
  pub contains_any : String → String → Bool
  pub trim_right : String → String
  pub concat : String → String → String

-- What a call returns, the state of the resolver after it and the request if one was sent.
pub record Posted (S : Type 0) : Type 0 where
  pub outcome : Result SendError String
  pub tokens : S
  pub sent : Option MailRequest

abbrev pub failure : Stage → SendError
failure stage = record { stage = stage; status_code = 0; unknown = false; retryable = false }

-- A server error does not prove that the mail was not accepted.
abbrev pub refusal : ℕ → SendError
refusal status = record {
  stage = responding;
  status_code = status;
  unknown = leb 500 status;
  retryable = status == 429;
}

module _ (net : Network) where
  -- `NewClientWithResolver`: the endpoint of the client.
  unfoldable pub client_endpoint : Config → String
  client_endpoint cfg = net.trim_right (apply_defaults cfg).endpoint

  -- What the client makes of an answer.
  unfoldable pub read_receipt : Option String → String
  read_receipt none = ""
  read_receipt (some id) =
      if ltb 254 (net.string_length id) || net.contains_any id "\r\n\0" then "" else id

  unfoldable pub read_response : MailAnswer → Result SendError String
  read_response a =
      if ltb a.status 200 || leb 300 a.status
      then err (refusal a.status)
      else ok (read_receipt a.receipt)

  abbrev pub mail_request : String → String → List ℕ → MailRequest
  mail_request endpoint token body = record {
    url = net.concat endpoint "/v2/email/outbound-emails";
    token = token;
    body = body;
  }

  unfoldable pub post : String → String → Message → Result SendError String × Option MailRequest
  post endpoint token msg = elim (net.marshal (to_send_email_request msg)) [
    | err e ↦ (err (failure encoding), none)
    | ok body ↦
        let request = mail_request endpoint token body in
        if not (net.builds request.url)
        then (err (failure requesting), none)
        else elim (net.transport request) [
          | err e ↦ (err (record (failure sending) { unknown = true }), some request)
          | ok a ↦ (read_response a, some request)
        ]
  ]

  module _ {S : Type 0} (resolver : TokenResolver S) where
    -- `SendEmailWithReceipt`; the message may be nil.
    unfoldable pub send_email_with_receipt : String → S → ℕ → Option Message → Posted S
    send_email_with_receipt endpoint tokens now none = record {
      outcome = err (failure validating);
      tokens = tokens;
      sent = none;
    }
    send_email_with_receipt endpoint tokens now (some msg) =
        let (resolved, tokens') = resolver.resolve tokens now in
        elim resolved [
          | err e ↦ record {
            outcome = err (record (failure authentication) { retryable = true });
            tokens = tokens';
            sent = none;
          }
          | ok token ↦
              let (outcome, sent) = post endpoint token msg in
              record { outcome = outcome; tokens = tokens'; sent = sent }
        ]

    -- `SendEmail`.
    unfoldable pub send_email : String → S → ℕ → Option Message → Result SendError (Unit {0})
    send_email endpoint tokens now msg =
        elim (send_email_with_receipt endpoint tokens now msg).outcome [
          | err e ↦ err e
          | ok id ↦ ok tt
        ]

-- The resolver of IAM tokens as a `TokenResolver`, which `NewClient` gives to the client.
unfoldable pub iam_tokens :
    {K : Type 0}
    → (Request → Result String Answer)
    → (Option (SaKey K) → ℕ → Result String String)
    → TokenResolver (Resolver K)
iam_tokens server sign_jwt = record {
  resolve =
      λ r now. let done = resolve_token server sign_jwt r now in (done.outcome, done.resolver);
}
