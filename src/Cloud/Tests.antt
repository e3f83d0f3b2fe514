-- ===== src/Cloud/Tests.antt =====
-- The theorems on IAM tokens and mail at concrete ones; a private key is a number.
use csar_core.Prelude.{
  ℕ, String, ◌≡◌, refl, ◌≢◌, ◌⊎◌, true, false, Option, none, some, [], ◌∷◌, Result, ok, err,
}
use csar_core.Cloud.Iam.{
  AuthConfig, SaKey, IamError, Resolver, KeyReader, Answer, Request, new_resolver, resolve_token,
  resolve_all, load_key, read_file, transport, cannot_refresh,
}
use csar_core.Cloud.Iam
use csar_core.Cloud.Iam.Answered.{Asks, Unsendable, Lasts, Uses, resolve_token-Uses}
use csar_core.Cloud.Iam.Ready.{Ready, resolve_all-new_resolver}
use csar_core.Cloud.Postbox.{
  Config, apply_defaults, validate_auth, validate, Message, Network, Posted,
  send_email_with_receipt, iam_tokens,
}
use csar_core.Cloud.Postbox.Laws.{Truthful, send_email_with_receipt-Truthful}
use csar_core.Cloud.Postbox

abbrev server : Request → Result String Answer
server request = ok (record { status = 200; decoded = ok ("t1", 3600) })

abbrev sign_jwt : Option (SaKey ℕ) → ℕ → Result String String
sign_jwt key now = ok "jwt"

abbrev reader : KeyReader ℕ
reader = record {
  read_file = λ path. err "missing";
  unmarshal = λ bytes. err "unused";
  pem_decode = λ s. none;
  parse_pkcs8 = λ block. err "unused";
  parse_pkcs1 = λ block. err "unused";
}

abbrev auth : AuthConfig
auth = record { auth_mode = "metadata"; iam_token = ""; oauth_token = ""; sa_key_file = "" }

abbrev fresh : Resolver ℕ
fresh = record {
  auth_token = "";
  expiry = 0;
  auth_mode = "metadata";
  oauth_token = "";
  sa_key = none;
}

new_fresh : new_resolver reader auth ≡ ok fresh
unfolding new_resolver
new_fresh = refl

resolve_token-Uses_example :
    let done = resolve_token server sign_jwt fresh 5 in
    ((done.sent ≡ none)
      × (done.resolver ≡ fresh)
      × ((Lasts server sign_jwt fresh 5 × (done.outcome ≡ ok fresh.auth_token))
          ⊎ ((¬ Lasts server sign_jwt fresh 5)
              × Unsendable server sign_jwt fresh 5
              × ((e : IamError) × (done.outcome ≡ err e)))))
    ⊎ ((request : Request) × (done.sent ≡ some request)
        × (¬ Lasts server sign_jwt fresh 5)
        × Asks server sign_jwt fresh 5 request
        × Uses server sign_jwt fresh 5 request done)
resolve_token-Uses_example = Iam.Answered.resolve_token-Uses server sign_jwt fresh 5

resolve_all-new_resolver_example :
    Ready (resolve_all server sign_jwt fresh (5 ∷ 7 ∷ []))
    × ((resolve_token server sign_jwt (resolve_all server sign_jwt fresh (5 ∷ 7 ∷ [])) 9).outcome
        ≢ err (cannot_refresh "metadata"))
resolve_all-new_resolver_example =
    Iam.Ready.resolve_all-new_resolver server sign_jwt reader auth fresh (5 ∷ 7 ∷ []) 9 "metadata"
      new_fresh

abbrev config : Config
config = record { endpoint = "https://mail"; region = "ru"; auth = auth }

config_valid : validate config ≡ ok tt
unfolding validate validate_auth
config_valid = refl

validate-new_resolver_example :
    (apply_defaults config ≡ config)
    × (((r : Resolver ℕ) × (new_resolver reader config.auth ≡ ok r))
        ⊎ ((e : IamError) × (new_resolver reader config.auth ≡ err (load_key e))))
validate-new_resolver_example = Postbox.Usable.validate-new_resolver reader config config_valid

abbrev net : Network
net = record {
  marshal = λ request. ok (1 ∷ []);
  builds = λ url. true;
  transport = λ request. ok (record { status = 503; receipt = none });
  string_length = λ s. 3;
  contains_any = λ s chars. false;
  trim_right = λ s. s;
  concat = λ s t. s;
}

abbrev mail : Message
mail = record {
  from_email_address = "a@b.c";
  to_addresses = "d@e.f" ∷ [];
  subject = "s";
  text_body = "t";
  html_body = "";
  charset = "";
}

abbrev posted : Posted (Resolver ℕ)
posted = send_email_with_receipt net (iam_tokens server sign_jwt) "https://mail" fresh 5 (some mail)

send_email_with_receipt-Truthful_example : Truthful net posted.outcome posted.sent
send_email_with_receipt-Truthful_example =
    Postbox.Laws.send_email_with_receipt-Truthful net (iam_tokens server sign_jwt) "https://mail"
      fresh 5 (some mail)
