-- ===== src/Cloud/Postbox/Laws.antt =====
-- What a result of the client says about the mail.
use csar_core.Prelude.{
  ℕ, ◌≤◌, ◌<◌, String, ◌≡◌, refl, ◌≢◌, ◌⊎◌, inl, inr, true, false, ◌||◌, Option, none, some, arith,
  ltb, leb, Bool-cases, Result, Result-cases, ok, err,
}
use csar_core.Cloud.Postbox.{
  Message, to_send_email_request, SendError, MailRequest, MailAnswer, TokenResolver, Network,
  failure, refusal, read_receipt, read_response, mail_request, post, send_email_with_receipt,
  validating, authentication, encoding, requesting, sending,
}

module _ (net : Network) where
  -- The request was answered with a status of success.
  abbrev pub Accepted : Option MailRequest → Type 0
  Accepted sent =
      (request : MailRequest) × (a : MailAnswer) × (sent ≡ some request)
      × (net.transport request ≡ ok a)
      × (200 ≤ a.status)
      × (a.status < 300)

  -- No request was sent, or it was answered by a refusal.
  abbrev pub Refused : Option MailRequest → Type 0
  Refused sent =
      (sent ≡ none)
      ⊎ ((request : MailRequest) × (a : MailAnswer) × (sent ≡ some request)
          × (net.transport request ≡ ok a)
          × ((a.status < 200) ⊎ (300 ≤ a.status))
          × (a.status < 500))

  -- An id of a receipt is empty, or short and of one line.
  abbrev pub IsPlain : String → Type 0
  IsPlain id = (id ≡ "") ⊎ ((net.string_length id ≤ 254) × (net.contains_any id "\r\n\0" ≡ false))

  -- Success means that the mail was accepted, an error that is not marked as unknown that it was
  -- not, and an error that is marked as unknown does not ask for a retry.
  abbrev pub Truthful : Result SendError String → Option MailRequest → Type 0
  Truthful outcome sent =
      ((id : String) × (outcome ≡ ok id) × IsPlain id × Accepted sent)
      ⊎ ((e : SendError) × (outcome ≡ err e) × (e.unknown ≡ false) × Refused sent)
      ⊎ ((e : SendError) × (outcome ≡ err e)
          × (e.unknown ≡ true)
          × (e.retryable ≡ false)
          × (sent ≢ none))

  IsPlain-read_receipt : (receipt : Option String) → IsPlain (read_receipt net receipt)
  unfolding read_receipt
  IsPlain-read_receipt none = inl refl
  IsPlain-read_receipt (some id) = elim (Bool-cases (ltb 254 (net.string_length id))) [
    | inl e ↦ inl (ground arith)
    | inr e ↦ elim (Bool-cases (net.contains_any id "\r\n\0")) [
      | inl f ↦ inl (ground arith)
      | inr f ↦
          let same : read_receipt net (some id) ≡ id = ground arith in
          rw same (inr (ground arith, f))
    ]
  ]

  Truthful-response :
      (request : MailRequest) (a : MailAnswer)
      → net.transport request ≡ ok a
      → Truthful (read_response net a) (some request)
  unfolding read_response
  Truthful-response request a answered = elim (Bool-cases (ltb a.status 200 || leb 300 a.status)) [
    | inr success ↦ inl (
      read_receipt net a.receipt,
      ground arith,
      IsPlain-read_receipt a.receipt,
      (request, a, refl, answered, ground arith, ground arith),
    )
    | inl refused ↦
        let same : read_response net a ≡ err (refusal a.status) = ground arith in
        elim (Bool-cases (leb 500 a.status)) [
          | inr known_is ↦ inr (
              inl (
                refusal a.status,
                same,
                known_is,
                inr (
                  request,
                  a,
                  refl,
                  answered,
                  elim (Bool-cases (ltb a.status 200)) [
                    | inl low ↦ inl (ground arith)
                    | inr high ↦ inr (ground arith)
                  ],
                  ground arith,
                ),
              ))
          | inl unknown_is ↦ inr (
              inr (refusal a.status, same, unknown_is, ground arith, λ h. absurd (let e = h in cc)))
        ]
  ]

  Truthful-post :
      (endpoint token : String) (msg : Message)
      → Truthful (post net endpoint token msg).0 (post net endpoint token msg).1
  unfolding post
  Truthful-post endpoint token msg = elim (Result-cases (net.marshal (to_send_email_request msg))) [
    | inr (e, f) ↦
        let same : post net endpoint token msg ≡ (err (failure encoding), none) = ground arith in
        rw same (inr (inl (failure encoding, refl, refl, inl refl)))
    | inl (body, f) ↦
        let request = mail_request net endpoint token body in
        elim (Bool-cases (net.builds request.url)) [
          | inr bad ↦
              let same : post net endpoint token msg ≡ (err (failure requesting), none) =
                ground arith in
              rw same (inr (inl (failure requesting, refl, refl, inl refl)))
          | inl good ↦ elim (Result-cases (net.transport request)) [
            | inr (e, g) ↦
                let lost : SendError = record (failure sending) { unknown = true } in
                let same : post net endpoint token msg ≡ (err lost, some request) = ground arith in
                rw same (inr (inr (lost, refl, refl, refl, λ h. absurd (cc))))
            | inl (a, g) ↦
                let same : post net endpoint token msg ≡ (read_response net a, some request) =
                  ground arith in
                rw same (Truthful-response request a g)
          ]
        ]
  ]

  -- What a call reports is true of what was sent, whatever the resolver, the server and the
  -- message are.
  pub send_email_with_receipt-Truthful :
      {S : Type 0} (resolver : TokenResolver S) (endpoint : String) (tokens : S) (now : ℕ)
      (msg : Option Message)
      → Truthful
          (send_email_with_receipt net resolver endpoint tokens now msg).outcome
          (send_email_with_receipt net resolver endpoint tokens now msg).sent
  unfolding send_email_with_receipt
  send_email_with_receipt-Truthful resolver endpoint tokens now none =
      inr (inl (failure validating, refl, refl, inl refl))
  send_email_with_receipt-Truthful resolver endpoint tokens now (some msg) =
      elim (Result-cases (resolver.resolve tokens now).0) [
        | inr (e, f) ↦
            let denied : SendError = record (failure authentication) { retryable = true } in
            let same : send_email_with_receipt net resolver endpoint tokens now (some msg)
                ≡ record {
                  outcome = err denied;
                  tokens = (resolver.resolve tokens now).1;
                  sent = none;
                } =
              ground arith in
            rw same (inr (inl (denied, refl, refl, inl refl)))
        | inl (token, f) ↦
            let done = post net endpoint token msg in
            let same : send_email_with_receipt net resolver endpoint tokens now (some msg)
                ≡ record {
                  outcome = done.0;
                  tokens = (resolver.resolve tokens now).1;
                  sent = done.1;
                } =
              ground arith in
            rw same (Truthful-post endpoint token msg)
      ]
