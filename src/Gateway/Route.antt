-- ===== src/Gateway/Route.antt =====
-- src-tauri/src/coding_agent_gateway.rs: which requests `reject_untrusted` and `route` let through. The
-- UTF-8 bytes of a text are a parameter. A handler's own answer is only named.
use mathlib.Core.Option.{some-injective}
use open_mind_ai.Base.{
  ℕ, ◌≡◌, ◌≢◌, ◌↔◌, ◌⊎◌, refl, sym, ap, Bool, true, false, not, ◌&&◌, ◌||◌, Option, none, some,
  List, if◌then◌else◌, inl, inr, Bool-cases, arith,
}
use open_mind_ai.Base.Text.{Text, text, text_eq, text_eq→eq}
use open_mind_ai.Gateway.{HttpRequest, header_value}
use open_mind_ai.Gateway.Trust.{same_bytes, AllBytes, same_bytes-eq}

abbrev pub client_header : Text
client_header = text "x-openmindai-client"

abbrev pub token_header : Text
token_header = text "x-openmindai-token"

abbrev pub is_open : Text → Bool
is_open path = text_eq path (text "/health") || text_eq path (text "/healthz")

abbrev pub is_some : Option Text → Bool
is_some none = false
is_some (some t) = true

pub data Endpoint : Type 0 where
  health agent_info start models chat : Endpoint

pub data Answer : Type 0 where
  status : ℕ → Answer
  handled : Endpoint → Answer

abbrev pub is_known : Text → Bool
is_known path =
    is_open path
    || text_eq path (text "/openmindai/coding-agent")
    || text_eq path (text "/openmindai/coding-agent/start")
    || text_eq path (text "/v1/models")
    || text_eq path (text "/readyz")
    || text_eq path (text "/v1/chat/completions")

unfoldable pub dispatch : Text → Text → Answer
dispatch method path =
    let get = text_eq method (text "GET") in
    let post = text_eq method (text "POST") in
    if get && is_open path
    then handled health
    else if get && text_eq path (text "/openmindai/coding-agent")
    then handled agent_info
    else if post && text_eq path (text "/openmindai/coding-agent/start")
    then handled start
    else if get && (text_eq path (text "/v1/models") || text_eq path (text "/readyz"))
    then handled models
    else if post && text_eq path (text "/v1/chat/completions")
    then handled chat
    else if is_known path
    then status 405
    else status 404

-- The tests of `reject_untrusted`, in their order.
abbrev pub rejection : Bool → Bool → Bool → Bool → Option ℕ
rejection origin client health_path right =
    if origin
    then some 403
    else if not client
    then some 403
    else if not health_path && not right
    then some 401
    else none

rejection-none :
    (origin client health_path right : Bool)
    → (rejection origin client health_path right ≡ none)
      ↔ ((origin ≡ false) × (client ≡ true) × ((health_path ≡ true) ⊎ (right ≡ true)))
rejection-none true client p t = (λ e. absurd (cc e), λ (o, _, _). absurd (cc o))
rejection-none false false p t = (λ e. absurd (cc e), λ (_, c, _). absurd (cc c))
rejection-none false true true t = (λ e. (refl, refl, inl refl), λ h. refl)
rejection-none false true false true = (λ e. (refl, refl, inr refl), λ h. refl)
rejection-none false true false false =
    (λ e. absurd (cc e), λ (_, _, h). elim h [ inl p ↦ absurd (cc p) | inr t ↦ absurd (cc t) ])

handled-health : (e : Endpoint) → handled health ≡ handled e → e ≡ health
handled-health e h = ap endpoint_of (sym h)
  where
    endpoint_of : Answer → Endpoint
    endpoint_of (status n) = health
    endpoint_of (handled e) = e

not_handled : (n : ℕ) (e : Endpoint) → status n ≢ handled e
not_handled n e h = cc h

dispatch-opened :
    (method : Text) (e : Endpoint) → dispatch method (text "/health") ≡ handled e → e ≡ health
unfolding dispatch
dispatch-opened method e h = elim (Bool-cases (text_eq method (text "GET"))) [
  | inl g ↦ handled-health e (rw g at h)
  | inr g ↦ elim (Bool-cases (text_eq method (text "POST"))) [
    | inl k ↦ absurd (not_handled 405 e (rw (g, k) at h))
    | inr k ↦ absurd (not_handled 405 e (rw (g, k) at h))
  ]
]

dispatch-opened_z :
    (method : Text) (e : Endpoint) → dispatch method (text "/healthz") ≡ handled e → e ≡ health
unfolding dispatch
dispatch-opened_z method e h = elim (Bool-cases (text_eq method (text "GET"))) [
  | inl g ↦ handled-health e (rw g at h)
  | inr g ↦ elim (Bool-cases (text_eq method (text "POST"))) [
    | inl k ↦ absurd (not_handled 405 e (rw (g, k) at h))
    | inr k ↦ absurd (not_handled 405 e (rw (g, k) at h))
  ]
]

dispatch-health :
    (method path : Text) (e : Endpoint)
    → is_open path ≡ true
    → dispatch method path ≡ handled e
    → e ≡ health
dispatch-health method path e open_path h = elim (Bool-cases (text_eq path (text "/health"))) [
  | inl p ↦ opened path (text_eq→eq path (text "/health") p) h
  | inr p ↦
      let q : text_eq path (text "/healthz") ≡ true = ground arith in
      opened_z path (text_eq→eq path (text "/healthz") q) h
]
  where
    opened : (path : Text) → path ≡ text "/health" → dispatch method path ≡ handled e → e ≡ health
    opened path p h =
        let h' : dispatch method (text "/health") ≡ handled e = rw p at h in
        dispatch-opened method e h'

    opened_z :
        (path : Text) → path ≡ text "/healthz" → dispatch method path ≡ handled e → e ≡ health
    opened_z path p h =
        let h' : dispatch method (text "/healthz") ≡ handled e = rw p at h in
        dispatch-opened_z method e h'

module _ (as_bytes : Text → List ℕ) where
  unfoldable pub token_matches : Option Text → Text → Bool
  token_matches none expected = false
  token_matches (some presented) expected = same_bytes (as_bytes presented) (as_bytes expected)

  -- The status of the answer that refuses a request.
  unfoldable pub reject_untrusted : HttpRequest → Text → Option ℕ
  reject_untrusted request expected_token =
      rejection (is_some (header_value (text "origin") request.headers))
        (is_some (header_value client_header request.headers)) (is_open request.path)
        (token_matches (header_value token_header request.headers) expected_token)

  abbrev pub unless_rejected : Option ℕ → Answer → Answer
  unless_rejected none answer = answer
  unless_rejected (some code) answer = status code

  unfoldable pub route : HttpRequest → Text → Answer
  route request token =
      unless_rejected (reject_untrusted request token) (dispatch request.method request.path)

  -- What UTF-8 promises: bytes below 256, and one encoding for each text.
  module _ (bytes_small : (t : Text) → AllBytes (as_bytes t))
      (bytes_inj : (s t : Text) → as_bytes s ≡ as_bytes t → s ≡ t) where
    token_matches_lem :
        (presented : Option Text) (expected : Text)
        → (token_matches presented expected ≡ true) ↔ (presented ≡ some expected)
    unfolding token_matches
    token_matches_lem none expected = (λ e. absurd (cc e), λ e. absurd (cc e))
    token_matches_lem (some presented) expected =
        let same =
          same_bytes-eq (as_bytes presented) (as_bytes expected) (bytes_small presented)
            (bytes_small expected) in
        (
          λ e. ap some (bytes_inj presented expected (same.0 e)),
          λ e. same.1 (ap as_bytes (some-injective _ _ e)),
        )

    is_some-none : (o : Option Text) → (is_some o ≡ false) ↔ (o ≡ none)
    is_some-none none = (λ e. refl, λ e. refl)
    is_some-none (some t) = (λ e. absurd (cc e), λ e. absurd (cc e))

    -- A request is let through exactly if it has no `origin` header, has the client's header, and is
    -- for the health of the endpoint or shows the session's token.
    reject_untrusted_lem :
        (request : HttpRequest) (token : Text)
        → (reject_untrusted request token ≡ none) ↔ (
            (header_value (text "origin") request.headers ≡ none)
            × (is_some (header_value client_header request.headers) ≡ true)
            × ((is_open request.path ≡ true)
                ⊎ (header_value token_header request.headers ≡ some token)))
    unfolding reject_untrusted
    reject_untrusted_lem request token =
        let origin = header_value (text "origin") request.headers in
        let shown = header_value token_header request.headers in
        let client = is_some (header_value client_header request.headers) in
        let tests =
          rejection-none (is_some origin) client (is_open request.path)
            (token_matches shown token) in
        let right = token_matches_lem shown token in
        (
          λ e.
              let (o, c, t) = tests.0 e in
              ((is_some-none origin).0 o, c, elim t [ inl p ↦ inl p | inr m ↦ inr (right.0 m) ]),
          λ (o, c, t).
              tests.1
                ((is_some-none origin).1 o, c, elim t [ inl p ↦ inl p | inr m ↦ inr (right.1 m) ]),
        )

    let_through :
        (code : Option ℕ) (answer : Answer) (e : Endpoint)
        → unless_rejected code answer ≡ handled e
        → (code ≡ none) × (answer ≡ handled e)
    let_through none answer e h = (refl, h)
    let_through (some n) answer e h = absurd (not_handled n e h)

    -- A handler but that for the health of the endpoint runs only for a request that shows the
    -- session's token; no handler runs for a request with an `origin` header or without the client's.
    pub route-handled :
        (request : HttpRequest) (token : Text) (e : Endpoint)
        → route request token ≡ handled e
        → (header_value (text "origin") request.headers ≡ none)
          × (is_some (header_value client_header request.headers) ≡ true)
          × ((e ≡ health) ⊎ (header_value token_header request.headers ≡ some token))
    unfolding route
    route-handled request token e h =
        let (free, answer) =
          let_through (reject_untrusted request token) (dispatch request.method request.path) e h in
        let (o, c, t) = (reject_untrusted_lem request token).0 free in
        (
          o,
          c,
          elim t [
            | inr m ↦ inr m
            | inl p ↦ inl (dispatch-health request.method request.path e p answer)
          ],
        )
