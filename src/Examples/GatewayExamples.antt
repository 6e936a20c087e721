-- ===== src/Examples/GatewayExamples.antt =====
-- src-tauri/src/coding_agent_gateway.rs: a chat request in three pieces, and who may send it.
use open_mind_ai.Base.{
  ℕ, zero, suc, ◌+◌, ◌≤◌, ◌<◌, ◌≡◌, ◌⊎◌, refl, sym, ◌∙◌, ap, true, Option, none, some, List, [],
  ◌∷◌, ◌++◌, if◌then◌else◌, ltb, any, take, arith,
}
use open_mind_ai.Base.Int.{pos}
use open_mind_ai.Base.Text.{Text, text}
use open_mind_ai.Gateway.{
  HttpRequest, complete, crlf, drop, request_with_body, header_value, after_head, parse_head,
  parse_text, read_request, split_lines, split_once, before, find_head_end, read_head, read_body,
}
use open_mind_ai.Gateway.Chunks.{sent, joined, read_request-sent}
use open_mind_ai.Gateway.Print.{AllHeaders, print_head}
use open_mind_ai.Gateway.Requests.{read_request-print_request}
use open_mind_ai.Gateway.Trust.{AllBytes, same_bytes}
use open_mind_ai.Gateway.Route.{
  is_some, client_header, token_header, chat, health, handled, dispatch, token_matches,
  reject_untrusted, route, route-handled,
}
use open_mind_ai.Gateway.Budget.{
  requested_max_tokens, output_budget, output_budget_lem, Posted, answered, Outcome, final_status,
  post_with_retry, AllBusy, post_with_retry-ends,
}

-- UTF-8 on ASCII.
abbrev ascii : List ℕ → Option Text
ascii bs = if any (λ b. ltb 127 b) bs then none else some bs

abbrev chat_headers : List (Text × Text)
chat_headers =
    (text "x-openmindai-client", text "vscode")
    ∷ (text "x-openmindai-token", text "ab")
    ∷ (text "content-length", text "2")
    ∷ []

are_headers : AllHeaders chat_headers
are_headers = (
  (refl, refl, refl, refl, refl),
  ((refl, refl, refl, refl, refl), ((refl, refl, refl, refl, refl), tt)),
)

abbrev chat_bytes : List ℕ
chat_bytes =
    text "POST /v1/chat/completions HTTP/1.1"
    ++ (crlf
        ++ (text "x-openmindai-client: vscode"
            ++ (crlf
                ++ (text "x-openmindai-token: ab"
                    ++ (crlf ++ (text "content-length: 2" ++ (crlf ++ (crlf ++ text "{}"))))))))

abbrev piece : List ℕ → List (ℕ × List ℕ)
piece [] = []
piece (b ∷ bs) = (b, bs) ∷ []

abbrev pieces : List (ℕ × List ℕ)
pieces = piece (take 60 chat_bytes) ++ piece (drop 60 chat_bytes)

reads_chat :
    read_request ascii (sent pieces)
    ≡ complete
        (request_with_body (text "POST", text "/v1/chat/completions", chat_headers) (text "{}"))
unfolding read_request read_head read_body after_head parse_head parse_text split_lines split_once
    before find_head_end header_value
reads_chat = refl

read_request-sent_example :
    read_request ascii (sent pieces)
    ≡ after_head (parse_head ascii (take 106 (joined pieces))) [] (drop (106 + 4) (joined pieces))
unfolding find_head_end
read_request-sent_example = read_request-sent ascii pieces 106 refl (omega arith)

read_request-print_request_example :
    read_request ascii (sent pieces)
    ≡ complete
        (request_with_body (text "POST", text "/v1/chat/completions", chat_headers) (text "{}"))
unfolding print_head header_value
read_request-print_request_example =
    read_request-print_request ascii (text "POST") (text "/v1/chat/completions") chat_headers
      (text "{}") pieces refl refl refl refl refl are_headers refl (omega arith) refl refl
      (omega arith) refl

-- An encoding of texts by small numbers: each character in unary.
abbrev ones : ℕ → List ℕ → List ℕ
ones zero rest = 0 ∷ rest
ones (suc n) rest = 1 ∷ ones n rest

abbrev encode : Text → List ℕ
encode [] = []
encode (c ∷ s) = ones c (encode s)

abbrev decode : ℕ → List ℕ → Text
decode n [] = []
decode n (zero ∷ bs) = n ∷ decode 0 bs
decode n (suc b ∷ bs) = decode (suc n) bs

decode-ones : (c n : ℕ) (rest : List ℕ) → decode n (ones c rest) ≡ (n + c) ∷ decode 0 rest
decode-ones zero n rest = ap (λ k. k ∷ decode 0 rest) (omega arith)
decode-ones (suc c) n rest = decode-ones c (suc n) rest ∙ ap (λ k. k ∷ decode 0 rest) (omega arith)

decode-encode : (s : Text) → decode 0 (encode s) ≡ s
decode-encode [] = refl
decode-encode (c ∷ s) =
    decode-ones c 0 (encode s)
    ∙ ap (λ k. k ∷ decode 0 (encode s)) (omega arith)
    ∙ ap (λ t. c ∷ t) (decode-encode s)

encode_inj : (s t : Text) → encode s ≡ encode t → s ≡ t
encode_inj s t e = sym (decode-encode s) ∙ ap (decode 0) e ∙ decode-encode t

ones-AllBytes : (c : ℕ) (rest : List ℕ) → AllBytes rest → AllBytes (ones c rest)
ones-AllBytes zero rest h = (omega arith, h)
ones-AllBytes (suc c) rest h = (omega arith, ones-AllBytes c rest h)

encode-AllBytes : (s : Text) → AllBytes (encode s)
encode-AllBytes [] = tt
encode-AllBytes (c ∷ s) = ones-AllBytes c (encode s) (encode-AllBytes s)

abbrev chat_request : HttpRequest
chat_request =
    request_with_body (text "POST", text "/v1/chat/completions", chat_headers) (text "{}")

chat_handled : route encode chat_request (text "ab") ≡ handled chat
unfolding route reject_untrusted dispatch token_matches header_value same_bytes
chat_handled = refl

route-handled_example :
    (header_value (text "origin") chat_headers ≡ none)
    × (is_some (header_value client_header chat_headers) ≡ true)
    × ((chat ≡ health) ⊎ (header_value token_header chat_headers ≡ some (text "ab")))
route-handled_example =
    route-handled encode encode-AllBytes encode_inj chat_request (text "ab") chat chat_handled

output_budget_lem_example :
    ((output_budget (requested_max_tokens (some (some (pos 4000))) none) 8192 5000 ≡ none)
      × (8192 < 5000 + 80))
    ⊎ ((b : ℕ) × (output_budget (requested_max_tokens (some (some (pos 4000))) none) 8192 5000
          ≡ some b)
        × (16 ≤ b)
        × (b ≤ 8192)
        × (5000 + b + 64 ≤ 8192)
        × ((b ≡ requested_max_tokens (some (some (pos 4000))) none) ⊎ (5000 + b + 64 ≡ 8192)))
output_budget_lem_example = output_budget_lem (some (some (pos 4000))) none 8192 5000

abbrev busy : ℕ → List Posted → List Posted
busy zero posts = posts
busy (suc n) posts = answered 503 ∷ busy n posts

post_with_retry-ends_example :
    (o : Outcome) × (post_with_retry 0 (busy 3 (answered 200 ∷ busy 8 [])) ≡ some o)
    × ((o ≡ final_status 503) → AllBusy 11 (busy 3 (answered 200 ∷ busy 8 [])))
post_with_retry-ends_example =
    post_with_retry-ends (busy 3 (answered 200 ∷ busy 8 [])) (omega arith)
