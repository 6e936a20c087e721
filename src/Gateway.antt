-- ===== src/Gateway.antt =====
-- src-tauri/src/coding_agent_gateway.rs: how the loopback endpoint reads a request and whom it trusts. A
-- stream is the list of the reads from it; at the end of the list the reader is still waiting, until
-- the time limit of `handle_connection`. Bytes are numbers, and UTF-8 is a parameter. An answer is its
-- status; the message in its body is left out.
pub mod Chunks
pub mod Print
pub mod Trust
pub mod Route
pub mod Budget
pub mod Requests
use open_mind_ai.Base.{
  ℕ, zero, suc, ◌+◌, ◌-◌, ◌*◌, ◌^◌, Bool, true, false, not, ◌&&◌, Option, none, some, List, [], ◌∷◌,
  ◌++◌, if◌then◌else◌, ltb, leb, ◌==◌, length, take, any, find,
}
use open_mind_ai.Base.Text.{Text, text, text_eq, starts_with, trim, to_ascii_lowercase}

pub record HttpRequest : Type 0 where
  pub method : Text
  pub path : Text
  pub headers : List (Text × Text)
  pub body : List ℕ

-- The result of reading: a request, an answer that refuses it, or more to wait for.
pub data Reading : Type 0 where
  complete : HttpRequest → Reading
  refused : ℕ → Reading
  waiting : Reading

-- One read from the stream: the bytes received, of which there are none when it is closed, or an error.
pub data Read : Type 0 where
  received : List ℕ → Read
  failed : Read

abbrev pub max_header_bytes : ℕ
max_header_bytes = 32 * 1024

abbrev pub max_body_bytes : ℕ
max_body_bytes = 8 * 1024 * 1024

abbrev pub crlf : List ℕ
crlf = 13 ∷ (10 ∷ [])

-- `buffer[n..]`.
abbrev pub drop : ℕ → List ℕ → List ℕ
drop zero xs = xs
drop (suc n) [] = []
drop (suc n) (x ∷ xs) = drop n xs

abbrev pub map_suc : Option ℕ → Option ℕ
map_suc none = none
map_suc (some n) = some (suc n)

unfoldable pub find_head_end : List ℕ → Option ℕ
find_head_end [] = none
find_head_end (b ∷ bs) =
    let later = map_suc (find_head_end bs) in
    if starts_with (b ∷ bs) (crlf ++ crlf) then some 0 else later

abbrev pub first_line : ℕ → List Text → List Text
first_line c [] = (c ∷ []) ∷ []
first_line c (line ∷ lines) = (c ∷ line) ∷ lines

-- `split("\r\n")`.
unfoldable pub split_lines : Text → List Text
split_lines [] = [] ∷ []
split_lines (c ∷ []) = (c ∷ []) ∷ []
split_lines (c ∷ (d ∷ s)) =
    let rest = split_lines s in
    let further = split_lines (d ∷ s) in
    if c == 13 && d == 10 then [] ∷ rest else first_line c further

-- `split_once(c)`.
abbrev pub before_after : ℕ → Option (Text × Text) → Option (Text × Text)
before_after c none = none
before_after c (some (a, b)) = some (c ∷ a, b)

unfoldable pub split_once : ℕ → Text → Option (Text × Text)
split_once sep [] = none
split_once sep (c ∷ s) =
    let later = before_after c (split_once sep s) in if c == sep then some ([], s) else later

-- `split(c).next()`: the text before the first occurrence.
unfoldable pub before : ℕ → Text → Text
before sep [] = []
before sep (c ∷ s) = let rest = c ∷ before sep s in if c == sep then [] else rest

-- The first three words of a request line: its method, its target and its version.
abbrev pub target_version : Text → Option (Text × Text) → Option (Text × Text × Text)
target_version method none = none
target_version method (some (target, rest)) = some (method, target, before 32 rest)

abbrev pub words_of : Option (Text × Text) → Option (Text × Text × Text)
words_of none = none
words_of (some (method, rest)) = target_version method (split_once 32 rest)

abbrev pub header_of : Option (Text × Text) → Option (Text × Text)
header_of none = none
header_of (some (key, value)) = some (to_ascii_lowercase (trim key), trim value)

abbrev pub add_header :
    Option (Text × Text) → Option (List (Text × Text)) → Option (List (Text × Text))
add_header none headers = none
add_header (some h) none = none
add_header (some h) (some headers) = some (h ∷ headers)

abbrev pub parse_headers : List Text → Option (List (Text × Text))
parse_headers [] = some []
parse_headers (line ∷ lines) =
    let rest = parse_headers lines in
    if text_eq line [] then rest else add_header (header_of (split_once 58 line)) rest

-- `none` is an error. The first line of the head is its request line.
abbrev pub head_of :
    Option (Text × Text × Text)
    → Option (List (Text × Text))
    → Option (Text × Text × List (Text × Text))
head_of none headers = none
head_of (some (method, target, version)) none = none
head_of (some (method, target, version)) (some headers) =
    if starts_with version (text "HTTP/1.") then some (method, before 63 target, headers) else none

abbrev pub parse_lines : List Text → Option (Text × Text × List (Text × Text))
parse_lines [] = none
parse_lines (line ∷ lines) = head_of (words_of (split_once 32 line)) (parse_headers lines)

unfoldable pub parse_text : Text → Option (Text × Text × List (Text × Text))
parse_text head = parse_lines (split_lines head)

abbrev pub parse_decoded : Option Text → Option (Text × Text × List (Text × Text))
parse_decoded none = none
parse_decoded (some head) = parse_text head

abbrev pub value_of : Option (Text × Text) → Option Text
value_of none = none
value_of (some (key, value)) = some value

-- The first header with a name.
unfoldable pub header_value : Text → List (Text × Text) → Option Text
header_value name headers = value_of (find (λ h. text_eq h.0 name) headers)

-- `parse::<usize>()`: digits, with a `+` before them at most.
abbrev pub digits_from : ℕ → Text → Option ℕ
digits_from n [] = some n
digits_from n (c ∷ s) =
    let rest = digits_from (n * 10 + (c - 48)) s in
    if leb 48 c && leb c 57 then (if ltb (n * 10 + (c - 48)) (2 ^ 64) then rest else none) else none

abbrev pub digits : Text → Option ℕ
digits [] = none
digits (c ∷ s) = digits_from 0 (c ∷ s)

abbrev pub parse_usize : Text → Option ℕ
parse_usize [] = none
parse_usize (c ∷ s) = if c == 43 then digits s else digits (c ∷ s)

-- The length that the headers announce; `none` is an error.
abbrev pub length_of : Option Text → Option ℕ
length_of none = some 0
length_of (some value) = parse_usize value

abbrev pub is_chunked : Text × Text → Bool
is_chunked h =
    text_eq h.0 (text "transfer-encoding")
    && not (text_eq (to_ascii_lowercase h.1) (text "identity"))

abbrev pub request_with_body : Text × Text × List (Text × Text) → List ℕ → HttpRequest
request_with_body (method, path, headers) body = record {
  method = method;
  path = path;
  headers = headers;
  body = body;
}

-- The loop over the body, with `left` to read; the bytes after it are cut off.
unfoldable pub read_body : Text × Text × List (Text × Text) → ℕ → List Read → List ℕ → Reading
read_body head size [] body =
    if leb size (length body) then complete (request_with_body head (take size body)) else waiting
read_body head size (failed ∷ reads) body =
    if leb size (length body)
    then complete (request_with_body head (take size body))
    else refused 400
read_body head size (received [] ∷ reads) body =
    if leb size (length body)
    then complete (request_with_body head (take size body))
    else refused 400
read_body head size (received (b ∷ bs) ∷ reads) body =
    let rest = read_body head size reads (body ++ (b ∷ bs)) in
    if leb size (length body) then complete (request_with_body head (take size body)) else rest

abbrev pub with_length : Text × Text × List (Text × Text) → Option ℕ → List Read → List ℕ → Reading
with_length head none reads body = refused 400
with_length head (some size) reads body =
    if ltb max_body_bytes size then refused 413 else read_body head size reads body

-- What follows once the head has been parsed.
unfoldable pub after_head : Option (Text × Text × List (Text × Text)) → List Read → List ℕ → Reading
after_head none reads body = refused 400
after_head (some (method, path, headers)) reads body =
    if any is_chunked headers
    then refused 411
    else with_length (method, path, headers)
        (length_of (header_value (text "content-length") headers)) reads body

module _ (from_utf8 : List ℕ → Option Text) where
  unfoldable pub parse_head : List ℕ → Option (Text × Text × List (Text × Text))
  parse_head head = parse_decoded (from_utf8 head)

  abbrev pub split_head : ℕ → List Read → List ℕ → Reading
  split_head head_end reads buffer =
      after_head (parse_head (take head_end buffer)) reads (drop (head_end + 4) buffer)

  -- The loop over the head.
  unfoldable pub read_head : List Read → List ℕ → Reading
  read_head [] buffer = elim (find_head_end buffer) as (λ _. Reading) [
    | some head_end ↦ split_head head_end [] buffer
    | none ↦ if ltb max_header_bytes (length buffer) then refused 431 else waiting
  ]
  read_head (failed ∷ reads) buffer = elim (find_head_end buffer) as (λ _. Reading) [
    | some head_end ↦ split_head head_end (failed ∷ reads) buffer
    | none ↦ if ltb max_header_bytes (length buffer) then refused 431 else refused 400
  ]
  read_head (received [] ∷ reads) buffer = elim (find_head_end buffer) as (λ _. Reading) [
    | some head_end ↦ split_head head_end (received [] ∷ reads) buffer
    | none ↦ if ltb max_header_bytes (length buffer) then refused 431 else refused 400
  ]
  read_head (received (b ∷ bs) ∷ reads) buffer =
      let rest = read_head reads (buffer ++ (b ∷ bs)) in
      elim (find_head_end buffer) as (λ _. Reading) [
        | some head_end ↦ split_head head_end (received (b ∷ bs) ∷ reads) buffer
        | none ↦ if ltb max_header_bytes (length buffer) then refused 431 else rest
      ]

  unfoldable pub read_request : List Read → Reading
  unfolding read_head
  read_request reads = read_head reads []
