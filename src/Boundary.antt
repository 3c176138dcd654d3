-- ===== src/Boundary.antt =====
-- The ASGI middlewares of http_boundary.py: the address of the client (`resolve_client_ip`) and the
-- limit on bodies (`RequestBodyLimitMiddleware`). A header is its name and value as bytes, which
-- `latin-1` decodes to the same code points. Addresses with their parser, the networks and the parser
-- of JSON belong to libraries and are parameters. What `receive` gives is a list of messages.
use Prim.Native.Char.{code}
use Prim.Native.String.{String}
use recallum_mcp.Prelude.{
  ℕ, ◌+◌, ◌-◌, ◌*◌, Bool, true, false, not, ◌&&◌, ◌||◌, Option, none, some, List, [], ◌∷◌, ◌++◌,
  map, length, keep, any_of, leb, ltb, ◌==◌, if◌then◌else◌,
}
use recallum_mcp.Validate.{Text, is_empty, lstrip, rstrip}
mod Attributed
mod Collected
pub mod Guard
mod Examples

abbrev pub codes : String → Text
codes String.[] = []
codes (String.◌∷◌ c s) = code c ∷ codes s

abbrev pub same_text : Text → Text → Bool
same_text [] [] = true
same_text (a ∷ s) (b ∷ t) = (a == b) && same_text s t
same_text _ _ = false

abbrev pub starts_with : Text → Text → Bool
starts_with s [] = true
starts_with [] (b ∷ t) = false
starts_with (a ∷ s) (b ∷ t) = (a == b) && starts_with s t

-- `part in text`
abbrev pub contains : Text → Text → Bool
contains part [] = starts_with [] part
contains part (a ∷ s) = starts_with (a ∷ s) part || contains part s

-- `.lower()` of the letters of ASCII.
abbrev pub lower : Text → Text
lower = map (λ c. if leb b'A' c && leb c b'Z' then c + 32 else c)

-- `text.split(",")`: the part before the first comma goes in front of the others.
abbrev pub prepend : ℕ → List Text → List Text
prepend c [] = (c ∷ []) ∷ []
prepend c (part ∷ parts) = (c ∷ part) ∷ parts

abbrev pub split_commas : Text → List Text
split_commas [] = [] ∷ []
split_commas (c ∷ s) = if c == b',' then [] ∷ split_commas s else prepend c (split_commas s)

module _ {Address Network : Type 0} (space : ℕ → Bool) (ip_address : Text → Option Address)
    (show : Address → Text) (within : Address → Network → Bool) where
  abbrev pub is_trusted : List Network → Address → Bool
  is_trusted networks address = any_of (within address) networks

  -- `[ip_address(item) for item in raw_addresses]`, or `none` for its ValueError.
  abbrev pub parse_all : List Text → Option (List Address)
  parse_all [] = some []
  parse_all (item ∷ items) =
      let rest = parse_all items in
      elim (ip_address item) [
        | none ↦ none
        | some a ↦ elim rest [ none ↦ none | some chain ↦ some (a ∷ chain) ]
      ]

  -- The loop over the reversed chain: the last address that is not trusted.
  unfoldable pub last_untrusted : List Network → List Address → Option Address
  last_untrusted networks [] = none
  last_untrusted networks (a ∷ chain) =
      let rest = last_untrusted networks chain in
      elim rest [ some b ↦ some b | none ↦ if is_trusted networks a then none else some a ]

  abbrev pub raw_addresses : Text → List Text
  raw_addresses forwarded =
      map (λ item. rstrip (λ t. t) space (lstrip (λ t. t) space item)) (split_commas forwarded)

  -- What follows the test of the peer, for its address and the parsed chain.
  unfoldable pub attribute : List Network → Address → Option (List Address) → Text
  attribute networks immediate none = show immediate
  attribute networks immediate (some chain) = elim (last_untrusted networks chain) [
    | none ↦ show immediate
    | some a ↦ show a
  ]

  unfoldable pub resolve_client_ip : Option Text → Option Text → List Network → Option Text
  resolve_client_ip none forwarded networks = elim (ip_address []) [
    | none ↦ none
    | some a ↦ some (show a)
  ]
  resolve_client_ip (some peer) none networks = elim (ip_address peer) [
    | none ↦ some peer
    | some immediate ↦ some (show immediate)
  ]
  resolve_client_ip (some peer) (some forwarded) networks = elim (ip_address peer) [
    | none ↦ some peer
    | some immediate ↦
        if not (is_trusted networks immediate) || is_empty forwarded
        then some (show immediate)
        else if any_of is_empty (raw_addresses forwarded)
        then some (show immediate)
        else some (attribute networks immediate (parse_all (raw_addresses forwarded)))
  ]

abbrev pub Headers : Type 0
Headers = List (Text × Text)

-- The values of the headers of a name, in order.
abbrev pub header_values : Text → Headers → List Text
header_values name [] = []
header_values name ((n, value) ∷ headers) =
    if same_text (lower n) name
    then value ∷ header_values name headers
    else header_values name headers

-- `",".join(values) or None`
abbrev pub join_commas : List Text → Text
join_commas [] = []
join_commas (value ∷ []) = value
join_commas (value ∷ next ∷ values) = value ++ (b',' ∷ join_commas (next ∷ values))

abbrev pub forwarded_for : Headers → Option Text
forwarded_for headers =
    let joined = join_commas (header_values (codes "x-forwarded-for") headers) in
    if is_empty joined then none else some joined

-- `str.isdigit` of a code point below 256: the digits, and the superscripts one, two and three.
abbrev pub is_decimal : ℕ → Bool
is_decimal c = leb b'0' c && leb c b'9'

abbrev pub is_digit : ℕ → Bool
is_digit c = is_decimal c || (c == 178 || (c == 179 || c == 185))

abbrev pub all_of : (ℕ → Bool) → Text → Bool
all_of p [] = true
all_of p (c ∷ s) = p c && all_of p s

abbrev pub int_from : ℕ → Text → ℕ
int_from n [] = n
int_from n (c ∷ s) = int_from (n * 10 + (c - b'0')) s

-- `_declared_length`; the ValueError is that of `int` for a superscript, or for more than 4300 digits.
pub data Declared : Type 0 where
  undeclared value_error : Declared
  declared : ℕ → Declared

abbrev pub length_of : Text → Declared
length_of value =
    if is_empty value || not (all_of is_digit value)
    then undeclared
    else if all_of is_decimal value && leb (length value) 4300
    then declared (int_from 0 value)
    else value_error

abbrev pub single_length : List Text → Declared
single_length (value ∷ []) = length_of value
single_length _ = undeclared

unfoldable pub declared_length : Headers → Declared
declared_length headers = single_length (header_values (codes "content-length") headers)

-- A message of `receive`; a type that the loop does not look at is `other`.
pub data Message : Type 0 where
  request : Text → Bool → Message
  disconnect other : Message

-- How the loop ends: the body is too large, or it has the messages kept and leaves those behind them;
-- or it waits for a message when there are no more.
pub data Received : Type 0 where
  oversized : Received
  waits : Received
  kept : List Message → List Message → Received

abbrev pub keep_first : Message → Received → Received
keep_first m (kept messages rest) = kept (m ∷ messages) rest
keep_first m oversized = oversized
keep_first m waits = waits

-- The loop, with the total so far.
unfoldable pub receive_all : ℕ → ℕ → List Message → Received
receive_all limit total [] = waits
receive_all limit total (disconnect ∷ incoming) = kept (disconnect ∷ []) incoming
receive_all limit total (other ∷ incoming) = receive_all limit total incoming
receive_all limit total (request body more ∷ incoming) =
    let rest = receive_all limit (total + length body) incoming in
    if ltb limit (total + length body)
    then oversized
    else if more
    then keep_first (request body more) rest
    else kept (request body more ∷ []) incoming

pub record Limits : Type 0 where
  pub general_body_bytes : ℕ
  pub login_body_bytes : ℕ
  pub password_max_chars : ℕ

abbrev pub under : String → Text → Bool
under base path = same_text path (codes base) || starts_with path (codes base ++ (b'/' ∷ []))

-- `_limit_for`
unfoldable pub limit_for : Limits → Text → Option ℕ
limit_for l path =
    if same_text path (codes "/api/v1/auth/login")
    then some l.login_body_bytes
    else if under "/api/v1" path
    then some l.general_body_bytes
    else if under "/mcp" path
    then some l.general_body_bytes
    else none

-- `b"".join(…)` of the bodies
abbrev pub joined_body : List Message → Text
joined_body [] = []
joined_body (request body more ∷ messages) = body ++ joined_body messages
joined_body (disconnect ∷ messages) = joined_body messages
joined_body (other ∷ messages) = joined_body messages

abbrev pub first_or_empty : List Text → Text
first_or_empty [] = []
first_or_empty (value ∷ values) = value

pub record Scope : Type 0 where
  pub path : Text
  pub headers : Headers

-- What the middleware does with a request: the application runs with the server's `receive`, or on the
-- messages kept, where those left are not read and a disconnect follows its response; or a response
-- is sent, or a ValueError is raised, or it waits.
pub data Handled : Type 0 where
  passed_on : Handled
  replayed : List Message → List Message → Handled
  too_large password_too_long failed waiting : Handled

-- The length of the field "password" of a body that is a JSON object and has it as a string.
module _ (password_length : Text → Option ℕ) where
  unfoldable pub password_exceeds_limit : Limits → Scope → List Message → Bool
  password_exceeds_limit l scope messages =
      let content_type =
        lower (first_or_empty (header_values (codes "content-type") scope.headers)) in
      if not (under "/api/v1" scope.path) || not (contains (codes "application/json") content_type)
      then false
      else elim (password_length (joined_body messages)) [
        | none ↦ false
        | some n ↦ ltb l.password_max_chars n
      ]

  unfoldable pub replay : Limits → Scope → Received → Handled
  replay l scope oversized = too_large
  replay l scope waits = waiting
  replay l scope (kept messages rest) =
      if password_exceeds_limit l scope messages then password_too_long else replayed messages rest

  abbrev pub receive_declared : Limits → Scope → ℕ → List Message → Declared → Handled
  receive_declared l scope limit incoming value_error = failed
  receive_declared l scope limit incoming undeclared = replay l scope (receive_all limit 0 incoming)
  receive_declared l scope limit incoming (declared n) =
      if ltb limit n then too_large else replay l scope (receive_all limit 0 incoming)

  -- `RequestBodyLimitMiddleware.__call__` for a request of type "http".
  unfoldable pub limit_body : Limits → Scope → List Message → Handled
  limit_body l scope incoming = elim (limit_for l scope.path) [
    | none ↦ passed_on
    | some limit ↦ receive_declared l scope limit incoming (declared_length scope.headers)
  ]
