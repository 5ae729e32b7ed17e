-- ===== src/Api/Server/Headers.antt =====
-- internal/api/server.go: whom the log names for a cancel: `resolveCancelRequester`,
-- `resolveSourceIP` and `cancelInternalHeaders`. `net.SplitHostPort` is a parameter.
use markets_service.Base.{List, [], ◌∷◌, ◌++◌, Option, none, some, ◌==◌, if◌then◌else◌}
use markets_service.Text.{Text, codes, is_empty, is_space, to_lower, trim_space}

-- `r.Header.Get`
abbrev pub Header : Type 0
Header = Text → Text

-- The first key whose value is not blank.
unfoldable pub first_given : Header → List Text → Option Text
first_given get [] = none
first_given get (key ∷ keys) =
    let rest = first_given get keys in
    if is_empty (trim_space (get key)) then rest else some (trim_space (get key))

-- `strings.Fields(value)[0]`, of a text that starts with no white space.
unfoldable pub first_field : Text → Text
first_field [] = []
first_field (c ∷ s) = let rest = first_field s in if is_space c then [] else c ∷ rest

-- `strings.Split(value, ",")[0]`
unfoldable pub to_comma : Text → Text
to_comma [] = []
to_comma (c ∷ s) = let rest = to_comma s in if c == b',' then [] else c ∷ rest

abbrev pub principal_keys : List Text
principal_keys =
    codes "X-Principal"
    ∷ codes "X-Authenticated-User"
    ∷ codes "X-Forwarded-User"
    ∷ codes "X-User"
    ∷ codes "X-User-ID"
    ∷ []

unfoldable pub authorized : Text → Text
unfolding first_field
authorized value =
    if is_empty value then codes "anonymous" else to_lower (first_field value) ++ codes "_token"

-- `resolveCancelRequester`
unfoldable pub resolve_cancel_requester : Header → Text
unfolding first_given authorized
resolve_cancel_requester get = elim (first_given get principal_keys) [
  | some value ↦ value
  | none ↦ authorized (trim_space (get (codes "Authorization")))
]

unfoldable pub host_or : Option Text → Text → Text
host_or none address = trim_space address
host_or (some host) address = if is_empty host then trim_space address else host

-- `resolveSourceIP`
unfoldable pub resolve_source_ip : (Text → Option Text) → Header → Text → Text
unfolding to_comma first_given host_or
resolve_source_ip split_host_port get remote_addr =
    let forwarded = trim_space (to_comma (trim_space (get (codes "X-Forwarded-For")))) in
    if is_empty forwarded
    then (elim (first_given get (codes "X-Real-IP" ∷ codes "CF-Connecting-IP" ∷ [])) [
      | some ip ↦ ip
      | none ↦ host_or (split_host_port (trim_space remote_addr)) remote_addr
    ])
    else forwarded

abbrev pub internal_keys : List Text
internal_keys =
    codes "X-Forwarded-For"
    ∷ codes "X-Real-IP"
    ∷ codes "X-Forwarded-Proto"
    ∷ codes "X-Forwarded-Host"
    ∷ codes "X-Forwarded-Port"
    ∷ codes "X-Envoy-External-Address"
    ∷ codes "X-Request-ID"
    ∷ codes "X-Railway-Edge"
    ∷ codes "X-Railway-Request-ID"
    ∷ codes "Fly-Client-IP"
    ∷ codes "CF-Connecting-IP"
    ∷ codes "True-Client-IP"
    ∷ []

unfoldable pub given_headers : Header → List Text → List (Text × Text)
given_headers get [] = []
given_headers get (key ∷ keys) =
    let rest = given_headers get keys in
    if is_empty (trim_space (get key)) then rest else (key, trim_space (get key)) ∷ rest

-- `cancelInternalHeaders`
unfoldable pub cancel_internal_headers : Header → List (Text × Text)
unfolding given_headers
cancel_internal_headers get = given_headers get internal_keys
