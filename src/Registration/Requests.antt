-- ===== src/Registration/Requests.antt =====
-- internal/machinereg/store.go: the requests that wait for an administrator. `saved` says whether
-- the file was written, and `candidates` are the numbers drawn, `none` where none could be read.
use herdr_pal.Prelude.{
  ℕ, List, [], ◌∷◌, map, Bool, true, false, ◌||◌, ◌&&◌, not, Option, none, some, ◌==◌, nat_eq, ltb,
  if◌then◌else◌, any, take, Result, ok, err,
}
use herdr_pal.Prelude.Maps.{Map, lookup, insert, delete}
use herdr_pal.Prelude.Sort.{sort}
use herdr_pal.Prelude.Text.{Text, text_eq, text_lt}
use herdr_pal.Credential.{Primitives}
use herdr_pal.Credential.Sources.{normalize_source_rules}
use herdr_pal.Credential.Key.{valid_principal_id, valid_machine_id}
use herdr_pal.Registration.{
  Request, RegistrationError, invalid_request, request_not_found, persist_failed,
}

abbrev pub registration_id_max_attempts : ℕ
registration_id_max_attempts = 8

abbrev pub Requests : Type 0
Requests = Map Text Request

unfoldable pub rules_match : List Text → List Text → Bool
rules_match [] [] = true
rules_match (x ∷ xs) (y ∷ ys) = x == y && rules_match xs ys
rules_match [] (y ∷ ys) = false
rules_match (x ∷ xs) [] = false

-- `validateSources`
unfoldable pub validate_sources : Primitives → List Text → Bool
unfolding rules_match
validate_sources p sources = elim (normalize_source_rules p sources) [
  | err e ↦ false
  | ok rules ↦ rules_match rules sources
]

-- `validateRequest`; `is_registration_id` is `validRegistrationID`, which rests on base64.
unfoldable pub validate_request : Primitives → (Text → Bool) → Request → Bool
unfolding validate_sources
validate_request p is_registration_id r =
    is_registration_id r.registration_id
    && valid_principal_id r.principal_id
    && valid_machine_id r.machine_id
    && not (r.requested_at == 0)
    && validate_sources p r.allowed_sources

abbrev pub is_for : Text → Text → Request → Bool
is_for principal_id machine_id r = r.principal_id == principal_id && r.machine_id == machine_id

-- `Find`
unfoldable pub find_request : Requests → Text → Text → Option Request
find_request [] principal_id machine_id = none
find_request ((key, r) ∷ rest) principal_id machine_id =
    if is_for principal_id machine_id r then some r else find_request rest principal_id machine_id

-- `HasPrincipal`
unfoldable pub requests_of : Requests → Text → Bool
requests_of m principal_id = any (λ e. e.1.principal_id == principal_id) m

-- `Show`
unfoldable pub show_request : Requests → Text → Result RegistrationError Request
show_request m registration_id = elim (lookup registration_id m) [
  | none ↦ err request_not_found
  | some r ↦ ok r
]

-- The loop of `Create` that draws a number that is not taken.
unfoldable pub draw_id : Requests → List (Option Text) → Option Text
draw_id m [] = none
draw_id m (none ∷ more) = none
draw_id m (some id ∷ more) = elim (lookup id m) [ none ↦ some id | some r ↦ draw_id m more ]

-- The end of `Create`.
unfoldable pub save_request :
    Primitives
    → (Text → Bool)
    → Requests
    → Request
    → Bool
    → Requests × Result RegistrationError (Request × Bool)
unfolding validate_request
save_request p is_registration_id m r saved =
    if not (validate_request p is_registration_id r)
    then (m, err invalid_request)
    else if saved
    then (insert r.registration_id r m, ok (r, true))
    else (m, err persist_failed)

-- `Create`
unfoldable pub create_request :
    Primitives
    → (Text → Bool)
    → Requests
    → Text
    → Text
    → List Text
    → List (Option Text)
    → ℕ
    → Bool
    → Requests × Result RegistrationError (Request × Bool)
unfolding save_request draw_id find_request validate_sources
create_request p is_registration_id m principal_id machine_id sources candidates now saved =
    if not (valid_principal_id principal_id)
      || not (valid_machine_id machine_id)
      || not (validate_sources p sources)
    then (m, err invalid_request)
    else elim (find_request m principal_id machine_id) [
      | some r ↦ (m, ok (r, false))
      | none ↦ elim (draw_id m (take registration_id_max_attempts candidates)) [
        | none ↦ (m, err invalid_request)
        | some id ↦
            save_request p is_registration_id m
              (record {
                registration_id = id;
                principal_id = principal_id;
                machine_id = machine_id;
                allowed_sources = sources;
                requested_at = now;
              })
              saved
      ]
    ]

-- The order of `sortedRequests`.
unfoldable pub request_less : Request → Request → Bool
request_less a b =
    if a.requested_at == b.requested_at
    then text_lt a.registration_id b.registration_id
    else ltb a.requested_at b.requested_at

-- `List`
unfoldable pub list_requests : Requests → List Request
unfolding request_less
list_requests m = sort request_less (map (λ e. e.1) m)

-- `Delete`
unfoldable pub delete_request : Requests → Text → Bool → Requests × Result RegistrationError Request
delete_request m registration_id saved = elim (lookup registration_id m) [
  | none ↦ (m, err request_not_found)
  | some r ↦ if saved then (delete registration_id m, ok r) else (m, err persist_failed)
]
