-- ===== src/Hprp/Negotiate.antt =====
-- internal/hprp/negotiate.go: the versions of extensions that both sides offer.
use herdr_pal.Prelude.{
  ℕ, List, [], ◌∷◌, map, Bool, true, false, ◌&&◌, ◌||◌, not, Option, none, some, ◌==◌, nat_eq, leb,
  ltb, if◌then◌else◌, all, any,
}
use herdr_pal.Prelude.Decimal.{is_digit, digits_value}
use herdr_pal.Prelude.Maps.{Map, lookup, insert}
use herdr_pal.Prelude.Sort.{sort}
use herdr_pal.Prelude.Text.{Text, text_eq, text_lt, byte_len}

abbrev pub max_extension_name_bytes : ℕ
max_extension_name_bytes = 128

-- The largest Go `int`.
abbrev max_int : ℕ
max_int = 9223372036854775807

unfoldable pub is_lower : ℕ → Bool
is_lower c = leb b'a' c && leb c b'z'

-- Whether a character of a family may stand at the start of a part, or later.
abbrev fits : Bool → ℕ → Bool
fits true c = is_lower c
fits false c = is_lower c || is_digit c || c == b'.'

-- `[a-z][a-z0-9]*(\.[a-z][a-z0-9]*)*`, from the start of a part or from within one.
unfoldable pub is_family : Bool → Text → Bool
unfolding is_lower
is_family at_start [] = not at_start
is_family at_start (c ∷ s) = fits at_start c && is_family (not at_start && c == b'.') s

abbrev push : ℕ → Option (Text × Text) → Option (Text × Text)
push c none = none
push c (some (before, after)) = some (c ∷ before, after)

-- The parts before and after the last `.`.
unfoldable pub split_last_dot : Text → Option (Text × Text)
split_last_dot [] = none
split_last_dot (c ∷ s) =
    let rest = split_last_dot s in
    elim rest [ none ↦ if c == b'.' then some ([], s) else none | some parts ↦ push c (some parts) ]

-- `v[1-9][0-9]*`, with its number.
unfoldable pub version_of : Text → Option ℕ
version_of [] = none
version_of (c ∷ []) = none
version_of (c ∷ d ∷ s) =
    if c == b'v' && not (d == b'0') && is_digit d && all is_digit s
    then some (digits_value 0 (d ∷ s))
    else none

-- `splitVersionedName`, with `validVersionedName`: the family and the version, if it is an `int`.
unfoldable pub split_versioned_name : Text → Option (Text × ℕ)
unfolding is_family split_last_dot version_of
split_versioned_name name =
    if not (leb (byte_len name) max_extension_name_bytes)
    then none
    else elim (split_last_dot name) [
      | none ↦ none
      | some (family, last) ↦ if not (is_family true family) then none else elim (version_of last) [
        | none ↦ none
        | some version ↦ if leb version max_int then some (family, version) else none
      ]
    ]

-- `versionedName`
pub record VersionedName : Type 0 where
  pub name : Text
  pub family : Text
  pub version : ℕ

abbrev pub versioned : Text → Text → ℕ → VersionedName
versioned name family version = record { name = name; family = family; version = version }

abbrev pub add_versioned :
    Map Text VersionedName → Text → Option (Text × ℕ) → Map Text VersionedName
add_versioned m name none = m
add_versioned m name (some (family, version)) = insert name (versioned name family version) m

-- `versionedNames`, with the map so far.
unfoldable pub versioned_names : Map Text VersionedName → List Text → Map Text VersionedName
versioned_names m [] = m
versioned_names m (name ∷ names) =
    versioned_names (add_versioned m name (split_versioned_name name)) names

abbrev pub is_versioned : Text → Bool
is_versioned name = elim (split_versioned_name name) [ none ↦ false | some parts ↦ true ]

abbrev pub contains : List Text → Text → Bool
contains names name = any (λ x. x == name) names

-- `serverSet`
unfoldable pub in_server : List Text → Text → Bool
in_server server name = contains server name && is_versioned name

unfoldable pub keep_best : Map Text VersionedName → VersionedName → Map Text VersionedName
keep_best best c = elim (lookup c.family best) [
  | none ↦ insert c.family c best
  | some current ↦ if ltb current.version c.version then insert c.family c best else best
]

-- The loop that selects, over the names of the client.
unfoldable pub select_best :
    List Text → Map Text VersionedName → Map Text VersionedName → Map Text VersionedName
unfolding keep_best in_server
select_best server best [] = best
select_best server best ((name, c) ∷ rest) =
    select_best server (if in_server server name then keep_best best c else best) rest

abbrev pub best_of : List Text → List Text → Map Text VersionedName
best_of client server = select_best server [] (versioned_names [] client)

-- `SelectHighestCommonVersions`
unfoldable pub select_highest_common_versions : List Text → List Text → List Text
unfolding select_best versioned_names
select_highest_common_versions client server =
    sort text_lt (map (λ e. e.1.name) (best_of client server))

-- `FeatureOffer`, with its parameters as a text.
pub record FeatureOffer : Type 0 where
  pub parameters : Text

abbrev no_offer : FeatureOffer
no_offer = record { parameters = [] }

abbrev offer_of : Map Text FeatureOffer → Text → FeatureOffer
offer_of server name = elim (lookup name server) [ none ↦ no_offer | some offer ↦ offer ]

-- The loop of `NegotiateFeatures` over the names selected.
unfoldable pub offers :
    Map Text FeatureOffer → Map Text FeatureOffer → List Text → Map Text FeatureOffer
offers server done [] = done
offers server done (name ∷ names) = offers server (insert name (offer_of server name) done) names

-- `NegotiateFeatures`
unfoldable pub negotiate_features :
    Map Text FeatureOffer → Map Text FeatureOffer → Map Text FeatureOffer
unfolding offers
negotiate_features client server =
    offers server []
      (select_highest_common_versions (map (λ e. e.0) client) (map (λ e. e.0) server))
