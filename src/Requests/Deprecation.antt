-- ===== src/Requests/Deprecation.antt =====
-- The headers of a deprecated route: src/interface/http/common/deprecation-headers.util.ts and
-- src/interface/http/interceptors/deprecation.interceptor.ts. `seconds_of` and `utc_text` are the second at
-- which a day begins, as a text, and the day as `toUTCString` writes it.
use nestjs_ddd.Prelude.{
  String, Option, none, some, List, [], ◌∷◌, ◌++◌, str_append, str_eq, if◌then◌else◌,
}

pub record DeprecatedOptions : Type 0 where
  pub since : String
  pub sunset : String
  pub successor : Option String
  pub link : Option String

pub record DeprecationHeaders : Type 0 where
  pub deprecation : String
  pub sunset : String
  pub link : Option String

-- A link that is there and not empty, with its relation.
unfoldable pub link_value : Option String → String → List String
link_value none relation = []
link_value (some url) relation =
    if str_eq url ""
    then []
    else str_append "<" (str_append url (str_append ">; rel=\"" (str_append relation "\""))) ∷ []

-- `links.join(', ')`, if there is a link.
unfoldable pub join_links : List String → Option String
join_links [] = none
join_links (l ∷ []) = some l
join_links (l ∷ m ∷ ls) = elim (join_links (m ∷ ls)) [
  | none ↦ some l
  | some rest ↦ some (str_append l (str_append ", " rest))
]

unfoldable pub format_deprecation_headers :
    (seconds_of utc_text : String → String) → DeprecatedOptions → DeprecationHeaders
unfolding link_value join_links
format_deprecation_headers seconds_of utc_text o = record {
  deprecation = str_append "@" (seconds_of o.since);
  sunset = utc_text o.sunset;
  link = join_links (link_value o.successor "successor-version" ++ link_value o.link "deprecation");
}

-- What the interceptor sets: a link that is empty is not set.
unfoldable pub link_header : Option String → List (String × String)
link_header none = []
link_header (some l) = if str_eq l "" then [] else ("Link", l) ∷ []

unfoldable pub set_headers : Option DeprecationHeaders → List (String × String)
unfolding link_header
set_headers none = []
set_headers (some h) = ("Deprecation", h.deprecation) ∷ ("Sunset", h.sunset) ∷ link_header h.link
