-- ===== src/HttpClient/Url.antt =====
-- `BuildURL` and `InjectQueryParams` of httpclient/HttpClient.go.
pub mod Laws
use go_utilities.Base.{
  ℕ, Bool, List, [], ◌∷◌, ◌++◌, Option, none, some, if◌then◌else◌, ◌==◌, ◌||◌, is_empty,
}
use go_utilities.Base.Dict.{Dict}
use go_utilities.Base.Text.{Text, codes, text_eq, join, trim, trim_left, starts_with}
use mathlib.Core.List.{reverse}

-- `strings.TrimRight(s, cut)`
unfoldable pub trim_right : ℕ → Text → Text
unfolding trim_left
trim_right cut s = reverse (trim_left cut (reverse s))

-- The parts that are not empty without the slashes at their ends.
unfoldable pub path_parts : List Text → List Text
path_parts [] = []
path_parts (p ∷ ps) =
    let trimmed = trim b'/' p in if trimmed == [] then path_parts ps else trimmed ∷ path_parts ps

unfoldable pub build_url : Text → List Text → Text
unfolding trim_right path_parts
build_url base paths = trim_right b'/' base ++ b'/' ∷ join b'/' (path_parts paths)

-- net/url: `none` for a text that it does not parse; `with_query` sets the keys in the query and
-- prints the URL.
pub record UrlLibrary : Type 1 where
  pub ParsedUrl : Type 0
  pub parse : Text → Option ParsedUrl
  pub with_query : Dict Text → ParsedUrl → Text

unfoldable pub inject_query_params : UrlLibrary → Text → Dict Text → Text
inject_query_params u raw params =
    if is_empty params
    then raw
    else (elim (u.parse raw) [ none ↦ raw | some parsed ↦ u.with_query params parsed ])

-- A path that is a URL of its own is taken as it is.
abbrev pub is_absolute : Text → Bool
is_absolute path = starts_with (codes "http://") path || starts_with (codes "https://") path

unfoldable pub request_url : Text → Text → Text
unfolding build_url starts_with
request_url base path = if is_absolute path then path else build_url base (path ∷ [])
