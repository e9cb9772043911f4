-- ===== src/HttpClient/Download.antt =====
-- `DownloadToFile` of httpclient/HttpClient.go: the request and the name of the file.
pub mod Place
use go_utilities.Base.{
  ℕ, zero, suc, ◌-◌, Bool, true, false, String, List, [], ◌∷◌, ◌++◌, Option, none, some,
  if◌then◌else◌, ◌==◌, nat_eq, length, leb,
}
use go_utilities.Base.Dict.{Dict, lookup, insert}
use go_utilities.Base.Result.{Result, ok, err, ◌>>=◌, or_fail}
use go_utilities.Base.Text.{Text, codes, text_eq, split, join, trim, starts_with, onto_first}
use mathlib.Core.List.{reverse}
use go_utilities.HttpClient.Url.{inject_query_params, build_url}
use go_utilities.HttpClient.Request.{
  HttpLibrary, HttpResponse, Payload, no_payload, value, RequestError, request_failed, check_status,
  create_request, encode_body,
}

-- `strings.Split(s, sep)` for a longer `sep`: after a match, `skip` more bytes of it are passed over.
unfoldable pub split_text : Text → ℕ → Text → List Text
split_text sep skip [] = [] ∷ []
split_text sep (suc skip) (c ∷ s) = split_text sep skip s
split_text sep zero (c ∷ s) = elim (starts_with sep (c ∷ s)) [
  | true ↦ [] ∷ split_text sep (length sep - 1) s
  | false ↦ onto_first c (split_text sep zero s)
]

abbrev pub second_part : Text → List Text → Text
second_part default (before ∷ after ∷ []) = trim b'"' after
second_part default _ = default

-- The name in the header "Content-Disposition", or the default.
unfoldable pub file_name : Text → Text → Text
unfolding split_text
file_name default disposition =
    if disposition == []
    then default
    else second_part default (split_text (codes "filename=") 0 disposition)

-- `filepath.Clean` on the segments of a path: what is kept so far, the last first, and whether the
-- path is rooted. A segment ".." takes the last one away; at the root it stays there.
abbrev pub up : Bool → List Text → List Text
up true [] = []
up false [] = codes ".." ∷ []
up rooted (last ∷ kept) = if last == codes ".." then codes ".." ∷ last ∷ kept else kept

abbrev pub clean_step : Bool → Text → List Text → List Text
clean_step rooted segment kept =
    if segment == []
    then kept
    else if segment == codes "."
    then kept
    else if segment == codes ".."
    then up rooted kept
    else segment ∷ kept

unfoldable pub clean_segments : Bool → List Text → List Text → List Text
clean_segments rooted [] kept = reverse kept
clean_segments rooted (s ∷ segments) kept =
    clean_segments rooted segments (clean_step rooted s kept)

abbrev pub print_path : Bool → List Text → Text
print_path true segments = b'/' ∷ join b'/' segments
print_path false [] = codes "."
print_path false (s ∷ segments) = join b'/' (s ∷ segments)

abbrev pub is_rooted : Text → Bool
is_rooted [] = false
is_rooted (c ∷ s) = c == b'/'

unfoldable pub clean : Text → Text
unfolding clean_segments
clean path = print_path (is_rooted path) (clean_segments (is_rooted path) (split b'/' path) [])

-- `filepath.Join(dir, name)`: empty elements are left out.
unfoldable pub join_path : Text → Text → Text
unfolding clean
join_path dir name =
    if name == []
    then (if dir == [] then [] else clean dir)
    else if dir == []
    then clean name
    else clean (dir ++ b'/' ∷ name)

pub data DownloadError : Type 0 where
  not_answered : RequestError → DownloadError
  create_file_failed write_file_failed : DownloadError

pub record DownloadFileResponse : Type 0 where
  pub filename : Text
  pub additional_details : Dict Text

-- What a download does: the file it wrote, where it created one, and what it gives.
pub record Downloaded : Type 0 where
  pub file : Option (Text × Text)
  pub response : Result DownloadError DownloadFileResponse

-- os.Create and io.Copy: the contents that a file gets, all of them or a part, and success.
pub record Files : Type 0 where
  pub create_ok : Text → Bool
  pub copy : Text → Text × Bool

module _ (x : HttpLibrary) (disk : Files) where
  open x use {Value, url, perform, canonical}

  -- `resp.Header.Get(key)`
  unfoldable pub header_value : Dict Text → String → Text
  header_value headers key = elim (lookup (canonical key) headers) [ none ↦ [] | some v ↦ v ]

  -- The headers that are asked for and that are not empty.
  unfoldable pub details : Dict Text → List String → Dict Text → Dict Text
  unfolding header_value
  details headers [] found = found
  details headers (key ∷ keys) found =
      let v = header_value headers key in
      details headers keys (if v == [] then found else insert key v found)

  -- A body that is not nil is encoded, whatever it is.
  abbrev pub as_payload : Option Value → Payload Value
  as_payload none = no_payload
  as_payload (some v) = value v

  -- The response to a download: no header is set, and a path is always taken below the base.
  unfoldable pub fetch :
      Text → Text → Text → Dict Text → Option Value → Result RequestError HttpResponse
  fetch base method path params given = do
    body ← encode_body x (as_payload given)
    r ←
        create_request x method (inject_query_params url (build_url base (path ∷ [])) params) body
          []
    response ← or_fail request_failed (perform r)
    text ← check_status x response
    ok response

  abbrev pub copied : Text → Text × Bool → Dict Text → Downloaded
  copied place (text, true) found = record {
    file = some (place, text);
    response = ok (record { filename = place; additional_details = found });
  }
  copied place (text, false) found = record {
    file = some (place, text);
    response = err write_file_failed;
  }

  unfoldable pub store : Text → Text → List String → HttpResponse → Downloaded
  unfolding file_name join_path header_value
  store default dir keys r =
      let place =
        join_path dir (file_name default (header_value r.headers "Content-Disposition")) in
      if disk.create_ok place
      then copied place (disk.copy r.body) (details r.headers keys [])
      else record { file = none; response = err create_file_failed }

  -- `default` is the name with the time in it.
  unfoldable pub download_to_file :
      Text → Text → Text → Text → Dict Text → Option Value → Text → List String → Downloaded
  unfolding fetch store
  download_to_file default base method path params given dir keys =
      elim (fetch base method path params given) [
        | err e ↦ record { file = none; response = err (not_answered e) }
        | ok r ↦ store default dir keys r
      ]
