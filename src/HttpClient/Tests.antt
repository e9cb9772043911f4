-- ===== src/HttpClient/Tests.antt =====
-- Runs, and the theorems at concrete inputs: a server that answers everything alike.
use go_utilities.Base.{◌≡◌, refl, ◌↔◌, true, List, [], ◌∷◌, none, some, arith}
use go_utilities.Base.Result.{ok}
use go_utilities.Base.Text.{Text, codes, split, join, starts_with, trim}
use go_utilities.Base.Dict.{lookup}
use go_utilities.HttpClient.Config.{TlsClientConfig, no_tls}
use go_utilities.HttpClient.Tls.{Certificates, load_client_certificate}
use go_utilities.HttpClient.Tls.Sources.{Loads, load_client_certificate-Loads}
use go_utilities.HttpClient.Request.{HttpLibrary, HttpResponse, no_payload, do_request}
use go_utilities.HttpClient.Request.Sent.{IsAnswered, do_request_iff}
use go_utilities.HttpClient.Download.{
  file_name, store, header_value, Files, clean_segments, download_to_file,
}
use go_utilities.HttpClient.Download.Place.{written_at, store-escapes, IsPlain}

-- A file is its own path, and any text is a certificate.
abbrev certs : Certificates
certs = record {
  Certificate = Text;
  Pool = List Text;
  Block = Text;
  read_file = λ path. some path;
  load_key_pair = λ c k. some c;
  key_pair = λ c k. some c;
  to_pem = λ v p. some (v ∷ []);
  encode = λ b. b;
  new_pool = [];
  append_certs = λ t pool. some (t ∷ pool);
}

-- A path without its key is no source.
abbrev half_set : TlsClientConfig
half_set = record no_tls { client_cert_path = codes "c.pem"; ca_cert_paths = codes "ca" ∷ [] }

load_client_certificate-Loads_example :
    Loads certs half_set (load_client_certificate certs half_set)
load_client_certificate-Loads_example = load_client_certificate-Loads certs half_set

abbrev answer : HttpResponse
answer = record {
  status = 200;
  headers = ("Content-Disposition", codes "attachment; filename=\"../x\"") ∷ [];
  body = codes "b";
}

abbrev library : HttpLibrary
library = record {
  Value = Text;
  url = record { ParsedUrl = Text; parse = λ t. some t; with_query = λ q t. t };
  marshal = λ v. some v;
  unmarshal = λ t. some t;
  new_request_ok = λ m u. true;
  perform = λ r. some answer;
  canonical = λ k. k;
}

do_request_iff_example :
    (do_request library (codes "http://a") (codes "GET") (codes "x") [] no_payload true []
      ≡ ok (some (codes "b")))
    ↔ IsAnswered library
        (codes "http://a")
        (codes "GET")
        (codes "x")
        []
        no_payload
        true
        []
        (some (codes "b"))
do_request_iff_example =
    do_request_iff library (codes "http://a") (codes "GET") (codes "x") [] no_payload true []
      (some (codes "b"))

x_IsPlain : IsPlain (codes "x")
x_IsPlain = record {
  no_slash = (omega arith, tt);
  filled = λ e. cc;
  not_here = λ e. cc;
  not_up = λ e. cc;
}

abbrev disk : Files
disk = record { create_ok = λ p. true; copy = λ t. (t, true) }

store-escapes_example :
    (store library disk (codes "download-1.bin") (codes "/srv/out") [] answer).file
    ≡ written_at disk (codes "/srv/x") answer
unfolding file_name header_value lookup starts_with trim join clean_segments split
store-escapes_example =
    store-escapes library disk (codes "download-1.bin") (codes "/srv/out") [] answer
      (codes "srv" ∷ []) (codes "out") (codes "x") (λ e. cc) refl (λ e. cc) x_IsPlain refl

-- The file is written where the server has it.
download_above :
    (download_to_file library disk
      (codes "download-1.bin")
      (codes "http://a")
      (codes "GET")
      (codes "x")
      []
      none
      (codes "/srv/out")
      []).file
    ≡ some (codes "/srv/x", codes "b")
unfolding download_to_file lookup starts_with trim join split
download_above = refl
