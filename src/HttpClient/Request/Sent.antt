-- ===== src/HttpClient/Request/Sent.antt =====
-- What has happened when a request succeeds, and its headers.
use go_utilities.Base.{
  ◌≢◌, ◌≡◌, refl, sym, ◌∙◌, ap, ◌↔◌, ◌<◌, Bool, true, false, String, [], Option, some, arith, leb,
  ◌==◌, Bool-cases, inl, inr, if◌then◌else◌, string_eq,
}
use go_utilities.Base.Dict.{Dict, lookup}
use go_utilities.Base.Dict.Laws.{lookup-insert}
use go_utilities.Base.Result.{ok, or_fail, err-ne-ok, ok_inj, >>=-eq-ok}
use go_utilities.Base.Text.{Text, text_eq, text_beq_iff}
use go_utilities.HttpClient.Url.{inject_query_params, request_url}
use go_utilities.HttpClient.Request.{
  RequestError, HttpRequest, HttpResponse, Payload, HttpLibrary, encode_body, content_type,
  set_headers, check_status, decode_body, create_request, do_request, propagate_trace_id,
}
use go_utilities.HttpClient.Request.Steps.{
  some_of_or_fail, Addresses, Addresses-request_url, Addresses-eq, Encodes, Queries, Starts, Sets,
  Decodes, Encodes-encode_body, encode_body-Encodes, Decodes-decode_body, decode_body-Decodes,
  Queries-inject_query_params, Queries-eq, Starts-content_type, Starts-eq, Sets-set_headers,
  Sets-eq,
}

module _ (x : HttpLibrary) where
  open x use {Value, url, new_request_ok, perform}

  -- The payload was encoded, its request was created and performed, its answer had a status below
  -- 400, and its body was decoded if that was wanted.
  pub record IsAnswered (base method path : Text) (params : Dict Text) (payload : Payload Value)
      (wanted : Bool) (headers : Dict Text) (result : Option Value) : Type 0 where
    pub body : Option Text
    pub encoded : Encodes x payload body
    pub address : Text
    pub addressed : Addresses base path address
    pub target : Text
    pub queried : Queries x address params target
    pub first : Dict Text
    pub started : Starts x payload first
    pub all_headers : Dict Text
    pub set : Sets x headers first all_headers
    pub created : new_request_ok method target ≡ true
    pub response : HttpResponse
    pub performed :
        perform (record { method = method; url = target; body = body; headers = all_headers })
        ≡ some response
    pub status : response.status < 400
    pub decoded : Decodes x wanted response.body result

  created-ok :
      (method target : Text) (body : Option Text) (headers : Dict Text) (r : HttpRequest)
      → create_request x method target body headers ≡ ok r
      → (new_request_ok method target ≡ true)
        × (record { method = method; url = target; body = body; headers = headers } ≡ r)
  created-ok method target body headers r h = elim (Bool-cases (new_request_ok method target)) [
    | inl yes' ↦ (yes', ok_inj (rw yes' at h))
    | inr no' ↦ absurd (err-ne-ok (rw no' at h))
  ]

  checked-ok :
      (r : HttpResponse) (text : Text)
      → check_status x r ≡ ok text
      → (r.status < 400) × (r.body ≡ text)
  checked-ok r text h = elim (Bool-cases (leb 400 r.status)) [
    | inl bad ↦ absurd (err-ne-ok (rw bad at h))
    | inr good ↦ (ground arith, ok_inj (rw good at h))
  ]

  -- The URL and the headers of a call are those that the code computes.
  target_lem :
      (base path : Text) (params : Dict Text) {address target : Text}
      → Addresses base path address
      → Queries x address params target
      → target ≡ inject_query_params url (request_url base path) params
  target_lem base path params a q =
      Queries-eq x q ∙ ap (λ t. inject_query_params url t params) (Addresses-eq base path a)

  headers_lem :
      (headers : Dict Text) {payload : Payload Value} {first all_headers : Dict Text}
      → Starts x payload first
      → Sets x headers first all_headers
      → all_headers ≡ set_headers x headers (content_type x payload)
  headers_lem headers s i = Sets-eq x i ∙ ap (set_headers x headers) (Starts-eq x s)

  -- A request gives a result exactly when: its payload was encoded, if it is a value; its URL is the
  -- path, if that is one, or else built of the base and the path, and has the parameters in its query,
  -- if there are any and it parses; its headers are the content type, if there is a payload, with the
  -- caller's headers set over it in order; the request was created and performed; the answer's status
  -- is below 400; and its body was decoded to the result, if one is wanted, and there is none if not.
  pub do_request_iff :
      (base method path : Text) (params : Dict Text) (payload : Payload Value) (wanted : Bool)
      (headers : Dict Text) (result : Option Value)
      → (do_request x base method path params payload wanted headers ≡ ok result)
        ↔ IsAnswered base method path params payload wanted headers result
  unfolding do_request
  do_request_iff base method path params payload wanted headers result = (answered, given)
    where
      given :
          IsAnswered base method path params payload wanted headers result
          → do_request x base method path params payload wanted headers ≡ ok result
      given a =
          let target = target_lem base path params a.addressed a.queried in
          let made = headers_lem headers a.started a.set in
          let created = (ap (new_request_ok method) (sym target)) ∙ a.created in
          let performed =
            ap
              (λ t. perform (record {
                method = method;
                url = t;
                body = a.body;
                headers = set_headers x headers (content_type x payload);
              }))
              (sym target)
            ∙ ap
                (λ d.
                  perform (record { method = method; url = a.target; body = a.body; headers = d }))
                (sym made)
            ∙ a.performed in
          rw (encode_body-Encodes x a.encoded) (
            rw created (
              rw performed
                (rw (below a.response.status a.status) (decode_body-Decodes x a.decoded))))
        where
          below : (n : _) → n < 400 → leb 400 n ≡ false
          below n h = ground arith

      answered :
          do_request x base method path params payload wanted headers ≡ ok result
          → IsAnswered base method path params payload wanted headers result
      answered h =
          let (body, encoded, h1) = >>=-eq-ok (encode_body x payload) _ h in
          let target : Text = inject_query_params url (request_url base path) params in
          let (r, made, h2) =
            >>=-eq-ok
              (create_request x method target body (set_headers x headers (content_type x payload)))
              _ h1 in
          let (response, done, h3) =
            >>=-eq-ok (or_fail RequestError.request_failed (perform r)) _ h2 in
          let (text, good, h4) = >>=-eq-ok (check_status x response) _ h3 in
          let (accepted, same) = created-ok method target body _ r made in
          record {
            body = body;
            encoded = Encodes-encode_body x payload body encoded;
            address = request_url base path;
            addressed = Addresses-request_url base path;
            target = target;
            queried = Queries-inject_query_params x (request_url base path) params;
            first = content_type x payload;
            started = Starts-content_type x payload;
            all_headers = set_headers x headers (content_type x payload);
            set = Sets-set_headers x headers (content_type x payload);
            created = accepted;
            response = response;
            performed = ap perform same ∙ some_of_or_fail _ _ done;
            status = (checked-ok response text good).0;
            decoded =
                Decodes-decode_body x wanted response.body result
                  (ap (decode_body x wanted) (checked-ok response text good).1 ∙ h4);
          }

  -- Where the request's context has a trace, the request is sent with it in the header X-Trace-ID,
  -- whatever that header was; every other header, the method, the URL and the body are as before.
  pub propagate_trace_id_lem :
      (trace : Text) (r : HttpRequest) (k : String)
      → trace ≢ []
      → (lookup k (propagate_trace_id x trace r).headers
          ≡ (if x.canonical "X-Trace-ID" == k then some trace else lookup k r.headers))
        × ((propagate_trace_id x trace r).method ≡ r.method)
        × ((propagate_trace_id x trace r).url ≡ r.url)
        × ((propagate_trace_id x trace r).body ≡ r.body)
  unfolding propagate_trace_id
  propagate_trace_id_lem trace r k n = elim (Bool-cases (trace == [])) [
    | inl e ↦ absurd (n ((text_beq_iff trace []).0 e))
    | inr e ↦ rw e (lookup-insert (x.canonical "X-Trace-ID") k trace r.headers, refl, refl, refl)
  ]
