-- ===== src/Server/Disclosure.antt =====
-- What an error response gives away.
use go_utilities.Base.{◌≡◌, refl, ap, Bool, true, false, Option, none, some}
use go_utilities.Base.Int.{ℤ, pos}
use go_utilities.Base.Text.{Text}
use go_utilities.Server.Errors.{
  ErrorType, internal_type, bad_request, unauthorized, not_found, conflict, large_payload,
  other_type, GoError, api, internal, internal_around, postgres, wrapped, plain, new_error,
  to_http_status_code, to_http_message, to_api_error, respond,
}

-- The types whose messages are for the client.
abbrev pub is_shown : ErrorType → Bool
is_shown bad_request = true
is_shown conflict = true
is_shown unauthorized = false
is_shown not_found = false
is_shown large_payload = false
is_shown internal_type = false
is_shown (other_type n) = false

-- The errors that the package makes itself.
abbrev pub is_own : Option GoError → Bool
is_own none = false
is_own (some (api e)) = true
is_own (some (internal e)) = true
is_own (some (internal_around e inner)) = true
is_own (some (postgres e)) = false
is_own (some (wrapped m e)) = false
is_own (some (plain m)) = false

hidden :
    (kind : ErrorType) (caller caller' message message' : Text)
    → (is_shown kind ≡ true → message ≡ message')
    → to_http_message (record { kind = kind; message = message; caller_info = caller })
      ≡ to_http_message (record { kind = kind; message = message'; caller_info = caller' })
unfolding to_http_message
hidden bad_request caller caller' message message' h = h refl
hidden conflict caller caller' message message' h = h refl
hidden unauthorized caller caller' message message' h = refl
hidden not_found caller caller' message message' h = refl
hidden large_payload caller caller' message message' h = refl
hidden internal_type caller caller' message message' h = refl
hidden (other_type n) caller caller' message message' h = refl

-- The response to an error that `NewError` made depends on its type alone, and on its message where
-- the type is a bad request or a conflict: not on the wrapped error, the place in the code or the
-- trace.
pub respond-new_error :
    (trace trace' caller caller' : Text) (kind : ErrorType) (message message' : Text)
    (around around' : Option GoError)
    → (is_shown kind ≡ true → message ≡ message')
    → respond trace (some (new_error caller kind message around))
      ≡ respond trace' (some (new_error caller' kind message' around'))
unfolding respond to_api_error new_error
respond-new_error trace trace' caller caller' kind message message' around around' h =
    go around around'
  where
    told : Text → ℤ × Text
    told m = (pos (to_http_status_code kind), m)

    same :
        told (to_http_message (record { kind = kind; message = message; caller_info = caller }))
        ≡ told (to_http_message (record { kind = kind; message = message'; caller_info = caller' }))
    same = ap told (hidden kind caller caller' message message' h)

    go :
        (o o' : Option GoError)
        → respond trace (some (new_error caller kind message o))
          ≡ respond trace' (some (new_error caller' kind message' o'))
    go none none = same
    go none (some e) = same
    go (some e) none = same
    go (some e) (some e') = same

foreign_lem :
    (trace : Text) (e : Option GoError) → is_own e ≡ false → respond trace e ≡ respond trace none
unfolding respond to_api_error
foreign_lem trace none h = refl
foreign_lem trace (some (api e)) h = cc
foreign_lem trace (some (internal e)) h = cc
foreign_lem trace (some (internal_around e inner)) h = cc
foreign_lem trace (some (postgres e)) h = refl
foreign_lem trace (some (wrapped m e)) h = refl
foreign_lem trace (some (plain m)) h = refl

-- All errors that are not the package's own, an error of its own inside another one included, have
-- the same response, that of the nil error; it has the status 500.
pub respond-foreign :
    (trace trace' : Text) (e : Option GoError)
    → is_own e ≡ false
    → (respond trace e ≡ respond trace' none) × ((respond trace e).0 ≡ pos 500)
unfolding respond to_api_error
respond-foreign trace trace' e h = (foreign_lem trace e h, ap (λ r. r.0) (foreign_lem trace e h))
