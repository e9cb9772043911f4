-- ===== src/Websocket/Client.antt =====
-- websocket/client.go and websocket/config.go. A message is its bytes, a duration is in
-- nanoseconds, and an `interface{}`, a handler or a logger is known by a number that names it.
-- The connection is known by whether it has been closed. The send channel is its buffer with the
-- mark of `close`; a receiver takes from the buffer in a step of its own, so at capacity 0 a
-- send finds no room.
pub mod Laws
pub mod Race
use go_utilities.Base.{
  ℕ, ◌*◌, String, ◌≡◌, Bool, true, false, List, [], ◌∷◌, ◌++◌, Option, none, some, ltb, length,
  if◌then◌else◌,
}
use go_utilities.Base.Dict.{Dict, lookup, insert}
use go_utilities.Base.Run.{Run, returns, panics, ◌>>=◌}

abbrev pub Message : Type 0
Message = List ℕ

abbrev pub Any : Type 0
Any = ℕ

abbrev second : ℕ
second = 1_000_000_000

pub record Config : Type 0 where
  pub write_wait : ℕ
  pub pong_wait : ℕ
  pub ping_period : ℕ
  pub max_message_size : ℕ
  pub send_buffer_size : ℕ
  pub read_buffer_size : ℕ
  pub write_buffer_size : ℕ

pub default_config : Config
default_config = record {
  write_wait = 10 * second;
  pong_wait = 60 * second;
  ping_period = 54 * second;
  max_message_size = 512 * 1024;
  send_buffer_size = 256;
  read_buffer_size = 1024;
  write_buffer_size = 1024;
}

-- A nil map is `none`; assigning into it panics.
pub record Client : Type 0 where
  pub id : String
  pub user_id : String
  pub tenant_id : String
  pub token : String
  pub metadata : Option (Dict Any)
  pub send : List Message
  pub send_closed : Bool
  pub conn_closed : Bool
  pub config : Config
  pub is_closed : Bool
  pub message_handler : Option Any
  pub disconnect_handler : Option Any

pub data ClientOption : Type 0 where
  with_message_handler with_disconnect_handler : Any → ClientOption
  with_token : String → ClientOption
  with_metadata : String → Any → ClientOption

-- `if c.Metadata == nil { c.Metadata = make(…) }`
abbrev made : Option (Dict Any) → Dict Any
made none = []
made (some m) = m

pub apply_option : ClientOption → Client → Client
apply_option (with_message_handler h) c = record c { message_handler = some h }
apply_option (with_disconnect_handler h) c = record c { disconnect_handler = some h }
apply_option (with_token token) c = record c { token = token }
apply_option (with_metadata key value) c = record c {
  metadata = some (insert key value (made c.metadata));
}

pub apply_options : List ClientOption → Client → Client
apply_options [] c = c
apply_options (opt ∷ opts) c = apply_options opts (apply_option opt c)

unfoldable pub new_client : String → String → String → Config → List ClientOption → Client
unfolding apply_options apply_option insert
new_client id user_id tenant_id config opts = apply_options opts (record {
  id = id;
  user_id = user_id;
  tenant_id = tenant_id;
  token = "";
  metadata = some [];
  send = [];
  send_closed = false;
  conn_closed = false;
  config = config;
  is_closed = false;
  message_handler = none;
  disconnect_handler = none;
})

-- The `select` of `Send`: a send on a closed channel panics, on a full one takes the default.
unfoldable pub offer : Client → Message → Run (Client × Bool)
offer c message =
    if c.send_closed
    then panics
    else if ltb (length c.send) c.config.send_buffer_size
    then returns (record c { send = c.send ++ message ∷ [] }, true)
    else returns (c, false)

unfoldable pub send : Client → Message → Run (Client × Bool)
unfolding offer
send c message = if c.is_closed then returns (c, false) else offer c message

-- `marshal` is `json.Marshal`, with `none` for its error; the result of `Send` is dropped.
pub send_json {ℓ} : {V : Type ℓ} → (V → Option Message) → Client → V → Run (Client × Bool)
unfolding send
send_json marshal c v = elim (marshal v) [
  | none ↦ returns (c, false)
  | some message ↦ (send c message >>= λ r. returns (r.0, true))
]

pub get_metadata : String → Client → Option Any
unfolding lookup
get_metadata key c = elim c.metadata [ none ↦ none | some m ↦ lookup key m ]

pub set_metadata : String → Any → Client → Run Client
unfolding insert
set_metadata key value c = elim c.metadata [
  | none ↦ panics
  | some m ↦ returns (record c { metadata = some (insert key value m) })
]

-- Closing a closed channel would panic; the test of `isClosed` comes first.
unfoldable pub close : Client → Run Client
close c =
    if c.is_closed
    then returns c
    else if c.send_closed
    then panics
    else returns (record c { is_closed = true; send_closed = true; conn_closed = true })
