-- ===== src/Websocket/Client/Laws.antt =====
-- Sending to and closing one client.
use go_utilities.Base.{
  ◌≤◌, ◌≡◌, refl, Bool, true, false, not, ◌&&◌, String, List, [], ◌∷◌, ◌++◌, Option, none, some,
  arith, ltb, length, length-append, if◌then◌else◌, ◌==◌, string_eq,
}
use go_utilities.Base.Dict.{insert}
use go_utilities.Base.Dict.Laws.{lookup-insert}
use go_utilities.Base.Run.{returns}
use go_utilities.Websocket.Client.{
  Client, Config, Message, Any, ClientOption, with_message_handler, with_disconnect_handler,
  with_token, with_metadata, apply_option, apply_options, new_client, send, close, get_metadata,
  set_metadata,
}

-- The channel is closed exactly when the client says so, its buffer is within its size, and the
-- metadata map has been made.
pub record IsSound (c : Client) : Type 0 where
  pub agree : c.send_closed ≡ c.is_closed
  pub within : length c.send ≤ c.config.send_buffer_size
  pub made : (c.metadata ≡ none) → ⊥

-- A client takes a message when it is open and its buffer has room.
abbrev pub accepts : Client → Bool
accepts c = not c.is_closed && ltb (length c.send) c.config.send_buffer_size

abbrev pub receive : Message → Client → Client
receive message c = if accepts c then record c { send = c.send ++ message ∷ [] } else c

pub send_lem :
    (c : Client) (message : Message)
    → c.send_closed ≡ c.is_closed
    → send c message ≡ returns (receive message c, accepts c)
unfolding send
send_lem c message h = ground arith

pub receive-IsSound : (c : Client) (message : Message) → IsSound c → IsSound (receive message c)
receive-IsSound c message v = record {
  agree = ground (arith, v.agree);
  within = ground (arith, v.within, length-append c.send (message ∷ []));
  made = λ e. v.made (ground arith);
}

abbrev pub shut : Client → Client
shut c =
    if c.is_closed then c else record c { is_closed = true; send_closed = true; conn_closed = true }

pub close_lem : (c : Client) → c.send_closed ≡ c.is_closed → close c ≡ returns (shut c)
unfolding close
close_lem c h = ground arith

pub shut-IsSound : (c : Client) → IsSound c → IsSound (shut c)
shut-IsSound c v = record {
  agree = ground (arith, v.agree);
  within = ground (arith, v.within);
  made = λ e. v.made (ground arith);
}

-- After `Close`, a second `Close` changes nothing and `Send` refuses and changes nothing; neither
-- panics, and messages that were queued stay in the channel.
pub close-send :
    (c : Client) (message : Message)
    → IsSound c
    → (d : Client) × (close c ≡ returns d)
      × (close d ≡ returns d)
      × (send d message ≡ returns (d, false))
      × (d.send ≡ c.send)
unfolding close send
close-send c message v =
    (shut c, close_lem c v.agree, ground (arith, v.agree), ground (arith, v.agree), ground arith)

apply_option-IsSound : (o : ClientOption) (c : Client) → IsSound c → IsSound (apply_option o c)
unfolding apply_option
apply_option-IsSound (with_message_handler h) c v = record {
  agree = v.agree;
  within = v.within;
  made = v.made;
}
apply_option-IsSound (with_disconnect_handler h) c v = record {
  agree = v.agree;
  within = v.within;
  made = v.made;
}
apply_option-IsSound (with_token t) c v = record {
  agree = v.agree;
  within = v.within;
  made = v.made;
}
apply_option-IsSound (with_metadata k w) c v = record {
  agree = v.agree;
  within = v.within;
  made = λ e. cc;
}

apply_options-IsSound :
    (os : List ClientOption) (c : Client) → IsSound c → IsSound (apply_options os c)
unfolding apply_options
apply_options-IsSound [] c v = v
apply_options-IsSound (o ∷ os) c v =
    apply_options-IsSound os (apply_option o c) (apply_option-IsSound o c v)

-- A new client, whatever its options, is sound: its channel is closed exactly when the client says
-- so, its buffer is within its size, and its metadata map has been made.
pub new_client-IsSound :
    (id user tenant : String) (config : Config) (os : List ClientOption)
    → IsSound (new_client id user tenant config os)
unfolding new_client
new_client-IsSound id user tenant config os =
    apply_options-IsSound os _ (record { agree = refl; within = omega arith; made = λ e. cc })

-- Of a client whose metadata map has been made, setting a key does not panic; afterwards the key
-- has the value, every other key has what it had, and the client is as sound as before.
pub get_metadata-set_metadata :
    (c : Client) (k : String) (w : Any)
    → IsSound c
    → (d : Client) × (set_metadata k w c ≡ returns d)
      × ((j : String) → get_metadata j d ≡ (if k == j then some w else get_metadata j c))
unfolding set_metadata get_metadata
get_metadata-set_metadata c k w v = go c.metadata refl
  where
    go :
        (m : Option _)
        → c.metadata ≡ m
        → (d : Client) × (set_metadata k w c ≡ returns d)
          × ((j : String) → get_metadata j d ≡ (if k == j then some w else get_metadata j c))
    go none e = absurd (v.made e)
    go (some m) e = (
      record c { metadata = some (insert k w m) },
      rw (e, set_metadata),
      λ j. rw (e, get_metadata) (lookup-insert k j w m),
    )
