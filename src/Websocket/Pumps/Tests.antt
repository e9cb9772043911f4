-- ===== src/Websocket/Pumps/Tests.antt =====
-- Runs of the pumps, and the theorems at concrete inputs.
use go_utilities.Base.{Option, none, some, ◌≡◌, refl, Bool, true, false, List, [], ◌∷◌, ltb, length}
use go_utilities.Base.Dict.{lookup, rework}
use go_utilities.Base.Run.{Run, returns, ◌>>=◌}
use go_utilities.Websocket.Client.{Message, Client, Config, new_client, with_message_handler}
use go_utilities.Websocket.Hub.{Heap, new_hub}
use go_utilities.Websocket.Pumps.{
  Frame, text_frame, close_frame, Pumped, Turn, sends, closes, receives, write_pump, read_pump,
  read_message, read_error, ReadEnd,
}
use go_utilities.Websocket.Pumps.Order.{InOrder, texts, write_pump-InOrder}

abbrev small : Config
small = record {
  write_wait = 10;
  pong_wait = 60;
  ping_period = 54;
  max_message_size = 512;
  send_buffer_size = 4;
  read_buffer_size = 8;
  write_buffer_size = 8;
}

abbrev client : Client
client = new_client "c" "u" "t" small (with_message_handler 1 ∷ [])

abbrev begun : Pumped
begun = record { client = client; frames = []; stopped = false; taken = [] }

begun-InOrder : InOrder begun
unfolding new_client texts
begun-InOrder = record {
  agree = refl;
  order = record { lost = []; parts = refl; none_lost = λ e. refl };
}

-- The connection breaks after one frame.
abbrev one_frame : List Frame → Bool
one_frame frames = ltb (length frames) 1

abbrev turns : List Turn
turns = sends (1 ∷ []) ∷ sends (2 ∷ []) ∷ receives ∷ sends (3 ∷ []) ∷ receives ∷ []

write_pump-InOrder_example :
    (v : Pumped) × (write_pump one_frame turns begun ≡ returns v) × InOrder v
write_pump-InOrder_example = write_pump-InOrder one_frame turns begun begun-InOrder

abbrev everything : List Frame → Bool
everything frames = true

abbrev frames_of : Run Pumped → Run (List Frame)
frames_of r = r >>= λ w. returns w.frames

both_written :
    frames_of (
      write_pump everything
        (sends (1 ∷ []) ∷ sends (2 ∷ []) ∷ receives ∷ closes ∷ receives ∷ [])
        begun)
    ≡ returns (text_frame (1 ∷ []) ∷ text_frame (2 ∷ []) ∷ close_frame ∷ [])
unfolding write_pump new_client
both_written = refl

abbrev one_heap : Heap
one_heap r = client

abbrev handled_of : Option (Run ReadEnd) → Option (Run (List Message))
handled_of r = elim r [ none ↦ none | some e ↦ some (e >>= λ d. returns d.handled) ]

-- What comes after the error is not read.
one_handled :
    handled_of (
      read_pump 0
        (read_message (1 ∷ []) ∷ read_error true ∷ read_message (2 ∷ []) ∷ [])
        (new_hub one_heap))
    ≡ some (returns ((1 ∷ []) ∷ []))
unfolding read_pump new_hub new_client lookup rework
one_handled = refl
