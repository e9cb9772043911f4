-- ===== src/Websocket/Pumps.antt =====
-- websocket/pumps.go: the pumps of a client, with the hub that the reading pump leaves; and the
-- origins of websocket/upgrader.go.
pub mod Order
pub mod Reading
mod Tests
use go_utilities.Base.{
  ℕ, Bool, true, false, not, List, [], ◌∷◌, ◌++◌, map, Option, none, some, if◌then◌else◌, ◌==◌,
}
use go_utilities.Base.Run.{Run, returns, panics, ◌>>=◌}
use go_utilities.Base.Text.{Text, text_eq}
use go_utilities.Websocket.Client.{Client, Message, Any, send, close}
use go_utilities.Websocket.Hub.{Ref, Hub, unregister_client}

-- What is written to the connection.
pub data Frame : Type 0 where
  text_frame : Message → Frame
  ping_frame close_frame : Frame

-- A client with its writing pump: the frames that were written, whether the pump has returned, and
-- the messages that `Send` has taken, which no code keeps.
pub record Pumped : Type 0 where
  pub client : Client
  pub frames : List Frame
  pub stopped : Bool
  pub taken : List Message

pub record Wrote : Type 0 where
  pub frames : List Frame
  pub left : List Message
  pub fine : Bool

-- A turn: another goroutine calls `Send` or `Close`, or the pump's `select` finds the channel or the
-- ticker ready.
pub data Turn : Type 0 where
  sends : Message → Turn
  closes receives ticks : Turn

-- `writes` is whether the connection takes another frame after those that were written.
module _ (writes : List Frame → Bool) where
  -- Message by message, up to the first that fails, which is lost.
  unfoldable pub write_all : List Message → List Frame → Wrote
  write_all [] frames = record { frames = frames; left = []; fine = true }
  write_all (m ∷ ms) frames =
      let rest : Wrote = write_all ms (frames ++ text_frame m ∷ []) in
      if writes frames then rest else record { frames = frames; left = ms; fine = false }

  abbrev pub try_frame : Frame → List Frame → List Frame
  try_frame f frames = if writes frames then frames ++ f ∷ [] else frames

  -- The pump returns, and closes the connection.
  abbrev pub stop : Pumped → Pumped
  stop w = record w { client = record w.client { conn_closed = true }; stopped = true }

  abbrev pub after_write : Wrote → Pumped → Pumped
  after_write o w =
      let kept = record w { client = record w.client { send = o.left }; frames = o.frames } in
      if o.fine then kept else stop kept

  -- The case of the channel: a message with all that are queued behind it, or the end of the channel;
  -- an open channel that is empty is not ready.
  abbrev pub receive_turn : List Message → Pumped → Pumped
  receive_turn [] w =
      if w.client.send_closed
      then stop (record w { frames = try_frame close_frame w.frames })
      else w
  receive_turn (m ∷ ms) w = after_write (write_all (m ∷ ms) w.frames) w

  abbrev pub tick_turn : Pumped → Pumped
  tick_turn w =
      if writes w.frames then record w { frames = w.frames ++ ping_frame ∷ [] } else stop w

  abbrev pub note_taken : Message → Bool → List Message → List Message
  note_taken m b taken = if b then taken ++ m ∷ [] else taken

  unfoldable pub turn : Turn → Pumped → Run Pumped
  unfolding send close write_all
  turn (sends m) w =
      send w.client m >>= λ r. returns (record w { client = r.0; taken = note_taken m r.1 w.taken })
  turn closes w = close w.client >>= λ c. returns (record w { client = c })
  turn receives w = returns (if w.stopped then w else receive_turn w.client.send w)
  turn ticks w = returns (if w.stopped then w else tick_turn w)

  -- `WritePump` over the turns, from the start of the pump on.
  unfoldable pub write_pump : List Turn → Pumped → Run Pumped
  unfolding turn
  write_pump [] w = returns w
  write_pump (t ∷ ts) w = turn t w >>= write_pump ts

-- What `ReadMessage` gives: a message, or an error that is worth a line of the log or is not.
pub data Read : Type 0 where
  read_message : Message → Read
  read_error : Bool → Read

-- The reading pump at its end: what the message handler got, whether the error was logged, whether
-- the disconnect handler was called, and the hub after it.
pub record ReadEnd : Type 0 where
  pub handled : List Message
  pub logged : Bool
  pub disconnected : Bool
  pub hub : Hub

abbrev pub is_given : Option Any → Bool
is_given none = false
is_given (some h) = true

-- `Unregister` runs in the hub's goroutine; then the connection is closed.
abbrev pub leave : Ref → Bool → Hub → Run ReadEnd
leave r logged h = unregister_client r h >>= λ g. returns (record {
  handled = [];
  logged = logged;
  disconnected = is_given (h.heap r).disconnect_handler;
  hub = g;
})

abbrev pub with_handled : Bool → Message → ReadEnd → ReadEnd
with_handled given m e = if given then record e { handled = m ∷ e.handled } else e

-- `ReadPump` over the reads; `none` where they end before an error, as the pump goes on waiting.
-- Handlers do not change the hub here.
unfoldable pub read_pump : Ref → List Read → Hub → Option (Run ReadEnd)
unfolding unregister_client
read_pump r [] h = none
read_pump r (read_error unexpected ∷ reads) h = some (leave r unexpected h)
read_pump r (read_message m ∷ reads) h = elim (read_pump r reads h) [
  | none ↦ none
  | some rest ↦
      some (rest >>= λ e. returns (with_handled (is_given (h.heap r).message_handler) m e))
]

-- `AllowOrigins`: the set as the list that it is made of.
unfoldable pub allow_origins : List Text → Text → Bool
allow_origins [] origin = false
allow_origins (o ∷ origins) origin = if o == origin then true else allow_origins origins origin

abbrev pub allow_all_origins : Text → Bool
allow_all_origins origin = true

-- The `CheckOrigin` of `NewUpgrader`.
abbrev pub checker_of : Option (Text → Bool) → Text → Bool
checker_of none = allow_all_origins
checker_of (some check) = check
