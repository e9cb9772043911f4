-- ===== src/Websocket/Hub/Refinement.antt =====
-- The hub refines its specification, event by event and over any history.
use go_utilities.Base.{◌≡◌, refl, ◌∙◌, ap, String, List, [], ◌∷◌}
use go_utilities.Base.Run.{returns}
use go_utilities.Websocket.Client.Laws.{IsSound}
use go_utilities.Websocket.Hub.{
  Ref, Hub, Heap, Event, registers, unregisters, joins, leaves, disconnects, run, new_hub,
}
use go_utilities.Websocket.Hub.View.{View, view, spec, IsValid}
use go_utilities.Websocket.Hub.Joining.{
  Simulates, registers-Simulates, joins-Simulates, leaves-Simulates,
}
use go_utilities.Websocket.Hub.Unregister.{unregisters-Simulates}
use go_utilities.Websocket.Hub.Disconnect.{disconnects-Simulates}

module _ (user_of id_of : Ref → String) where
  -- Each operation of a valid hub returns without a panic, leaves a valid hub (no empty inner map,
  -- every client filed under its own ids, every client sound), and changes who is connected, who
  -- is in which group and which clients are closed as the specification says, and nothing else of
  -- these.
  pub step-Simulates : (e : Event) (h : Hub) → IsValid user_of id_of h → Simulates user_of id_of e h
  step-Simulates (registers r) h v = registers-Simulates user_of id_of r h v
  step-Simulates (unregisters r) h v = unregisters-Simulates user_of id_of r h v
  step-Simulates (joins group r) h v = joins-Simulates user_of id_of group r h v
  step-Simulates (leaves group r) h v = leaves-Simulates user_of id_of group r h v
  step-Simulates (disconnects user) h v = disconnects-Simulates user_of id_of user h v

  abbrev pub spec_run : List Event → View → View
  spec_run [] v = v
  spec_run (e ∷ es) v = spec_run es (spec user_of id_of e v)

  abbrev pub Reaches : List Event → Hub → Type 0
  Reaches es h =
      (h' : Hub) × (run es h ≡ returns h')
      × IsValid user_of id_of h'
      × (view h' ≡ spec_run es (view h))

  pub run-Reaches : (es : List Event) (h : Hub) → IsValid user_of id_of h → Reaches es h
  unfolding run
  run-Reaches [] h v = (h, refl, v, refl)
  run-Reaches (e ∷ es) h v =
      let (g, done, w, same) = step-Simulates e h v in
      let (k, rest, x, end) = run-Reaches es g w in
      (k, rw done rest, x, end ∙ ap (spec_run es) same)

  new_hub-IsValid :
      (heap : Heap)
      → ((r : Ref) → (heap r).user_id ≡ user_of r)
      → ((r : Ref) → (heap r).id ≡ id_of r)
      → ((r : Ref) → IsSound (heap r))
      → IsValid user_of id_of (new_hub heap)
  unfolding new_hub
  new_hub-IsValid heap user ident sound = record {
    tidy = record { distinct = tt; inner = tt };
    grouped = record { distinct = tt; inner = tt };
    user = user;
    ident = ident;
    sound = sound;
  }

  -- From a new hub over sound clients, every history of operations runs to its end without a
  -- panic, leaves a valid hub, and leaves the view that the specification gives from one with no
  -- connections and no groups.
  pub run-new_hub-Reaches :
      (es : List Event) (heap : Heap)
      → ((r : Ref) → (heap r).user_id ≡ user_of r)
      → ((r : Ref) → (heap r).id ≡ id_of r)
      → ((r : Ref) → IsSound (heap r))
      → Reaches es (new_hub heap)
  run-new_hub-Reaches es heap user ident sound =
      run-Reaches es (new_hub heap) (new_hub-IsValid heap user ident sound)
