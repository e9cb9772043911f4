-- ===== src/Websocket/Tests.antt =====
-- Runs of the hub and its clients, and the theorems at concrete inputs.
use go_utilities.Base.{
  ◌≡◌, refl, subst, not, ◌&&◌, string_eq, ◌↔◌, String, true, false, List, [], ◌∷◌, none, arith,
  if◌then◌else◌, ◌==◌, nat_eq,
}
use go_utilities.Base.Dict.{lookup, insert, delete, values, rework}
use go_utilities.Base.Dict.Laws.{IsDistinct}
use go_utilities.Base.Run.{returns}
use go_utilities.Websocket.Client.{Client, Message, default_config, new_client, with_token}
use go_utilities.Websocket.Client.Laws.{IsSound, new_client-IsSound}
use go_utilities.Websocket.Client.Race.{World, Reach, entry, crashed, send_crash_iff}
use go_utilities.Websocket.Hub.{
  Ref, Heap, Hub, new_hub, Event, registers, unregisters, joins, disconnects, run, step,
  register_client, join_group,
}
use go_utilities.Websocket.Hub.View.{IsValid, view, holds}
use go_utilities.Websocket.Hub.Joining.{Simulates}
use go_utilities.Websocket.Hub.Refinement.{Reaches, step-Simulates, run-new_hub-Reaches}
use go_utilities.Websocket.Hub.Reconnect.{reconnect_evicts}
use go_utilities.Websocket.Broadcast.{
  send_to_tenant, send_to_user, send_to_group, send_to_group_except, broadcast_all,
  get_user_clients, all_refs, get_group_clients,
}
use go_utilities.Websocket.Broadcast.Laws.{
  Delivers, others, send_to_user-Delivers, send_to_group_except-Delivers,
}
use go_utilities.Websocket.Broadcast.Unique.{by_id, group_by_id, send_to_group-Delivers}
use go_utilities.Websocket.Broadcast.Tenant.{tenant_in, tenant_refs, send_to_tenant-Delivers}

-- Pointers 0 and 2 name clients with the same ids, any other one of another user.
abbrev test_user : Ref → String
test_user r = if r == 0 then "ann" else if r == 2 then "ann" else "bob"

abbrev test_id : Ref → String
test_id r = if r == 0 then "c1" else if r == 2 then "c1" else "c2"

abbrev test_heap : Heap
test_heap r = new_client (test_id r) (test_user r) "t" default_config (with_token "x" ∷ [])

abbrev hello : Message
hello = 104 ∷ 105 ∷ []

test_heap-user : (r : Ref) → (test_heap r).user_id ≡ test_user r
unfolding new_client
test_heap-user r = refl

test_heap-id : (r : Ref) → (test_heap r).id ≡ test_id r
unfolding new_client
test_heap-id r = refl

test_heap-IsSound : (r : Ref) → IsSound (test_heap r)
test_heap-IsSound r = new_client-IsSound (test_id r) (test_user r) "t" default_config _

-- Two clients are registered and share a room.
abbrev history : List Event
history = registers 0 ∷ registers 1 ∷ joins "room" 0 ∷ joins "room" 1 ∷ []

run-new_hub-Reaches_example : Reaches test_user test_id history (new_hub test_heap)
run-new_hub-Reaches_example =
    run-new_hub-Reaches test_user test_id history test_heap test_heap-user test_heap-id
      test_heap-IsSound

abbrev empty_hub : Hub
empty_hub = new_hub test_heap

empty_hub-IsValid : IsValid test_user test_id empty_hub
unfolding new_hub
empty_hub-IsValid = record {
  tidy = record { distinct = tt; inner = tt };
  grouped = record { distinct = tt; inner = tt };
  user = test_heap-user;
  ident = test_heap-id;
  sound = test_heap-IsSound;
}

-- Client 0 is registered.
abbrev one_client : Hub
one_client = register_client 0 empty_hub

IsValid-after :
    (e : Event) (h g : Hub)
    → step e h ≡ returns g
    → IsValid test_user test_id h
    → IsValid test_user test_id g
IsValid-after e h g done v =
    let (k, ran, valid, same) = step-Simulates test_user test_id e h v in
    subst (IsValid test_user test_id) (same_hub k ran) valid
  where
    same_hub : (k : Hub) → step e h ≡ returns k → k ≡ g
    same_hub k ran = cc

one_client-IsValid : IsValid test_user test_id one_client
unfolding step
one_client-IsValid = IsValid-after (registers 0) empty_hub one_client refl empty_hub-IsValid

-- Both clients are in the room.
abbrev shared_room : Hub
shared_room = join_group "room" 1 (join_group "room" 0 one_client)

shared_room-IsValid : IsValid test_user test_id shared_room
unfolding step
shared_room-IsValid =
    IsValid-after (joins "room" 1) (join_group "room" 0 one_client) shared_room refl (
      IsValid-after (joins "room" 0) one_client (join_group "room" 0 one_client) refl
        one_client-IsValid)

runs : Unit {0}
unfolding run step new_hub send_to_user send_to_group send_to_group_except broadcast_all lookup
    insert delete values rework get_user_clients all_refs get_group_clients register_client
    join_group
runs = tt

ids_differ : IsDistinct (group_by_id "room" shared_room)
unfolding runs new_client
ids_differ = (refl, (refl, tt))

ids_apart : IsDistinct (by_id shared_room.clients)
unfolding runs new_client
ids_apart = (refl, tt)

step-Simulates_example : Simulates test_user test_id (disconnects "ann") shared_room
step-Simulates_example =
    step-Simulates test_user test_id (disconnects "ann") shared_room shared_room-IsValid

send_to_group-Delivers_example :
    Delivers test_user test_id hello shared_room
      (λ q. holds ((view shared_room).members "room" (test_user q) (test_id q)) q)
      (get_group_clients "room" shared_room)
      (send_to_group "room" hello shared_room)
send_to_group-Delivers_example =
    send_to_group-Delivers test_user test_id hello shared_room "room" shared_room-IsValid ids_differ

send_to_tenant-Delivers_example :
    Delivers test_user test_id hello shared_room
      (λ q.
        tenant_in test_user test_id hello shared_room q == "t"
        && holds ((view shared_room).conns (test_user q) (test_id q)) q)
      (tenant_refs test_user test_id hello shared_room "t")
      (send_to_tenant "t" hello shared_room)
send_to_tenant-Delivers_example =
    send_to_tenant-Delivers test_user test_id hello shared_room "t" shared_room-IsValid ids_apart

send_to_user-Delivers_example :
    Delivers test_user test_id hello shared_room
      (λ q. test_user q == "ann" && holds ((view shared_room).conns "ann" (test_id q)) q)
      (get_user_clients "ann" shared_room)
      (send_to_user "ann" hello shared_room)
send_to_user-Delivers_example =
    send_to_user-Delivers test_user test_id hello shared_room "ann" shared_room-IsValid

send_to_group_except-Delivers_example :
    Delivers test_user test_id hello shared_room
      (λ q.
        not ("bob" == test_user q)
        && holds ((view shared_room).members "room" (test_user q) (test_id q)) q)
      (others test_user test_id hello shared_room "room" "bob")
      (send_to_group_except "room" "bob" hello shared_room)
send_to_group_except-Delivers_example =
    send_to_group_except-Delivers test_user test_id hello shared_room "room" "bob"
      shared_room-IsValid

-- Pointer 2 connects again under the ids of pointer 0, which is unregistered then.
reconnect_evicts_example :
    (g : Hub) × (run (registers 2 ∷ unregisters 0 ∷ []) one_client ≡ returns g)
    × ((view g).conns "ann" "c1" ≡ none)
    × ((g.heap 0).is_closed ≡ true)
    × ((g.heap 2).is_closed ≡ (one_client.heap 2).is_closed)
reconnect_evicts_example =
    reconnect_evicts test_user test_id one_client 0 2 one_client-IsValid (omega arith) refl refl

abbrev ann : Client
ann = test_heap 0

send_crash_iff_example :
    ((w : World) × Reach hello (entry ann) w × (w.sender ≡ crashed)) ↔ (ann.is_closed ≡ false)
send_crash_iff_example = send_crash_iff ann hello (test_heap-IsSound 0)
