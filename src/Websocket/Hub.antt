-- ===== src/Websocket/Hub.antt =====
-- websocket/hub.go, and `DisconnectUser` of websocket/broadcast.go. A client is a pointer, a number
-- that the heap maps to the client's fields, so the maps of the hub share it. Each operation holds
-- `mu` throughout, and is one step; logging is left out.
pub mod Maps
pub mod View
pub mod Closing
pub mod Joining
pub mod Unregister
pub mod Disconnect
pub mod Refinement
pub mod Reconnect
use go_utilities.Base.{
  ℕ, String, Bool, true, false, List, [], ◌∷◌, Option, none, some, if◌then◌else◌, ◌==◌, nat_eq,
  is_empty,
}
use go_utilities.Base.Dict.{Dict, lookup, insert, delete, values, rework}
use go_utilities.Base.Run.{Run, returns, panics, ◌>>=◌}
use go_utilities.Websocket.Client.{Client, close}

abbrev pub Ref : Type 0
Ref = ℕ

abbrev pub Heap : Type 0
Heap = Ref → Client

abbrev pub update : Heap → Ref → Client → Heap
update h r c q = if r == q then c else h q

-- `clients` maps a user and a client id to a client, `groups` a group, a user and a client id.
pub record Hub : Type 0 where
  pub clients : Dict (Dict Ref)
  pub groups : Dict (Dict (Dict Ref))
  pub heap : Heap

-- The heap is what the program has allocated by then.
unfoldable pub new_hub : Heap → Hub
new_hub heap = record { clients = []; groups = []; heap = heap }

-- `if _, ok := m[k]; !ok { m[k] = make(…) }`, as the inner map that is then assigned into
abbrev pub or_new {ℓ} : {V : Type ℓ} → Option (Dict V) → Dict V
or_new none = []
or_new (some m) = m

-- `m[user][id] = client`, with the inner map made on demand
unfoldable pub put : String → String → Ref → Dict (Dict Ref) → Dict (Dict Ref)
put user id r m = insert user (insert id r (or_new (lookup user m))) m

-- `delete(m[user], id)`, and then `delete(m, user)` if nothing is left there
unfoldable pub drop : String → String → Dict (Dict Ref) → Dict (Dict Ref)
drop user id m = elim (lookup user m) [
  | none ↦ m
  | some own ↦
      let rest = delete id own in if is_empty rest then delete user m else insert user rest m
]

unfoldable pub register_client : Ref → Hub → Hub
unfolding put
register_client r h = record h { clients = put c.user_id c.id r h.clients }
  where
    c : Client
    c = h.heap r

-- A group without users is deleted.
abbrev pub unless_empty : Dict (Dict Ref) → Option (Dict (Dict Ref))
unless_empty users = if is_empty users then none else some users

-- The body of the loop over the groups: groups where the user has no entry are passed over.
unfoldable pub leave_one : String → String → Dict (Dict Ref) → Option (Dict (Dict Ref))
unfolding drop
leave_one user id users = elim (lookup user users) [
  | none ↦ some users
  | some own ↦ unless_empty (drop user id users)
]

-- The first half: the client that is passed is closed if its user has an entry under its id.
unfoldable pub forget : Ref → Hub → Run Hub
unfolding drop
forget r h = elim (lookup (h.heap r).user_id h.clients) [
  | none ↦ returns h
  | some own ↦ elim (lookup (h.heap r).id own) [
    | none ↦ returns h
    | some _ ↦ close (h.heap r) >>= λ c. returns (record h {
      clients = drop (h.heap r).user_id (h.heap r).id h.clients;
      heap = update h.heap r c;
    })
  ]
]

unfoldable pub unregister_client : Ref → Hub → Run Hub
unfolding forget leave_one
unregister_client r h = forget r h >>= λ g.
    returns (record g { groups = rework (leave_one (h.heap r).user_id (h.heap r).id) g.groups })

unfoldable pub join_group : String → Ref → Hub → Hub
unfolding put
join_group group r h = record h {
  groups = insert group (put c.user_id c.id r (or_new (lookup group h.groups))) h.groups;
}
  where
    c : Client
    c = h.heap r

unfoldable pub leave_group : String → Ref → Hub → Hub
unfolding drop
leave_group group r h = elim (lookup group h.groups) [
  | none ↦ h
  | some users ↦
      let rest = drop (h.heap r).user_id (h.heap r).id users in
      record h {
        groups = if is_empty rest then delete group h.groups else insert group rest h.groups;
      }
]

-- `for _, client := range userClients { client.Close() }`
unfoldable pub close_all : List Ref → Heap → Run Heap
close_all [] heap = returns heap
close_all (r ∷ rs) heap = close (heap r) >>= λ c. close_all rs (update heap r c)

abbrev pub without : String → Dict (Dict Ref) → Option (Dict (Dict Ref))
without user users = unless_empty (delete user users)

-- The first half: the user's clients are closed and forgotten.
unfoldable pub cut : String → Hub → Run Hub
unfolding close_all
cut user h = elim (lookup user h.clients) [
  | none ↦ returns h
  | some own ↦ close_all (values own) h.heap >>= λ heap.
      returns (record h { clients = delete user h.clients; heap = heap })
]

unfoldable pub disconnect_user : String → Hub → Run Hub
unfolding cut
disconnect_user user h =
    cut user h >>= λ g. returns (record g { groups = rework (without user) g.groups })

-- What the event loop and the callers ask of the hub.
pub data Event : Type 0 where
  registers unregisters : Ref → Event
  joins leaves : String → Ref → Event
  disconnects : String → Event

unfoldable pub step : Event → Hub → Run Hub
step (registers r) h = returns (register_client r h)
step (unregisters r) h = unregister_client r h
step (joins group r) h = returns (join_group group r h)
step (leaves group r) h = returns (leave_group group r h)
step (disconnects user) h = disconnect_user user h

unfoldable pub run : List Event → Hub → Run Hub
run [] h = returns h
run (e ∷ es) h = step e h >>= run es
