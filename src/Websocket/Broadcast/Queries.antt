-- ===== src/Websocket/Broadcast/Queries.antt =====
-- The queries against the view.
use go_utilities.Base.{
  ◌≡◌, ◌↔◌, String, true, false, [], ◌∷◌, some, arith, string_eq, nat_eq, eq_iff, Option-cases, inl,
  inr, is_empty,
}
use go_utilities.Base.Dict.{Dict, lookup}
use go_utilities.Base.Dict.Laws.{Entries-lookup}
use go_utilities.Websocket.Hub.{Ref, Hub}
use go_utilities.Websocket.Hub.Maps.{IsOwn}
use go_utilities.Websocket.Hub.View.{IsValid}
use go_utilities.Websocket.Broadcast.{get_client, has_active_connection}

-- A map with an entry has one that is found.
found_of_inhabited :
    (own : Dict Ref) → is_empty own ≡ false → (id : String) × (r : Ref) × (lookup id own ≡ some r)
unfolding lookup
found_of_inhabited [] h = cc
found_of_inhabited ((id, r) ∷ own) h = (id, r, ground (arith, eq_iff id id))

-- Of a valid hub, `HasActiveConnection` holds exactly when `GetClient` finds a client of the user
-- under some id.
pub has_active_connection_iff :
    (user_of id_of : Ref → String) (user : String) (h : Hub)
    → IsValid user_of id_of h
    → (has_active_connection user h ≡ true)
      ↔ ((id : String) × (r : Ref) × (get_client user id h ≡ some r))
unfolding has_active_connection get_client
has_active_connection_iff user_of id_of user h v = elim (Option-cases (lookup user h.clients)) [
  | inl e ↦ rw (e, has_active_connection, get_client) (λ h. cc, λ (id, r, h). cc)
  | inr (own, e) ↦
      let tidy : IsOwn user_of id_of user own =
        Entries-lookup (IsOwn user_of id_of) user own h.clients v.tidy.inner e in
      rw (e, has_active_connection, get_client)
        (λ _. found_of_inhabited own tidy.inhabited, λ _. ground (arith, tidy.inhabited))
]
