-- ===== src/Websocket/Broadcast/Laws.antt =====
-- Who receives a message, and what the count is.
use go_utilities.Base.{
  ℕ, ◌≡◌, ap, ap₂, fun_ext, String, Bool, ◌&&◌, not, List, [], none, some, arith, ◌==◌, nat_eq,
  string_eq, eq_iff, Option-cases, inl, inr,
}
use go_utilities.Base.Dict.{Dict, lookup, values, delete}
use go_utilities.Base.Dict.Laws.{Entries-lookup, delete-IsDistinct, Entries-delete}
use go_utilities.Base.Run.{Run, returns}
use go_utilities.Websocket.Client.{Message}
use go_utilities.Websocket.Hub.{Ref, Heap, Hub}
use go_utilities.Websocket.Hub.Maps.{IsOwn, IsTidy, IsGroup, get, get-delete}
use go_utilities.Websocket.Hub.View.{holds, IsValid, view}
use go_utilities.Websocket.Hub.Closing.{contains, contains-values}
use go_utilities.Websocket.Broadcast.{
  all_refs, send_to_user, send_to_group_except, broadcast_all, get_user_clients,
}
use go_utilities.Websocket.Broadcast.Delivery.{deliver, tally, send_each_lem}
use go_utilities.Websocket.Broadcast.Flat.{
  send_users-flat, send_users_except-delete, values-AreDistinct, held-user, contains-all_refs,
  all_refs-AreDistinct,
}

-- Delivery depends on whom the predicate names.
pub deliver_cong :
    (p p' : Ref → Bool) (message : Message) (heap : Heap)
    → ((q : Ref) → p q ≡ p' q)
    → deliver p message heap ≡ deliver p' message heap
deliver_cong p p' message heap h = ap (λ f. deliver f message heap) (fun_ext h)

module _ (user_of id_of : Ref → String) (message : Message) (h : Hub) where
  -- Sent to the clients that `p` names, `n` of which accepted.
  abbrev pub Delivers : (Ref → Bool) → List Ref → Run (Hub × ℕ) → Type 0
  Delivers p rs m = m ≡ returns (record h { heap = deliver p message h.heap }, tally rs h.heap)

  held_of_user :
      (user : String) (own : Dict Ref)
      → IsValid user_of id_of h
      → lookup user h.clients ≡ some own
      → (q : Ref) → contains q (values own) ≡ (user_of q == user && holds (lookup (id_of q) own) q)
  held_of_user user own v e q =
      let tidy : IsOwn user_of id_of user own =
        Entries-lookup (IsOwn user_of id_of) user own h.clients v.tidy.inner e in
      ground (
        arith,
        contains-values user_of id_of user q own tidy.distinct tidy.named,
        held-user user_of id_of user q own tidy.named,
        eq_iff (user_of q) user,
      )

  -- Of a valid hub, `SendToUser` does not panic. Each client that is connected under the user and
  -- accepts the message has it queued, once and last; no other client changes; and the result is
  -- the number of the user's clients that accepted.
  pub send_to_user-Delivers :
      (user : String)
      → IsValid user_of id_of h
      → Delivers
          (λ q. user_of q == user && holds ((view h).conns user (id_of q)) q)
          (get_user_clients user h)
          (send_to_user user message h)
  unfolding send_to_user get_user_clients
  send_to_user-Delivers user v = elim (Option-cases (lookup user h.clients)) [
    | inl e ↦
        rw (e, send_to_user, get_user_clients)
          (ap (λ g. returns (record h { heap = g }, 0)) (fun_ext λ q. ground arith))
    | inr (own, e) ↦
        let tidy : IsOwn user_of id_of user own =
          Entries-lookup (IsOwn user_of id_of) user own h.clients v.tidy.inner e in
        let held = held_of_user user own v e in
        rw (e, send_to_user, get_user_clients)
          (rw
            (send_each_lem (values own) message h.heap 0 v.sound
              (values-AreDistinct user_of id_of user own tidy.distinct tidy.named))
            (ap₂ (λ g n. returns (record h { heap = g }, n)) (deliver_cong _ _ message h.heap held)
              (omega arith)))
  ]

  -- Of a valid hub, `BroadcastAll` does not panic. Each connected client that accepts the message
  -- has it queued, once and last; no other client changes; and the result is the number of
  -- connected clients that accepted.
  pub broadcast_all-Delivers :
      IsValid user_of id_of h
      → Delivers
          (λ q. holds ((view h).conns (user_of q) (id_of q)) q)
          (all_refs h.clients)
          (broadcast_all message h)
  unfolding broadcast_all
  broadcast_all-Delivers v = rw (send_users-flat h.clients message h.heap 0) (
      rw
        (send_each_lem (all_refs h.clients) message h.heap 0 v.sound
          (all_refs-AreDistinct user_of id_of h.clients v.tidy.distinct v.tidy.inner))
        (ap₂ (λ g n. returns (record h { heap = g }, n))
          (deliver_cong _ _ message h.heap
            (λ q. contains-all_refs user_of id_of q h.clients v.tidy.distinct v.tidy.inner))
          (omega arith)))

  -- The clients of a group that are not the excluded user's.
  abbrev pub others : String → String → List Ref
  others group ex = elim (lookup group h.groups) [
    | none ↦ []
    | some users ↦ all_refs (delete ex users)
  ]

  held_of_others :
      (group ex : String) (users : Dict (Dict Ref))
      → IsTidy user_of id_of users
      → (q : Ref)
      → contains q (all_refs (delete ex users))
        ≡ (not (ex == user_of q) && holds (get (user_of q) (id_of q) users) q)
  held_of_others group ex users t q = ground (
    arith,
    contains-all_refs user_of id_of q (delete ex users) (delete-IsDistinct ex users t.distinct)
        (Entries-delete (IsOwn user_of id_of) ex users t.inner),
    get-delete ex (user_of q) (id_of q) users,
  )

  -- Of a valid hub, `SendToGroupExcept` does not panic. Each client of the group that is not the
  -- excluded user's and accepts the message has it queued, once and last; no other client
  -- changes; and the result is the number of those that accepted.
  pub send_to_group_except-Delivers :
      (group ex : String)
      → IsValid user_of id_of h
      → Delivers
          (λ q. not (ex == user_of q) && holds ((view h).members group (user_of q) (id_of q)) q)
          (others group ex)
          (send_to_group_except group ex message h)
  unfolding send_to_group_except
  send_to_group_except-Delivers group ex v = elim (Option-cases (lookup group h.groups)) [
    | inl e ↦
        rw (e, send_to_group_except, others)
          (ap (λ g. returns (record h { heap = g }, 0)) (fun_ext λ q. ground arith))
    | inr (users, e) ↦
        let tidy : IsTidy user_of id_of users =
          (Entries-lookup (IsGroup user_of id_of) group users h.groups v.grouped.inner e).tidy in
        rw (e, send_to_group_except, others)
          (rw (send_users_except-delete ex users message h.heap 0) (
            rw (send_users-flat (delete ex users) message h.heap 0) (
              rw
                (send_each_lem (all_refs (delete ex users)) message h.heap 0 v.sound (
                  all_refs-AreDistinct user_of id_of (delete ex users)
                    (delete-IsDistinct ex users tidy.distinct)
                    (Entries-delete (IsOwn user_of id_of) ex users tidy.inner)))
                (ap₂ (λ g n. returns (record h { heap = g }, n))
                  (deliver_cong _ _ message h.heap (held_of_others group ex users tidy))
                  (omega arith)))))
  ]
