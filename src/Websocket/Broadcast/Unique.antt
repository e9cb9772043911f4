-- ===== src/Websocket/Broadcast/Unique.antt =====
-- The loops that skip a client id which has been sent to already: where the ids of a group are
-- unique, as the source says they are, nothing is skipped.
use go_utilities.Base.{
  ℕ, ◌≡◌, refl, ◌∙◌, ap, ap₂, sym, fun_ext, String, Bool, true, false, List, [], ◌∷◌, ◌++◌, none,
  some, arith, nat_eq, string_eq, eq_iff, Option-cases, inl, inr,
}
use go_utilities.Base.Dict.{Dict, lookup, values}
use go_utilities.Base.Dict.Laws.{IsDistinct, Entries, Entries-lookup}
use go_utilities.Base.Run.{returns, ◌>>=◌, bind_assoc, bind_cong}
use go_utilities.Websocket.Client.{Message}
use go_utilities.Websocket.Hub.{Ref, Heap, Hub}
use go_utilities.Websocket.Hub.Maps.{IsTidy, IsGroup}
use go_utilities.Websocket.Hub.View.{holds, IsValid, view}
use go_utilities.Websocket.Broadcast.{
  send_at, send_each, Sent, is_in, mark, send_once, send_own_once, send_users_once, unsent,
  send_to_group, all_refs, get_group_clients,
}
use go_utilities.Websocket.Broadcast.Delivery.{send_each_lem}
use go_utilities.Websocket.Broadcast.Flat.{contains-all_refs, all_refs-AreDistinct}
use go_utilities.Websocket.Broadcast.Laws.{Delivers, deliver_cong}

-- The clients of all users, under their client ids.
abbrev pub by_id : Dict (Dict Ref) → Dict Ref
by_id [] = []
by_id ((user, own) ∷ users) = own ++ by_id users

values-append : (xs ys : Dict Ref) → values (xs ++ ys) ≡ values xs ++ values ys
unfolding values
values-append [] ys = refl
values-append ((id, r) ∷ xs) ys = ap (◌∷◌ r) (values-append xs ys)

pub values-by_id : (users : Dict (Dict Ref)) → values (by_id users) ≡ all_refs users
unfolding values all_refs
values-by_id [] = refl
values-by_id ((user, own) ∷ users) =
    values-append own (by_id users) ∙ ap (◌++◌ (values own)) (values-by_id users)

pub send_own_once-append :
    (xs ys : Dict Ref) (message : Message) (s : Sent)
    → send_own_once (xs ++ ys) message s ≡ (send_own_once xs message s >>= send_own_once ys message)
unfolding send_own_once
send_own_once-append [] ys message s = refl
send_own_once-append ((id, r) ∷ xs) ys message s =
    bind_cong (send_once id r message s) (λ t. send_own_once-append xs ys message t)
    ∙ sym (bind_assoc (send_once id r message s) _ _)

send_users_once-flat :
    (users : Dict (Dict Ref)) (message : Message) (s : Sent)
    → send_users_once users message s ≡ send_own_once (by_id users) message s
unfolding send_users_once send_own_once
send_users_once-flat [] message s = refl
send_users_once-flat ((user, own) ∷ users) message s =
    bind_cong (send_own_once own message s) (λ t. send_users_once-flat users message t)
    ∙ sym (send_own_once-append own (by_id users) message s)

-- No client of the list has an id that has been sent to.
abbrev pub Unseen : List String → Dict Ref → Type 0
Unseen ids own = Entries (λ id r. is_in id ids ≡ false) own

Unseen-mark :
    (id : String) (ids : List String) (own : Dict Ref)
    → lookup id own ≡ none
    → Unseen ids own
    → Unseen (id ∷ ids) own
unfolding lookup
Unseen-mark id ids [] h u = tt
Unseen-mark id ids ((j, r) ∷ own) h (here, u) =
    (ground (arith, eq_iff id j, eq_iff j id), Unseen-mark id ids own (ground arith) u)

abbrev pub outcome : Sent → Heap × ℕ
outcome s = (s.heap, s.count)

pub send_own_once-each :
    (own : Dict Ref) (message : Message) (s : Sent)
    → IsDistinct own
    → Unseen s.ids own
    → (send_own_once own message s >>= λ t. returns (outcome t))
      ≡ send_each (values own) message s.heap s.count
unfolding send_own_once send_each values send_once
send_own_once-each [] message s d u = refl
send_own_once-each ((id, r) ∷ own) message s (fresh, d) (here, u) = rw here (
    bind_assoc (send_at r message s.heap >>= λ t. returns (mark id s t)) _ _
    ∙ bind_assoc (send_at r message s.heap) _ _
    ∙ bind_cong (send_at r message s.heap)
        (λ t. send_own_once-each own message (mark id s t) d (seen t)))
  where
    seen : (t : Heap × Bool) → Unseen (mark id s t).ids own
    seen (heap, true) = Unseen-mark id s.ids own fresh u
    seen (heap, false) = u

pub Unseen-nil : (own : Dict Ref) → Unseen [] own
Unseen-nil [] = tt
Unseen-nil ((id, r) ∷ own) = (refl, Unseen-nil own)

send_users_once-each :
    (users : Dict (Dict Ref)) (message : Message) (heap : Heap)
    → IsDistinct (by_id users)
    → (send_users_once users message (unsent heap) >>= λ t. returns (outcome t))
      ≡ send_each (all_refs users) message heap 0
send_users_once-each users message heap d = rw (send_users_once-flat users message (unsent heap)) (
    send_own_once-each (by_id users) message (unsent heap) d (Unseen-nil (by_id users))
    ∙ ap (λ rs. send_each rs message heap 0) (values-by_id users))

-- The clients of a group, under their client ids.
abbrev pub group_by_id : String → Hub → Dict Ref
group_by_id group h = elim (lookup group h.groups) [ none ↦ [] | some users ↦ by_id users ]

module _ (user_of id_of : Ref → String) (message : Message) (h : Hub) where
  -- Of a valid hub in whose group no two clients share an id, `SendToGroup` does not panic. Each
  -- client of the group that accepts the message has it queued, once and last; no other client
  -- changes; and the result is the number of the group's clients that accepted.
  pub send_to_group-Delivers :
      (group : String)
      → IsValid user_of id_of h
      → IsDistinct (group_by_id group h)
      → Delivers user_of id_of message h
          (λ q. holds ((view h).members group (user_of q) (id_of q)) q)
          (get_group_clients group h)
          (send_to_group group message h)
  unfolding send_to_group get_group_clients
  send_to_group-Delivers group v d = elim (Option-cases (lookup group h.groups)) [
    | inl e ↦
        rw (e, send_to_group, get_group_clients)
          (ap (λ g. returns (record h { heap = g }, 0)) (fun_ext λ q. ground arith))
    | inr (users, e) ↦
        let tidy : IsTidy user_of id_of users =
          (Entries-lookup (IsGroup user_of id_of) group users h.groups v.grouped.inner e).tidy in
        rw (e, send_to_group, get_group_clients)
          (sym (
              bind_assoc (send_users_once users message (unsent h.heap)) (λ t. returns (outcome t))
                (λ t. returns (record h { heap = t.0 }, t.1)))
            ∙ rw (send_users_once-each users message h.heap (rw (e, group_by_id) at d)) (
                rw
                  (send_each_lem (all_refs users) message h.heap 0 v.sound
                    (all_refs-AreDistinct user_of id_of users tidy.distinct tidy.inner))
                  (ap₂ (λ g n. returns (record h { heap = g }, n))
                    (deliver_cong _ _ message h.heap
                      (λ q. contains-all_refs user_of id_of q users tidy.distinct tidy.inner))
                    (omega arith))))
  ]
