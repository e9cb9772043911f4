-- ===== src/Websocket/Hub/Disconnect.antt =====
-- Disconnecting a user, against the specification.
use go_utilities.Base.{
  ◌≡◌, refl, sym, subst, String, true, ◌&&◌, Option, none, some, List, arith, if◌then◌else◌, ◌==◌,
  string_eq, nat_eq, eq_iff, Option-cases, inl, inr,
}
use go_utilities.Base.Dict.{Dict, lookup, delete, values, rework}
use go_utilities.Base.Dict.Laws.{lookup-rework, then_maybe, Entries-lookup}
use go_utilities.Base.Run.{Run, returns, ◌>>=◌}
use go_utilities.Websocket.Client.Laws.{shut-IsSound}
use go_utilities.Websocket.Hub.{
  Ref, Hub, disconnects, step, disconnect_user, cut, without, close_all,
}
use go_utilities.Websocket.Hub.Maps.{
  Own, get, get-delete, get-unless_empty, IsOwn, AreGroups, delete-IsTidy, without-IsGroup,
}
use go_utilities.Websocket.Hub.Joining.{Simulates}
use go_utilities.Websocket.Hub.Unregister.{reworked-AreGroups}
use go_utilities.Websocket.Hub.View.{view, View-path, spec, IsValid, holds}
use go_utilities.Websocket.Hub.Closing.{shut_all, close_all_lem, contains-values}

module _ (user_of id_of : Ref → String) where
  -- The groups after the loop of `DisconnectUser`.
  get_disconnected :
      (user g u i : String) (groups : Dict (Dict (Dict Ref)))
      → AreGroups user_of id_of groups
      → then_maybe (lookup g (rework (without user) groups)) (get u i)
        ≡ (if user == u then none else then_maybe (lookup g groups) (get u i))
  get_disconnected user g u i groups v = elim (Option-cases (lookup g groups)) [
    | inl e ↦ ground (arith, lookup-rework (without user) g groups v.distinct)
    | inr (users, e) ↦ ground (
      arith,
      lookup-rework (without user) g groups v.distinct,
      get-unless_empty u i (delete user users),
      get-delete user u i users,
    )
  ]

  -- What the first half of `DisconnectUser` leaves.
  abbrev Cuts : String → Hub → Run Hub → Type 0
  Cuts user h half =
      (g : Hub) × (half ≡ returns g)
      × IsValid user_of id_of g
      × (g.groups ≡ h.groups)
      × ((u i : String) → get u i g.clients ≡ (if user == u then none else get u i h.clients))
      × ((q : Ref)
          → (g.heap q).is_closed ≡ (
              if user_of q == user && holds (get user (id_of q) h.clients) q
              then true
              else (h.heap q).is_closed))

  shut_heap-IsValid :
      (rs : List Ref) (user : String) (h : Hub)
      → IsValid user_of id_of h
      → IsValid user_of id_of
          (record h { clients = delete user h.clients; heap = shut_all rs h.heap })
  shut_heap-IsValid rs user h v = record {
    tidy = delete-IsTidy user_of id_of user h.clients v.tidy;
    grouped = v.grouped;
    user = λ q. ground (arith, v.user q);
    ident = λ q. ground (arith, v.ident q);
    sound = λ q. ground (arith, v.sound q, shut-IsSound (h.heap q) (v.sound q));
  }

  -- The clients that the map holds for a user are the user's.
  user_of_held :
      (user : String) (q : Ref) (own : Dict Ref) (h : Hub)
      → IsValid user_of id_of h
      → lookup user h.clients ≡ some own
      → lookup (id_of q) own ≡ some q
      → user_of q ≡ user
  user_of_held user q own h v e found =
      (Entries-lookup (Own user_of id_of user) (id_of q) q own
        (Entries-lookup (IsOwn user_of id_of) user own h.clients v.tidy.inner e).named found).0

  cut_found :
      (user : String) (own : Dict Ref) (h : Hub)
      → IsValid user_of id_of h
      → lookup user h.clients ≡ some own
      → Cuts user h (
          close_all (values own) h.heap >>= λ heap.
          returns (record h { clients = delete user h.clients; heap = heap }))
  cut_found user own h v e = (
    record h { clients = delete user h.clients; heap = shut_all (values own) h.heap },
    rw (close_all_lem (values own) h.heap v.sound) refl,
    shut_heap-IsValid (values own) user h v,
    refl,
    λ u i. get-delete user u i h.clients,
    λ q. closed q (lookup (id_of q) own) refl,
  )
    where
      tidy : IsOwn user_of id_of user own
      tidy = Entries-lookup (IsOwn user_of id_of) user own h.clients v.tidy.inner e

      closed :
          (q : Ref) (o : Option Ref)
          → lookup (id_of q) own ≡ o
          → (shut_all (values own) h.heap q).is_closed ≡ (
              if user_of q == user && holds (get user (id_of q) h.clients) q
              then true
              else (h.heap q).is_closed)
      closed q none f =
          ground (arith, e, f, contains-values user_of id_of user q own tidy.distinct tidy.named)
      closed q (some p) f = ground (
        arith,
        e,
        f,
        contains-values user_of id_of user q own tidy.distinct tidy.named,
        user_of_held user q own h v e,
        eq_iff (user_of q) user,
      )

  cut_absent :
      (user : String) (h : Hub)
      → IsValid user_of id_of h
      → lookup user h.clients ≡ none
      → Cuts user h (returns h)
  cut_absent user h v e =
      (h, refl, v, refl, λ u i. ground (arith, eq_iff user u), λ q. ground (arith, e))

  -- The second half takes the user out of every group.
  disconnect_rest :
      (user : String) (h : Hub) (half : Run Hub)
      → Cuts user h half
      → (g : Hub) × ((half >>= λ g. returns (record g { groups = rework (without user) g.groups }))
          ≡ returns g)
        × IsValid user_of id_of g
        × (view g ≡ spec user_of id_of (disconnects user) (view h))
  disconnect_rest user h half (g, done, w, same, conns, closed) = (
    record g { groups = rework (without user) g.groups },
    rw done refl,
    record {
      tidy = w.tidy;
      grouped =
          reworked-AreGroups user_of id_of _ g.groups
            (λ group users left. without-IsGroup user_of id_of user group users left) w.grouped;
      user = w.user;
      ident = w.ident;
      sound = w.sound;
    },
    View-path _ _ conns
        (λ group u i. ground (arith, get_disconnected user group u i g.groups w.grouped, same))
        closed,
  )

  cut-Cuts : (user : String) (h : Hub) → IsValid user_of id_of h → Cuts user h (cut user h)
  unfolding cut
  cut-Cuts user h v = elim (Option-cases (lookup user h.clients)) [
    | inl e ↦ subst (Cuts user h) (sym (rw (e, cut))) (cut_absent user h v e)
    | inr (own, e) ↦ subst (Cuts user h) (sym (rw (e, cut))) (cut_found user own h v e)
  ]

  pub disconnects-Simulates :
      (user : String) (h : Hub)
      → IsValid user_of id_of h
      → Simulates user_of id_of (disconnects user) h
  unfolding step disconnect_user
  disconnects-Simulates user h v = disconnect_rest user h (cut user h) (cut-Cuts user h v)
