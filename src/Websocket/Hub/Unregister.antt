-- ===== src/Websocket/Hub/Unregister.antt =====
-- Unregistering a client, against the specification.
use go_utilities.Base.{
  ◌≡◌, refl, String, true, ◌&&◌, Option, none, some, arith, if◌then◌else◌, ◌==◌, string_eq, nat_eq,
  eq_iff, Option-cases, inl, inr,
}
use go_utilities.Base.Dict.{Dict, lookup, rework}
use go_utilities.Base.Dict.Laws.{lookup-rework, then_maybe, rework-IsDistinct, Entries-rework}
use go_utilities.Base.Run.{returns}
use go_utilities.Websocket.Client.Laws.{shut, close_lem}
use go_utilities.Websocket.Hub.{
  Ref, Hub, unregisters, step, unregister_client, forget, drop, leave_one, update,
}
use go_utilities.Websocket.Hub.Maps.{
  get, get-drop, get-leave_one, IsTidy, IsGroup, AreGroups, drop-IsTidy, leave_one-IsGroup,
}
use go_utilities.Websocket.Hub.Joining.{Simulates}
use go_utilities.Websocket.Hub.View.{View-path, IsValid, is_some}
use go_utilities.Websocket.Hub.Closing.{update-shut-IsSound}

module _ (user_of id_of : Ref → String) where
  pub reworked-AreGroups :
      (f : Dict (Dict Ref) → Option (Dict (Dict Ref))) (groups : Dict (Dict (Dict Ref)))
      → ((group : String) (users left : Dict (Dict Ref))
          → IsGroup user_of id_of group users
          → f users ≡ some left
          → IsGroup user_of id_of group left)
      → AreGroups user_of id_of groups
      → AreGroups user_of id_of (rework f groups)
  reworked-AreGroups f groups keeps v = record {
    distinct = rework-IsDistinct f groups v.distinct;
    inner = Entries-rework f (IsGroup user_of id_of) (IsGroup user_of id_of) keeps groups v.inner;
  }

  -- The groups after the loop of `unregisterClient`.
  get_unregistered :
      (user id g u i : String) (groups : Dict (Dict (Dict Ref)))
      → AreGroups user_of id_of groups
      → then_maybe (lookup g (rework (leave_one user id) groups)) (get u i)
        ≡ (if user == u && id == i then none else then_maybe (lookup g groups) (get u i))
  get_unregistered user id g u i groups v = elim (Option-cases (lookup g groups)) [
    | inl e ↦ ground (arith, lookup-rework (leave_one user id) g groups v.distinct)
    | inr (users, e) ↦ ground (
      arith,
      lookup-rework (leave_one user id) g groups v.distinct,
      get-leave_one user id u i users,
    )
  ]

  -- Closing one client of a valid heap leaves the ids and soundness.
  closed_heap-IsValid :
      (r : Ref) (m : Dict (Dict Ref)) (h : Hub)
      → IsValid user_of id_of h
      → IsTidy user_of id_of m
      → IsValid user_of id_of (record h { clients = m; heap = update h.heap r (shut (h.heap r)) })
  closed_heap-IsValid r m h v t = record {
    tidy = t;
    grouped = v.grouped;
    user = λ q. ground (arith, v.user q, v.user r);
    ident = λ q. ground (arith, v.ident q, v.ident r);
    sound = update-shut-IsSound h.heap r v.sound;
  }

  -- What the first half of `unregisterClient` leaves: the groups are as they were.
  abbrev Forgets : Ref → Hub → Type 0
  Forgets r h =
      (g : Hub) × (forget r h ≡ returns g)
      × IsValid user_of id_of g
      × (g.groups ≡ h.groups)
      × ((u i : String)
          → get u i g.clients
            ≡ (if user_of r == u && id_of r == i then none else get u i h.clients))
      × ((q : Ref)
          → (g.heap q).is_closed ≡ (
              if r == q && is_some (get (user_of r) (id_of r) h.clients)
              then true
              else (h.heap q).is_closed))

  -- no entry: nothing happens
  Forgets-absent :
      (r : Ref) (h : Hub)
      → IsValid user_of id_of h
      → get (h.heap r).user_id (h.heap r).id h.clients ≡ none
      → forget r h ≡ returns h
      → Forgets r h
  Forgets-absent r h v e same = (
    h,
    same,
    v,
    refl,
    λ u i. ground (arith, v.user r, v.ident r, eq_iff (user_of r) u, eq_iff (id_of r) i, e'),
    λ q. ground (arith, e'),
  )
    where
      e' : get (user_of r) (id_of r) h.clients ≡ none
      e' = rw (← v.user r, ← v.ident r) e

  Forgets-present :
      (r q : Ref) (own : Dict Ref) (h : Hub)
      → IsValid user_of id_of h
      → lookup (h.heap r).user_id h.clients ≡ some own
      → lookup (h.heap r).id own ≡ some q
      → Forgets r h
  unfolding forget
  Forgets-present r q own h v e found = (
    record h {
      clients = drop (h.heap r).user_id (h.heap r).id h.clients;
      heap = update h.heap r (shut (h.heap r));
    },
    rw (e, forget) (rw found (rw (close_lem (h.heap r) (v.sound r).agree) refl)),
    closed_heap-IsValid r _ h v (drop-IsTidy user_of id_of _ _ h.clients v.tidy),
    refl,
    λ u i.
        ground
          (arith, get-drop (h.heap r).user_id (h.heap r).id u i h.clients, v.user r, v.ident r),
    λ p. ground (arith, present),
  )
    where
      present : get (user_of r) (id_of r) h.clients ≡ some q
      present = rw (← v.user r, ← v.ident r) (rw e found)

  forget-Forgets : (r : Ref) (h : Hub) → IsValid user_of id_of h → Forgets r h
  unfolding forget
  forget-Forgets r h v = elim (Option-cases (lookup (h.heap r).user_id h.clients)) [
    | inl e ↦ Forgets-absent r h v (rw e refl) (rw (e, forget))
    | inr (own, e) ↦ elim (Option-cases (lookup (h.heap r).id own)) [
      | inl missing ↦ Forgets-absent r h v (rw e missing) (rw (e, forget) (rw missing refl))
      | inr (q, found) ↦ Forgets-present r q own h v e found
    ]
  ]

  pub unregisters-Simulates :
      (r : Ref) (h : Hub) → IsValid user_of id_of h → Simulates user_of id_of (unregisters r) h
  unfolding step unregister_client
  unregisters-Simulates r h v =
      let (g, done, w, same, conns, closed) = forget-Forgets r h v in
      (
        record g { groups = rework (leave_one (h.heap r).user_id (h.heap r).id) g.groups },
        rw done refl,
        record {
          tidy = w.tidy;
          grouped =
              reworked-AreGroups _ g.groups
                (λ group users left.
                  leave_one-IsGroup user_of id_of (h.heap r).user_id (h.heap r).id group users left)
                w.grouped;
          user = w.user;
          ident = w.ident;
          sound = w.sound;
        },
        View-path _ _ conns
            (λ group u i. ground (
              arith,
              get_unregistered (h.heap r).user_id (h.heap r).id group u i g.groups w.grouped,
              same,
              v.user r,
              v.ident r,
            ))
            closed,
      )
