-- ===== src/Websocket/Hub/Joining.antt =====
-- Each operation of a valid hub returns, leaves a valid hub, and does to the view what the
-- specification says.
use go_utilities.Base.{
  ◌≡◌, refl, sym, String, Option, none, some, arith, if◌then◌else◌, ◌==◌, string_eq, nat_eq, eq_iff,
  Option-cases, Bool-cases, inl, inr, is_empty,
}
use go_utilities.Base.Dict.{Dict, lookup, insert, delete}
use go_utilities.Base.Dict.Laws.{
  lookup-insert, lookup-delete, then_maybe, insert-IsDistinct, delete-IsDistinct, Entries-insert,
  Entries-delete, Entries-lookup,
}
use go_utilities.Base.Run.{returns}
use go_utilities.Websocket.Hub.{
  Ref, Hub, Event, registers, joins, leaves, step, register_client, join_group, leave_group, put,
  drop, or_new,
}
use go_utilities.Websocket.Hub.Maps.{
  get, get-put, get-drop, get-unless_empty, IsTidy, IsGroup, AreGroups, put-IsTidy, drop-IsTidy,
  put-IsGroup,
}
use go_utilities.Websocket.Hub.View.{view, View-path, spec, IsValid}

-- What is found in a group that is looked up or made anew.
get-or_new :
    (u i : String) (o : Option (Dict (Dict Ref))) → get u i (or_new o) ≡ then_maybe o (get u i)
unfolding lookup
get-or_new u i none = refl
get-or_new u i (some m) = refl

module _ (user_of id_of : Ref → String) where
  abbrev pub Simulates : Event → Hub → Type 0
  Simulates e h =
      (h' : Hub) × (step e h ≡ returns h')
      × IsValid user_of id_of h'
      × (view h' ≡ spec user_of id_of e (view h))

  pub registers-Simulates :
      (r : Ref) (h : Hub) → IsValid user_of id_of h → Simulates (registers r) h
  unfolding step register_client
  registers-Simulates r h v = (
    register_client r h,
    refl,
    record {
      tidy =
          put-IsTidy user_of id_of (h.heap r).user_id (h.heap r).id r h.clients
            (sym (v.user r), sym (v.ident r)) v.tidy;
      grouped = v.grouped;
      user = v.user;
      ident = v.ident;
      sound = v.sound;
    },
    View-path _ _
        (λ u i.
          ground
            (arith, get-put (h.heap r).user_id (h.heap r).id u i r h.clients, v.user r, v.ident r))
        (λ g u i. refl) (λ q. refl),
  )

  -- The group that a client joins, after it has joined.
  joined-IsGroup :
      (group : String) (r : Ref) (h : Hub)
      → IsValid user_of id_of h
      → IsGroup user_of id_of group
          (put (h.heap r).user_id (h.heap r).id r (or_new (lookup group h.groups)))
  joined-IsGroup group r h v =
      put-IsGroup user_of id_of (h.heap r).user_id (h.heap r).id group r _
        (sym (v.user r), sym (v.ident r)) (go (lookup group h.groups) refl)
    where
      go :
          (o : Option (Dict (Dict Ref)))
          → lookup group h.groups ≡ o
          → IsTidy user_of id_of (or_new o)
      go none e = record { distinct = tt; inner = tt }
      go (some m) e =
          (Entries-lookup (IsGroup user_of id_of) group m h.groups v.grouped.inner e).tidy

  pub joins-Simulates :
      (group : String) (r : Ref) (h : Hub) → IsValid user_of id_of h → Simulates (joins group r) h
  unfolding step join_group
  joins-Simulates group r h v = (
    join_group group r h,
    refl,
    record {
      tidy = v.tidy;
      grouped = record {
        distinct = insert-IsDistinct group _ h.groups v.grouped.distinct;
        inner =
            Entries-insert (IsGroup user_of id_of) group _ h.groups (joined-IsGroup group r h v)
              v.grouped.inner;
      };
      user = v.user;
      ident = v.ident;
      sound = v.sound;
    },
    View-path _ _ (λ u i. refl)
        (λ g u i. ground (
          arith,
          lookup-insert group g
              (put (h.heap r).user_id (h.heap r).id r (or_new (lookup group h.groups))) h.groups,
          get-put (h.heap r).user_id (h.heap r).id u i r (or_new (lookup group h.groups)),
          get-or_new u i (lookup group h.groups),
          eq_iff group g,
          v.user r,
          v.ident r,
        ))
        (λ q. refl),
  )

  left-AreGroups :
      (group : String) (rest : Dict (Dict Ref)) (groups : Dict (Dict (Dict Ref)))
      → AreGroups user_of id_of groups
      → IsTidy user_of id_of rest
      → AreGroups user_of id_of
          (if is_empty rest then delete group groups else insert group rest groups)
  left-AreGroups group rest groups v t = elim (Bool-cases (is_empty rest)) [
    | inl gone ↦ rw gone (record {
      distinct = delete-IsDistinct group groups v.distinct;
      inner = Entries-delete (IsGroup user_of id_of) group groups v.inner;
    })
    | inr kept ↦ rw kept (record {
      distinct = insert-IsDistinct group rest groups v.distinct;
      inner =
          Entries-insert (IsGroup user_of id_of) group rest groups
            (record { tidy = t; inhabited = kept }) v.inner;
    })
  ]

  get_left :
      (group g u i : String) (rest : Dict (Dict Ref)) (groups : Dict (Dict (Dict Ref)))
      → then_maybe
          (lookup g (if is_empty rest then delete group groups else insert group rest groups))
          (get u i)
        ≡ (if group == g then get u i rest else then_maybe (lookup g groups) (get u i))
  get_left group g u i rest groups = elim (Bool-cases (is_empty rest)) [
    | inl gone ↦ rw gone (ground (arith, lookup-delete group g groups, get-unless_empty u i rest))
    | inr kept ↦ rw kept (ground (arith, lookup-insert group g rest groups))
  ]

  leave_found-Simulates :
      (group : String) (r : Ref) (users : Dict (Dict Ref)) (h : Hub)
      → IsValid user_of id_of h
      → lookup group h.groups ≡ some users
      → IsValid user_of id_of (leave_group group r h)
        × (view (leave_group group r h) ≡ spec user_of id_of (leaves group r) (view h))
  unfolding leave_group
  leave_found-Simulates group r users h v e =
      let rest : Dict (Dict Ref) = drop (h.heap r).user_id (h.heap r).id users in
      rw (e, leave_group)
        (
          record {
            tidy = v.tidy;
            grouped = left-AreGroups group rest h.groups v.grouped (
                drop-IsTidy user_of id_of _ _ users
                  (Entries-lookup (IsGroup user_of id_of) group users h.groups v.grouped.inner
                    e).tidy);
            user = v.user;
            ident = v.ident;
            sound = v.sound;
          },
          View-path _ _ (λ u i. refl)
              (λ g u i. ground (
                arith,
                get_left group g u i rest h.groups,
                get-drop (h.heap r).user_id (h.heap r).id u i users,
                eq_iff group g,
                v.user r,
                v.ident r,
              ))
              (λ q. refl),
        )

  pub leaves-Simulates :
      (group : String) (r : Ref) (h : Hub) → IsValid user_of id_of h → Simulates (leaves group r) h
  unfolding step leave_group
  leaves-Simulates group r h v = elim (Option-cases (lookup group h.groups)) [
    | inl e ↦ (
      h,
      rw (e, leave_group),
      v,
      View-path _ _ (λ u i. refl) (λ g u i. ground (arith, eq_iff group g)) (λ q. refl),
    )
    | inr (users, e) ↦
        let (valid, same) = leave_found-Simulates group r users h v e in
        (leave_group group r h, refl, valid, same)
  ]
