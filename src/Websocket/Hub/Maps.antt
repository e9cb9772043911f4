-- ===== src/Websocket/Hub/Maps.antt =====
-- The laws of the two-level maps: what is found after `put`, `drop` and a deletion, and that the
-- maps keep distinct keys and no empty inner map.
use go_utilities.Base.{
  ◌≡◌, refl, subst, String, true, false, ◌&&◌, Option, none, some, [], ◌∷◌, arith, if◌then◌else◌,
  ◌==◌, string_eq, eq_iff, is_empty, Bool-cases, Option-cases, inl, inr,
}
use go_utilities.Base.Dict.{Dict, lookup, insert, delete}
use go_utilities.Base.Dict.Laws.{
  lookup-insert, lookup-delete, IsDistinct, insert-IsDistinct, delete-IsDistinct, Entries,
  Entries-insert, Entries-delete, Entries-lookup, then_maybe,
}
use go_utilities.Websocket.Hub.{Ref, put, drop, or_new, without, unless_empty, leave_one}

-- `m[user][id]`
abbrev pub get : String → String → Dict (Dict Ref) → Option Ref
get user id m = then_maybe (lookup user m) (lookup id)

lookup-or_new :
    (id : String) (o : Option (Dict Ref)) → lookup id (or_new o) ≡ then_maybe o (lookup id)
unfolding lookup
lookup-or_new id none = refl
lookup-or_new id (some m) = refl

pub get-put :
    (user id v j : String) (r : Ref) (m : Dict (Dict Ref))
    → get v j (put user id r m) ≡ (if user == v && id == j then some r else get v j m)
unfolding put
get-put user id v j r m = ground (
  arith,
  eq_iff user v,
  lookup-insert user v (insert id r (or_new (lookup user m))) m,
  lookup-insert id j r (or_new (lookup user m)),
  lookup-or_new j (lookup user m),
)

lookup_of_empty : (k : String) (m : Dict Ref) → is_empty m ≡ true → lookup k m ≡ none
unfolding lookup
lookup_of_empty k [] h = refl
lookup_of_empty k (e ∷ m) h = cc

pub get-drop :
    (user id v j : String) (m : Dict (Dict Ref))
    → get v j (drop user id m) ≡ (if user == v && id == j then none else get v j m)
unfolding drop
get-drop user id v j m = elim (Option-cases (lookup user m)) [
  | inl e ↦ rw (e, drop) (ground (arith, eq_iff user v))
  | inr (own, e) ↦
      rw (e, drop)
        (ground (
          arith,
          eq_iff user v,
          lookup-delete user v m,
          lookup-insert user v (delete id own) m,
          lookup-delete id j own,
          lookup_of_empty j (delete id own),
        ))
]

pub get-delete :
    (user v j : String) (m : Dict (Dict Ref))
    → get v j (delete user m) ≡ (if user == v then none else get v j m)
get-delete user v j m = ground (arith, lookup-delete user v m)

get_of_empty : (v j : String) (m : Dict (Dict Ref)) → is_empty m ≡ true → get v j m ≡ none
unfolding lookup
get_of_empty v j [] h = refl
get_of_empty v j (e ∷ m) h = cc

-- what is found in a group that is deleted when it is empty
pub get-unless_empty :
    (v j : String) (m : Dict (Dict Ref)) → then_maybe (unless_empty m) (get v j) ≡ get v j m
get-unless_empty v j m = ground (arith, get_of_empty v j m)

pub get-leave_one :
    (user id v j : String) (m : Dict (Dict Ref))
    → then_maybe (leave_one user id m) (get v j)
      ≡ (if user == v && id == j then none else get v j m)
unfolding leave_one
get-leave_one user id v j m =
    ground (arith, eq_iff user v, get-drop user id v j m, get_of_empty v j (drop user id m))

-- The invariant of the maps, over the ids that the clients carry.
module _ (user_of id_of : Ref → String) where
  abbrev pub Own : String → String → Ref → Type 0
  Own user id r = (user_of r ≡ user) × (id_of r ≡ id)

  pub record IsOwn (user : String) (own : Dict Ref) : Type 0 where
    pub distinct : IsDistinct own
    pub inhabited : is_empty own ≡ false
    pub named : Entries (Own user) own

  pub record IsTidy (m : Dict (Dict Ref)) : Type 0 where
    pub distinct : IsDistinct m
    pub inner : Entries IsOwn m

  is_empty-insert : (k : String) (r : Ref) (m : Dict Ref) → is_empty (insert k r m) ≡ false
  unfolding insert
  is_empty-insert k r [] = refl
  is_empty-insert k r ((j, q) ∷ m) = ground arith

  insert-IsOwn :
      (user id : String) (r : Ref) (own : Dict Ref)
      → Own user id r
      → IsDistinct own
      → Entries (Own user) own
      → IsOwn user (insert id r own)
  insert-IsOwn user id r own same d n = record {
    distinct = insert-IsDistinct id r own d;
    inhabited = is_empty-insert id r own;
    named = Entries-insert (Own user) id r own same n;
  }

  or_new-IsOwn :
      (user id : String) (r : Ref) (m : Dict (Dict Ref))
      → Own user id r
      → IsTidy m
      → IsOwn user (insert id r (or_new (lookup user m)))
  or_new-IsOwn user id r m same t = elim (Option-cases (lookup user m)) [
    | inl e ↦ rw e (insert-IsOwn user id r [] same tt tt)
    | inr (own, e) ↦ rw e (
        insert-IsOwn user id r own same (Entries-lookup IsOwn user own m t.inner e).distinct
          (Entries-lookup IsOwn user own m t.inner e).named)
  ]

  pub put-IsTidy :
      (user id : String) (r : Ref) (m : Dict (Dict Ref))
      → Own user id r
      → IsTidy m
      → IsTidy (put user id r m)
  unfolding put
  put-IsTidy user id r m same t =
      let own = or_new-IsOwn user id r m same t in
      record {
        distinct = insert-IsDistinct user _ m t.distinct;
        inner = Entries-insert IsOwn user _ m own t.inner;
      }

  pub delete-IsTidy : (user : String) (m : Dict (Dict Ref)) → IsTidy m → IsTidy (delete user m)
  delete-IsTidy user m t = record {
    distinct = delete-IsDistinct user m t.distinct;
    inner = Entries-delete IsOwn user m t.inner;
  }

  delete-IsOwn :
      (user id : String) (own : Dict Ref)
      → IsOwn user own
      → is_empty (delete id own) ≡ false
      → IsOwn user (delete id own)
  delete-IsOwn user id own o h = record {
    distinct = delete-IsDistinct id own o.distinct;
    inhabited = h;
    named = Entries-delete (Own user) id own o.named;
  }

  drop_found-IsTidy :
      (user id : String) (own : Dict Ref) (m : Dict (Dict Ref))
      → IsTidy m
      → lookup user m ≡ some own
      → IsTidy (if is_empty (delete id own) then delete user m else insert user (delete id own) m)
  drop_found-IsTidy user id own m t e = elim (Bool-cases (is_empty (delete id own))) [
    | inl gone ↦ rw gone (delete-IsTidy user m t)
    | inr left ↦ rw left (record {
      distinct = insert-IsDistinct user _ m t.distinct;
      inner =
          Entries-insert IsOwn user _ m
            (delete-IsOwn user id own (Entries-lookup IsOwn user own m t.inner e) left) t.inner;
    })
  ]

  pub drop-IsTidy : (user id : String) (m : Dict (Dict Ref)) → IsTidy m → IsTidy (drop user id m)
  unfolding drop
  drop-IsTidy user id m t = elim (Option-cases (lookup user m)) [
    | inl e ↦ rw (e, drop) t
    | inr (own, e) ↦ rw (e, drop) (drop_found-IsTidy user id own m t e)
  ]

  -- A group is a tidy map with at least one user.
  pub record IsGroup (group : String) (users : Dict (Dict Ref)) : Type 0 where
    pub tidy : IsTidy users
    pub inhabited : is_empty users ≡ false

  pub record AreGroups (groups : Dict (Dict (Dict Ref))) : Type 0 where
    pub distinct : IsDistinct groups
    pub inner : Entries IsGroup groups

  pub unless_empty-IsGroup :
      (group : String) (users left : Dict (Dict Ref))
      → IsTidy users
      → unless_empty users ≡ some left
      → IsGroup group left
  unless_empty-IsGroup group users left t e = elim (Bool-cases (is_empty users)) [
    | inl gone ↦ absurd (none-ne (rw gone at e))
    | inr kept ↦ subst (IsGroup group) (same kept) (record { tidy = t; inhabited = kept })
  ]
    where
      none-ne : none ≡ some left → ⊥
      none-ne h = cc

      same : is_empty users ≡ false → users ≡ left
      same kept = ground arith

  pub leave_one-IsGroup :
      (user id group : String) (users left : Dict (Dict Ref))
      → IsGroup group users
      → leave_one user id users ≡ some left
      → IsGroup group left
  unfolding leave_one
  leave_one-IsGroup user id group users left v e = elim (Option-cases (lookup user users)) [
    | inl absent ↦ subst (IsGroup group) (unchanged absent) v
    | inr (own, found) ↦
        unless_empty-IsGroup group (drop user id users) left (drop-IsTidy user id users v.tidy)
          (rw (found, leave_one) at e)
  ]
    where
      unchanged : lookup user users ≡ none → users ≡ left
      unchanged absent = ground arith

  pub without-IsGroup :
      (user group : String) (users left : Dict (Dict Ref))
      → IsGroup group users
      → without user users ≡ some left
      → IsGroup group left
  without-IsGroup user group users left v e =
      unless_empty-IsGroup group (delete user users) left (delete-IsTidy user users v.tidy) e

  is_empty-put :
      (user id : String) (r : Ref) (m : Dict (Dict Ref)) → is_empty (put user id r m) ≡ false
  unfolding put insert
  is_empty-put user id r [] = refl
  is_empty-put user id r (e ∷ m) = ground arith

  pub put-IsGroup :
      (user id group : String) (r : Ref) (m : Dict (Dict Ref))
      → Own user id r
      → IsTidy m
      → IsGroup group (put user id r m)
  put-IsGroup user id group r m same t = record {
    tidy = put-IsTidy user id r m same t;
    inhabited = is_empty-put user id r m;
  }
