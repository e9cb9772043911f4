-- ===== src/Websocket/Broadcast/Flat.antt =====
-- The nested loops over a map of users are loops over the list of all their clients, and that
-- list names each client that the map holds, once.
use go_utilities.Base.{
  ℕ, ◌≡◌, refl, ◌∙◌, sym, String, true, false, ◌||◌, List, [], ◌∷◌, ◌++◌, arith, ◌==◌, nat_eq,
  string_eq, eq_iff, Bool-cases, inl, inr,
}
use go_utilities.Base.Dict.{Dict, lookup, values, delete}
use go_utilities.Base.Dict.Laws.{IsDistinct, Entries}
use go_utilities.Base.Run.{◌>>=◌, bind_assoc, bind_cong}
use go_utilities.Websocket.Client.{Message}
use go_utilities.Websocket.Hub.{Ref, Heap}
use go_utilities.Websocket.Hub.Maps.{Own, IsOwn, get}
use go_utilities.Websocket.Hub.View.{holds}
use go_utilities.Websocket.Hub.Closing.{contains, contains-values}
use go_utilities.Websocket.Broadcast.{
  send_at, bump, send_each, send_users, send_users_except, all_refs,
}
use go_utilities.Websocket.Broadcast.Delivery.{AreDistinct}

send_each-append :
    (xs ys : List Ref) (message : Message) (heap : Heap) (n : ℕ)
    → send_each (xs ++ ys) message heap n
      ≡ (send_each xs message heap n >>= λ s. send_each ys message s.0 s.1)
unfolding send_each
send_each-append [] ys message heap n = refl
send_each-append (x ∷ xs) ys message heap n =
    bind_cong (send_at x message heap) (λ s. send_each-append xs ys message s.0 (bump s.1 n))
    ∙ sym (bind_assoc (send_at x message heap) _ _)

pub send_users-flat :
    (users : Dict (Dict Ref)) (message : Message) (heap : Heap) (n : ℕ)
    → send_users users message heap n ≡ send_each (all_refs users) message heap n
unfolding send_users all_refs send_each
send_users-flat [] message heap n = refl
send_users-flat ((user, own) ∷ users) message heap n =
    bind_cong (send_each (values own) message heap n) (λ s. send_users-flat users message s.0 s.1)
    ∙ sym (send_each-append (values own) (all_refs users) message heap n)

-- Passing over a user is sending to the users that are left without it.
pub send_users_except-delete :
    (ex : String) (users : Dict (Dict Ref)) (message : Message) (heap : Heap) (n : ℕ)
    → send_users_except ex users message heap n ≡ send_users (delete ex users) message heap n
unfolding send_users_except send_users delete
send_users_except-delete ex [] message heap n = refl
send_users_except-delete ex ((user, own) ∷ users) message heap n = elim (Bool-cases (user == ex)) [
  | inl out ↦ rw out (send_users_except-delete ex users message heap n)
  | inr kept ↦ rw kept (
      bind_cong (send_each (values own) message heap n)
        (λ s. send_users_except-delete ex users message s.0 s.1))
]

contains-append :
    (q : Ref) (xs ys : List Ref) → contains q (xs ++ ys) ≡ (contains q xs || contains q ys)
contains-append q [] ys = refl
contains-append q (x ∷ xs) ys = ground (arith, contains-append q xs ys)

AreDistinct-append :
    (xs ys : List Ref)
    → AreDistinct xs
    → AreDistinct ys
    → ((q : Ref) → contains q xs ≡ true → contains q ys ≡ false)
    → AreDistinct (xs ++ ys)
AreDistinct-append [] ys d e apart = e
AreDistinct-append (x ∷ xs) ys (absent, d) e apart = (
  ground (arith, contains-append x xs ys, apart x),
  AreDistinct-append xs ys d e (λ q h. apart q (ground arith)),
)

module _ (user_of id_of : Ref → String) where
  pub values-AreDistinct :
      (user : String) (own : Dict Ref)
      → IsDistinct own
      → Entries (Own user_of id_of user) own
      → AreDistinct (values own)
  unfolding values
  values-AreDistinct user [] d n = tt
  values-AreDistinct user ((j, r) ∷ own) (fresh, d) ((u, named), n) = (
    contains-values user_of id_of user r own d n ∙ rw (named, fresh) refl,
    values-AreDistinct user own d n,
  )

  pub held-user :
      (user : String) (q : Ref) (own : Dict Ref)
      → Entries (Own user_of id_of user) own
      → contains q (values own) ≡ true
      → user_of q ≡ user
  unfolding values
  held-user user q [] n h = cc
  held-user user q ((j, r) ∷ own) ((u, named), n) h = ground (arith, held-user user q own n)

  -- A client is in the flat list exactly when the map holds it under its ids.
  pub contains-all_refs :
      (q : Ref) (m : Dict (Dict Ref))
      → IsDistinct m
      → Entries (IsOwn user_of id_of) m
      → contains q (all_refs m) ≡ holds (get (user_of q) (id_of q) m) q
  unfolding all_refs lookup
  contains-all_refs q [] d n = refl
  contains-all_refs q ((user, own) ∷ m) (fresh, d) (o, n) = ground (
    arith,
    contains-append q (values own) (all_refs m),
    contains-all_refs q m d n,
    contains-values user_of id_of user q own o.distinct o.named,
    held-user user q own o.named,
    eq_iff user (user_of q),
  )

  pub all_refs-AreDistinct :
      (m : Dict (Dict Ref))
      → IsDistinct m
      → Entries (IsOwn user_of id_of) m
      → AreDistinct (all_refs m)
  unfolding all_refs
  all_refs-AreDistinct [] d n = tt
  all_refs-AreDistinct ((user, own) ∷ m) (fresh, d) (o, n) =
      AreDistinct-append (values own) (all_refs m) (values-AreDistinct user own o.distinct o.named)
        (all_refs-AreDistinct m d n)
        (λ q h. contains-all_refs q m d n ∙ rw (held-user user q own o.named h, fresh) refl)
