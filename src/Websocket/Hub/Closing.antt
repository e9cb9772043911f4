-- ===== src/Websocket/Hub/Closing.antt =====
-- Closing the clients of one user: which clients `close_all` closes, and that it does not panic.
use go_utilities.Base.{
  ◌≡◌, refl, ◌∙◌, ap, fun_ext, String, Bool, false, ◌||◌, List, [], ◌∷◌, arith, if◌then◌else◌, ◌==◌,
  string_eq, nat_eq, eq_iff,
}
use go_utilities.Base.Dict.{Dict, lookup, values}
use go_utilities.Base.Dict.Laws.{IsDistinct, Entries}
use go_utilities.Base.Run.{returns}
use go_utilities.Websocket.Client.Laws.{IsSound, shut, shut-IsSound, close_lem}
use go_utilities.Websocket.Hub.{Ref, Heap, update, close_all}
use go_utilities.Websocket.Hub.Maps.{Own}
use go_utilities.Websocket.Hub.View.{holds}

abbrev pub contains : Ref → List Ref → Bool
contains q [] = false
contains q (r ∷ rs) = r == q || contains q rs

abbrev pub shut_all : List Ref → Heap → Heap
shut_all rs heap q = if contains q rs then shut (heap q) else heap q

pub update-shut-IsSound :
    (heap : Heap) (r : Ref)
    → ((q : Ref) → IsSound (heap q))
    → (q : Ref) → IsSound (update heap r (shut (heap r)) q)
update-shut-IsSound heap r s q = ground (arith, s q, shut-IsSound (heap r) (s r))

shut_all_cons :
    (r : Ref) (rs : List Ref) (heap : Heap)
    → shut_all rs (update heap r (shut (heap r))) ≡ shut_all (r ∷ rs) heap
shut_all_cons r rs heap = fun_ext λ q. ground arith

pub close_all_lem :
    (rs : List Ref) (heap : Heap)
    → ((q : Ref) → IsSound (heap q))
    → close_all rs heap ≡ returns (shut_all rs heap)
unfolding close_all
close_all_lem [] heap s = refl
close_all_lem (r ∷ rs) heap s = rw (close_lem (heap r) (s r).agree) (
    close_all_lem rs (update heap r (shut (heap r))) (update-shut-IsSound heap r s)
    ∙ ap returns (shut_all_cons r rs heap))

-- A client is among the values of its user's map exactly when the map holds it under its id.
pub contains-values :
    (user_of id_of : Ref → String) (user : String) (q : Ref) (own : Dict Ref)
    → IsDistinct own
    → Entries (Own user_of id_of user) own
    → contains q (values own) ≡ holds (lookup (id_of q) own) q
unfolding values lookup
contains-values user_of id_of user q [] d n = refl
contains-values user_of id_of user q ((j, r) ∷ own) (fresh, d) ((u, named), n) =
    ground (arith, eq_iff j (id_of q), contains-values user_of id_of user q own d n)
