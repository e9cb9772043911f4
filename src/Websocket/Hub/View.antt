-- ===== src/Websocket/Hub/View.antt =====
-- What the hub promises, without its maps: who is connected under which ids, who is in which
-- group, and which clients have been closed; and the hub's invariant.
use go_utilities.Base.{
  ◌≡◌, String, Bool, true, false, ◌&&◌, Option, none, some, if◌then◌else◌, ◌==◌, string_eq, nat_eq,
}
use go_utilities.Base.Dict.{lookup}
use go_utilities.Base.Dict.Laws.{then_maybe}
use go_utilities.Websocket.Client.Laws.{IsSound}
use go_utilities.Websocket.Hub.{Ref, Hub, Event, registers, unregisters, joins, leaves, disconnects}
use go_utilities.Websocket.Hub.Maps.{get, IsTidy, AreGroups}

pub record View : Type 0 where
  pub conns : String → String → Option Ref
  pub members : String → String → String → Option Ref
  pub closed : Ref → Bool

abbrev pub view : Hub → View
view h = record {
  conns = λ u i. get u i h.clients;
  members = λ g u i. then_maybe (lookup g h.groups) (get u i);
  closed = λ r. (h.heap r).is_closed;
}

pub View-path :
    (v w : View)
    → ((u i : String) → v.conns u i ≡ w.conns u i)
    → ((g u i : String) → v.members g u i ≡ w.members g u i)
    → ((r : Ref) → v.closed r ≡ w.closed r)
    → v ≡ w
View-path v w p q s =
    λ i. record { conns = λ u j. p u j i; members = λ g u j. q g u j i; closed = λ r. s r i }

abbrev pub holds : Option Ref → Ref → Bool
holds none r = false
holds (some q) r = q == r

abbrev pub is_some : Option Ref → Bool
is_some none = false
is_some (some q) = true

-- The ids of each client stand in fields that no operation writes: they are fixed here.
module _ (user_of id_of : Ref → String) where
  -- What each event does to the view.
  abbrev pub spec : Event → View → View
  spec (registers r) v = record v {
    conns = λ u i. if user_of r == u && id_of r == i then some r else v.conns u i;
  }
  spec (unregisters r) v = record {
    conns = λ u i. if user_of r == u && id_of r == i then none else v.conns u i;
    members = λ g u i. if user_of r == u && id_of r == i then none else v.members g u i;
    closed = λ q. if r == q && is_some (v.conns (user_of r) (id_of r)) then true else v.closed q;
  }
  spec (joins group r) v = record v {
    members =
        λ g u i. if group == g && (user_of r == u && id_of r == i) then some r else v.members g u i;
  }
  spec (leaves group r) v = record v {
    members =
        λ g u i. if group == g && (user_of r == u && id_of r == i) then none else v.members g u i;
  }
  spec (disconnects user) v = record {
    conns = λ u i. if user == u then none else v.conns u i;
    members = λ g u i. if user == u then none else v.members g u i;
    closed =
        λ q. if user_of q == user && holds (v.conns user (id_of q)) q then true else v.closed q;
  }

  pub record IsValid (h : Hub) : Type 0 where
    pub tidy : IsTidy user_of id_of h.clients
    pub grouped : AreGroups user_of id_of h.groups
    pub user : (r : Ref) → (h.heap r).user_id ≡ user_of r
    pub ident : (r : Ref) → (h.heap r).id ≡ id_of r
    pub sound : (r : Ref) → IsSound (h.heap r)
