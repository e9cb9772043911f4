-- ===== src/Websocket/Broadcast.antt =====
-- websocket/broadcast.go: sending to the clients of a user, a group or a tenant, and the queries.
-- A `range` loop visits a map in the order of its list. Each operation holds `mu` throughout.
pub mod Delivery
pub mod Flat
pub mod Laws
pub mod Unique
pub mod Tenant
pub mod Queries
use go_utilities.Base.{
  ℕ, ◌+◌, String, Bool, true, false, ◌||◌, List, [], ◌∷◌, ◌++◌, Option, none, some, if◌then◌else◌,
  ◌==◌, string_eq, is_empty, not,
}
use go_utilities.Base.Dict.{Dict, lookup, keys, values}
use go_utilities.Base.Run.{Run, returns, panics, ◌>>=◌}
use go_utilities.Websocket.Client.{Client, Message, send}
use go_utilities.Websocket.Hub.{Ref, Heap, Hub, update, or_new}

unfoldable pub send_at : Ref → Message → Heap → Run (Heap × Bool)
send_at r message heap = send (heap r) message >>= λ s. returns (update heap r s.0, s.1)

abbrev pub bump : Bool → ℕ → ℕ
bump sent n = if sent then n + 1 else n

-- `for _, client := range userClients { if client.Send(message) { count++ } }`
unfoldable pub send_each : List Ref → Message → Heap → ℕ → Run (Heap × ℕ)
send_each [] message heap n = returns (heap, n)
send_each (r ∷ rs) message heap n =
    send_at r message heap >>= λ s. send_each rs message s.0 (bump s.1 n)

abbrev finish : Hub → Run (Heap × ℕ) → Run (Hub × ℕ)
finish h m = m >>= λ s. returns (record h { heap = s.0 }, s.1)

unfoldable pub send_to_user : String → Message → Hub → Run (Hub × ℕ)
send_to_user user message h = elim (lookup user h.clients) [
  | none ↦ returns (h, 0)
  | some own ↦ finish h (send_each (values own) message h.heap 0)
]

-- The loops with `sentClients`: the ids that have been sent to, and the count.
pub record Sent : Type 0 where
  pub heap : Heap
  pub ids : List String
  pub count : ℕ

abbrev pub is_in : String → List String → Bool
is_in id [] = false
is_in id (j ∷ js) = j == id || is_in id js

abbrev mark : String → Sent → Heap × Bool → Sent
mark id s (heap, sent) = record {
  heap = heap;
  ids = if sent then id ∷ s.ids else s.ids;
  count = bump sent s.count;
}

unfoldable pub send_once : String → Ref → Message → Sent → Run Sent
send_once id r message s =
    if is_in id s.ids then returns s else (send_at r message s.heap >>= λ t. returns (mark id s t))

unfoldable pub send_own_once : Dict Ref → Message → Sent → Run Sent
unfolding send_once
send_own_once [] message s = returns s
send_own_once ((id, r) ∷ own) message s = send_once id r message s >>= send_own_once own message

unfoldable pub send_users_once : Dict (Dict Ref) → Message → Sent → Run Sent
unfolding send_own_once
send_users_once [] message s = returns s
send_users_once ((user, own) ∷ users) message s =
    send_own_once own message s >>= send_users_once users message

abbrev unsent : Heap → Sent
unsent heap = record { heap = heap; ids = []; count = 0 }

abbrev finish_once : Hub → Run Sent → Run (Hub × ℕ)
finish_once h m = m >>= λ s. returns (record h { heap = s.heap }, s.count)

unfoldable pub send_to_group : String → Message → Hub → Run (Hub × ℕ)
unfolding send_users_once
send_to_group group message h = elim (lookup group h.groups) [
  | none ↦ returns (h, 0)
  | some users ↦ finish_once h (send_users_once users message (unsent h.heap))
]

unfoldable pub send_users : Dict (Dict Ref) → Message → Heap → ℕ → Run (Heap × ℕ)
unfolding send_each
send_users [] message heap n = returns (heap, n)
send_users ((user, own) ∷ users) message heap n =
    send_each (values own) message heap n >>= λ s. send_users users message s.0 s.1

unfoldable pub send_users_except : String → Dict (Dict Ref) → Message → Heap → ℕ → Run (Heap × ℕ)
unfolding send_each
send_users_except ex [] message heap n = returns (heap, n)
send_users_except ex ((user, own) ∷ users) message heap n =
    (if user == ex then returns (heap, n) else send_each (values own) message heap n) >>= λ s.
    send_users_except ex users message s.0 s.1

unfoldable pub send_to_group_except : String → String → Message → Hub → Run (Hub × ℕ)
send_to_group_except group ex message h = elim (lookup group h.groups) [
  | none ↦ returns (h, 0)
  | some users ↦ finish h (send_users_except ex users message h.heap 0)
]

unfoldable pub send_own_of_tenant : String → Dict Ref → Message → Sent → Run Sent
unfolding send_once
send_own_of_tenant tenant [] message s = returns s
send_own_of_tenant tenant ((id, r) ∷ own) message s =
    (if (s.heap r).tenant_id == tenant then send_once id r message s else returns s)
    >>= send_own_of_tenant tenant own message

unfoldable pub send_users_of_tenant : String → Dict (Dict Ref) → Message → Sent → Run Sent
unfolding send_own_of_tenant
send_users_of_tenant tenant [] message s = returns s
send_users_of_tenant tenant ((user, own) ∷ users) message s =
    send_own_of_tenant tenant own message s >>= send_users_of_tenant tenant users message

unfoldable pub send_to_tenant : String → Message → Hub → Run (Hub × ℕ)
unfolding send_users_of_tenant
send_to_tenant tenant message h =
    finish_once h (send_users_of_tenant tenant h.clients message (unsent h.heap))

unfoldable pub broadcast_all : Message → Hub → Run (Hub × ℕ)
unfolding send_users
broadcast_all message h = finish h (send_users h.clients message h.heap 0)

-- The `…JSON` variants: `marshal` is `json.Marshal`, with `none` for its error.
abbrev with_json {ℓ} :
    {V : Type ℓ}
    → (V → Option Message)
    → V
    → (Message → Hub → Run (Hub × ℕ))
    → Hub
    → Run (Hub × Option ℕ)
with_json marshal v send_bytes h = elim (marshal v) [
  | none ↦ returns (h, none)
  | some message ↦ (send_bytes message h >>= λ s. returns (s.0, some s.1))
]

module _ {ℓ} {V : Type ℓ} (marshal : V → Option Message) where
  pub send_to_user_json : String → V → Hub → Run (Hub × Option ℕ)
  unfolding send_to_user
  send_to_user_json user v = with_json marshal v (send_to_user user)

  pub send_to_group_json : String → V → Hub → Run (Hub × Option ℕ)
  unfolding send_to_group
  send_to_group_json group v = with_json marshal v (send_to_group group)

  pub send_to_tenant_json : String → V → Hub → Run (Hub × Option ℕ)
  unfolding send_to_tenant
  send_to_tenant_json tenant v = with_json marshal v (send_to_tenant tenant)

unfoldable pub get_client : String → String → Hub → Option Ref
get_client user id h = elim (lookup user h.clients) [ none ↦ none | some own ↦ lookup id own ]

unfoldable pub get_user_clients : String → Hub → List Ref
get_user_clients user h = elim (lookup user h.clients) [ none ↦ [] | some own ↦ values own ]

unfoldable pub all_refs : Dict (Dict Ref) → List Ref
all_refs [] = []
all_refs ((user, own) ∷ users) = values own ++ all_refs users

unfoldable pub get_group_clients : String → Hub → List Ref
unfolding all_refs
get_group_clients group h = elim (lookup group h.groups) [ none ↦ [] | some users ↦ all_refs users ]

unfoldable pub get_group_user_ids : String → Hub → List String
get_group_user_ids group h = elim (lookup group h.groups) [ none ↦ [] | some users ↦ keys users ]

unfoldable pub has_active_connection : String → Hub → Bool
has_active_connection user h = elim (lookup user h.clients) [
  | none ↦ false
  | some own ↦ not (is_empty own)
]

-- The inner loop with its `break`: whether a client of the user is in the tenant.
unfoldable pub any_of_tenant : String → List Ref → Heap → Bool
any_of_tenant tenant [] heap = false
any_of_tenant tenant (r ∷ rs) heap =
    if tenant == "" || (heap r).tenant_id == tenant then true else any_of_tenant tenant rs heap

unfoldable pub connected_users : String → Dict (Dict Ref) → Heap → List String
unfolding any_of_tenant
connected_users tenant [] heap = []
connected_users tenant ((user, own) ∷ users) heap =
    let rest = connected_users tenant users heap in
    if any_of_tenant tenant (values own) heap then user ∷ rest else rest

unfoldable pub get_connected_user_ids : String → Hub → List String
unfolding connected_users
get_connected_user_ids tenant h = connected_users tenant h.clients h.heap
