-- ===== src/Websocket/Broadcast/Delivery.antt =====
-- A loop over distinct clients: each that accepts the message receives it once, no other client
-- changes, nothing panics, and the count is the number of those that accepted.
use go_utilities.Base.{
  ℕ, ◌+◌, ◌≡◌, refl, ◌∙◌, ap, ap₂, fun_ext, Bool, false, List, [], ◌∷◌, arith, if◌then◌else◌,
  nat_eq,
}
use go_utilities.Base.Run.{returns}
use go_utilities.Websocket.Client.{Message}
use go_utilities.Websocket.Client.Laws.{IsSound, accepts, receive, send_lem, receive-IsSound}
use go_utilities.Websocket.Hub.{Ref, Heap, update}
use go_utilities.Websocket.Hub.Closing.{contains}
use go_utilities.Websocket.Broadcast.{send_at, bump, send_each}

abbrev pub AreDistinct : List Ref → Type 0
AreDistinct [] = Unit {0}
AreDistinct (r ∷ rs) = (contains r rs ≡ false) × AreDistinct rs

-- The heap in which those that `p` names have received the message.
abbrev pub deliver : (Ref → Bool) → Message → Heap → Heap
deliver p message heap q = if p q then receive message (heap q) else heap q

-- How many of them accept a message.
abbrev pub tally : List Ref → Heap → ℕ
tally [] heap = 0
tally (r ∷ rs) heap = bump (accepts (heap r)) (tally rs heap)

AreSound : Heap → Type 0
AreSound heap = (q : Ref) → IsSound (heap q)

pub send_at_lem :
    (r : Ref) (message : Message) (heap : Heap)
    → IsSound (heap r)
    → send_at r message heap ≡ returns (update heap r (receive message (heap r)), accepts (heap r))
unfolding send_at
send_at_lem r message heap s = rw (send_lem (heap r) message s.agree) refl

pub update-IsSound :
    (r : Ref) (message : Message) (heap : Heap)
    → ((q : Ref) → IsSound (heap q))
    → (q : Ref) → IsSound (update heap r (receive message (heap r)) q)
update-IsSound r message heap s q = ground (arith, s q, receive-IsSound (heap r) message (s r))

pub tally-update :
    (r : Ref) (rs : List Ref) (message : Message) (heap : Heap)
    → contains r rs ≡ false
    → tally rs (update heap r (receive message (heap r))) ≡ tally rs heap
tally-update r [] message heap h = refl
tally-update r (x ∷ rs) message heap h =
    ap₂ bump {x = accepts (update heap r (receive message (heap r)) x)} (ground arith)
      (tally-update r rs message heap (ground arith))

deliver-update :
    (r : Ref) (rs : List Ref) (message : Message) (heap : Heap)
    → contains r rs ≡ false
    → deliver (λ q. contains q rs) message (update heap r (receive message (heap r)))
      ≡ deliver (λ q. contains q (r ∷ rs)) message heap
deliver-update r rs message heap h = fun_ext λ q. ground arith

pub send_each_lem :
    (rs : List Ref) (message : Message) (heap : Heap) (n : ℕ)
    → ((q : Ref) → IsSound (heap q))
    → AreDistinct rs
    → send_each rs message heap n
      ≡ returns (deliver (λ q. contains q rs) message heap, n + tally rs heap)
unfolding send_each
send_each_lem [] message heap n s d = ap (λ k. returns (heap, k)) (omega arith)
send_each_lem (r ∷ rs) message heap n s (absent, d) = rw (send_at_lem r message heap (s r)) (
    send_each_lem rs message (update heap r (receive message (heap r))) (bump (accepts (heap r)) n)
      (update-IsSound r message heap s) d
    ∙ ap₂ (λ g k. returns (g, k)) (deliver-update r rs message heap absent)
        (ground (arith, tally-update r rs message heap absent)))
