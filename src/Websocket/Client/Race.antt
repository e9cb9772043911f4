-- ===== src/Websocket/Client/Race.antt =====
-- `Send` releases the mutex between its test and its `select`, so another goroutine can run
-- `Close` in between. The steps are those of one goroutine in `Send` and one that may close.
use go_utilities.Base.{◌≡◌, refl, sym, ◌∙◌, subst, ◌↔◌, Bool, true, false, arith, if◌then◌else◌}
use go_utilities.Base.Run.{Run, returns, panics}
use go_utilities.Websocket.Client.{Client, Message, offer, send, close}
use go_utilities.Websocket.Client.Laws.{IsSound, shut, close_lem}

-- Where the sending goroutine stands: before the test, between the test and the `select`, after a
-- return, or dead by a panic.
pub data Sender : Type 0 where
  entering selecting crashed : Sender
  answered : Bool → Sender

pub record World : Type 0 where
  pub client : Client
  pub sender : Sender

-- lines 110 to 115: the test, under the mutex
pub test_open : Client → World
test_open c =
    if c.is_closed
    then record { client = c; sender = answered false }
    else record { client = c; sender = selecting }

pub settle : Client → Run (Client × Bool) → World
settle c (returns (d, b)) = record { client = d; sender = answered b }
settle c panics = record { client = c; sender = crashed }

-- lines 117 to 126: the `select`, without the mutex
pub select_send : Client → Message → World
unfolding settle
select_send c message = settle c (offer c message)

pub data Step (message : Message) : World → World → Type 0 where
  tests : (c : Client) → Step message (record { client = c; sender = entering }) (test_open c)
  selects :
      (c : Client)
      → Step message (record { client = c; sender = selecting }) (select_send c message)
  closes :
      (c d : Client) (s : Sender)
      → close c ≡ returns d
      → Step message (record { client = c; sender = s }) (record { client = d; sender = s })

pub data Reach (message : Message) (w : World) : World → Type 0 where
  here : Reach message w w
  next : {u v : World} → Reach message w u → Step message u v → Reach message w v

abbrev pub entry : Client → World
entry c = record { client = c; sender = entering }

-- Once the client is closed, the sender can only be refused.
record IsRefused (w : World) : Type 0 where
  closed : w.client.is_closed ≡ true
  alive : (w.sender ≡ entering → ⊥) → w.sender ≡ answered false

test_open-IsRefused : (c : Client) → c.is_closed ≡ true → IsRefused (test_open c)
unfolding test_open
test_open-IsRefused c h = record { closed = ground arith; alive = λ _. ground arith }

Step-IsRefused : {message : Message} {u v : World} → Step message u v → IsRefused u → IsRefused v
unfolding close
Step-IsRefused (tests c) r = test_open-IsRefused c r.closed
Step-IsRefused (selects c) r = absurd (ne_answered (r.alive ne_entering))
  where
    ne_entering : selecting ≡ entering → ⊥
    ne_entering e = cc

    ne_answered : selecting ≡ answered false → ⊥
    ne_answered e = cc
Step-IsRefused (closes c d s e) r = record { closed = ground (arith, r.closed); alive = r.alive }

Reach-IsRefused : {message : Message} {u v : World} → Reach message u v → IsRefused u → IsRefused v
Reach-IsRefused here r = r
Reach-IsRefused (next path step) r = Step-IsRefused step (Reach-IsRefused path r)

crashed-IsRefused : (w : World) → w.sender ≡ crashed → IsRefused w → ⊥
crashed-IsRefused w e r = ne_answered (sym e ∙ r.alive (λ h. ne_entering (sym e ∙ h)))
  where
    ne_entering : crashed ≡ entering → ⊥
    ne_entering h = cc

    ne_answered : crashed ≡ answered false → ⊥
    ne_answered h = cc

-- test, then close, then select
crash_path :
    (c : Client) (message : Message)
    → IsSound c
    → c.is_closed ≡ false
    → (w : World) × Reach message (entry c) w × (w.sender ≡ crashed)
unfolding test_open select_send offer
crash_path c message v h = (
  select_send (shut c) message,
  next (next (next here (tests c)) open_step) (selects (shut c)),
  ground arith,
)
  where
    open_step : Step message (test_open c) (record { client = shut c; sender = selecting })
    open_step =
        subst (λ w. Step message w (record { client = shut c; sender = selecting })) (ground arith)
          (closes c (shut c) selecting (close_lem c v.agree))

-- Of a sound client, `Send` panics on some schedule with a concurrent `Close` exactly when the
-- client was open as `Send` began.
pub send_crash_iff :
    (c : Client) (message : Message)
    → IsSound c
    → ((w : World) × Reach message (entry c) w × (w.sender ≡ crashed)) ↔ (c.is_closed ≡ false)
send_crash_iff c message v = (only_open, crash_path c message v)
  where
    go :
        (b : Bool)
        → c.is_closed ≡ b
        → (w : World) × Reach message (entry c) w × (w.sender ≡ crashed)
        → c.is_closed ≡ false
    go false e r = e
    go true e (w, path, dead) = absurd (
        crashed-IsRefused w dead (
          Reach-IsRefused path
            (record { closed = e; alive = λ (n : entering ≡ entering → ⊥). absurd (n refl) })))

    only_open : (w : World) × Reach message (entry c) w × (w.sender ≡ crashed) → c.is_closed ≡ false
    only_open = go c.is_closed refl

-- With no step of another goroutine in between, the two halves are `Send`.
pub settle-send :
    (c : Client) (message : Message)
    → c.is_closed ≡ false
    → (test_open c ≡ record { client = c; sender = selecting })
      × (select_send c message ≡ settle c (send c message))
unfolding test_open select_send send
settle-send c message h = (ground arith, ground arith)
