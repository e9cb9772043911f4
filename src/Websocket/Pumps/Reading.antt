-- ===== src/Websocket/Pumps/Reading.antt =====
-- The end of the reading pump (websocket/pumps.go) and the origins that are allowed
-- (websocket/upgrader.go).
use go_utilities.Base.{
  ◌≡◌, refl, ◌↔◌, Bool, true, false, List, [], ◌∷◌, ◌++◌, map, some, if◌then◌else◌, ◌==◌,
  Bool-cases, inl, inr, ◌⊎◌, arith,
}
use go_utilities.Base.Run.{returns}
use go_utilities.Base.Text.{Text, text_eq, text_beq_iff}
use go_utilities.Websocket.Client.{Message}
use go_utilities.Websocket.Hub.{Ref, Hub, unregister_client}
use go_utilities.Websocket.Pumps.{
  Read, read_message, read_error, is_given, read_pump, allow_origins,
}

-- Where unregistering the client returns, the pump returns at the first error of reading: the handler
-- of messages, if there is one, has got all messages before it, in order; the disconnect handler, if
-- there is one, has been called; and the hub is what unregistering the client leaves.
pub read_pump_lem :
    (r : Ref) (ms : List Message) (unexpected : Bool) (later : List Read) (h g : Hub)
    → unregister_client r h ≡ returns g
    → read_pump r (map read_message ms ++ read_error unexpected ∷ later) h
      ≡ some (
          returns (record {
            handled = if is_given (h.heap r).message_handler then ms else [];
            logged = unexpected;
            disconnected = is_given (h.heap r).disconnect_handler;
            hub = g;
          }))
unfolding read_pump
read_pump_lem r [] unexpected later h g e =
    elim (Bool-cases (is_given (h.heap r).message_handler)) [
      | inl given ↦ rw e (rw given refl)
      | inr none' ↦ rw e (rw none' refl)
    ]
read_pump_lem r (m ∷ ms) unexpected later h g e =
    elim (Bool-cases (is_given (h.heap r).message_handler)) [
      | inl given ↦ rw (read_pump_lem r ms unexpected later h g e) (rw given refl)
      | inr none' ↦ rw (read_pump_lem r ms unexpected later h g e) (rw none' refl)
    ]

abbrev pub Occurs : Text → List Text → Type 0
Occurs origin [] = ⊥
Occurs origin (o ∷ origins) = (o ≡ origin) ⊎ Occurs origin origins

-- An origin is allowed exactly when it is one of those that were given, letter for letter; without any
-- header the origin is the empty text.
pub allow_origins_iff :
    (origins : List Text) (origin : Text)
    → (allow_origins origins origin ≡ true) ↔ Occurs origin origins
unfolding allow_origins
allow_origins_iff [] origin = (λ h. apart h, λ o. elim o [ ])
  where
    apart : false ≡ true → ⊥
    apart h = cc
allow_origins_iff (o ∷ origins) origin = elim (Bool-cases (o == origin)) [
  | inl same ↦ (λ h. inl ((text_beq_iff o origin).0 same), λ i. rw same refl)
  | inr other ↦ (
    λ h. inr ((allow_origins_iff origins origin).0 (rw other at h)),
    λ i. rw other ((allow_origins_iff origins origin).1 (later other i)),
  )
]
  where
    later : (o == origin) ≡ false → (o ≡ origin) ⊎ Occurs origin origins → Occurs origin origins
    later other (inl same) = absurd (ground (arith, other, (text_beq_iff o origin).1 same))
    later other (inr i) = i
