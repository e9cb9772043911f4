-- ===== src/Websocket/Hub/Reconnect.antt =====
-- A client that connects again under the ids of one that has not been unregistered yet.
use go_utilities.Base.{
  ◌≡◌, ◌∙◌, ap, ◌≢◌, String, true, none, [], ◌∷◌, arith, nat_eq, string_eq, eq_iff,
}
use go_utilities.Base.Run.{returns}
use go_utilities.Websocket.Hub.{Ref, Hub, registers, unregisters, run}
use go_utilities.Websocket.Hub.View.{View, view, IsValid}
use go_utilities.Websocket.Hub.Refinement.{run-Reaches}

module _ (user_of id_of : Ref → String) where
  -- In a valid hub, let a client `s` register under the ids of another client `r`, and let `r` be
  -- unregistered then, as its read pump does when it ends. Both return; afterwards no client is
  -- found under those ids, `r` is closed, and `s` is as closed or open as it was before.
  pub reconnect_evicts :
      (h : Hub) (r s : Ref)
      → IsValid user_of id_of h
      → r ≢ s
      → user_of s ≡ user_of r
      → id_of s ≡ id_of r
      → (g : Hub) × (run (registers s ∷ unregisters r ∷ []) h ≡ returns g)
        × ((view g).conns (user_of s) (id_of s) ≡ none)
        × ((g.heap r).is_closed ≡ true)
        × ((g.heap s).is_closed ≡ (h.heap s).is_closed)
  reconnect_evicts h r s v other user ident =
      let (g, done, w, same) = run-Reaches user_of id_of (registers s ∷ unregisters r ∷ []) h v in
      (
        g,
        done,
        ap (λ (x : View). x.conns (user_of s) (id_of s)) same
            ∙ ground
                (arith, eq_iff (user_of r) (user_of s), eq_iff (id_of r) (id_of s), user, ident),
        ap (λ (x : View). x.closed r) same
            ∙ ground
                (arith, eq_iff (user_of s) (user_of r), eq_iff (id_of s) (id_of r), user, ident),
        ap (λ (x : View). x.closed s) same ∙ ground (arith, other),
      )
