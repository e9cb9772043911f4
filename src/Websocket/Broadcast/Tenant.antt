-- ===== src/Websocket/Broadcast/Tenant.antt =====
-- The loop of `SendToTenant`: where ids are unique, it sends to the tenant's clients, each once.
use go_utilities.Base.{
  ◌≡◌, refl, ◌∙◌, ap, ap₂, sym, subst, String, Bool, ◌&&◌, List, [], ◌∷◌, ◌++◌, none, arith, ◌==◌,
  nat_eq, string_eq, if◌then◌else◌, Bool-cases, inl, inr,
}
use go_utilities.Base.Dict.{Dict, lookup, values}
use go_utilities.Base.Dict.Laws.{IsDistinct}
use go_utilities.Base.Run.{Run, returns, panics, ◌>>=◌, bind_assoc, >>=-eq-returns}
use go_utilities.Websocket.Client.{Message, Client, send, offer}
use go_utilities.Websocket.Hub.{Ref, Heap, Hub}
use go_utilities.Websocket.Hub.Closing.{contains}
use go_utilities.Websocket.Hub.View.{holds, IsValid, view}
use go_utilities.Websocket.Broadcast.{
  send_at, Sent, is_in, send_once, send_own_once, unsent, send_own_of_tenant, send_users_of_tenant,
  send_to_tenant,
}
use go_utilities.Websocket.Broadcast.Delivery.{AreDistinct, send_each_lem}
use go_utilities.Websocket.Broadcast.Flat.{contains-all_refs, all_refs-AreDistinct}
use go_utilities.Websocket.Broadcast.Laws.{Delivers, deliver_cong}
use go_utilities.Websocket.Broadcast.Unique.{
  by_id, values-by_id, outcome, send_own_once-append, send_own_once-each, Unseen-nil,
}

bind_cong_returns {ℓ κ} :
    {A : Type ℓ} {B : Type κ} (m : Run A) {f g : A → Run B}
    → ((a : A) → m ≡ returns a → f a ≡ g a)
    → (m >>= f) ≡ (m >>= g)
bind_cong_returns (returns a) h = h a refl
bind_cong_returns panics h = refl

returned : {A : Type 0} {a b : A} → returns a ≡ returns b → a ≡ b
returned h = cc

module _ (tenant_of : Ref → String) (tenant : String) where
  -- Every client still has its tenant.
  abbrev Tenanted : Heap → Type 0
  Tenanted heap = (r : Ref) → (heap r).tenant_id ≡ tenant_of r

  -- The entries of the tenant's clients.
  abbrev pub of_tenant : Dict Ref → Dict Ref
  of_tenant [] = []
  of_tenant ((id, r) ∷ own) =
      if tenant_of r == tenant then (id, r) ∷ of_tenant own else of_tenant own

  contains-of_tenant :
      (q : Ref) (own : Dict Ref)
      → contains q (values (of_tenant own)) ≡ (tenant_of q == tenant && contains q (values own))
  unfolding values
  contains-of_tenant q [] = ground arith
  contains-of_tenant q ((id, r) ∷ own) = ground (arith, contains-of_tenant q own)

  of_tenant-AreDistinct :
      (own : Dict Ref) → AreDistinct (values own) → AreDistinct (values (of_tenant own))
  unfolding values
  of_tenant-AreDistinct [] d = tt
  of_tenant-AreDistinct ((id, r) ∷ own) (absent, d) = elim (Bool-cases (tenant_of r == tenant)) [
    | inl hit ↦
        rw hit (contains-of_tenant r own ∙ ground (arith, absent), of_tenant-AreDistinct own d)
    | inr miss ↦ rw miss (of_tenant-AreDistinct own d)
  ]

  lookup-of_tenant :
      (id : String) (own : Dict Ref) → lookup id own ≡ none → lookup id (of_tenant own) ≡ none
  unfolding lookup
  lookup-of_tenant id [] h = refl
  lookup-of_tenant id ((j, r) ∷ own) h = ground (arith, lookup-of_tenant id own)

  of_tenant-IsDistinct : (own : Dict Ref) → IsDistinct own → IsDistinct (of_tenant own)
  of_tenant-IsDistinct [] d = tt
  of_tenant-IsDistinct ((id, r) ∷ own) (fresh, d) = elim (Bool-cases (tenant_of r == tenant)) [
    | inl hit ↦ rw hit (lookup-of_tenant id own fresh, of_tenant-IsDistinct own d)
    | inr miss ↦ rw miss (of_tenant-IsDistinct own d)
  ]

  of_tenant-append : (xs ys : Dict Ref) → of_tenant (xs ++ ys) ≡ of_tenant xs ++ of_tenant ys
  of_tenant-append [] ys = refl
  of_tenant-append ((id, r) ∷ xs) ys = ground (arith, of_tenant-append xs ys)

  send-tenant :
      (c : Client) (message : Message) (d : Client) (b : Bool)
      → send c message ≡ returns (d, b)
      → d.tenant_id ≡ c.tenant_id
  unfolding send offer
  send-tenant c message d b h = ground arith

  send_at-Tenanted :
      (r : Ref) (message : Message) (heap : Heap) (t : Heap × Bool)
      → Tenanted heap
      → send_at r message heap ≡ returns t
      → Tenanted t.0
  unfolding send_at
  send_at-Tenanted r message heap t v h q =
      let (got, sent, e) = >>=-eq-returns (send (heap r) message) _ h in
      subst (λ (w : Heap × Bool). (w.0 q).tenant_id ≡ tenant_of q) (returned e)
        (ground (arith, send-tenant (heap r) message got.0 got.1 sent, v r, v q))

  send_once-Tenanted :
      (id : String) (r : Ref) (message : Message) (s t : Sent)
      → Tenanted s.heap
      → send_once id r message s ≡ returns t
      → Tenanted t.heap
  unfolding send_once
  send_once-Tenanted id r message s t v h = elim (Bool-cases (is_in id s.ids)) [
    | inl seen ↦ subst (λ (w : Sent). Tenanted w.heap) (returned (rw seen at h)) v
    | inr fresh ↦
        let (got, sent, e) = >>=-eq-returns (send_at r message s.heap) _ (rw fresh at h) in
        subst (λ (w : Sent). Tenanted w.heap) (returned e)
          (send_at-Tenanted r message s.heap got v sent)
  ]

  send_own_once-Tenanted :
      (own : Dict Ref) (message : Message) (s t : Sent)
      → Tenanted s.heap
      → send_own_once own message s ≡ returns t
      → Tenanted t.heap
  unfolding send_own_once
  send_own_once-Tenanted [] message s t v h = subst (λ (w : Sent). Tenanted w.heap) (returned h) v
  send_own_once-Tenanted ((id, r) ∷ own) message s t v h =
      let (u, first, rest) = >>=-eq-returns (send_once id r message s) _ h in
      send_own_once-Tenanted own message u t (send_once-Tenanted id r message s u v first) rest

  send_own_of_tenant_lem :
      (own : Dict Ref) (message : Message) (s : Sent)
      → Tenanted s.heap
      → send_own_of_tenant tenant own message s ≡ send_own_once (of_tenant own) message s
  unfolding send_own_of_tenant send_own_once
  send_own_of_tenant_lem [] message s v = refl
  send_own_of_tenant_lem ((id, r) ∷ own) message s v = elim (Bool-cases (tenant_of r == tenant)) [
    | inl hit ↦ rw (v r) (
        rw hit (
          bind_cong_returns (send_once id r message s) (λ t e.
            send_own_of_tenant_lem own message t (send_once-Tenanted id r message s t v e))))
    | inr miss ↦ rw (v r) (rw miss (send_own_of_tenant_lem own message s v))
  ]

  send_users_of_tenant_lem :
      (users : Dict (Dict Ref)) (message : Message) (s : Sent)
      → Tenanted s.heap
      → send_users_of_tenant tenant users message s
        ≡ send_own_once (of_tenant (by_id users)) message s
  unfolding send_users_of_tenant send_own_once
  send_users_of_tenant_lem [] message s v = refl
  send_users_of_tenant_lem ((user, own) ∷ users) message s v =
      rw (send_own_of_tenant_lem own message s v) (
        bind_cong_returns (send_own_once (of_tenant own) message s) (λ t e.
          send_users_of_tenant_lem users message t
            (send_own_once-Tenanted (of_tenant own) message s t v e))
        ∙ sym (send_own_once-append (of_tenant own) (of_tenant (by_id users)) message s)
        ∙ ap (λ o. send_own_once o message s) (sym (of_tenant-append own (by_id users))))

module _ (user_of id_of : Ref → String) (message : Message) (h : Hub) where
  abbrev pub tenant_in : Ref → String
  tenant_in r = (h.heap r).tenant_id

  -- The connected clients of a tenant.
  abbrev pub tenant_refs : String → List Ref
  tenant_refs tenant = values (of_tenant tenant_in tenant (by_id h.clients))

  contains-tenant_refs :
      (tenant : String)
      → IsValid user_of id_of h
      → (q : Ref)
      → contains q (tenant_refs tenant)
        ≡ (tenant_in q == tenant && holds ((view h).conns (user_of q) (id_of q)) q)
  contains-tenant_refs tenant v q =
      contains-of_tenant tenant_in tenant q (by_id h.clients)
      ∙ ap (λ rs. tenant_in q == tenant && contains q rs) (values-by_id h.clients)
      ∙ ap (λ b. tenant_in q == tenant && b)
          (contains-all_refs user_of id_of q h.clients v.tidy.distinct v.tidy.inner)

  -- Of a valid hub in which no two connected clients share an id, `SendToTenant` does not panic.
  -- Each connected client of the tenant that accepts the message has it queued, once and last; no
  -- other client changes; and the result is the number of the tenant's clients that accepted.
  pub send_to_tenant-Delivers :
      (tenant : String)
      → IsValid user_of id_of h
      → IsDistinct (by_id h.clients)
      → Delivers user_of id_of message h
          (λ q. tenant_in q == tenant && holds ((view h).conns (user_of q) (id_of q)) q)
          (tenant_refs tenant)
          (send_to_tenant tenant message h)
  unfolding send_to_tenant
  send_to_tenant-Delivers tenant v d =
      sym (
        bind_assoc (send_users_of_tenant tenant h.clients message (unsent h.heap))
          (λ t. returns (outcome t)) (λ t. returns (record h { heap = t.0 }, t.1)))
      ∙ rw (send_users_of_tenant_lem tenant_in tenant h.clients message (unsent h.heap) (λ r. refl))
          (rw
            (send_own_once-each (of_tenant tenant_in tenant (by_id h.clients)) message
              (unsent h.heap) (of_tenant-IsDistinct tenant_in tenant (by_id h.clients) d)
              (Unseen-nil (of_tenant tenant_in tenant (by_id h.clients))))
            (rw
              (send_each_lem (tenant_refs tenant) message h.heap 0 v.sound (
                of_tenant-AreDistinct tenant_in tenant (by_id h.clients) (
                  subst AreDistinct (sym (values-by_id h.clients))
                    (all_refs-AreDistinct user_of id_of h.clients v.tidy.distinct v.tidy.inner))))
              (ap₂ (λ g n. returns (record h { heap = g }, n))
                (deliver_cong _ _ message h.heap (contains-tenant_refs tenant v)) (omega arith))))
