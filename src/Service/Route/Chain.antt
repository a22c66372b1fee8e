-- ===== src/Service/Route/Chain.antt =====
-- createServiceProxy in service_controller.go: the chain of its writes.
use mathlib.Core.List.{append_assoc}
use pod_proxier.Base.{
  ℕ, suc, ◌≡◌, ◌≢◌, refl, ap, ap₂, ◌∙◌, sym, inl, inr, All-append, Bool, none, some, List, [], ◌∷◌,
  ◌++◌, length-append, arith,
}
use pod_proxier.Base.Action.{Action}
use pod_proxier.GoString.{GoString}
use pod_proxier.Haproxy.Response.{GoError}
use pod_proxier.Haproxy.Api.{Api, Request}
use pod_proxier.Haproxy.Handle.{new_request}
use pod_proxier.Haproxy.Plane.{DataPlane, IsPlain}
use pod_proxier.Service.State.{ServiceController, KubeService, ServicePort}
use pod_proxier.Service.Proxy.{
  server_object, server_address, then_if_nil, write_backend, write_server, write_frontend,
  create_service_proxy,
}
use pod_proxier.Service.Route.{
  IsRoute, IsAddition, IsMade, Made, write_backend-IsMade, write_server-IsMade,
  write_frontend-IsMade, write_bind-IsMade,
}

module _ (api : Api) (plane : DataPlane api) (plain : IsPlain api) (c : ServiceController)
    (tx_id : GoString) (open_tx : tx_id ≢ []) where
  -- One more write in front of a chain.
  chained :
      (R : Request → Type 0) (Q : Request → List Request → Type 0) (n : ℕ) (w : api.World)
      (p : GoError × api.World) (next : Action api.World GoError)
      → ((r : Request) → R r → IsAddition r)
      → IsMade api plane tx_id R w p
      → ((r : Request) → Made api plane tx_id (Q r) n p.1 (next p.1))
      → Made api plane tx_id
          (λ rs. (r : Request) × (qs : List Request) × R r × Q r qs × (rs ≡ qs ++ (r ∷ [])))
          (suc n)
          w
          (then_if_nil api c tx_id p.0 next p.1)
  unfolding then_if_nil
  chained R Q n w (some e, w') next adds kept later = ([], omega arith, tt, kept)
  chained R Q n w (none, w') next adds (r, kind, waits) later = after (next w') (later r)
    where
      longer :
          (qs : List Request) (v : api.World)
          → plane.pending tx_id v ≡ qs ++ plane.pending tx_id w'
          → plane.pending tx_id v ≡ (qs ++ (r ∷ [])) ++ plane.pending tx_id w
      longer qs v grown =
          grown ∙ ap (λ l. qs ++ l) waits ∙ sym (append_assoc qs (r ∷ []) (plane.pending tx_id w))

      after :
          (q : GoError × api.World)
          → Made api plane tx_id (Q r) n w' q
          → Made api plane tx_id
              (λ rs. (r : Request) × (qs : List Request) × R r × Q r qs × (rs ≡ qs ++ (r ∷ [])))
              (suc n)
              w
              q
      after (none, v) (qs, more, grown) =
          (qs ++ (r ∷ []), (r, qs, kind, more, refl), longer qs v grown)
      after (some e, v) (qs, few, added, grown) = (
        qs ++ (r ∷ []),
        omega (arith, length-append qs (r ∷ [])),
        All-append IsAddition qs (r ∷ []) added (adds r kind, tt),
        longer qs v grown,
      )

  single :
      (R : Request → Type 0) (w : api.World) (p : GoError × api.World)
      → IsMade api plane tx_id R w p
      → Made api plane tx_id (λ rs. (r : Request) × R r × (rs ≡ r ∷ [])) 0 w p
  single R w (none, w') (r, kind, waits) = (r ∷ [], (r, kind, refl), waits)
  single R w (some e, w') kept = ([], omega arith, tt, kept)

  relabel :
      (R Q : List Request → Type 0) (n : ℕ) (w : api.World) (p : GoError × api.World)
      → ((rs : List Request) → R rs → Q rs)
      → Made api plane tx_id R n w p
      → Made api plane tx_id Q n w p
  relabel R Q n w (none, w') f (rs, kind, grown) = (rs, f rs kind, grown)
  relabel R Q n w (some e, w') f made = made

  -- Where the API keeps its promises: createServiceProxy without an error has put exactly the writes
  -- of a route into the transaction. With an error, three writes at most wait there, none of them a
  -- deletion; nothing takes them back.
  pub create_service_proxy-IsRoute :
      (service : KubeService) (port : ServicePort) (mapped_port : ℕ)
      (backend_name frontend_name bind_name : GoString) (hide : Bool) (w : api.World)
      → Made api plane tx_id
          (IsRoute api c tx_id service port mapped_port backend_name frontend_name bind_name hide)
          3
          w
          (create_service_proxy api c tx_id service port mapped_port backend_name frontend_name
            bind_name hide w)
  unfolding create_service_proxy new_request
  create_service_proxy-IsRoute service port mapped_port backend_name frontend_name bind_name hide
        w =
      relabel _ _ 3 w _
        (λ rs (b, qs, kb, (s, q2, es, (f, q3, kf, (t, et, e3), e2), e1), e0). (
          b,
          f,
          kb,
          kf,
          e0
              ∙ ap (λ l. l ++ (b ∷ []))
                  (e1 ∙ ap (λ l. l ++ (s ∷ [])) (e2 ∙ ap (λ l. l ++ (f ∷ [])) e3))
              ∙ ap₂ (λ t s. t ∷ f ∷ s ∷ b ∷ []) et es,
        ))
        (chained _ _ 2 w (write_backend api c tx_id backend_name hide w) _
          (λ r kind. elim kind [ inl e ↦ rw e (λ h. cc) | inr e ↦ rw e (λ h. cc) ])
          (write_backend-IsMade api plane plain c tx_id open_tx backend_name hide w)
          (λ b.
            chained _ _ 1 _
              (write_server api c tx_id (server_object c (server_address service port)) backend_name
                _)
              _ (λ r e. rw e (λ h. cc))
              (write_server-IsMade api plane plain c tx_id open_tx _ backend_name _)
              (λ s.
                chained _ _ 0 _ (write_frontend api c tx_id frontend_name backend_name _) _
                  (λ r kind. elim kind [ inl e ↦ rw e (λ h. cc) | inr e ↦ rw e (λ h. cc) ])
                  (write_frontend-IsMade api plane plain c tx_id open_tx frontend_name backend_name
                    _)
                  (λ f. single _ _ _ (
                    write_bind-IsMade api plane plain c tx_id open_tx bind_name mapped_port
                      frontend_name _)))))
