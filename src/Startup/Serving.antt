-- ===== src/Startup/Serving.antt =====
-- `Run`: what the process has started when its server stops.
use spdk_csi.Prelude.{
  ℕ, ◌≡◌, refl, ap, Bool, true, false, Option, none, some, List, [], ◌∷◌, if◌then◌else◌, arith,
}
use spdk_csi.Text.{Str}
use spdk_csi.Effect.{Error, Result, good, bad, Exec, crash, attempt, Outcome, ok, err, panic, ◌>>◌}
use spdk_csi.Effect.Triple.{
  Ends, Triple, Either, Triple-attempt, Triple-bind, Triple-pure, Triple-any, Triple-strengthen,
  Triple-from,
}
use spdk_csi.Csi.Driver.{
  CsiDriver, add_volume_capability_access_modes, add_controller_service_capabilities,
  parse_endpoint, new_csi_driver, get_plugin_info,
}
use spdk_csi.Csi.Identity.{new_csi_driver-made, new_csi_driver-get_plugin_info}
use spdk_csi.Csi.Defaults.{
  rpc_controller_get_capabilities, default_controller, rpc_node_get_info, node_info, default_node,
}
use spdk_csi.Controller.Message.{NodeConfig, Controller}
use spdk_csi.Startup.System.{
  System, Flags, NodeServer, XpuNode, Service, identity_service, controller_service, node_service,
  fatal, returned,
}
use spdk_csi.Startup.Grpc.{
  Grpc, address_of, as_interface, all_registered, in_world, wait_add, set_server, serve, start,
  wait, enabled, only_if, run_driver, run, controller_caps, volume_modes,
}

abbrev is_some : {A : Type 0} → Option A → Bool
is_some none = false
is_some (some a) = true

-- What the driver's methods answer, by the flags.
pub record Reports (conf : Flags) (driver : CsiDriver) : Type 0 where
  pub named : get_plugin_info driver ≡ good (conf.driver_name, conf.driver_version)
  pub node : default_node driver rpc_node_get_info ≡ good (node_info conf.node_id)
  pub capabilities :
      default_controller driver rpc_controller_get_capabilities
      ≡ good (if conf.is_controller_server then controller_caps else [])

-- `Wait` has not returned, and the three services are registered, whatever the flags ask for: a
-- service that they do not ask for is registered with a nil pointer.
pub record Serving {W : Type 0} (conf : Flags) (returned : Bool) (s : Grpc W) : Type 0 where
  pub blocked : returned ≡ false
  pub driver : CsiDriver
  pub reports : Reports conf driver
  pub cs : Option Controller
  pub ns : Option NodeServer
  pub with_cs : is_some cs ≡ conf.is_controller_server
  pub with_ns : is_some ns ≡ conf.is_node_server
  pub services :
      s.server
      ≡ some (identity_service (some driver) ∷ controller_service cs ∷ node_service ns ∷ [])

module _ {W A : Type 0} (F : ℕ → Option (List Service) → Type 0) (Q : A → Type 0) where
  abbrev Framed : A → Grpc W → Type 0
  Framed a s = F s.wait_group s.server × Q a

  framed :
      (r : Outcome A) (w : W) (s : Grpc W)
      → F s.wait_group s.server
      → Ends (λ a (_ : W). Q a) (λ _ _. Unit) (r, w)
      → Ends Framed (λ _ _. Unit) (r, record s { world = w })
  framed (ok a) w s f h = (f, h)
  framed (err e) w s f h = tt
  framed panic w s f h = tt

  in_world-Framed :
      (m : Exec W A)
      → Triple (λ _. Unit) m (λ a _. Q a) (λ _ _. Unit)
      → Triple (λ s. F s.wait_group s.server) (in_world m) Framed (λ _ _. Unit)
  in_world-Framed m t = record {
    at = λ s f. framed (m s.world).0 (m s.world).1 s f (t.at s.world tt);
  }

  -- What the world does leaves the fields of the server alone; a failure ends the process.
  fatal-Framed :
      {E : Error → Grpc W → Type 0} (m : Exec W A)
      → Triple (λ _. Unit) m (λ a _. Q a) (λ _ _. Unit)
      → Triple (λ s. F s.wait_group s.server) (fatal (in_world m)) Framed E
  fatal-Framed {E} m t =
      Triple-bind {R = Either Framed (λ _ _. Unit)} (attempt (in_world m)) _
        (Triple-attempt _ (in_world-Framed m t))
        (elim [ good a ↦ Triple-pure a (λ s h. h) | bad e ↦ record { at = λ s h. tt } ])

module _ {W A : Type 0} {P : Grpc W → Type 0} {E : Error → Grpc W → Type 0} where
  fatal-returned : (r : Result A) → Triple P (fatal (returned r)) (λ _ s. P s) E
  fatal-returned (good a) = Triple-pure a (λ s h. h)
  fatal-returned (bad e) = record { at = λ s h. tt }

module _ {W A : Type 0} where
  -- A server is made exactly when the flags ask for it.
  only_if-is_some :
      (b : Bool) (m : Exec W A)
      → Triple (λ _. Unit) (only_if b m) (λ o _. is_some o ≡ b) (λ _ _. Unit)
  only_if-is_some false m = Triple-pure none (λ s h. refl)
  only_if-is_some true m = Triple-bind _ _ (Triple-any m) (λ a. Triple-pure (some a) (λ s h. refl))

module _ {W : Type 0} (sys : System W) where
  -- The server that is started has the services of the interfaces, and nothing ends the wait.
  abbrev Started : List Service → Grpc W → Type 0
  Started l s = (s.wait_group ≡ 1) × (s.server ≡ some l)

  serve-Started :
      (endpoint : Str) (l : List Service) (E : Error → Grpc W → Type 0)
      (ids : Option (Option CsiDriver)) (cs : Option (Option Controller))
      (ns : Option (Option NodeServer))
      → all_registered ids cs ns ≡ l
      → Triple (λ s. s.wait_group ≡ 1) (serve sys endpoint ids cs ns) (λ _ s. Started l s) E
  unfolding serve
  serve-Started endpoint l E ids cs ns e =
      Triple-bind {R = λ _ s. s.wait_group ≡ 1} _ _ (fatal-returned (parse_endpoint endpoint))
        λ parsed.
          Triple-bind {R = Framed (λ n _. n ≡ 1) (λ _. Unit)} _ _
            (fatal-Framed (λ n _. n ≡ 1) (λ _. Unit) _
              (Triple-any (address_of sys parsed.0 parsed.1)))
            λ addr.
              Triple-bind {R = Framed (λ n _. n ≡ 1) (λ _. Unit)} _ _
                (Triple-from (λ s h. h.0)
                  (fatal-Framed (λ n _. n ≡ 1) (λ _. Unit) _
                    (Triple-any (sys.listen parsed.0 addr))))
                λ listener.
                  Triple-bind {R = λ _ s. s.wait_group ≡ 1} (set_server []) _
                    (record { at = λ s h. h.0 })
                    λ _.
                      Triple-bind {R = λ _ s. Started l s} (set_server (all_registered ids cs ns)) _
                        (record { at = λ s h. (h, ap some e) })
                        λ _.
                          Triple-strengthen (λ _ s h. h.0)
                            (fatal-Framed (λ n o. (n ≡ 1) × (o ≡ some l)) (λ _. Unit) _
                              (Triple-any (sys.serve listener (all_registered ids cs ns))))

module _ {W : Type 0} (sys : System W) (nodes : Str → Result (List NodeConfig))
    (xpus : Str → Result (List (Option XpuNode))) where
  enabled-Reports :
      (conf : Flags) (d : CsiDriver)
      → new_csi_driver conf.driver_name conf.driver_version conf.node_id ≡ some d
      → (b : Bool) → b ≡ conf.is_controller_server
      → Reports conf (enabled b d)
  unfolding enabled get_plugin_info add_volume_capability_access_modes
      add_controller_service_capabilities default_node default_controller
  enabled-Reports conf d e false c = record {
    named = new_csi_driver-get_plugin_info _ _ _ d [] [] e;
    node = rw (← new_csi_driver-made _ _ _ d e) refl;
    capabilities = rw (← new_csi_driver-made _ _ _ d e, ← c) refl;
  }
  enabled-Reports conf d e true c = record {
    named = new_csi_driver-get_plugin_info _ _ _ d controller_caps volume_modes e;
    node = rw (← new_csi_driver-made _ _ _ d e) refl;
    capabilities = rw (← c) refl;
  }

  run_driver-Serving :
      (conf : Flags) (d : CsiDriver)
      → Reports conf d
      → Triple
          (λ s. s.wait_group ≡ 0)
          (run_driver sys nodes xpus conf d)
          (λ r s. Serving conf r s)
          (λ _ _. ⊥)
  unfolding run_driver start wait all_registered
  run_driver-Serving conf d reports =
      Triple-bind _ _
        (fatal-Framed (λ n _. n ≡ 0) (λ o. is_some o ≡ conf.is_node_server) _ (only_if-is_some _ _))
        λ ns.
          Triple-bind _ _
            (fatal-Framed (λ n _. (n ≡ 0) × (is_some ns ≡ conf.is_node_server))
              (λ o. is_some o ≡ conf.is_controller_server) _ (only_if-is_some _ _))
            λ cs. record { at = λ s h. (finish cs ns h.1 h.0.1).at s h.0.0 }
    where
      finish :
          (cs : Option Controller) (ns : Option NodeServer)
          → is_some cs ≡ conf.is_controller_server
          → is_some ns ≡ conf.is_node_server
          → Triple {S = Grpc W}
              (λ s. s.wait_group ≡ 0)
              (do
                start sys conf.endpoint (as_interface (some d)) (as_interface cs) (as_interface ns)
                wait)
              (λ r s. Serving conf r s)
              (λ _ _. ⊥)
      finish cs ns hc hn =
          Triple-bind _ (λ _. wait)
            (Triple-bind {R = λ _ s. s.wait_group ≡ 1} wait_add _
              (record { at = λ s h. omega arith })
              (λ _.
                serve-Started sys conf.endpoint _ _ (as_interface (some d)) (as_interface cs)
                  (as_interface ns) refl))
            (λ _. record {
              at = λ s h. record {
                blocked = rw h.0 refl;
                driver = d;
                reports = reports;
                cs = cs;
                ns = ns;
                with_cs = hc;
                with_ns = hn;
                services = h.1;
              };
            })

  -- With nothing waited for yet, Run never returns an error, and when its server has stopped
  -- without ending the process, Wait has not returned, the driver that it serves reports the name,
  -- the version and the node of the flags and the capabilities of a controller exactly for one,
  -- and the identity, the controller and the node service are all registered, the controller and
  -- the node service each with a server exactly when the flags ask for it and with a nil pointer
  -- otherwise.
  pub run-Serving :
      (conf : Flags)
      → Triple
          (λ s. s.wait_group ≡ 0)
          (run sys nodes xpus conf)
          (λ r s. Serving conf r s)
          (λ _ _. ⊥)
  unfolding run
  run-Serving conf =
      of_driver (new_csi_driver conf.driver_name conf.driver_version conf.node_id) refl
    where
      of_driver :
          (o : Option CsiDriver)
          → new_csi_driver conf.driver_name conf.driver_version conf.node_id ≡ o
          → Triple {S = Grpc W}
              (λ s. s.wait_group ≡ 0)
              (elim o [
                | none ↦ crash
                | some d ↦ run_driver sys nodes xpus conf (enabled conf.is_controller_server d)
              ])
              (λ r s. Serving conf r s)
              (λ _ _. ⊥)
      of_driver none e = record { at = λ s h. tt }
      of_driver (some d) e =
          run_driver-Serving conf (enabled conf.is_controller_server d)
            (enabled-Reports conf d e conf.is_controller_server refl)
