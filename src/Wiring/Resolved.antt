-- ===== src/Wiring/Resolved.antt =====
-- Every dependency of a class is there.
use mathlib.Core.Path.{subst}
use aries_guardianship_agenc.Base.{
  String, List, [], ◌∷◌, ◌++◌, ◌≡◌, refl, inl, inr, Among, All, All-Among,
}
use aries_guardianship_agenc.Routes.{
  Route, routes, app_routes, manager_routes, controller_routes, multitenant_routes,
  transaction_routes,
}
use aries_guardianship_agenc.Wiring.{
  Class, own, outside, Module, modules, app_module, agent_manager_module, agent_router_module,
  agent_controller_module, multitenant_module, transaction_module, persistence_module,
  transaction_messaging_module, global_cache_module, data_service_module, app_service,
  agent_manager_service, agent_router_service, agent_controller_service, multitenant_service,
  transaction_service, data_service, transaction_message_response_factory,
}
use aries_guardianship_agenc.Wiring.Visible.{
  Libraries, classes, of_library, passed_on, Visible, provided, imported, everywhere,
}

abbrev controller_routes_of : List Class → List Route
controller_routes_of [] = []
controller_routes_of (c ∷ cs) = c.routes ++ controller_routes_of cs

abbrev pub routes_of : List Module → List Route
routes_of [] = []
routes_of (m ∷ ms) = controller_routes_of m.controllers ++ routes_of ms

module _ (libraries : Libraries) where
  module _ (m : Module) where
    sees_own : (c : Class) → Among (own c) m.providers → Visible libraries m c.name
    sees_own c among = provided (own c) among

    sees_http : Among "ProtocolHttpModule" m.imports → Visible libraries m "ProtocolHttpService"
    sees_http among = imported _ _ among (of_library _ _ libraries.http)

    sees_agents : Among "AgentModule" m.imports → Visible libraries m "AgentService"
    sees_agents among = imported _ _ among (of_library _ _ libraries.agents)

    sees_cache : Among "GlobalCacheModule" m.imports → Visible libraries m "CACHE_MANAGER"
    sees_cache among = imported _ _ among (
        passed_on global_cache_module "CacheModule" "CACHE_MANAGER"
          (inr (inr (inr (inr (inr (inr (inr (inr (inl refl))))))))) (inl refl) libraries.cache)

    sees_governance :
        Among (outside "AgentGovernanceFactory") m.providers
        → Visible libraries m "AGENT_GOVERNANCE"
    sees_governance among = subst (Visible libraries m) libraries.governance (provided _ among)

    sees_connection : Visible libraries m "Connection"
    sees_connection =
        everywhere app_module "TypeOrmModule" "Connection" (inl refl) (inr (inl refl))
          libraries.database (of_library _ _ libraries.connection)

  abbrev AllVisible : Module → Type 0
  AllVisible m = All (λ c. All (Visible libraries m) c.dependencies) (classes m)

  app_sees : AllVisible app_module
  app_sees = (tt, ((sees_own app_module app_service (inl refl), tt), (tt, tt)))

  manager_sees : AllVisible agent_manager_module
  manager_sees = (
    tt,
    (
      (sees_own agent_manager_module agent_manager_service (inl refl), tt),
      (
        (
          sees_http agent_manager_module (inr (inl refl)),
          (sees_cache agent_manager_module (inl refl), tt),
        ),
        tt,
      ),
    ),
  )

  router_sees : AllVisible agent_router_module
  router_sees = (
    (sees_own agent_router_module agent_router_service (inl refl), tt),
    ((sees_own agent_router_module agent_router_service (inl refl), tt), (tt, tt)),
  )

  controller_sees : AllVisible agent_controller_module
  controller_sees = (
    tt,
    (
      (sees_own agent_controller_module agent_controller_service (inl refl), tt),
      (
        (
          sees_http agent_controller_module (inl refl),
          (
            sees_cache agent_controller_module (inr (inl refl)),
            (sees_governance agent_controller_module (inr (inl refl)), tt),
          ),
        ),
        tt,
      ),
    ),
  )

  multitenant_sees : AllVisible multitenant_module
  multitenant_sees = (
    tt,
    (
      (sees_own multitenant_module multitenant_service (inl refl), tt),
      (
        (
          sees_http multitenant_module (inr (inl refl)),
          (sees_cache multitenant_module (inl refl), tt),
        ),
        tt,
      ),
    ),
  )

  transaction_sees : AllVisible transaction_module
  transaction_sees = (
    tt,
    (
      (sees_own transaction_module transaction_service (inr (inl refl)), tt),
      (
        (
          sees_governance transaction_module (inl refl),
          (
            sees_cache transaction_module (inr (inr (inl refl))),
            (
              sees_agents transaction_module (inl refl),
              (
                sees_own transaction_module data_service (inr (inr (inl refl))),
                (
                  sees_own transaction_module transaction_message_response_factory
                      (inr (inr (inr (inl refl)))),
                  (sees_http transaction_module (inr (inl refl)), tt),
                ),
              ),
            ),
          ),
        ),
        (
          (sees_connection transaction_module, tt),
          (
            (
              sees_own transaction_module data_service (inr (inr (inl refl))),
              (sees_http transaction_module (inr (inl refl)), tt),
            ),
            tt,
          ),
        ),
      ),
    ),
  )

  persistence_sees : AllVisible persistence_module
  persistence_sees = (tt, ((sees_connection persistence_module, tt), tt))

  messaging_sees : AllVisible transaction_messaging_module
  messaging_sees = (
    tt,
    (
      (
        sees_own transaction_messaging_module data_service (inr (inl refl)),
        (sees_http transaction_messaging_module (inr (inl refl)), tt),
      ),
      ((sees_connection transaction_messaging_module, tt), tt),
    ),
  )

  cache_sees : AllVisible global_cache_module
  cache_sees = (tt, tt)

  data_sees : AllVisible data_service_module
  data_sees = ((sees_connection data_service_module, tt), tt)

  modules-AllVisible : All AllVisible modules
  modules-AllVisible = (
    app_sees,
    (
      manager_sees,
      (
        router_sees,
        (
          controller_sees,
          (
            multitenant_sees,
            (transaction_sees, (persistence_sees, (messaging_sees, (cache_sees, (data_sees, tt))))),
          ),
        ),
      ),
    ),
  )

  -- Each token that the constructor of a class of the program asks for, that of a module included, is
  -- one that the module sees: of a provider of the module, or what a module that it imports exports
  -- or passes on, or a global module. The libraries export the HTTP client, the cache, the agent
  -- service and the connection, the last by a global module, and AgentGovernanceFactory provides the
  -- governance.
  pub modules-Visible :
      (m : Module) (c : Class) (t : String)
      → Among m modules
      → Among c (classes m)
      → Among t c.dependencies
      → Visible libraries m t
  modules-Visible m c t in_app in_module asked =
      All-Among (Visible libraries m) t c.dependencies
        (All-Among (λ k. All (Visible libraries m) k.dependencies) c (classes m)
          (All-Among AllVisible m modules modules-AllVisible in_app) in_module)
        asked

-- The routes of the program are those of the controllers of its modules.
routes_of-modules : routes_of modules ≡ routes
unfolding routes app_routes manager_routes controller_routes multitenant_routes transaction_routes
routes_of-modules = refl
