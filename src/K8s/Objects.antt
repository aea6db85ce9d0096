-- ===== src/K8s/Objects.antt =====
-- The pod and the service of an agent.
use aries_guardianship_agenc.Base.{String, ◌∷◌, ◌≡◌, refl, arith}
use aries_guardianship_agenc.Js.Value.{
  Value, str, obj, arr, Fields, Items, end, field, nil, item, lookup_field,
}
use aries_guardianship_agenc.Effects.{
  Env, ok, Trace, prop, ◌>>=◌, create_pod, create_service, delete_pod, delete_service,
}
use aries_guardianship_agenc.Config.{AgentConfig}
use aries_guardianship_agenc.K8s.{pod_options, service_options, start_agent, stop_agent}

abbrev pub name_of : Value → Value
name_of v = prop "name" (prop "metadata" v)

module _ (env : Env) (namespace : String) where
  -- Stopping an agent that was started, by the id that its start gave, deletes the service first
  -- and then the pod, in the namespace and with the names that they were created with.
  pub stop_agent-start_agent :
      (c : AgentConfig) (id : String) (t s u : Trace)
      → start_agent env namespace c t ≡ (ok id, s)
      → stop_agent env namespace id s ≡ (ok tt, u)
      → (u
          ≡ delete_pod id namespace
            ∷ delete_service id namespace
            ∷ create_service namespace (service_options c)
            ∷ create_pod namespace (pod_options env c)
            ∷ t)
        × (name_of (pod_options env c) ≡ str id)
        × (name_of (service_options c) ≡ str id)
  unfolding start_agent stop_agent pod_options service_options lookup_field ◌>>=◌
  stop_agent-start_agent c id t s u started stopped = ground arith

-- The labels have every entry of the selector.
abbrev pub Selects : Fields → Fields → Type 0
Selects end labels = Unit
Selects (field key v rest) labels = (lookup_field key labels ≡ v) × Selects rest labels

-- The port of the service, by its name, is that of a container's port with the same name.
abbrev pub Reaches : Items → Items → Type 0
Reaches nil nil = Unit
Reaches (item p ps) (item q qs) =
    (prop "name" p ≡ prop "name" q) × (prop "port" p ≡ prop "containerPort" q) × Reaches ps qs
Reaches _ _ = ⊥

abbrev fields_of : Value → Fields
fields_of (obj fs) = fs
fields_of _ = end

abbrev items_of : Value → Items
items_of (arr vs) = vs
items_of _ = nil

abbrev first_of : Items → Value
first_of nil = str ""
first_of (item v rest) = v

abbrev pub selector : AgentConfig → Fields
selector c = fields_of (prop "selector" (prop "spec" (service_options c)))

abbrev pub labels : Env → AgentConfig → Fields
labels env c = fields_of (prop "labels" (prop "metadata" (pod_options env c)))

abbrev pub service_ports : AgentConfig → Items
service_ports c = items_of (prop "ports" (prop "spec" (service_options c)))

abbrev pub container_ports : Env → AgentConfig → Items
container_ports env c =
    items_of
      (prop "ports" (first_of (items_of (prop "containers" (prop "spec" (pod_options env c))))))

-- The service of an agent finds the agent's pod: its selector is a part of the pod's labels, it
-- asks for the agent's id in one of them, and each port of the service is one of the container.
pub service_options-pod_options :
    (env : Env) (c : AgentConfig)
    → Selects (selector c) (labels env c)
      × (lookup_field "app.kubernetes.io/instance" (selector c) ≡ str c.agent_id)
      × Reaches (service_ports c) (container_ports env c)
unfolding pod_options service_options lookup_field
service_options-pod_options env c = ((refl, (refl, tt)), refl, (refl, refl, (refl, refl, tt)))
