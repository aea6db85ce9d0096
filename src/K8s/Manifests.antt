-- ===== src/K8s/Manifests.antt =====
-- The bodies of `createPod` and `createService` of src/manager/k8s.service.ts.
use aries_guardianship_agenc.Base.{[], ◌∷◌}
use aries_guardianship_agenc.Js.Number.{nat}
use aries_guardianship_agenc.Js.Value.{Value, num, str, array, object, variable}
use aries_guardianship_agenc.Effects.{Env}
use aries_guardianship_agenc.Config.{AgentConfig}
use aries_guardianship_agenc.Config.Command.{get_start_args}

unfoldable pub pod_options : Env → AgentConfig → Value
pod_options env c =
    let health_check_port = num c.http_port in
    object (
      ("apiVersion", str "v1")
      ∷ ("kind", str "Pod")
      ∷ (
        "metadata",
        object (
            ("name", str c.agent_id)
            ∷ (
              "labels",
              object (
                  ("app.kubernetes.io/instance", str c.agent_id)
                  ∷ ("app.kubernetes.io/name", str c.agent_id)
                  ∷ ("agent", str "true")
                  ∷ []),
            )
            ∷ []),
      )
      ∷ (
        "spec",
        object (
            (
              "containers",
              array (
                  object (
                    ("name", str c.agent_id)
                    ∷ ("image", variable c.docker_image)
                    ∷ (
                      "ports",
                      array (
                          object (("name", str "http") ∷ ("containerPort", num c.http_port) ∷ [])
                          ∷ object
                              (("name", str "admin") ∷ ("containerPort", num c.admin_port) ∷ [])
                          ∷ []),
                    )
                    ∷ ("args", array (get_start_args env c))
                    ∷ (
                      "env",
                      array (
                          object
                            (("name", str "DD_ENV") ∷ ("value", variable (env.var "DD_ENV")) ∷ [])
                          ∷ object (
                              ("name", str "DD_TAGS")
                              ∷ ("value", variable (env.var "DD_TAGS"))
                              ∷ [])
                          ∷ []),
                    )
                    ∷ (
                      "resources",
                      object (
                          (
                            "limits",
                            object (("cpu", str "1100m") ∷ ("memory", str "607164212") ∷ []),
                          )
                          ∷ (
                            "requests",
                            object (("cpu", str "1100m") ∷ ("memory", str "607164212") ∷ []),
                          )
                          ∷ []),
                    )
                    ∷ (
                      "livenessProbe",
                      object (
                          (
                            "httpGet",
                            object (
                                ("path", str "/")
                                ∷ ("port", health_check_port)
                                ∷ ("scheme", str "HTTP")
                                ∷ []),
                          )
                          ∷ ("timeoutSeconds", num (nat 10))
                          ∷ []),
                    )
                    ∷ (
                      "readinessProbe",
                      object (
                          (
                            "httpGet",
                            object (
                                ("path", str "/")
                                ∷ ("port", health_check_port)
                                ∷ ("scheme", str "HTTP")
                                ∷ []),
                          )
                          ∷ []),
                    )
                    ∷ [])
                  ∷ []),
            )
            ∷ (
              "tolerations",
              array (
                  object (
                    ("key", str "agent")
                    ∷ ("operator", str "Equal")
                    ∷ ("value", str "true")
                    ∷ ("effect", str "NoSchedule")
                    ∷ [])
                  ∷ []),
            )
            ∷ (
              "affinity",
              object (
                  (
                    "nodeAffinity",
                    object (
                        (
                          "preferredDuringSchedulingIgnoredDuringExecution",
                          array (
                              object (
                                ("weight", num (nat 100))
                                ∷ (
                                  "preference",
                                  object (
                                      (
                                        "matchExpressions",
                                        array (
                                            object (
                                              ("key", str "dedicated")
                                              ∷ ("operator", str "In")
                                              ∷ ("values", array (str "agent" ∷ []))
                                              ∷ [])
                                            ∷ []),
                                      )
                                      ∷ []),
                                )
                                ∷ [])
                              ∷ []),
                        )
                        ∷ []),
                  )
                  ∷ []),
            )
            ∷ []),
      )
      ∷ [])

unfoldable pub service_options : AgentConfig → Value
service_options c = object (
    ("apiVersion", str "v1")
    ∷ ("kind", str "Service")
    ∷ (
      "metadata",
      object (("name", str c.agent_id) ∷ ("labels", object (("agent", str "true") ∷ [])) ∷ []),
    )
    ∷ (
      "spec",
      object (
          (
            "ports",
            array (
                object (("name", str "http") ∷ ("port", num c.http_port) ∷ [])
                ∷ object (("name", str "admin") ∷ ("port", num c.admin_port) ∷ [])
                ∷ []),
          )
          ∷ (
            "selector",
            object (
                ("app.kubernetes.io/instance", str c.agent_id)
                ∷ ("app.kubernetes.io/name", str c.agent_id)
                ∷ []),
          )
          ∷ []),
    )
    ∷ [])
