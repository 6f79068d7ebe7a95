-- ===== src/Registry.antt =====
-- core/runtime/registry.go and sdk/plugin/plugin.go: services and plugins by name.
pub mod First
use node_decent_system.Prelude.{
  ◌≡◌, refl, Option, none, some, [], ◌∷◌, ◌++◌, arith, if◌then◌else◌, Bytes, Error, lit, str_eq,
}
use node_decent_system.GoMap.{GoMap, get-put, get-put_self}
use node_decent_system.GoMap

-- The methods that the registry calls of a service; the service itself is a value of `Svc`.
module _ {Svc : Type 0} (name : Svc → Bytes) (health : Svc → Option Error) where
  abbrev pub ServiceRegistry : Type 0
  ServiceRegistry = GoMap Svc

  unfoldable pub new_service_registry : ServiceRegistry
  new_service_registry = []

  add_service : ServiceRegistry → Svc → Option Svc → ServiceRegistry × Option Error
  add_service r svc (some old) = (r, some (lit "service already registered: " ++ name svc))
  add_service r svc none = (GoMap.put r (name svc) svc, none)

  unfoldable pub register : ServiceRegistry → Svc → ServiceRegistry × Option Error
  unfolding add_service
  register r svc = add_service r svc (GoMap.get r (name svc))

  unfoldable pub get : ServiceRegistry → Bytes → Option Svc
  get r n = GoMap.get r n

  unfoldable pub health_check_all : ServiceRegistry → GoMap (Option Error)
  health_check_all [] = []
  health_check_all ((n, svc) ∷ r) = (n, health svc) ∷ health_check_all r

  -- A registration is refused exactly when the name is taken. It never changes what another name
  -- stands for, and a name that is taken keeps its service.
  pub register_lem :
      (r : ServiceRegistry) (svc : Svc)
      → ((GoMap.get r (name svc) ≡ none)
          → ((register r svc).1 ≡ none)
            × ((n : Bytes)
                → get (register r svc).0 n ≡ (if str_eq (name svc) n then some svc else get r n)))
        × ((old : Svc)
            → GoMap.get r (name svc) ≡ some old
            → ((register r svc).0 ≡ r)
              × ((register r svc).1 ≡ some (lit "service already registered: " ++ name svc)))
  unfolding register add_service get
  register_lem r svc = (
    λ h. (rw (h, register) refl, λ n. rw (h, register) (get-put r (name svc) n svc)),
    λ old h. (rw (h, register) refl, rw (h, register) refl),
  )

  -- The health map has, under each name, the health of the service registered there.
  pub get-health_check_all :
      (r : ServiceRegistry) (n : Bytes) (svc : Svc)
      → get r n ≡ some svc
      → GoMap.get (health_check_all r) n ≡ some (health svc)
  unfolding get health_check_all GoMap.get
  get-health_check_all [] n svc h = absurd (ground arith)
  get-health_check_all ((m, s) ∷ r) n svc h = ground (arith, get-health_check_all r n svc)

module _ {Plugin : Type 0} (plugin_name : Plugin → Bytes) where
  abbrev pub PluginManager : Type 0
  PluginManager = GoMap Plugin

  unfoldable pub new_plugin_manager : PluginManager
  new_plugin_manager = []

  add_plugin : PluginManager → Plugin → Option Plugin → PluginManager × Option Error
  add_plugin pm p (some old) =
      (pm, some (lit "plugin " ++ (plugin_name p ++ lit " already registered")))
  add_plugin pm p none = (GoMap.put pm (plugin_name p) p, none)

  unfoldable pub register_plugin : PluginManager → Plugin → PluginManager × Option Error
  unfolding add_plugin
  register_plugin pm p = add_plugin pm p (GoMap.get pm (plugin_name p))

  unfoldable pub get_plugin : PluginManager → Bytes → Option Plugin
  get_plugin pm n = GoMap.get pm n
