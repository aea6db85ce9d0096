-- ===== src/Wiring/Visible.antt =====
-- What the modules of Nest see of each other.
use aries_guardianship_agenc.Base.{String, Bool, true, List, [], ◌∷◌, ◌++◌, ◌≡◌, Among}
use aries_guardianship_agenc.Wiring.{Class, Provider, own, outside, Module, modules, class}

-- What the modules and providers of the libraries bring in.
pub record Libraries : Type 0 where
  pub exports_of : String → List String
  pub token_of : String → String
  pub is_global : String → Bool
  pub http : Among "ProtocolHttpService" (exports_of "ProtocolHttpModule")
  pub cache : Among "CACHE_MANAGER" (exports_of "CacheModule")
  pub agents : Among "AgentService" (exports_of "AgentModule")
  pub connection : Among "Connection" (exports_of "TypeOrmModule")
  pub database : is_global "TypeOrmModule" ≡ true
  pub governance : token_of "AgentGovernanceFactory" ≡ "AGENT_GOVERNANCE"

-- The classes of the program that Nest makes an instance of for a module, and the module's own.
abbrev pub own_classes : List Provider → List Class
own_classes [] = []
own_classes (own c ∷ ps) = c ∷ own_classes ps
own_classes (outside name ∷ ps) = own_classes ps

abbrev pub classes : Module → List Class
classes m = class m.name m.needs ∷ (m.controllers ++ own_classes m.providers)

module _ (libraries : Libraries) where
  abbrev pub token : Provider → String
  token (own c) = c.name
  token (outside name) = libraries.token_of name

  -- The module of this name makes the token known to those that import it: it is a library's, or
  -- passes on what a library's module exports.
  pub data Exports : String → String → Type 0 where
    of_library : (name t : String) → Among t (libraries.exports_of name) → Exports name t
    passed_on :
        (m : Module) (inner t : String)
        → Among m modules
        → Among inner m.exports
        → Among t (libraries.exports_of inner)
        → Exports m.name t

  -- A module sees its own providers, those of its imports, and those of a global module that some
  -- module of the application imports.
  pub data Visible (m : Module) : String → Type 0 where
    provided : (p : Provider) → Among p m.providers → Visible m (token p)
    imported : (name t : String) → Among name m.imports → Exports name t → Visible m t
    everywhere :
        (n : Module) (name t : String)
        → Among n modules
        → Among name n.imports
        → libraries.is_global name ≡ true
        → Exports name t
        → Visible m t
