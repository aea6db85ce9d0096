-- ===== src/App/Storage.antt =====
-- src/app/global.cache.module.ts and src/ormconfig.ts: the options of the cache and of the database.
use aries_guardianship_agenc.Base.{
  ℕ, String, Bool, true, false, Option, List, [], ◌∷◌, if◌then◌else◌,
}
use aries_guardianship_agenc.Js.Number.{Num}
use aries_guardianship_agenc.Effects.{Env, parse_variable}
use aries_guardianship_agenc.Docker.{equals_variable}

pub data CacheOptions : Type 0 where
  -- host, password, port and ttl
  redis : Option String → Option String → String → Num → CacheOptions
  -- path, ttl and the most entries
  file_system : String → Num → ℕ → CacheOptions

pub record OrmOptions : Type 0 where
  pub type : String
  pub synchronize : Bool
  pub migrations_run : Bool
  pub entities : List String
  pub migrations : List String
  pub host : Option String
  pub username : Option String
  pub password : Option String
  pub database : Option String
  pub port : Num

module _ (env : Env) where
  unfoldable pub cache_options : CacheOptions
  cache_options =
      if equals_variable "true" (env.var "REDIS_ENABLED")
      then redis (env.var "REDIS_HOST") (env.var "REDIS_PASS") "6379"
          (parse_variable (env.var "DEFAULT_CACHE_TTL"))
      else file_system "/tmp/diskcache" (parse_variable (env.var "DEFAULT_CACHE_TTL")) 1000

  unfoldable pub orm_config : OrmOptions
  orm_config = record {
    type = "postgres";
    synchronize = false;
    migrations_run = true;
    entities = "dist/transactions/persistence/**/*.js" ∷ [];
    migrations = "dist/migration/**/*.js" ∷ [];
    host = env.var "WALLET_DB_HOST";
    username = env.var "WALLET_DB_USER";
    password = env.var "WALLET_DB_PASS";
    database = env.var "WALLET_DB";
    port = parse_variable (env.var "WALLET_DB_PORT");
  }
