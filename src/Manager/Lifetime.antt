-- ===== src/Manager/Lifetime.antt =====
-- How long an agent and its cache entry live: `setAgentCache` and `setSpinDownJob` on the ttl that
-- the constructor of `AgentConfig` has set.
use aries_guardianship_agenc.Base.{
  true, false, zero, suc, ◌+◌, ◌*◌, String, Option, none, some, ◌∷◌, ◌≡◌, refl, arith,
}
use aries_guardianship_agenc.Js.Number.{
  Num, int, fraction, times_1000, is_positive, is_infinity, infinity, nan, pos, negsuc, nat,
}
use aries_guardianship_agenc.Js.Value.{Optional, absent, nothing, given}
use aries_guardianship_agenc.Effects.{Env, ok, Trace, ◌>>=◌, ◌>>◌, cache_set, schedule_spin_down}
use aries_guardianship_agenc.Config.{AgentCreateDto, AgentConfig, build_config, config_ttl}
use aries_guardianship_agenc.Manager.{
  agent_entry, ttl_or_infinite, set_agent_cache, set_spin_down_job,
}

-- The seconds for which the entry is cached, and the milliseconds until the agent is spun down.
pub record Lifetime : Type 0 where
  pub cached_for : Num
  pub spun_down_in : Option Num

abbrev pub an_hour : Lifetime
an_hour = record { cached_for = nat 3601; spun_down_in = some (nat 3600000) }

abbrev pub lifetime : Optional Num → Lifetime
lifetime absent = an_hour
lifetime nothing = an_hour
lifetime (given nan) = an_hour
lifetime (given infinity) = record { cached_for = infinity; spun_down_in = none }
lifetime (given (int (pos zero))) = record { cached_for = infinity; spun_down_in = none }
lifetime (given (int (pos (suc n)))) = record {
  cached_for = nat (suc n + 1);
  spun_down_in = some (nat (suc n * 1000));
}
lifetime (given (int (negsuc n))) = record { cached_for = int (negsuc n); spun_down_in = none }
lifetime (given (fraction (pos n) p d)) = record {
  cached_for = fraction (pos (n + 1)) p d;
  spun_down_in = some (times_1000 (fraction (pos n) p d));
}
lifetime (given (fraction (negsuc n) p d)) = record {
  cached_for = fraction (negsuc n) p d;
  spun_down_in = none;
}

pub spun_down_in-given :
    (n : Num)
    → is_positive n ≡ true
    → is_infinity n ≡ false
    → (lifetime (given n)).spun_down_in ≡ some (times_1000 n)
spun_down_in-given (int (pos zero)) positive ends = absurd (cc positive)
spun_down_in-given (int (pos (suc n))) positive ends = refl
spun_down_in-given (int (negsuc n)) positive ends = absurd (cc positive)
spun_down_in-given (fraction (pos n) p d) positive ends = refl
spun_down_in-given (fraction (negsuc n) p d) positive ends = absurd (cc positive)
spun_down_in-given infinity positive ends = absurd (cc ends)
spun_down_in-given nan positive ends = absurd (cc positive)

abbrev pub scheduled : String → Option Num → Trace → Trace
scheduled id none t = t
scheduled id (some ms) t = schedule_spin_down id ms ∷ t

pub cached_for-config_ttl :
    (c : AgentConfig) (ttl : Optional Num)
    → c.ttl ≡ config_ttl ttl
    → ttl_or_infinite c ≡ (lifetime ttl).cached_for
unfolding config_ttl
cached_for-config_ttl c ttl e = ground arith

pub set_spin_down_job-lifetime :
    (env : Env) (c : AgentConfig) (ttl : Optional Num) (t : Trace)
    → c.ttl ≡ config_ttl ttl
    → set_spin_down_job env c t ≡ (ok tt, scheduled c.agent_id (lifetime ttl).spun_down_in t)
unfolding set_spin_down_job config_ttl ◌>>=◌
set_spin_down_job-lifetime env c ttl t e = ground arith

-- For every ttl of the request, a fraction too, once the cache has taken the entry: with a positive
-- ttl the entry is given to the cache for one second more than the ttl, and `setTimeout` is asked for
-- the spin-down with the ttl in milliseconds; with 0 the entry is given to the cache for `Infinity`
-- and nothing is scheduled; with a negative ttl the entry is given to it with that ttl and nothing is
-- scheduled; with no ttl, `null` or `NaN` it is as with an hour.
pub set_agent_cache-set_spin_down_job :
    (env : Env) (dto : AgentCreateDto) (genesis : String) (t : Trace)
    → let c = build_config env dto genesis in
      let life = lifetime dto.ttl in
      env.reply t (cache_set dto.agent_id (agent_entry c) life.cached_for) ≡ ok tt
      → (set_agent_cache env c >> set_spin_down_job env c) t ≡ (
        ok tt,
        scheduled dto.agent_id life.spun_down_in
            (cache_set dto.agent_id (agent_entry c) life.cached_for ∷ t),
      )
unfolding set_agent_cache build_config ◌>>=◌
set_agent_cache-set_spin_down_job env dto genesis t taken =
    let c = build_config env dto genesis in
    rw (cached_for-config_ttl c dto.ttl refl)
      (rw taken (set_spin_down_job-lifetime env c dto.ttl _ refl))
