-- ===== src/AgentManager.antt =====
-- src/manager/agent.manager.interface.ts: what the manager asks of the place where agents run.
use aries_guardianship_agenc.Base.{String}
use aries_guardianship_agenc.Config.{AgentConfig}
use aries_guardianship_agenc.Effects.{M}

pub record AgentManager : Type 0 where
  pub start_agent : AgentConfig → M String
  pub stop_agent : String → M (Unit {0})
