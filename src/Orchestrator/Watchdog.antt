-- ===== src/Orchestrator/Watchdog.antt =====
-- The health of the fleet that libs/sentinel/orchestrator/agent.py keeps.
use sentinal_ai_control_room.Prelude.{
  ℕ, ◌-◌, ◌≡◌, refl, ◌∙◌, ap, Bool, false, not, ◌&&◌, ◌||◌, Option, none, some, List, [], ◌∷◌,
  String, string_eq, ltb, if◌then◌else◌, ◌==◌, arith,
}
use sentinal_ai_control_room.Prelude.Dict
use sentinal_ai_control_room.Prelude.Dict.{Dict, get-set, get-set_self}
use sentinal_ai_control_room.Config.{OrchestratorSettings}
use sentinal_ai_control_room.Contracts.Enums.{AgentStatus, unhealthy, stopped, status_eq}
use sentinal_ai_control_room.Contracts.Values.{AgentHealth}
use sentinal_ai_control_room.Orchestrator.Agent.{
  OrchestratorAgent, is_stale, on_heartbeat, mark_entries, mark_stale_agents,
}

abbrev marked : OrchestratorSettings → ℕ → AgentHealth → AgentHealth
marked s now health = record health {
  status = if is_stale s now health then unhealthy else health.status;
}

abbrev marked_entry : OrchestratorSettings → ℕ → Option AgentHealth → Option AgentHealth
marked_entry s now none = none
marked_entry s now (some health) = some (marked s now health)

module _ (s : OrchestratorSettings) where
  get-mark_entries :
      (now : ℕ) (d : Dict String AgentHealth) (name : String)
      → Dict.get (mark_entries s now d) name ≡ marked_entry s now (Dict.get d name)
  unfolding mark_entries Dict.get
  get-mark_entries now [] name = refl
  get-mark_entries now ((n, h) ∷ d) name = ground (arith, get-mark_entries now d name)

  -- The sleeps of the watchdog end at these times, one after the other.
  unfoldable pub woken_at : List ℕ → OrchestratorAgent → OrchestratorAgent
  woken_at [] a = a
  woken_at (now ∷ rest) a = woken_at rest (mark_stale_agents s now a)

  -- Whether one of these times is too long after the last heartbeat.
  unfoldable pub late : ℕ → List ℕ → Bool
  late heard [] = false
  late heard (now ∷ rest) = ltb s.stale_after_s (now - heard) || late heard rest

  abbrev pub status_at : AgentHealth → List ℕ → AgentStatus
  status_at h times =
      if not (h.status == stopped) && late h.last_heartbeat times then unhealthy else h.status

  status_at-marked :
      (h : AgentHealth) (now : ℕ) (rest : List ℕ)
      → status_at (marked s now h) rest ≡ status_at h (now ∷ rest)
  unfolding late
  status_at-marked h now rest = ground arith

  silent :
      (a : OrchestratorAgent) (h : AgentHealth) (times : List ℕ)
      → Dict.get a.health h.agent_name ≡ some h
      → Dict.get (woken_at times a).health h.agent_name
        ≡ some (record h { status = status_at h times })
  unfolding woken_at mark_stale_agents late
  silent a h [] e = ground (arith, e)
  silent a h (now ∷ rest) e =
      silent (mark_stale_agents s now a) (marked s now h) rest
        (get-mark_entries now a.health h.agent_name ∙ ap (marked_entry s now) e)
      ∙ ap (λ st. some (record h { status = st })) (status_at-marked h now rest)

  -- After a heartbeat, however often the watchdog runs until the next one, the entry of the agent is
  -- the health that it sent, marked as unhealthy just if the agent had not stopped and one of the
  -- runs came later than stale_after after the heartbeat's time.
  pub get-woken_at :
      (a : OrchestratorAgent) (h : AgentHealth) (times : List ℕ)
      → Dict.get (woken_at times (on_heartbeat a h)).health h.agent_name
        ≡ some (record h { status = status_at h times })
  unfolding on_heartbeat
  get-woken_at a h times = silent (on_heartbeat a h) h times (get-set_self a.health h.agent_name h)
