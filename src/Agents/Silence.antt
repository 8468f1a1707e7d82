-- ===== src/Agents/Silence.antt =====
-- The heartbeats of `BaseAgent` of libs/sentinel/agents/base.py.
use sentinal_ai_control_room.Prelude.{
  ℕ, ◌≡◌, refl, ◌∙◌, Bool, true, false, List, [], ◌∷◌, String, All, arith,
}
use sentinal_ai_control_room.Agents.Base.{
  BaseAgent, Input, starts, stops, sets, wakes, set_status, stop, wake, handle, live,
}

abbrev pub is_start : Input → Bool
is_start starts = true
is_start _ = false

module _ (name : String) (id : String) (interval : ℕ) where
  stop_idle :
      (a : BaseAgent)
      → ((stop name id interval a).has_task ≡ false)
        × ((stop name id interval a).published ≡ a.published)
  unfolding stop set_status
  stop_idle a = (ground arith, ground arith)

  -- Without a task, nothing but a start makes one or publishes.
  handle_idle :
      (i : Input) (a : BaseAgent)
      → is_start i ≡ false
      → a.has_task ≡ false
      → ((handle name id interval i a).has_task ≡ false)
        × ((handle name id interval i a).published ≡ a.published)
  unfolding handle stop set_status wake
  handle_idle starts a h idle = absurd (cc)
  handle_idle stops a h idle = stop_idle a
  handle_idle (sets status details) a h idle = (idle, refl)
  handle_idle (wakes now) a h idle = (ground arith, ground arith)

  live_idle :
      (is : List Input) (a : BaseAgent)
      → All (λ i. is_start i ≡ false) is
      → a.has_task ≡ false
      → (live name id interval is a).published ≡ a.published
  unfolding live
  live_idle [] a h idle = refl
  live_idle (i ∷ is) a h idle =
      let (idle', same) = handle_idle i a h.0 idle in
      live_idle is (handle name id interval i a) h.1 idle' ∙ same

  -- Once an agent is stopped it sends no heartbeat until it is started again, whatever happens to it.
  pub live-stop :
      (is : List Input) (a : BaseAgent)
      → All (λ i. is_start i ≡ false) is
      → (live name id interval is (stop name id interval a)).published ≡ a.published
  unfolding stop set_status
  live-stop is a h =
      let (idle, same) = stop_idle a in live_idle is (stop name id interval a) h idle ∙ same
