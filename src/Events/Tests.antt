-- ===== src/Events/Tests.antt =====
-- The theorems on the hub with one viewer.
use dk_agent_memory.Events.{
  Event, EventHub, new_event_hub, subscribe, unsubscribe, snapshot, send_all,
  send_on_closed_channel,
}
use dk_agent_memory.Events.Reachable.{HubReachable, new, joins, HubReachable-IsSound}
use dk_agent_memory.Events.Race.{publish-panic}
use dk_agent_memory.Events.Sound.{IsSound}
use dk_agent_memory.Base.{ℕ, ◌≡◌, refl, false, some, List, [], ◌∷◌, arith, codes, here, err}

abbrev hub : EventHub
hub = record {
  heap = λ _. record { buffer = []; closed = false };
  next = 1;
  subs = 0 ∷ [];
  closed = false;
  seq = 4;
}

hub-IsSound : IsSound hub
hub-IsSound = record { all_open = ((omega arith, refl), tt); distinct = (tt, tt) }

publish-panic_example :
    (ev : Event) × (ns : List ℕ) × (h' : EventHub) × (snapshot
        (codes "memory")
        (some (codes "{}"))
        hub
      ≡ (some (ev, ns), h'))
    × (send_all ev ns (unsubscribe 0 h') ≡ err send_on_closed_channel)
publish-panic_example = publish-panic (codes "memory") (codes "{}") 0 hub refl here

abbrev joined : HubReachable (subscribe new_event_hub).1
joined = joins new

HubReachable-IsSound_example : IsSound (subscribe new_event_hub).1
HubReachable-IsSound_example = HubReachable-IsSound joined
