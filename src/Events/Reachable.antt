-- ===== src/Events/Reachable.antt =====
-- The hubs that viewers and publications lead to.
use dk_agent_memory.Events.{
  Event, Subscriber, EventHub, new_event_hub, put, subscribe, unsubscribe, close, snapshot, offered,
  send_to, publish,
}
use dk_agent_memory.Events.Sound.{
  IsOpen, IsSound, subscribe-IsSound, unsubscribe-IsSound, close-IsSound, delivered, IsOpen-put,
  offered-closed, send_all-delivered, snapshot-open,
}
use dk_agent_memory.Base.{
  ℕ, ◌+◌, ◌≡◌, sym, ap, ◌∙◌, inl, inr, Option, none, some, List, [], ◌∷◌, arith, Bool-cases, All,
  Text, ok_inj, ok,
}

-- Viewers come and go, the hub is closed, and publications run without interference.
pub data HubReachable : EventHub → Type 0 where
  new : HubReachable new_event_hub
  joins : {h : EventHub} → HubReachable h → HubReachable (subscribe h).1
  leaves : {h : EventHub} (n : ℕ) → HubReachable h → HubReachable (unsubscribe n h)
  closes : {h : EventHub} → HubReachable h → HubReachable (close h)
  publishes :
      {h h' : EventHub} (name : Text) (payload : Option Text)
      → HubReachable h
      → publish name payload h ≡ ok h'
      → HubReachable h'

delivered-IsOpen :
    (ev : Event) (next : ℕ) (ns ms : List ℕ) (heap : ℕ → Subscriber)
    → All (IsOpen next heap) ns
    → All (IsOpen next heap) ms
    → All (IsOpen next (delivered ev ns heap)) ms
unfolding delivered
delivered-IsOpen ev next [] ms heap o h = h
delivered-IsOpen ev next (n ∷ ns) ms heap ((lt, o), os) h =
    let s = offered ev (heap n) in
    let c = offered-closed ev (heap n) ∙ o in
    delivered-IsOpen ev next ns ms (put n s heap) (IsOpen-put next n s heap ns c os)
      (IsOpen-put next n s heap ms c h)

publish-IsSound :
    (name : Text) (payload : Option Text) (h h' : EventHub)
    → publish name payload h ≡ ok h'
    → IsSound h
    → IsSound h'
unfolding publish snapshot
publish-IsSound name none h h' e s = let same : h ≡ h' = ok_inj e in rw (← same) s
publish-IsSound name (some payload) h h' e s = elim (Bool-cases h.closed) [
  | inl shut' ↦ let same : h ≡ h' = ground (arith, shut', e) in rw (← same) s
  | inr open' ↦
      let ev : Event = record { name = name; payload = payload; id = h.seq + 1 } in
      let all_open = delivered-IsOpen ev h.next h.subs h.subs h.heap s.all_open s.all_open in
      let sent =
        ap (λ (r : Option (Event × List ℕ) × EventHub). send_to r.0 r.1)
          (snapshot-open name payload h open')
        ∙ send_all-delivered ev h.subs (record h { seq = h.seq + 1 }) s.all_open in
      let same = ok_inj (sym sent ∙ e) in
      rw (← same) (record { all_open = all_open; distinct = s.distinct })
]

-- Every hub that viewers and uninterrupted publications lead to has distinct subscribers with open
-- channels.
pub HubReachable-IsSound : {h : EventHub} → HubReachable h → IsSound h
unfolding new_event_hub
HubReachable-IsSound new = record { all_open = tt; distinct = tt }
HubReachable-IsSound (joins r) = subscribe-IsSound _ (HubReachable-IsSound r)
HubReachable-IsSound (leaves n r) = unsubscribe-IsSound n _ (HubReachable-IsSound r)
HubReachable-IsSound (closes r) = close-IsSound _ (HubReachable-IsSound r)
HubReachable-IsSound (publishes name payload r e) =
    publish-IsSound name payload _ _ e (HubReachable-IsSound r)
