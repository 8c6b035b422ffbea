-- ===== src/Events/Race.antt =====
-- The panic of a viewer that leaves between the lock and the sends of a publication.
use dk_agent_memory.Events.{
  Event, Subscriber, EventHub, send_on_closed_channel, put, contains, shut, unsubscribe, snapshot,
  offered, send, send_all,
}
use dk_agent_memory.Events.Sound.{offered-closed, snapshot-open}
use dk_agent_memory.Base.{
  ℕ, ◌+◌, ◌≡◌, inl, inr, true, false, some, List, [], ◌∷◌, arith, ==_iff, Bool-cases, Member, Text,
  here, there, err,
}

contains-Member : (n : ℕ) (ns : List ℕ) → Member n ns → contains n ns ≡ true
unfolding contains
contains-Member n (m ∷ ms) here = ground (arith, ==_iff n n)
contains-Member n (m ∷ ms) (there at) = ground (arith, contains-Member n ms at)
contains-Member n [] at = elim at [ ]

send_all-panic :
    (ev : Event) (n : ℕ) (ns : List ℕ) (h : EventHub)
    → (h.heap n).closed ≡ true
    → Member n ns
    → send_all ev ns h ≡ err send_on_closed_channel
unfolding send_all send put
send_all-panic ev n (m ∷ ns) h c here = rw c
send_all-panic ev n (m ∷ ns) h c (there at) = elim (Bool-cases (h.heap m).closed) [
  | inl e ↦ rw e
  | inr e ↦
      let after = put m (offered ev (h.heap m)) h.heap in
      let c' : (after n).closed ≡ true =
        still m n (offered ev (h.heap m)) h.heap c (offered-closed ev (h.heap m)) in
      simp e (send_all-panic ev n ns (record h { heap = after }) c' at)
]
  where
    still :
        (m n : ℕ) (s : Subscriber) (heap : ℕ → Subscriber)
        → (heap n).closed ≡ true
        → s.closed ≡ (heap m).closed
        → (put m s heap n).closed ≡ true
    still m n s heap c e = ground (arith, ==_iff n m)
send_all-panic ev n [] h c at = elim at [ ]

-- In an open hub with a subscriber `n`, if `n` unsubscribes after a publication has released the lock
-- and before it sends, then the sends panic.
pub publish-panic :
    (name payload : Text) (n : ℕ) (h : EventHub)
    → h.closed ≡ false
    → Member n h.subs
    → (ev : Event) × (ns : List ℕ) × (h' : EventHub) × (snapshot name (some payload) h
        ≡ (some (ev, ns), h'))
      × (send_all ev ns (unsubscribe n h') ≡ err send_on_closed_channel)
unfolding snapshot unsubscribe put shut
publish-panic name payload n h c at =
    let ev : Event = record { name = name; payload = payload; id = h.seq + 1 } in
    let h' : EventHub = record h { seq = h.seq + 1 } in
    (
      ev,
      h.subs,
      h',
      snapshot-open name payload h c,
      send_all-panic ev n h.subs (unsubscribe n h') (gone n h' (contains-Member n h.subs at)) at,
    )
  where
    gone :
        (n : ℕ) (h : EventHub) → contains n h.subs ≡ true → ((unsubscribe n h).heap n).closed ≡ true
    gone n h e = rw e (ground (arith, ==_iff n n))
