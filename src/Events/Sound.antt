-- ===== src/Events/Sound.antt =====
-- Published events and whom they reach; what the hub's subscribers have in common.
use dk_agent_memory.Events.{
  Event, Subscriber, EventHub, put, contains, remove, shut, subscribe, unsubscribe, close, snapshot,
  offered, send, send_all, send_to, publish,
}
use dk_agent_memory.Base.{
  ℕ, ◌+◌, ◌<◌, ◌≡◌, refl, sym, ap, ◌∙◌, ◌≢◌, inl, inr, true, false, Option, some, List, [], ◌∷◌,
  arith, ◌==◌, if◌then◌else◌, ==_iff, Bool-cases, All, Member, All-Member, Text, here, there, ok,
}

abbrev Fresh : ℕ → List ℕ → Type 0
Fresh n = All (λ m. n ≢ m)

abbrev IsDistinct : List ℕ → Type 0
IsDistinct [] = Unit
IsDistinct (n ∷ ns) = Fresh n ns × IsDistinct ns

-- A subscriber of the hub: it exists, and its channel is open.
abbrev pub IsOpen : ℕ → (ℕ → Subscriber) → ℕ → Type 0
IsOpen next heap n = (n < next) × ((heap n).closed ≡ false)

-- The hub's subscribers are distinct and open.
pub record IsSound (h : EventHub) : Type 0 where
  pub all_open : All (IsOpen h.next h.heap) h.subs
  pub distinct : IsDistinct h.subs

put-other : (n m : ℕ) (s : Subscriber) (heap : ℕ → Subscriber) → m ≢ n → put n s heap m ≡ heap m
unfolding put
put-other n m s heap other = ground (arith, ==_iff m n)

put-same : (n : ℕ) (s : Subscriber) (heap : ℕ → Subscriber) → put n s heap n ≡ s
unfolding put
put-same n s heap = ground (arith, ==_iff n n)

-- What the sends leave, where every channel is open.
unfoldable pub delivered : Event → List ℕ → (ℕ → Subscriber) → ℕ → Subscriber
delivered ev [] heap = heap
delivered ev (n ∷ ns) heap = delivered ev ns (put n (offered ev (heap n)) heap)

pub offered-closed : (ev : Event) (s : Subscriber) → (offered ev s).closed ≡ s.closed
unfolding offered
offered-closed ev s = ground arith

pub IsOpen-put :
    (next n : ℕ) (s : Subscriber) (heap : ℕ → Subscriber) (ms : List ℕ)
    → s.closed ≡ false
    → All (IsOpen next heap) ms
    → All (IsOpen next (put n s heap)) ms
unfolding put
IsOpen-put next n s heap [] c h = tt
IsOpen-put next n s heap (m ∷ ms) c ((lt, o), h) = (
  (lt, elim (Bool-cases (m == n)) [ inl e ↦ rw e c | inr e ↦ rw e o ]),
  IsOpen-put next n s heap ms c h,
)

pub send_all-delivered :
    (ev : Event) (ns : List ℕ) (h : EventHub)
    → All (IsOpen h.next h.heap) ns
    → send_all ev ns h ≡ ok (record h { heap = delivered ev ns h.heap })
unfolding send_all send delivered
send_all-delivered ev [] h o = refl
send_all-delivered ev (n ∷ ns) h ((lt, o), os) =
    let c = offered-closed ev (h.heap n) ∙ o in
    let after = put n (offered ev (h.heap n)) h.heap in
    simp o (
      send_all-delivered ev ns (record h { heap = after })
        (IsOpen-put h.next n (offered ev (h.heap n)) h.heap ns c os))

delivered-other :
    (ev : Event) (ns : List ℕ) (heap : ℕ → Subscriber) (m : ℕ)
    → Fresh m ns
    → delivered ev ns heap m ≡ heap m
unfolding delivered
delivered-other ev [] heap m f = refl
delivered-other ev (n ∷ ns) heap m (other, f) =
    delivered-other ev ns (put n (offered ev (heap n)) heap) m f
    ∙ put-other n m (offered ev (heap n)) heap other

delivered-Member :
    (ev : Event) (ns : List ℕ) (heap : ℕ → Subscriber) {m : ℕ}
    → IsDistinct ns
    → Member m ns
    → delivered ev ns heap m ≡ offered ev (heap m)
unfolding delivered
delivered-Member ev (n ∷ ns) heap (f, d) here =
    delivered-other ev ns (put n (offered ev (heap n)) heap) n f
    ∙ put-same n (offered ev (heap n)) heap
delivered-Member ev (n ∷ ns) heap {m} (f, d) (there at) =
    let other : m ≢ n = λ e. (All-Member (λ k. n ≢ k) f at) (sym e) in
    delivered-Member ev ns (put n (offered ev (heap n)) heap) d at
    ∙ ap (offered ev) (put-other n m (offered ev (heap n)) heap other)
delivered-Member ev [] heap d at = elim at [ ]

pub snapshot-open :
    (name payload : Text) (h : EventHub)
    → h.closed ≡ false
    → snapshot name (some payload) h ≡ (
      some (record { name = name; payload = payload; id = h.seq + 1 }, h.subs),
      record h { seq = h.seq + 1 },
    )
unfolding snapshot
snapshot-open name payload h c = ground (arith, c)

contains-at : (n : ℕ) (ns : List ℕ) → contains n ns ≡ true → Member n ns
unfolding contains
contains-at n [] e = cc
contains-at n (m ∷ ns) e = elim (Bool-cases (n == m)) [
  | inl yes' ↦ let same : n ≡ m = ground (arith, ==_iff n m) in rw (← same) here
  | inr no' ↦ there (contains-at n ns (ground arith))
]

contains-Fresh : (n : ℕ) (ns : List ℕ) → contains n ns ≡ false → Fresh n ns
unfolding contains
contains-Fresh n [] e = tt
contains-Fresh n (m ∷ ns) e =
    ((λ same. ground (arith, ==_iff n m)), contains-Fresh n ns (ground arith))

-- If nothing comes between the lock and the sends, then publishing in a sound, open hub does not
-- panic; every subscriber gets the event behind what waits in its channel, or is skipped if that is
-- full; and a channel that is no subscriber's is left alone.
pub publish-delivers :
    (name payload : Text) (h : EventHub)
    → IsSound h
    → h.closed ≡ false
    → (h' : EventHub) × (publish name (some payload) h ≡ ok h')
      × ((n : ℕ)
          → h'.heap n ≡ (
              if contains n h.subs
              then offered (record { name = name; payload = payload; id = h.seq + 1 }) (h.heap n)
              else h.heap n))
unfolding publish
publish-delivers name payload h s c =
    let ev : Event = record { name = name; payload = payload; id = h.seq + 1 } in
    (
      record h { seq = h.seq + 1; heap = delivered ev h.subs h.heap },
      ap (λ (r : Option (Event × List ℕ) × EventHub). send_to r.0 r.1)
            (snapshot-open name payload h c)
          ∙ send_all-delivered ev h.subs (record h { seq = h.seq + 1 }) s.all_open,
      λ n. elim (Bool-cases (contains n h.subs)) [
        | inl e ↦ rw e (delivered-Member ev h.subs h.heap s.distinct (contains-at n h.subs e))
        | inr e ↦ rw e (delivered-other ev h.subs h.heap n (contains-Fresh n h.subs e))
      ],
    )

remove-Fresh : (n m : ℕ) (ns : List ℕ) → Fresh m ns → Fresh m (remove n ns)
unfolding remove
remove-Fresh n m [] f = tt
remove-Fresh n m (k ∷ ns) (f, fs) = elim (Bool-cases (n == k)) [
  | inl e ↦ rw e (remove-Fresh n m ns fs)
  | inr e ↦ rw e (f, remove-Fresh n m ns fs)
]

remove-IsDistinct : (n : ℕ) (ns : List ℕ) → IsDistinct ns → IsDistinct (remove n ns)
unfolding remove
remove-IsDistinct n [] d = tt
remove-IsDistinct n (k ∷ ns) (f, d) = elim (Bool-cases (n == k)) [
  | inl e ↦ rw e (remove-IsDistinct n ns d)
  | inr e ↦ rw e (remove-Fresh n k ns f, remove-IsDistinct n ns d)
]

-- Closing one channel leaves the others open.
remove-IsOpen :
    (next n : ℕ) (s : Subscriber) (heap : ℕ → Subscriber) (ms : List ℕ)
    → All (IsOpen next heap) ms
    → All (IsOpen next (put n s heap)) (remove n ms)
unfolding remove
remove-IsOpen next n s heap [] h = tt
remove-IsOpen next n s heap (m ∷ ms) ((lt, o), h) = elim (Bool-cases (n == m)) [
  | inl e ↦ rw e (remove-IsOpen next n s heap ms h)
  | inr e ↦
      let other : m ≢ n = λ e'. ground (arith, ==_iff n m) in
      rw e (
        (lt, ap (λ (k : Subscriber). k.closed) (put-other n m s heap other) ∙ o),
        remove-IsOpen next n s heap ms h,
      )
]

below-Fresh :
    (next : ℕ) (heap : ℕ → Subscriber) (ms : List ℕ) → All (IsOpen next heap) ms → Fresh next ms
below-Fresh next heap [] h = tt
below-Fresh next heap (m ∷ ms) ((lt, o), h) =
    ((λ e. omega (arith, lt, e)), below-Fresh next heap ms h)

later-IsOpen :
    (next : ℕ) (s : Subscriber) (heap : ℕ → Subscriber) (ms : List ℕ)
    → All (IsOpen next heap) ms
    → All (IsOpen (next + 1) (put next s heap)) ms
later-IsOpen next s heap [] h = tt
later-IsOpen next s heap (m ∷ ms) ((lt, o), h) =
    let other : m ≢ next = λ e. omega (arith, lt, e) in
    (
      (omega arith, ap (λ (k : Subscriber). k.closed) (put-other next m s heap other) ∙ o),
      later-IsOpen next s heap ms h,
    )

pub subscribe-IsSound : (h : EventHub) → IsSound h → IsSound (subscribe h).1
unfolding subscribe
subscribe-IsSound h s = elim (Bool-cases h.closed) [
  | inl e ↦ record {
    all_open = rw e (later-IsOpen h.next _ h.heap h.subs s.all_open);
    distinct = rw e s.distinct;
  }
  | inr e ↦ record {
    all_open = rw e (
      (omega arith, ap (λ (k : Subscriber). k.closed) (put-same h.next _ h.heap)),
      later-IsOpen h.next _ h.heap h.subs s.all_open,
    );
    distinct = rw e (below-Fresh h.next h.heap h.subs s.all_open, s.distinct);
  }
]

pub unsubscribe-IsSound : (n : ℕ) (h : EventHub) → IsSound h → IsSound (unsubscribe n h)
unfolding unsubscribe
unsubscribe-IsSound n h s = elim (Bool-cases (contains n h.subs)) [
  | inl e ↦ record {
    all_open = rw e (remove-IsOpen h.next n (shut (h.heap n)) h.heap h.subs s.all_open);
    distinct = rw e (remove-IsDistinct n h.subs s.distinct);
  }
  | inr e ↦ record { all_open = rw e s.all_open; distinct = rw e s.distinct }
]

pub close-IsSound : (h : EventHub) → IsSound h → IsSound (close h)
unfolding close
close-IsSound h s = elim (Bool-cases h.closed) [
  | inl e ↦ record { all_open = rw e s.all_open; distinct = rw e s.distinct }
  | inr e ↦ record { all_open = rw e tt; distinct = rw e tt }
]
