-- ===== src/Events.antt =====
-- internal/api/events.go: the hub that fans events out to the viewers of the dashboard.
--
-- A subscriber is shared by the hub and by the request that made it, so channels live in a heap and
-- the hub keeps their numbers. What holds the hub's lock is one step; the sends of `publish` come
-- after it, each a step of its own. A send on a closed channel panics.
pub mod Sound
pub mod Race
pub mod Reachable
mod Tests
use dk_agent_memory.Base.{
  ℕ, ◌+◌, Bool, true, false, ◌||◌, Option, none, some, List, [], ◌∷◌, ◌++◌, ltb, ◌==◌,
  if◌then◌else◌, length, Text, Result, ◌>>=◌, ok, err,
}

pub record Event : Type 0 where
  pub name : Text
  pub payload : Text
  pub id : ℕ

-- `subscriber`: the events that wait in its channel, and whether that is closed.
pub record Subscriber : Type 0 where
  pub buffer : List Event
  pub closed : Bool

pub record EventHub : Type 0 where
  pub heap : ℕ → Subscriber
  pub next : ℕ
  pub subs : List ℕ
  pub closed : Bool
  pub seq : ℕ

pub data Panic : Type 0 where
  send_on_closed_channel : Panic

abbrev pub capacity : ℕ
capacity = 64

unfoldable pub put : ℕ → Subscriber → (ℕ → Subscriber) → ℕ → Subscriber
put n s heap m = if m == n then s else heap m

unfoldable pub contains : ℕ → List ℕ → Bool
contains n [] = false
contains n (m ∷ ms) = n == m || contains n ms

unfoldable pub remove : ℕ → List ℕ → List ℕ
remove n [] = []
remove n (m ∷ ms) = if n == m then remove n ms else m ∷ remove n ms

-- `if !s.closed { s.closed = true; close(s.ch) }`
unfoldable pub shut : Subscriber → Subscriber
shut s = if s.closed then s else record s { closed = true }

unfoldable pub shut_all : List ℕ → (ℕ → Subscriber) → ℕ → Subscriber
shut_all [] heap = heap
shut_all (n ∷ ns) heap = shut_all ns (put n (shut (heap n)) heap)

pub new_event_hub : EventHub
new_event_hub = record {
  heap = λ _. record { buffer = []; closed = false };
  next = 0;
  subs = [];
  closed = false;
  seq = 0;
}

-- The new subscriber's number, and the hub.
unfoldable pub subscribe : EventHub → ℕ × EventHub
subscribe h = (
  h.next,
  record h {
    heap = put h.next (record { buffer = []; closed = false }) h.heap;
    next = h.next + 1;
    subs = if h.closed then h.subs else h.next ∷ h.subs;
  },
)

unfoldable pub unsubscribe : ℕ → EventHub → EventHub
unsubscribe n h =
    if contains n h.subs
    then record h { heap = put n (shut (h.heap n)) h.heap; subs = remove n h.subs }
    else h

unfoldable pub close : EventHub → EventHub
close h =
    if h.closed then h else record h { closed = true; heap = shut_all h.subs h.heap; subs = [] }

-- The locked part of `publish`: the event and the subscribers that it goes to. `payload` is what
-- `json.Marshal` returns.
unfoldable pub snapshot : Text → Option Text → EventHub → Option (Event × List ℕ) × EventHub
snapshot name none h = (none, h)
snapshot name (some payload) h = if h.closed then (none, h) else (
  some (record { name = name; payload = payload; id = h.seq + 1 }, h.subs),
  record h { seq = h.seq + 1 },
)

-- `select { case s.ch <- ev: default: }` on an open channel
unfoldable pub offered : Event → Subscriber → Subscriber
offered ev s =
    if ltb (length s.buffer) capacity then record s { buffer = s.buffer ++ (ev ∷ []) } else s

unfoldable pub send : Event → ℕ → EventHub → Result Panic EventHub
send ev n h =
    if (h.heap n).closed
    then err send_on_closed_channel
    else ok (record h { heap = put n (offered ev (h.heap n)) h.heap })

unfoldable pub send_all : Event → List ℕ → EventHub → Result Panic EventHub
send_all ev [] h = ok h
send_all ev (n ∷ ns) h = do sent ← send ev n h; send_all ev ns sent

abbrev pub send_to : Option (Event × List ℕ) → EventHub → Result Panic EventHub
send_to none h = ok h
send_to (some (ev, ns)) h = send_all ev ns h

-- `publish` when nothing comes between its lock and its sends.
unfoldable pub publish : Text → Option Text → EventHub → Result Panic EventHub
publish name payload h = let (sends, h') = snapshot name payload h in send_to sends h'
