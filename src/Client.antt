-- ===== src/Client.antt =====
-- internal/client: writing while the server cannot be reached.
--
-- The queue is a file of lines, each the JSON of one write. JSON and the server are parameters.
-- Errors of the file system, other than removing a file that is not there, are left out.
pub mod Queue
pub mod Push
pub mod Cache
pub mod Slots
pub mod Placed
pub mod Merged
mod Tests
mod MergeTests
use dk_agent_memory.Base.{
  ℕ, ◌+◌, Bool, true, false, ◌||◌, Option, none, some, List, [], ◌∷◌, ◌++◌, map, ltb, leb, ◌==◌,
  if◌then◌else◌, length, Text, text_eq, is_empty, Result, ◌>>◌, refuse_if, trim_space, ok, err,
}

pub record QueuedWrite : Type 0 where
  pub id : Text
  pub kind : Text
  pub title : Text
  pub body : Text
  pub project : Text
  pub files : List Text
  pub visibility : Text
  pub queued_at : ℕ

-- `encoding/json` on a queued write: one line, without its line feed; and what is no such line.
pub record Json : Type 0 where
  pub encode : QueuedWrite → Text
  pub decode : Text → Option QueuedWrite

-- The queue's file, `none` if there is none, and the bound that the configuration sets.
pub record Mirror : Type 0 where
  pub queue_file : Option (List Text)
  pub queue_max : ℕ

pub data MirrorError : Type 0 where
  queue_full : ℕ → MirrorError
  no_file : MirrorError

-- The part of `NewMirror` that does not touch the disk.
abbrev pub at_least_one : ℕ → ℕ
at_least_one queue_max = if ltb queue_max 1 then 1000 else queue_max

abbrev pub elem : Text → List Text → Bool
elem id [] = false
elem id (j ∷ js) = text_eq id j || elem id js

abbrev pub read_line : {A : Type 0} → Option A → List A → List A
read_line none ws = ws
read_line (some w) ws = w ∷ ws

module _ (json : Json) where
  -- Blank lines and lines that do not decode are skipped.
  unfoldable pub decode_lines : List Text → List QueuedWrite
  decode_lines [] = []
  decode_lines (l ∷ ls) =
      let rest = decode_lines ls in
      let line = trim_space l in if is_empty line then rest else read_line (json.decode line) rest

  unfoldable pub read_queue : Mirror → List QueuedWrite
  read_queue m = elim m.queue_file [ none ↦ [] | some ls ↦ decode_lines ls ]

  abbrev pub lines_of : Option (List Text) → List Text
  lines_of none = []
  lines_of (some ls) = ls

  -- `fresh` is `ulid.New()`. A time of 0 is the zero time.
  unfoldable pub enqueue :
      Text → ℕ → QueuedWrite → Mirror → Result MirrorError (QueuedWrite × Mirror)
  enqueue fresh now w m = do
    let w' = record w {
      id = if is_empty w.id then fresh else w.id;
      queued_at = if w.queued_at == 0 then now else w.queued_at;
    }
    let queued = length (read_queue m)
    refuse_if (leb m.queue_max queued) (queue_full queued)
    ok (w', record m { queue_file = some (lines_of m.queue_file ++ (json.encode w' ∷ [])) })

  abbrev encode_all : List QueuedWrite → List Text
  encode_all = map json.encode

  unfoldable pub remaining : List Text → List QueuedWrite → List QueuedWrite
  remaining done [] = []
  remaining done (w ∷ ws) =
      let rest = remaining done ws in if elem w.id done then rest else w ∷ rest

  -- `os.Remove` where nothing remains, else `writeAtomic`.
  abbrev pub replace_queue : List QueuedWrite → Mirror → Result MirrorError Mirror
  replace_queue [] m = elim m.queue_file [
    | none ↦ err no_file
    | some ls ↦ ok (record m { queue_file = none })
  ]
  replace_queue (w ∷ ws) m = ok (record m { queue_file = some (encode_all (w ∷ ws)) })

  unfoldable pub dequeue : List Text → Mirror → Result MirrorError Mirror
  dequeue [] m = ok m
  dequeue (id ∷ ids) m = replace_queue (remaining (id ∷ ids) (read_queue m)) m

-- What a POST came to: `offline` if the server could not be reached.
pub data Reply : Type 0 where
  accepted refused offline : Reply

-- The server that the client talks to: its state, and a POST of one write.
module _ {S : Type 0} (post : QueuedWrite → S → Reply × S) where
  pub record Pass : Type 0 where
    pub server : S
    pub done : List Text
    pub pushed : ℕ
    pub failed : ℕ
    pub stopped : Bool

  -- The loop of `Push`.
  unfoldable pub push_all : List QueuedWrite → List Text → ℕ → ℕ → S → Pass
  push_all [] done pushed failed s = record {
    server = s;
    done = done;
    pushed = pushed;
    failed = failed;
    stopped = false;
  }
  push_all (w ∷ ws) done pushed failed s =
      let s' = (post w s).1 in
      let after_accepted = push_all ws (done ++ (w.id ∷ [])) (pushed + 1) failed s' in
      let after_refused = push_all ws done pushed (failed + 1) s' in
      elim (post w s).0 [
        | accepted ↦ after_accepted
        | refused ↦ after_refused
        | offline ↦ record {
          server = s';
          done = done;
          pushed = pushed;
          failed = failed;
          stopped = true;
        }
      ]

  -- The pass, and the mirror that it leaves, or the error of `Dequeue`. A pass that is stopped leaves
  -- the queue alone.
  unfoldable pub push : Json → Mirror → S → Pass × Result MirrorError Mirror
  push json m s =
      let p = push_all (read_queue json m) [] 0 0 s in
      (p, if p.stopped then ok m else dequeue json p.done m)
