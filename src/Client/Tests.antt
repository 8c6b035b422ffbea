-- ===== src/Client/Tests.antt =====
-- The theorems on the queue with a stand-in for JSON.
use dk_agent_memory.Client.{
  QueuedWrite, Json, Mirror, decode_lines, read_queue, enqueue, remaining, dequeue, Reply, accepted,
  push_all, push,
}
use dk_agent_memory.Client.Queue.{ReadsBack}
use dk_agent_memory.Client.Push.{Tells, left_over, push_lem}
use dk_agent_memory.Base.{
  ℕ, ◌+◌, ◌≡◌, refl, none, some, List, [], ◌∷◌, All, codes, text_eq, is_space, trim_left,
  trim_space, ok,
}

abbrev a_write : QueuedWrite
a_write = record {
  id = codes "1";
  kind = [];
  title = codes "t";
  body = [];
  project = [];
  files = [];
  visibility = [];
  queued_at = 3;
}

-- Writes that differ in the title only.
abbrev titles : Json
titles = record { encode = λ w. w.title; decode = λ t. some (record a_write { title = t }) }

abbrev another : QueuedWrite
another = record a_write { id = codes "1"; title = codes "u" }

abbrev mirror : Mirror
mirror = record { queue_file = some (codes "t" ∷ []); queue_max = 5 }

abbrev longer : Mirror
longer = record { queue_file = some (codes "t" ∷ codes "u" ∷ []); queue_max = 5 }

abbrev emptied : Mirror
emptied = record { queue_file = none; queue_max = 5 }

t-ReadsBack : ReadsBack titles a_write
unfolding trim_space trim_left is_space
t-ReadsBack = record { decode-encode = refl; encode-text = refl }

u-ReadsBack : ReadsBack titles another
unfolding trim_space trim_left is_space
u-ReadsBack = record { decode-encode = refl; encode-text = refl }

mirror-queue : read_queue titles mirror ≡ a_write ∷ []
unfolding read_queue decode_lines trim_space trim_left is_space
mirror-queue = refl

mirror-ReadsBack : All (ReadsBack titles) (read_queue titles mirror)
mirror-ReadsBack = rw mirror-queue (t-ReadsBack, tt)

another-enqueued : enqueue titles [] 9 another mirror ≡ ok (another, longer)
unfolding enqueue read_queue decode_lines trim_space trim_left is_space
another-enqueued = refl

write-dequeued : dequeue titles (codes "1" ∷ []) mirror ≡ ok emptied
unfolding dequeue remaining read_queue decode_lines trim_space trim_left is_space text_eq
write-dequeued = refl

-- A server that counts the writes and accepts each.
abbrev count_writes : QueuedWrite → ℕ → Reply × ℕ
count_writes w n = (accepted, n + 1)

mirror-pushed : (push count_writes titles mirror 0).1 ≡ ok emptied
unfolding push push_all dequeue remaining read_queue decode_lines trim_space trim_left is_space
    text_eq
mirror-pushed = refl

push_lem_example :
    (run : List (QueuedWrite × Reply)) × Tells count_writes
      (read_queue titles mirror)
      0
      (push count_writes titles mirror 0).0
      run
    × (read_queue titles emptied
        ≡ left_over (push count_writes titles mirror 0).0.stopped run (read_queue titles mirror))
push_lem_example = push_lem count_writes titles mirror emptied 0 mirror-ReadsBack mirror-pushed
