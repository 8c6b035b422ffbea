-- ===== src/Client/Queue.antt =====
-- The queue across writes and removals.
use dk_agent_memory.Client.{
  QueuedWrite, Json, Mirror, queue_full, elem, decode_lines, read_queue, enqueue, remaining,
  dequeue, lines_of, replace_queue,
}
use dk_agent_memory.Base.{
  ℕ, ◌≤◌, ◌<◌, ◌≡◌, refl, sym, ap, ◌∙◌, inl, inr, false, Option, none, some, List, [], ◌∷◌, ◌++◌,
  map, arith, leb, ◌==◌, if◌then◌else◌, Bool-cases, Option-cases, length, length-append, All, Text,
  is_empty, refuse_if, ok_inj, >>=-eq-ok, refuse_if-eq-ok, trim_space, ok,
}

-- The line of a write reads back as the write.
pub record ReadsBack (json : Json) (w : QueuedWrite) : Type 0 where
  pub decode-encode : json.decode (trim_space (json.encode w)) ≡ some w
  pub encode-text : is_empty (trim_space (json.encode w)) ≡ false

module _ (json : Json) where
  decode_lines-encode :
      (ws : List QueuedWrite)
      → All (ReadsBack json) ws
      → decode_lines json (map json.encode ws) ≡ ws
  unfolding decode_lines
  decode_lines-encode [] h = refl
  decode_lines-encode (w ∷ ws) (law, h) =
      rw (law.encode-text, law.decode-encode, decode_lines-encode ws h) refl

  decode_lines-append :
      (ls : List Text) (w : QueuedWrite)
      → ReadsBack json w
      → decode_lines json (ls ++ (json.encode w ∷ [])) ≡ decode_lines json ls ++ (w ∷ [])
  unfolding decode_lines
  decode_lines-append [] w law = rw (law.encode-text, law.decode-encode) refl
  decode_lines-append (l ∷ ls) w law = elim (Bool-cases (is_empty (trim_space l))) [
    | inl e ↦ rw e (decode_lines-append ls w law)
    | inr e ↦ elim (Option-cases (json.decode (trim_space l))) [
      | inl e' ↦ rw (e, e') (decode_lines-append ls w law)
      | inr (v, e') ↦ rw (e, e') (ap (λ vs. v ∷ vs) (decode_lines-append ls w law))
    ]
  ]

  abbrev lines : Option (List Text) → List QueuedWrite
  lines none = []
  lines (some ls) = decode_lines json ls

  append_line :
      (file : Option (List Text)) (w : QueuedWrite)
      → ReadsBack json w
      → decode_lines json (lines_of json file ++ (json.encode w ∷ [])) ≡ lines file ++ (w ∷ [])
  unfolding decode_lines
  append_line none w law = decode_lines-append [] w law
  append_line (some ls) w law = decode_lines-append ls w law

  -- If the line of a write that is accepted into the queue reads back, then the write stands behind the
  -- writes that waited before, and the queue stays within its bound.
  pub enqueue_lem :
      (fresh : Text) (now : ℕ) (w w' : QueuedWrite) (m m' : Mirror)
      → enqueue json fresh now w m ≡ ok (w', m')
      → ReadsBack json w'
      → (read_queue json m' ≡ read_queue json m ++ (w' ∷ []))
        × (length (read_queue json m') ≤ m'.queue_max)
  unfolding enqueue read_queue
  enqueue_lem fresh now w w' m m' e law =
      let queued = length (read_queue json m) in
      let (_, room, e1) = >>=-eq-ok (refuse_if (leb m.queue_max queued) (queue_full queued)) _ e in
      let room' = refuse_if-eq-ok (leb m.queue_max queued) (queue_full queued) room in
      let same = ok_inj e1 in
      let stored : QueuedWrite = record w {
        id = if is_empty w.id then fresh else w.id;
        queued_at = if w.queued_at == 0 then now else w.queued_at;
      } in
      let law' : ReadsBack json stored = rw (ap (λ (r : QueuedWrite × Mirror). r.0) same) law in
      let added : read_queue json m' ≡ read_queue json m ++ (w' ∷ []) =
        ap (λ (r : QueuedWrite × Mirror). read_queue json r.1) (sym same)
        ∙ append_line m.queue_file _ law'
        ∙ ap (λ (r : QueuedWrite × Mirror). read_queue json m ++ (r.0 ∷ [])) same in
      let bound : m'.queue_max ≡ m.queue_max =
        ap (λ (r : QueuedWrite × Mirror). r.1.queue_max) (sym same) in
      let few : queued < m.queue_max = ground (arith, room') in
      (added, rw (added, bound) (omega (arith, length-append (read_queue json m) (w' ∷ []), few)))

  replaced :
      (ws : List QueuedWrite) (m m' : Mirror)
      → All (ReadsBack json) ws
      → replace_queue json ws m ≡ ok m'
      → read_queue json m' ≡ ws
  unfolding read_queue
  replaced [] m m' h e = elim (Option-cases m.queue_file) [
    | inl none' ↦ absurd (ground (arith, none', e))
    | inr (ls, some') ↦ let gone : m'.queue_file ≡ none = ground (arith, some', e) in rw gone refl
  ]
  replaced (w ∷ ws) m m' h e =
      let after : m'.queue_file ≡ some (map json.encode (w ∷ ws)) = ground (arith, e) in
      rw after (decode_lines-encode (w ∷ ws) h)

  remaining-nil : (ws : List QueuedWrite) → remaining json [] ws ≡ ws
  unfolding remaining
  remaining-nil [] = refl
  remaining-nil (w ∷ ws) = ap (λ vs. w ∷ vs) (remaining-nil ws)

  remaining-All :
      (done : List Text) (ws : List QueuedWrite)
      → All (ReadsBack json) ws
      → All (ReadsBack json) (remaining json done ws)
  unfolding remaining
  remaining-All done [] h = tt
  remaining-All done (w ∷ ws) (law, h) = elim (Bool-cases (elem w.id done)) [
    | inl e ↦ rw e (remaining-All done ws h)
    | inr e ↦ rw e (law, remaining-All done ws h)
  ]

  -- If the lines of the queued writes read back, then a removal leaves the writes whose identifiers were not
  -- named, in their order.
  pub dequeue_lem :
      (done : List Text) (m m' : Mirror)
      → All (ReadsBack json) (read_queue json m)
      → dequeue json done m ≡ ok m'
      → read_queue json m' ≡ remaining json done (read_queue json m)
  unfolding dequeue
  dequeue_lem [] m m' h e =
      let same : m ≡ m' = ok_inj e in
      ap (read_queue json) (sym same) ∙ sym (remaining-nil (read_queue json m))
  dequeue_lem (id ∷ ids) m m' h e =
      replaced (remaining json (id ∷ ids) (read_queue json m)) m m'
        (remaining-All (id ∷ ids) (read_queue json m) h) e
