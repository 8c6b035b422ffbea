-- ===== src/Consolidate/Prompt.antt =====
-- internal/consolidate/worker.go: the texts that the model is asked with. The forms of dates are parameters.
use dk_agent_memory.Consolidate.Backend.{Session, Observation, Fact}
use dk_agent_memory.Base.{
  ℕ, suc, ◌+◌, ◌-◌, ◌||◌, none, some, List, [], ◌∷◌, ◌++◌, ltb, leb, if◌then◌else◌, length, take, ℤ,
  negative, show, Text, codes, text_eq, is_empty, trim_space, fields, join, pos, negsuc,
}

pub record Wording : Type 0 where
  pub rfc3339 : ℕ → Text
  pub calendar_day : ℕ → Text

unfoldable pub or_none : Text → Text
or_none s = if is_empty s then codes "(none)" else s

unfoldable pub or_fallback : Text → Text → Text
or_fallback s fallback = if is_empty (trim_space s) then fallback else s

-- With the three bytes of an ellipsis.
unfoldable pub collapse : Text → ℕ → Text
collapse s max =
    if ltb max (length (join (codes " ") (fields s)))
    then take max (join (codes " ") (fields s)) ++ (0xe2 ∷ 0x80 ∷ 0xa6 ∷ [])
    else join (codes " ") (fields s)

abbrev pub newline : Text
newline = 10 ∷ []

abbrev pub budget : ℕ
budget = 24000

-- A difference of Go's `int`, and its digits.
unfoldable pub minus : ℕ → ℕ → ℤ
minus a b = if leb b a then pos (a - b) else negative (b - a)

unfoldable pub show_int : ℤ → Text
show_int (pos n) = show n
show_int (negsuc n) = b'-' ∷ show (suc n)

unfoldable pub observation_line : Observation → Text
unfolding collapse
observation_line o =
    let said = codes "[" ++ (o.kind ++ (codes "] " ++ collapse o.content 500)) in
    if ltb 0 (length o.files)
    then said ++ (codes " (files: " ++ (join (codes ", ") o.files ++ codes ")"))
    else said

unfoldable pub omitted : ℕ → ℕ → Text
unfolding minus show_int
omitted total used =
    newline
    ++ ((0xe2 ∷ 0x80 ∷ 0xa6 ∷ [])
        ++ (codes " "
            ++ (show_int (minus total used)
                ++ (codes " further observations omitted for length." ++ newline))))

-- The lines of the observations that are left, `used` bytes of the budget being spent.
unfoldable pub observation_lines : ℕ → ℕ → List Observation → Text
unfolding observation_line omitted
observation_lines total used [] = []
observation_lines total used (o ∷ os) =
    let line = observation_line o in
    let rest = observation_lines total (used + length line) os in
    if ltb budget (used + length line) then omitted total used else line ++ (newline ++ rest)

module _ (wording : Wording) where
  unfoldable pub render_observations : Session → List Observation → Text
  unfolding or_none observation_lines
  render_observations sess obs =
      codes "Project: "
      ++ (or_none sess.project
          ++ (newline
              ++ (codes "Agent: "
                  ++ (or_none sess.agent
                      ++ (newline
                          ++ (codes "Started: "
                              ++ (wording.rfc3339 sess.started_at
                                  ++ (newline
                                      ++ (newline ++ observation_lines (length obs) 0 obs)))))))))

  unfoldable pub summary_lines : List Session → Text
  summary_lines [] = []
  summary_lines (s ∷ ss) = elim s.summary [
    | none ↦ summary_lines ss
    | some text ↦
        let rest = summary_lines ss in
        if is_empty text || text_eq text (codes "(nothing notable)")
        then rest
        else codes "- ["
          ++ (wording.calendar_day s.started_at ++ (codes "] " ++ (text ++ (newline ++ rest))))
  ]

  unfoldable pub facts_prompt : Text → List Session → Text
  unfolding or_none summary_lines
  facts_prompt project sessions =
      codes "Project: "
      ++ (or_none project
          ++ (newline
              ++ (newline ++ (codes "Session summaries:" ++ (newline ++ summary_lines sessions)))))

unfoldable pub fact_lines : List Fact → Text
unfolding collapse
fact_lines [] = []
fact_lines (f ∷ fs) =
    codes "- ["
    ++ (f.kind
        ++ (codes "] "
            ++ (f.title ++ (codes ": " ++ (collapse f.body 300 ++ (newline ++ fact_lines fs))))))

unfoldable pub lessons_prompt : Text → List Fact → Text
unfolding or_none fact_lines
lessons_prompt project facts =
    codes "Project: "
    ++ (or_none project
        ++ (newline
            ++ (newline
                ++ (codes "Facts and decisions recorded over the last 30 days:"
                    ++ (newline ++ fact_lines facts)))))
