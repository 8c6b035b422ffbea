-- ===== src/Consolidate/Instructions.antt =====
-- internal/consolidate/worker.go: the instructions for the model.
use dk_agent_memory.Base.{[], ◌∷◌, ◌++◌, Text, codes, join}

unfoldable pub tier1_system : Text
tier1_system = join (10 ∷ []) (
    codes
      "You summarise one coding session for a memory system that other AI agents will read later."
    ∷ []
    ∷ codes
        "Write two to four sentences of plain prose. Cover what was worked on, what changed, and anything that went wrong and why."
    ∷ []
    ∷ codes "Rules:"
    ∷ (codes "- State facts, not narrative. \"Fixed the auth redirect by "
        ++ ((0xe2 ∷ 0x80 ∷ 0xa6 ∷ [])
            ++ (codes "\" not \"The developer then decided to "
                ++ ((0xe2 ∷ 0x80 ∷ 0xa6 ∷ []) ++ codes "\"."))))
    ∷ codes "- Include specifics: file names, commands, error messages, versions."
    ∷ codes "- Omit anything routine: reading files, running tests that passed, formatting."
    ∷ codes "- If nothing of consequence happened, reply with exactly: (nothing notable)"
    ∷ codes "- Never invent detail that is not in the transcript."
    ∷ [])

unfoldable pub tier2_system : Text
tier2_system = join (10 ∷ []) (
    codes "You extract durable facts from session summaries for a shared engineering memory."
    ∷ []
    ∷ codes "Reply with a JSON object and nothing else, shaped exactly like this:"
    ∷ codes "  {\"facts\": [ ... ]}"
    ∷ []
    ∷ codes "Each element of that array:"
    ∷ codes
        "  {\"kind\": \"fact\" | \"decision\" | \"preference\", \"title\": \"one line\", \"body\": \"the detail and the reason\", \"files\": [\"optional/paths\"]}"
    ∷ []
    ∷ codes "Extract only what will still be true and useful in three months:"
    ∷ codes "- Decisions and, crucially, the reason for them"
    ∷ codes "- Constraints not visible in the code (\"staging has no pgvector\")"
    ∷ codes "- Workarounds and what made them necessary"
    ∷ codes "- Conventions a newcomer would not infer"
    ∷ []
    ∷ codes "Do not extract:"
    ∷ codes "- Anything the code itself states"
    ∷ codes "- What someone did on a particular day"
    ∷ codes "- Transient state, or problems that were fixed within the session"
    ∷ []
    ∷ codes
        "A decision without its reason is not worth storing; either include the reason or drop the item."
    ∷ codes "If nothing qualifies, reply with exactly: {\"facts\": []}"
    ∷ [])

unfoldable pub tier3_system : Text
tier3_system = join (10 ∷ []) (
    codes "You turn recorded facts into durable rules for an engineering team."
    ∷ []
    ∷ codes "Reply with a JSON object and nothing else, shaped exactly like this:"
    ∷ codes "  {\"lessons\": [ ... ]}"
    ∷ []
    ∷ codes "Each element of that array:"
    ∷ codes
        "  {\"lesson\": \"an imperative rule, one line\", \"why\": \"the incident or reasoning behind it\", \"files\": [\"optional/paths\"]}"
    ∷ []
    ∷ codes "A lesson must:"
    ∷ codes
        "- Be imperative and general: \"always use full paths with pkill on multi-service hosts\""
    ∷ codes
        "- Be supported by more than one of the facts below, or by one costly enough to be worth a standing rule"
    ∷ codes
        "- Carry its reason, because a rule whose reason is forgotten is a rule nobody can safely retire"
    ∷ []
    ∷ codes "Do not produce:"
    ∷ codes "- Restatements of a single fact"
    ∷ codes "- Generic engineering advice that is not specific to this project"
    ∷ codes "- Anything you cannot point at evidence for in the input"
    ∷ []
    ∷ codes
        "Most inputs justify zero or one lesson. If nothing qualifies, reply with exactly: {\"lessons\": []}"
    ∷ [])
