-- ===== src/Cli/Conversation.antt =====
-- The messages of a conversation.
use zinfer_lm.Base.{
  ℕ, ◌≡◌, refl, sym, Bool-cases, inl, inr, List, [], ◌∷◌, ◌++◌, append_assoc, append-nil, ◌==◌,
  codes, bytes_beq, if◌then◌else◌,
}
use zinfer_lm.Server.{ChatMessage}
use zinfer_lm.Cli.{split_command, command_line, read_line, converse, session}

-- The lines that are prompts: they are not empty and do not begin with a slash.
abbrev pub prompts : List (List ℕ) → List (List ℕ)
prompts [] = []
prompts ([] ∷ ls) = prompts ls
prompts ((c ∷ cs) ∷ ls) = if c == 47 then prompts ls else (c ∷ cs) ∷ prompts ls

abbrev pub user : List ℕ → ChatMessage
user s = record { role = codes "user"; message = s }

abbrev pub assistant : List ℕ → ChatMessage
assistant s = record { role = codes "assistant"; message = s }

-- Each prompt is followed by what the chat answers for all that is before.
abbrev pub dialogue :
    (List ChatMessage → List ℕ) → List ChatMessage → List (List ℕ) → List ChatMessage
dialogue invoke before [] = []
dialogue invoke before (p ∷ ps) =
    let answer = assistant (invoke (before ++ user p ∷ [])) in
    user p ∷ answer ∷ dialogue invoke (before ++ user p ∷ answer ∷ []) ps

module _ (invoke : List ChatMessage → List ℕ) where
  converse-command :
      (messages : List ChatMessage) (p : List ℕ × List ℕ)
      → converse invoke messages (command_line p) ≡ messages
  unfolding converse command_line
  converse-command messages p = elim (Bool-cases (bytes_beq p.0 (codes "/tokenize"))) [
    | inl e ↦ rw (e, command_line) refl
    | inr e ↦ elim (Bool-cases (bytes_beq p.0 (codes "/graph"))) [
      | inl h ↦ rw (e, command_line, h, command_line) refl
      | inr h ↦ rw (e, command_line, h, command_line) refl
    ]
  ]

  -- From any messages on, the lines that are prompts, and no other lines, make the conversation: each
  -- prompt adds itself, as the user's message, and the answer of the chat to all the messages so far,
  -- as the assistant's.
  pub session-dialogue :
      (before : List ChatMessage) (lines : List (List ℕ))
      → session invoke before lines ≡ before ++ dialogue invoke before (prompts lines)
  unfolding session read_line converse
  session-dialogue before [] = sym (append-nil before)
  session-dialogue before ([] ∷ ls) = session-dialogue before ls
  session-dialogue before ((c ∷ cs) ∷ ls) = elim (Bool-cases (c == 47)) [
    | inl e ↦
        rw (e, read_line, converse-command before (split_command (c ∷ cs)))
          (session-dialogue before ls)
    | inr e ↦
        let p = c ∷ cs in
        let asked = before ++ user p ∷ [] in
        let answer = assistant (invoke asked) in
        let grown : asked ++ answer ∷ [] ≡ before ++ user p ∷ answer ∷ [] =
          append_assoc before (user p ∷ []) (answer ∷ []) in
        rw
          (
            e,
            read_line,
            grown,
            session-dialogue (before ++ user p ∷ answer ∷ []) ls,
            append_assoc before (user p ∷ answer ∷ [])
                (dialogue invoke (before ++ user p ∷ answer ∷ []) (prompts ls)),
          )
          refl
  ]
