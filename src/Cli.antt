-- ===== src/Cli.antt =====
-- The loop of the command line, tools/cli/cli.cpp: the lines that the user enters, and the messages of
-- the conversation. What the chat answers for the messages is an argument; what is printed is left
-- out, but for the answers to commands.
pub mod Conversation
pub mod Printing
use zinfer_lm.Base.{
  ℕ, suc, ◌+◌, Bool, true, false, Option, none, some, List, [], ◌∷◌, ◌++◌, length, ◌==◌, drop, take,
  if◌then◌else◌, codes, bytes_beq,
}
use zinfer_lm.Server.{ChatMessage}

-- `find(' ')`.
unfoldable pub find_space : List ℕ → Option ℕ
find_space [] = none
find_space (c ∷ cs) = elim (c == 32) [
  | true ↦ some 0
  | false ↦ elim (find_space cs) [ none ↦ none | some i ↦ some (suc i) ]
]

-- The command and its arguments.
unfoldable pub split_command : List ℕ → List ℕ × List ℕ
unfolding find_space
split_command input = elim (find_space input) [
  | none ↦ (input, [])
  | some i ↦ (take i input, drop (i + 1) input)
]

-- What a line asks for.
pub data Line : Type 0 where
  empty_line summary : Line
  tokenize_text unknown_command prompt : List ℕ → Line

unfoldable pub command_line : List ℕ × List ℕ → Line
command_line p = elim (bytes_beq p.0 (codes "/tokenize")) [
  | true ↦ tokenize_text p.1
  | false ↦ elim (bytes_beq p.0 (codes "/graph")) [ true ↦ summary | false ↦ unknown_command p.0 ]
]

-- The tests of the loop on a line.
unfoldable pub read_line : List ℕ → Line
unfolding split_command command_line
read_line [] = empty_line
read_line (c ∷ cs) = elim (c == 47) [
  | true ↦ command_line (split_command (c ∷ cs))
  | false ↦ prompt (c ∷ cs)
]

module _ (invoke : List ChatMessage → List ℕ) where
  -- One round of the loop: a prompt adds itself and the answer to the messages.
  unfoldable pub converse : List ChatMessage → Line → List ChatMessage
  converse messages empty_line = messages
  converse messages summary = messages
  converse messages (tokenize_text s) = messages
  converse messages (unknown_command s) = messages
  converse messages (prompt input) =
      let asked = messages ++ record { role = codes "user"; message = input } ∷ [] in
      asked ++ record { role = codes "assistant"; message = invoke asked } ∷ []

  -- The loop over the lines, until the input ends.
  unfoldable pub session : List ChatMessage → List (List ℕ) → List ChatMessage
  unfolding read_line converse
  session messages [] = messages
  session messages (l ∷ ls) = session (converse messages (read_line l)) ls
