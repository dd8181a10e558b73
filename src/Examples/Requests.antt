-- ===== src/Examples/Requests.antt =====
-- Requests of a client.
use zinfer_lm.Base.{ℕ, ◌+◌, length, ◌≡◌, refl, inl, none, List, [], ◌∷◌, ok, codes}
use zinfer_lm.Cli.{session}
use zinfer_lm.Cli.Conversation.{dialogue, session-dialogue}
use zinfer_lm.Server.{
  string, object, element, no_element, no_member, member, find_member, ChatMessage, is_known_role,
  role_error, json_response, stream, one_member, chat_completion, get, Request, handle_get,
  handle_request,
}
use zinfer_lm.Server.Messages.{conversation, payload, completion-conversation, completion-refused}
use zinfer_lm.Server.Replies.{RepliesOnce, handle_request-once}

abbrev question : List ChatMessage
question =
    record { role = codes "system"; message = codes "be brief" }
    ∷ record { role = codes "user"; message = codes "why?" }
    ∷ []

completion-conversation_example :
    chat_completion (payload (conversation question no_element)) ≡ ok (stream question)
unfolding is_known_role
completion-conversation_example = completion-conversation question (refl, (refl, tt))

completion-refused_example :
    chat_completion (
      payload (
        conversation question
          (element (object (member (codes "content") (string []) no_member)) no_element)))
    ≡ ok (json_response 200 (one_member (codes "error") role_error))
unfolding is_known_role find_member
completion-refused_example =
    completion-refused question (member (codes "content") (string []) no_member) role_error
      no_element (refl, (refl, tt)) (inl (refl, refl))

abbrev lost : Request
lost = record { method = get; target = codes "/models"; content_type = []; body = [] }

lost-handled : handle_request (λ s. none) (λ s. s) [] lost ≡ ok []
unfolding handle_request handle_get
lost-handled = refl

handle_request-once_example : RepliesOnce lost []
handle_request-once_example = handle_request-once (λ s. none) (λ s. s) [] lost [] lost-handled

-- The answers are the number of messages, as a digit.
abbrev count : List ChatMessage → List ℕ
count ms = (48 + length ms) ∷ []

abbrev typed : List (List ℕ)
typed = codes "why?" ∷ [] ∷ codes "/graph" ∷ codes "and?" ∷ []

session-dialogue_example :
    session count [] typed ≡ dialogue count [] (codes "why?" ∷ codes "and?" ∷ [])
session-dialogue_example = session-dialogue count [] typed
