-- ===== src/Server/Messages.antt =====
-- The messages that a chat completion is given.
use zinfer_lm.Base.{
  ℕ, ◌≡◌, refl, sym, ap, ◌∙◌, ◌⊎◌, inl, inr, true, none, some, List, [], ◌∷◌, ◌++◌, append_assoc,
  append-nil, All, Result, ok, ◌>>=◌, codes,
}
use zinfer_lm.Server.{
  Json, string, array, object, Elements, no_element, element, Members, no_member, member,
  find_member, string_of, ChatMessage, is_known_role, push_known, push_message, Verdict, refused,
  role_error, content_error, check_message, check_messages, json_response, stream,
  send_json_response, one_member, verdict_reply, chat_completion,
}

-- A message as a client writes it, and a conversation with what is behind it.
abbrev pub message_json : ChatMessage → Members
message_json m =
    member (codes "role") (string m.role) (member (codes "content") (string m.message) no_member)

abbrev pub conversation : List ChatMessage → Elements → Elements
conversation [] rest = rest
conversation (m ∷ ms) rest = element (object (message_json m)) (conversation ms rest)

abbrev pub HasKnownRole : ChatMessage → Type 0
HasKnownRole m = is_known_role m.role ≡ true

push-known :
    (before : List ChatMessage) (role text : List ℕ)
    → is_known_role role ≡ true
    → push_message before (string role) (string text)
      ≡ ok (before ++ record { role = role; message = text } ∷ [])
unfolding push_message push_known string_of
push-known before role text h = rw h refl

check-one :
    (m : ChatMessage) (es : Elements) (before : List ChatMessage)
    → HasKnownRole m
    → check_messages (element (object (message_json m)) es) before
      ≡ check_messages es (before ++ m ∷ [])
unfolding check_messages check_message find_member
check-one m es before h = rw (push-known before m.role m.message h) refl

check-conversation :
    (ms : List ChatMessage) (rest : Elements) (before : List ChatMessage)
    → All HasKnownRole ms
    → check_messages (conversation ms rest) before ≡ check_messages rest (before ++ ms)
check-conversation [] rest before h = ap (check_messages rest) (sym (append-nil before))
check-conversation (m ∷ ms) rest before h =
    check-one m (conversation ms rest) before h.0
    ∙ check-conversation ms rest (before ++ m ∷ []) h.1
    ∙ ap (check_messages rest) (append_assoc before (m ∷ []) ms)

abbrev pub payload : Elements → Members
payload es = member (codes "messages") (array es) no_member

completion-messages :
    (es : Elements)
    → chat_completion (payload es) ≡ (check_messages es [] >>= λ v. ok (verdict_reply v))
unfolding chat_completion find_member
completion-messages es = refl

-- A conversation of users, assistants and the system starts a chat with just these messages.
pub completion-conversation :
    (ms : List ChatMessage)
    → All HasKnownRole ms
    → chat_completion (payload (conversation ms no_element)) ≡ ok (stream ms)
unfolding check_messages verdict_reply
completion-conversation ms h =
    rw (completion-messages (conversation ms no_element), check-conversation ms no_element [] h)
      refl

-- A member is missing, and this is the error.
abbrev pub Misses : Members → List ℕ → Type 0
Misses obj error =
    ((find_member (codes "role") obj ≡ none) × (error ≡ role_error))
    ⊎ ((role : Json) × (find_member (codes "role") obj ≡ some role)
        × (find_member (codes "content") obj ≡ none)
        × (error ≡ content_error))

check_message-Misses :
    (next : List ChatMessage → Result Verdict) (before : List ChatMessage) (obj : Members)
    (error : List ℕ)
    → Misses obj error
    → check_message next before obj ≡ ok (refused error)
unfolding check_message
check_message-Misses next before obj error (inl (e, f)) = rw (e, check_message, f) refl
check_message-Misses next before obj error (inr (role, e, g, f)) =
    rw (e, check_message, g, check_message, f) refl

check-Misses :
    (obj : Members) (error : List ℕ) (rest : Elements) (before : List ChatMessage)
    → Misses obj error
    → check_messages (element (object obj) rest) before ≡ ok (refused error)
unfolding check_messages
check-Misses obj error rest before h = check_message-Misses (check_messages rest) before obj error h

-- A message without a role or without a content, behind messages that are complete, starts no chat,
-- whatever is behind it: the reply names the first member that is missing. It has the status 200, not
-- the 400 that the handler asks for.
pub completion-refused :
    (ms : List ChatMessage) (obj : Members) (error : List ℕ) (rest : Elements)
    → All HasKnownRole ms
    → Misses obj error
    → chat_completion (payload (conversation ms (element (object obj) rest)))
      ≡ ok (json_response 200 (one_member (codes "error") error))
unfolding verdict_reply send_json_response
completion-refused ms obj error rest h missing =
    let es = conversation ms (element (object obj) rest) in
    rw
      (
        completion-messages es,
        check-conversation ms (element (object obj) rest) [] h,
        check-Misses obj error rest ms missing,
      )
      refl
