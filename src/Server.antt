-- ===== src/Server.antt =====
-- The requests of the HTTP server: `Session::handle_request_` of tools/serve/server.cpp and the
-- handlers of tools/serve/handlers.cpp. JSON texts are parsed and printed by Boost, whose functions
-- are arguments, and so is the HTML file.
pub mod Messages
pub mod Replies
pub mod Trace
pub mod Connection
pub mod Listening
use zinfer_lm.Base.{
  ℕ, Bool, true, false, Option, none, some, List, [], ◌∷◌, ◌++◌, Result, ok, err, bad_json, ◌>>=◌,
  codes, bytes_beq, ◌&&◌, ◌||◌, if◌then◌else◌,
}
use zinfer_lm.Inference.{
  eos, max_ctx_reached, continue, StreamStatus, Dispatched, tokenizer_started, tokenizer_completed,
  prefill_start, prefill_end, token_generated, generation_completed,
}
use zinfer_lm.Streaming.{occurs}

-- The values of `boost::json`. Numbers do not matter here.
mutual
  pub data Json : Type 0 where
    null number : Json
    boolean : Bool → Json
    string : List ℕ → Json
    array : Elements → Json
    object : Members → Json

  pub data Elements : Type 0 where
    no_element : Elements
    element : Json → Elements → Elements

  pub data Members : Type 0 where
    no_member : Members
    member : List ℕ → Json → Members → Members

-- `find` of an object.
unfoldable pub find_member : List ℕ → Members → Option Json
find_member key no_member = none
find_member key (member k v ms) = if bytes_beq k key then some v else find_member key ms

-- `as_string` and `value_to<std::string>`, which throw.
unfoldable pub string_of : Json → Result (List ℕ)
string_of (string s) = ok s
string_of null = err bad_json
string_of number = err bad_json
string_of (boolean b) = err bad_json
string_of (array es) = err bad_json
string_of (object ms) = err bad_json

-- `ChatMessage`.
pub record ChatMessage : Type 0 where
  pub role : List ℕ
  pub message : List ℕ

unfoldable pub is_known_role : List ℕ → Bool
is_known_role role =
    bytes_beq role (codes "user")
    || (bytes_beq role (codes "assistant") || bytes_beq role (codes "system"))

-- The chain of tests on the role: a message of an unknown role is left out.
unfoldable pub push_known : Bool → List ChatMessage → List ℕ → Json → Result (List ChatMessage)
unfolding string_of
push_known false messages role content = ok messages
push_known true messages role content = do
  text ← string_of content
  ok (messages ++ record { role = role; message = text } ∷ [])

unfoldable pub push_message : List ChatMessage → Json → Json → Result (List ChatMessage)
unfolding string_of push_known
push_message messages role content =
    string_of role >>= λ name. push_known (is_known_role name) messages name content

-- The loop over the messages ends with what it has made of them, or with the text of an error.
pub data Verdict : Type 0 where
  accepted : List ChatMessage → Verdict
  refused : List ℕ → Verdict

abbrev pub role_error : List ℕ
role_error = codes "\"Field: \"role\" is required\""

abbrev pub content_error : List ℕ
content_error = codes "\"Field: \"content\" is required\""

abbrev pub messages_error : List ℕ
messages_error = codes "\"Field: \"messages\" is required\""

-- The body of the loop, for an object, with the rest of the loop.
unfoldable pub check_message :
    (List ChatMessage → Result Verdict) → List ChatMessage → Members → Result Verdict
unfolding find_member push_message
check_message rest messages obj = elim (find_member (codes "role") obj) [
  | none ↦ ok (refused role_error)
  | some role ↦ elim (find_member (codes "content") obj) [
    | none ↦ ok (refused content_error)
    | some content ↦ push_message messages role content >>= rest
  ]
]

-- The loop.
unfoldable pub check_messages : Elements → List ChatMessage → Result Verdict
unfolding check_message
check_messages no_element messages = ok (accepted messages)
check_messages (element (object obj) es) messages = check_message (check_messages es) messages obj
check_messages (element null es) messages = check_messages es messages
check_messages (element number es) messages = check_messages es messages
check_messages (element (boolean b) es) messages = check_messages es messages
check_messages (element (string s) es) messages = check_messages es messages
check_messages (element (array xs) es) messages = check_messages es messages

-- What is sent, or begun: a response with its status, or the streaming of a chat.
pub data Reply : Type 0 where
  html_response : ℕ → List ℕ → Reply
  json_response : ℕ → Json → Reply
  stream : List ChatMessage → Reply

-- `send_json_response`, which puts `http::status::ok` in the place of the status that it is given.
unfoldable pub send_json_response : ℕ → Json → Reply
send_json_response status payload = json_response 200 payload

abbrev pub one_member : List ℕ → List ℕ → Json
one_member key text = object (member key (string text) no_member)

unfoldable pub verdict_reply : Verdict → Reply
unfolding send_json_response
verdict_reply (accepted messages) = stream messages
verdict_reply (refused text) = send_json_response 400 (one_member (codes "error") text)

-- `chat_completion`, up to the start of the chat.
unfoldable pub chat_completion : Members → Result Reply
unfolding find_member check_messages verdict_reply send_json_response
chat_completion payload = elim (find_member (codes "messages") payload) [
  | some (array es) ↦ check_messages es [] >>= λ v. ok (verdict_reply v)
  | _ ↦ ok (send_json_response 400 (one_member (codes "error") messages_error))
]

-- `health_check`.
unfoldable pub health_check : Reply
unfolding send_json_response
health_check = send_json_response 200 (one_member (codes "status") (codes "healthy"))

pub data Method : Type 0 where
  get post other : Method

pub record Request : Type 0 where
  pub method : Method
  pub target : List ℕ
  pub content_type : List ℕ
  pub body : List ℕ

-- An error of two strings, which is an array.
abbrev pub pair_of_strings : List ℕ → List ℕ → Json
pair_of_strings a b = array (element (string a) (element (string b) no_element))

module _ (parse : List ℕ → Option Json) (parse_error : List ℕ → List ℕ) (index_html : List ℕ) where
  -- `body.as_object()`, which throws, and the handler.
  unfoldable pub completions : Json → Result (List Reply)
  unfolding chat_completion
  completions (object ms) = chat_completion ms >>= λ r. ok (r ∷ [])
  completions null = err bad_json
  completions number = err bad_json
  completions (boolean b) = err bad_json
  completions (string s) = err bad_json
  completions (array es) = err bad_json

  -- The branch of `POST`.
  unfoldable pub handle_post : Request → Result (List Reply)
  unfolding completions occurs send_json_response
  handle_post r = elim (occurs (codes "application/json") r.content_type) [
    | false ↦ ok (
        send_json_response 415
          (pair_of_strings (codes "error") (codes "Expected content type: application/json"))
        ∷ [])
    | true ↦ elim (parse r.body) [
      | none ↦ ok (
          send_json_response 400
            (pair_of_strings (codes "error") (codes "Parse error: " ++ parse_error r.body))
          ∷ [])
      | some body ↦ elim (bytes_beq r.target (codes "/v1/chat/completions")) [
        | true ↦ completions body
        | false ↦ ok []
      ]
    ]
  ]

  -- The page; `read_file` answers nothing where there is no file.
  unfoldable pub page : List ℕ → Reply
  page [] = html_response 404 (codes "<html><body><h1>404 Not Found</h1></body></html>")
  page (c ∷ cs) = html_response 200 (c ∷ cs)

  -- The branches of `GET`.
  unfoldable pub handle_get : Request → List Reply
  unfolding page health_check
  handle_get r = elim (bytes_beq r.target (codes "/") || bytes_beq r.target (codes "/index.html")) [
    | true ↦ page index_html ∷ []
    | false ↦ elim (bytes_beq r.target (codes "/health")) [ true ↦ health_check ∷ [] | false ↦ [] ]
  ]

  -- `handle_request_`: the replies, in order.
  unfoldable pub handle_request : Request → Result (List Reply)
  unfolding handle_get handle_post
  handle_request r = elim r.method [
    | get ↦ ok (handle_get r)
    | post ↦ handle_post r
    | other ↦ ok []
  ]

-- `cb` of `chat_completion`, for the events that the session listens to: the message to stream, and
-- whether it is the last one.
unfoldable pub finish_reason : StreamStatus → Json
finish_reason max_ctx_reached = one_member (codes "finish_reason") (codes "Maximum Tokens reached")
finish_reason eos = one_member (codes "finish_reason") (codes "Stop")
finish_reason continue = null

abbrev pub token_message : List ℕ → Json
token_message text = object (
    member (codes "role") (string (codes "assistant"))
      (member (codes "content") (string text) no_member))

unfoldable pub on_event : Dispatched → List (Json × Bool)
unfolding finish_reason
on_event (token_generated i text) = (token_message text, false) ∷ []
on_event (generation_completed status n) = (finish_reason status, true) ∷ []
on_event (tokenizer_started n) = []
on_event (tokenizer_completed n) = []
on_event (prefill_start n) = []
on_event (prefill_end n) = []

-- What a run streams.
unfoldable pub streamed : List Dispatched → List (Json × Bool)
unfolding on_event
streamed [] = []
streamed (e ∷ es) = on_event e ++ streamed es
