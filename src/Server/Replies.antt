-- ===== src/Server/Replies.antt =====
-- How often a request is replied to.
use zinfer_lm.Base.{
  ℕ, ◌≡◌, refl, sym, ◌⊎◌, inl, inr, false, Bool-cases, Option, Option-cases, List, [], ◌∷◌, ok,
  codes, bytes_beq, ◌||◌, first_ok,
}
use zinfer_lm.Streaming.{occurs}
use zinfer_lm.Server.{
  Json, object, array, string, boolean, null, number, Reply, Request, Method, get, post, other,
  chat_completion, completions, handle_get, handle_post, handle_request,
}

-- No handler stands for the method and the target.
abbrev pub IsUnknown : Request → Type 0
IsUnknown r =
    (r.method ≡ other)
    ⊎ ((r.method ≡ get)
        × ((bytes_beq r.target (codes "/") || bytes_beq r.target (codes "/index.html")) ≡ false)
        × (bytes_beq r.target (codes "/health") ≡ false))
    ⊎ ((r.method ≡ post) × (bytes_beq r.target (codes "/v1/chat/completions") ≡ false))

-- One reply; or none, to a request that no handler stands for.
abbrev pub RepliesOnce : Request → List Reply → Type 0
RepliesOnce r replies = ((reply : Reply) × (replies ≡ reply ∷ [])) ⊎ ((replies ≡ []) × IsUnknown r)

module _ (parse : List ℕ → Option Json) (parse_error : List ℕ → List ℕ) (index_html : List ℕ) where
  completions-one :
      (body : Json) (replies : List Reply)
      → completions parse parse_error index_html body ≡ ok replies
      → (reply : Reply) × (replies ≡ reply ∷ [])
  unfolding completions
  completions-one null replies e = absurd (cc)
  completions-one number replies e = absurd (cc)
  completions-one (boolean b) replies e = absurd (cc)
  completions-one (string s) replies e = absurd (cc)
  completions-one (array es) replies e = absurd (cc)
  completions-one (object ms) replies e =
      let (reply, p, q) = first_ok (chat_completion ms) (λ r. ok (r ∷ [])) e in (reply, cc)

  get-once :
      (r : Request) (replies : List Reply)
      → r.method ≡ get
      → handle_get parse parse_error index_html r ≡ replies
      → RepliesOnce r replies
  unfolding handle_get
  get-once r replies m e =
      elim (Bool-cases
        (bytes_beq r.target (codes "/") || bytes_beq r.target (codes "/index.html"))) [
          | inl c ↦ inl (_, sym (rw (c, handle_get) at e))
          | inr c ↦ elim (Bool-cases (bytes_beq r.target (codes "/health"))) [
            | inl h ↦ inl (_, sym (rw (c, handle_get, h, handle_get) at e))
            | inr h ↦ inr (sym (rw (c, handle_get, h, handle_get) at e), inr (inl (m, c, h)))
          ]
        ]

  same_list : (xs ys : List Reply) → ok xs ≡ ok ys → ys ≡ xs
  same_list xs ys e = cc

  post-once :
      (r : Request) (replies : List Reply)
      → r.method ≡ post
      → handle_post parse parse_error index_html r ≡ ok replies
      → RepliesOnce r replies
  unfolding handle_post
  post-once r replies m e = elim (Bool-cases (occurs (codes "application/json") r.content_type)) [
    | inr c ↦ inl (_, same_list _ replies (rw (c, handle_post) at e))
    | inl c ↦ elim (Option-cases (parse r.body)) [
      | inl n ↦ inl (_, same_list _ replies (rw (c, handle_post, n, handle_post) at e))
      | inr (body, b) ↦ elim (Bool-cases (bytes_beq r.target (codes "/v1/chat/completions"))) [
        | inl t ↦ inl (
            completions-one body replies (rw (c, handle_post, b, handle_post, t, handle_post) at e))
        | inr t ↦ inr (
          same_list [] replies (rw (c, handle_post, b, handle_post, t, handle_post) at e),
          inr (inr (m, t)),
        )
      ]
    ]
  ]

  method-cases : (m : Method) → (m ≡ get) ⊎ (m ≡ post) ⊎ (m ≡ other)
  method-cases get = inl refl
  method-cases post = inr (inl refl)
  method-cases other = inr (inr refl)

  -- A request whose handling throws no exception is replied to once; or not at all, and then no
  -- handler stands for its method and its target: such a client waits for ever.
  pub handle_request-once :
      (r : Request) (replies : List Reply)
      → handle_request parse parse_error index_html r ≡ ok replies
      → RepliesOnce r replies
  unfolding handle_request
  handle_request-once r replies e = elim (method-cases r.method) [
    | inl m ↦ get-once r replies m (sym (same_list _ replies (rw (m, handle_request) at e)))
    | inr (inl m) ↦ post-once r replies m (rw (m, handle_request) at e)
    | inr (inr m) ↦ inr (same_list [] replies (rw (m, handle_request) at e), inl m)
  ]
