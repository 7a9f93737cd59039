-- ===== src/Client/Requests.antt =====
-- The terminal's requests at the gateway: each reaches the handler that it is for, with what it says.
use deepseek_project.Base.{
  ℕ, ◌≡◌, ◌≢◌, ◌≤◌, ap, ◌∙◌, sym, Bytes, codes, [], ◌∷◌, ◌++◌, Option, none, some, length, drop,
  drop-length, take_all, arith, append-nil,
}
use deepseek_project.Json.Structs.{decode_first}
use deepseek_project.Json.Structs.RoundTrip.{IsText}
use deepseek_project.Protocol.Types.{PromptRequest, ErrorBody}
use deepseek_project.Protocol.Messages.{prompt_of, prompt_json, error_json}
use deepseek_project.Protocol.Messages.RoundTrip.{decode-prompt_json, error_body-json}
use deepseek_project.Gateway.Server.{Gateway, decode_json, reply_text}
use deepseek_project.Gateway.Handlers.{handle_status, handle_close, handle_cancel}
use deepseek_project.Gateway.Prompt.{handle_prompt}
use deepseek_project.Gateway.Routes.{
  Request, Inputs, route, serve, dispatch, reply, prompt_reply, gets_status, prompts, cancels,
  closes, Route, Served, answered, cut,
}
use deepseek_project.Gateway.Routes.Paths.{
  IsSegment, sessions_path, route_of_session, no_fragment, Without,
}
use deepseek_project.Client.{reported, read_error_body}
use deepseek_project.Client.Transport.{
  GatewayClient, Outgoing, status_request, prompt_outgoing, cancel_request, close_request, outgoing,
  Incoming, answer, no_answer,
}

abbrev body_of : Option Bytes → Bytes
body_of none = []
body_of (some b) = b

-- What the gateway, at the client's address, receives for what is sent: an address is sent up to its
-- fragment. It has no byte that net/url would refuse or escape.
abbrev pub received : GatewayClient → Outgoing → Request
received c o = record {
  method = o.method;
  target = cut b'#' (drop (length c.base_url) o.url);
  authorization = [];
  body = body_of o.body;
}

-- What comes back of a handler's reply, where `message` is the wording of an error.
abbrev pub answer_of : Bytes → Served → Incoming
answer_of message (answered r) = answer r.status (reply_text message r.body)
answer_of message _ = no_answer

-- The network, with the gateway at the client's address.
abbrev pub answers : Bytes → GatewayClient → Inputs → Gateway → Outgoing → Incoming
answers message c i g o = answer_of message (serve (received c o) i g).1

pub serve_routed :
    (r : Request) (path : Bytes) (to : Route) (i : Inputs) (g : Gateway)
    → r.target ≡ path
    → route r.method path ≡ to
    → serve r i g ≡ dispatch to r i g
unfolding serve
serve_routed r path to i g e t =
    ap (λ p. dispatch (route r.method p) r i g) e ∙ ap (λ x. dispatch x r i g) t

-- The body of a prompt is read as it was written, if the gateway reads all of it.
decode_json-prompt :
    (req : PromptRequest) (max : ℕ)
    → IsText req.content
    → length (prompt_json req) ≤ max
    → decode_json prompt_of (prompt_json req) max ≡ some req
unfolding decode_json
decode_json-prompt req max text short =
    ap (decode_first prompt_of)
      (take_all max (prompt_json req) short ∙ sym (append-nil (prompt_json req)))
    ∙ decode-prompt_json req [] text

module _ (c : GatewayClient) (id : Bytes) (segment : IsSegment id) (i : Inputs) (g : Gateway) where
  -- What the terminal sends to ask for the status, to cancel and to close reaches the handler that is
  -- for it, for this session. The identifier is not empty, and its bytes are those of the identifiers
  -- that are drawn.
  pub requests_reach :
      (serve (received c (status_request c id)) i g ≡ reply (handle_status id g))
      × (serve (received c (cancel_request c id)) i g ≡ reply (handle_cancel id g))
      × (serve (received c (close_request c id)) i g ≡ reply (handle_close id g))
  unfolding status_request cancel_request close_request outgoing
  requests_reach =
      let r = route_of_session id segment in
      let stands = λ (rest : Bytes) (h : Without b'#' rest).
        ap (cut b'#') (drop-length c.base_url (sessions_path ++ (id ++ rest)))
        ∙ no_fragment id rest segment h in
      (
        serve_routed (received c (status_request c id)) (sessions_path ++ id) (gets_status id) i g
            (ap (λ t. cut b'#' (drop (length c.base_url) (c.base_url ++ (sessions_path ++ t))))
                (sym (append-nil id))
              ∙ stands [] tt
              ∙ ap (λ t. sessions_path ++ t) (append-nil id))
            r.0,
        serve_routed (received c (cancel_request c id)) (sessions_path ++ (id ++ codes "/cancel"))
            (cancels id) i g (stands (codes "/cancel") (ground arith)) r.3,
        serve_routed (received c (close_request c id)) (sessions_path ++ (id ++ codes "/close"))
            (closes id) i g (stands (codes "/close") (ground arith)) r.4,
      )

  -- A prompt that the terminal sends reaches `handlePrompt`, for this session, with its content: where
  -- the identifier is not empty and its bytes are those of the identifiers that are drawn, the content
  -- is valid UTF-8, and the gateway reads a body of that size.
  pub prompt_reaches :
      (content : Bytes)
      → IsText content
      → length (prompt_json (record { content = content })) ≤ g.max_prompt
      → serve (received c (prompt_outgoing c id content)) i g
        ≡ prompt_reply id (handle_prompt id (some (record { content = content })) i.now g)
  unfolding prompt_outgoing outgoing
  prompt_reaches content text short =
      let r = route_of_session id segment in
      let path = id ++ codes "/prompt" in
      serve_routed (received c (prompt_outgoing c id content)) (sessions_path ++ path) (prompts id)
        i g
        (ap (cut b'#') (drop-length c.base_url (sessions_path ++ path))
          ∙ no_fragment id (codes "/prompt") segment (ground arith))
        r.2
      ∙ ap (λ b. prompt_reply id (handle_prompt id b i.now g))
          (decode_json-prompt (record { content = content }) g.max_prompt text short)

-- The error that the terminal reports for a reply with an error body, as the gateway encodes it: its code
-- and its message. They are not empty, are valid UTF-8, and the terminal reads a body of that size.
pub reported_error :
    (b : ErrorBody) (status : ℕ)
    → b.code ≢ []
    → b.message ≢ []
    → IsText b.code
    → IsText b.message
    → length (error_json b ++ 10 ∷ []) ≤ 4096
    → read_error_body (error_json b ++ 10 ∷ []) status ≡ reported b.code b.message
unfolding read_error_body
reported_error b status filled said code message short =
    rw (take_all 4096 (error_json b ++ 10 ∷ []) short, error_body-json b (10 ∷ []) code message)
      (ground arith)
