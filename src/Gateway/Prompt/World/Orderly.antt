-- ===== src/Gateway/Prompt/World/Orderly.antt =====
-- Every interleaving keeps the manager valid, and a prompt in flight belongs to a session that is
-- answering it or is gone.
use deepseek_project.Gateway.Prompt.World.Requests.{
  handle_create-Serves, handle_approve-Serves, handle_close-Serves, handle_end-Serves,
  handle_cancel-Serves,
}
use deepseek_project.Gateway.Prompt.World.Serves.{
  Serves, prepare_prompt-Serves, set_gen_cancel-Serves, sweep-Serves, fail_prompt-Serves,
  end_prompt-Serves,
}
use deepseek_project.Session.Prompt.{prepare_prompt, fail_prompt}
use deepseek_project.Base.{
  ℕ, ◌≡◌, ◌≢◌, refl, Bytes, List, [], ◌∷◌, ◌++◌, Option, none, some, All, All-map, All-split, ok,
  err, text_eq, trim_space, inl, inr, subst, Bool-cases, sym, Result,
}
use deepseek_project.Session.Types.{Manager, SessionError}
use deepseek_project.Session.Validity.Operations.{IsAnswering}
use deepseek_project.Gateway.Server.{Gateway}
use deepseek_project.Gateway.Prompt.{
  Streamed, start_stream, end_prompt, fail_prompt, prepare_prompt, Message, handle_prompt, prepared,
  Accepted, PromptRequest,
}
use deepseek_project.Gateway.Prompt.Answering
use deepseek_project.Gateway.Prompt.World.{
  World, joined, Step, creates, approves, closes, ends, cancels, prompts, starts, gives_up, returns,
  sweeps, Steps, here, next,
}

-- No session has two prompts in flight.
abbrev pub Apart : List Bytes → Type 0
Apart [] = Unit
Apart (x ∷ l) = All (λ y. y ≢ x) l × Apart l

pub record IsOrderly (w : World) : Type 0 where
  pub serves : Serves w.in_flight w.gateway.mgr
  pub apart : Apart w.in_flight

absent_when_accepted :
    (l : List Bytes) (id content : Bytes) (now : ℕ) (m : Manager) (history : List Message)
    → All (IsAnswering m) l
    → (prepare_prompt id content now m).1 ≡ ok history
    → All (λ j. j ≢ id) l
absent_when_accepted l id content now m history h e =
    All-map _ _ l
      (λ j a same.
        Answering.answering_refuses id content now m history (subst (IsAnswering m) same a) e)
      h

-- What holds of the prompts in flight after a request for one.
abbrev Joins : List Bytes → Bytes → Gateway × Accepted → Type 0
Joins l id (g, a) = Serves (joined id a l) g.mgr × (Apart l → Apart (joined id a l))

prepared-Joins :
    (l : List Bytes) (id : Bytes) (g : Gateway) (r : Manager × Result SessionError (List Message))
    → Serves l r.0
    → ((history : List Message) → r.1 ≡ ok history → IsAnswering r.0 id × All (λ j. j ≢ id) l)
    → Joins l id (prepared id g r)
prepared-Joins l id g (m, err e) s new = (s, λ a. a)
prepared-Joins l id g (m, ok history) s new =
    let (busy, others) = new history refl in
    (record { valid = s.valid; answering = (busy, s.answering) }, λ a. (others, a))

handle_prompt-Joins :
    (l : List Bytes) (id : Bytes) (body : Option PromptRequest) (now : ℕ) (g : Gateway)
    → Serves l g.mgr
    → Joins l id (handle_prompt id body now g)
unfolding handle_prompt
handle_prompt-Joins l id none now g s = (s, λ a. a)
handle_prompt-Joins l id (some req) now g s =
    elim (Bool-cases (text_eq (trim_space req.content) [])) [
      | inl e ↦ rw e (s, λ a. a)
      | inr e ↦ rw e (
          prepared-Joins l id g _ (prepare_prompt-Serves l g.mgr s id (trim_space req.content) now)
            λ history ok_history. (
              Answering.prepared-IsAnswering id (trim_space req.content) now g.mgr history
                  ok_history,
              absent_when_accepted l id (trim_space req.content) now g.mgr history s.answering
                  ok_history,
            ))
    ]

-- One of the prompts in flight is apart from the rest.
Apart-split :
    (before after : List Bytes) (id : Bytes)
    → Apart (before ++ id ∷ after)
    → All (λ j. j ≢ id) (before ++ after) × Apart (before ++ after)
Apart-split [] after id a = a
Apart-split (x ∷ before) after id a =
    let (others, rest) = Apart-split before after id a.1 in
    let (ne, all) = All-split _ before after id a.0 in ((λ e. ne (sym e), others), (all, rest))

-- The end of one of the prompts in flight, by either of the two ways.
module _ (before after : List Bytes) (id : Bytes) (now : ℕ) (m : Manager)
    (s : Serves (before ++ id ∷ after) m) (a : Apart (before ++ id ∷ after)) where
  busy : IsAnswering m id
  busy = (All-split _ before after id s.answering).0

  others : Serves (before ++ after) m
  others = record { valid = s.valid; answering = (All-split _ before after id s.answering).1 }

  returned :
      (r : Streamed) → Serves (before ++ after) (end_prompt id r now m).0 × Apart (before ++ after)
  returned r =
      let (apart, rest) = Apart-split before after id a in
      (end_prompt-Serves (before ++ after) m others id now busy apart r, rest)

  given_up : Serves (before ++ after) (fail_prompt id now m) × Apart (before ++ after)
  given_up =
      let (apart, rest) = Apart-split before after id a in
      (fail_prompt-Serves (before ++ after) m others id now busy apart, rest)

Serves-subst : {l k : List Bytes} {m : Manager} → l ≡ k → Serves l m → Serves k m
Serves-subst {m} e s = subst (λ l. Serves l m) e s

Step-IsOrderly : {w v : World} → Step w v → IsOrderly w → IsOrderly v
Step-IsOrderly {w} (creates d now new) o = record {
  serves = handle_create-Serves w.in_flight w.gateway o.serves d now new.0 new.1;
  apart = o.apart;
}
Step-IsOrderly {w} (approves body draw now fills) o = record {
  serves = handle_approve-Serves w.in_flight w.gateway o.serves body draw now fills;
  apart = o.apart;
}
Step-IsOrderly {w} (closes id) o = record {
  serves = handle_close-Serves w.in_flight w.gateway o.serves id;
  apart = o.apart;
}
Step-IsOrderly {w} (ends id header) o = record {
  serves = handle_end-Serves w.in_flight w.gateway o.serves id header;
  apart = o.apart;
}
Step-IsOrderly {w} (cancels id) o = record {
  serves = handle_cancel-Serves w.in_flight w.gateway o.serves id;
  apart = o.apart;
}
Step-IsOrderly {w} (prompts id body now) o =
    let s = handle_prompt-Joins w.in_flight id body now w.gateway o.serves in
    record { serves = s.0; apart = s.1 o.apart }
Step-IsOrderly {w} (starts before after id generation now history e) o = record {
  serves =
      unfold start_stream in set_gen_cancel-Serves w.in_flight w.gateway.mgr o.serves id generation;
  apart = o.apart;
}
Step-IsOrderly {w} (gives_up before after id generation now history e) o =
    let s =
      given_up before after id now w.gateway.mgr (Serves-subst e o.serves)
        (subst Apart e o.apart) in
    record { serves = unfold start_stream in s.0; apart = s.1 }
Step-IsOrderly {w} (returns before after id r now e) o =
    let s =
      returned before after id now w.gateway.mgr (Serves-subst e o.serves) (subst Apart e o.apart)
        r in
    record { serves = s.0; apart = s.1 }
Step-IsOrderly {w} (sweeps now) o = record {
  serves = sweep-Serves w.in_flight w.gateway.mgr o.serves now;
  apart = o.apart;
}

-- Whatever requests are interleaved, from a gateway with a valid manager and no prompt in flight on:
-- the manager stays valid, every prompt in flight belongs to a session that is answering it or is gone,
-- and no session has two prompts in flight. (Identifiers that are drawn are unused, and a read of random
-- bytes fills its buffer.)
pub Steps-IsOrderly : (w v : World) → Steps w v → IsOrderly w → IsOrderly v
Steps-IsOrderly w _ here o = o
Steps-IsOrderly w _ (next {u = u} r st) o = Step-IsOrderly st (Steps-IsOrderly w u r o)
