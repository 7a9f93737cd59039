-- ===== src/Gateway/Prompt/World.antt =====
-- All interleavings of the requests. A prompt is in flight from its acceptance to the return of its
-- handler, which starts and ends it. Everything else may happen in between, other prompts and the
-- sweeper too. The relation does not say that a handler starts its generation once, and before it ends
-- it: what holds of all these sequences holds of the handlers' sequences.
pub mod Serves
pub mod Requests
pub mod Orderly
use deepseek_project.Base.{ℕ, ◌≡◌, ◌≢◌, Bytes, List, [], ◌∷◌, ◌++◌, Option, true, false, All, ok}
use deepseek_project.Crypto.{new_id}
use deepseek_project.Protocol.Types.{PromptRequest, ApproveRequest}
use deepseek_project.Provider.{Message}
use deepseek_project.Session.Create.{Draws}
use deepseek_project.Session.Destroy.{sweep}
use deepseek_project.Session.Validity.Operations.{Fills, IsUnused}
use deepseek_project.Gateway.Server.{Gateway}
use deepseek_project.Gateway.Handlers.{
  handle_create, handle_approve, handle_close, handle_end, handle_cancel,
}
use deepseek_project.Gateway.Prompt.{
  Accepted, replied, accepted, Streamed, handle_prompt, start_stream, end_prompt,
}

pub record World : Type 0 where
  pub gateway : Gateway
  pub in_flight : List Bytes

-- The prompts in flight after a request for one.
abbrev pub joined : Bytes → Accepted → List Bytes → List Bytes
joined id (accepted history) l = id ∷ l
joined id (replied r) l = l

abbrev pub prompted : Bytes → Gateway × Accepted → World → World
prompted id (g, a) w = record { gateway = g; in_flight = joined id a w.in_flight }

-- An identifier that is drawn is neither a live session's nor that of a prompt in flight.
abbrev pub IsNew : World → Draws → Type 0
IsNew w d = IsUnused w.gateway.mgr d × All (λ j. new_id d.id ≢ ok j) w.in_flight

-- `handleStatus` and `handleHealth` change nothing and are left out.
pub data Step (w : World) : World → Type 0 where
  creates :
      (d : Draws) (now : ℕ)
      → IsNew w d
      → Step w (record w { gateway = (handle_create d now w.gateway).0 })
  approves :
      (body : Option ApproveRequest) (draw : Option (List ℕ)) (now : ℕ)
      → Fills 32 draw
      → Step w (record w { gateway = (handle_approve body draw now w.gateway).0 })
  closes : (id : Bytes) → Step w (record w { gateway = (handle_close id w.gateway).0 })
  ends : (id header : Bytes) → Step w (record w { gateway = (handle_end id header w.gateway).0 })
  cancels : (id : Bytes) → Step w (record w { gateway = (handle_cancel id w.gateway).0 })
  prompts :
      (id : Bytes) (body : Option PromptRequest) (now : ℕ)
      → Step w (prompted id (handle_prompt id body now w.gateway) w)
  -- The handler of a prompt in flight starts its generation.
  starts :
      (before after : List Bytes) (id : Bytes) (generation now : ℕ) (history : List Message)
      → w.in_flight ≡ before ++ id ∷ after
      → Step w (record w { gateway = (start_stream id true generation now history w.gateway).0 })
  -- The writer cannot flush, and the handler gives up.
  gives_up :
      (before after : List Bytes) (id : Bytes) (generation now : ℕ) (history : List Message)
      → w.in_flight ≡ before ++ id ∷ after
      → Step w (record {
        gateway = (start_stream id false generation now history w.gateway).0;
        in_flight = before ++ after;
      })
  -- The handler of a prompt in flight ends it.
  returns :
      (before after : List Bytes) (id : Bytes) (s : Streamed) (now : ℕ)
      → w.in_flight ≡ before ++ id ∷ after
      → Step w (record {
        gateway = record w.gateway { mgr = (end_prompt id s now w.gateway.mgr).0 };
        in_flight = before ++ after;
      })
  -- The sweeper's tick.
  sweeps :
      (now : ℕ) → Step w (record w { gateway = record w.gateway { mgr = sweep now w.gateway.mgr } })

pub data Steps (w : World) : World → Type 0 where
  here : Steps w w
  next : {u v : World} → Steps w u → Step u v → Steps w v
