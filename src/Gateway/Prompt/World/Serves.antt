-- ===== src/Gateway/Prompt/World/Serves.antt =====
-- Each operation of the manager serves the prompts in flight: it keeps the manager valid, and their
-- sessions answering.
use deepseek_project.Session.Prompt.{
  prepare_prompt, finish_prompt, fail_prompt, set_gen_cancel, cancel_generation,
}
use deepseek_project.Base.{
  ℕ, ◌≢◌, Bytes, List, Option, arith, All, All-map, All-zip, ok, Result, err,
}
use deepseek_project.Crypto.{new_id}
use deepseek_project.Session.Types.{Manager}
use deepseek_project.Session.Create.{Draws, create}
use deepseek_project.Session.Approve.{approve_by_token_with_settings, approve_by_code_with_settings}
use deepseek_project.Session.Destroy.{destroy, end_by_control_token, sweep}
use deepseek_project.Session.Validity.{IsValid}
use deepseek_project.Session.Validity.Updates.{destroy_locked-IsValid}
use deepseek_project.Session.Validity.Operations.{
  Fills, IsUnused, IsAnswering, create-IsValid, approve_by_token-IsValid, approve_by_code-IsValid,
  end_by_control_token-IsValid, prepare_prompt-IsValid, finish_prompt-IsValid, fail_prompt-IsValid,
  set_gen_cancel-IsValid, cancel_generation-IsValid, sweep-IsValid,
}
use deepseek_project.Gateway.Prompt.{
  Streamed, end_prompt, set_gen_cancel, fail_prompt, finish_prompt, GenerationSettings,
  prepare_prompt, conclude, ContextState, running, deadline_exceeded, canceled, CompletionResult,
  finish_canceled,
}
use deepseek_project.Gateway.Prompt.Answering

-- The manager is valid, and the sessions of a list are answering or gone.
pub record Serves (l : List Bytes) (m : Manager) : Type 0 where
  pub valid : IsValid m
  pub answering : All (IsAnswering m) l

pub create-Serves :
    (l : List Bytes) (d : Draws) (now : ℕ) (m : Manager)
    → IsUnused m d
    → All (λ j. new_id d.id ≢ ok j) l
    → Serves l m
    → Serves l (create d now m).0
create-Serves l d now m unused other s = record {
  valid = create-IsValid d now m unused s.valid;
  answering =
      All-zip _ _ _ l (λ j n h. Answering.create-IsAnswering d now m j s.valid n h) other
        s.answering;
}

module _ (l : List Bytes) (m : Manager) (s : Serves l m) where
  pub approve_by_token-Serves :
      (token : Bytes) (settings : GenerationSettings) (draw : Option (List ℕ)) (now : ℕ)
      → Fills 32 draw
      → Serves l (approve_by_token_with_settings token settings draw now m).0
  approve_by_token-Serves token settings draw now fills = record {
    valid = approve_by_token-IsValid token settings draw now m fills s.valid;
    answering =
        All-map _ _ l (λ j h. Answering.approve_by_token-IsAnswering token settings draw now m j h)
          s.answering;
  }

  pub approve_by_code-Serves :
      (code : Bytes) (settings : GenerationSettings) (draw : Option (List ℕ)) (now : ℕ)
      → Fills 32 draw
      → Serves l (approve_by_code_with_settings code settings draw now m).0
  approve_by_code-Serves code settings draw now fills = record {
    valid = approve_by_code-IsValid code settings draw now m fills s.valid;
    answering =
        All-map _ _ l (λ j h. Answering.approve_by_code-IsAnswering code settings draw now m j h)
          s.answering;
  }

  pub destroy-Serves : (id : Bytes) → Serves l (destroy id m)
  unfolding destroy
  destroy-Serves id = record {
    valid = destroy_locked-IsValid m id s.valid;
    answering =
        All-map _ _ l (λ j h. Answering.destroy_locked-IsAnswering id m j s.valid h) s.answering;
  }

  pub end_by_control_token-Serves :
      (id token : Bytes) → Serves l (end_by_control_token id token m).0
  end_by_control_token-Serves id token = record {
    valid = end_by_control_token-IsValid id token m s.valid;
    answering =
        All-map _ _ l (λ j h. Answering.end_by_control_token-IsAnswering id token m j s.valid h)
          s.answering;
  }

  pub prepare_prompt-Serves :
      (id content : Bytes) (now : ℕ) → Serves l (prepare_prompt id content now m).0
  prepare_prompt-Serves id content now = record {
    valid = prepare_prompt-IsValid id content now m s.valid;
    answering =
        All-map _ _ l (λ j h. Answering.prepare_prompt-IsAnswering id content now m j h)
          s.answering;
  }

  pub set_gen_cancel-Serves : (id : Bytes) (g : ℕ) → Serves l (set_gen_cancel id g m).0
  set_gen_cancel-Serves id g = record {
    valid = set_gen_cancel-IsValid id g m s.valid;
    answering = All-map _ _ l (λ j h. Answering.set_gen_cancel-IsAnswering id g m j h) s.answering;
  }

  pub cancel_generation-Serves : (id : Bytes) → Serves l (cancel_generation id m).0
  cancel_generation-Serves id = record {
    valid = cancel_generation-IsValid id m s.valid;
    answering = All-map _ _ l (λ j h. Answering.cancel_generation-IsAnswering id m j h) s.answering;
  }

  pub sweep-Serves : (now : ℕ) → Serves l (sweep now m)
  sweep-Serves now = record {
    valid = sweep-IsValid now m s.valid;
    answering = All-map _ _ l (λ j h. Answering.sweep-IsAnswering now m j s.valid h) s.answering;
  }

  -- The end of a prompt, seen from the others in flight.
  module _ (id : Bytes) (now : ℕ) (busy : IsAnswering m id) (others : All (λ j. j ≢ id) l) where
    pub finish_prompt-Serves : (text reason : Bytes) → Serves l (finish_prompt id text reason now m)
    finish_prompt-Serves text reason = record {
      valid = finish_prompt-IsValid id text reason now m busy s.valid;
      answering =
          All-zip _ _ _ l
            (λ j n h. Answering.finish_prompt-IsAnswering id text reason now m j s.valid n h) others
            s.answering;
    }

    pub fail_prompt-Serves : Serves l (fail_prompt id now m)
    fail_prompt-Serves = record {
      valid = fail_prompt-IsValid id now m busy s.valid;
      answering =
          All-zip _ _ _ l (λ j n h. Answering.fail_prompt-IsAnswering id now m j s.valid n h) others
            s.answering;
    }

    pub conclude-Serves :
        (c : ContextState) (r : Result Bytes CompletionResult) → Serves l (conclude id c r now m).0
    conclude-Serves c (err message) = fail_prompt-Serves
    conclude-Serves deadline_exceeded (ok r) = fail_prompt-Serves
    conclude-Serves canceled (ok r) = finish_prompt-Serves r.full_text finish_canceled
    conclude-Serves running (ok r) = finish_prompt-Serves r.full_text r.finish_reason

    pub end_prompt-Serves : (r : Streamed) → Serves l (end_prompt id r now m).0
    unfolding end_prompt
    end_prompt-Serves r = ground (arith, destroy-Serves id, conclude-Serves r.context r.result)
