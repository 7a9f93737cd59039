-- ===== src/Command/Approval.antt =====
-- The operator's command: the code that the terminal shows, typed after `dsgateway approve`, approves the
-- session.
use deepseek_project.Protocol.Messages.RoundTrip.{error_body-json}
use deepseek_project.Base.{
  ℕ, ◌≡◌, ◌≢◌, refl, ap, ◌∙◌, Bytes, codes, [], ◌∷◌, ◌++◌, arith, false, ◌==◌,
}
use deepseek_project.Json.Structs.RoundTrip.{IsText}
use deepseek_project.Protocol.Types.{ErrorBody}
use deepseek_project.Protocol.Messages.{error_body, error_json}
use deepseek_project.Gateway.Server.{Gateway, reply_text, write_error}
use deepseek_project.Gateway.Routes.{answered}
use deepseek_project.Client.Transport.{answer}
use deepseek_project.Client.Requests.{answer_of}
use deepseek_project.Command.{approve_ended, line, Exit}

abbrev refused : ErrorBody → Exit
refused b = record {
  status = 1;
  words = line (codes "approve failed: " ++ (b.code ++ (codes ": " ++ b.message)));
}

not_ok : (status : ℕ) → status ≢ 200 → (status == 200) ≡ false
not_ok status n = ground arith

ended_refused :
    (failure body : Bytes) (status : ℕ)
    → status ≢ 200
    → approve_ended failure (answer status body) ≡ refused (error_body body)
unfolding approve_ended
ended_refused failure body status n = rw (not_ok status n) refl

-- An approval that the gateway refuses ends the command with 1, and it prints the error's code and
-- message, which are valid UTF-8.
pub refused_command :
    (failure message code : Bytes) (status : ℕ)
    → status ≢ 200
    → IsText code
    → IsText message
    → approve_ended failure (answer_of message (answered (write_error status code))) ≡ record {
      status = 1;
      words = line (codes "approve failed: " ++ (code ++ (codes ": " ++ message)));
    }
unfolding reply_text
refused_command failure message code status n h k =
    ended_refused failure (error_json (record { code = code; message = message }) ++ 10 ∷ []) status
      n
    ∙ ap refused (error_body-json (record { code = code; message = message }) (10 ∷ []) h k)
