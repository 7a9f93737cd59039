-- ===== src/Client/Repl/Words.antt =====
-- internal/client/cli.go: the texts that `Run` writes before the chat.
use deepseek_project.Base.{Bytes, codes, [], ◌∷◌, ◌++◌, Option, none, some, Result, ok, err}
use deepseek_project.Crypto.{format_d}
use deepseek_project.Protocol.Types.{SessionCreateResponse, SessionStatusResponse}
use deepseek_project.Client.{
  WaitError, cancelled, cancelled_by_user, session_destroyed, pairing_expired,
  format_effective_settings,
}

abbrev pub newline : Bytes
newline = 10 ∷ []

-- The start of `Run` after the session's creation; `qr` is what `renderQR` writes, or its error's words.
abbrev qr_lines : Option (Result Bytes Bytes) → Bytes
qr_lines none = []
qr_lines (some (ok picture)) = picture
qr_lines (some (err words)) = codes "  (QR unavailable: " ++ (words ++ (codes ")" ++ newline))

unfoldable pub instructions : SessionCreateResponse → Option (Result Bytes Bytes) → Bytes
instructions sess qr =
    codes "New session created."
    ++ (newline
        ++ (codes "Pairing required to continue."
            ++ (newline
                ++ (newline
                    ++ (codes "  WAITING"
                        ++ (newline
                            ++ (qr_lines qr
                                ++ (codes "  Code: "
                                    ++ (sess.pairing_code
                                        ++ (newline
                                            ++ (newline
                                                ++ (codes "Waiting for approval... (expires in "
                                                    ++ (format_d sess.expires_in
                                                        ++ (codes "s)" ++ newline))))))))))))))

unfoldable pub wait_words : WaitError → Bytes
wait_words cancelled = codes "cancelled"
wait_words cancelled_by_user = codes "cancelled by user"
wait_words session_destroyed = codes "session destroyed"
wait_words pairing_expired = codes "pairing expired"

abbrev settings_lines : Bytes → Bytes
settings_lines [] = []
settings_lines (c ∷ text) = newline ++ ((c ∷ text) ++ newline)

-- "✓ Approved", whose mark is three bytes.
unfoldable pub greeting : SessionStatusResponse → Bytes
unfolding format_effective_settings
greeting st =
    newline
    ++ ((0xe2 ∷ 0x9c ∷ 0x93 ∷ codes " Approved")
        ++ (newline
            ++ (settings_lines (format_effective_settings (some st))
                ++ (newline ++ (codes "DeepSeek ready." ++ (newline ++ newline))))))
