-- ===== src/Client/Repl/Counts.antt =====
-- How often the client has made which call.
use deepseek_project.Base.{ℕ, suc, ◌+◌, ◌≡◌, List, [], ◌∷◌, ◌++◌, arith, if◌then◌else◌, ◌==◌}
use deepseek_project.Client.Repl.{ClientCall, prompts, cancels, closes}

-- The numbers of closings and of prompts, and of the cancellations of the prompt `n`.
abbrev pub closings : List ClientCall → ℕ
closings [] = 0
closings (closes ∷ calls) = suc (closings calls)
closings (x ∷ calls) = closings calls

abbrev pub asked : List ClientCall → ℕ
asked [] = 0
asked (prompts content ∷ calls) = suc (asked calls)
asked (x ∷ calls) = asked calls

abbrev pub one_if : ℕ → ℕ → ℕ
one_if n m = if n == m then 1 else 0

abbrev pub cancellations : ℕ → List ClientCall → ℕ
cancellations n [] = 0
cancellations n (cancels m ∷ calls) = one_if n m + cancellations n calls
cancellations n (x ∷ calls) = cancellations n calls

pub closings-append :
    (a : List ClientCall) (x : ClientCall) → closings (a ++ x ∷ []) ≡ closings (x ∷ []) + closings a
closings-append [] x = ground arith
closings-append (closes ∷ a) x = ground (arith, closings-append a x)
closings-append (cancels m ∷ a) x = ground (arith, closings-append a x)
closings-append (prompts c ∷ a) x = ground (arith, closings-append a x)

pub asked-append :
    (a : List ClientCall) (x : ClientCall) → asked (a ++ x ∷ []) ≡ asked (x ∷ []) + asked a
asked-append [] x = ground arith
asked-append (closes ∷ a) x = ground (arith, asked-append a x)
asked-append (cancels m ∷ a) x = ground (arith, asked-append a x)
asked-append (prompts c ∷ a) x = ground (arith, asked-append a x)

pub cancellations-append :
    (n : ℕ) (a : List ClientCall) (x : ClientCall)
    → cancellations n (a ++ x ∷ []) ≡ cancellations n (x ∷ []) + cancellations n a
cancellations-append n [] x = ground arith
cancellations-append n (closes ∷ a) x = ground (arith, cancellations-append n a x)
cancellations-append n (cancels m ∷ a) x = ground (arith, cancellations-append n a x)
cancellations-append n (prompts c ∷ a) x = ground (arith, cancellations-append n a x)
