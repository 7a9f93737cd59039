-- ===== src/Examples/Wire.antt =====
-- The laws of what goes over the wire: codes, tokens, events and settings.
use deepseek_project.Base.{
  ℕ, ◌≡◌, ◌↔◌, refl, Bytes, codes, List, [], ◌∷◌, none, is_ok, true, arith, trim_space, trim_left,
  trim_left_reversed, is_space_1, is_space_2, is_space_3, ℕ_discrete,
}
use deepseek_project.Protocol.Sse.{Flow, go, stop, read_sse}
use deepseek_project.Protocol.Sse.RoundTrip.{
  IsSendable, written, dispatch, outcome, read_sse-written,
}
use deepseek_project.Provider.Settings.{parse_settings}
use deepseek_project.Provider.Settings.Laws.{IsAccepted, parse_settings_iff}

-- A callback that keeps the events, the last one first, and stops at the third.
abbrev keep_events : Bytes → Bytes → List (Bytes × Bytes) → Flow ℕ (List (Bytes × Bytes))
keep_events event json [] = go ((event, json) ∷ [])
keep_events event json (x ∷ []) = go ((event, json) ∷ x ∷ [])
keep_events event json (x ∷ y ∷ seen) = stop 7 (x ∷ y ∷ seen)

abbrev two_events : List (Bytes × Bytes)
two_events = (codes "token", codes "{}") ∷ (codes "done", codes "{}") ∷ []

token-IsSendable : IsSendable (codes "token", codes "{}")
unfolding trim_space trim_left trim_left_reversed is_space_1 is_space_2 is_space_3 ℕ_discrete
token-IsSendable = record {
  name_line = ground arith;
  json_line = ground arith;
  name_trimmed = refl;
  json_trimmed = refl;
  name_fits = omega arith;
  json_fits = omega arith;
}

done-IsSendable : IsSendable (codes "done", codes "{}")
unfolding trim_space trim_left trim_left_reversed is_space_1 is_space_2 is_space_3 ℕ_discrete
done-IsSendable = record {
  name_line = ground arith;
  json_line = ground arith;
  name_trimmed = refl;
  json_trimmed = refl;
  name_fits = omega arith;
  json_fits = omega arith;
}

read_sse-written_example :
    read_sse keep_events 1 none (written two_events) []
    ≡ outcome keep_events none (dispatch keep_events two_events [])
read_sse-written_example =
    read_sse-written keep_events 1 none two_events [] (token-IsSendable, (done-IsSendable, tt))

parse_settings_iff_example :
    (is_ok (parse_settings [] (codes "gpt") none []) ≡ true) ↔ IsAccepted (codes "gpt") none []
parse_settings_iff_example = parse_settings_iff [] (codes "gpt") none []
