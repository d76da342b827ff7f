-- ===== src/Agents/Seats.antt =====
-- SEAT_CAPS and `_can` of agents/tools/fund_server.py.
use fund.Base.{Bool, List, [], ◌∷◌, String, str_eq, any, if◌then◌else◌}

unfoldable pub seat_caps : String → List String
seat_caps seat =
    if str_eq seat "analyst"
    then "get_stage_brief" ∷ "submit_signal" ∷ "read_account" ∷ "read_weights" ∷ []
    else if str_eq seat "news"
    then "get_stage_brief" ∷ "submit_signal" ∷ "read_weights" ∷ []
    else if str_eq seat "pm"
    then "get_stage_brief" ∷ "submit_decision" ∷ "read_account" ∷ "read_signals"
      ∷ "read_allowed_actions" ∷ "read_weights" ∷ []
    else if str_eq seat "exec"
    then "list_open_tickets" ∷ []
    else if str_eq seat "critic"
    then "get_spec_brief" ∷ "submit_spec_critique" ∷ []
    else if str_eq seat "reflect"
    then "submit_reflection" ∷ []
    else if str_eq seat "quant"
    then "submit_strategy_spec" ∷ []
    else []

-- An unknown seat holds nothing.
unfoldable pub can : (seat cap : String) → Bool
unfolding seat_caps
can seat cap = any (str_eq cap) (seat_caps seat)
