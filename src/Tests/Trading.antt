-- ===== src/Tests/Trading.antt =====
-- Examples of sizing, the trader hook and the enforcement pass.
use fund.Agents.Recorder.Spent.{recorded_once}
use fund.Agents.Submit.{fits_int64}
use fund.Agents.Recorder.{Landed, read_landed, int_of, record_order}
use fund.Agents.Hooks.{order_gate}
use fund.Agents.Hooks.Gate.{Hooked, order_gate-Hooked}
use fund.Orchestrator.Daily.Gate.Caps.{IsWithin, handle_trade-IsWithin}
use fund.Gate.Tickets.Orders.Complete.{validate_order_complete}
use fund.Gate.Tickets.Orders.Sound.{IsAuthorized, validate_order_sound}
use fund.Python.Actions.{ok}
use fund.Orchestrator.Daily.Gate.Settles.{run_gate-settles}
use fund.Gate.Tickets.Orders.Sound.{Names}
use fund.State.Rows.{Ticket, Decision, buy}
use fund.Python.Values.{Dict, text, int, float}
use fund.Orchestrator.Daily.Gate.{submitted_on, run_gate, handle_trade}
use fund.Tests.Samples.{
  test_conv, order_with, test_arith, test_db, test_inputs, test_ticket, test_decision,
}
use fund.Python.Floats.{whole}
use fund.Gate.Risk.{size, model}
use fund.Gate.Tickets.Orders.{as_share_count, validate_order, allow}
use fund.Gate.Risk.Bounds.{PromisesOn, inputs_of, size-Promises}
use fund.Orchestrator.Daily.Sizing.{MarketInputs}
use fund.Gate.Tickets.{get_ticket}
use fund.Base.{[], some, false, refl, All, ◌≢◌, str_eq_iff, ◌∷◌, ◌≡◌, pos, arith, String, true}

size-Promises_example :
    PromisesOn test_conv test_arith
      (inputs_of test_conv test_arith (model test_inputs))
      (size test_conv test_arith (model test_inputs))
size-Promises_example = size-Promises test_conv test_arith (model test_inputs)

validate_order_sound_example :
    (t : Ticket) × Names test_conv (order_with (int (pos 5))) test_db t
    × IsAuthorized test_conv (order_with (int (pos 5))) 7 t
unfolding validate_order get_ticket
validate_order_sound_example =
    validate_order_sound test_conv (order_with (int (pos 5))) 7 test_db refl

abbrev authorized : IsAuthorized test_conv (order_with (text "5")) 7 test_ticket
unfolding as_share_count
authorized = record {
  still_open = refl;
  live = omega arith;
  symbol = refl;
  side = refl;
  qty = (pos 5, refl, omega arith, omega arith);
  no_nested_stop = refl;
  no_nested_profit = refl;
  leg = (refl, refl, refl);
}

t1_nonempty : ◌≢◌ {A = String} "t1" ""
t1_nonempty = λ e. cc ((str_eq_iff "t1" "").1 e)

validate_order_complete_example :
    validate_order test_conv (some (order_with (text "5"))) 7 test_db ≡ ok allow
unfolding get_ticket
validate_order_complete_example =
    validate_order_complete test_conv (order_with (text "5")) 7 test_db test_ticket
      ("t1", refl, t1_nonempty, refl) authorized

abbrev feed : MarketInputs
feed = ("NVDA", ("equity", text "x") ∷ []) ∷ []

run_gate-settles_example :
    All
      (λ d. submitted_on "d" d ≡ false)
      (run_gate test_conv test_arith feed (λ _. "t2") "d" 3 test_db).1.decisions
run_gate-settles_example = run_gate-settles test_conv test_arith feed (λ _. "t2") "d" 3 test_db

abbrev bold : Decision
bold = record test_decision { qty = 12 }

handle_trade-IsWithin_example :
    IsWithin bold (handle_trade test_conv test_arith feed (λ _. "t2") bold buy 3 48 test_db).1
handle_trade-IsWithin_example =
    handle_trade-IsWithin test_conv test_arith feed (λ _. "t2") bold buy 3 48 test_db (refl, tt)

order_gate-Hooked_example :
    Hooked test_conv true "mcp__alpaca__place_stock_order"
      (some (order_with (int (pos 5))))
      7
      test_db
      (order_gate test_conv true "mcp__alpaca__place_stock_order"
        (some (order_with (int (pos 5))))
        7
        test_db)
order_gate-Hooked_example =
    order_gate-Hooked test_conv true "mcp__alpaca__place_stock_order"
      (some (order_with (int (pos 5)))) 7 test_db

abbrev placed : Dict
placed =
    ("client_order_id", text "t1")
    ∷ ("id", text "a9")
    ∷ ("symbol", text "NVDA")
    ∷ ("side", text "buy")
    ∷ ("qty", int (pos 5))
    ∷ ("status", text "filled")
    ∷ ("filled_qty", text "5")
    ∷ ("filled_avg_price", float (whole 3))
    ∷ []

abbrev landed_order : Landed
landed_order = record {
  client_order_id = "t1";
  alpaca_order_id = some "a9";
  symbol = "NVDA";
  side = buy;
  qty = 5;
  is_filled = true;
  payload = placed;
}

recorded_once_example :
    validate_order test_conv
      (some (order_with (int (pos 5))))
      9
      (record_order test_conv (λ v. "") placed 8 test_db).1
    ≢ ok allow
unfolding read_landed int_of fits_int64
recorded_once_example =
    recorded_once test_conv (λ v. "") placed 8 landed_order test_db (order_with (int (pos 5))) 9
      refl refl
