-- ===== src/Comch/Callbacks/Tests.antt =====
-- Runs of a comch server.
use shoc.Base.{◌≡◌, refl, true, List, [], ◌∷◌}
use shoc.Doca.{success}
use shoc.Context.Registry.{at_once, in_time}
use shoc.Comch.Server.{stops_child, disconnects, stops_server, Answers, disconnect, stop}
use shoc.Comch.Server.Invariant.{Inv}
use shoc.Comch.Server.Stopping.{asks_to_stop}
use shoc.Comch.Server.Doubled.{disconnect_asks_twice, stop_asks_twice}
use shoc.Comch.Callbacks.History.{
  Event, new_server, run, run-Inv, stop_reaches_doca, connects, receives, child_is_created,
  child_stopped, stop_is_asked,
}

-- Children and the server stop in time, connections disconnect at once.
abbrev slow_answers : Answers
slow_answers = record {
  child_stop = λ _. in_time;
  disconnect = λ _. success;
  server_stop = λ _. in_time;
}

abbrev quick_answers : Answers
quick_answers = record {
  child_stop = λ _. at_once;
  disconnect = λ _. success;
  server_stop = λ _. at_once;
}

abbrev connection_with_child : List Event
connection_with_child = connects true 1 ∷ receives (5 ∷ 6 ∷ []) 1 ∷ child_is_created 1 7 ∷ []

abbrev connection_alone : List Event
connection_alone = connects true 1 ∷ receives (5 ∷ 6 ∷ []) 1 ∷ []

-- The server is stopped while a child is active, which then stops.
abbrev stopped_life : List Event
stopped_life = connects true 1 ∷ child_is_created 1 7 ∷ stop_is_asked ∷ child_stopped 1 7 ∷ []

stopped_life_calls :
    (run slow_answers stopped_life new_server).calls
    ≡ stops_child 1 7 ∷ disconnects 1 0 ∷ stops_server 0 ∷ []
unfolding run new_server
stopped_life_calls = refl

run-Inv_example : Inv (run slow_answers stopped_life new_server)
run-Inv_example = run-Inv slow_answers stopped_life

stop_reaches_doca_example : asks_to_stop (run slow_answers stopped_life new_server).calls ≡ true
unfolding run new_server
stop_reaches_doca_example = stop_reaches_doca slow_answers stopped_life refl refl

disconnect_asks_twice_example :
    (disconnect quick_answers 1 (run quick_answers connection_with_child new_server)).calls
    ≡ stops_child 1 7 ∷ disconnects 1 0 ∷ disconnects 1 0 ∷ []
unfolding run new_server
disconnect_asks_twice_example =
    disconnect_asks_twice quick_answers 1 7 (run quick_answers connection_with_child new_server)
      refl refl refl refl

stop_asks_twice_example :
    (stop quick_answers (run quick_answers connection_alone new_server)).calls
    ≡ disconnects 1 0 ∷ stops_server 0 ∷ stops_server 0 ∷ []
unfolding run new_server
stop_asks_twice_example =
    stop_asks_twice quick_answers 1 (run quick_answers connection_alone new_server) refl refl refl
      refl
