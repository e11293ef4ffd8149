-- ===== src/Comch/Client/Tests.antt =====
-- Runs of a comch client.
use shoc.Base.{◌≡◌, refl, List, [], ◌∷◌}
use shoc.Doca.{CtxState}
use shoc.Context.Registry.{at_once, in_time}
use shoc.Comch.Client.{ClientAnswers, new_client, stops_child, stops_client}
use shoc.Comch.Client.Life.{
  Event, run, Inv, client_run-Inv, state_changes, receives, child_is_created, child_stopped,
  stop_is_asked,
}

-- Children stop in time, the client at once.
abbrev answers : ClientAnswers
answers = record { child_stop = λ _. in_time; client_stop = λ _. at_once }

abbrev stopped_life : List Event
stopped_life =
    state_changes CtxState.running
    ∷ child_is_created 7
    ∷ receives (1 ∷ [])
    ∷ stop_is_asked
    ∷ child_stopped 7
    ∷ []

stopped_life_calls :
    (run answers stopped_life new_client).calls ≡ stops_child 7 ∷ stops_client 0 ∷ []
unfolding run new_client
stopped_life_calls = refl

client_run-Inv_example : Inv (run answers stopped_life new_client)
client_run-Inv_example = client_run-Inv answers stopped_life
