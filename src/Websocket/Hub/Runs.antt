-- ===== src/Websocket/Hub/Runs.antt =====
-- backend/internal/wsserver/hub.go in a concrete run: one client, one message.
use nyc_taxi_real_time_eta_p.Common.{◌≡◌, refl, true, [], ◌∷◌, some, get_elem?}
use nyc_taxi_real_time_eta_p.Common.Bytes.{codes}
use nyc_taxi_real_time_eta_p.Websocket.Hub.{
  Client, Flight, Hub, ok, new_client, new_hub, offer, Step, Reaches,
}
use nyc_taxi_real_time_eta_p.Websocket.Hub.Delivery.{IsServed}
use nyc_taxi_real_time_eta_p.Websocket.Hub.Reachable.{reaches-IsServed, broadcast_never_panics}

abbrev flight : Flight
flight = record { message = codes "hi"; left = 0 ∷ []; under_way = true }

abbrev joined : Hub
joined = record { clients = new_client ∷ []; flights = [] }

abbrev flying : Hub
flying = record joined { flights = flight ∷ [] }

abbrev got : Client
got = record new_client { buffer = codes "hi" ∷ []; offered = codes "hi" ∷ [] }

abbrev offered : Hub
offered = record { clients = got ∷ []; flights = record flight { left = [] } ∷ [] }

flying_reached : Reaches flying
flying_reached =
    Reaches.next {h = joined} (Reaches.next {h = new_hub} Reaches.start (Step.registers tt refl)) (
      Step.broadcasts (codes "hi") (0 ∷ [])
        (record { client = new_client; here = refl; in_map = refl }, tt) refl)

offered_reached : Reaches offered
unfolding offer
offered_reached =
    Reaches.next {h = flying} flying_reached
      (Step.offers 0 0 flight [] new_client got refl refl refl refl refl refl)

reaches-IsServed_example : IsServed got
reaches-IsServed_example = reaches-IsServed offered 0 got offered_reached refl

broadcast_never_panics_example :
    (c c' : Client) × (get_elem? flying.clients 0 ≡ some c) × (offer (codes "hi") c ≡ ok c')
broadcast_never_panics_example =
    broadcast_never_panics flying 0 0 flight [] flying_reached refl refl refl
