-- ===== src/Tests/Trailers.antt =====
-- Headers and trailers at concrete inputs.
use connect_es.Prelude.{◌≡◌, refl, some, [], ◌∷◌}
use connect_es.Prelude.Text.{codes}
use connect_es.Headers.{Headers, find_at, get, set}
use connect_es.TrailerMux.{trailer_demux, trailer_mux}
use connect_es.TrailerMux.Laws.{trailer_demux-trailer_mux}

abbrev header : Headers
header = (codes "content-type", codes "application/json") ∷ (codes "x-id", codes "7") ∷ []

abbrev trailer : Headers
trailer = (codes "x-id", codes "9") ∷ (codes "x-time", codes "3") ∷ []

muxed :
    trailer_mux header trailer
    ≡ (codes "content-type", codes "application/json")
      ∷ (codes "trailer-x-id", codes "9")
      ∷ (codes "trailer-x-time", codes "3")
      ∷ (codes "x-id", codes "7")
      ∷ []
unfolding trailer_mux set
muxed = refl

trailer_demux-trailer_mux_example :
    (get (codes "X-Id") (trailer_demux (trailer_mux header trailer)).0 ≡ some (codes "7"))
    × (get (codes "X-Id") (trailer_demux (trailer_mux header trailer)).1 ≡ some (codes "9"))
unfolding get find_at
trailer_demux-trailer_mux_example =
    trailer_demux-trailer_mux header trailer (codes "X-Id")
      (refl, (refl, ((refl, tt), (refl, (refl, (tt, tt))))))
      (refl, (refl, ((refl, tt), (refl, (refl, (tt, tt)))))) (refl, (refl, tt))
