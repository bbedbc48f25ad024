-- ===== src/TrailerMux.antt =====
-- packages/connect/src/protocol-connect/trailer-mux.ts: trailers among the headers of a response.
pub mod Laws
pub mod Fields
use connect_es.Prelude.{[], ◌∷◌, ◌++◌, if◌then◌else◌, drop}
use connect_es.Prelude.Text.{Text, codes, to_lower, starts_with}
use connect_es.Headers.{Headers, set}

abbrev pub prefix : Text
prefix = codes "trailer-"

-- What `trailerDemux` does with one field.
pub demux_field : Text → Text → Headers × Headers → Headers × Headers
unfolding set
demux_field key value (h, t) =
    if starts_with (to_lower key) prefix
    then (h, set (drop 8 key) value t)
    else (set key value h, t)

-- `header.forEach(…)`
pub demux_fields : Headers → Headers × Headers → Headers × Headers
unfolding demux_field
demux_fields [] both = both
demux_fields ((key, value) ∷ header) both = demux_fields header (demux_field key value both)

-- `trailerDemux`
unfoldable pub trailer_demux : Headers → Headers × Headers
unfolding demux_fields
trailer_demux header = demux_fields header ([], [])

-- `trailer.forEach(…)`
pub mux_fields : Headers → Headers → Headers
unfolding set
mux_fields [] h = h
mux_fields ((key, value) ∷ trailer) h = mux_fields trailer (set (prefix ++ key) value h)

-- `trailerMux`
unfoldable pub trailer_mux : Headers → Headers → Headers
unfolding mux_fields
trailer_mux header trailer = mux_fields trailer header
