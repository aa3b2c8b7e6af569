-- ===== src/Rtmp/Events.antt =====
-- The events of a publication, on a registry of well-formed entries.
use Prim.Native.String.{String}
use nexusroom.Base.{
  ℕ, ◌≡◌, refl, ◌∙◌, Bool, true, false, not, ◌||◌, Option, none, some, List, [], ◌∷◌, if◌then◌else◌,
}
use nexusroom.Flv.{AudioFrame}
use nexusroom.Stream.{Entry, chain, set, publish_audio_entry}
use nexusroom.Stream.Methods.{
  publish_entry-Total, publish_audio_entry-Total, publish_opus_entry-Total, Total,
}
use nexusroom.Stream.Streams.{
  find, at_key, publish, publish_audio, publish_opus, set_opus_available,
}
use nexusroom.Stream.Steps.{AllInv, set-Inv, opus-Inv}
use nexusroom.Rtmp.{
  Server, Event, video_unit, audio_unit, opus_packet, coder_failed, with_registry, not_written,
  on_event, on_events,
}

abbrev Healthy : Option Server → Type 0
Healthy o = (srv : Server) × (o ≡ some srv) × AllInv srv.registry

-- The server after a step that tells nobody.
abbrev pub Quiet : Server → Option Server → Type 0
Quiet before o =
    (srv : Server) × (o ≡ some srv) × AllInv srv.registry × (srv.states ≡ before.states)

at_key_lem :
    (o : Option ℕ) (f : Entry → Option (Bool × Entry)) (srv : Server)
    → Total f
    → AllInv srv.registry
    → Quiet srv (with_registry srv (at_key o f srv.registry))
at_key_lem none f srv total all = (srv, refl, all, refl)
at_key_lem (some p) f srv total all =
    let r = srv.registry in
    let ((ok, e), done, v) = total (r.entries p) (all p) in
    (
      record srv { registry = record r { entries = set r.entries p e } },
      rw done refl,
      set-Inv r.entries p e all v,
      refl,
    )

opus-Total : (available : Bool) → Total (λ e. some (true, record e { has_opus = available }))
opus-Total available e v = ((true, record e { has_opus = available }), refl, opus-Inv e available v)

pub set_opus_lem :
    (key : String) (available : Bool) (srv : Server)
    → AllInv srv.registry
    → Quiet srv (with_registry srv (set_opus_available key available srv.registry))
unfolding set_opus_available
set_opus_lem key available srv all =
    at_key_lem (find key srv.registry.streams) _ srv (opus-Total available) all

publish_audio_lem :
    (key : String) (frame : AudioFrame) (srv : Server)
    → AllInv srv.registry
    → Quiet srv (with_registry srv (publish_audio key frame srv.registry))
unfolding publish_audio
publish_audio_lem key frame srv all =
    at_key_lem (find key srv.registry.streams) (publish_audio_entry frame) srv
      (publish_audio_entry-Total frame) all

not_written_lem :
    (written : Bool) (key : String) (srv : Server)
    → AllInv srv.registry
    → Quiet srv (not_written written key srv)
not_written_lem true key srv all = (srv, refl, all, refl)
not_written_lem false key srv all = set_opus_lem key false srv all

if_Quiet :
    (b : Bool) (srv : Server) (o : Option Server)
    → AllInv srv.registry
    → Quiet srv o
    → Quiet srv (if b then some srv else o)
if_Quiet true srv o all h = (srv, refl, all, refl)
if_Quiet false srv o all h = h

chain-Quiet :
    (srv : Server) (o : Option Server) (k : Server → Option Server)
    → Quiet srv o
    → ((s : Server) → AllInv s.registry → Quiet s (k s))
    → Quiet srv (chain o k)
chain-Quiet srv o k (s, done, all, same) next =
    let (s', done', all', same') = next s all in (s', rw done done', all', same' ∙ same)

on_event_lem :
    (key : String) (audio coder : Bool) (ev : Event) (srv : Server)
    → AllInv srv.registry
    → Quiet srv (on_event key audio coder ev srv)
unfolding on_event publish publish_opus
on_event_lem key audio coder (video_unit pts dts nalus) srv all =
    at_key_lem (find key srv.registry.streams) _ srv (publish_entry-Total _) all
on_event_lem key audio coder (audio_unit pts payload written) srv all =
    if_Quiet (not audio) srv _ all (
      chain-Quiet srv _ (not_written (written || not coder) key)
        (publish_audio_lem key (record { pts = pts; payload = payload }) srv all)
        (not_written_lem (written || not coder) key))
on_event_lem key audio coder (opus_packet frame) srv all =
    if_Quiet (not coder) srv _ all
      (at_key_lem (find key srv.registry.streams) _ srv (publish_opus_entry-Total frame) all)
on_event_lem key audio coder coder_failed srv all =
    if_Quiet (not coder) srv _ all (set_opus_lem key false srv all)

pub on_events_lem :
    (key : String) (audio coder : Bool) (evs : List Event) (srv : Server)
    → AllInv srv.registry
    → Quiet srv (on_events key audio coder evs srv)
unfolding on_events
on_events_lem key audio coder [] srv all = (srv, refl, all, refl)
on_events_lem key audio coder (ev ∷ evs) srv all =
    chain-Quiet srv _ (on_events key audio coder evs) (on_event_lem key audio coder ev srv all)
      (on_events_lem key audio coder evs)
