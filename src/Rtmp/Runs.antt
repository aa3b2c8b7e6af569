-- ===== src/Rtmp/Runs.antt =====
-- A publication as a whole, and two that overlap.
use Prim.Native.String.{String}
use nexusroom.Base.{
  ℕ, ◌+◌, ◌≡◌, refl, ap, ◌∙◌, Bool, true, false, Option, none, some, List, [], ◌∷◌, ◌++◌,
  append_assoc,
}
use nexusroom.Flv.{Frame}
use nexusroom.Stream.{chain, set}
use nexusroom.Stream.Endings.{shutdown-IsEnded}
use nexusroom.Stream.Streams.{
  Registry, find, remove, swap, take_out, shut, new_entry, start, stop, publish,
}
use nexusroom.Stream.Steps.{AllInv, set-Inv, new_entry-Inv}
use nexusroom.Stream.Delivery.{find-remove}
use nexusroom.Rtmp.{
  Server, Event, tell, with_coder, begin, finish, is_some, audio_config, has_coder, publish_video,
}
use nexusroom.Rtmp.Events.{Quiet, set_opus_lem, on_events_lem}

shut_lem :
    (o : Option ℕ) (r : Registry)
    → AllInv r
    → (r' : Registry) × (shut (o, r) ≡ some r') × AllInv r' × (r'.streams ≡ r.streams)
unfolding shut
shut_lem none r all = (r, refl, all, refl)
shut_lem (some p) r all =
    let (e', done, _, v) = shutdown-IsEnded (r.entries p) (all p) in
    (record r { entries = set r.entries p e' }, rw done refl, set-Inv r.entries p e' all v, refl)

with_coder_lem :
    (coder : Bool) (key : String) (srv : Server)
    → AllInv srv.registry
    → Quiet srv (with_coder coder key srv)
unfolding with_coder
with_coder_lem false key srv all = (srv, refl, all, refl)
with_coder_lem true key srv all = set_opus_lem key true srv all

begin_lem :
    (key : String) (sps pps config : List ℕ) (coder : Bool) (srv : Server)
    → AllInv srv.registry
    → (s : Server) × (begin key sps pps config coder srv ≡ some s)
      × AllInv s.registry
      × (s.states ≡ srv.states ++ (key, true) ∷ [])
unfolding begin start swap
begin_lem key sps pps config coder srv all =
    let r = srv.registry in
    let e = new_entry sps pps config in
    let mid : Registry = record {
      streams = (key, r.count) ∷ remove key r.streams;
      entries = set r.entries r.count e;
      count = r.count + 1;
    } in
    let (r', done, all', _) =
      shut_lem (find key r.streams) mid
        (set-Inv r.entries r.count e all (new_entry-Inv sps pps config)) in
    let (s, done', all'', same) = with_coder_lem coder key (record srv { registry = r' }) all' in
    (
      tell key true s,
      rw (done, done') refl,
      all'',
      ap (λ (l : List (String × Bool)). l ++ (key, true) ∷ []) same,
    )

finish_lem :
    (key : String) (srv : Server)
    → AllInv srv.registry
    → (s : Server) × (finish key srv ≡ some s)
      × AllInv s.registry
      × (find key s.registry.streams ≡ none)
      × (s.states ≡ srv.states ++ (key, false) ∷ [])
unfolding finish stop take_out
finish_lem key srv all =
    let r = srv.registry in
    let (r', done, all', same) =
      shut_lem (find key r.streams) (record r { streams = remove key r.streams }) all in
    (
      tell key false (record srv { registry = r' }),
      rw done refl,
      all',
      ap (find key) same ∙ find-remove key r.streams,
      refl,
    )

-- A publication with video, whatever its events and whether or not a transcoder runs: nothing
-- panics, the entries stay well-formed, at its end no stream has its key, and the observer is told
-- of the start and then of the end.
pub publish_video-returns :
    (key : String) (sps pps : List ℕ) (audio : Option (List ℕ)) (starts : Bool) (evs : List Event)
    (srv : Server)
    → AllInv srv.registry
    → (s : Server) × (publish_video key (sps, pps) audio starts evs srv ≡ some s)
      × AllInv s.registry
      × (find key s.registry.streams ≡ none)
      × (s.states ≡ srv.states ++ (key, true) ∷ (key, false) ∷ [])
unfolding publish_video
publish_video-returns key sps pps audio starts evs srv all =
    let config = audio_config audio in
    let coder = has_coder config starts in
    let (s₁, done₁, all₁, same₁) = begin_lem key sps pps config coder srv all in
    let (s₂, done₂, all₂, same₂) = on_events_lem key (is_some audio) coder evs s₁ all₁ in
    let (s₃, done₃, all₃, gone, same₃) = finish_lem key s₂ all₂ in
    (
      s₃,
      rw (done₁, done₂) done₃,
      all₃,
      gone,
      same₃
          ∙ ap (λ (l : List (String × Bool)). l ++ (key, false) ∷ []) (same₂ ∙ same₁)
          ∙ append_assoc srv.states ((key, true) ∷ []) ((key, false) ∷ []),
    )

-- If a second publication begins under the key of one that goes on, the end of the first one takes
-- the stream of the second: no stream has the key, and a frame published under it is refused and
-- changes nothing, although the second has not ended.
pub overlapping_ends :
    (key : String) (sps pps config sps' pps' config' : List ℕ) (coder coder' : Bool) (srv : Server)
    → AllInv srv.registry
    → (s : Server) × (chain
          (begin key sps pps config coder srv)
          (λ s₁. chain (begin key sps' pps' config' coder' s₁) (finish key))
        ≡ some s)
      × (find key s.registry.streams ≡ none)
      × ((frame : Frame) → publish key frame s.registry ≡ some (false, s.registry))
      × (s.states ≡ srv.states ++ (key, true) ∷ (key, true) ∷ (key, false) ∷ [])
unfolding publish
overlapping_ends key sps pps config sps' pps' config' coder coder' srv all =
    let (s₁, done₁, all₁, same₁) = begin_lem key sps pps config coder srv all in
    let (s₂, done₂, all₂, same₂) = begin_lem key sps' pps' config' coder' s₁ all₁ in
    let (s₃, done₃, all₃, gone, same₃) = finish_lem key s₂ all₂ in
    (
      s₃,
      rw (done₁, done₂) done₃,
      gone,
      λ frame. rw gone refl,
      same₃
          ∙ ap (λ (l : List (String × Bool)). l ++ (key, false) ∷ []) same₂
          ∙ ap (λ (l : List (String × Bool)). (l ++ (key, true) ∷ []) ++ (key, false) ∷ []) same₁
          ∙ append_assoc (srv.states ++ (key, true) ∷ []) ((key, true) ∷ []) ((key, false) ∷ [])
          ∙ append_assoc srv.states ((key, true) ∷ []) ((key, true) ∷ (key, false) ∷ []),
    )
