-- ===== src/Api/Deliveries.antt =====
-- What internal/apiEvents.go writes to the connections for one event: an independent account of the
-- frames, channel by channel.
use pusher.Prelude.{
  ◌≡◌, refl, sym, ap, ◌∙◌, Option, none, some, List, [], ◌∷◌, ◌++◌, append-nil, append_assoc,
  if_both, Text,
}
use mathlib.Core.Path.{subst}
use pusher.Api.Events.{ApiMessage, event_for, broadcast_one, broadcast_each}
use pusher.App.{App}
use pusher.ChannelName.{is_cache_channel}
use pusher.LocalAdapter
use pusher.LocalAdapter.{Adapter}
use pusher.Session.Events.{IsOpen, to_each, send_all-IsOpen}
use pusher.Session.World.{World, Frame, broadcast, send_all}
use pusher.Socket.{Ref}

-- whom the adapter's Send names for the channel, the excluded id left out
abbrev pub recipients : Adapter → Text → Text → Text → List Ref
recipients l app c except = elim (LocalAdapter.send l app c except) [ none ↦ [] | some rs ↦ rs ]

-- for each channel in turn, the event for that channel to each of its recipients
pub deliveries : Adapter → App → ApiMessage → List Text → List (Ref × Frame)
deliveries l app m [] = []
deliveries l app m (c ∷ cs) =
    to_each (recipients l app.id c m.socket_id) (event_for m c) ++ deliveries l app m cs

-- Frames were written, and but for the cache nothing else has changed.
pub record Wrote (s t : World) (l : List (Ref × Frame)) : Type 0 where
  pub frames : t.frames ≡ s.frames ++ l
  pub heap : t.heap ≡ s.heap
  pub adapter : t.adapter ≡ s.adapter
  pub detector : t.detector ≡ s.detector
  pub reachable : t.reachable ≡ s.reachable

Wrote-IsOpen : (s t : World) (l : List (Ref × Frame)) → Wrote s t l → IsOpen s → IsOpen t
Wrote-IsOpen s t l w o = record {
  closed = λ q. ap (λ h. (h q).closed) w.heap ∙ o.closed q;
  connected = λ q. ap (λ h. (h q).connected) w.heap ∙ o.connected q;
  reachable = λ q. ap (λ f. f q) w.reachable ∙ o.reachable q;
}

-- what is written to those that Send names, if it names any
sent-Wrote :
    (o : Option (List Ref)) (f : Frame) (s : World)
    → IsOpen s
    → Wrote s
        (elim o [ none ↦ s | some rs ↦ send_all rs f s ])
        (to_each (elim o [ none ↦ [] | some rs ↦ rs ]) f)
unfolding to_each
sent-Wrote none f s o = record {
  frames = sym (append-nil s.frames);
  heap = refl;
  adapter = refl;
  detector = refl;
  reachable = refl;
}
sent-Wrote (some rs) f s o =
    subst (λ t. Wrote s t (to_each rs f)) (sym (send_all-IsOpen rs f s o))
      (record { frames = refl; heap = refl; adapter = refl; detector = refl; reachable = refl })

broadcast-Wrote :
    (app c : Text) (f : Frame) (except : Text) (s : World)
    → IsOpen s
    → Wrote s (broadcast app c f except s) (to_each (recipients s.adapter app c except) f)
unfolding broadcast
broadcast-Wrote app c f except s o = sent-Wrote (LocalAdapter.send s.adapter app c except) f s o

broadcast_one-Wrote :
    (encode : Frame → Text) (app : App) (m : ApiMessage) (c : Text) (s : World)
    → IsOpen s
    → Wrote s
        (broadcast_one encode app m c s)
        (to_each (recipients s.adapter app.id c m.socket_id) (event_for m c))
unfolding broadcast_one
broadcast_one-Wrote encode app m c s o =
    let l = to_each (recipients s.adapter app.id c m.socket_id) (event_for m c) in
    let w = broadcast-Wrote app.id c (event_for m c) m.socket_id s o in
    if_both (is_cache_channel c) (λ t. Wrote s t l)
      (record {
        frames = w.frames;
        heap = w.heap;
        adapter = w.adapter;
        detector = w.detector;
        reachable = w.reachable;
      })
      w

pub broadcast_each-Wrote :
    (encode : Frame → Text) (app : App) (m : ApiMessage) (cs : List Text) (s : World)
    → IsOpen s
    → Wrote s (broadcast_each encode app m cs s) (deliveries s.adapter app m cs)
unfolding broadcast_each deliveries
broadcast_each-Wrote encode app m [] s o = record {
  frames = sym (append-nil s.frames);
  heap = refl;
  adapter = refl;
  detector = refl;
  reachable = refl;
}
broadcast_each-Wrote encode app m (c ∷ cs) s o =
    let l = to_each (recipients s.adapter app.id c m.socket_id) (event_for m c) in
    let t = broadcast_one encode app m c s in
    let w = broadcast_one-Wrote encode app m c s o in
    let v = broadcast_each-Wrote encode app m cs t (Wrote-IsOpen s t l w o) in
    record {
      frames =
          v.frames
          ∙ ap (λ (a : Adapter). t.frames ++ deliveries a app m cs) w.adapter
          ∙ ap (λ x. x ++ deliveries s.adapter app m cs) w.frames
          ∙ append_assoc s.frames l (deliveries s.adapter app m cs);
      heap = v.heap ∙ w.heap;
      adapter = v.adapter ∙ w.adapter;
      detector = v.detector ∙ w.detector;
      reachable = v.reachable ∙ w.reachable;
    }
