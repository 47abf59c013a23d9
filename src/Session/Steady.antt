-- ===== src/Session/Steady.antt =====
-- What the ends of subscriptions in internal/websocket.go leave alone: who is connected, and whose
-- each connection is.
use pusher.Prelude.{
  ℕ, ◌≡◌, refl, sym, ◌∙◌, true, ◌||◌, not, inl, inr, Option, none, some, List, [], ◌∷◌,
  if◌then◌else◌, arith, eqb, is_some, Text, eq_iff, Map, get, get-put, Option-cases, Bool-cases,
  eqb_self, if_both, >>=-some,
}
use mathlib.Core.Path.{subst}
use pusher.App.{App}
use pusher.Channel.{Channel}
use pusher.Namespace.Membership.{sockets-remove_from_channel}
use pusher.Namespace.Tidy
use pusher.Namespace.Tidy.{IsTidy}
use pusher.FlapDetector.{Detector}
use pusher.Queue
use pusher.Queue.{Job}
use pusher.LocalAdapter
use pusher.LocalAdapter.{Adapter, namespace, store, update_channel_metrics}
use pusher.LocalAdapter.Calls.{AllTidy, metrics-AllTidy, store-AllTidy}
use pusher.Session.Joining.{is_presence}
use pusher.Session.Leaving.{
  leave, drop_subscription, announce_removed, leave_presence, unsubscribe_from_channel,
  unsubscribe_each, unsubscribe_from_all_channels, on_detector, del_entry,
}
use pusher.Session.World.{World, Frame, write, send, send_all, broadcast}
use pusher.Socket.{WebSocket, MemberData, Ref, entries, presence_data_for_channel}

-- the same connection of the same user
abbrev pub SameOwner : WebSocket → WebSocket → Type 0
SameOwner w v =
    (v.id ≡ w.id) × (v.app ≡ w.app) × (v.attached ≡ w.attached) × (v.user_id ≡ w.user_id)

pub record Steady (s t : World) : Type 0 where
  pub tidy : AllTidy s.adapter → AllTidy t.adapter
  pub sockets :
      (app j : Text)
      → get (LocalAdapter.sockets t.adapter app) j ≡ get (LocalAdapter.sockets s.adapter app) j
  pub owner : (q : Ref) → SameOwner (s.heap q) (t.heap q)

pub Steady-refl : (s : World) → Steady s s
Steady-refl s = record {
  tidy = λ a. a;
  sockets = λ app j. refl;
  owner = λ q. (refl, refl, refl, refl);
}

pub Steady-trans : {s t u : World} → Steady s t → Steady t u → Steady s u
Steady-trans a b = record {
  tidy = λ x. b.tidy (a.tidy x);
  sockets = λ app j. b.sockets app j ∙ a.sockets app j;
  owner = λ q. ground (arith, a.owner q, b.owner q);
}

-- the object at `r` keeps its owner, and nothing else changes
write-Steady :
    (r : Ref) (f : WebSocket → WebSocket) (s : World)
    → SameOwner (s.heap r) (f (s.heap r))
    → Steady s (write r f s)
write-Steady r f s same = record {
  tidy = λ a. a;
  sockets = λ app j. refl;
  owner = λ q. elim (Bool-cases (eqb r q)) [
    | inl e ↦
        let p : r ≡ q = ground arith in
        subst (λ x. SameOwner (s.heap x) ((write r f s).heap x)) p (rw (eqb_self r) same)
    | inr e ↦ rw e (refl, refl, refl, refl)
  ];
}

pub send-Steady : (r : Ref) (f : Frame) (s : World) → Steady s (send r f s)
unfolding send
send-Steady r f s =
    if_both ((s.heap r).closed || not (s.heap r).connected) (Steady s) (Steady-refl s) (
      if_both (s.reachable r) (Steady s)
        (record { tidy = λ a. a; sockets = λ app j. refl; owner = λ q. (refl, refl, refl, refl) })
        (write-Steady r (λ w. record w { closed = true }) s (refl, refl, refl, refl)))

send_all-Steady : (rs : List Ref) (f : Frame) (s : World) → Steady s (send_all rs f s)
unfolding send_all
send_all-Steady [] f s = Steady-refl s
send_all-Steady (r ∷ rs) f s = Steady-trans (send-Steady r f s) (send_all-Steady rs f (send r f s))

pub broadcast-Steady :
    (app c : Text) (f : Frame) (except : Text) (s : World) → Steady s (broadcast app c f except s)
unfolding broadcast
broadcast-Steady app c f except s = elim (Option-cases (LocalAdapter.send s.adapter app c except)) [
  | inl e ↦
      let p : broadcast app c f except s ≡ s = ground (arith, e) in
      subst (Steady s) (sym p) (Steady-refl s)
  | inr (rs, e) ↦
      let p : broadcast app c f except s ≡ send_all rs f s = ground (arith, e) in
      subst (Steady s) (sym p) (send_all-Steady rs f s)
]

-- A step that succeeds and is steady.
pub record Goes (s : World) (o : Option World) : Type 0 where
  pub after : World
  pub returns : o ≡ some after
  pub steady : Steady s after

goes : {s t : World} → Steady s t → Goes s (some t)
goes {s} {t} st = record { after = t; returns = refl; steady = st }

-- Leave of a tidy adapter succeeds, and changes only the channels.
leave-Steady :
    (c : Channel) (r : Ref) (s : World)
    → AllTidy s.adapter
    → (s1 : World) × (k : ℕ) × (m : Option MemberData) × (leave c r s ≡ some (s1, k, m))
      × Steady s s1
unfolding leave LocalAdapter.remove_from_channel LocalAdapter.update_channel_metrics
    LocalAdapter.sockets
leave-Steady c r s a = elim (Option-cases (namespace s.adapter c.app.id)) [
  | inl e ↦ (
    s,
    LocalAdapter.channel_sockets_count s.adapter c.app.id c.name,
    if is_presence c.kind then presence_data_for_channel (s.heap r) c.name else none,
    ground (arith, e),
    Steady-refl s,
  )
  | inr (n, e) ↦
      let (n', k, done, t) =
        Tidy.remove_from_channel-IsTidy (s.heap r).id (c.name ∷ []) n (a.at c.app.id n e) in
      let l = update_channel_metrics (store s.adapter c.app.id n') c.app.id in
      (
        record s { adapter = l },
        LocalAdapter.channel_sockets_count l c.app.id c.name,
        if is_presence c.kind then presence_data_for_channel (s.heap r) c.name else none,
        ground (arith, e, done),
        record {
          tidy = λ x. metrics-AllTidy _ _ (store-AllTidy s.adapter c.app.id n' x t);
          sockets = λ app j. ground (
            arith,
            e,
            get-put (entries s.adapter.namespaces) c.app.id n' app,
            eq_iff c.app.id app,
            sockets-remove_from_channel (s.heap r).id (c.name ∷ []) n n' k,
          );
          owner = λ q. (refl, refl, refl, refl);
        },
      )
]

detector-Steady : (f : Detector Job → Detector Job) (s : World) → Steady s (on_detector f s)
detector-Steady f s = record {
  tidy = λ a. a;
  sockets = λ app j. refl;
  owner = λ q. (refl, refl, refl, refl);
}

drop_subscription-Steady :
    (c : Channel) (r : Ref) (k : ℕ) (s : World) (app : App)
    → (s.heap r).app ≡ some app
    → Goes s (drop_subscription c r k s)
unfolding drop_subscription
drop_subscription-Steady c r k s app e =
    let f = λ (w : WebSocket). record w {
      subscribed_channels = del_entry c.name w.subscribed_channels;
    } in
    let s1 = on_detector (Queue.send_channel_vacated true app c.name) s in
    elim (Bool-cases (eqb k 0)) [
      | inl last ↦ record {
        after = write r f s1;
        returns = ground (arith, e);
        steady =
            Steady-trans (detector-Steady (Queue.send_channel_vacated true app c.name) s)
              (write-Steady r f s1 (refl, refl, refl, refl));
      }
      | inr more ↦ record {
        after = write r f s;
        returns = ground arith;
        steady = write-Steady r f s (refl, refl, refl, refl);
      }
    ]

announce_removed-Steady :
    (app : App) (c : Channel) (r : Ref) (u : Text) (s : World)
    → Steady s (announce_removed app c r u s)
unfolding announce_removed
announce_removed-Steady app c r u s =
    Steady-trans (detector-Steady (Queue.send_member_removed true app c.name u) s)
      (broadcast-Steady app.id c.name _ (s.heap r).id _)

leave_presence-Steady :
    (c : Channel) (r : Ref) (k : ℕ) (m : Option MemberData) (s : World) (app : App)
    → (s.heap r).app ≡ some app
    → Goes s (leave_presence c r k m s)
unfolding leave_presence
leave_presence-Steady c r k none s app e =
    let f = λ (w : WebSocket). record w { presence_data = del_entry c.name w.presence_data } in
    record {
      after = write r f s;
      returns = ground (arith, e);
      steady = write-Steady r f s (refl, refl, refl, refl);
    }
leave_presence-Steady c r k (some m) s app e =
    let f = λ (w : WebSocket). record w { presence_data = del_entry c.name w.presence_data } in
    let s1 = write r f s in
    let w1 = write-Steady r f s (refl, refl, refl, refl) in
    let b =
      is_some (get (LocalAdapter.channel_members s1.heap s1.adapter app.id c.name) m.user_id) in
    let s2 = if b then s1 else announce_removed app c r m.user_id s1 in
    let w2 =
      if_both b (Steady s1) (Steady-refl s1) (announce_removed-Steady app c r m.user_id s1) in
    let w3 = drop_subscription-Steady c r k s2 app (((Steady-trans w1 w2).owner r).1 ∙ e) in
    record {
      after = w3.after;
      returns = >>=-some _ e ∙ w3.returns;
      steady = Steady-trans w1 (Steady-trans w2 w3.steady);
    }

unsubscribe_from_channel-Steady :
    (c : Channel) (r : Ref) (s : World) (app : App)
    → AllTidy s.adapter
    → (s.heap r).app ≡ some app
    → Goes s (unsubscribe_from_channel c r s)
unfolding unsubscribe_from_channel
unsubscribe_from_channel-Steady c r s app a e =
    let (s1, k, m, left, st) = leave-Steady c r s a in
    let e1 = (st.owner r).1 ∙ e in
    let p = leave_presence-Steady c r k m s1 app e1 in
    let q = drop_subscription-Steady c r k s1 app e1 in
    elim (Bool-cases (is_presence c.kind)) [
      | inl yes_ ↦ record {
        after = p.after;
        returns = >>=-some _ left ∙ rw yes_ p.returns;
        steady = Steady-trans st p.steady;
      }
      | inr no_ ↦ record {
        after = q.after;
        returns = >>=-some _ left ∙ rw no_ q.returns;
        steady = Steady-trans st q.steady;
      }
    ]

unsubscribe_each-Steady :
    (cs : Map Channel) (r : Ref) (s : World) (app : App)
    → AllTidy s.adapter
    → (s.heap r).app ≡ some app
    → Goes s (unsubscribe_each cs r s)
unfolding unsubscribe_each
unsubscribe_each-Steady [] r s app a e = goes (Steady-refl s)
unsubscribe_each-Steady ((k, c) ∷ cs) r s app a e =
    let one = unsubscribe_from_channel-Steady c r s app a e in
    let rest =
      unsubscribe_each-Steady cs r one.after app (one.steady.tidy a) ((one.steady.owner r).1 ∙ e) in
    record {
      after = rest.after;
      returns = >>=-some _ one.returns ∙ rest.returns;
      steady = Steady-trans one.steady rest.steady;
    }

-- Ending all subscriptions of a connection that has an app, over a tidy adapter, never panics; it
-- keeps the adapter tidy, every connection registered, and every connection with its owner.
pub unsubscribe_from_all_channels-Steady :
    (r : Ref) (s : World) (app : App)
    → AllTidy s.adapter
    → (s.heap r).app ≡ some app
    → Goes s (unsubscribe_from_all_channels r s)
unfolding unsubscribe_from_all_channels
unsubscribe_from_all_channels-Steady r s app a e =
    let all_ = unsubscribe_each-Steady (entries (s.heap r).subscribed_channels) r s app a e in
    let f = λ (w : WebSocket). record w { subscribed_channels = none } in
    record {
      after = write r f all_.after;
      returns = >>=-some _ all_.returns;
      steady = Steady-trans all_.steady (write-Steady r f all_.after (refl, refl, refl, refl));
    }
