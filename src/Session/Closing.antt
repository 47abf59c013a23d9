-- ===== src/Session/Closing.antt =====
-- closeConnection of internal/websocket.go: it ends, and leaves no trace of the connection.
use pusher.Prelude.{
  ◌≡◌, ◌≢◌, refl, sym, ap, ◌∙◌, true, false, inl, inr, Option, none, some, if◌then◌else◌, arith,
  eqb_self, is_nil, Text, eq_iff, eq_refl, get, get-put, Option-cases, Bool-cases, >>=-some,
}
use mathlib.Core.Path.{subst}
use pusher.App.{App}
use pusher.LocalAdapter
use pusher.LocalAdapter.{Adapter, namespace, store, update_channel_metrics}
use pusher.LocalAdapter.Calls.{AllTidy, metrics-AllTidy, store-AllTidy}
use pusher.Namespace
use pusher.Namespace.{Namespace, remove_user, remove_id}
use pusher.Namespace.Departure.{remove_socket_lem}
use pusher.Namespace.Tidy
use pusher.Namespace.Tidy.{IsTidy}
use pusher.Session.Leaving.{detach, sign_out, hang_up, close_connection, cleaned}
use pusher.Session.Steady.{unsubscribe_from_all_channels-Steady}
use pusher.Session.World.{World, ErrorCode, write, send}
use pusher.Socket.{Ref, Heap, entries}

-- The id is not registered in the app, and no channel of the app has it; the other ids are registered
-- as in the adapter `before`.
pub record Gone (before l : Adapter) (app id : Text) : Type 0 where
  pub tidy : AllTidy l
  pub absent : get (LocalAdapter.sockets l app) id ≡ none
  pub out : (c : Text) → LocalAdapter.is_in_channel l app c id ≡ false
  pub others :
      (j : Text)
      → id ≢ j
      → get (LocalAdapter.sockets l app) j ≡ get (LocalAdapter.sockets before app) j

remove_socket-Gone :
    (h : Heap) (app id : Text) (ws : Ref) (l : Adapter)
    → AllTidy l
    → get (LocalAdapter.sockets l app) id ≡ some ws
    → (l' : Adapter) × (LocalAdapter.remove_socket h app id l ≡ some l') × Gone l l' app id
unfolding LocalAdapter.remove_socket LocalAdapter.sockets update_channel_metrics
    LocalAdapter.is_in_channel get
remove_socket-Gone h app id ws l a e = elim (Option-cases (namespace l app)) [
  | inl f ↦ absurd (ground (arith, f, e))
  | inr (n, f) ↦
      let c : get n.sockets id ≡ some ws = ground (arith, f, e) in
      let (n', done, conn, chan, users) = remove_socket_lem h id ws n (a.at app n f) c in
      let (m, done', t) = Tidy.remove_socket-IsTidy h id n (a.at app n f) in
      let same : m ≡ n' = ground (arith, done, done') in
      let l' = update_channel_metrics (store l app n') app in
      let at = λ (b : Text). get-put (entries l.namespaces) app n' b in
      (
        l',
        ground (arith, f, done),
        record {
          tidy =
              metrics-AllTidy (store l app n') app (store-AllTidy l app n' a (subst IsTidy same t));
          absent = ground (arith, at app, eq_refl app, conn id, eq_refl id);
          out = λ k. ground (arith, at app, eq_refl app, chan id k, eq_refl id);
          others = λ j ne. ground (arith, f, at app, eq_refl app, conn j, eq_iff id j);
        },
      )
]

-- RemoveUser of the namespace touches neither the channels nor the sockets.
remove_user-rest :
    (h : Heap) (ws : Ref) (n n' : Namespace)
    → remove_user h ws n ≡ some n'
    → (n'.channels ≡ n.channels) × (n'.sockets ≡ n.sockets)
unfolding remove_user
remove_user-rest h ws n n' e = elim (Bool-cases (is_nil (h ws).user_id)) [
  | inl z ↦ ground arith
  | inr z ↦ elim (Option-cases (remove_id (h ws).id n.users (h ws).user_id)) [
    | inl f ↦ absurd (ground arith)
    | inr (m, f) ↦ ground arith
  ]
]

remove_user-Gone :
    (h : Heap) (r : Ref) (before l : Adapter) (app id : Text)
    → Gone before l app id
    → (l' : Adapter) × (e : Option LocalAdapter.AdapterError) × (LocalAdapter.remove_user h app r l
        ≡ some (l', e))
      × Gone before l' app id
unfolding LocalAdapter.remove_user LocalAdapter.sockets LocalAdapter.is_in_channel
    Namespace.is_in_channel
remove_user-Gone h r before l app id g = elim (Option-cases (namespace l app)) [
  | inl f ↦ (l, some LocalAdapter.namespace_not_found, ground (arith, f), g)
  | inr (n, f) ↦
      let (n', done, t) = Tidy.remove_user-IsTidy h r n (g.tidy.at app n f) in
      let (chan, conn) = remove_user-rest h r n n' done in
      let at = get-put (entries l.namespaces) app n' app in
      (
        store l app n',
        none,
        ground (arith, f, done),
        record {
          tidy = store-AllTidy l app n' g.tidy t;
          absent = ground (arith, f, at, eq_refl app, conn, g.absent);
          out = λ k. ground (arith, f, at, eq_refl app, chan, g.out k);
          others = λ j ne. ground (arith, f, at, eq_refl app, conn, g.others j ne);
        },
      )
]

detach-Gone :
    (r : Ref) (s : World) (app : App) (ws : Ref)
    → AllTidy s.adapter
    → (s.heap r).app ≡ some app
    → (s.heap r).attached ≡ true
    → get (LocalAdapter.sockets s.adapter app.id) (s.heap r).id ≡ some ws
    → (t : World) × (detach r s ≡ some t)
      × (t.heap ≡ s.heap)
      × Gone s.adapter t.adapter app.id (s.heap r).id
unfolding detach
detach-Gone r s app ws a e att here =
    let (l, done, g) = remove_socket-Gone s.heap app.id (s.heap r).id ws s.adapter a here in
    (record s { adapter = l }, ground (arith, e, att, done), refl, g)

sign_out-Gone :
    (r : Ref) (s : World) (app : App) (before : Adapter) (id : Text)
    → (s.heap r).app ≡ some app
    → (s.heap r).attached ≡ true
    → Gone before s.adapter app.id id
    → (t : World) × (sign_out r s ≡ some t) × (t.heap ≡ s.heap) × Gone before t.adapter app.id id
unfolding sign_out
sign_out-Gone r s app before id e att g = elim (Bool-cases (is_nil (s.heap r).user_id)) [
  | inl z ↦ (s, ground arith, refl, g)
  | inr z ↦
      let (l, err, done, g') = remove_user-Gone s.heap r before s.adapter app.id id g in
      (record s { adapter = l }, ground (arith, e, att, done), refl, g')
]

hang_up-adapter : (r : Ref) (code : ErrorCode) (s : World) → (hang_up r code s).adapter ≡ s.adapter
unfolding hang_up send
hang_up-adapter r code s = ground arith

-- the end of closeConnection: the adapter is as before, and the connection is closed
hung :
    (r : Ref) (code : ErrorCode) (s : World)
    → (t : World) × (some (
          if ((hang_up r code s).heap r).closed
          then hang_up r code s
          else write r (λ w. cleaned) (hang_up r code s))
        ≡ some t)
      × (t.adapter ≡ s.adapter)
      × ((t.heap r).closed ≡ true)
hung r code s =
    let u = hang_up r code s in
    elim (Bool-cases (u.heap r).closed) [
      | inl y ↦ (u, rw y refl, hang_up-adapter r code s, y)
      | inr n ↦
          (write r (λ w. cleaned) u, rw n refl, hang_up-adapter r code s, rw (eqb_self r) refl)
    ]

-- an earlier adapter with the same connections
Gone-from :
    (before mid l : Adapter) (app id : Text)
    → ((j : Text) → get (LocalAdapter.sockets mid app) j ≡ get (LocalAdapter.sockets before app) j)
    → Gone mid l app id
    → Gone before l app id
Gone-from before mid l app id same g = record {
  tidy = g.tidy;
  absent = g.absent;
  out = g.out;
  others = λ j ne. g.others j ne ∙ same j;
}

-- Closing a registered connection of an app, over a tidy adapter and whatever it is subscribed to,
-- ends without a panic: the adapter stays tidy, the connection's id is not registered any more and no
-- channel of the app has it, every other id of the app is registered as before, and the connection is
-- closed.
pub close_connection-Gone :
    (r : Ref) (code : ErrorCode) (s : World) (app : App) (ws : Ref)
    → AllTidy s.adapter
    → (s.heap r).app ≡ some app
    → (s.heap r).attached ≡ true
    → get (LocalAdapter.sockets s.adapter app.id) (s.heap r).id ≡ some ws
    → (t : World) × (close_connection r code s ≡ some t)
      × Gone s.adapter t.adapter app.id (s.heap r).id
      × ((t.heap r).closed ≡ true)
unfolding close_connection
close_connection-Gone r code s app ws a e att here =
    let u = unsubscribe_from_all_channels-Steady r s app a e in
    let s1 = u.after in
    let o = u.steady.owner r in
    let at : get (LocalAdapter.sockets s1.adapter app.id) (s1.heap r).id ≡ some ws =
      ap (get (LocalAdapter.sockets s1.adapter app.id)) o.0 ∙ u.steady.sockets app.id _ ∙ here in
    let (s2, d2, h2, g2) = detach-Gone r s1 app ws (u.steady.tidy a) (o.1 ∙ e) (o.2 ∙ att) at in
    let g : Gone s1.adapter s2.adapter app.id (s.heap r).id =
      subst (Gone s1.adapter s2.adapter app.id) o.0 g2 in
    let e2 : (s2.heap r).app ≡ some app = ap (λ h. (h r).app) h2 ∙ o.1 ∙ e in
    let att2 : (s2.heap r).attached ≡ true = ap (λ h. (h r).attached) h2 ∙ o.2 ∙ att in
    let (s3, d3, h3, g3) = sign_out-Gone r s2 app s1.adapter (s.heap r).id e2 att2 g in
    let (t, ends, same, shut) = hung r code s3 in
    (
      t,
      >>=-some _ u.returns ∙ >>=-some _ d2 ∙ >>=-some _ d3 ∙ ends,
      subst (λ l. Gone s.adapter l app.id (s.heap r).id) (sym same)
          (Gone-from s.adapter s1.adapter s3.adapter app.id _ (u.steady.sockets app.id) g3),
      shut,
    )
