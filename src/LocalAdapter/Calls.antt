-- ===== src/LocalAdapter/Calls.antt =====
-- The methods of internal/adaptersLocal.go that change state, as calls for one app: none of them
-- panics, and none of them touches another app.
use pusher.Prelude.{
  ◌≡◌, ◌≢◌, refl, sym, inl, inr, Option, some, List, arith, is_some, Text, ◌==◌, eq_iff, get-put,
  Option-cases, Bool-cases, ◌>>=◌,
}
use mathlib.Core.Path.{subst}
use pusher.Socket.{Heap, Ref, entries}
use pusher.Namespace
use pusher.Namespace.{Namespace, blank}
use pusher.Namespace.Tidy
use pusher.Namespace.Tidy.{IsTidy, blank-IsTidy}
use pusher.LocalAdapter.{
  Adapter, namespace, store, or_blank, add_socket, remove_socket, add_to_channel,
  remove_from_channel, add_user, remove_user, clear_namespace, update_channel_metrics,
}

pub data Call : Type 0 where
  connect : Ref → Call
  disconnect : Text → Call
  join : Text → Ref → Call
  leave : List Text → Text → Call
  sign_in : Ref → Call
  sign_out : Ref → Call
  clear : Call

-- The state after a call for an app, errors included; `none` is a panic.
pub invoke : Heap → Text → Call → Adapter → Option Adapter
invoke h app (connect ws) l = some (add_socket h app ws l).0
invoke h app (disconnect id) l = remove_socket h app id l
invoke h app (join channel ws) l = some (add_to_channel h app channel ws l).0
invoke h app (leave cs id) l = do (l', r) ← remove_from_channel app cs id l; some l'
invoke h app (sign_in ws) l = some (add_user h app ws l).0
invoke h app (sign_out ws) l = do (l', r) ← remove_user h app ws l; some l'
invoke h app clear l = some (clear_namespace app l)

-- Every namespace is tidy.
pub record AllTidy (l : Adapter) : Type 0 where
  pub at : (app : Text) (n : Namespace) → namespace l app ≡ some n → IsTidy n

pub store-AllTidy :
    (l : Adapter) (app : Text) (n : Namespace) → AllTidy l → IsTidy n → AllTidy (store l app n)
store-AllTidy l app n a t = record {
  at = λ b m e. elim (Bool-cases (app == b)) [
    | inl same ↦
        let p : n ≡ m = ground (arith, get-put (entries l.namespaces) app n b) in subst IsTidy p t
    | inr other ↦ a.at b m (ground (arith, get-put (entries l.namespaces) app n b))
  ];
}

pub metrics-AllTidy :
    (l : Adapter) (app : Text) → AllTidy l → AllTidy (update_channel_metrics l app)
unfolding update_channel_metrics
metrics-AllTidy l app a = record { at = a.at }

or_blank-IsTidy : (l : Adapter) (app : Text) → AllTidy l → IsTidy (or_blank (namespace l app))
or_blank-IsTidy l app a = elim (Option-cases (namespace l app)) [
  | inl e ↦ rw e blank-IsTidy
  | inr (n, e) ↦ rw e (a.at app n e)
]

-- the state after a call: no panic, all namespaces tidy, and those of the other apps as they were
pub record Contained (app : Text) (l : Adapter) (o : Option Adapter) : Type 0 where
  pub after : Adapter
  pub returns : o ≡ some after
  pub tidy : AllTidy after
  pub others : (b : Text) → app ≢ b → namespace after b ≡ namespace l b

stored :
    (l : Adapter) (app : Text) (n : Namespace)
    → AllTidy l
    → IsTidy n
    → Contained app l (some (store l app n))
stored l app n a t = record {
  after = store l app n;
  returns = refl;
  tidy = store-AllTidy l app n a t;
  others = λ b ne. ground (arith, get-put (entries l.namespaces) app n b, eq_iff app b);
}

pub stored_with_metrics :
    (l : Adapter) (app : Text) (n : Namespace)
    → AllTidy l
    → IsTidy n
    → Contained app l (some (update_channel_metrics (store l app n) app))
unfolding update_channel_metrics
stored_with_metrics l app n a t =
    let s = stored l app n a t in
    record {
      after = update_channel_metrics (store l app n) app;
      returns = refl;
      tidy = metrics-AllTidy (store l app n) app (store-AllTidy l app n a t);
      others = λ b ne. ground (arith, get-put (entries l.namespaces) app n b, eq_iff app b);
    }

unchanged : (l : Adapter) (app : Text) → AllTidy l → Contained app l (some l)
unchanged l app a = record { after = l; returns = refl; tidy = a; others = λ b ne. refl }

connect-Contained :
    (h : Heap) (app : Text) (ws : Ref) (l : Adapter)
    → AllTidy l
    → Contained app l (some (add_socket h app ws l).0)
unfolding add_socket
connect-Contained h app ws l a =
    let n = or_blank (namespace l app) in
    let n' = (Namespace.add_socket h ws n).0 in
    let t = Tidy.add_socket-IsTidy h ws n (or_blank-IsTidy l app a) in
    elim (Option-cases l.namespaces) [
      | inl e ↦
          let p : (add_socket h app ws l).0 ≡ l = ground (arith, e) in
          subst (λ x. Contained app l (some x)) (sym p) (unchanged l app a)
      | inr (m, e) ↦ elim (Bool-cases (Namespace.add_socket h ws n).1) [
        | inl added ↦
            let p : (add_socket h app ws l).0 ≡ update_channel_metrics (store l app n') app =
              ground (arith, e, added) in
            subst (λ x. Contained app l (some x)) (sym p) (stored_with_metrics l app n' a t)
        | inr known ↦
            let p : (add_socket h app ws l).0 ≡ store l app n' = ground (arith, e, known) in
            subst (λ x. Contained app l (some x)) (sym p) (stored l app n' a t)
      ]
    ]

-- A call for one app returns, keeps every namespace tidy and leaves the namespaces of all other apps
-- as they were.
pub invoke-Contained :
    (h : Heap) (app : Text) (c : Call) (l : Adapter)
    → AllTidy l
    → Contained app l (invoke h app c l)
unfolding invoke remove_socket add_to_channel remove_from_channel add_user remove_user
    clear_namespace
invoke-Contained h app (connect ws) l a = connect-Contained h app ws l a
invoke-Contained h app (disconnect id) l a = elim (Option-cases (namespace l app)) [
  | inl e ↦ rw (e, remove_socket) (unchanged l app a)
  | inr (n, e) ↦
      let (n', done, t) = Tidy.remove_socket-IsTidy h id n (a.at app n e) in
      rw (e, done, remove_socket) (stored_with_metrics l app n' a t)
]
invoke-Contained h app (join channel ws) l a = elim (Option-cases (namespace l app)) [
  | inl e ↦ rw (e, add_to_channel) (unchanged l app a)
  | inr (n, e) ↦
      rw (e, add_to_channel)
        (stored_with_metrics l app (Namespace.add_to_channel h ws channel n).0 a
          (Tidy.add_to_channel-IsTidy h ws channel n (a.at app n e)))
]
invoke-Contained h app (leave cs id) l a = elim (Option-cases (namespace l app)) [
  | inl e ↦ rw (e, remove_from_channel) (unchanged l app a)
  | inr (n, e) ↦
      let (n', r, done, t) = Tidy.remove_from_channel-IsTidy id cs n (a.at app n e) in
      rw (e, done, remove_from_channel) (stored_with_metrics l app n' a t)
]
invoke-Contained h app (sign_in ws) l a = elim (Option-cases (namespace l app)) [
  | inl e ↦ rw (e, add_user) (unchanged l app a)
  | inr (n, e) ↦
      rw (e, add_user)
        (stored l app (Namespace.add_user h ws n) a (Tidy.add_user-IsTidy h ws n (a.at app n e)))
]
invoke-Contained h app (sign_out ws) l a = elim (Option-cases (namespace l app)) [
  | inl e ↦ rw (e, remove_user) (unchanged l app a)
  | inr (n, e) ↦
      let (n', done, t) = Tidy.remove_user-IsTidy h ws n (a.at app n e) in
      rw (e, done, remove_user) (stored l app n' a t)
]
invoke-Contained h app clear l a = elim (Bool-cases (is_some (namespace l app))) [
  | inl e ↦ rw (e, clear_namespace) (stored l app blank a blank-IsTidy)
  | inr e ↦ rw (e, clear_namespace) (unchanged l app a)
]
