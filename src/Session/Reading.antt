-- ===== src/Session/Reading.antt =====
-- How the read loop of internal/websocket.go goes on, and how it ends.
use pusher.Prelude.{
  ◌≡◌, ◌<◌, refl, sym, ap, ◌∙◌, true, false, Option, none, some, List, [], ◌∷◌, ◌++◌, arith, ltb,
  length, Text, get, Bool-cases, Option-cases, inl, inr,
}
use mathlib.Core.Path.{subst}
use pusher.App.{App}
use pusher.LocalAdapter
use pusher.LocalAdapter.{Adapter}
use pusher.LocalAdapter.Calls.{AllTidy}
use pusher.Session.Closing.{Gone, close_connection-Gone}
use pusher.Session.Listening.{
  ReadError, Received, whole, fails, max_message_size, Listener, reading, returned,
  handle_read_message_error, code_of, is_over, round, listen,
}
use pusher.Session.World.{World, ErrorCode, Codec}
use pusher.Socket.{Ref}

abbrev result : World → Listener → Option (World × Listener)
result s l = some (s, l)

result_inj : {s t : World} {l m : Listener} → result s l ≡ result t m → (s ≡ t) × (l ≡ m)
result_inj e = (cc, cc)

no_result : {t : World} {m : Listener} → none ≡ result t m → ⊥
no_result e = cc

not_returned : returned ≡ reading → ⊥
not_returned e = cc

module _ (codec : Codec) (explain : ErrorCode → Text) (r : Ref) where
  listen-over :
      (xs : List Received) (s : World)
      → is_over (s.heap r) ≡ true
      → listen codec explain r xs s ≡ result s returned
  unfolding listen
  listen-over [] s o = rw (listen, o) refl
  listen-over (x ∷ xs) s o = rw (listen, o) refl

  listen-reads :
      (x : Received) (xs : List Received) (s t : World)
      → is_over (s.heap r) ≡ false
      → round codec explain r x s ≡ result t reading
      → listen codec explain r (x ∷ xs) s ≡ listen codec explain r xs t
  unfolding listen
  listen-reads x xs s t o e = rw (listen, o, e) refl

  listen-returns :
      (x : Received) (xs : List Received) (s t : World)
      → is_over (s.heap r) ≡ false
      → round codec explain r x s ≡ result t returned
      → listen codec explain r (x ∷ xs) s ≡ result t returned
  unfolding listen
  listen-returns x xs s t o e = rw (listen, o, e) refl

  listen-panics :
      (x : Received) (xs : List Received) (s : World)
      → is_over (s.heap r) ≡ false
      → round codec explain r x s ≡ none
      → listen codec explain r (x ∷ xs) s ≡ none
  unfolding listen
  listen-panics x xs s o e = rw (listen, o, e) refl

  -- a loop that still reads has an open connection
  reading-open :
      (s t : World)
      → listen codec explain r [] s ≡ result t reading
      → (s ≡ t) × (is_over (s.heap r) ≡ false)
  unfolding listen
  reading-open s t e = elim (Bool-cases (is_over (s.heap r))) [
    | inl y ↦ absurd (not_returned (result_inj (sym (listen-over [] s y) ∙ e)).1)
    | inr n ↦
        let run : listen codec explain r [] s ≡ result s reading = rw (listen, n) refl in
        ((result_inj (sym run ∙ e)).0, n)
  ]

  -- The loop goes on where it was, on an open connection.
  listen-append :
      (xs ys : List Received) (s t : World)
      → listen codec explain r xs s ≡ result t reading
      → (listen codec explain r (xs ++ ys) s ≡ listen codec explain r ys t)
        × (is_over (t.heap r) ≡ false)
  listen-append [] ys s t e =
      let (same, o) = reading-open s t e in
      (ap (listen codec explain r ys) same, subst (λ u. is_over (u.heap r) ≡ false) same o)
  listen-append (x ∷ xs) ys s t e = elim (Bool-cases (is_over (s.heap r))) [
    | inl y ↦ absurd (not_returned (result_inj (sym (listen-over (x ∷ xs) s y) ∙ e)).1)
    | inr n ↦ elim (Option-cases (round codec explain r x s)) [
      | inl f ↦ absurd (no_result (sym (listen-panics x xs s n f) ∙ e))
      | inr ((u, reading), f) ↦
          let (rest, o) = listen-append xs ys u t (sym (listen-reads x xs s u n f) ∙ e) in
          (listen-reads x (xs ++ ys) s u n f ∙ rest, o)
      | inr ((u, returned), f) ↦
          absurd (not_returned (result_inj (sym (listen-returns x xs s u n f) ∙ e)).1)
    ]
  ]

  -- A frame that is longer than the limit ends the loop at once, whatever came before it and whatever
  -- comes after: the state stays what it was, with the connection open and registered as before, and
  -- nothing that the client sends is read any more.
  pub listen_oversized :
      (xs ys : List Received) (msg : Text) (s t : World)
      → listen codec explain r xs s ≡ some (t, reading)
      → max_message_size < length msg
      → (listen codec explain r (xs ++ whole msg ∷ ys) s ≡ some (t, returned))
        × ((t.heap r).closed ≡ false)
        × ((t.heap r).connected ≡ true)
  unfolding round
  listen_oversized xs ys msg s t e big =
      let (goes_on, o) = listen-append xs (whole msg ∷ ys) s t e in
      let large : ltb max_message_size (length msg) ≡ true = ground (arith, big) in
      let run : round codec explain r (whole msg) t ≡ result t returned = rw (round, large) refl in
      (goes_on ∙ listen-returns (whole msg) ys t t o run, ground (arith, o), ground (arith, o))

  -- When reading fails on a registered connection over a tidy adapter, whatever came before, the loop
  -- ends without a panic, and the connection is closed and gone: its id is not registered any more, and
  -- no channel of the app has it.
  pub listen_cut_off :
      (xs ys : List Received) (e : ReadError) (s t : World) (app : App) (ws : Ref)
      → listen codec explain r xs s ≡ some (t, reading)
      → AllTidy t.adapter
      → (t.heap r).app ≡ some app
      → (t.heap r).attached ≡ true
      → get (LocalAdapter.sockets t.adapter app.id) (t.heap r).id ≡ some ws
      → (u : World) × (listen codec explain r (xs ++ fails e ∷ ys) s ≡ some (u, returned))
        × Gone t.adapter u.adapter app.id (t.heap r).id
        × ((u.heap r).closed ≡ true)
  unfolding round handle_read_message_error
  listen_cut_off xs ys e s t app ws reads tidy has att here =
      let (goes_on, o) = listen-append xs (fails e ∷ ys) s t reads in
      let (u, ends, gone, shut) = close_connection-Gone r (code_of e) t app ws tidy has att here in
      let run : round codec explain r (fails e) t ≡ result u returned =
        rw (round, handle_read_message_error, code_of, att, has, ends) refl in
      (u, goes_on ∙ listen-returns (fails e) ys t u o run, gone, shut)
