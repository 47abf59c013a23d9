-- ===== src/Api/Guards.antt =====
-- The middlewares of internal/httpMiddlewares.go that every request of the HTTP API passes, in their
-- order. The other two of the group let all requests pass.
use pusher.Prelude.{
  ◌≡◌, refl, sym, ap, ◌∙◌, true, ◌↔◌, Option, none, some, arith, Text, codes, eq_iff, ℤ, pos,
  Option-cases, inl, inr,
}
use mathlib.Core.Path.{subst}
use pusher.App.{App}
use pusher.Auth.{hmac_signature, check_timestamp}
use pusher.Auth.Requests.{Request, Rejection, verify, value, string_to_sign, str_2_int64}
use pusher.Registry.{Registry, find_by_id}

-- the app that a handler gets, or the status 404, 500 or 401
pub data Guarded : Type 0 where
  passes : App → Guarded
  not_found : Guarded
  no_app : Guarded
  unauthorized : Rejection → Guarded

abbrev app_of : Guarded → Option App
app_of (passes app) = some app
app_of _ = none

some_inj : {a b : App} → some a ≡ some b → a ≡ b
some_inj h = cc

missing : {A : Type 0} {a : A} → none ≡ some a → ⊥
missing h = cc

module _ (hmac : Text → Text → Text) (lower upper : Text → Text) where
  -- SignatureMiddleware; the app is `none` where the context has none
  unfoldable pub signature_middleware : ℤ → Option App → Request → Guarded
  signature_middleware now none r = no_app
  signature_middleware now (some app) r = elim (verify hmac lower upper now app.secret r) [
    | none ↦ passes app
    | some e ↦ unauthorized e
  ]

  -- AppMiddleware, and what follows it
  unfoldable pub app_middleware : Registry → ℤ → Text → Request → Guarded
  app_middleware apps now id r = elim (find_by_id apps id) [
    | none ↦ not_found
    | some app ↦ signature_middleware now (some app) r
  ]

  -- Verify accepts
  verify-none_iff :
      (now : ℤ) (secret : Text) (r : Request)
      → (verify hmac lower upper now secret r ≡ none) ↔ (
          (value r.query (codes "auth_version") ≡ codes "1.0")
          × (check_timestamp now (str_2_int64 (value r.query (codes "auth_timestamp"))) (pos 600)
              ≡ true)
          × (hmac_signature hmac (string_to_sign lower upper r) secret
              ≡ value r.query (codes "auth_signature")))
  unfolding verify
  verify-none_iff now secret r =
      let version = eq_iff (value r.query (codes "auth_version")) (codes "1.0") in
      let signature =
        eq_iff (hmac_signature hmac (string_to_sign lower upper r) secret)
          (value r.query (codes "auth_signature")) in
      (
        λ h. (version.0 (ground (arith, h)), ground (arith, h), signature.0 (ground (arith, h))),
        λ (v, t, g). rw (verify, version.1 v, t, signature.1 g) refl,
      )

  guarded_iff :
      (apps : Registry) (now : ℤ) (id : Text) (r : Request) (app : App)
      → (app_middleware apps now id r ≡ passes app)
        ↔ ((find_by_id apps id ≡ some app) × (verify hmac lower upper now app.secret r ≡ none))
  unfolding app_middleware signature_middleware
  guarded_iff apps now id r app = elim (Option-cases (find_by_id apps id)) [
    | inl e ↦
        let run : app_middleware apps now id r ≡ not_found = rw (e, app_middleware) refl in
        (λ h. absurd (missing (ap app_of (sym run ∙ h))), λ (f, v). absurd (missing (sym e ∙ f)))
    | inr (a, e) ↦ elim (Option-cases (verify hmac lower upper now a.secret r)) [
      | inl v ↦
          let run : app_middleware apps now id r ≡ passes a =
            rw (e, v, app_middleware, signature_middleware) refl in
          (
            λ h.
                let is = some_inj (ap app_of (sym run ∙ h)) in
                (e ∙ ap some is, subst (λ x. verify hmac lower upper now x.secret r ≡ none) is v),
            λ (f, w). run ∙ ap passes (some_inj (sym e ∙ f)),
          )
      | inr (w, v) ↦
          let run : app_middleware apps now id r ≡ unauthorized w =
            rw (e, v, app_middleware, signature_middleware) refl in
          (
            λ h. absurd (missing (ap app_of (sym run ∙ h))),
            λ (f, n).
                let here : verify hmac lower upper now app.secret r ≡ some w =
                  subst (λ x. verify hmac lower upper now x.secret r ≡ some w)
                    (some_inj (sym e ∙ f)) v in
                absurd (missing (sym n ∙ here)),
          )
    ]
  ]

  -- A request comes to a handler, for an app, exactly if FindByID finds that app by the id in the path,
  -- the version is 1.0, the timestamp is accepted, and the signature is the hexadecimal HMAC, under the
  -- app's secret, of the method, the path and the sorted parameters without the signature.
  pub app_middleware-passes_iff :
      (apps : Registry) (now : ℤ) (id : Text) (r : Request) (app : App)
      → (app_middleware apps now id r ≡ passes app) ↔ (
          (find_by_id apps id ≡ some app)
          × (value r.query (codes "auth_version") ≡ codes "1.0")
          × (check_timestamp now (str_2_int64 (value r.query (codes "auth_timestamp"))) (pos 600)
              ≡ true)
          × (value r.query (codes "auth_signature")
              ≡ hmac_signature hmac (string_to_sign lower upper r) app.secret))
  app_middleware-passes_iff apps now id r app =
      let (to, from) = guarded_iff apps now id r app in
      let (open_, close_) = verify-none_iff now app.secret r in
      (
        λ h. let (f, v) = to h in let (a, b, c) = open_ v in (f, a, b, sym c),
        λ (f, a, b, c). from (f, close_ (a, b, sym c)),
      )
