-- ===== src/Horizontal/Unending.antt =====
-- Once it is asked for, the termination of a user's connections goes round the nodes of
-- internal/adaptersHorizontal.go for ever.
use pusher.Prelude.{
  ℕ, ◌+◌, ◌≤◌, ◌<◌, ◌≡◌, refl, sym, ap, true, false, Option, none, some, List, [], ◌∷◌, ◌++◌, arith,
  codes, contains, get, is_some, Text,
}
use mathlib.Core.Path.{subst}
use pusher.Horizontal.{terminate_user_connections}
use pusher.Horizontal.Answering.{RequestBody, plain_request, answer_locally, on_request, terminates}
use pusher.Horizontal.Cluster.{Node}
use pusher.Horizontal.Storm.{
  Parcel, terminate_request, published, Step, Reach, AllTerminating, count_foreign,
  count_foreign-append, count_foreign-to_all, AllTerminating-append, AllTerminating-split,
  to_all-AllTerminating, find_foreign,
}

-- where getNumSub succeeds, the node's request goes to all the others
published_lem :
    (k origin : ℕ) (o : Option ℕ) (id app user : Text)
    → is_some o ≡ true
    → origin < k
    → AllTerminating k (published k origin (terminate_request o id app user))
      × (count_foreign (published k origin (terminate_request o id app user)) + 1 ≡ k)
unfolding published terminate_request
published_lem k origin none id app user h lt = cc
published_lem k origin (some n) id app user h lt =
    let b : RequestBody = record (plain_request terminate_user_connections id app) {
      opts = (codes "userId", user) ∷ [];
    } in
    (
      to_all-AllTerminating k k origin n id app user b (omega arith) refl,
      ground (arith, count_foreign-to_all k origin b, lt),
    )

module _ (k : ℕ) (nodes : ℕ → Node) (num_sub : ℕ → Text → Option ℕ) where
  -- a step takes one parcel away, and puts one for each other node in the place of a foreign one
  step-grows :
      {s t : List Parcel}
      → 2 ≤ k
      → ((i : ℕ) (id : Text) → is_some (num_sub i id) ≡ true)
      → AllTerminating k s
      → Step k nodes num_sub s t
      → AllTerminating k t × (count_foreign s ≤ count_foreign t)
  unfolding count_foreign
  step-grows {s} {t} two works a (Step.asks before after p own app user id es ea et) =
      let (x, is, y) = AllTerminating-split k before p after (subst (AllTerminating k) es a) in
      let more = published k p.target (terminate_request (num_sub p.target id) id app user) in
      let (all_more, many) =
        published_lem k p.target (num_sub p.target id) id app user (works p.target id) is.0 in
      (
        subst (AllTerminating k) (sym et) (
            AllTerminating-append k before (after ++ more) x
              (AllTerminating-append k after more y all_more)),
        ground (
          arith,
          two,
          many,
          ap count_foreign es,
          ap count_foreign et,
          count_foreign-append before (p ∷ after),
          count_foreign-append before (after ++ more),
          count_foreign-append after more,
        ),
      )
  step-grows {s} {t} two works a (Step.ignores before after p own es mine open_ et) =
      let (x, is, y) = AllTerminating-split k before p after (subst (AllTerminating k) es a) in
      (
        subst (AllTerminating k) (sym et) (AllTerminating-append k before after x y),
        ground (
          arith,
          mine,
          ap count_foreign es,
          ap count_foreign et,
          count_foreign-append before (p ∷ after),
          count_foreign-append before after,
        ),
      )

  Reach-grows :
      {s t : List Parcel}
      → 2 ≤ k
      → ((i : ℕ) (id : Text) → is_some (num_sub i id) ≡ true)
      → AllTerminating k s
      → Reach k nodes num_sub s t
      → AllTerminating k t × (count_foreign s ≤ count_foreign t)
  Reach-grows two works a Reach.here = (a, omega arith)
  Reach-grows two works a (Reach.next r st) =
      let (b, le) = Reach-grows two works a r in
      let (c, le') = step-grows two works b st in (c, omega (arith, le, le'))

  -- a request is taken up, unless the node has it among its own
  taken_up :
      (b : RequestBody) (i : ℕ) (own : List Text) (user : Text)
      → b.kind ≡ terminate_user_connections
      → get b.opts (codes "userId") ≡ some user
      → contains own b.request_id ≡ false
      → on_request (nodes i).heap own (some b) (nodes i).adapter ≡ terminates b.app_id user
  unfolding on_request answer_locally
  taken_up b i own user kind e fresh = ground (arith, kind, e, fresh)

  -- On at least two nodes, as long as getNumSub succeeds: once a request to terminate a user's
  -- connections is on its way to a node that has not made it, the requests never come to rest. In
  -- whatever state the network gets to, at least as many such requests are on their way to nodes that
  -- have not made them, and there is a next step.
  pub terminate_never_rests :
      (s t : List Parcel)
      → 2 ≤ k
      → 1 ≤ count_foreign s
      → AllTerminating k s
      → ((i : ℕ) (id : Text) → is_some (num_sub i id) ≡ true)
      → Reach k nodes num_sub s t
      → (count_foreign s ≤ count_foreign t) × ((u : List Parcel) × Step k nodes num_sub t u)
  unfolding contains
  terminate_never_rests s t two some_ a works r =
      let (b, le) = Reach-grows two works a r in
      let (before, p, after, e, foreign) = find_foreign t (omega (arith, some_, le)) in
      let (x, (lt, kind, (user, f)), y) =
        AllTerminating-split k before p after (subst (AllTerminating k) e b) in
      (
        le,
        (
          before
              ++ (after
                  ++ published k p.target
                      (terminate_request (num_sub p.target []) [] p.body.app_id user)),
          Step.asks before after p [] p.body.app_id user [] e
              (taken_up p.body p.target [] user kind f refl) refl,
        ),
      )
