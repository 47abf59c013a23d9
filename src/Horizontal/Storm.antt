-- ===== src/Horizontal/Storm.antt =====
-- TerminateUserConnections of internal/adaptersHorizontal.go: each node that is asked asks again.
use pusher.Prelude.{
  ℕ, zero, suc, ◌+◌, ◌≤◌, ◌<◌, ◌≡◌, refl, ap, Bool, true, not, contains, Option, none, some, List,
  [], ◌∷◌, ◌++◌, arith, Text, codes, get, ◌==◌, eqb, ltb, if◌then◌else◌, Bool-cases, inl, inr,
}
use pusher.Horizontal.{terminate_user_connections}
use pusher.Horizontal.Answering.{RequestBody, plain_request, terminates, on_request}
use pusher.Horizontal.Cluster.{Node}

-- the request that TerminateUserConnections sends, `none` where getNumSub has an error
unfoldable pub terminate_request : Option ℕ → Text → Text → Text → Option RequestBody
terminate_request none id app user = none
terminate_request (some n) id app user =
    some (record (plain_request terminate_user_connections id app) {
      opts = (codes "userId", user) ∷ [];
    })

-- A request on its way: the node it goes to, the node that has made it, and the request.
pub record Parcel : Type 0 where
  pub target : ℕ
  pub origin : ℕ
  pub body : RequestBody

-- a request is published: all of `k` nodes get it, also the asking one
unfoldable pub to_all : ℕ → ℕ → RequestBody → List Parcel
to_all zero origin b = []
to_all (suc k) origin b = record { target = k; origin = origin; body = b } ∷ to_all k origin b

unfoldable pub published : ℕ → ℕ → Option RequestBody → List Parcel
published k origin none = []
published k origin (some b) = to_all k origin b

-- What one of `k` nodes does with a request that arrives, in any order. `own` are the ids of its requests
-- that are open at that moment; ids are fresh, so the id of another node's request is not among them.
-- `num_sub` is what getNumSub gives the node for the request that it makes under this id.
pub data Step (k : ℕ) (nodes : ℕ → Node) (num_sub : ℕ → Text → Option ℕ) (s t : List Parcel)
    : Type 0 where
  -- the node calls TerminateUserConnections, which publishes a request of its own or has an error
  asks :
      (before after : List Parcel) (p : Parcel) (own : List Text) (app user id : Text)
      → s ≡ before ++ p ∷ after
      → on_request (nodes p.target).heap own (some p.body) (nodes p.target).adapter
        ≡ terminates app user
      → t
        ≡ before
          ++ (after ++ published k p.target (terminate_request (num_sub p.target id) id app user))
      → Step k nodes num_sub s t
  -- the request is the node's own and still open
  ignores :
      (before after : List Parcel) (p : Parcel) (own : List Text)
      → s ≡ before ++ p ∷ after
      → p.target ≡ p.origin
      → contains own p.body.request_id ≡ true
      → t ≡ before ++ after
      → Step k nodes num_sub s t

pub data Reach (k : ℕ) (nodes : ℕ → Node) (num_sub : ℕ → Text → Option ℕ) (s : List Parcel)
    : List Parcel → Type 0 where
  here : Reach k nodes num_sub s s
  next :
      {t u : List Parcel}
      → Reach k nodes num_sub s t
      → Step k nodes num_sub t u
      → Reach k nodes num_sub s u

-- the parcel has come from another node
abbrev pub is_foreign : Parcel → Bool
is_foreign p = not (eqb p.target p.origin)

-- the requests on their way to nodes that have not made them
unfoldable pub count_foreign : List Parcel → ℕ
count_foreign [] = 0
count_foreign (p ∷ ps) = (if is_foreign p then 1 else 0) + count_foreign ps

-- The parcel is for one of the nodes, and asks to terminate the connections of a user.
abbrev pub IsTerminating : ℕ → Parcel → Type 0
IsTerminating k p =
    (p.target < k)
    × (p.body.kind ≡ terminate_user_connections)
    × ((user : Text) × (get p.body.opts (codes "userId") ≡ some user))

abbrev pub AllTerminating : ℕ → List Parcel → Type 0
AllTerminating k [] = Unit {0}
AllTerminating k (p ∷ ps) = IsTerminating k p × AllTerminating k ps

pub AllTerminating-append :
    (k : ℕ) (xs ys : List Parcel)
    → AllTerminating k xs
    → AllTerminating k ys
    → AllTerminating k (xs ++ ys)
AllTerminating-append k [] ys a b = b
AllTerminating-append k (x ∷ xs) ys a b = (a.0, AllTerminating-append k xs ys a.1 b)

pub AllTerminating-split :
    (k : ℕ) (xs : List Parcel) (p : Parcel) (ys : List Parcel)
    → AllTerminating k (xs ++ p ∷ ys)
    → AllTerminating k xs × IsTerminating k p × AllTerminating k ys
AllTerminating-split k [] p ys a = (tt, a.0, a.1)
AllTerminating-split k (x ∷ xs) p ys a =
    let (b, c, d) = AllTerminating-split k xs p ys a.1 in ((a.0, b), c, d)

pub count_foreign-append :
    (xs ys : List Parcel) → count_foreign (xs ++ ys) ≡ count_foreign xs + count_foreign ys
unfolding count_foreign
count_foreign-append [] ys = omega arith
count_foreign-append (x ∷ xs) ys = omega (arith, count_foreign-append xs ys)

pub count_foreign-to_all :
    (k origin : ℕ) (b : RequestBody)
    → count_foreign (to_all k origin b) + (if ltb origin k then 1 else 0) ≡ k
unfolding to_all count_foreign
count_foreign-to_all zero origin b = ground arith
count_foreign-to_all (suc k) origin b = ground (arith, count_foreign-to_all k origin b)

pub to_all-AllTerminating :
    (j k origin : ℕ) (n : ℕ) (id app user : Text) (b : RequestBody)
    → j ≤ k
    → terminate_request (some n) id app user ≡ some b
    → AllTerminating k (to_all j origin b)
unfolding to_all terminate_request get ◌==◌
to_all-AllTerminating zero k origin n id app user b le e = tt
to_all-AllTerminating (suc j) k origin n id app user b le e = (
  (omega (arith, le), ground (arith, e), (user, ground (arith, e))),
  to_all-AllTerminating j k origin n id app user b (omega (arith, le)) e,
)

-- a request from another node, where there is one
pub find_foreign :
    (ps : List Parcel)
    → 1 ≤ count_foreign ps
    → (before : List Parcel) × (p : Parcel) × (after : List Parcel) × (ps ≡ before ++ p ∷ after)
      × (is_foreign p ≡ true)
unfolding count_foreign
find_foreign [] h = absurd (omega (arith, h))
find_foreign (p ∷ ps) h = elim (Bool-cases (is_foreign p)) [
  | inl y ↦ ([], p, ps, refl, y)
  | inr n ↦
      let (before, q, after, e, f) = find_foreign ps (ground (arith, h, n)) in
      (p ∷ before, q, after, ap (λ l. p ∷ l) e, f)
]
