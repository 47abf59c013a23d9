-- ===== src/Horizontal/Aliasing.antt =====
-- GetSockets of internal/adaptersHorizontal.go writes the answers of other nodes into the namespace.
use pusher.Prelude.{
  ◌+◌, ◌≡◌, refl, ap, ◌∙◌, true, false, some, List, [], ◌∷◌, ◌++◌, arith, length, Text, Map, get,
  put, get-put, eq_refl, leb, >>=-some, inl, inr, is_some, Occurs,
}
use pusher.Socket.{Ref, Heap, entries}
use pusher.Namespace.{Namespace}
use pusher.LocalAdapter
use pusher.LocalAdapter.{Adapter, namespace, store}
use pusher.Horizontal.{sockets, Answer, empty, Arrival, absorb, add_sockets}
use pusher.Horizontal.Queries.{get_sockets}
use pusher.Horizontal.Waiting.{absorb_all, arriving, wait_for_response-all}

has-put :
    (m : Map Ref) (k : Text) (v : Ref) (j : Text)
    → is_some (get m j) ≡ true
    → is_some (get (put m k v) j) ≡ true
has-put m k v j e = ground (arith, get-put m k v j, e)

-- what is there stays there, and what an answer has comes in
add_sockets-keeps :
    (h : Heap) (m a : Map Ref) (j : Text)
    → is_some (get m j) ≡ true
    → is_some (get (add_sockets h m a) j) ≡ true
unfolding add_sockets
add_sockets-keeps h m [] j e = e
add_sockets-keeps h m ((id, ws) ∷ a) j e =
    add_sockets-keeps h (put m (h ws).id ws) a j (has-put m (h ws).id ws j e)

add_sockets-adds :
    (h : Heap) (m a : Map Ref) (id : Text) (ws : Ref)
    → Occurs (id, ws) a
    → is_some (get (add_sockets h m a) (h ws).id) ≡ true
unfolding add_sockets
add_sockets-adds h m ((j, vs) ∷ a) id ws (inl e) =
    let same : vs ≡ ws = ap (λ p. p.1) e in
    add_sockets-keeps h (put m (h vs).id vs) a (h ws).id
      (ground (arith, get-put m (h vs).id vs (h ws).id, same, eq_refl (h ws).id))
add_sockets-adds h m ((j, vs) ∷ a) id ws (inr o) = add_sockets-adds h (put m (h vs).id vs) a id ws o
add_sockets-adds h m [] id ws o = elim o [ ]

absorb_all-keeps :
    (h : Heap) (final : Answer) (rest : List Answer) (j : Text)
    → is_some (get final.sockets j) ≡ true
    → is_some (get (absorb_all h sockets final rest).sockets j) ≡ true
unfolding absorb_all absorb
absorb_all-keeps h final [] j e = e
absorb_all-keeps h final (a ∷ rest) j e =
    absorb_all-keeps h (absorb h sockets final a) rest j
      (add_sockets-keeps h final.sockets a.sockets j e)

-- what an answer has is there at the end
absorb_all-adds :
    (h : Heap) (final : Answer) (heard : List Answer) (a : Answer) (id : Text) (ws : Ref)
    → Occurs a heard
    → Occurs (id, ws) a.sockets
    → is_some (get (absorb_all h sockets final heard).sockets (h ws).id) ≡ true
unfolding absorb_all absorb
absorb_all-adds h final [] a id ws o q = elim o [ ]
absorb_all-adds h final (b ∷ heard) a id ws (inl e) q =
    absorb_all-keeps h (absorb h sockets final b) heard (h ws).id
      (add_sockets-adds h final.sockets b.sockets id ws (rw e q))
absorb_all-adds h final (b ∷ heard) a id ws (inr o) q =
    absorb_all-adds h (absorb h sockets final b) heard a id ws o q

-- After GetSockets over several nodes, with the answers of all others, the asking node's own namespace
-- holds the merged map: the connections of the other nodes stand among its own, and its count of local
-- connections is that of all nodes' connections.
pub get_sockets_writes :
    (h : Heap) (l : Adapter) (app : Text) (n : Namespace) (first b : Answer) (rest : List Answer)
    (later : List Arrival) (id : Text) (ws : Ref)
    → namespace l app ≡ some n
    → Occurs b (first ∷ rest)
    → Occurs (id, ws) b.sockets
    → (l' : Adapter) × (m : Map Ref) × (get_sockets h l app false
          (some (length rest + 2))
          (arriving (first ∷ rest) ++ later)
        ≡ some (l', m))
      × (LocalAdapter.sockets l' app ≡ m)
      × (LocalAdapter.sockets_count l' app ≡ length m)
      × (is_some (get (LocalAdapter.sockets l' app) (h ws).id) ≡ true)
unfolding get_sockets LocalAdapter.sockets LocalAdapter.sockets_count
get_sockets_writes h l app n first b rest later id ws ns o q =
    let start : Answer = record empty { sockets = LocalAdapter.sockets l app } in
    let many : leb (length rest + 2) 1 ≡ false = ground arith in
    let e =
      wait_for_response-all h sockets (length rest + 2) 0 start first rest later (λ x. refl)
        (omega arith) in
    let m = (absorb_all h sockets start (first ∷ rest)).sockets in
    let l' = store l app (record n { sockets = m }) in
    let has = absorb_all-adds h start (first ∷ rest) b id ws o q in
    let at = get-put (entries l.namespaces) app (record n { sockets = m }) app in
    (
      l',
      m,
      rw many (>>=-some _ e ∙ ap (λ x. some (x, m)) (ground (arith, ns))),
      ground (arith, at, eq_refl app),
      ground (arith, at, eq_refl app),
      ground (arith, at, eq_refl app, has),
    )
