-- ===== src/Session/Quiet.antt =====
-- Steps of internal/websocket.go that only the connection that asked for them notices.
use pusher.Prelude.{
  ◌≡◌, refl, sym, ap, ◌∙◌, false, ◌||◌, not, List, [], ◌∷◌, ◌++◌, append-nil, append_assoc, eqb,
  if_both,
}
use pusher.Session.World.{World, Frame, send}
use pusher.Socket.{Ref}

-- the frames, all to one connection
pub own : Ref → List Frame → List (Ref × Frame)
own r [] = []
own r (f ∷ fs) = (r, f) ∷ own r fs

own-append : (r : Ref) (fs gs : List Frame) → own r (fs ++ gs) ≡ own r fs ++ own r gs
unfolding own
own-append r [] gs = refl
own-append r (f ∷ fs) gs = ap (λ l. (r, f) ∷ l) (own-append r fs gs)

-- Nothing but the connection's own object has changed, and only the connection itself was written to.
pub record Quiet (r : Ref) (s t : World) : Type 0 where
  pub adapter : t.adapter ≡ s.adapter
  pub cache : t.cache ≡ s.cache
  pub detector : t.detector ≡ s.detector
  pub heap : (q : Ref) → eqb r q ≡ false → t.heap q ≡ s.heap q
  pub sent : List Frame
  pub frames : t.frames ≡ s.frames ++ own r sent

pub Quiet-refl : (r : Ref) (s : World) → Quiet r s s
unfolding own
Quiet-refl r s = record {
  adapter = refl;
  cache = refl;
  detector = refl;
  heap = λ q ne. refl;
  sent = [];
  frames = sym (append-nil s.frames);
}

pub Quiet-trans : {r : Ref} {s t u : World} → Quiet r s t → Quiet r t u → Quiet r s u
Quiet-trans {r} {s} a b = record {
  adapter = b.adapter ∙ a.adapter;
  cache = b.cache ∙ a.cache;
  detector = b.detector ∙ a.detector;
  heap = λ q ne. b.heap q ne ∙ a.heap q ne;
  sent = a.sent ++ b.sent;
  frames =
      b.frames
      ∙ ap (λ l. l ++ own r b.sent) a.frames
      ∙ append_assoc s.frames (own r a.sent) (own r b.sent)
      ∙ ap (λ l. s.frames ++ l) (sym (own-append r a.sent b.sent));
}

pub send-Quiet : (r : Ref) (f : Frame) (s : World) → Quiet r s (send r f s)
unfolding send own
send-Quiet r f s =
    if_both ((s.heap r).closed || not (s.heap r).connected) (Quiet r s) (Quiet-refl r s) (
      if_both (s.reachable r) (Quiet r s)
        (record {
          adapter = refl;
          cache = refl;
          detector = refl;
          heap = λ q ne. refl;
          sent = f ∷ [];
          frames = refl;
        })
        (record {
          adapter = refl;
          cache = refl;
          detector = refl;
          heap = λ q ne. rw ne refl;
          sent = [];
          frames = sym (append-nil s.frames);
        }))
