-- ===== src/FlapDetector/Suppression.antt =====
-- What internal/queues/flapDetector.go does with a pair of opposite events.
use pusher.Prelude.{
  ◌≡◌, refl, ap, true, none, List, [], ◌∷◌, ◌++◌, arith, length, modify, Text, eq_iff, eq_refl, get,
  put, get-put, get-del,
}
use pusher.FlapDetector.{
  EventType, opposite, armed, cancelled, Timer, Pending, Detector, cancel, delay,
  check_for_flapping,
}

modify-append_last :
    {A : Type 0} (f : A → A) (xs : List A) (x : A)
    → modify (xs ++ x ∷ []) (length xs) f ≡ xs ++ f x ∷ []
modify-append_last f [] x = refl
modify-append_last f (y ∷ xs) x = ap (◌∷◌ y) (modify-append_last f xs x)

-- With detection on and nothing pending on the key, an event and its opposite, one straight after the
-- other, dispatch nothing, leave the pending events as they were, and leave one more timer, which is
-- cancelled.
pub flap_suppressed :
    {A : Type 0} (key : Text) (event : EventType) (first second : A) (d : Detector A)
    → d.enabled ≡ true
    → get d.pending key ≡ none
    → ((check_for_flapping key
          (opposite event)
          second
          (check_for_flapping key event first d)).dispatched
        ≡ d.dispatched)
      × ((check_for_flapping key
            (opposite event)
            second
            (check_for_flapping key event first d)).timers
          ≡ d.timers ++ record { key = key; job = first; status = cancelled } ∷ [])
      × ((k : Text)
          → get
              (check_for_flapping key
                (opposite event)
                second
                (check_for_flapping key event first d)).pending
              k
            ≡ get d.pending k)
unfolding check_for_flapping delay
flap_suppressed {A} key event first second d on clear =
    let p : Pending = record { event_type = event; timer = length d.timers } in
    let t : Timer A = record { key = key; job = first; status = armed } in
    (
      ground (arith, get-put d.pending key p key, eq_refl key),
      ground
          (arith, get-put d.pending key p key, eq_refl key, modify-append_last cancel d.timers t),
      λ k. ground (
        arith,
        get-put d.pending key p key,
        eq_refl key,
        get-put d.pending key p k,
        get-del (put d.pending key p) key k,
        eq_iff key k,
      ),
    )
