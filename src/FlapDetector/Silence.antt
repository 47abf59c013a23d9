-- ===== src/FlapDetector/Silence.antt =====
-- Events that internal/queues/flapDetector.go never dispatches, whatever its timers do afterwards.
use pusher.Prelude.{
  ℕ, zero, suc, ◌+◌, ◌≡◌, refl, ap, ◌∙◌, Bool, true, false, ◌&&◌, not, none, some, List, [], ◌∷◌,
  ◌++◌, if◌then◌else◌, arith, all, Option-cases, inl, inr, get_elem?, modify, Text, get,
}
use pusher.FlapDetector.{
  EventType, opposite, Status, armed, cancelled, firing, done, Timer, Detector, cancel, delay,
  check_for_flapping, expire, finish, Step, step, steps, check, expires, finishes, set_status,
}

abbrev pub is_armed : Status → Bool
is_armed armed = true
is_armed cancelled = false
is_armed firing = false
is_armed done = false

module _ {A : Type 0} (p : A → Bool) where
  -- the jobs that pass a test
  unfoldable pub count_jobs : List A → ℕ
  count_jobs [] = 0
  count_jobs (a ∷ l) = (if p a then 1 else 0) + count_jobs l

  -- the timers that wait and whose jobs pass the test
  unfoldable pub count_armed : List (Timer A) → ℕ
  count_armed [] = 0
  count_armed (t ∷ ts) = (if is_armed t.status && p t.job then 1 else 0) + count_armed ts

  -- a step that brings no job that passes the test
  abbrev pub spares : Step A → Bool
  spares (check key e a) = not (p a)
  spares (expires i) = true
  spares (finishes i) = true

  pub count_jobs-append :
      (l : List A) (a : A) → count_jobs (l ++ a ∷ []) ≡ count_jobs l + (if p a then 1 else 0)
  unfolding count_jobs
  count_jobs-append [] a = omega arith
  count_jobs-append (x ∷ l) a = omega (arith, count_jobs-append l a)

  pub count_armed-append :
      (ts : List (Timer A)) (t : Timer A)
      → count_armed (ts ++ t ∷ [])
        ≡ count_armed ts + (if is_armed t.status && p t.job then 1 else 0)
  unfolding count_armed
  count_armed-append [] t = omega arith
  count_armed-append (x ∷ ts) t = omega (arith, count_armed-append ts t)

  pub count_armed-cancel :
      (ts : List (Timer A)) (i : ℕ) (t : Timer A)
      → get_elem? ts i ≡ some t
      → count_armed (modify ts i cancel) + (if is_armed t.status && p t.job then 1 else 0)
        ≡ count_armed ts
  unfolding count_armed
  count_armed-cancel [] i t e = cc
  count_armed-cancel (x ∷ ts) zero t e = ground arith
  count_armed-cancel (x ∷ ts) (suc i) t e = ground (arith, count_armed-cancel ts i t e)

  pub count_armed-firing :
      (ts : List (Timer A)) (i : ℕ) (t : Timer A)
      → get_elem? ts i ≡ some t
      → count_armed (modify ts i (set_status firing))
          + (if is_armed t.status && p t.job then 1 else 0)
        ≡ count_armed ts
  unfolding count_armed
  count_armed-firing [] i t e = cc
  count_armed-firing (x ∷ ts) zero t e = ground arith
  count_armed-firing (x ∷ ts) (suc i) t e = ground (arith, count_armed-firing ts i t e)

  count_armed-done :
      (ts : List (Timer A)) (i : ℕ) (t : Timer A)
      → get_elem? ts i ≡ some t
      → count_armed (modify ts i (set_status done))
          + (if is_armed t.status && p t.job then 1 else 0)
        ≡ count_armed ts
  unfolding count_armed
  count_armed-done [] i t e = cc
  count_armed-done (x ∷ ts) zero t e = ground arith
  count_armed-done (x ∷ ts) (suc i) t e = ground (arith, count_armed-done ts i t e)

  cancel_outside :
      (us : List (Timer A)) (j : ℕ)
      → get_elem? us j ≡ none
      → count_armed (modify us j cancel) ≡ count_armed us
  unfolding count_armed
  cancel_outside [] j e = refl
  cancel_outside (x ∷ us) zero e = cc
  cancel_outside (x ∷ us) (suc j) e =
      ap (λ (n : ℕ). (if is_armed x.status && p x.job then 1 else 0) + n) (cancel_outside us j e)

  -- a cancelled place that is not there changes nothing
  cancel_le :
      (ts : List (Timer A)) (i : ℕ) → count_armed ts ≡ 0 → count_armed (modify ts i cancel) ≡ 0
  cancel_le ts i z = elim (Option-cases (get_elem? ts i)) [
    | inl e ↦ cancel_outside ts i e ∙ z
    | inr (t, e) ↦ omega (arith, z, count_armed-cancel ts i t e)
  ]

  -- no event that passes the test waits, and the log of such events has this length
  record IsSilent (n : ℕ) (d : Detector A) : Type 0 where
    none_waits : count_armed d.timers ≡ 0
    logged : count_jobs d.dispatched ≡ n

  check-IsSilent :
      (n : ℕ) (key : Text) (e : EventType) (a : A) (d : Detector A)
      → p a ≡ false
      → IsSilent n d
      → IsSilent n (check_for_flapping key e a d)
  unfolding check_for_flapping delay
  check-IsSilent n key e a d spared s =
      let t : Timer A = record { key = key; job = a; status = armed } in
      elim (Option-cases (get d.pending key)) [
        | inl free ↦ record {
          none_waits = ground (arith, s.none_waits, spared, free, count_armed-append d.timers t);
          logged = ground (arith, s.logged, spared, free, count_jobs-append d.dispatched a);
        }
        | inr (q, held) ↦ record {
          none_waits = ground (
            arith,
            s.none_waits,
            spared,
            held,
            count_armed-append d.timers t,
            cancel_le d.timers q.timer,
          );
          logged = ground (arith, s.logged, spared, held, count_jobs-append d.dispatched a);
        }
      ]

  expire-IsSilent : (n i : ℕ) (d : Detector A) → IsSilent n d → IsSilent n (expire i d)
  unfolding expire
  expire-IsSilent n i d s = elim (Option-cases (get_elem? d.timers i)) [
    | inl e ↦ rw (e, expire) s
    | inr (t, e) ↦ record {
      none_waits = ground (arith, s.none_waits, e, count_armed-firing d.timers i t);
      logged = ground (
        arith,
        s.logged,
        s.none_waits,
        e,
        count_armed-firing d.timers i t,
        count_jobs-append d.dispatched t.job,
      );
    }
  ]

  finish-IsSilent : (n i : ℕ) (d : Detector A) → IsSilent n d → IsSilent n (finish i d)
  unfolding finish
  finish-IsSilent n i d s = elim (Option-cases (get_elem? d.timers i)) [
    | inl e ↦ rw (e, finish) s
    | inr (t, e) ↦ record {
      none_waits = ground (arith, s.none_waits, e, count_armed-done d.timers i t);
      logged = ground (arith, s.logged, e);
    }
  ]

  steps-IsSilent :
      (n : ℕ) (ss : List (Step A)) (d : Detector A)
      → all spares ss ≡ true
      → IsSilent n d
      → IsSilent n (steps ss d)
  unfolding steps step all
  steps-IsSilent n [] d h s = s
  steps-IsSilent n (check key e a ∷ ss) d h s =
      steps-IsSilent n ss (check_for_flapping key e a d) (ground (arith, h))
        (check-IsSilent n key e a d (ground (arith, h)) s)
  steps-IsSilent n (expires i ∷ ss) d h s =
      steps-IsSilent n ss (expire i d) (ground (arith, h)) (expire-IsSilent n i d s)
  steps-IsSilent n (finishes i ∷ ss) d h s =
      steps-IsSilent n ss (finish i d) (ground (arith, h)) (finish-IsSilent n i d s)

  -- Where no event that passes a test waits, none is dispatched, as long as no call brings one.
  pub steps_silent :
      (ss : List (Step A)) (d : Detector A)
      → all spares ss ≡ true
      → count_armed d.timers ≡ 0
      → count_jobs (steps ss d).dispatched ≡ count_jobs d.dispatched
  steps_silent ss d h z =
      (steps-IsSilent (count_jobs d.dispatched) ss d h
        (record { none_waits = z; logged = refl })).logged

  check_opposite :
      (key : Text) (event : EventType) (second : A) (d : Detector A) (i : ℕ)
      → d.enabled ≡ true
      → get d.pending key ≡ some (record { event_type = event; timer = i })
      → ((check_for_flapping key (opposite event) second d).dispatched ≡ d.dispatched)
        × ((check_for_flapping key (opposite event) second d).timers ≡ modify d.timers i cancel)
  unfolding check_for_flapping
  check_opposite key event second d i on held = (ground arith, ground (arith, on, held))

  -- An event whose timer waits is never dispatched once the opposite event comes in on its key, and nor is
  -- that one: for any test that this event passes and no other event that waits, whatever timers go off
  -- and whatever calls follow that bring no event of the test, as many such events are dispatched as
  -- before. The callback of the cancelled timer may run too.
  pub cancelled_for_good :
      (key : Text) (event : EventType) (second : A) (d : Detector A) (i : ℕ) (t : Timer A)
      (ss : List (Step A))
      → d.enabled ≡ true
      → get d.pending key ≡ some (record { event_type = event; timer = i })
      → get_elem? d.timers i ≡ some t
      → t.status ≡ armed
      → p t.job ≡ true
      → count_armed d.timers ≡ 1
      → all spares ss ≡ true
      → count_jobs (steps (check key (opposite event) second ∷ ss) d).dispatched
        ≡ count_jobs d.dispatched
  unfolding steps step
  cancelled_for_good key event second d i t ss on held at waits passes one spared =
      let (same, timers) = check_opposite key event second d i on held in
      let none_left : count_armed (check_for_flapping key (opposite event) second d).timers ≡ 0 =
        ap count_armed timers
        ∙ ground (arith, count_armed-cancel d.timers i t at, waits, passes, one) in
      steps_silent ss (check_for_flapping key (opposite event) second d) spared none_left
      ∙ ap count_jobs same

  expire_armed :
      (i : ℕ) (d : Detector A) (t : Timer A)
      → get_elem? d.timers i ≡ some t
      → t.status ≡ armed
      → expire i d ≡ record d {
        timers = modify d.timers i (set_status firing);
        dispatched = d.dispatched ++ t.job ∷ [];
      }
  unfolding expire
  expire_armed i d t at waits = ground (arith, at, waits)

  -- If the timer of an event goes off and dispatches it, and the opposite event comes in before the
  -- callback has deleted the entry, the first event has been dispatched and the opposite one never is:
  -- for any test that is passed by no event that waits but perhaps the first one, whatever follows
  -- without a call that brings an event of the test, of such events only the first one is
  -- dispatched, if it passes.
  pub opposite_lost :
      (key : Text) (event : EventType) (second : A) (d : Detector A) (i : ℕ) (t : Timer A)
      (ss : List (Step A))
      → d.enabled ≡ true
      → get d.pending key ≡ some (record { event_type = event; timer = i })
      → get_elem? d.timers i ≡ some t
      → t.status ≡ armed
      → count_armed d.timers ≡ (if p t.job then 1 else 0)
      → all spares ss ≡ true
      → count_jobs (steps (expires i ∷ check key (opposite event) second ∷ ss) d).dispatched
        ≡ count_jobs d.dispatched + (if p t.job then 1 else 0)
  unfolding steps step
  opposite_lost key event second d i t ss on held at waits others spared =
      let d1 = expire i d in
      let is = expire_armed i d t at waits in
      let (same, timers) =
        check_opposite key event second d1 i (ap (λ (x : Detector A). x.enabled) is ∙ on)
          (ap (λ (x : Detector A). get x.pending key) is ∙ held) in
      let none_left : count_armed d1.timers ≡ 0 =
        ap (λ (x : Detector A). count_armed x.timers) is
        ∙ ground (arith, count_armed-firing d.timers i t at, waits, others) in
      steps_silent ss (check_for_flapping key (opposite event) second d1) spared
        (ap count_armed timers ∙ cancel_le d1.timers i none_left)
      ∙ (ap count_jobs same
          ∙ (ap (λ (x : Detector A). count_jobs x.dispatched) is
              ∙ count_jobs-append d.dispatched t.job))
