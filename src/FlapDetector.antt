-- ===== src/FlapDetector.antt =====
-- internal/queues/flapDetector.go: an event waits for a window of time, and an opposite event on the
-- same key within it cancels both. Time is left to the scheduler: a timer may expire at any step. Its
-- callback runs beside CheckForFlapping in two steps, since it takes the mutex only at its end.
pub mod Suppression
pub mod Races
pub mod Silence
use pusher.Prelude.{
  ℕ, Bool, true, false, Option, none, some, List, [], ◌∷◌, ◌++◌, if◌then◌else◌, length, get_elem?,
  modify, Text, Map, get, put, del,
}

pub data EventType : Type 0 where
  connect disconnect : EventType

abbrev pub opposite : EventType → EventType
opposite connect = disconnect
opposite disconnect = connect

abbrev pub same_type : EventType → EventType → Bool
same_type connect connect = true
same_type disconnect disconnect = true
same_type _ _ = false

-- Where a timer is: waiting; stopped with its context cancelled; past the test of the context, with
-- the event dispatched and the mutex still to be taken; at its end.
pub data Status : Type 0 where
  armed cancelled firing done : Status

pub record Timer (A : Type 0) : Type 0 where
  pub key : Text
  pub job : A
  pub status : Status

-- pendingEvent; the timer is named by its place among all timers
pub record Pending : Type 0 where
  pub event_type : EventType
  pub timer : ℕ

-- `dispatched` lists the calls of dispatchFn, in order.
pub record Detector (A : Type 0) : Type 0 where
  pub enabled : Bool
  pub pending : Map Pending
  pub timers : List (Timer A)
  pub dispatched : List A

module _ {A : Type 0} where
  -- Init, with an empty `pending`
  abbrev pub init : Bool → Detector A
  init enabled = record { enabled = enabled; pending = []; timers = []; dispatched = [] }

  -- existing.cancel() and existing.timer.Stop(): of no effect on a callback past its test
  abbrev pub cancel : Timer A → Timer A
  cancel t = record t {
    status = elim t.status [
      | armed ↦ cancelled
      | cancelled ↦ cancelled
      | firing ↦ firing
      | done ↦ done
    ];
  }

  -- the part below "No flap, so delay and fire"
  unfoldable pub delay : Text → EventType → A → Detector A → Detector A
  delay key event job d = record d {
    pending = put d.pending key (record { event_type = event; timer = length d.timers });
    timers = d.timers ++ record { key = key; job = job; status = armed } ∷ [];
  }

  unfoldable pub check_for_flapping : Text → EventType → A → Detector A → Detector A
  check_for_flapping key event job d =
      if d.enabled
      then elim (get d.pending key) [
        | none ↦ delay key event job d
        | some existing ↦
            if same_type existing.event_type (opposite event)
            then record d {
              pending = del d.pending key;
              timers = modify d.timers existing.timer cancel;
            }
            else delay key event job d
      ]
      else record d { dispatched = d.dispatched ++ job ∷ [] }

  abbrev pub set_status : Status → Timer A → Timer A
  set_status s t = record t { status = s }

  -- the callback up to the mutex: a timer that is not waiting does nothing
  unfoldable pub expire : ℕ → Detector A → Detector A
  expire i d = elim (get_elem? d.timers i) [
    | none ↦ d
    | some t ↦ elim t.status [
      | armed ↦ record d {
        timers = modify d.timers i (set_status firing);
        dispatched = d.dispatched ++ t.job ∷ [];
      }
      | _ ↦ d
    ]
  ]

  -- the rest of the callback: the entry of its key is deleted
  unfoldable pub finish : ℕ → Detector A → Detector A
  finish i d = elim (get_elem? d.timers i) [
    | none ↦ d
    | some t ↦ elim t.status [
      | firing ↦ record d {
        timers = modify d.timers i (set_status done);
        pending = del d.pending t.key;
      }
      | _ ↦ d
    ]
  ]

pub data Step (A : Type 0) : Type 0 where
  check : Text → EventType → A → Step A
  expires : ℕ → Step A
  finishes : ℕ → Step A

unfoldable pub step : {A : Type 0} → Step A → Detector A → Detector A
step (check key event job) d = check_for_flapping key event job d
step (expires i) d = expire i d
step (finishes i) d = finish i d

-- any interleaving of the calls and the two parts of the callbacks
unfoldable pub steps : {A : Type 0} → List (Step A) → Detector A → Detector A
steps [] d = d
steps (s ∷ ss) d = steps ss (step s d)
