-- ===== src/DoTool/Stable.antt =====
-- `_StableWatch` of vncdotool/client.py: the wait until a screen stops changing. Times are counted in the unit of
-- `seconds`; the reactor calls `_settle` when the timer runs out.
use awc_remote.Base.{
  ℕ, ◌+◌, ◌≡◌, refl, Bool, true, false, Option, none, some, List, [], ◌∷◌, ◌++◌, if◌then◌else◌,
}

-- `timer` is the time that it is to go off at, and `asked` the refreshes that were asked for, each with `incremental`.
pub record Watch (Frame : Type 0) : Type 0 where
  pub baseline : Option Frame
  pub timer : Option ℕ
  pub settled : Bool
  pub asked : List Bool

-- A rendered screen, and the time at which it is looked at.
abbrev pub Seen : Type 0 → Type 0
Seen Frame = ℕ × Frame

-- `moved frame baseline` is `not imagematch.matches(frame, baseline, fuzz, blur)`.
module _ {Frame : Type 0} (moved : Frame → Frame → Bool) (seconds : ℕ) where
  -- A frame that becomes the baseline, with `_restart`.
  abbrev pub rebase : Seen Frame → Watch Frame → Watch Frame
  rebase (now, frame) w = record w { baseline = some frame; timer = some (now + seconds) }

  abbrev pub ask_screen : Bool → Watch Frame → Watch Frame
  ask_screen incremental w = record w { asked = w.asked ++ incremental ∷ [] }

  -- `__init__` and `start`, with the screen that is there, if there is one.
  unfoldable pub start_watch : Option (Seen Frame) → Watch Frame
  start_watch none = record { baseline = none; timer = none; settled = false; asked = false ∷ [] }
  start_watch (some (now, frame)) = record {
    baseline = some frame;
    timer = some (now + seconds);
    settled = false;
    asked = true ∷ [];
  }

  abbrev pub compare_frame : Seen Frame → Option Frame → Watch Frame → Watch Frame
  compare_frame s none w = ask_screen true (rebase s w)
  compare_frame (now, frame) (some baseline) w =
      ask_screen true (if moved frame baseline then rebase (now, frame) w else w)

  -- `_update` and `_settle`
  unfoldable pub update_watch : Seen Frame → Watch Frame → Watch Frame
  update_watch s w = if w.settled then w else compare_frame s w.baseline w

  abbrev pub settle : Watch Frame → Watch Frame
  settle w = record w { settled = true }

  abbrev pub watch_all : List (Seen Frame) → Watch Frame → Watch Frame
  watch_all [] w = w
  watch_all (s ∷ seen) w = watch_all seen (update_watch s w)

  -- Each of the frames passes for the baseline.
  abbrev pub AllStill : Frame → List (Seen Frame) → Type 0
  AllStill b [] = Unit
  AllStill b ((now, frame) ∷ seen) = (moved frame b ≡ false) × AllStill b seen

  -- The frames so far: those before the window, the baseline with its time, and those since, none of which moved.
  pub record IsWindow (all : List (Seen Frame)) (w : Watch Frame) : Type 0 where
    pub earlier : List (Seen Frame)
    pub since : List (Seen Frame)
    pub now : ℕ
    pub base : Frame
    pub split : all ≡ earlier ++ ((now, base) ∷ since)
    pub still : AllStill base since
    pub based : w.baseline ≡ some base
    pub timed : w.timer ≡ some (now + seconds)
    pub unsettled : w.settled ≡ false

  -- Once the time is up, no frame changes anything, and none is asked for.
  pub update_watch-settle :
      (s : Seen Frame) (w : Watch Frame) → update_watch s (settle w) ≡ settle w
  unfolding update_watch
  update_watch-settle s w = refl
