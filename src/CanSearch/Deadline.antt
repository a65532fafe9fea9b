-- ===== src/CanSearch/Deadline.antt =====
-- How long a state of teensy/usb_rawhid/can_search.c lasts that no signal interrupts.
use beaverbot.Prelude.{
  ℕ, zero, suc, ◌+◌, ◌≤◌, ◌<◌, ◌≡◌, refl, ◌⊎◌, Option, none, some, ◌>>=◌, >>=-some, arith, ℤ, pos,
  pos_part, ◌∙◌,
}
use beaverbot.CanSearch.{
  SearchState, st_reverse, st_search_wall, st_search_scramble, st_drift_on_wall,
  st_drift_on_wall_hard, st_drift_to_center, Floats, Search, reverse_timeout, search_timeout,
  scramble_timeout, driftonhard_timeout, driftcenter_timeout, stopped,
}
use beaverbot.CanSearch.Machine.{can_search_tick}
use beaverbot.CanSearch.Invariant.{IsLive}
use beaverbot.CanSearch.Ticks.{at_rest, after_tick, after_tick-IsLive, can_search_tick-after_tick}
use beaverbot.CanSearch.Timing.{
  ReverseBlock, SearchBlock, ScrambleBlock, DriftonBlock, DriftonhardBlock, DriftcenterBlock,
  ticked_reverse-ReverseBlock, ticked_search-SearchBlock, ticked_scramble-ScrambleBlock,
  ticked_drifton-DriftonBlock, ticked_driftonhard-DriftonhardBlock,
  ticked_driftcenter-DriftcenterBlock,
}

-- The blocks of one tick, one after another.
record Blocks (s s1 s2 s3 s4 s5 s6 : Search) : Type 0 where
  reverse : ReverseBlock s s1
  search : SearchBlock s1 s2
  scramble : ScrambleBlock s2 s3
  drifton : DriftonBlock s3 s4
  driftonhard : DriftonhardBlock s4 s5
  driftcenter : DriftcenterBlock s5 s6

-- The timer of a state that a timer ends.
unfoldable pub time_of : SearchState → Search → ℤ
time_of st_reverse s = s.reverse_time
time_of st_search_wall s = s.search_time
time_of st_search_scramble s = s.scramble_time
time_of st_drift_on_wall s = s.drifton_time
time_of st_drift_on_wall_hard s = s.driftonhard_time
time_of st_drift_to_center s = s.driftcenter_time
time_of _ s = stopped

-- Its timeout, and the state that follows.
unfoldable pub timeout_of : SearchState → Search → ℕ
timeout_of st_reverse s = reverse_timeout
timeout_of st_search_wall s = search_timeout
timeout_of st_search_scramble s = scramble_timeout
timeout_of st_drift_on_wall s = s.drifton_timeout
timeout_of st_drift_on_wall_hard s = driftonhard_timeout
timeout_of st_drift_to_center s = driftcenter_timeout
timeout_of _ s = 0

unfoldable pub timeout_target : SearchState → Option SearchState
timeout_target st_reverse = some st_drift_on_wall
timeout_target st_search_wall = some st_search_scramble
timeout_target st_search_scramble = some st_search_wall
timeout_target st_drift_on_wall = some st_drift_on_wall_hard
timeout_target st_drift_on_wall_hard = some st_search_wall
timeout_target st_drift_to_center = some st_drift_on_wall
timeout_target _ = none

-- Below its timeout a tick counts the timer on, at the timeout it ends the state.
abbrev Ends : (st target : SearchState) → Search → Search → Type 0
Ends st target s u =
    ((pos_part (time_of st s) < timeout_of st s)
      × (u.current_state ≡ st)
      × (time_of st u ≡ pos (pos_part (time_of st s) + 1))
      × (timeout_of st u ≡ timeout_of st s))
    ⊎ ((timeout_of st s ≤ pos_part (time_of st s)) × (u.current_state ≡ target))

Blocks-Ends :
    (st : SearchState) {target : SearchState} (s s1 s2 s3 s4 s5 s6 : Search)
    → timeout_target st ≡ some target
    → s.current_state ≡ st
    → IsLive at_rest s
    → Blocks s s1 s2 s3 s4 s5 s6
    → Ends st target s s6
unfolding time_of timeout_of timeout_target
Blocks-Ends st_reverse s s1 s2 s3 s4 s5 s6 t e h b = ground arith
Blocks-Ends _ s s1 s2 s3 s4 s5 s6 t e h b = ground arith

module _ (fl : Floats) where
  after_tick-Ends :
      (st : SearchState) {target : SearchState} (s : Search)
      → timeout_target st ≡ some target
      → s.current_state ≡ st
      → IsLive at_rest s
      → Ends st target s (after_tick fl s)
  unfolding after_tick
  after_tick-Ends st s t e h = Blocks-Ends st s _ _ _ _ _ _ t e h (record {
    reverse = ticked_reverse-ReverseBlock fl _;
    search = ticked_search-SearchBlock fl _;
    scramble = ticked_scramble-ScrambleBlock fl _;
    drifton = ticked_drifton-DriftonBlock fl _;
    driftonhard = ticked_driftonhard-DriftonhardBlock fl _;
    driftcenter = ticked_driftcenter-DriftcenterBlock fl _;
  })

  -- Ticks with no signal between them.
  unfoldable pub ticks : ℕ → Search → Option Search
  ticks zero s = some s
  ticks (suc n) s = do t ← can_search_tick fl s; ticks n t

  -- The state lasts for `j` ticks, and its timer counts them.
  pub record Lasts (j : ℕ) (st : SearchState) (s : Search) : Type 0 where
    pub after : Search
    pub ticked : ticks j s ≡ some after
    pub same_state : after.current_state ≡ st
    pub counted : pos_part (time_of st after) ≡ pos_part (time_of st s) + j
    pub same_timeout : timeout_of st after ≡ timeout_of st s
    pub live : IsLive at_rest after

  ticks-Lasts :
      (j : ℕ) (st : SearchState) {target : SearchState} (s : Search)
      → timeout_target st ≡ some target
      → s.current_state ≡ st
      → IsLive at_rest s
      → pos_part (time_of st s) + j ≤ timeout_of st s
      → Lasts j st s
  unfolding ticks
  ticks-Lasts zero st s t e h k = record {
    after = s;
    ticked = refl;
    same_state = e;
    counted = omega arith;
    same_timeout = refl;
    live = h;
  }
  ticks-Lasts (suc n) st {target} s t e h k =
      let one = after_tick-Ends st s t e h in
      let l =
        ticks-Lasts n st {target = target} (after_tick fl s) t (ground arith)
          (after_tick-IsLive fl s h) (ground arith) in
      record {
        after = l.after;
        ticked = >>=-some (ticks n) (can_search_tick-after_tick fl s h) ∙ l.ticked;
        same_state = l.same_state;
        counted = ground (arith, l.counted);
        same_timeout = ground (arith, l.same_timeout);
        live = l.live;
      }

  -- In a live search whose state has a timeout, left alone: after each number of ticks up to the one
  -- that brings the timer to its timeout the state is the same and its timer has counted every tick,
  -- and the next tick ends it, for the state that the timeout leads to.
  pub ticks-timeout_target :
      (j k : ℕ) (st : SearchState) {target : SearchState} (s : Search)
      → timeout_target st ≡ some target
      → s.current_state ≡ st
      → IsLive at_rest s
      → j ≤ k
      → pos_part (time_of st s) + k ≡ timeout_of st s
      → Lasts j st s
        × ((u v : Search) × (ticks k s ≡ some u)
            × (can_search_tick fl u ≡ some v)
            × (v.current_state ≡ target))
  ticks-timeout_target j k st s t e h le there =
      let l = ticks-Lasts k st s t e h (omega arith) in
      (
        ticks-Lasts j st s t e h (omega arith),
        (
          l.after,
          after_tick fl l.after,
          l.ticked,
          can_search_tick-after_tick fl l.after l.live,
          ground
              (arith, after_tick-Ends st l.after t l.same_state l.live, l.counted, l.same_timeout),
        ),
      )
