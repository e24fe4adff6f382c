-- ===== src/Instances/Scaling.antt =====
-- `SupervisorScalingIndicator` of resources/js/components/dashboard/supervisors-table.tsx. The animation's
-- null and the target "steady" are both `steady`. A render with a target, and a tick of the interval, each
-- run the effects that follow.
use horizon_new_dawn.Base.{
  ℕ, zero, suc, ◌+◌, ◌-◌, ◌%◌, ◌<◌, Bool, true, false, not, ◌&&◌, ◌≡◌, refl, ap, ◌∙◌, List, [], ◌∷◌,
  arith, ltb, leb, if◌then◌else◌, ◌==◌, nat_eq, ==-cases, by_test, inl, inr,
}
use horizon_new_dawn.Transitions.Model.{ScalingState, up, down, steady, SupervisorScaling}

unfoldable pub target_state : ℕ → SupervisorScaling → ScalingState
target_state current_processes scaling =
    if ltb current_processes scaling.target_processes
    then up
    else if ltb scaling.target_processes current_processes
    then down
    else steady

pub record Indicator : Type 0 where
  pub animation : ScalingState
  pub filled_block_count : ℕ
  -- the interval's counter, and whether the interval runs
  pub position : ℕ
  pub ticking : Bool

abbrev pub same_state : ScalingState → ScalingState → Bool
same_state up up = true
same_state down down = true
same_state steady steady = true
same_state a b = false

abbrev pub sequence : ScalingState → List ℕ
sequence up = 1 ∷ 2 ∷ 3 ∷ 4 ∷ 5 ∷ []
sequence down = 5 ∷ 4 ∷ 3 ∷ 2 ∷ 1 ∷ []
sequence steady = []

-- `sequence[position]`: no position is out of range.
unfoldable pub block_count : List ℕ → ℕ → ℕ
block_count [] position = 0
block_count (n ∷ ns) zero = n
block_count (n ∷ ns) (suc position) = block_count ns position

-- The effect on `animationState`, for its new value.
unfoldable pub animate : ScalingState → Indicator
unfolding block_count
animate steady = record {
  animation = steady;
  filled_block_count = 0;
  position = 0;
  ticking = false;
}
animate state = record {
  animation = state;
  filled_block_count = block_count (sequence state) 0;
  position = 0;
  ticking = true;
}

-- The first render, with its effects.
abbrev pub mount : ScalingState → Indicator
mount target = animate target

-- The effect on `animationState` and `targetState`.
unfoldable pub render : ScalingState → Indicator → Indicator
unfolding animate
render target i =
    if same_state i.animation steady && not (same_state target steady) then animate target else i

-- The interval's callback, while it runs; `target` is what `targetStateRef` holds.
unfoldable pub tick : ScalingState → Indicator → Indicator
unfolding animate block_count
tick target i =
    let position = (i.position + 1) % 5 in
    if not i.ticking
    then i
    else if (i.position == 4) && not (same_state target i.animation)
    then animate target
    else record i {
      position = position;
      filled_block_count = block_count (sequence i.animation) position;
    }

unfoldable pub ticks : ScalingState → ℕ → Indicator → Indicator
ticks target zero i = i
ticks target (suc n) i = ticks target n (tick target i)

pub data Event : Type 0 where
  rendered ticked : ScalingState → Event

unfoldable pub run : List Event → Indicator → Indicator
unfolding render tick
run [] i = i
run (rendered target ∷ es) i = run es (render target i)
run (ticked target ∷ es) i = run es (tick target i)

-- The block that is drawn at a position, from the top.
unfoldable pub is_filled : ScalingState → ℕ → ℕ → Bool
is_filled state filled_block_count position =
    not (same_state state steady) && leb (5 - filled_block_count) position

-- An indicator that shows no animation has no filled block and no interval; one that does shows the
-- sequence's number at its position.
abbrev pub Fits : ScalingState → ℕ → ℕ → Bool → Type 0
Fits steady filled position ticking = (filled ≡ 0) × (ticking ≡ false)
Fits state filled position ticking =
    (position < 5) × (filled ≡ block_count (sequence state) position) × (ticking ≡ true)

abbrev pub IsShown : Indicator → Type 0
IsShown i = Fits i.animation i.filled_block_count i.position i.ticking

animate-IsShown : (target : ScalingState) → IsShown (animate target)
unfolding animate
animate-IsShown up = (omega arith, refl, refl)
animate-IsShown down = (omega arith, refl, refl)
animate-IsShown steady = (refl, refl)

advanced :
    (state : ScalingState) (filled position : ℕ) (ticking : Bool)
    → Fits state filled position ticking
    → not ticking ≡ false
    → let next = (position + 1) % 5 in Fits state (block_count (sequence state) next) next ticking
advanced up filled position ticking (lt, _, running) _ = (omega arith, refl, running)
advanced down filled position ticking (lt, _, running) _ = (omega arith, refl, running)
advanced steady filled position ticking (_, stopped) running = ground (arith, stopped, running)

tick-IsShown : (target : ScalingState) (i : Indicator) → IsShown i → IsShown (tick target i)
unfolding tick
tick-IsShown target i shown =
    by_test IsShown (not i.ticking) (λ _. shown)
      λ running.
        by_test IsShown ((i.position == 4) && not (same_state target i.animation))
          (λ _. animate-IsShown target)
          λ _. advanced i.animation i.filled_block_count i.position i.ticking shown running

render-IsShown : (target : ScalingState) (i : Indicator) → IsShown i → IsShown (render target i)
unfolding render
render-IsShown target i shown =
    by_test IsShown (same_state i.animation steady && not (same_state target steady))
      (λ _. animate-IsShown target) λ _. shown

-- Whatever targets arrive and whenever the interval fires, an indicator that fits its animation still does:
-- without an animation no block is filled and no interval runs, and with one the blocks are those of its
-- sequence at a position in range.
pub run-IsShown : (es : List Event) (i : Indicator) → IsShown i → IsShown (run es i)
unfolding run
run-IsShown [] i shown = shown
run-IsShown (rendered target ∷ es) i shown =
    run-IsShown es (render target i) (render-IsShown target i shown)
run-IsShown (ticked target ∷ es) i shown =
    run-IsShown es (tick target i) (tick-IsShown target i shown)

same_state_lem : (a b : ScalingState) → not (same_state a b) ≡ false → b ≡ a
same_state_lem up up h = refl
same_state_lem down down h = refl
same_state_lem steady steady h = refl
same_state_lem a b h = ground arith

animation-animate : (target : ScalingState) → (animate target).animation ≡ target
unfolding animate
animation-animate up = refl
animation-animate down = refl
animation-animate steady = refl

tick_at_end :
    (target : ScalingState) (i : Indicator)
    → i.ticking ≡ true
    → i.position ≡ 4
    → (tick target i).animation ≡ target
unfolding tick nat_eq
tick_at_end target i running at_end = rw running (
    rw at_end (
      by_test (λ (j : Indicator). j.animation ≡ target) (not (same_state target i.animation))
        (λ _. animation-animate target) λ same. same_state_lem target i.animation same))

tick_before_end :
    (target : ScalingState) (i : Indicator)
    → i.ticking ≡ true
    → (i.position == 4) ≡ false
    → let position = (i.position + 1) % 5 in
      tick target i ≡ record i {
        position = position;
        filled_block_count = block_count (sequence i.animation) position;
      }
unfolding tick
tick_before_end target i running before = rw (running, before) refl

-- An indicator whose interval runs has the target as its animation after the ticks that are left of its
-- round, from its position to the last one and one more, if the target stays the same meanwhile.
pub ticks_reach_target :
    (target : ScalingState) (k : ℕ) (i : Indicator)
    → i.ticking ≡ true
    → i.position + k ≡ 4
    → (ticks target (suc k) i).animation ≡ target
unfolding ticks
ticks_reach_target target zero i running last = tick_at_end target i running (omega (arith, last))
ticks_reach_target target (suc k) i running left = elim (==-cases i.position 4) [
  | inl (_, at_end) ↦ absurd (omega (arith, left, at_end))
  | inr (before, _) ↦
      ap (λ j. (ticks target (suc k) j).animation) (tick_before_end target i running before)
      ∙ ticks_reach_target target k _ running (omega (arith, left))
]
