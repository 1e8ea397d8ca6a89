-- ===== src/Session/Transition.antt =====
-- crates/velum-session/src/transition.rs: which epochs are valid while a carrier changes.
use velum.Prelude.{
  ◌+◌, ◌≡◌, ◌<◌, ◌↔◌, ◌⊎◌, Bool, false, Option, none, some, ltb, ◌==◌, if◌then◌else◌, arith, Run,
  done, and_run, expect, checked_add,
}
use velum.Protocol.Types.{Epoch}

pub record TransitionState : Type 0 where
  pub current : Epoch
  pub retiring : Option Epoch

pub data EpochValidity : Type 0 where
  current_epoch retiring_epoch stale future : EpochValidity

-- `TransitionState::new`
unfoldable pub new_transition : Epoch → TransitionState
new_transition current = record { current = current; retiring = none }

-- `TransitionState::advance`: the new state, and the new epoch unless a transition is under way.
unfoldable pub advance : TransitionState → Run (TransitionState × Option Epoch)
advance self = elim self.retiring [
  | some _ ↦ done (self, none)
  | none ↦
      and_run (expect (checked_add self.current 1))
        λ next. done (record { current = next; retiring = some self.current }, some next)
]

-- `TransitionState::retire_previous`
unfoldable pub retire_previous : TransitionState → TransitionState
retire_previous self = record self { retiring = none }

-- `Some(epoch) == self.retiring`
unfoldable pub is_retiring : Epoch → Option Epoch → Bool
is_retiring epoch none = false
is_retiring epoch (some retiring) = epoch == retiring

-- `TransitionState::validate`
unfoldable pub validate : TransitionState → Epoch → EpochValidity
unfolding is_retiring
validate self epoch =
    if epoch == self.current
    then current_epoch
    else (if is_retiring epoch self.retiring
        then retiring_epoch
        else (if ltb epoch self.current then stale else future))

-- The retiring epoch is the one before the current.
abbrev pub Retires : Option Epoch → Epoch → Type 0
Retires none current = Unit {0}
Retires (some r) current = r + 1 ≡ current

abbrev pub IsTransition : TransitionState → Type 0
IsTransition s = Retires s.retiring s.current

advance_at :
    (current : Epoch) (retiring : Option Epoch) (s' : TransitionState) (r : Option Epoch)
    → Retires retiring current
    → advance (record { current = current; retiring = retiring }) ≡ done (s', r)
    → IsTransition s'
unfolding advance
advance_at current none s' r t h = ground arith
advance_at current (some x) s' r t h =
    let same : ◌≡◌ {A = TransitionState} (record { current = current; retiring = some x }) s' =
      cc in
    rw (← same) t

pub advance-IsTransition :
    (s s' : TransitionState) (r : Option Epoch)
    → IsTransition s
    → advance s ≡ done (s', r)
    → IsTransition s'
advance-IsTransition s s' r t h = advance_at s.current s.retiring s' r t h

validate-window_at :
    (current : Epoch) (retiring : Option Epoch) (epoch : Epoch)
    → Retires retiring current
    → let s : TransitionState = record { current = current; retiring = retiring } in
      ((validate s epoch ≡ stale)
        ↔ ((epoch < current) × ((retiring ≡ none) ⊎ (epoch + 1 < current))))
      × ((validate s epoch ≡ future) ↔ (current < epoch))
unfolding validate
validate-window_at current none epoch t =
    ((λ e. ground arith, λ e. ground arith), (λ e. ground arith, λ e. ground arith))
validate-window_at current (some r) epoch t =
    ((λ e. ground arith, λ e. ground arith), (λ e. ground arith, λ e. ground arith))

-- While the retiring epoch, if there is one, is the one before the current: an epoch is stale
-- exactly when it is below the current one and is not that retiring one, and future exactly when
-- it is above the current one.
pub validate-window :
    (s : TransitionState) (epoch : Epoch)
    → IsTransition s
    → ((validate s epoch ≡ stale)
        ↔ ((epoch < s.current) × ((s.retiring ≡ none) ⊎ (epoch + 1 < s.current))))
      × ((validate s epoch ≡ future) ↔ (s.current < epoch))
validate-window s epoch t = validate-window_at s.current s.retiring epoch t
