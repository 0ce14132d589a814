-- ===== src/Engine/Fsm/Runs.antt =====
-- state_machine.py: what holds of any sequence of triggers, where the caller reports a refused
-- trigger and goes on, as the API handlers do.
use sutram.Prelude.{
  ℕ, suc, String, List, [], ◌∷◌, Option-cases, Bool, true, false, ◌≡◌, ◌⊎◌, inl, inr, arith, Result,
  ok, err, length, ◌+◌,
}
use sutram.Models.{ExecutionStatus, completed, failed, cancelled}
use sutram.Engine.Fsm.{
  ExecutionFsm, InvalidTransitionError, transition, can_transition, lookup, transitions,
}

-- One more trigger, and how many have been refused.
abbrev pub refused {ℓ} : {A : Type ℓ} → Result InvalidTransitionError A → ℕ → ℕ
refused (ok a) n = n
refused (err e) n = suc n

unfoldable pub drive : ExecutionFsm → ℕ → List String → ExecutionFsm × ℕ
drive fsm n [] = (fsm, n)
drive fsm n (t ∷ ts) = drive (transition fsm t).1 (refused (transition fsm t).0 n) ts

abbrev pub is_terminal : ExecutionStatus → Bool
is_terminal completed = true
is_terminal failed = true
is_terminal cancelled = true
is_terminal _ = false

transition-terminal :
    (fsm : ExecutionFsm) (t : String)
    → is_terminal fsm.status ≡ true
    → transition fsm t ≡ (err (record { status = fsm.status; trigger = t }), fsm)
unfolding transition
transition-terminal fsm t h = ground arith

-- From a terminal status, every trigger of every sequence is refused and the machine stays.
pub drive-terminal :
    (fsm : ExecutionFsm) (n : ℕ) (ts : List String)
    → is_terminal fsm.status ≡ true
    → drive fsm n ts ≡ (fsm, n + length ts)
unfolding drive
drive-terminal fsm n [] h = ground arith
drive-terminal fsm n (t ∷ ts) h =
    ground (arith, transition-terminal fsm t h, drive-terminal fsm (suc n) ts h)

-- `can_transition` answers whether `transition` succeeds; a refused trigger changes nothing.
pub transition-can_transition :
    (fsm : ExecutionFsm) (t : String)
    → ((can_transition fsm t ≡ true)
        × (transition fsm t ≡ (ok (transition fsm t).1.status, (transition fsm t).1)))
      ⊎ ((can_transition fsm t ≡ false)
          × (transition fsm t ≡ (err (record { status = fsm.status; trigger = t }), fsm)))
unfolding transition can_transition
transition-can_transition fsm t = elim (Option-cases (lookup t (transitions fsm.status))) [
  | inl e ↦ inr (ground arith, ground arith)
  | inr (n, e) ↦ inl (ground arith, ground arith)
]
