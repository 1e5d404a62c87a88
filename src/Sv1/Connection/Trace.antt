-- ===== src/Sv1/Connection/Trace.antt =====
-- What holds of everything that a connection sends, by what it sent before:
-- `handle_connection` of crates/datum-stratum-sv1/src/server.rs.
pub mod Difficulty
pub mod Shares
use datum_rs.Common.{
  ◌≡◌, refl, Bool, true, false, if◌then◌else◌, List, [], ◌∷◌, ◌++◌, Option, some, none,
}
use datum_rs.Sv1.Connection.{Json, Connection, Output, Event, Watched, Settings}
use datum_rs.Sv1.Connection.Steps.{turn, turns}

-- The outputs so far, the latest first.
abbrev pub remember {ℓ} : {A : Type ℓ} → List A → List A → List A
remember past [] = past
remember past (o ∷ rest) = remember (o ∷ past) rest

module _ (json : Json) (Allowed : List (Output json) → Output json → Type 0) where
  abbrev pub Trace : List (Output json) → List (Output json) → Type 0
  Trace past [] = Unit
  Trace past (o ∷ rest) = Allowed past o × Trace (o ∷ past) rest

  pub Trace-append :
      (past sent rest : List (Output json))
      → Trace past sent
      → Trace (remember past sent) rest
      → Trace past (sent ++ rest)
  Trace-append past [] rest h k = k
  Trace-append past (o ∷ sent) rest h k = (h.0, Trace-append (o ∷ past) sent rest h.1 k)

  module _ (Holds : List (Output json) → Connection → Type 0) where
    abbrev pub Keeps : List (Output json) → List (Output json) × Connection → Type 0
    Keeps past (sent, c) = Trace past sent × Holds (remember past sent) c

    pub either_way :
        (past : List (Output json)) (b : Bool) (r s : List (Output json) × Connection)
        → (b ≡ true → Keeps past r)
        → Keeps past s
        → Keeps past (if b then r else s)
    either_way past true r s h k = h refl
    either_way past false r s h k = k

    abbrev pub HoldsAfter : List (Output json) → Option Connection → Type 0
    HoldsAfter past none = Unit
    HoldsAfter past (some c) = Holds past c

    -- One turn sends what is allowed, and keeps what holds of the state.
    abbrev pub IsKept : List (Output json) → List (Output json) × Option Connection → Type 0
    IsKept past (sent, next) = Trace past sent × HoldsAfter (remember past sent) next

    module _ (settings : Settings)
        (kept : (watched : Watched json) (event : Event json) (past : List (Output json))
            (c : Connection)
          → Holds past c
          → IsKept past (turn json settings watched event c)) where
      pub turns-Trace :
          (events : List (Watched json × Event json)) (past : List (Output json)) (c : Connection)
          → Holds past c
          → Trace past (turns json settings events c)
      unfolding turns
      turns-Trace [] past c h = tt
      turns-Trace ((watched, event) ∷ rest) past c h =
          following (turn json settings watched event c) (turns-Trace rest)
            (kept watched event past c h)
        where
          following :
              (step : List (Output json) × Option Connection)
              → ((now : List (Output json)) (after : Connection)
                  → Holds now after
                  → Trace now (turns json settings rest after))
              → IsKept past step
              → Trace past (
                  step.0 ++ elim step.1 [ none ↦ [] | some after ↦ turns json settings rest after ])
          following (sent, none) later k = Trace-append past sent [] k.0 tt
          following (sent, some after) later k =
              Trace-append past sent (turns json settings rest after) k.0
                (later (remember past sent) after k.1)
